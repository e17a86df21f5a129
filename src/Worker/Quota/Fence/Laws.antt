-- ===== src/Worker/Quota/Fence/Laws.antt =====
-- cmd/worker/quota_restart.go: theorems on fenceQuotaSite.
use panel4wp.Prelude.{◌≡◌, inl, inr, false, ◌||◌, some, List, Text, All, ||_false, Option-cases}
use panel4wp.Files.{Write}
use panel4wp.Worker.Docker.{Docker, Container, quota_containers}
use panel4wp.Worker.Docker.Laws.{
  DockerLaws, IsDown, fence_containers-IsDown, quota_containers-IsSeen,
}
use panel4wp.Worker.Docker.Jobs.{remove_owned_jobs}
use panel4wp.Worker.Quota.Intent.{
  IntentCodec, IntentRoundTrip, HasIntent, save_quota_intent, save_quota_intent-HasIntent,
}
use panel4wp.Worker.Quota.Fence.{Host, fence_listed, fence_quota_site}

-- The site's containers were listed and every one is down, and the intent is stored.
pub record IsFenced {D : Type 0} (k : Docker D) (l : DockerLaws k) (c : IntentCodec)
    (id state : Text) (before : D) (h : Host D) : Type 0 where
  pub containers : List Container
  pub listed : quota_containers k id before ≡ some containers
  pub down : All (IsDown l h.daemon) containers
  pub intent : HasIntent c h.intent state

listed-IsDown :
    {D : Type 0} (k : Docker D) (l : DockerLaws k) (id : Text) (d : D)
    → (fence_listed k (quota_containers k id d) d).1 ≡ false
    → (cs : List Container) × (quota_containers k id d ≡ some cs)
      × All (IsDown l (fence_listed k (quota_containers k id d) d).0) cs
unfolding fence_listed
listed-IsDown k l id d h = elim (Option-cases (quota_containers k id d)) [
  | inl n ↦ cc (rw n at h)
  | inr (cs, n) ↦ (
    cs,
    n,
    rw n (fence_containers-IsDown k l cs d (quota_containers-IsSeen k l id d n) (rw n at h)),
  )
]

-- A fence that reports no error has stored the intent and has taken down every container of the site
-- that Docker listed once the site's jobs were removed.
pub fence_quota_site-IsFenced :
    {D : Type 0} (k : Docker D) (l : DockerLaws k) (c : IntentCodec) (w : Write) (id state : Text)
    (h : Host D)
    → IntentRoundTrip c
    → (fence_quota_site k c w id state h).1 ≡ false
    → IsFenced k l c id state
        (remove_owned_jobs k id h.daemon).0
        (fence_quota_site k c w id state h).0
unfolding fence_quota_site
fence_quota_site-IsFenced k l c w id state h rt e =
    let d = (remove_owned_jobs k id h.daemon).0 in
    let (parts, no_jobs) =
      ||_false
        ((fence_listed k (quota_containers k id d) d).1
          || (save_quota_intent c w id state h.intent).1)
        _ e in
    let (a, intent) = ||_false (fence_listed k (quota_containers k id d) d).1 _ parts in
    let (cs, n, down) = listed-IsDown k l id (remove_owned_jobs k id h.daemon).0 a in
    record {
      containers = cs;
      listed = n;
      down = down;
      intent = save_quota_intent-HasIntent c w id state h.intent rt intent;
    }
