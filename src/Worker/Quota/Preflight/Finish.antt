-- ===== src/Worker/Quota/Preflight/Finish.antt =====
-- cmd/worker/quota_restart.go: theorems on finishQuotaWrite, and on quotaPreflight when it fails.
use mathlib.Core.Path.{subst}
use panel4wp.Prelude.{◌≡◌, refl, sym, ◌⊎◌, inl, inr, Bool, true, false, Bool-cases, codes}
use panel4wp.Worker.Docker.Laws.{DockerLaws}
use panel4wp.Worker.Docker.Jobs.{remove_owned_jobs}
use panel4wp.Worker.Quota.Intent.{IntentRoundTrip}
use panel4wp.Worker.Quota.Guard.{marked_in}
use panel4wp.Worker.Quota.Fence.{Host}
use panel4wp.Worker.Quota.Fence.Laws.{IsFenced, fence_quota_site-IsFenced}
use panel4wp.Worker.Quota.Preflight.{
  Setting, check_marked, guard_of, fence_blocked, or_fence, is_unmarked, quota_preflight, Outcome,
  success, refused, failure, is_error, finish_quota_write, finish_marked,
}
use panel4wp.Worker.Quota.Preflight.Laws.{Passed, quota_preflight-IsVerified, check_marked-daemon}

-- The host is what a fence with the intent "blocked" leaves; the site is down unless that fence reported
-- an error of its own.
pub record EndsFenced {D : Type 0} (s : Setting D) (l : DockerLaws s.docker) (before after : Host D)
    : Type 0 where
  pub fenced : Host D
  pub same : fenced.daemon ≡ before.daemon
  pub ends : after ≡ (fence_blocked s fenced).0
  pub down :
      ((fence_blocked s fenced).1 ≡ true)
      ⊎ IsFenced s.docker l s.codec s.id
          (codes "blocked")
          (remove_owned_jobs s.docker s.id before.daemon).0
          after

module _ {D : Type 0} (s : Setting D) (l : DockerLaws s.docker) (rt : IntentRoundTrip s.codec) where
  pub fence_blocked-EndsFenced :
      (before h : Host D) → h.daemon ≡ before.daemon → EndsFenced s l before (fence_blocked s h).0
  fence_blocked-EndsFenced before h same = record {
    fenced = h;
    same = same;
    ends = refl;
    down = elim (Bool-cases (fence_blocked s h).1) [
      | inl bad ↦ inl bad
      | inr good ↦ inr (
          rw (sym same) (
            fence_quota_site-IsFenced s.docker l s.codec s.intent_write s.id (codes "blocked") h rt
              good))
    ];
  }

  or_fence-EndsFenced :
      (before : Host D) (r : Host D × Bool)
      → r.0.daemon ≡ before.daemon
      → (or_fence s r).1 ≡ true
      → EndsFenced s l before (or_fence s r).0
  unfolding or_fence
  or_fence-EndsFenced before (h, true) same e = fence_blocked-EndsFenced before h same
  or_fence-EndsFenced before (h, false) same e = cc

  -- A quotaPreflight that reports an error has gone through the fence, which either reported an error
  -- itself or left every listed container of the site down and the intent "blocked" stored.
  pub quota_preflight-EndsFenced :
      (h : Host D) → (quota_preflight s h).1 ≡ true → EndsFenced s l h (quota_preflight s h).0
  unfolding quota_preflight
  quota_preflight-EndsFenced h e = elim (Bool-cases (is_unmarked (marked_in s.id s.files))) [
    | inl none_marked ↦ cc (rw none_marked at e)
    | inr marked ↦ rw marked (
        or_fence-EndsFenced h (check_marked s (guard_of s) h) (check_marked-daemon s (guard_of s) h)
          (rw marked at e))
  ]

  finish_marked-EndsFenced :
      (mark_failed : Bool) (r : Outcome) (h : Host D)
      → (finish_marked s mark_failed r h).1 ≡ true
      → EndsFenced s l h (finish_marked s mark_failed r h).0
        ⊎ ((r ≡ refused) × ((quota_preflight s h).1 ≡ false))
  finish_marked-EndsFenced true success h e = inl (fence_blocked-EndsFenced h h refl)
  finish_marked-EndsFenced true refused h e = inl (fence_blocked-EndsFenced h h refl)
  finish_marked-EndsFenced true failure h e = inl (fence_blocked-EndsFenced h h refl)
  finish_marked-EndsFenced false success h e = inl (quota_preflight-EndsFenced h e)
  finish_marked-EndsFenced false failure h e = inl (fence_blocked-EndsFenced h h refl)
  finish_marked-EndsFenced false refused h e = elim (Bool-cases (quota_preflight s h).1) [
    | inl bad ↦ inl (quota_preflight-EndsFenced h bad)
    | inr good ↦ inr (refl, good)
  ]

  -- A finishQuotaWrite that reports an error has gone through the fence, unless the site has no quota or
  -- the error is a refusal before any write and the site passed the check again.
  pub finish_quota_write-EndsFenced :
      (r : Outcome) (h : Host D)
      → (finish_quota_write s r h).1 ≡ true
      → (is_unmarked (marked_in s.id s.files) ≡ true)
        ⊎ (EndsFenced s l h (finish_quota_write s r h).0
            ⊎ ((r ≡ refused) × ((quota_preflight s h).1 ≡ false)))
  unfolding finish_quota_write
  finish_quota_write-EndsFenced r h e = elim (Bool-cases (is_unmarked (marked_in s.id s.files))) [
    | inl none_marked ↦ inl none_marked
    | inr marked ↦
        inr (
          rw marked (finish_marked-EndsFenced (marked_in s.id s.files).failed r h (rw marked at e)))
  ]

finish_marked-IsVerified :
    {D : Type 0} (s : Setting D) (mark_failed : Bool) (r : Outcome) (h : Host D)
    → (finish_marked s mark_failed r h).1 ≡ false
    → (r ≡ success) × Passed s h (finish_marked s mark_failed r h).0
finish_marked-IsVerified s true success h e = cc
finish_marked-IsVerified s true refused h e = cc
finish_marked-IsVerified s true failure h e = cc
finish_marked-IsVerified s false success h e = (refl, quota_preflight-IsVerified s h e)
finish_marked-IsVerified s false failure h e = cc
finish_marked-IsVerified s false refused h e = cc

is_error-success : (r : Outcome) → is_error r ≡ false → r ≡ success
is_error-success success h = refl
is_error-success refused h = cc
is_error-success failure h = cc

-- finishQuotaWrite reports success only if the write succeeded and the site has no quota or was
-- verified after the write.
pub finish_quota_write-IsVerified :
    {D : Type 0} (s : Setting D) (r : Outcome) (h : Host D)
    → (finish_quota_write s r h).1 ≡ false
    → (r ≡ success) × Passed s h (finish_quota_write s r h).0
unfolding finish_quota_write
finish_quota_write-IsVerified s r h e = elim (Bool-cases (is_unmarked (marked_in s.id s.files))) [
  | inl none_marked ↦
      (is_error-success r (rw none_marked at e), inl (none_marked, rw none_marked refl))
  | inr marked ↦
      let (a, p) =
        finish_marked-IsVerified s (marked_in s.id s.files).failed r h (rw marked at e) in
      let q : finish_quota_write s r h ≡ finish_marked s (marked_in s.id s.files).failed r h =
        rw marked refl in
      (a, subst (λ x. Passed s h x.0) (sym q) p)
]
