-- ===== src/Worker/Quota/Start.antt =====
-- cmd/worker/quota_restart.go: startQuotaSite, which brings a site with a quota up from its fence.
use panel4wp.Prelude.{
  ◌≡◌, refl, ap, ◌∙◌, ◌⊎◌, inl, inr, Bool, true, false, not, ◌&&◌, ◌||◌, Option, none, some, List,
  any, length, select, Text, if◌then◌else◌, ◌==◌, nat_eq, text_eq, codes, Bool-cases,
}
use panel4wp.Files.{Write}
use panel4wp.Core.Model.{Resources}
use panel4wp.Worker.Docker.{Container, quota_containers}
use panel4wp.Worker.Docker.Laws.{DockerLaws}
use panel4wp.Worker.Docker.Jobs.{remove_owned_jobs}
use panel4wp.Worker.Compose.{
  FloatText, no_file, unusable, configured, configured_resources, Configured-cases,
}
use panel4wp.Worker.Quota.Intent.{IntentRoundTrip, save_quota_intent}
use panel4wp.Worker.Quota.Fence.{Host}
use panel4wp.Worker.Quota.Fence.Laws.{IsFenced, fence_quota_site-IsFenced}
use panel4wp.Worker.Quota.Preflight.{Setting, fence_blocked, quota_preflight}
use panel4wp.Worker.Quota.Preflight.Laws.{
  Passed, quota_preflight-IsVerified, quota_preflight-intent,
}
use panel4wp.Worker.Quota.Preflight.Finish.{
  EndsFenced, quota_preflight-EndsFenced, fence_blocked-EndsFenced,
}

-- What a start meets beside the setting: `up` is `docker compose up` of the two services, `refuses` the
-- verdict of checkCapacity, and `running_write` the write of the intent to run.
pub record Start (D : Type 0) : Type 0 where
  pub setting : Setting D
  pub text : FloatText
  pub refuses : Resources → Bool
  pub up : D → D × Bool
  pub running_write : Write

abbrev is_site_service : Container → Bool
is_site_service c = c.service == codes "wordpress" || c.service == codes "db"

-- The two services are there and they run.
unfoldable pub both_run : Option (List Container) → Bool
both_run none = false
both_run (some cs) =
    not (any (λ (c : Container). is_site_service c && not (c.status == codes "running")) cs)
    && length (select is_site_service cs) == 2

abbrev pub fence_again : {D : Type 0} → Setting D → Host D → Host D × Bool
fence_again s h = ((fence_blocked s h).0, true)

-- The inspection after the start, and the intent to run.
unfoldable pub confirm_start : {D : Type 0} → Start D → Host D → Host D × Bool
unfolding both_run
confirm_start {D} r h =
    let s = r.setting in
    let (intent, failed) =
      save_quota_intent s.codec r.running_write s.id (codes "running") h.intent in
    let saved : Host D × Bool = (record h { intent = intent }, false) in
    let unsaved : Host D × Bool = fence_again s (record h { intent = intent }) in
    if both_run (quota_containers s.docker s.id h.daemon)
    then if failed then unsaved else saved
    else fence_again s h

-- From `docker compose up` on
unfoldable pub bring_up : {D : Type 0} → Start D → Host D → Host D × Bool
unfolding confirm_start
bring_up {D} r h =
    let (d, failed) = r.up h.daemon in
    let started : Host D = record h { daemon = d } in
    let (checked, refused) = quota_preflight r.setting started in
    let confirmed = confirm_start r checked in
    if failed then fence_again r.setting started else if refused then (checked, true) else confirmed

-- With the limits of the Compose file
unfoldable pub start_checked : {D : Type 0} → Start D → Host D → Host D × Bool
unfolding bring_up
start_checked r h = elim (configured_resources r.text r.setting.id h.compose) [
  | no_file ↦ (h, true)
  | unusable ↦ (h, true)
  | configured limits ↦
      let brought = bring_up r h in if r.refuses limits then (h, true) else brought
]

-- startQuotaSite: the host afterwards, and whether it reports an error.
unfoldable pub start_quota_site : {D : Type 0} → Start D → Host D → Host D × Bool
unfolding start_checked
start_quota_site r h =
    let (fenced, no_fence) = fence_blocked r.setting h in
    let (checked, refused) = quota_preflight r.setting fenced in
    let started = start_checked r checked in
    if no_fence then (fenced, true) else if refused then (checked, true) else started

-- After an error: the last thing that was done is a fence, or the first fence took the site down and the
-- host is still down as it left it.
abbrev pub EndsBlocked :
    {D : Type 0} (r : Start D) → DockerLaws r.setting.docker → Host D → Host D → Type 0
EndsBlocked {D} r l before after =
    ((last : Host D) × EndsFenced r.setting l last after)
    ⊎ (((fence_blocked r.setting before).1 ≡ false)
        × (after.daemon ≡ (fence_blocked r.setting before).0.daemon)
        × IsFenced r.setting.docker l r.setting.codec r.setting.id (codes "blocked")
            (remove_owned_jobs r.setting.docker r.setting.id before.daemon).0 after)

module _ {D : Type 0} (r : Start D) (l : DockerLaws r.setting.docker)
    (rt : IntentRoundTrip r.setting.codec) where
  fenced_again :
      (h : Host D) → (last : Host D) × EndsFenced r.setting l last (fence_again r.setting h).0
  fenced_again h = (h, fence_blocked-EndsFenced r.setting l rt h h refl)

  confirm_start-EndsFenced :
      (h : Host D)
      → (confirm_start r h).1 ≡ true
      → (last : Host D) × EndsFenced r.setting l last (confirm_start r h).0
  unfolding confirm_start
  confirm_start-EndsFenced h e =
      let s = r.setting in
      let saved = save_quota_intent s.codec r.running_write s.id (codes "running") h.intent in
      elim (Bool-cases (both_run (quota_containers s.docker s.id h.daemon))) [
        | inr missing_one ↦ rw (missing_one, confirm_start) (fenced_again h)
        | inl run ↦ elim (Bool-cases saved.1) [
          | inl bad ↦
              rw (run, confirm_start) (rw bad (fenced_again (record h { intent = saved.0 })))
          | inr good ↦ cc (rw good at (rw (run, confirm_start) at e))
        ]
      ]

  bring_up-EndsFenced :
      (h : Host D)
      → (bring_up r h).1 ≡ true
      → (last : Host D) × EndsFenced r.setting l last (bring_up r h).0
  unfolding bring_up
  bring_up-EndsFenced h e =
      let started : Host D = record h { daemon = (r.up h.daemon).0 } in
      elim (Bool-cases (r.up h.daemon).1) [
        | inl bad ↦ rw (bad, bring_up) (fenced_again started)
        | inr good ↦ elim (Bool-cases (quota_preflight r.setting started).1) [
          | inl refused ↦
              rw (good, bring_up)
                (rw refused (started, quota_preflight-EndsFenced r.setting l rt started refused))
          | inr passed ↦
              rw (good, bring_up)
                (rw passed (
                  confirm_start-EndsFenced (quota_preflight r.setting started).0
                    (rw passed at (rw (good, bring_up) at e))))
        ]
      ]

  start_checked-EndsBlocked :
      (h : Host D)
      → (start_checked r h).1 ≡ true
      → ((last : Host D) × EndsFenced r.setting l last (start_checked r h).0)
        ⊎ ((start_checked r h).0 ≡ h)
  unfolding start_checked
  start_checked-EndsBlocked h e =
      elim (Configured-cases (configured_resources r.text r.setting.id h.compose)) [
        | inl (inl f) ↦ inr (rw (f, start_checked) refl)
        | inl (inr f) ↦ inr (rw (f, start_checked) refl)
        | inr (limits, f) ↦ elim (Bool-cases (r.refuses limits)) [
          | inl no_room ↦ inr (rw (f, start_checked) (rw no_room refl))
          | inr room ↦ inl (
              rw (f, start_checked)
                (rw room (bring_up-EndsFenced h (rw room at (rw (f, start_checked) at e)))))
        ]
      ]

  Passed-daemon :
      (before after : Host D) → Passed r.setting before after → after.daemon ≡ before.daemon
  Passed-daemon before after (inl (none_marked, same)) = ap (λ (h : Host D). h.daemon) same
  Passed-daemon before after (inr (g, loaded, verified, same)) = same

  unchanged-daemon :
      (h : Host D) {after : Host D}
      → (quota_preflight r.setting h).1 ≡ false
      → after ≡ (quota_preflight r.setting h).0
      → after.daemon ≡ h.daemon
  unchanged-daemon h passed same =
      ap (λ (k : Host D). k.daemon) same
      ∙ Passed-daemon h (quota_preflight r.setting h).0
          (quota_preflight-IsVerified r.setting h passed)

  IsFenced-same :
      (state : Text) (before : D) (h after : Host D)
      → after.daemon ≡ h.daemon
      → after.intent ≡ h.intent
      → IsFenced r.setting.docker l r.setting.codec r.setting.id state before h
      → IsFenced r.setting.docker l r.setting.codec r.setting.id state before after
  IsFenced-same state before h after d i fenced = record {
    containers = fenced.containers;
    listed = fenced.listed;
    down = rw d fenced.down;
    intent = rw i fenced.intent;
  }

  still_down :
      (h : Host D) {after : Host D}
      → (fence_blocked r.setting h).1 ≡ false
      → (quota_preflight r.setting (fence_blocked r.setting h).0).1 ≡ false
      → after ≡ (quota_preflight r.setting (fence_blocked r.setting h).0).0
      → IsFenced r.setting.docker l r.setting.codec r.setting.id
          (codes "blocked")
          (remove_owned_jobs r.setting.docker r.setting.id h.daemon).0
          after
  still_down h {after} good passed same =
      let s = r.setting in
      let fenced = (fence_blocked s h).0 in
      IsFenced-same (codes "blocked") _ fenced after (unchanged-daemon fenced passed same)
        (ap (λ (k : Host D). k.intent) same ∙ quota_preflight-intent s fenced passed)
        (fence_quota_site-IsFenced s.docker l s.codec s.intent_write s.id (codes "blocked") h rt
          good)

  -- With a Docker that keeps its documented laws and an intent that is read back as written, a
  -- startQuotaSite that reports an error ends in a fence with the intent "blocked", which either reported
  -- an error itself or left every container of the site that Docker listed for it down and the intent
  -- stored; or else the first fence of the start reported no error, nothing was done to Docker since, and
  -- every container that it listed is still down and the intent "blocked" still stored.
  pub start_quota_site-EndsBlocked :
      (h : Host D) → (start_quota_site r h).1 ≡ true → EndsBlocked r l h (start_quota_site r h).0
  unfolding start_quota_site
  start_quota_site-EndsBlocked h e =
      let fenced = fence_blocked r.setting h in
      let checked = quota_preflight r.setting fenced.0 in
      elim (Bool-cases fenced.1) [
        | inl bad ↦ inl (rw (bad, start_quota_site) (fenced_again h))
        | inr good ↦ elim (Bool-cases checked.1) [
          | inl refused ↦ inl (
              rw (good, start_quota_site)
                (rw refused (fenced.0, quota_preflight-EndsFenced r.setting l rt fenced.0 refused)))
          | inr passed ↦
              elim (start_checked-EndsBlocked checked.0
                (rw passed at (rw (good, start_quota_site) at e))) [
                  | inl ends ↦ inl (rw (good, start_quota_site) (rw passed ends))
                  | inr same ↦ inr (
                    good,
                    rw (good, start_quota_site) (rw passed (unchanged-daemon fenced.0 passed same)),
                    rw (good, start_quota_site) (rw passed (still_down h good passed same)),
                  )
                ]
        ]
      ]
