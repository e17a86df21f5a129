-- ===== src/Worker/Quota/Preflight.antt =====
-- cmd/worker/quota_restart.go: the check before a writer may start, and the one after it has written.
pub mod Compose
pub mod Laws
pub mod Finish
use panel4wp.Prelude.{
  Bool, true, false, not, ◌&&◌, ◌||◌, Option, none, some, List, any, Text, Result, ok, err,
  if◌then◌else◌, ◌==◌, text_eq, codes, ℕ,
}
use panel4wp.Files.{File, missing, unreadable, content, Write, atomic_config}
use panel4wp.Worker.Docker.{Docker, Container, quota_containers}
use panel4wp.Worker.Quota.Marker.{Marker}
use panel4wp.Worker.Quota.Restart.{quota_restart_compose}
use panel4wp.Worker.Quota.Intent.{IntentCodec, GuardError}
use panel4wp.Worker.Quota.Guard.{
  Guard, GuardFiles, Verdict, marked_in, load_quota_guard, storage_fails,
}
use panel4wp.Worker.Quota.Fence.{Host, fence_quota_site}
use panel4wp.SecurityPolicy.{active}

-- What a call finds and how its writes end. `decode` and `normal` are encoding/json; `policy` is
-- ensureWriterPolicy on the Compose file, and `probe` the storage helper.
pub record Setting (D : Type 0) : Type 0 where
  pub docker : Docker D
  pub codec : IntentCodec
  pub decode : Text → Option Guard
  pub normal : Text → Option Text
  pub profile : Text
  pub policy : File → File × Bool
  pub probe : ℕ → ℕ → Text → Option Verdict
  pub intent_write : Write
  pub compose_write : Write
  pub id : Text
  pub files : GuardFiles

-- The Compose file with the restarts turned off, and whether that failed.
unfoldable pub rewrite_compose : Write → File → File × Bool
rewrite_compose w missing = (missing, true)
rewrite_compose w unreadable = (unreadable, true)
rewrite_compose w (content text) = elim (quota_restart_compose text) [
  | err e ↦ (content text, true)
  | ok updated ↦
      if text == updated then (content text, false) else atomic_config w updated (content text)
]

-- ensureQuotaRestartCompose
unfoldable pub ensure_quota_restart_compose : (File → File × Bool) → Write → File → File × Bool
ensure_quota_restart_compose policy w f =
    let (f', failed) = policy f in if failed then (f', true) else rewrite_compose w f'

-- A container that may be started again by Docker or lacks the security profile.
unfoldable pub is_unsafe : (Text → Option Text) → Text → Container → Bool
is_unsafe normal profile c =
    not (c.restart == codes "no") || not (active normal profile c.security_opts)

unfoldable pub containers_fail : (Text → Option Text) → Text → Option (List Container) → Bool
containers_fail normal profile none = true
containers_fail normal profile (some cs) = any (is_unsafe normal profile) cs

-- The checks of quotaPreflight after the record was loaded.
unfoldable pub check_site : {D : Type 0} → Setting D → Guard → Host D → Host D × Bool
check_site s g h =
    let (compose, failed) = ensure_quota_restart_compose s.policy s.compose_write h.compose in
    (
      record { daemon = h.daemon; intent = h.intent; compose = compose },
      failed
          || storage_fails s.probe (some g)
          || containers_fail s.normal s.profile (quota_containers s.docker s.id h.daemon),
    )

-- The steps that quotaPreflight chains by `err == nil`, for a marked site.
unfoldable pub check_marked :
    {D : Type 0} → Setting D → Result (Unit {0}) Guard → Host D → Host D × Bool
check_marked s (err e) h = (h, true)
check_marked s (ok g) h = check_site s g h

abbrev pub guard_in : Result GuardError (Option Guard) → Result (Unit {0}) Guard
guard_in (err e) = err tt
guard_in (ok none) = err tt
guard_in (ok (some g)) = ok g

-- The record of a marked site: an error of the marks comes before one of the record, and a missing
-- record is an error.
unfoldable pub guard_of : {D : Type 0} → Setting D → Result (Unit {0}) Guard
guard_of s =
    if (marked_in s.id s.files).failed
    then err tt
    else guard_in (load_quota_guard s.decode s.id s.files)

abbrev pub fence_blocked : {D : Type 0} → Setting D → Host D → Host D × Bool
fence_blocked s h = fence_quota_site s.docker s.codec s.intent_write s.id (codes "blocked") h

-- A failure ends in the fence and stays a failure.
unfoldable pub or_fence : {D : Type 0} → Setting D → Host D × Bool → Host D × Bool
or_fence s (h, failed) = if failed then ((fence_blocked s h).0, true) else (h, false)

abbrev pub is_unmarked : Marker → Bool
is_unmarked m = not m.marked && not m.failed

-- quotaPreflight: the host afterwards, and whether it reports an error.
unfoldable pub quota_preflight : {D : Type 0} → Setting D → Host D → Host D × Bool
quota_preflight s h =
    if is_unmarked (marked_in s.id s.files)
    then (h, false)
    else or_fence s (check_marked s (guard_of s) h)

-- How the write that finishQuotaWrite follows ended: `refused` is an admission error that is marked as safe.
pub data Outcome : Type 0 where
  success refused failure : Outcome

abbrev pub is_error : Outcome → Bool
is_error success = false
is_error refused = true
is_error failure = true

abbrev pub finish_marked : {D : Type 0} → Setting D → Bool → Outcome → Host D → Host D × Bool
finish_marked s mark_failed refused h =
    if mark_failed then ((fence_blocked s h).0, true) else ((quota_preflight s h).0, true)
finish_marked s mark_failed success h =
    if mark_failed then ((fence_blocked s h).0, true) else quota_preflight s h
finish_marked s mark_failed failure h = ((fence_blocked s h).0, true)

-- finishQuotaWrite
unfoldable pub finish_quota_write : {D : Type 0} → Setting D → Outcome → Host D → Host D × Bool
finish_quota_write s result h =
    if is_unmarked (marked_in s.id s.files)
    then (h, is_error result)
    else finish_marked s (marked_in s.id s.files).failed result h
