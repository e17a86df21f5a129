-- ===== src/Worker/Quota/Guard.antt =====
-- cmd/worker/quota_restart.go: the quota record of a site and the check of its storage.
use panel4wp.Prelude.{
  ℕ, ◌%◌, Bool, true, not, ◌||◌, Option, none, some, if◌then◌else◌, ◌==◌, nat_eq, text_eq, Text,
  codes, Result, ok, err,
}
use panel4wp.Prelude.Int.{ℤ, pos, int_beq}
use panel4wp.Files.{File}
use panel4wp.Core.Ids.{valid_id}
use panel4wp.Worker.Quota.Marker.{quota_uuid, Lstat, quota_marked, Marker}
use panel4wp.Worker.Quota.Intent.{
  GuardError, not_exist, unreadable_state, oversized, undecodable, invalid_state, invalid_id,
  read_guard_json,
}

-- quotaGuard
pub record Guard : Type 0 where
  pub version : ℤ
  pub phase : Text
  pub project_id : ℕ  -- uint32
  pub hard_bytes : ℕ  -- uint64
  pub filesystem_uuid : Text

-- What the site's two quota files look like: the content of quota.json, and what os.Lstat says of
-- quota.json and of quota-plan.json.
pub record GuardFiles : Type 0 where
  pub guard : File
  pub guard_stat : Lstat
  pub plan_stat : Lstat

abbrev pub marked_in : Text → GuardFiles → Marker
marked_in id g = quota_marked (valid_id id) g.guard_stat g.plan_stat

unfoldable pub check_guard : Guard → Result GuardError (Option Guard)
check_guard g =
    if not (int_beq g.version (pos 1))
      || not (g.phase == codes "ready")
      || g.project_id == 0
      || g.hard_bytes == 0
      || not (g.hard_bytes % 512 == 0)
      || not (quota_uuid g.filesystem_uuid)
    then err invalid_state
    else ok (some g)

-- A quota.json that is missing while the site is marked is an error, else the site has no quota.
unfoldable pub without_guard : Marker → Result GuardError (Option Guard)
without_guard m = if m.marked || m.failed then err unreadable_state else ok none

-- loadQuotaGuard
unfoldable pub load_quota_guard :
    (Text → Option Guard) → Text → GuardFiles → Result GuardError (Option Guard)
load_quota_guard decode id g =
    if not (valid_id id) then err invalid_id else elim (read_guard_json decode g.guard) [
      | err not_exist ↦ without_guard (marked_in id g)
      | err unreadable_state ↦ err unreadable_state
      | err oversized ↦ err oversized
      | err undecodable ↦ err undecodable
      | err invalid_state ↦ err invalid_state
      | err invalid_id ↦ err invalid_id
      | ok guard ↦ check_guard guard
    ]

-- The answer of the storage probe.
pub record Verdict : Type 0 where
  pub verified : Bool
  pub reason : Text

-- verifyQuotaStorage, and whether it fails. `probe` is the run of the storage helper for a project, a
-- limit and a filesystem, with its answer decoded strictly.
unfoldable pub storage_fails : (ℕ → ℕ → Text → Option Verdict) → Option Guard → Bool
storage_fails probe none = true
storage_fails probe (some g) = elim (probe g.project_id g.hard_bytes g.filesystem_uuid) [
  | none ↦ true
  | some v ↦ not v.verified || not (v.reason == codes "verified")
]
