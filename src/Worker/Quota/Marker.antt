-- ===== src/Worker/Quota/Marker.antt =====
-- cmd/worker/quota_restart.go: `quotaMarked` and the pattern of a filesystem's identifier.
use panel4wp.Prelude.{
  ◌≡◌, Bool, true, false, arith, Text, text_eq, replicate, length, if◌then◌else◌,
}
use panel4wp.Strings.Hex.{is_hex}
use panel4wp.Core.Ids.{match_classes, match_replicate}

-- ^[a-f0-9]{32}$
unfoldable pub quota_uuid : Text → Bool
unfolding match_classes
quota_uuid = match_classes (replicate 32 is_hex)

pub quota_uuid-length : (s : Text) → quota_uuid s ≡ true → length s ≡ 32
unfolding quota_uuid
quota_uuid-length s h = ((match_replicate is_hex 32 s).0 h).0

-- What os.Lstat says of a path; `unreadable` is any error but "not found".
pub data Lstat : Type 0 where
  absent present unreadable : Lstat

-- The pair that `quotaMarked` returns: the mark, and whether there is an error.
pub record Marker : Type 0 where
  pub marked : Bool
  pub failed : Bool

abbrev pub unmarked : Marker
unmarked = record { marked = false; failed = false }

abbrev mark_of : Lstat → Marker → Marker
mark_of absent next = next
mark_of present next = record { marked = true; failed = false }
mark_of unreadable next = record { marked = true; failed = true }

-- The loop over quota.json and quota-plan.json, for a valid identifier.
unfoldable pub quota_marked : Bool → Lstat → Lstat → Marker
quota_marked valid guard plan =
    if valid
    then mark_of guard (mark_of plan unmarked)
    else record { marked = false; failed = true }

-- No record means no mark: a site is taken as unmanaged only if both files are known to be absent.
pub quota_marked-unmarked :
    (guard plan : Lstat)
    → quota_marked true guard plan ≡ unmarked
    → (guard ≡ absent) × (plan ≡ absent)
unfolding quota_marked
quota_marked-unmarked guard plan h = ground arith
