-- ===== src/Panel/Backups.antt =====
-- cmd/panel/main.go: scheduled backups and the retention of their copies.
pub mod Oldest
pub mod Prune
pub mod Ends
pub mod Schedule
pub mod Once
use panel4wp.Prelude.{
  ℕ, zero, suc, ◌+◌, ◌-◌, ◌*◌, Bool, true, false, not, ◌&&◌, ◌||◌, Option, none, some, List, [],
  ◌∷◌, ◌++◌, ltb, if◌then◌else◌, ◌==◌, text_eq, Text, codes, Result, ok, err, is_ok, is_some, take,
  drop, nat_eq,
}
use panel4wp.Prelude.Int.{ℤ, pos, pos_part, neg_part, ltb_ℤ}
use panel4wp.Files.{File, Write}
use panel4wp.Core.Model.{Time, Site, Backup, BackupPolicy, running, source_scheduled}
use panel4wp.Core.Validate.{validate_backup_policy}
use panel4wp.Core.Ids.{Clock, new_backup_id}
use panel4wp.Store.{SitesCodec, put, get, list}
use panel4wp.Panel.{Panel, note, truncate_text}
use panel4wp.Panel.Tracked.{
  Attempt, CallError, no_id, not_recorded, not_saved, worker, call_tracked, operation_pending,
}

abbrev pub is_scheduled : Backup → Bool
is_scheduled b = b.source == source_scheduled

-- scheduledBackupCount
unfoldable pub scheduled_backup_count : List Backup → ℕ
scheduled_backup_count [] = 0
scheduled_backup_count (b ∷ bs) =
    let rest = scheduled_backup_count bs in if is_scheduled b then suc rest else rest

-- A scheduled copy that is older than the best one so far, which stands with its index.
abbrev pub better : Option (ℕ × Time) → Backup → Bool
better none b = is_scheduled b
better (some (j, t)) b = is_scheduled b && ltb b.created_at t

-- The loop of oldestScheduledBackup, from an index on
unfoldable pub oldest_from : ℕ → Option (ℕ × Time) → List Backup → Option (ℕ × Time)
oldest_from i best [] = best
oldest_from i best (b ∷ bs) =
    oldest_from (suc i) (if better best b then some (i, b.created_at) else best) bs

-- oldestScheduledBackup; `none` is the index -1
unfoldable pub oldest_scheduled_backup : List Backup → Option ℕ
unfolding oldest_from
oldest_scheduled_backup bs = elim (oldest_from 0 none bs) [ none ↦ none | some (i, t) ↦ some i ]

-- append(backups[:index], backups[index+1:]...)
abbrev pub remove_at : ℕ → List Backup → List Backup
remove_at i bs = take i bs ++ drop (suc i) bs

abbrev pub with_backups : Site → List Backup → Site
with_backups site bs = record site { backups = bs }

abbrev pub with_error : Site → Text → Site
with_error site e = record site { backup_policy = record site.backup_policy { last_error = e } }

-- What a round of pruning meets: the worker's answer to the deletion, and how the write of the store
-- ends.
pub record Round : Type 0 where
  pub answer : Result Text (Unit {0})
  pub write : Write

pub data Ending : Type 0 where
  in_bounds none_left not_deleted not_stored out_of_fuel : Ending

pub record Pruned : Type 0 where
  pub ending : Ending
  pub site : Site
  pub panel : Panel

abbrev pub retention_note : Site → Bool → Text → Panel → Panel
retention_note site success detail p =
    note (codes "scheduled-backup-retention") site.id success detail p

abbrev pub backup_id_at : ℕ → List Backup → Text
backup_id_at i bs = elim (drop i bs) [ [] ↦ [] | b ∷ rest ↦ b.id ]

-- The round that removes the copy at an index, and the rounds after it.
unfoldable pub prune_round :
    SitesCodec → Round → ℕ → Site → Panel → (Site → Panel → Pruned) → Pruned
prune_round c r i site p next = elim r.answer [
  | err message ↦
      let noted = with_error site (truncate_text (codes "retention cleanup: " ++ message) 500) in
      record {
        ending = not_deleted;
        site = noted;
        panel =
            retention_note noted false message
              (record p { sites = (put c r.write noted p.sites).1 });
      }
  | ok _ ↦
      let kept = with_backups site (remove_at i site.backups) in
      let (stored, f) = put c r.write kept p.sites in
      let gone = backup_id_at i site.backups in
      let stop : Pruned = record {
        ending = not_stored;
        site = kept;
        panel = retention_note kept false (codes "metadata") (record p { sites = f });
      } in
      let go = next kept (retention_note kept true gone (record p { sites = f })) in
      if is_ok stored then go else stop
]

-- pruneScheduledBackups; a round for each number of the fuel.
unfoldable pub prune_scheduled_backups : SitesCodec → (ℕ → Round) → ℕ → Site → Panel → Pruned
prune_scheduled_backups c rounds zero site p = record {
  ending = out_of_fuel;
  site = site;
  panel = p;
}
prune_scheduled_backups c rounds (suc fuel) site p =
    let more = ltb_ℤ site.backup_policy.retention (pos (scheduled_backup_count site.backups)) in
    let done : Pruned = record { ending = in_bounds; site = site; panel = p } in
    let empty : Pruned = record { ending = none_left; site = site; panel = p } in
    elim more [
      | false ↦ done
      | true ↦ elim (oldest_scheduled_backup site.backups) [
        | none ↦ empty
        | some i ↦ prune_round c (rounds fuel) i site p (prune_scheduled_backups c rounds fuel)
      ]
    ]
