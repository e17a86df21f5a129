-- ===== src/Panel/Backups/Schedule.antt =====
-- cmd/panel/main.go: performBackup, runScheduledBackup, runScheduledBackups and saveBackupSchedule.
use panel4wp.Prelude.{
  ℕ, ◌+◌, ◌-◌, ◌/◌, Bool, true, false, not, ◌&&◌, Option, none, some, List, [], ◌∷◌, ◌++◌, leb,
  if◌then◌else◌, ◌==◌, text_eq, Text, codes, Result, ok, err, is_ok, nat_eq, length,
}
use panel4wp.Prelude.Int.{ℤ, pos, pos_part, neg_part, ◌*ℤ◌, wrap64}
use panel4wp.Files.{File, Write}
use panel4wp.Core.Model.{Time, Site, Backup, BackupPolicy, running, source_scheduled}
use panel4wp.Core.Validate.{validate_backup_policy}
use panel4wp.Core.Ids.{Clock, new_backup_id}
use panel4wp.Store.{SitesCodec, put, get, list}
use panel4wp.Panel.{Panel, note, truncate_text}
use panel4wp.Panel.Tracked.{
  Attempt, CallError, no_id, not_recorded, not_saved, worker, call_tracked, operation_pending,
}
use panel4wp.Panel.Backups.{Round, prune_scheduled_backups, with_error}

-- What one backup meets: the random bytes of its identifier, and the tracked call, whose answer is the
-- copy that the worker made.
pub record BackupRun : Type 0 where
  pub clock : Clock
  pub bytes : Option (List ℕ)
  pub attempt : Attempt Backup

pub data BackupError : Type 0 where
  no_backup_id : BackupError
  call : CallError → BackupError

-- performBackup: the copy with its source, the site that the caller goes on with, and the store.
unfoldable pub perform_backup :
    SitesCodec → Text → BackupRun → Site → File → Result BackupError Backup × Site × File
perform_backup c source b site f = elim (new_backup_id b.clock b.bytes) [
  | none ↦ (err no_backup_id, site, f)
  | some id ↦
      let (answer, site', f') = call_tracked c (source ++ codes "-backup") b.attempt site f in
      (
        elim answer [ err e ↦ err (call e) | ok copy ↦ ok (record copy { source = source }) ],
        site',
        f',
      )
]

-- What is recorded of an error; the worker's words are its own.
abbrev pub message_of : BackupError → Text
message_of no_backup_id = codes "unable to generate backup ID"
message_of (call no_id) = codes "unable to generate an ID"
message_of (call not_recorded) = codes "unable to record operation"
message_of (call not_saved) = codes "unable to save operation result"
message_of (call (worker message)) = message

-- time.Duration(h) * time.Hour: nanoseconds in an int64, which wraps.
unfoldable pub duration_hours : ℤ → ℤ
duration_hours h = wrap64 (h *ℤ pos 3_600_000_000_000)

-- now.Add(d) for nanoseconds d, in whole seconds after the zero time, rounded down; a time before the zero
-- time is not told from it.
abbrev pub add_duration : Time → ℤ → Time
add_duration now d = now + pos_part d / 1_000_000_000 - (neg_part d + 999_999_999) / 1_000_000_000

abbrev pub add_hours : Time → ℤ → Time
add_hours now h = add_duration now (duration_hours h)

-- The policy after an attempt at a time.
abbrev pub attempted : BackupPolicy → Time → BackupPolicy
attempted policy now = record policy {
  last_attempt_at = now;
  next_run_at = add_hours now policy.interval_hours;
}

-- What one scheduled run meets: the backup, the last write of the store, and the rounds of pruning, of
-- which `fuel` are made at most.
pub record ScheduledRun : Type 0 where
  pub backup : BackupRun
  pub write : Write
  pub rounds : ℕ → Round
  pub fuel : ℕ

abbrev noted : Bool → Text → Site → Panel → Panel
noted success detail site p = note (codes "scheduled-backup") site.id success detail p

-- A run that ends with an error in the policy.
unfoldable pub end_with : SitesCodec → Write → Text → Site → Panel → Panel
end_with c w e site p =
    let marked = with_error site e in
    noted false e marked (record p { sites = (put c w marked p.sites).1 })

-- A copy was made: it is stored with the policy, and the old ones are pruned.
unfoldable pub end_with_copy : SitesCodec → ScheduledRun → Backup → Site → Panel → Panel
end_with_copy c run copy site p =
    let full = record site {
      backup_policy = record site.backup_policy {
        last_success_at = copy.created_at;
        last_error = [];
      };
      backups = site.backups ++ copy ∷ [];
    } in
    let (stored, f) = put c run.write full p.sites in
    let pruned =
      prune_scheduled_backups c run.rounds run.fuel full
        (noted true copy.id full (record p { sites = f })) in
    if is_ok stored
    then pruned.panel
    else noted false (codes "metadata") full (record p { sites = f })

-- runScheduledBackup
unfoldable pub run_scheduled_backup : SitesCodec → ScheduledRun → Time → Site → Panel → Panel
unfolding end_with end_with_copy
run_scheduled_backup c run now site p =
    let policy = attempted site.backup_policy now in
    let (answer, called, f) = perform_backup c source_scheduled run.backup site p.sites in
    let after : Site = record called { backup_policy = policy } in
    let made : Panel = elim answer [
      | err e ↦
          end_with c run.write (truncate_text (message_of e) 500) after (record p { sites = f })
      | ok copy ↦ end_with_copy c run copy after (record p { sites = f })
    ] in
    if not (site.status == running)
    then end_with c run.write (codes "site is not running") (record site { backup_policy = policy })
        p
    else made

-- A site that the listing shows as due.
unfoldable pub is_candidate : Time → Site → Bool
is_candidate now s =
    is_ok (validate_backup_policy s.backup_policy)
    && s.backup_policy.enabled
    && not (s.backup_policy.next_run_at == 0)
    && leb s.backup_policy.next_run_at now

-- The same site, read again under the lock.
unfoldable pub is_due : Time → Site → Bool
is_due now s =
    not (operation_pending s)
    && s.health_error == []
    && s.backup_policy.enabled
    && leb s.backup_policy.next_run_at now

-- The loop of runScheduledBackups over the sites that were listed.
unfoldable pub run_due : SitesCodec → (ℕ → ScheduledRun) → Time → List Site → Panel → Panel
unfolding is_candidate is_due
run_due c runs now [] p = p
run_due c runs now (s ∷ ss) p =
    let ready : Panel = elim (get c s.id p.sites) [
      | err e ↦ p
      | ok none ↦ p
      | ok (some site) ↦
          if is_due now site then run_scheduled_backup c (runs (length ss)) now site p else p
    ] in
    run_due c runs now ss (if is_candidate now s then ready else p)

-- runScheduledBackups
unfoldable pub run_scheduled_backups : SitesCodec → (ℕ → ScheduledRun) → Time → Panel → Panel
run_scheduled_backups c runs now p = elim (list c p.sites) [
  | err e ↦ p
  | ok sites ↦ run_due c runs now sites p
]
