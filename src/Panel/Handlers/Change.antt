-- ===== src/Panel/Handlers/Change.antt =====
-- cmd/panel/main.go: the handlers that change one thing of a site: backupSite, saveBackupSchedule,
-- deleteBackup and applySiteMail.
use panel4wp.Prelude.{
  Bool, true, false, not, ◌&&◌, ◌||◌, Option, none, some, [], ◌∷◌, ◌++◌, select, if◌then◌else◌,
  ◌==◌, text_eq, Text, codes, Result, ok, err, is_ok, map_err,
}
use panel4wp.Prelude.Int.{ℤ, pos}
use panel4wp.Strings.Decimal.{atoi, format_int}
use panel4wp.Files.{Write}
use panel4wp.Core.Model.{Time, Site, Backup, BackupPolicy, running, source_manual}
use panel4wp.Core.Ids.{valid_backup_id}
use panel4wp.Core.Validate.{Invalid, validate_backup_policy}
use panel4wp.Settings.{Mail}
use panel4wp.Store.{SitesCodec, put}
use panel4wp.Panel.{Panel, note}
use panel4wp.Panel.Backups.Schedule.{BackupRun, BackupError, perform_backup, add_hours, message_of}
use panel4wp.Panel.Handlers.{Form}
use panel4wp.Panel.Handlers.Safety.{is_known}

pub data BackupReply : Type 0 where
  stopped_site : BackupReply
  backup_failed : BackupError → BackupReply
  backup_not_stored backup_made : BackupReply

-- backupSite
unfoldable pub backup_site : SitesCodec → BackupRun → Write → Site → Panel → BackupReply × Panel
backup_site c run w site p =
    let (answer, called, f) = perform_backup c source_manual run site p.sites in
    let made : BackupReply × Panel = elim answer [
      | err e ↦ (
        backup_failed e,
        note (codes "backup") called.id false (message_of e) (record p { sites = f }),
      )
      | ok copy ↦
          let full : Site = record called { backups = called.backups ++ copy ∷ [] } in
          let (stored, f') = put c w full f in
          let q : Panel = record p { sites = f' } in
          if is_ok stored
          then (backup_made, note (codes "backup") full.id true copy.id q)
          else (backup_not_stored, q)
    ] in
    if not (site.status == running) then (stopped_site, p) else made

pub data ScheduleReply : Type 0 where
  bad_schedule : Invalid → ScheduleReply
  schedule_not_stored schedule_saved : ScheduleReply

-- A number of the form. A schedule that is off falls back to a default; one that is on keeps what Atoi
-- leaves beside its error, which no check accepts.
abbrev number_or : Bool → ℤ → Option ℤ → ℤ
number_or enabled standard (some n) = n
number_or enabled standard none = if enabled then pos 0 else standard

abbrev pub form_policy : Form → Time → BackupPolicy → BackupPolicy
form_policy form now old =
    let enabled = form (codes "enabled") == codes "on" in
    let interval = number_or enabled (pos 24) (atoi (form (codes "interval_hours"))) in
    record old {
      enabled = enabled;
      interval_hours = interval;
      retention = number_or enabled (pos 7) (atoi (form (codes "retention")));
      next_run_at = if enabled then add_hours now interval else 0;
      last_error = [];
    }

abbrev schedule_words : BackupPolicy → Text
schedule_words b =
    codes "enabled="
    ++ (if b.enabled then codes "true" else codes "false")
    ++ codes " interval="
    ++ format_int b.interval_hours
    ++ codes "h retention="
    ++ format_int b.retention

-- saveBackupSchedule
unfoldable pub save_backup_schedule :
    SitesCodec → Form → Time → Write → Site → Panel → ScheduleReply × Panel
save_backup_schedule c form now w site p =
    let policy = form_policy form now site.backup_policy in
    let next : Site = record site { backup_policy = policy } in
    let (stored, f) = put c w next p.sites in
    let q : Panel = record p { sites = f } in
    let kept : ScheduleReply × Panel =
      if is_ok stored
      then (schedule_saved, note (codes "backup-schedule") site.id true (schedule_words policy) q)
      else (schedule_not_stored, q) in
    elim (validate_backup_policy policy) [ err e ↦ (bad_schedule e, p) | ok _ ↦ kept ]

pub data DeleteReply : Type 0 where
  delete_unconfirmed unknown_copy : DeleteReply
  delete_failed : Text → DeleteReply
  delete_not_stored copy_deleted : DeleteReply

-- deleteBackup, with the worker's answer
unfoldable pub delete_backup :
    SitesCodec → Form → Result Text (Unit {0}) → Write → Site → Panel → DeleteReply × Panel
delete_backup c form answer w site p =
    let id = form (codes "backup_id") in
    let next : Site = record site {
      backups = select (λ (b : Backup). not (b.id == id)) site.backups;
    } in
    let (stored, f) = put c w next p.sites in
    let q : Panel = record p { sites = f } in
    let removed : DeleteReply × Panel = elim answer [
      | err e ↦ (delete_failed e, note (codes "backup-delete") site.id false e p)
      | ok _ ↦
          if is_ok stored
          then (copy_deleted, note (codes "backup-delete") site.id true id q)
          else (delete_not_stored, q)
    ] in
    if not (form (codes "confirm") == site.domain) || not (valid_backup_id id)
    then (delete_unconfirmed, p)
    else if not (is_known id site)
    then (unknown_copy, p)
    else removed

pub data ApplyError : Type 0 where
  no_settings no_global_mail not_up : ApplyError
  not_applied : Text → ApplyError

-- applySiteMail, with the answer of Load, and the worker's to the mail settings that it is sent.
unfoldable pub apply_site_mail :
    Option Mail
    → (Text → Mail → Result Text (Unit {0}))
    → Site
    → Bool
    → Result ApplyError (Unit {0})
apply_site_mail none worker site enabled = err no_settings
apply_site_mail (some mail) worker site enabled =
    let answer = worker site.id (record mail { enabled = enabled }) in
    if enabled && not mail.enabled
    then err no_global_mail
    else if not (site.status == running)
    then err not_up
    else map_err not_applied answer
