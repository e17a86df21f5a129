-- ===== src/Panel/Handlers/Actions.antt =====
-- cmd/panel/main.go: siteAction, which finds the site of a request and does what is asked of it.
use panel4wp.Prelude.{
  Bool, true, false, not, ◌&&◌, ◌||◌, Option, none, some, [], ◌∷◌, if◌then◌else◌, ◌==◌, text_eq,
  Text, codes, Result, ok, err, is_ok, trim_prefix, split,
}
use panel4wp.Files.{Write}
use panel4wp.Core.Model.{Time, Site, creating, running, stopped, failed, deleting, unhealthy}
use panel4wp.Core.Ids.{valid_id}
use panel4wp.Settings.{Mail}
use panel4wp.Store.{SitesCodec, put, get, delete}
use panel4wp.Panel.{Panel, note}
use panel4wp.Panel.Tracked.{Attempt, CallError, call_tracked, operation_pending}
use panel4wp.Panel.Backups.Schedule.{BackupRun}
use panel4wp.Panel.Forms.{LimitsReply, LimitsRun, save_resources}
use panel4wp.Panel.Handlers.{Form}
use panel4wp.Panel.Handlers.Safety.{
  error_of, UpdateReply, UpdateRun, update_site, RestoreReply, RestoreRun, restore_site,
}
use panel4wp.Panel.Handlers.Change.{
  BackupReply, backup_site, ScheduleReply, save_backup_schedule, DeleteReply, delete_backup,
  ApplyError, apply_site_mail,
}

-- `to_files` stands for the call of fileAction.
pub data ActionReply : Type 0 where
  not_found unresolved to_files not_confirmed not_failed not_saved still_listed done : ActionReply
  mail_failed : ApplyError → ActionReply
  database_failed : Text → ActionReply
  action_failed : CallError → ActionReply
  limits_reply : LimitsReply → ActionReply
  backup_reply : BackupReply → ActionReply
  schedule_reply : ScheduleReply → ActionReply
  delete_reply : DeleteReply → ActionReply
  update_reply : UpdateReply → ActionReply
  restore_reply : RestoreReply → ActionReply

-- What an action meets; `attempt` is the call of a start, a stop, a deletion or a repeated creation, and
-- `first` and `last` are the writes before and after it.
pub record ActionRun : Type 0 where
  pub path : Text
  pub form : Form
  pub now : Time
  pub first : Write
  pub last : Write
  pub attempt : Attempt (Unit {0})
  pub database : Result Text (Unit {0})
  pub mail : Option Mail
  pub mail_worker : Text → Mail → Result Text (Unit {0})
  pub copy_answer : Result Text (Unit {0})
  pub limits : LimitsRun
  pub backup : BackupRun
  pub update : UpdateRun
  pub restore : RestoreRun

abbrev message_of_mail : ApplyError → Text
message_of_mail (ApplyError.not_applied message) = message
message_of_mail ApplyError.no_settings = codes "unable to load mail settings"
message_of_mail ApplyError.no_global_mail =
    codes "configure and enable the global mail server first"
message_of_mail ApplyError.not_up = codes "site must be running"

-- database-start and database-stop
abbrev pub database_action : ActionRun → Text → Site → Panel → ActionReply × Panel
database_action run action site p = elim run.database [
  | err e ↦ (database_failed e, note action site.id false e p)
  | ok _ ↦ (done, note action site.id true [] p)
]

-- mail-enable and mail-disable
unfoldable pub mail_action : SitesCodec → ActionRun → Text → Site → Panel → ActionReply × Panel
mail_action c run action site p =
    let enabled = action == codes "mail-enable" in
    let next : Site = record site { mail_enabled = enabled } in
    let (stored, f) = put c run.last next p.sites in
    let q : Panel = record p { sites = f } in
    let saved : ActionReply × Panel =
      if is_ok stored then (done, note action site.id true [] q) else (not_saved, q) in
    elim (apply_site_mail run.mail run.mail_worker site enabled) [
      | err e ↦ (mail_failed e, note action site.id false (message_of_mail e) p)
      | ok _ ↦ saved
    ]

-- The call failed.
unfoldable pub end_failed :
    SitesCodec → ActionRun → Text → CallError → Site → Panel → ActionReply × Panel
end_failed c run action e site p =
    let broken : Site = record site {
      status = if action == codes "retry" then failed else unhealthy;
      error = error_of e;
    } in
    let (stored, f) = put c run.last broken p.sites in
    let q : Panel = record p { sites = f } in
    if is_ok stored
    then (action_failed e, note action broken.id false (error_of e) q)
    else (not_saved, q)

-- The mail settings of a site that was started.
abbrev mail_after : ActionRun → Text → Site → Panel → Panel
mail_after run action site p =
    let applied : Panel = elim (apply_site_mail run.mail run.mail_worker site true) [
      | err e ↦ note (codes "mail-apply") site.id false (message_of_mail e) p
      | ok _ ↦ p
    ] in
    if action == codes "start" && site.mail_enabled then applied else p

-- The worker has started, stopped or created again.
unfoldable pub end_changed : SitesCodec → ActionRun → Text → Site → Panel → ActionReply × Panel
end_changed c run action site p =
    let next : Site = record site {
      status = if action == codes "stop" then stopped else running;
      error = [];
      health_error = [];
    } in
    let (stored, f) = put c run.last next p.sites in
    let q : Panel = record p { sites = f } in
    if is_ok stored
    then (done, note action next.id true [] (mail_after run action next q))
    else (not_saved, q)

-- The worker has deleted.
unfoldable pub end_deleted : SitesCodec → ActionRun → Text → Site → Panel → ActionReply × Panel
end_deleted c run id site p =
    let (removed, f) = delete c run.last id p.sites in
    let q : Panel = record p { sites = f } in
    if is_ok removed then (done, note (codes "delete") site.id true [] q) else (still_listed, q)

-- The tracked call of an action and what follows it.
unfoldable pub ask_worker :
    SitesCodec → ActionRun → Text → Text → Text → Site → Panel → ActionReply × Panel
unfolding end_failed end_changed end_deleted
ask_worker c run id kind action site p =
    let (answer, called, f) = call_tracked c kind run.attempt site p.sites in
    let q : Panel = record p { sites = f } in
    let worked : ActionReply × Panel =
      if action == codes "delete"
      then end_deleted c run id called q
      else end_changed c run action called q in
    elim answer [ err e ↦ end_failed c run action e called q | ok _ ↦ worked ]

-- An action that is stored under a status of its own before the call.
unfoldable pub mark_and_ask :
    SitesCodec → ActionRun → Text → Text → Text → Site → Panel → ActionReply × Panel
unfolding ask_worker
mark_and_ask c run id kind action site p =
    let (stored, f) = put c run.first site p.sites in
    let q : Panel = record p { sites = f } in
    let asked = ask_worker c run id kind action site q in
    if is_ok stored then asked else (not_saved, q)

unfoldable pub retry : SitesCodec → ActionRun → Text → Site → Panel → ActionReply × Panel
unfolding mark_and_ask
retry c run id site p =
    let next : Site = record site { status = creating; error = [] } in
    let asked = mark_and_ask c run id (codes "create") (codes "retry") next p in
    if not (site.status == failed) then (not_failed, p) else asked

unfoldable pub remove : SitesCodec → ActionRun → Text → Site → Panel → ActionReply × Panel
unfolding mark_and_ask
remove c run id site p =
    mark_and_ask c run id (codes "delete") (codes "delete") (record site { status = deleting }) p

abbrev pub map_reply : {A : Type 0} → (A → ActionReply) → A × Panel → ActionReply × Panel
map_reply f (a, p) = (f a, p)

abbrev pub is_file_action : Text → Bool
is_file_action action =
    action == codes "upload"
    || action == codes "download"
    || action == codes "mkdir"
    || action == codes "file-delete"
    || action == codes "file-move"

-- The tests of siteAction after that of the confirmation.
unfoldable pub run_action :
    SitesCodec → ActionRun → Text → Text → Site → Panel → ActionReply × Panel
unfolding retry remove
run_action c run id action site p =
    if action == codes "backup"
    then map_reply backup_reply (backup_site c run.backup run.last site p)
    else if action == codes "backup-schedule"
    then map_reply schedule_reply (save_backup_schedule c run.form run.now run.last site p)
    else if action == codes "backup-delete"
    then map_reply delete_reply (delete_backup c run.form run.copy_answer run.last site p)
    else if action == codes "update"
    then map_reply update_reply (update_site c run.update site p)
    else if action == codes "restore"
    then map_reply restore_reply (restore_site c run.restore site p)
    else if action == codes "retry"
    then retry c run id site p
    else if action == codes "delete"
    then remove c run id site p
    else if action == codes "start" || action == codes "stop"
    then ask_worker c run id action action site p
    else (not_found, p)

-- Those before it.
unfoldable pub choose_action :
    SitesCodec → ActionRun → Text → Text → Site → Panel → ActionReply × Panel
unfolding mail_action run_action
choose_action c run id action site p =
    if operation_pending site
    then (unresolved, p)
    else if action == codes "resources"
    then map_reply limits_reply (save_resources c run.limits site p)
    else if is_file_action action
    then (to_files, p)
    else if action == codes "database-start" || action == codes "database-stop"
    then database_action run action site p
    else if action == codes "mail-enable" || action == codes "mail-disable"
    then mail_action c run action site p
    else if action == codes "delete" && not (run.form (codes "confirm") == site.domain)
    then (not_confirmed, p)
    else run_action c run id action site p

-- The two parts of the path after /sites/
unfoldable pub site_path : Text → Option (Text × Text)
site_path path = elim (split b'/' (trim_prefix path (codes "/sites/"))) [
  | id ∷ action ∷ [] ↦ if valid_id id then some (id, action) else none
  | _ ↦ none
]

-- siteAction
unfoldable pub site_action : SitesCodec → ActionRun → Panel → ActionReply × Panel
unfolding choose_action
site_action c run p = elim (site_path run.path) [
  | none ↦ (not_found, p)
  | some (id, action) ↦ elim (get c id p.sites) [
    | err e ↦ (not_found, p)
    | ok none ↦ (not_found, p)
    | ok (some site) ↦ choose_action c run id action site p
  ]
]
