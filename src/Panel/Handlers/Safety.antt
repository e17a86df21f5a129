-- ===== src/Panel/Handlers/Safety.antt =====
-- cmd/panel/main.go: updateSite and restoreSite, which make a safety backup before they change a site.
use panel4wp.Prelude.{
  Bool, true, false, not, ◌||◌, Option, none, some, List, [], ◌∷◌, ◌++◌, any, if◌then◌else◌, ◌==◌,
  text_eq, ℕ, Text, codes, Result, ok, err, is_ok,
}
use panel4wp.Files.{File, Write}
use panel4wp.Core.Model.{Site, Backup, running, stopped, unhealthy, source_safety}
use panel4wp.Core.Ids.{Clock, new_backup_id, valid_backup_id}
use panel4wp.Store.{SitesCodec, put}
use panel4wp.Panel.{Panel, note}
use panel4wp.Panel.Tracked.{Attempt, CallError, call_tracked}
use panel4wp.Panel.Backups.Schedule.{message_of, call}
use panel4wp.Panel.Handlers.{Form}

-- What the safety backup meets, and the write of its metadata.
pub record SafetyRun : Type 0 where
  pub attempt : Attempt Backup
  pub write : Write

pub data SafetyError : Type 0 where
  safety_failed : CallError → SafetyError
  safety_not_stored : SafetyError

abbrev pub with_copy : Site → Backup → Site
with_copy site copy = record site {
  backups = site.backups ++ record copy { source = source_safety } ∷ [];
}

-- The calls that both handlers make: the backup, and the Put of the site with it.
unfoldable pub safety_copy :
    SitesCodec → SafetyRun → Site → File → Result SafetyError (Backup × Site) × File
safety_copy c run site f =
    let (answer, called, f') = call_tracked c (codes "safety-backup") run.attempt site f in
    elim answer [
      | err e ↦ (err (safety_failed e), f')
      | ok copy ↦
          let (stored, f'') = put c run.write (with_copy called copy) f' in
          (if is_ok stored then ok (copy, with_copy called copy) else err safety_not_stored, f'')
    ]

-- The words of a failed call.
abbrev pub error_of : CallError → Text
error_of e = message_of (call e)

pub data UpdateReply : Type 0 where
  not_running no_safety_id : UpdateReply
  no_safety : SafetyError → UpdateReply
  update_failed : CallError → UpdateReply
  update_not_stored updated : UpdateReply

pub record UpdateRun : Type 0 where
  pub clock : Clock
  pub bytes : Option (List ℕ)
  pub safety : SafetyRun
  pub update : Attempt (Unit {0})
  pub write : Write

-- The update itself, of a site whose safety backup is stored.
unfoldable pub ask_update : SitesCodec → UpdateRun → Text → Site → Panel → UpdateReply × Panel
ask_update c run id site p =
    let (answer, called, f) = call_tracked c (codes "update") run.update site p.sites in
    elim answer [
      | err e ↦ (
        update_failed e,
        note (codes "update") called.id false (error_of e) (record p { sites = f }),
      )
      | ok _ ↦
          let (stored, f') = put c run.write called f in
          let q : Panel = record p { sites = f' } in
          if is_ok stored
          then (updated, note (codes "update") called.id true (codes "safety backup " ++ id) q)
          else (update_not_stored, q)
    ]

abbrev note_safety : SafetyError → Site → Panel → Panel
note_safety (safety_failed e) site p = note (codes "update") site.id false (error_of e) p
note_safety safety_not_stored site p = p

-- updateSite
unfoldable pub update_site : SitesCodec → UpdateRun → Site → Panel → UpdateReply × Panel
unfolding ask_update
update_site c run site p =
    let (made, f) = safety_copy c run.safety site p.sites in
    let q : Panel = record p { sites = f } in
    let go : Text → UpdateReply × Panel = λ id. elim made [
      | err e ↦ (no_safety e, note_safety e site q)
      | ok (copy, full) ↦ ask_update c run id full q
    ] in
    if not (site.status == running)
    then (not_running, p)
    else elim (new_backup_id run.clock run.bytes) [ none ↦ (no_safety_id, p) | some id ↦ go id ]

pub data RestoreReply : Type 0 where
  wrong_state unconfirmed unknown_backup no_restore_id : RestoreReply
  not_prepared : CallError → RestoreReply
  no_safety_copy : SafetyError → RestoreReply
  restore_failed : CallError → RestoreReply
  restore_not_stored restored : RestoreReply

pub record RestoreRun : Type 0 where
  pub form : Form
  pub clock : Clock
  pub bytes : Option (List ℕ)
  pub prepare : Attempt (Unit {0})
  pub safety : SafetyRun
  pub restore : Attempt (Unit {0})
  pub write : Write

-- The restore itself, of a site whose safety backup is stored.
unfoldable pub ask_restore : SitesCodec → RestoreRun → Text → Site → Panel → RestoreReply × Panel
ask_restore c run chosen site p =
    let (answer, called, f) = call_tracked c (codes "restore") run.restore site p.sites in
    elim answer [
      | err e ↦ (
        restore_failed e,
        note (codes "restore") called.id false (error_of e) (record p { sites = f }),
      )
      | ok _ ↦
          let up : Site = record called { status = running; error = [] } in
          let (stored, f') = put c run.write up f in
          let q : Panel = record p { sites = f' } in
          if is_ok stored
          then (restored, note (codes "restore") up.id true chosen q)
          else (restore_not_stored, q)
    ]

-- The safety backup of a site that was prepared, and the restore.
unfoldable pub after_prepare : SitesCodec → RestoreRun → Text → Site → Panel → RestoreReply × Panel
unfolding ask_restore
after_prepare c run chosen site p =
    let (made, f) = safety_copy c run.safety (record site { status = stopped }) p.sites in
    elim made [
      | err e ↦ (no_safety_copy e, record p { sites = f })
      | ok (copy, full) ↦ ask_restore c run chosen full (record p { sites = f })
    ]

unfoldable pub prepare_and_restore :
    SitesCodec → RestoreRun → Text → Site → Panel → RestoreReply × Panel
unfolding after_prepare
prepare_and_restore c run chosen site p =
    let (answer, called, f) = call_tracked c (codes "restore-prepare") run.prepare site p.sites in
    elim answer [
      | err e ↦ (not_prepared e, record p { sites = f })
      | ok _ ↦ after_prepare c run chosen called (record p { sites = f })
    ]

abbrev pub is_known : Text → Site → Bool
is_known id site = any (λ (b : Backup). b.id == id) site.backups

-- restoreSite
unfoldable pub restore_site : SitesCodec → RestoreRun → Site → Panel → RestoreReply × Panel
restore_site c run site p =
    let chosen = run.form (codes "backup_id") in
    let go = prepare_and_restore c run chosen site p in
    if not (site.status == running || site.status == stopped || site.status == unhealthy)
    then (wrong_state, p)
    else if not (run.form (codes "confirm") == site.domain)
    then (unconfirmed, p)
    else if not (is_known chosen site) || not (valid_backup_id chosen)
    then (unknown_backup, p)
    else elim (new_backup_id run.clock run.bytes) [ none ↦ (no_restore_id, p) | some id ↦ go ]
