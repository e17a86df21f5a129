-- ===== src/Panel/Handlers/Listed.antt =====
-- cmd/panel/main.go: which actions take a site out of the store.
pub mod Safety
use mathlib.Core.Path.{subst}
use panel4wp.Prelude.{
  ◌≡◌, ◌⊎◌, inl, inr, refl, sym, ap, ◌∙◌, arith, true, not, ◌||◌, some, [], ◌∷◌, ◌++◌, select, ◌==◌,
  text_eq, Text, codes, Result, ok, is_ok, Bool-cases, Result-cases, Option-cases, if_holds,
  ok-injective,
}
use panel4wp.Files.{File, Write}
use panel4wp.Core.Model.{
  Time, Site, Resources, Operation, Operation, Backup, running, stopped, source_manual,
}
use panel4wp.Core.Ids.{new_backup_id}
use panel4wp.Core.Validate.{validate_backup_policy}
use panel4wp.Store.{SitesCodec, put, get, get_site}
use panel4wp.Store.Laws.{SitesRoundTrip, get-put}
use panel4wp.Panel.{Panel, note}
use panel4wp.Panel.Tracked.{Attempt, Stored-readable, call_tracked, settle, marker, not_confirmed}
use panel4wp.Panel.Backups.Schedule.{BackupRun, perform_backup}
use panel4wp.Panel.Forms.{LimitsRun, save_resources, store_limits, chosen_resources}
use panel4wp.Panel.Handlers.{Form}
use panel4wp.Panel.Handlers.Safety.{
  SafetyRun, safety_failed, safety_not_stored, safety_copy, with_copy, UpdateRun, ask_update,
  update_site, RestoreRun, ask_restore, after_prepare, prepare_and_restore, restore_site,
}
use panel4wp.Panel.Handlers.Distinct.{get-read}
use panel4wp.Panel.Handlers.Actions.{ActionRun, mail_action}
use panel4wp.Panel.Handlers.Change.{
  backup_site, ScheduleReply, form_policy, save_backup_schedule, delete_backup,
}

-- The store has a site under an identifier.
abbrev pub Listed : SitesCodec → Text → File → Type 0
Listed c id f = (s : Site) × (get c id f ≡ ok (some s))

module _ (c : SitesCodec) (rt : SitesRoundTrip c) (id : Text) where
  pub either_file :
      {f g h : File} → (f ≡ g) ⊎ (f ≡ h) → Listed c id g → Listed c id h → Listed c id f
  either_file (inl same) k l = subst (Listed c id) (sym same) k
  either_file (inr same) k l = subst (Listed c id) (sym same) l

  pub put-Listed : (w : Write) (s : Site) (f : File) → Listed c id f → Listed c id (put c w s f).1
  put-Listed w s f (t, found) =
      let (m, e) = Stored-readable c rt (λ x. true) id f (t, found, refl) in
      let k : get_site id m ≡ some t = ok-injective (sym (get-read c rt id f e) ∙ found) in
      elim (get-put c rt w f s id e) [
        | inr (_, same) ↦ rw same (t, found)
        | inl (_, new) ↦ elim (Bool-cases (s.id == id)) [
          | inl own ↦ (s, rw own at new)
          | inr other ↦ (t, (rw other at new) ∙ ap ok k)
        ]
      ]

  settle-Listed :
      {A : Type 0} (a : Attempt A) (op : Operation) (site : Site) (f : File)
      → Listed c id f
      → Listed c id (settle c a op site f).2
  unfolding settle
  settle-Listed a op site f h =
      let noted : Site = record site { operation = some (record op { error = not_confirmed }) } in
      let which : ((settle c a op site f).2 ≡ f)
          ⊎ ((settle c a op site f).2 ≡ (put c a.second noted f).1) =
        ground arith in
      either_file which h (put-Listed a.second noted f h)

  pub call_tracked-Listed :
      {A : Type 0} (kind : Text) (a : Attempt A) (site : Site) (f : File)
      → Listed c id f
      → Listed c id (call_tracked c kind a site f).2
  unfolding call_tracked
  call_tracked-Listed kind a site f h = elim (Option-cases a.id) [
    | inl n ↦ rw (n, call_tracked) h
    | inr (i, n) ↦
        let op = marker i kind a.started in
        let marked : Site = record site { operation = some op } in
        let h' = put-Listed a.first marked f h in
        elim (Bool-cases (is_ok (put c a.first marked f).0)) [
          | inl good ↦ rw (n, call_tracked) (rw good (settle-Listed a op marked _ h'))
          | inr bad ↦ rw (n, call_tracked) (rw bad h')
        ]
  ]

  perform_backup-Listed :
      (source : Text) (b : BackupRun) (site : Site) (f : File)
      → Listed c id f
      → Listed c id (perform_backup c source b site f).2
  unfolding perform_backup
  perform_backup-Listed source b site f h = elim (Option-cases (new_backup_id b.clock b.bytes)) [
    | inl n ↦ rw (n, perform_backup) h
    | inr (_, n) ↦
        rw (n, perform_backup) (call_tracked-Listed (source ++ codes "-backup") b.attempt site f h)
  ]

  pub backup_site-Listed :
      (run : BackupRun) (w : Write) (site : Site) (p : Panel)
      → Listed c id p.sites
      → Listed c id (backup_site c run w site p).1.sites
  unfolding backup_site note
  backup_site-Listed run w site p h =
      let done = perform_backup c source_manual run site p.sites in
      let k = perform_backup-Listed source_manual run site p.sites h in
      elim (Bool-cases (site.status == running)) [
        | inr off ↦ rw (off, backup_site) h
        | inl up ↦ elim (Result-cases done.0) [
          | inr (e, a) ↦ rw (up, backup_site) (rw a k)
          | inl (copy, a) ↦
              let full : Site = record done.1 { backups = done.1.backups ++ copy ∷ [] } in
              let stored = put-Listed w full done.2 k in
              elim (Bool-cases (is_ok (put c w full done.2).0)) [
                | inl good ↦ rw (up, backup_site) (rw a (rw good stored))
                | inr bad ↦ rw (up, backup_site) (rw a (rw bad stored))
              ]
        ]
      ]

  pub save_backup_schedule-Listed :
      (form : Form) (now : Time) (w : Write) (site : Site) (p : Panel)
      → Listed c id p.sites
      → Listed c id (save_backup_schedule c form now w site p).1.sites
  unfolding save_backup_schedule note
  save_backup_schedule-Listed form now w site p h =
      let next : Site = record site { backup_policy = form_policy form now site.backup_policy } in
      let stored = put-Listed w next p.sites h in
      elim (Result-cases (validate_backup_policy next.backup_policy)) [
        | inr (e, v) ↦ rw (v, save_backup_schedule) h
        | inl (x, v) ↦
            rw (v, save_backup_schedule)
              (if_holds (λ (r : ScheduleReply × Panel). Listed c id r.1.sites)
                (is_ok (put c w next p.sites).0) _ _ stored stored)
      ]

  pub delete_backup-Listed :
      (form : Form) (answer : Result Text (Unit {0})) (w : Write) (site : Site) (p : Panel)
      → Listed c id p.sites
      → Listed c id (delete_backup c form answer w site p).1.sites
  unfolding delete_backup note
  delete_backup-Listed form answer w site p h =
      let gone = form (codes "backup_id") in
      let next : Site = record site {
        backups = select (λ (b : Backup). not (b.id == gone)) site.backups;
      } in
      let f = (put c w next p.sites).1 in
      let which : ((delete_backup c form answer w site p).1.sites ≡ p.sites)
          ⊎ ((delete_backup c form answer w site p).1.sites ≡ f) =
        ground arith in
      either_file which h (put-Listed w next p.sites h)

  pub mail_action-Listed :
      (run : ActionRun) (action : Text) (site : Site) (p : Panel)
      → Listed c id p.sites
      → Listed c id (mail_action c run action site p).1.sites
  unfolding mail_action note
  mail_action-Listed run action site p h =
      let next : Site = record site { mail_enabled = action == codes "mail-enable" } in
      let f = (put c run.last next p.sites).1 in
      let which : ((mail_action c run action site p).1.sites ≡ p.sites)
          ⊎ ((mail_action c run action site p).1.sites ≡ f) =
        ground arith in
      either_file which h (put-Listed run.last next p.sites h)

  store_limits-Listed :
      (run : LimitsRun) (wanted applied : Resources) (site : Site) (p : Panel)
      → Listed c id p.sites
      → Listed c id (store_limits c run wanted applied site p).1.sites
  unfolding store_limits note
  store_limits-Listed run wanted applied site p h =
      let next : Site = record site {
        memory_mb = applied.memory_mb;
        cpus = applied.cpus;
        error = [];
        health_error = [];
      } in
      let f = (put c run.write next p.sites).1 in
      let which : ((store_limits c run wanted applied site p).1.sites ≡ p.sites)
          ⊎ ((store_limits c run wanted applied site p).1.sites ≡ f) =
        ground arith in
      either_file which h (put-Listed run.write next p.sites h)

  pub save_resources-Listed :
      (run : LimitsRun) (site : Site) (p : Panel)
      → Listed c id p.sites
      → Listed c id (save_resources c run site p).1.sites
  unfolding save_resources note
  save_resources-Listed run site p h =
      let called = call_tracked c (codes "resources") run.attempt site p.sites in
      let k = call_tracked-Listed (codes "resources") run.attempt site p.sites h in
      elim (Bool-cases
        (not (site.health_error == []) || not (site.status == running || site.status == stopped))) [
          | inl off ↦ rw (off, save_resources) h
          | inr up ↦ elim (Result-cases (chosen_resources run.parse_float run.plans run.form)) [
            | inr (e, a) ↦ rw (up, save_resources) (rw a h)
            | inl (limits, a) ↦ elim (Result-cases called.0) [
              | inr (e, b) ↦ rw (up, save_resources) (rw a (rw b k))
              | inl (applied, b) ↦
                  rw (up, save_resources)
                    (rw a (
                      rw b (
                        store_limits-Listed run limits applied called.1
                          (record p { sites = called.2 }) k)))
            ]
          ]
        ]
