-- ===== src/Panel/Handlers/Listed/Safety.antt =====
-- cmd/panel/main.go: the sites in the store under updateSite and restoreSite.
use panel4wp.Prelude.{
  ◌≡◌, ◌⊎◌, inl, inr, arith, [], ◌==◌, text_eq, Text, codes, Bool-cases, Result-cases, Option-cases,
}
use panel4wp.Files.{File}
use panel4wp.Core.Model.{Site, running, stopped}
use panel4wp.Core.Ids.{new_backup_id}
use panel4wp.Store.{SitesCodec, put}
use panel4wp.Store.Laws.{SitesRoundTrip}
use panel4wp.Panel.{Panel, note}
use panel4wp.Panel.Tracked.{call_tracked}
use panel4wp.Panel.Handlers.Safety.{
  SafetyRun, safety_failed, safety_not_stored, safety_copy, with_copy, UpdateRun, ask_update,
  update_site, RestoreRun, ask_restore, after_prepare, prepare_and_restore, restore_site,
}
use panel4wp.Panel.Handlers.Listed.{Listed, either_file, put-Listed, call_tracked-Listed}

module _ (c : SitesCodec) (rt : SitesRoundTrip c) (id : Text) where
  safety_copy-Listed :
      (run : SafetyRun) (site : Site) (f : File)
      → Listed c id f
      → Listed c id (safety_copy c run site f).1
  unfolding safety_copy
  safety_copy-Listed run site f h =
      let called = call_tracked c (codes "safety-backup") run.attempt site f in
      let k = call_tracked-Listed c rt id (codes "safety-backup") run.attempt site f h in
      elim (Result-cases called.0) [
        | inr (e, a) ↦ rw (a, safety_copy) k
        | inl (copy, a) ↦
            rw (a, safety_copy) (put-Listed c rt id run.write (with_copy called.1 copy) called.2 k)
      ]

  ask_update-Listed :
      (run : UpdateRun) (i : Text) (site : Site) (p : Panel)
      → Listed c id p.sites
      → Listed c id (ask_update c run i site p).1.sites
  unfolding ask_update note
  ask_update-Listed run i site p h =
      let called = call_tracked c (codes "update") run.update site p.sites in
      let k = call_tracked-Listed c rt id (codes "update") run.update site p.sites h in
      let f = (put c run.write called.1 called.2).1 in
      let which : ((ask_update c run i site p).1.sites ≡ called.2)
          ⊎ ((ask_update c run i site p).1.sites ≡ f) =
        ground arith in
      either_file c rt id which k (put-Listed c rt id run.write called.1 called.2 k)

  ask_restore-Listed :
      (run : RestoreRun) (chosen : Text) (site : Site) (p : Panel)
      → Listed c id p.sites
      → Listed c id (ask_restore c run chosen site p).1.sites
  unfolding ask_restore note
  ask_restore-Listed run chosen site p h =
      let called = call_tracked c (codes "restore") run.restore site p.sites in
      let k = call_tracked-Listed c rt id (codes "restore") run.restore site p.sites h in
      let up : Site = record called.1 { status = running; error = [] } in
      let f = (put c run.write up called.2).1 in
      let which : ((ask_restore c run chosen site p).1.sites ≡ called.2)
          ⊎ ((ask_restore c run chosen site p).1.sites ≡ f) =
        ground arith in
      either_file c rt id which k (put-Listed c rt id run.write up called.2 k)

  pub update_site-Listed :
      (run : UpdateRun) (site : Site) (p : Panel)
      → Listed c id p.sites
      → Listed c id (update_site c run site p).1.sites
  unfolding update_site note
  update_site-Listed run site p h =
      let f = (safety_copy c run.safety site p.sites).1 in
      let k = safety_copy-Listed run.safety site p.sites h in
      elim (Bool-cases (site.status == running)) [
        | inr off ↦ rw (off, update_site) h
        | inl up ↦ elim (Option-cases (new_backup_id run.clock run.bytes)) [
          | inl n ↦ rw (up, update_site) (rw n h)
          | inr (i, n) ↦ elim (Result-cases (safety_copy c run.safety site p.sites).0) [
            | inr (safety_failed e, a) ↦ rw (up, update_site) (rw n (rw a k))
            | inr (safety_not_stored, a) ↦ rw (up, update_site) (rw n (rw a k))
            | inl ((copy, full), a) ↦
                rw (up, update_site)
                  (rw n (rw a (ask_update-Listed run i full (record p { sites = f }) k)))
          ]
        ]
      ]

  prepare_and_restore-Listed :
      (run : RestoreRun) (chosen : Text) (site : Site) (p : Panel)
      → Listed c id p.sites
      → Listed c id (prepare_and_restore c run chosen site p).1.sites
  unfolding prepare_and_restore after_prepare
  prepare_and_restore-Listed run chosen site p h =
      let called = call_tracked c (codes "restore-prepare") run.prepare site p.sites in
      let k = call_tracked-Listed c rt id (codes "restore-prepare") run.prepare site p.sites h in
      let down : Site = record called.1 { status = stopped } in
      let made = safety_copy c run.safety down called.2 in
      let l = safety_copy-Listed run.safety down called.2 k in
      elim (Result-cases called.0) [
        | inr (e, a) ↦ rw (a, prepare_and_restore) k
        | inl (v, a) ↦ elim (Result-cases made.0) [
          | inr (e, b) ↦ rw (a, prepare_and_restore) (rw (b, after_prepare) l)
          | inl ((copy, full), b) ↦
              rw (a, prepare_and_restore)
                (rw (b, after_prepare)
                  (ask_restore-Listed run chosen full (record p { sites = made.1 }) l))
        ]
      ]

  pub restore_site-Listed :
      (run : RestoreRun) (site : Site) (p : Panel)
      → Listed c id p.sites
      → Listed c id (restore_site c run site p).1.sites
  unfolding restore_site
  restore_site-Listed run site p h =
      let chosen = run.form (codes "backup_id") in
      let f = (prepare_and_restore c run chosen site p).1.sites in
      let which : ((restore_site c run site p).1.sites ≡ p.sites)
          ⊎ ((restore_site c run site p).1.sites ≡ f) =
        ground arith in
      either_file c rt id which h (prepare_and_restore-Listed run chosen site p h)
