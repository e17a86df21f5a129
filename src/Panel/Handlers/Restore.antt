-- ===== src/Panel/Handlers/Restore.antt =====
-- cmd/panel/main.go: theorems on restoreSite.
use mathlib.Core.Path.{subst}
use panel4wp.Prelude.{
  ◌≡◌, inl, inr, Bool, true, false, not, ◌||◌, [], ◌==◌, text_eq, Text, codes, ok, is_ok,
  Bool-cases, Result-cases, Option-cases, eq_of_==, negation_lem, ||_false,
}
use panel4wp.Files.{File}
use panel4wp.Core.Model.{Site, Backup, running, stopped, unhealthy}
use panel4wp.Core.Ids.{new_backup_id, valid_backup_id}
use panel4wp.Store.{Sites, SitesCodec, put, read_sites}
use panel4wp.Store.Laws.{SitesRoundTrip}
use panel4wp.Panel.{Panel, note}
use panel4wp.Panel.Tracked.{call_tracked, Stored, call_tracked-id}
use panel4wp.Panel.Handlers.Safety.{
  SafetyRun, safety_copy, is_known, RestoreReply, RestoreRun, ask_restore, after_prepare,
  prepare_and_restore, restore_site, restore_failed, restore_not_stored, restored,
}
use panel4wp.Panel.Handlers.Kept.{
  Free, call_tracked-Stored, put_called-Stored, call_tracked-readable, safety_copy-IsSafe,
}

module _ (c : SitesCodec) (rt : SitesRoundTrip c) where
  ask_restore-Stored :
      (run : RestoreRun) (chosen i : Text) (site : Site) (p : Panel)
      → is_known i site ≡ true
      → Stored (is_known i) c p.sites site.id
      → Stored (is_known i) c (ask_restore c run chosen site p).1.sites site.id
  unfolding ask_restore note
  ask_restore-Stored run chosen i site p t h =
      let kind = codes "restore" in
      let called = call_tracked c kind run.restore site p.sites in
      let up : Site = record called.1 { status = running; error = [] } in
      let free : Free (is_known i) = λ s o k. k in
      let (k, u) = call_tracked-Stored c rt (is_known i) free kind run.restore site p.sites t h in
      elim (Result-cases called.0) [
        | inr (x, a) ↦ rw (a, ask_restore) k
        | inl (v, a) ↦
            let stays : Stored (is_known i) c (put c run.write up called.2).1 site.id =
              put_called-Stored c rt (is_known i) free kind run.restore run.write site up p.sites
                (call_tracked-id c kind run.restore site p.sites) t u h in
            elim (Bool-cases (is_ok (put c run.write up called.2).0)) [
              | inl good ↦ rw (a, ask_restore) (rw good stays)
              | inr bad ↦ rw (a, ask_restore) (rw bad stays)
            ]
      ]

-- The worker was asked for the restore.
abbrev pub restore_asked : RestoreReply → Bool
restore_asked (restore_failed e) = true
restore_asked restore_not_stored = true
restore_asked restored = true
restore_asked _ = false

-- The worker has answered with a safety backup, which the store has.
abbrev pub HasSafety : SitesCodec → SafetyRun → Text → File → Type 0
HasSafety c run id f =
    (copy : Backup) × (run.attempt.answer ≡ ok copy) × Stored (is_known copy.id) c f id

module _ (c : SitesCodec) (rt : SitesRoundTrip c) (run : RestoreRun) (chosen : Text) where
  after_prepare-HasSafety :
      (site : Site) (p : Panel) {m : Sites}
      → read_sites c p.sites ≡ ok m
      → restore_asked (after_prepare c run chosen site p).0 ≡ true
      → HasSafety c run.safety site.id (after_prepare c run chosen site p).1.sites
  unfolding after_prepare
  after_prepare-HasSafety site p e h =
      let down : Site = record site { status = stopped } in
      elim (Result-cases (safety_copy c run.safety down p.sites).0) [
        | inr (x, a) ↦ cc (rw (a, after_prepare) at h)
        | inl ((copy, full), a) ↦
            let f = (safety_copy c run.safety down p.sites).1 in
            let safe = safety_copy-IsSafe c rt run.safety down p.sites copy full e a in
            (
              copy,
              safe.answered,
              rw (a, after_prepare)
                  (subst
                    (Stored (is_known copy.id) c
                      (ask_restore c run chosen full (record p { sites = f })).1.sites)
                    safe.same
                    (ask_restore-Stored c rt run chosen copy.id full (record p { sites = f })
                      safe.held safe.stored)),
            )
      ]

  prepare_and_restore-HasSafety :
      (site : Site) (p : Panel) {m : Sites}
      → read_sites c p.sites ≡ ok m
      → restore_asked (prepare_and_restore c run chosen site p).0 ≡ true
      → HasSafety c run.safety site.id (prepare_and_restore c run chosen site p).1.sites
  unfolding prepare_and_restore
  prepare_and_restore-HasSafety site p e h =
      let kind = codes "restore-prepare" in
      let called = call_tracked c kind run.prepare site p.sites in
      let q : Panel = record p { sites = called.2 } in
      elim (Result-cases called.0) [
        | inr (x, a) ↦ cc (rw (a, prepare_and_restore) at h)
        | inl (v, a) ↦
            let (_, readable) = call_tracked-readable c rt kind run.prepare site p.sites e in
            rw (a, prepare_and_restore)
              (subst (λ k. HasSafety c run.safety k (after_prepare c run chosen called.1 q).1.sites)
                (call_tracked-id c kind run.prepare site p.sites)
                (after_prepare-HasSafety called.1 q readable (rw (a, prepare_and_restore) at h)))
      ]

-- The worker is asked for a restore only under the site's own domain as confirmation, of a well-formed
-- backup that the site has, and only when it has answered with a safety backup, which stands in the store
-- however the restore and the writes after it end.
pub restore_site-KeepsSafety :
    (c : SitesCodec) (run : RestoreRun) (site : Site) (p : Panel) {m : Sites}
    → SitesRoundTrip c
    → read_sites c p.sites ≡ ok m
    → restore_asked (restore_site c run site p).0 ≡ true
    → (run.form (codes "confirm") ≡ site.domain)
      × (is_known (run.form (codes "backup_id")) site ≡ true)
      × (valid_backup_id (run.form (codes "backup_id")) ≡ true)
      × HasSafety c run.safety site.id (restore_site c run site p).1.sites
unfolding restore_site
restore_site-KeepsSafety c run site p {m} rt e h =
    let chosen = run.form (codes "backup_id") in
    elim (Bool-cases
      (not (site.status == running || site.status == stopped || site.status == unhealthy))) [
        | inl wrong ↦ cc (rw (wrong, restore_site) at h)
        | inr right ↦ elim (Bool-cases (run.form (codes "confirm") == site.domain)) [
          | inr other ↦ cc (rw other at (rw (right, restore_site) at h))
          | inl same ↦
              elim (Bool-cases (not (is_known chosen site) || not (valid_backup_id chosen))) [
                | inl unknown ↦ cc (rw unknown at (rw same at (rw (right, restore_site) at h)))
                | inr known ↦ elim (Option-cases (new_backup_id run.clock run.bytes)) [
                  | inl n ↦ cc (rw n at (rw known at (rw same at (rw (right, restore_site) at h))))
                  | inr (id, n) ↦
                      let (has, fits) = ||_false _ _ known in
                      let k = rw n at (rw known at (rw same at (rw (right, restore_site) at h))) in
                      (
                        eq_of_== _ _ same,
                        negation_lem _ has,
                        negation_lem _ fits,
                        rw (right, restore_site)
                            (rw same (
                              rw known
                                (rw n (prepare_and_restore-HasSafety c rt run chosen site p e k)))),
                      )
                ]
              ]
        ]
      ]
