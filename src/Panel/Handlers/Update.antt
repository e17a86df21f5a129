-- ===== src/Panel/Handlers/Update.antt =====
-- cmd/panel/main.go: theorems on updateSite.
use mathlib.Core.Path.{subst}
use panel4wp.Prelude.{
  ◌≡◌, inl, inr, Bool, true, false, ◌==◌, text_eq, Text, codes, ok, is_ok, Bool-cases, Result-cases,
  Option-cases, eq_of_==,
}
use panel4wp.Core.Model.{Site, Backup, running}
use panel4wp.Core.Ids.{new_backup_id}
use panel4wp.Store.{Sites, SitesCodec, put, read_sites}
use panel4wp.Store.Laws.{SitesRoundTrip}
use panel4wp.Panel.{Panel, note}
use panel4wp.Panel.Tracked.{call_tracked, Stored, call_tracked-id}
use panel4wp.Panel.Handlers.Safety.{
  safety_copy, UpdateReply, UpdateRun, ask_update, update_site, update_failed, update_not_stored,
  updated, is_known,
}
use panel4wp.Panel.Handlers.Kept.{Free, call_tracked-Stored, put_called-Stored, safety_copy-IsSafe}

module _ (c : SitesCodec) (rt : SitesRoundTrip c) where
  ask_update-Stored :
      (run : UpdateRun) (id i : Text) (site : Site) (p : Panel)
      → is_known i site ≡ true
      → Stored (is_known i) c p.sites site.id
      → Stored (is_known i) c (ask_update c run id site p).1.sites site.id
  unfolding ask_update note
  ask_update-Stored run id i site p t h =
      let kind = codes "update" in
      let called = call_tracked c kind run.update site p.sites in
      let free : Free (is_known i) = λ s o k. k in
      let (k, u) = call_tracked-Stored c rt (is_known i) free kind run.update site p.sites t h in
      elim (Result-cases called.0) [
        | inr (x, a) ↦ rw (a, ask_update) k
        | inl (v, a) ↦
            let stays : Stored (is_known i) c (put c run.write called.1 called.2).1 site.id =
              put_called-Stored c rt (is_known i) free kind run.update run.write site called.1
                p.sites (call_tracked-id c kind run.update site p.sites) t u h in
            elim (Bool-cases (is_ok (put c run.write called.1 called.2).0)) [
              | inl good ↦ rw (a, ask_update) (rw good stays)
              | inr bad ↦ rw (a, ask_update) (rw bad stays)
            ]
      ]

-- The worker was asked for the update.
abbrev pub update_asked : UpdateReply → Bool
update_asked (update_failed e) = true
update_asked update_not_stored = true
update_asked updated = true
update_asked _ = false

-- The worker is asked for an update only of a running site, and only when it has answered with a safety
-- backup; that backup stands in the store however the update and the writes after it end.
pub update_site-KeepsSafety :
    (c : SitesCodec) (run : UpdateRun) (site : Site) (p : Panel) {m : Sites}
    → SitesRoundTrip c
    → read_sites c p.sites ≡ ok m
    → update_asked (update_site c run site p).0 ≡ true
    → (site.status ≡ running)
      × ((copy : Backup) × (run.safety.attempt.answer ≡ ok copy)
          × Stored (is_known copy.id) c (update_site c run site p).1.sites site.id)
unfolding update_site
update_site-KeepsSafety c run site p {m} rt e h = elim (Bool-cases (site.status == running)) [
  | inr off ↦ cc (rw (off, update_site) at h)
  | inl up ↦ elim (Option-cases (new_backup_id run.clock run.bytes)) [
    | inl n ↦ cc (rw n at (rw (up, update_site) at h))
    | inr (id, n) ↦ elim (Result-cases (safety_copy c run.safety site p.sites).0) [
      | inr (x, a) ↦ cc (rw a at (rw n at (rw (up, update_site) at h)))
      | inl ((copy, full), a) ↦
          let f = (safety_copy c run.safety site p.sites).1 in
          let safe = safety_copy-IsSafe c rt run.safety site p.sites copy full e a in
          (
            eq_of_== site.status running up,
            (
              copy,
              safe.answered,
              rw (up, update_site)
                  (rw n (
                    rw a (
                      subst
                        (Stored (is_known copy.id) c
                          (ask_update c run id full (record p { sites = f })).1.sites)
                        safe.same
                        (ask_update-Stored c rt run id copy.id full (record p { sites = f })
                          safe.held safe.stored)))),
            ),
          )
    ]
  ]
]
