-- ===== src/Panel/Handlers/Deleted.antt =====
-- cmd/panel/main.go: theorems on siteAction.
use mathlib.Core.Path.{subst}
use panel4wp.Prelude.{
  ◌≡◌, ◌⊎◌, inl, inr, refl, sym, ap, ◌∙◌, arith, true, false, not, none, some, [], if◌then◌else◌,
  ◌==◌, ==_refl, text_eq, Text, codes, ok, is_ok, Bool-cases, Result-cases, Option-cases, eq_of_==,
  ok-injective, text_beq,
}
use panel4wp.Files.{File}
use panel4wp.Core.Model.{Site, creating, running, stopped, failed, deleting, unhealthy}
use panel4wp.Store.{SitesCodec, put, get, delete, get_site}
use panel4wp.Store.Laws.{SitesRoundTrip, get-delete}
use panel4wp.Panel.{Panel, note}
use panel4wp.Panel.Tracked.{CallError, Stored-readable, call_tracked, operation_pending}
use panel4wp.Panel.Handlers.Safety.{error_of, update_site, restore_site}
use panel4wp.Panel.Handlers.Change.{backup_site, save_backup_schedule, delete_backup}
use panel4wp.Panel.Forms.{save_resources}
use panel4wp.Panel.Handlers.Distinct.{get-read}
use panel4wp.Panel.Handlers.Kept.{call_tracked-answer}
use panel4wp.Panel.Handlers.Listed.{
  Listed, either_file, put-Listed, call_tracked-Listed, backup_site-Listed,
  save_backup_schedule-Listed, delete_backup-Listed, mail_action-Listed, save_resources-Listed,
}
use panel4wp.Panel.Handlers.Listed.Safety.{update_site-Listed, restore_site-Listed}
use panel4wp.Panel.Handlers.Actions.{
  ActionRun, end_failed, end_changed, end_deleted, ask_worker, mark_and_ask, retry, remove,
  run_action, choose_action, site_path, site_action, mail_action,
}

-- A site is listed, or it is the one that the worker has said to have deleted.
abbrev Kept : SitesCodec → ActionRun → Text → Text → Text → File → Type 0
Kept c run id action j f =
    Listed c j f ⊎ ((run.attempt.answer ≡ ok tt) × (action ≡ codes "delete") × (id ≡ j))

-- What a deletion needs.
pub record IsDeletion (run : ActionRun) (site : Site) : Type 0 where
  pub answered : run.attempt.answer ≡ ok tt
  pub settled : operation_pending site ≡ false
  pub confirmed : run.form (codes "confirm") ≡ site.domain

module _ (c : SitesCodec) (rt : SitesRoundTrip c) (run : ActionRun) (id j : Text) where
  end_failed-Listed :
      (action : Text) (e : CallError) (site : Site) (p : Panel)
      → Listed c j p.sites
      → Listed c j (end_failed c run action e site p).1.sites
  unfolding end_failed note
  end_failed-Listed action e site p h =
      let broken : Site = record site {
        status = if action == codes "retry" then failed else unhealthy;
        error = error_of e;
      } in
      let f = (put c run.last broken p.sites).1 in
      let which : (end_failed c run action e site p).1.sites ≡ f = ground arith in
      either_file c rt j (inl which) (put-Listed c rt j run.last broken p.sites h) h

  end_changed-Listed :
      (action : Text) (site : Site) (p : Panel)
      → Listed c j p.sites
      → Listed c j (end_changed c run action site p).1.sites
  unfolding end_changed note
  end_changed-Listed action site p h =
      let next : Site = record site {
        status = if action == codes "stop" then stopped else running;
        error = [];
        health_error = [];
      } in
      let f = (put c run.last next p.sites).1 in
      let which : (end_changed c run action site p).1.sites ≡ f = ground arith in
      either_file c rt j (inl which) (put-Listed c rt j run.last next p.sites h) h

  end_deleted-Listed :
      (site : Site) (p : Panel)
      → Listed c j p.sites
      → Listed c j (end_deleted c run id site p).1.sites ⊎ (id ≡ j)
  unfolding end_deleted note
  end_deleted-Listed site p (t, found) =
      let (m, e) = Stored-readable c rt (λ x. true) j p.sites (t, found, refl) in
      let k : get_site j m ≡ some t = ok-injective (sym (get-read c rt j p.sites e) ∙ found) in
      let f = (delete c run.last id p.sites).1 in
      let which : (end_deleted c run id site p).1.sites ≡ f = ground arith in
      elim (Bool-cases (id == j)) [
        | inl own ↦ inr (eq_of_== id j own)
        | inr other ↦ inl (
            either_file c rt j (inl which)
              (elim (get-delete c rt run.last p.sites id j e) [
                | inr (_, same) ↦ rw same (t, found)
                | inl (_, new) ↦ (t, (rw other at new) ∙ ap ok k)
              ])
              (t, found))
      ]

  ask_worker-Kept :
      (kind action : Text) (site : Site) (p : Panel)
      → Listed c j p.sites
      → Kept c run id action j (ask_worker c run id kind action site p).1.sites
  unfolding ask_worker
  ask_worker-Kept kind action site p h =
      let called = call_tracked c kind run.attempt site p.sites in
      let q : Panel = record p { sites = called.2 } in
      let k = call_tracked-Listed c rt j kind run.attempt site p.sites h in
      elim (Result-cases called.0) [
        | inr (e, a) ↦ inl (rw (a, ask_worker) (end_failed-Listed action e called.1 q k))
        | inl (v, a) ↦ elim (Bool-cases (action == codes "delete")) [
          | inr other ↦ inl (rw (a, ask_worker) (rw other (end_changed-Listed action called.1 q k)))
          | inl gone ↦ elim (end_deleted-Listed called.1 q k) [
            | inl stays ↦ inl (rw (a, ask_worker) (rw gone stays))
            | inr own ↦
                inr
                  (call_tracked-answer c rt kind run.attempt site p.sites a, eq_of_== _ _ gone, own)
          ]
        ]
      ]

  mark_and_ask-Kept :
      (kind action : Text) (site : Site) (p : Panel)
      → Listed c j p.sites
      → Kept c run id action j (mark_and_ask c run id kind action site p).1.sites
  unfolding mark_and_ask
  mark_and_ask-Kept kind action site p h =
      let q : Panel = record p { sites = (put c run.first site p.sites).1 } in
      let k = put-Listed c rt j run.first site p.sites h in
      elim (Bool-cases (is_ok (put c run.first site p.sites).0)) [
        | inl good ↦ rw (good, mark_and_ask) (ask_worker-Kept kind action site q k)
        | inr bad ↦ inl (rw (bad, mark_and_ask) k)
      ]

  retry-Listed :
      (site : Site) (p : Panel) → Listed c j p.sites → Listed c j (retry c run id site p).1.sites
  unfolding retry
  retry-Listed site p h =
      let next : Site = record site { status = creating; error = [] } in
      elim (Bool-cases (not (site.status == failed))) [
        | inl up ↦ rw (up, retry) h
        | inr down ↦ elim (mark_and_ask-Kept (codes "create") (codes "retry") next p h) [
          | inl k ↦ rw (down, retry) k
          | inr (_, same, _) ↦ cc same
        ]
      ]

  -- An action other than a deletion.
  run_action-Listed :
      (action : Text) (site : Site) (p : Panel)
      → (action == codes "delete") ≡ false
      → Listed c j p.sites
      → Listed c j (run_action c run id action site p).1.sites
  unfolding run_action
  run_action-Listed action site p other h =
      let after = (run_action c run id action site p).1.sites in
      let which : (after ≡ p.sites)
          ⊎ (after ≡ (backup_site c run.backup run.last site p).1.sites)
          ⊎ (after ≡ (save_backup_schedule c run.form run.now run.last site p).1.sites)
          ⊎ (after ≡ (delete_backup c run.form run.copy_answer run.last site p).1.sites)
          ⊎ (after ≡ (update_site c run.update site p).1.sites)
          ⊎ (after ≡ (restore_site c run.restore site p).1.sites)
          ⊎ (after ≡ (retry c run id site p).1.sites)
          ⊎ (after ≡ (ask_worker c run id action action site p).1.sites) =
        ground arith in
      let asked : Listed c j (ask_worker c run id action action site p).1.sites =
        elim (ask_worker-Kept action action site p h) [
          | inl k ↦ k
          | inr (_, same, _) ↦
              let again : (action == codes "delete") ≡ true = rw same (==_refl (codes "delete")) in
              cc (other, again)
        ] in
      elim which [
        | inl same ↦ subst (Listed c j) (sym same) h
        | inr (inl same) ↦
            subst (Listed c j) (sym same) (backup_site-Listed c rt j run.backup run.last site p h)
        | inr (inr (inl same)) ↦
            subst (Listed c j) (sym same)
              (save_backup_schedule-Listed c rt j run.form run.now run.last site p h)
        | inr (inr (inr (inl same))) ↦
            subst (Listed c j) (sym same)
              (delete_backup-Listed c rt j run.form run.copy_answer run.last site p h)
        | inr (inr (inr (inr (inl same)))) ↦
            subst (Listed c j) (sym same) (update_site-Listed c rt j run.update site p h)
        | inr (inr (inr (inr (inr (inl same))))) ↦
            subst (Listed c j) (sym same) (restore_site-Listed c rt j run.restore site p h)
        | inr (inr (inr (inr (inr (inr (inl same)))))) ↦
            subst (Listed c j) (sym same) (retry-Listed site p h)
        | inr (inr (inr (inr (inr (inr (inr same)))))) ↦ subst (Listed c j) (sym same) asked
      ]

  choose_action-Listed :
      (action : Text) (site : Site) (p : Panel)
      → (action == codes "delete") ≡ false
      → Listed c j p.sites
      → Listed c j (choose_action c run id action site p).1.sites
  unfolding choose_action note
  choose_action-Listed action site p other h =
      let after = (choose_action c run id action site p).1.sites in
      let which : (after ≡ p.sites)
          ⊎ (after ≡ (save_resources c run.limits site p).1.sites)
          ⊎ (after ≡ (mail_action c run action site p).1.sites)
          ⊎ (after ≡ (run_action c run id action site p).1.sites) =
        ground arith in
      elim which [
        | inl same ↦ subst (Listed c j) (sym same) h
        | inr (inl same) ↦
            subst (Listed c j) (sym same) (save_resources-Listed c rt j run.limits site p h)
        | inr (inr (inl same)) ↦
            subst (Listed c j) (sym same) (mail_action-Listed c rt j run action site p h)
        | inr (inr (inr same)) ↦
            subst (Listed c j) (sym same) (run_action-Listed action site p other h)
      ]

  delete-Kept :
      (site : Site) (p : Panel)
      → Listed c j p.sites
      → Listed c j (choose_action c run id (codes "delete") site p).1.sites
        ⊎ (IsDeletion run site × (id ≡ j))
  unfolding choose_action run_action remove text_beq
  delete-Kept site p h = elim (Bool-cases (operation_pending site)) [
    | inl waits ↦ inl (rw waits h)
    | inr over ↦ elim (Bool-cases (run.form (codes "confirm") == site.domain)) [
      | inr wrong ↦ inl (rw over (rw wrong h))
      | inl right ↦
          elim (mark_and_ask-Kept (codes "delete") (codes "delete")
            (record site { status = deleting }) p h) [
              | inl k ↦ inl (rw over (rw right k))
              | inr (a, _, own) ↦
                  inr (record { answered = a; settled = over; confirmed = eq_of_== _ _ right }, own)
            ]
    ]
  ]

-- No action takes a site out of the store but a deletion of this site that the administrator has confirmed
-- by its domain, that no unresolved operation stands in the way of, and that the worker has answered.
pub site_action-Listed :
    (c : SitesCodec) (run : ActionRun) (j : Text) (p : Panel)
    → SitesRoundTrip c
    → Listed c j p.sites
    → Listed c j (site_action c run p).1.sites
      ⊎ ((site : Site) × (site_path run.path ≡ some (j, codes "delete"))
          × (get c j p.sites ≡ ok (some site))
          × IsDeletion run site)
unfolding site_action
site_action-Listed c run j p rt h = elim (Option-cases (site_path run.path)) [
  | inl n ↦ inl (rw (n, site_action) h)
  | inr ((id, action), n) ↦ elim (Result-cases (get c id p.sites)) [
    | inr (e, g) ↦ inl (rw (n, site_action) (rw g h))
    | inl (none, g) ↦ inl (rw (n, site_action) (rw g h))
    | inl (some site, g) ↦ elim (Bool-cases (action == codes "delete")) [
      | inr other ↦
          inl
            (rw (n, site_action) (rw g (choose_action-Listed c rt run id j action site p other h)))
      | inl gone ↦
          let is = eq_of_== action (codes "delete") gone in
          elim (delete-Kept c rt run id j site p h) [
            | inl k ↦ inl (
                rw (n, site_action)
                  (rw g
                    (subst (λ a. Listed c j (choose_action c run id a site p).1.sites) (sym is) k)))
            | inr (d, same) ↦ inr (
              site,
              n ∙ ap (λ i. some (i, action)) same ∙ ap (λ a. some (j, a)) is,
              subst (λ i. get c i p.sites ≡ ok (some site)) same g,
              d,
            )
          ]
    ]
  ]
]
