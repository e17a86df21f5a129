-- ===== src/Panel/Backups/Once.antt =====
-- cmd/panel/main.go: theorems on runScheduledBackup and the sites that are due.
use mathlib.Core.Path.{subst}
use panel4wp.Prelude.{
  ℕ, zero, suc, ◌*◌, ◌≤◌, ◌<◌, ◌≡◌, ◌⊎◌, inl, inr, refl, sym, ap, ◌∙◌, arith, Bool, true, false,
  not, [], ◌∷◌, ◌++◌, leb, ◌==◌, text_eq, Text, codes, ok, is_ok, Bool-cases, Result-cases,
  Option-cases,
}
use panel4wp.Prelude.Int.{pos, ltb_ℤ, ◌*ℤ◌, wrap64}
use panel4wp.Files.{File, Write}
use panel4wp.Core.Model.{Time, Site, Backup, running, source_scheduled}
use panel4wp.Core.Ids.{new_backup_id}
use panel4wp.Store.{Sites, SitesCodec, put, read_sites}
use panel4wp.Store.Laws.{SitesRoundTrip}
use panel4wp.Panel.{Panel, note, truncate_text}
use panel4wp.Panel.Tracked.{
  operation_pending, Stored, put-Stored, put-Stored_again, call_tracked-IsMarked, call_tracked-id,
}
use panel4wp.Panel.Backups.{
  Round, Pruned, prune_round, prune_scheduled_backups, oldest_scheduled_backup,
  scheduled_backup_count, with_error, with_backups, remove_at,
}
use panel4wp.Panel.Backups.Schedule.{
  BackupRun, ScheduledRun, perform_backup, duration_hours, add_hours, attempted, end_with,
  end_with_copy, run_scheduled_backup, is_due, message_of,
}

-- A site that the scheduler does not run at a time.
abbrev pub not_due : Time → Site → Bool
not_due now s = not (is_due now s)

-- The store is the old one, or has the site and does not run it again at that time.
abbrev pub Settled : SitesCodec → File → Time → Text → File → Type 0
Settled c old now id f = (f ≡ old) ⊎ Stored (not_due now) c f id

later : (now : Time) (s : Site) → now < s.backup_policy.next_run_at → not_due now s ≡ true
unfolding is_due
later now s h =
    let no : leb s.backup_policy.next_run_at now ≡ false = ground arith in rw no (ground arith)

marked_later : (now : Time) (s : Site) → operation_pending s ≡ true → not_due now s ≡ true
unfolding is_due
marked_later now s h = rw h refl

module _ (c : SitesCodec) (rt : SitesRoundTrip c) (old : File) (now : Time) {m : Sites}
    (readable : read_sites c old ≡ ok m) where
  put-Settled :
      (w : Write) (s : Site) (f : File)
      → now < s.backup_policy.next_run_at
      → Settled c old now s.id f
      → Settled c old now s.id (put c w s f).1
  put-Settled w s f h (inl same) =
      elim (put-Stored c rt (not_due now) w s old readable (later now s h)) [
        | inl new ↦ inr (subst (λ g. Stored (not_due now) c (put c w s g).1 s.id) (sym same) new)
        | inr (failed, kept) ↦ inl (ap (λ g. (put c w s g).1) same ∙ kept)
      ]
  put-Settled w s f h (inr k) = inr (put-Stored_again c rt (not_due now) w s f (later now s h) k)

  round-Settled :
      (r : Round) (i : ℕ) (site : Site) (p : Panel) (next : Site → Panel → Pruned)
      → now < site.backup_policy.next_run_at
      → Settled c old now site.id p.sites
      → ((q : Panel)
          → Settled c old now site.id q.sites
          → Settled c old now site.id
              (next (with_backups site (remove_at i site.backups)) q).panel.sites)
      → Settled c old now site.id (prune_round c r i site p next).panel.sites
  unfolding prune_round note
  round-Settled r i site p next h k rest = elim (Result-cases r.answer) [
    | inr (e, a) ↦ rw (a, prune_round) (put-Settled r.write (with_error site _) p.sites h k)
    | inl (tt, a) ↦
        let kept = with_backups site (remove_at i site.backups) in
        let stored = put-Settled r.write kept p.sites h k in
        elim (Bool-cases (is_ok (put c r.write kept p.sites).0)) [
          | inl good ↦ rw (a, prune_round) (rw good (rest _ stored))
          | inr bad ↦ rw (a, prune_round) (rw bad stored)
        ]
  ]

  prune-Settled :
      (rounds : ℕ → Round) (fuel : ℕ) (site : Site) (p : Panel)
      → now < site.backup_policy.next_run_at
      → Settled c old now site.id p.sites
      → Settled c old now site.id (prune_scheduled_backups c rounds fuel site p).panel.sites
  unfolding prune_scheduled_backups
  prune-Settled rounds zero site p h k = k
  prune-Settled rounds (suc fuel) site p h k =
      elim (Bool-cases
        (ltb_ℤ site.backup_policy.retention (pos (scheduled_backup_count site.backups)))) [
          | inr enough ↦ rw (enough, prune_scheduled_backups) k
          | inl more ↦ elim (Option-cases (oldest_scheduled_backup site.backups)) [
            | inl n ↦ rw (more, prune_scheduled_backups) (rw n k)
            | inr (i, n) ↦
                rw (more, prune_scheduled_backups)
                  (rw n (
                    round-Settled (rounds fuel) i site p (prune_scheduled_backups c rounds fuel) h k
                      (λ q s.
                        prune-Settled rounds fuel (with_backups site (remove_at i site.backups)) q h
                          s)))
          ]
        ]

  end_with-Settled :
      (w : Write) (e : Text) (site : Site) (p : Panel)
      → now < site.backup_policy.next_run_at
      → Settled c old now site.id p.sites
      → Settled c old now site.id (end_with c w e site p).sites
  unfolding end_with note
  end_with-Settled w e site p h k = put-Settled w (with_error site e) p.sites h k

  end_with_copy-Settled :
      (run : ScheduledRun) (copy : Backup) (site : Site) (p : Panel)
      → now < site.backup_policy.next_run_at
      → Settled c old now site.id p.sites
      → Settled c old now site.id (end_with_copy c run copy site p).sites
  unfolding end_with_copy note
  end_with_copy-Settled run copy site p h k =
      let full : Site = record site {
        backup_policy = record site.backup_policy {
          last_success_at = copy.created_at;
          last_error = [];
        };
        backups = site.backups ++ copy ∷ [];
      } in
      let stored = put-Settled run.write full p.sites h k in
      elim (Bool-cases (is_ok (put c run.write full p.sites).0)) [
        | inl good ↦ rw good (prune-Settled run.rounds run.fuel full _ h stored)
        | inr bad ↦ rw bad stored
      ]

  perform_backup-Settled :
      (source : Text) (b : BackupRun) (site : Site)
      → Settled c old now site.id (perform_backup c source b site old).2
  unfolding perform_backup
  perform_backup-Settled source b site = elim (Option-cases (new_backup_id b.clock b.bytes)) [
    | inl n ↦ rw (n, perform_backup) (inl refl)
    | inr (id, n) ↦
        elim (call_tracked-IsMarked c rt (source ++ codes "-backup") b.attempt site old readable) [
          | inl (same, x) ↦ rw (n, perform_backup) (inl same)
          | inr (s, found, p) ↦ rw (n, perform_backup) (inr (s, found, marked_later now s p))
        ]
  ]

perform_backup-id :
    (c : SitesCodec) (source : Text) (b : BackupRun) (site : Site) (f : File)
    → (perform_backup c source b site f).1.id ≡ site.id
unfolding perform_backup
perform_backup-id c source b site f = elim (Option-cases (new_backup_id b.clock b.bytes)) [
  | inl n ↦ rw (n, perform_backup) refl
  | inr (id, n) ↦
      rw (n, perform_backup) (call_tracked-id c (source ++ codes "-backup") b.attempt site f)
]

duration_hours-pos : (n : ℕ) → n ≤ 2_562_047 → duration_hours (pos n) ≡ pos (n * 3_600_000_000_000)
unfolding duration_hours wrap64 ◌*ℤ◌
duration_hours-pos n h = ground arith

add_hours-later : (now n : ℕ) → n < 2_562_047 → now < add_hours now (pos (suc n))
add_hours-later now n h = rw (duration_hours-pos (suc n) (omega arith)) (omega arith)

-- On a store that can be read, whose codec reads back what it writes, and for an interval of at least one
-- and at most 2562047 hours (whose nanoseconds are within an int64): however the worker and the store
-- answer, a scheduled run either leaves the store as it was or leaves the site there so that it is not run
-- again at the same time: its next run is later, or its operation is not resolved.
pub run_scheduled_backup-Settled :
    (c : SitesCodec) (run : ScheduledRun) (now hours : ℕ) (site : Site) (p : Panel) {m : Sites}
    → SitesRoundTrip c
    → read_sites c p.sites ≡ ok m
    → site.backup_policy.interval_hours ≡ pos (suc hours)
    → hours < 2_562_047
    → Settled c p.sites now site.id (run_scheduled_backup c run now site p).sites
unfolding run_scheduled_backup
run_scheduled_backup-Settled c run now hours site p rt e k fits =
    let h : now < (attempted site.backup_policy now).next_run_at =
      rw k (add_hours-later now hours fits) in
    elim (Bool-cases (site.status == running)) [
      | inr stopped ↦ rw stopped (
          end_with-Settled c rt p.sites now e run.write (codes "site is not running")
            (record site { backup_policy = attempted site.backup_policy now }) p h (inl refl))
      | inl up ↦
          let called = perform_backup c source_scheduled run.backup site p.sites in
          let after : Site = record called.1 { backup_policy = attempted site.backup_policy now } in
          let same = perform_backup-id c source_scheduled run.backup site p.sites in
          let k' : Settled c p.sites now after.id called.2 =
            subst (λ i. Settled c p.sites now i called.2) (sym same)
              (perform_backup-Settled c rt p.sites now e source_scheduled run.backup site) in
          elim (Result-cases called.0) [
            | inl (copy, a) ↦ rw up (
                rw a (
                  subst
                    (λ i.
                      Settled c p.sites now i
                        (end_with_copy c run copy after (record p { sites = called.2 })).sites)
                    same
                    (end_with_copy-Settled c rt p.sites now e run copy after
                      (record p { sites = called.2 }) h k')))
            | inr (x, a) ↦ rw up (
                rw a (
                  subst
                    (λ i.
                      Settled c p.sites now i
                        (end_with c run.write (truncate_text (message_of x) 500) after
                          (record p { sites = called.2 })).sites)
                    same
                    (end_with-Settled c rt p.sites now e run.write
                      (truncate_text (message_of x) 500) after (record p { sites = called.2 }) h
                      k')))
          ]
    ]
