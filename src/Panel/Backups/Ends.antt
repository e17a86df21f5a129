-- ===== src/Panel/Backups/Ends.antt =====
-- cmd/panel/main.go: theorems on how the loop of pruneScheduledBackups ends.
use panel4wp.Prelude.{
  ℕ, zero, suc, ◌≤◌, ◌<◌, ◌≡◌, ◌⊎◌, inl, inr, refl, sym, ap, ◌∙◌, true, false, List, arith,
  Bool-cases, Option-cases, Result-cases, is_ok,
}
use panel4wp.Prelude.Int.{pos, ltb_ℤ}
use panel4wp.Core.Model.{Site, Backup}
use panel4wp.Store.{SitesCodec, put}
use panel4wp.Panel.{Panel}
use panel4wp.Panel.Backups.{
  scheduled_backup_count, oldest_scheduled_backup, remove_at, with_backups, Round, in_bounds,
  not_deleted, not_stored, Pruned, prune_round, prune_scheduled_backups,
}
use panel4wp.Panel.Backups.Oldest.{
  IsOldest, oldest_scheduled_backup-IsOldest, oldest_scheduled_backup-none, remove_at-IsOldest,
}
use panel4wp.Panel.Backups.Prune.{count-remove}

-- How pruning ends, by a retention and the number of scheduled copies before and after.
pub record EndsWell (retention before : ℕ) (r : Pruned) : Type 0 where
  pub ends :
      ((r.ending ≡ in_bounds) × (scheduled_backup_count r.site.backups ≤ retention))
      ⊎ ((r.ending ≡ not_deleted) ⊎ (r.ending ≡ not_stored))
  pub enough :
      (before ≤ retention) × (scheduled_backup_count r.site.backups ≡ before)
      ⊎ (retention ≤ scheduled_backup_count r.site.backups)

count-remove_at :
    (bs : List Backup) {i : ℕ}
    → IsOldest bs i
    → scheduled_backup_count bs ≡ suc (scheduled_backup_count (remove_at i bs))
count-remove_at bs {i} o =
    ap scheduled_backup_count o.parts
    ∙ count-remove o.before o.after o.backup o.scheduled
    ∙ ap (λ l. suc (scheduled_backup_count l)) (sym (remove_at-IsOldest bs i o))

carry :
    (n before rest : ℕ) (r : Pruned)
    → n < before
    → before ≡ suc rest
    → EndsWell n rest r
    → EndsWell n before r
carry n before rest r more fewer w = record {
  ends = w.ends;
  enough = elim w.enough [ inl (few, same) ↦ inr (omega arith) | inr k ↦ inr k ];
}

-- A round from above the bound
round-EndsWell :
    (c : SitesCodec) (r : Round) (i : ℕ) (site : Site) (p : Panel) (next : Site → Panel → Pruned)
    (n : ℕ)
    → IsOldest site.backups i
    → n < scheduled_backup_count site.backups
    → ((q : Panel)
        → EndsWell n
            (scheduled_backup_count (remove_at i site.backups))
            (next (with_backups site (remove_at i site.backups)) q))
    → EndsWell n (scheduled_backup_count site.backups) (prune_round c r i site p next)
unfolding prune_round
round-EndsWell c r i site p next n o more rest =
    let fewer = count-remove_at site.backups o in
    elim (Result-cases r.answer) [
      | inr (m, e) ↦
          rw (e, prune_round) (record { ends = inr (inl refl); enough = inr (omega arith) })
      | inl (tt, e) ↦
          elim (Bool-cases
            (is_ok (put c r.write (with_backups site (remove_at i site.backups)) p.sites).0)) [
              | inr bad ↦
                  rw (e, prune_round)
                    (rw bad (record { ends = inr (inr refl); enough = inr (omega arith) }))
              | inl good ↦ rw (e, prune_round) (rw good (carry n _ _ _ more fewer (rest _)))
            ]
    ]

not_ltb : (n m : ℕ) → ltb_ℤ (pos n) (pos m) ≡ false → m ≤ n
not_ltb n m h = ground arith

is_ltb : (n m : ℕ) → ltb_ℤ (pos n) (pos m) ≡ true → n < m
is_ltb n m h = ground arith

-- With a retention that is not negative, pruning ends within as many rounds as there are scheduled
-- copies: at the bound, with no more of them left than the retention, or because the worker or the
-- store refused. It never leaves fewer than the retention unless there were fewer before, which stay.
pub prune_scheduled_backups-EndsWell :
    (c : SitesCodec) (rounds : ℕ → Round) (fuel n : ℕ) (site : Site) (p : Panel)
    → site.backup_policy.retention ≡ pos n
    → scheduled_backup_count site.backups < fuel
    → EndsWell n
        (scheduled_backup_count site.backups)
        (prune_scheduled_backups c rounds fuel site p)
unfolding prune_scheduled_backups
prune_scheduled_backups-EndsWell c rounds zero n site p k h = absurd (omega arith)
prune_scheduled_backups-EndsWell c rounds (suc fuel) n site p k h =
    elim (Bool-cases
      (ltb_ℤ site.backup_policy.retention (pos (scheduled_backup_count site.backups)))) [
        | inr enough ↦
            let le : scheduled_backup_count site.backups ≤ n = not_ltb n _ (rw k at enough) in
            rw (enough, prune_scheduled_backups)
              (record { ends = inl (refl, le); enough = inl (le, refl) })
        | inl more ↦
            let lt : n < scheduled_backup_count site.backups = is_ltb n _ (rw k at more) in
            elim (Option-cases (oldest_scheduled_backup site.backups)) [
              | inl none_there ↦
                  absurd (omega (arith, oldest_scheduled_backup-none site.backups none_there))
              | inr (i, found) ↦
                  let o = oldest_scheduled_backup-IsOldest site.backups found in
                  rw (more, prune_scheduled_backups)
                    (rw found (
                      round-EndsWell c (rounds fuel) i site p
                        (prune_scheduled_backups c rounds fuel) n o lt
                        (λ q.
                          prune_scheduled_backups-EndsWell c rounds fuel n
                            (with_backups site (remove_at i site.backups)) q k
                            (omega (arith, count-remove_at site.backups o)))))
            ]
      ]
