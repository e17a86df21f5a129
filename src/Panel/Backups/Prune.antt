-- ===== src/Panel/Backups/Prune.antt =====
-- cmd/panel/main.go: theorems on pruneScheduledBackups.
use mathlib.Core.Path.{subst}
use mathlib.Core.List.{Perm, perm_middle}
use mathlib.Core.List.Perm
use panel4wp.Prelude.{
  ℕ, zero, suc, ◌≡◌, inl, inr, refl, sym, ap, ◌∙◌, true, not, List, [], ◌∷◌, ◌++◌, All, All-append,
  All-append_left, All-append_right, Bool-cases, Option-cases, Result-cases, select, text_eq, is_ok,
}
use panel4wp.Prelude.Int.{pos, ltb_ℤ}
use panel4wp.Core.Model.{Site, Backup}
use panel4wp.Store.{SitesCodec, put}
use panel4wp.Panel.{Panel}
use panel4wp.Panel.Backups.{
  is_scheduled, scheduled_backup_count, oldest_scheduled_backup, remove_at, with_backups, Round,
  Pruned, prune_round, prune_scheduled_backups,
}
use panel4wp.Panel.Backups.Oldest.{
  IsOldest, AllSince, oldest_scheduled_backup-IsOldest, remove_at-IsOldest,
}

abbrev pub manual : List Backup → List Backup
manual = select (λ b. not (is_scheduled b))

-- A scheduled copy that is no younger than any scheduled one of a list.
abbrev pub IsOlder : List Backup → Backup → Type 0
IsOlder kept b = (is_scheduled b ≡ true) × AllSince b.created_at kept

-- What pruning may make of a list: some scheduled copies are gone, none of them younger than a scheduled
-- one that is left; the copies that were made by hand and for safety are left in their order.
pub record IsPruned (before after : List Backup) : Type 0 where
  pub gone : List Backup
  pub whole : Perm (gone ++ after) before
  pub older : All (IsOlder after) gone
  pub rest : manual after ≡ manual before

manual-remove :
    (before after : List Backup) (b : Backup)
    → is_scheduled b ≡ true
    → manual (before ++ after) ≡ manual (before ++ b ∷ after)
manual-remove [] after b h = rw h refl
manual-remove (x ∷ before) after b h = elim (Bool-cases (is_scheduled x)) [
  | inl s ↦ rw s (manual-remove before after b h)
  | inr m ↦ rw m (ap (◌∷◌ x) (manual-remove before after b h))
]

pub count-remove :
    (before after : List Backup) (b : Backup)
    → is_scheduled b ≡ true
    → scheduled_backup_count (before ++ b ∷ after) ≡ suc (scheduled_backup_count (before ++ after))
unfolding scheduled_backup_count
count-remove [] after b h = rw h refl
count-remove (x ∷ before) after b h = elim (Bool-cases (is_scheduled x)) [
  | inl s ↦ rw s (ap suc (count-remove before after b h))
  | inr m ↦ rw m (count-remove before after b h)
]

-- What a list that is pruned further keeps: its copies are among the old ones.
abbrev Keeps : List Backup → List Backup → Type 0
Keeps before after = IsPruned before after × ((n : ℕ) → AllSince n before → AllSince n after)

Keeps-refl : (bs : List Backup) → Keeps bs bs
Keeps-refl bs = (record { gone = []; whole = Perm.refl bs; older = tt; rest = refl }, λ n h. h)

AllSince-remove :
    (n : ℕ) (before after : List Backup) (b : Backup)
    → AllSince n (before ++ b ∷ after)
    → AllSince n (before ++ after)
AllSince-remove n before after b h =
    All-append _ before after (All-append_left _ before (b ∷ after) h)
      (All-append_right _ before (b ∷ after) h).1

Keeps-remove :
    (bs final : List Backup) {i : ℕ} (o : IsOldest bs i)
    → Keeps (remove_at i bs) final
    → Keeps bs final
Keeps-remove bs final {i} o h =
    let (p, keep) = subst (λ l. Keeps l final) (remove_at-IsOldest bs i o) h in
    let since = subst (AllSince o.backup.created_at) o.parts o.since in
    let all : Keeps (o.before ++ o.backup ∷ o.after) final = (
      record {
        gone = o.backup ∷ p.gone;
        whole = Perm.trans (Perm.cons o.backup p.whole) (Perm.symm (perm_middle o.before o.after));
        older = (
          (
            o.scheduled,
            keep o.backup.created_at
                (AllSince-remove o.backup.created_at o.before o.after o.backup since),
          ),
          p.older,
        );
        rest = p.rest ∙ manual-remove o.before o.after o.backup o.scheduled;
      },
      λ n k. keep n (AllSince-remove n o.before o.after o.backup k),
    ) in
    subst (λ l. Keeps l final) (sym o.parts) all

-- Every round and every ending
round-Keeps :
    (c : SitesCodec) (r : Round) (i : ℕ) (site : Site) (p : Panel) (next : Site → Panel → Pruned)
    → IsOldest site.backups i
    → ((s : Site) (q : Panel) → Keeps s.backups (next s q).site.backups)
    → Keeps site.backups (prune_round c r i site p next).site.backups
unfolding prune_round
round-Keeps c r i site p next o keep = elim (Result-cases r.answer) [
  | inr (m, e) ↦ rw (e, prune_round) (Keeps-refl site.backups)
  | inl (tt, e) ↦
      elim (Bool-cases
        (is_ok (put c r.write (with_backups site (remove_at i site.backups)) p.sites).0)) [
          | inl good ↦ rw (e, prune_round) (rw good (Keeps-remove site.backups _ o (keep _ _)))
          | inr bad ↦
              rw (e, prune_round)
                (rw bad (Keeps-remove site.backups _ o (Keeps-refl (remove_at i site.backups))))
        ]
]

prune-Keeps :
    (c : SitesCodec) (rounds : ℕ → Round) (fuel : ℕ) (site : Site) (p : Panel)
    → Keeps site.backups (prune_scheduled_backups c rounds fuel site p).site.backups
unfolding prune_scheduled_backups
prune-Keeps c rounds zero site p = Keeps-refl site.backups
prune-Keeps c rounds (suc fuel) site p =
    elim (Bool-cases
      (ltb_ℤ site.backup_policy.retention (pos (scheduled_backup_count site.backups)))) [
        | inr enough ↦ rw (enough, prune_scheduled_backups) (Keeps-refl site.backups)
        | inl more ↦ elim (Option-cases (oldest_scheduled_backup site.backups)) [
          | inl n ↦ rw (more, prune_scheduled_backups) (rw n (Keeps-refl site.backups))
          | inr (i, n) ↦
              rw (more, prune_scheduled_backups)
                (rw n (
                  round-Keeps c (rounds fuel) i site p (prune_scheduled_backups c rounds fuel)
                    (oldest_scheduled_backup-IsOldest site.backups n)
                    (λ s q. prune-Keeps c rounds fuel s q)))
        ]
      ]

-- However the worker and the store answer, the retention of backups takes away only scheduled copies,
-- none of them younger than a scheduled copy that it leaves, and leaves all others in their order.
pub prune_scheduled_backups-IsPruned :
    (c : SitesCodec) (rounds : ℕ → Round) (fuel : ℕ) (site : Site) (p : Panel)
    → IsPruned site.backups (prune_scheduled_backups c rounds fuel site p).site.backups
prune_scheduled_backups-IsPruned c rounds fuel site p = (prune-Keeps c rounds fuel site p).0
