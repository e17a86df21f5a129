-- ===== src/Panel/Backups/Oldest.antt =====
-- cmd/panel/main.go: lemmas on oldestScheduledBackup and scheduledBackupCount.
use mathlib.Core.List.{append_assoc}
use mathlib.Core.Path.{subst}
use mathlib.Core.Option.{some-injective}
use panel4wp.Prelude.{
  ℕ, suc, ◌≤◌, ◌<◌, ltb→lt, ◌≡◌, inl, inr, refl, sym, ap, ◌∙◌, ap₂, true, false, Option, none, some,
  List, [], ◌∷◌, ◌++◌, arith, ltb, if◌then◌else◌, length, take, drop, All, All-mono, All-append,
  Bool-cases, Option-cases, length-append, text_eq, append-nil_right, &&_split,
}
use panel4wp.Core.Model.{Time, Backup}
use panel4wp.Panel.Backups.{
  is_scheduled, scheduled_backup_count, better, oldest_from, oldest_scheduled_backup, remove_at,
}

-- No scheduled copy was made before a time.
abbrev pub AllSince : Time → List Backup → Type 0
AllSince t = All (λ (b : Backup). is_scheduled b ≡ true → t ≤ b.created_at)

-- The scheduled copy at an index, with none older in the list.
pub record IsOldest (bs : List Backup) (i : ℕ) : Type 0 where
  pub before : List Backup
  pub backup : Backup
  pub after : List Backup
  pub parts : bs ≡ before ++ (backup ∷ after)
  pub index : length before ≡ i
  pub scheduled : is_scheduled backup ≡ true
  pub since : AllSince backup.created_at bs

-- What the loop has found in the copies that it has seen.
abbrev IsBest : List Backup → Option (ℕ × Time) → Type 0
IsBest seen none = All (λ (b : Backup). is_scheduled b ≡ false) seen
IsBest seen (some (i, t)) = (o : IsOldest seen i) × (o.backup.created_at ≡ t)

not_better :
    (b : Backup) (i : ℕ) (t : Time) {u : Time}
    → better (some (i, t)) b ≡ false
    → is_scheduled b ≡ true
    → u ≡ t
    → u ≤ b.created_at
not_better b i t h s e = let le : t ≤ b.created_at = ground (arith, s) in rw e le

earlier :
    (b : Backup) (i : ℕ) (t : Time) {u v : Time}
    → ltb b.created_at t ≡ true
    → u ≡ t
    → u ≤ v
    → b.created_at ≤ v
earlier b i t lt e h = let l : b.created_at < t = ltb→lt b.created_at t lt in omega arith

IsBest-skip :
    (seen : List Backup) (best : Option (ℕ × Time)) (b : Backup)
    → better best b ≡ false
    → IsBest seen best
    → IsBest (seen ++ b ∷ []) best
IsBest-skip seen none b h k = All-append _ seen (b ∷ []) k (h, tt)
IsBest-skip seen (some (i, t)) b h (o, same) = (
  record {
    before = o.before;
    backup = o.backup;
    after = o.after ++ b ∷ [];
    parts = ap (λ l. l ++ b ∷ []) o.parts ∙ append_assoc o.before (o.backup ∷ o.after) (b ∷ []);
    index = o.index;
    scheduled = o.scheduled;
    since = All-append _ seen (b ∷ []) o.since (λ s. not_better b i t h s same, tt);
  },
  same,
)

IsBest-take :
    (seen : List Backup) (best : Option (ℕ × Time)) (b : Backup)
    → better best b ≡ true
    → IsBest seen best
    → IsBest (seen ++ b ∷ []) (some (length seen, b.created_at))
IsBest-take seen none b h k = (
  record {
    before = seen;
    backup = b;
    after = [];
    parts = refl;
    index = refl;
    scheduled = h;
    since = All-append _ seen (b ∷ []) (All-mono _ _ (λ x n s. cc) seen k) (λ s. omega arith, tt);
  },
  refl,
)
IsBest-take seen (some (i, t)) b h (o, same) =
    let (s, lt) = &&_split (is_scheduled b) (ltb b.created_at t) h in
    (
      record {
        before = seen;
        backup = b;
        after = [];
        parts = refl;
        index = refl;
        scheduled = s;
        since =
            All-append _ seen (b ∷ [])
              (All-mono _ _ (λ x n q. earlier b i t lt same (n q)) seen o.since)
              (λ q. omega arith, tt);
      },
      refl,
    )

IsBest-next :
    (seen : List Backup) (best : Option (ℕ × Time)) (b : Backup)
    → IsBest seen best
    → IsBest (seen ++ b ∷ []) (if better best b then some (length seen, b.created_at) else best)
IsBest-next seen best b h = elim (Bool-cases (better best b)) [
  | inl yes_better ↦ rw yes_better (IsBest-take seen best b yes_better h)
  | inr worse ↦ rw worse (IsBest-skip seen best b worse h)
]

subst2 :
    {A B : Type 0} (P : A → B → Type 0) {a a' : A} {b b' : B} → a ≡ a' → b ≡ b' → P a b → P a' b'
subst2 P {a} {a'} {b} {b'} p q h = subst (P a') q (subst (λ x. P x b) p h)

oldest_from-IsBest :
    (seen : List Backup) (best : Option (ℕ × Time)) (bs : List Backup)
    → IsBest seen best
    → IsBest (seen ++ bs) (oldest_from (length seen) best bs)
unfolding oldest_from
oldest_from-IsBest seen best [] h = rw (append-nil_right seen) h
oldest_from-IsBest seen best (b ∷ bs) h =
    let found : Option (ℕ × Time) =
      if better best b then some (length seen, b.created_at) else best in
    let ih = oldest_from-IsBest (seen ++ b ∷ []) found bs (IsBest-next seen best b h) in
    subst2 (λ l n. IsBest l (oldest_from n found bs)) (append_assoc seen (b ∷ []) bs)
      (length-append seen (b ∷ []) ∙ omega arith) ih

-- The index that is answered is that of a scheduled copy with none older.
pub oldest_scheduled_backup-IsOldest :
    (bs : List Backup) {i : ℕ} → oldest_scheduled_backup bs ≡ some i → IsOldest bs i
unfolding oldest_scheduled_backup
oldest_scheduled_backup-IsOldest bs h = elim (Option-cases (oldest_from 0 none bs)) [
  | inl n ↦ cc (rw (n, oldest_scheduled_backup) at h)
  | inr ((j, t), n) ↦
      let same : j ≡ _ = some-injective _ _ (rw (n, oldest_scheduled_backup) at h) in
      let found : IsBest bs (some (j, t)) = rw n at (oldest_from-IsBest [] none bs tt) in
      subst (IsOldest bs) same found.0
]

count_zero :
    (bs : List Backup)
    → All (λ (b : Backup). is_scheduled b ≡ false) bs
    → scheduled_backup_count bs ≡ 0
unfolding scheduled_backup_count
count_zero [] h = refl
count_zero (b ∷ bs) h = rw h.0 (count_zero bs h.1)

-- No index is answered only if there is no scheduled copy.
pub oldest_scheduled_backup-none :
    (bs : List Backup) → oldest_scheduled_backup bs ≡ none → scheduled_backup_count bs ≡ 0
unfolding oldest_scheduled_backup
oldest_scheduled_backup-none bs h = elim (Option-cases (oldest_from 0 none bs)) [
  | inl n ↦ count_zero bs (rw n at (oldest_from-IsBest [] none bs tt))
  | inr ((j, t), n) ↦ cc (rw (n, oldest_scheduled_backup) at h)
]

take-before : (before rest : List Backup) → take (length before) (before ++ rest) ≡ before
take-before [] rest = refl
take-before (x ∷ before) rest = ap (◌∷◌ x) (take-before before rest)

drop-before :
    (before : List Backup) (b : Backup) (rest : List Backup)
    → drop (suc (length before)) (before ++ b ∷ rest) ≡ rest
drop-before [] b rest = refl
drop-before (x ∷ before) b rest = drop-before before b rest

-- Removing at the index takes that copy out and leaves the others in their order.
pub remove_at-IsOldest :
    (bs : List Backup) (i : ℕ) (o : IsOldest bs i) → remove_at i bs ≡ o.before ++ o.after
remove_at-IsOldest bs i o =
    ap (remove_at i) o.parts
    ∙ ap (λ k. remove_at k (o.before ++ o.backup ∷ o.after)) (sym o.index)
    ∙ ap₂ ◌++◌ (take-before o.before (o.backup ∷ o.after)) (drop-before o.before o.backup o.after)
