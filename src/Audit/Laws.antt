-- ===== src/Audit/Laws.antt =====
-- internal/audit/log.go: theorems on Log.List.
use mathlib.Core.List.{reverse-cons, reverse-append}
use panel4wp.Prelude.{
  ℕ, zero, suc, ◌≤◌, ◌≡◌, refl, sym, ap, ◌∙◌, inl, inr, false, List, [], ◌∷◌, ◌++◌, reverse, ◌==◌,
  nat_eq, arith, length, take, drop, Result, ok, Text, Bool-cases, Result-cases, eq_of_==, ne_of_==,
  length-append, append-nil_right, ok-injective, ◌>>=◌, ◌||◌,
}
use panel4wp.Prelude.Int.{pos, ltb_ℤ}
use panel4wp.Files.{content}
use panel4wp.Audit.{Entry, EntryCodec, AuditError, keep, read_line, scan, scan_lines, list}

take_all : {A : Type 0} (n : ℕ) (xs : List A) → length xs ≤ n → take n xs ≡ xs
take_all zero [] h = refl
take_all (suc n) [] h = refl
take_all zero (x ∷ xs) h = absurd (omega arith)
take_all (suc n) (x ∷ xs) h = ap (◌∷◌ x) (take_all n xs (omega arith))

take_exact : {A : Type 0} (xs ys : List A) → take (length xs) (xs ++ ys) ≡ xs
take_exact [] ys = refl
take_exact (x ∷ xs) ys = ap (◌∷◌ x) (take_exact xs ys)

take-take : {A : Type 0} (n m : ℕ) (ys : List A) → n ≤ m → take n (take m ys) ≡ take n ys
take-take zero m ys h = refl
take-take (suc n) zero ys h = absurd (omega arith)
take-take (suc n) (suc m) [] h = refl
take-take (suc n) (suc m) (y ∷ ys) h = ap (◌∷◌ y) (take-take n m ys (omega arith))

take_append_take :
    {A : Type 0} (n m : ℕ) (xs ys : List A) → n ≤ m → take n (xs ++ take m ys) ≡ take n (xs ++ ys)
take_append_take n m [] ys h = take-take n m ys h
take_append_take zero m (x ∷ xs) ys h = refl
take_append_take (suc n) m (x ∷ xs) ys h = ap (◌∷◌ x) (take_append_take n m xs ys (omega arith))

length-reverse : {A : Type 0} (xs : List A) → length (reverse xs) ≡ length xs
length-reverse [] = refl
length-reverse (x ∷ xs) =
    ap length (reverse-cons x xs)
    ∙ length-append (reverse xs) (x ∷ [])
    ∙ omega (arith, length-reverse xs)

++_assoc : {A : Type 0} (xs ys zs : List A) → (xs ++ ys) ++ zs ≡ xs ++ (ys ++ zs)
++_assoc [] ys zs = refl
++_assoc (x ∷ xs) ys zs = ap (◌∷◌ x) (++_assoc xs ys zs)

full_reverse :
    (n : ℕ) (acc : List Entry) (e : Entry)
    → 1 ≤ n
    → length acc ≡ n
    → reverse (drop 1 acc ++ e ∷ []) ≡ take n (e ∷ reverse acc)
full_reverse zero acc e one h = absurd (omega arith)
full_reverse (suc n) [] e one h = absurd (omega arith)
full_reverse (suc n) (a ∷ bs) e one h =
    let same : length (reverse bs) ≡ n = omega (arith, length-reverse bs) in
    reverse-append bs (e ∷ [])
    ∙ ap (◌∷◌ e) (
        sym (take_exact (reverse bs) (a ∷ []))
        ∙ ap (λ k. take k (reverse bs ++ a ∷ [])) same
        ∙ ap (take n) (sym (reverse-cons a bs)))

-- The entries that are kept, the newest first, are the first ones of all that were seen.
reverse-keep :
    (n : ℕ) (acc : List Entry) (e : Entry)
    → 1 ≤ n
    → length acc ≤ n
    → reverse (keep n acc e) ≡ take n (e ∷ reverse acc)
unfolding keep
reverse-keep n acc e one h = elim (Bool-cases (length acc == n)) [
  | inl full ↦ rw full (full_reverse n acc e one (eq_of_== (length acc) n full))
  | inr room ↦ rw room (
      reverse-append acc (e ∷ [])
      ∙ sym (
          take_all n (e ∷ reverse acc)
            (omega (arith, length-reverse acc, ne_of_== (length acc) n room))))
]

shift_short :
    (n : ℕ) (acc : List Entry) (e : Entry)
    → 1 ≤ n
    → length acc ≤ n
    → length (drop 1 acc ++ e ∷ []) ≤ n
shift_short n [] e one h = one
shift_short n (a ∷ bs) e one h = omega (arith, length-append bs (e ∷ []))

keep_short :
    (n : ℕ) (acc : List Entry) (e : Entry) → 1 ≤ n → length acc ≤ n → length (keep n acc e) ≤ n
unfolding keep
keep_short n acc e one h = elim (Bool-cases (length acc == n)) [
  | inl full ↦ rw full (shift_short n acc e one h)
  | inr room ↦ rw room (omega (arith, length-append acc (e ∷ []), ne_of_== (length acc) n room))
]

-- The entries of the lines, all of them.
abbrev pub all_entries : EntryCodec → List Text → Result AuditError (List Entry)
all_entries c [] = ok []
all_entries c (line ∷ lines) = read_line c line >>= λ e. all_entries c lines >>= λ es. ok (e ∷ es)

scan-reverse :
    (c : EntryCodec) (n : ℕ) (acc : List Entry) (lines : List Text) {es : List Entry}
    → 1 ≤ n
    → length acc ≤ n
    → all_entries c lines ≡ ok es
    → (kept : List Entry) × (scan c n acc lines ≡ ok kept)
      × (reverse kept ≡ take n (reverse es ++ reverse acc))
unfolding scan
scan-reverse c n acc [] one h k = (
  acc,
  refl,
  sym (take_all n (reverse acc) (omega (arith, length-reverse acc)))
      ∙ ap (λ es. take n (reverse es ++ reverse acc)) (ok-injective k),
)
scan-reverse c n acc (line ∷ lines) one h k = elim (Result-cases (read_line c line)) [
  | inr (x, q) ↦ cc (rw q at k)
  | inl (e, q) ↦ elim (Result-cases (all_entries c lines)) [
    | inr (x, r) ↦ cc (rw (q, r) at k)
    | inl (rest, r) ↦
        let (kept, s, t) = scan-reverse c n (keep n acc e) lines one (keep_short n acc e one h) r in
        (
          kept,
          rw q s,
          t
              ∙ ap (λ x. take n (reverse rest ++ x)) (reverse-keep n acc e one h)
              ∙ take_append_take n n (reverse rest) (e ∷ reverse acc) (omega arith)
              ∙ ap (take n) (sym (++_assoc (reverse rest) (e ∷ []) (reverse acc)))
              ∙ ap (λ x. take n (x ++ reverse acc)) (sym (reverse-cons e rest))
              ∙ ap (λ x. take n (reverse x ++ reverse acc)) (ok-injective (rw (q, r) at k)),
        )
  ]
]

-- List answers with the last `limit` entries of the log, the newest first, whenever every line of the
-- log can be read.
pub list-newest :
    (c : EntryCodec) (n : ℕ) (text : Text) {es : List Entry}
    → 1 ≤ n
    → n ≤ 500
    → all_entries c (scan_lines text) ≡ ok es
    → list c (pos n) (content text) ≡ ok (take n (reverse es))
unfolding list
list-newest c n text {es} one most k =
    let (kept, s, t) = scan-reverse c n [] (scan_lines text) one (omega arith) k in
    let bounds : (ltb_ℤ (pos n) (pos 1) || ltb_ℤ (pos 500) (pos n)) ≡ false = ground arith in
    rw bounds (rw (s, list) (ap ok (t ∙ ap (take n) (append-nil_right (reverse es)))))
