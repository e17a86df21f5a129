-- ===== src/Core/RelativePath.antt =====
-- internal/core/site.go: `ValidRelativePath`, with `filepath.Clean` of package path/filepath.
use mathlib.Core.Bool.{false≢true}
use mathlib.Core.Path.{subst}
use mathlib.Core.List.{append-nil, append_assoc, reverse-cons}
use panel4wp.Prelude.{
  ◌≤◌, ◌≡◌, ◌↔◌, sym, Bool, true, false, not, ◌||◌, List, [], ◌∷◌, ◌++◌, reverse, arith, ltb,
  if◌then◌else◌, ◌==◌, nat_eq, text_eq, Text, All, all, length, codes, split, join, join-split,
  contains_any, has_prefix, all_iff, Bool-cases, inl, inr, ◌⊎◌, ◌≢◌, text_beq_iff, text_beq,
  eq_of_==, ==_refl,
}

-- One element of the path against the elements kept so far, the last of them first. `rooted` says
-- that the path begins with a slash, whose parent is itself.
clean_part : Bool → List Text → Text → List Text
clean_part rooted kept part =
    if part == [] || part == codes "."
    then kept
    else if not (part == codes "..")
    then part ∷ kept
    else elim kept [
      | [] ↦ if rooted then [] else part ∷ []
      | last ∷ before ↦ if last == codes ".." then part ∷ last ∷ before else before
    ]

clean_parts : Bool → List Text → List Text → List Text
clean_parts rooted kept [] = reverse kept
clean_parts rooted kept (part ∷ parts) = clean_parts rooted (clean_part rooted kept part) parts

-- filepath.Clean
unfoldable pub clean : Text → Text
unfolding clean_parts clean_part has_prefix join split
clean path =
    let rooted = has_prefix path (codes "/") in
    let body = join b'/' (clean_parts rooted [] (split b'/' path)) in
    if rooted then b'/' ∷ body else if body == [] then codes "." else body

abbrev pub dotted : Text → Bool
dotted part = part == [] || part == codes "." || part == codes ".."

unfoldable pub valid_relative_path : Text → Bool → Bool
valid_relative_path path allow_empty =
    if path == []
    then allow_empty
    else if ltb 512 (length path)
        || has_prefix path (codes "/")
        || contains_any path (0 ∷ b'\n' ∷ b'\r' ∷ b'\\' ∷ [])
    then false
    else if clean path == codes "." || not (clean path == path)
    then false
    else all (λ part. not (dotted part)) (split b'/' path)

-- The elements are plain names.
abbrev pub IsPlain : List Text → Type 0
IsPlain = All (λ part. not (dotted part) ≡ true)

clean_part-plain :
    (kept : List Text) (part : Text)
    → not (dotted part) ≡ true
    → clean_part false kept part ≡ part ∷ kept
unfolding clean_part
clean_part-plain kept part h = ground arith

clean_parts-plain :
    (kept parts : List Text) → IsPlain parts → clean_parts false kept parts ≡ reverse kept ++ parts
unfolding clean_parts
clean_parts-plain kept [] h = sym (append-nil (reverse kept))
clean_parts-plain kept (p ∷ parts) h =
    rw (clean_part-plain kept p h.0, clean_parts-plain (p ∷ kept) parts h.1, reverse-cons p kept)
      (append_assoc (reverse kept) (p ∷ []) parts)

-- A path of plain names is what `Clean` makes of it.
pub clean-plain :
    (path : Text)
    → path ≢ []
    → has_prefix path (codes "/") ≡ false
    → IsPlain (split b'/' path)
    → clean path ≡ path
unfolding clean
clean-plain path n r h =
    rw (r, clean_parts-plain [] (split b'/' path) h, join-split b'/' path)
      (ground (arith, text_beq_iff path []))

plain-relative :
    (path : Text) → IsPlain (split b'/' path) → (path ≢ []) × (has_prefix path (codes "/") ≡ false)
unfolding split has_prefix text_beq
plain-relative [] h = absurd (false≢true h.0)
plain-relative (c ∷ s) h = elim (Bool-cases (c == b'/')) [
  | inl slash ↦ absurd (false≢true (rw slash at h).0)
  | inr other ↦ (λ e. cc, ground arith)
]

not_dot : (path : Text) → IsPlain (split b'/' path) → (path == codes ".") ≡ false
unfolding split text_beq
not_dot path h = elim (Bool-cases (path == codes ".")) [
  | inl dot ↦
      absurd (false≢true (subst (λ p. IsPlain (split b'/' p)) (eq_of_== path (codes ".") dot) h).0)
  | inr other ↦ other
]

-- A path is accepted exactly if it is empty and that is allowed, or if it is at most 512 bytes long,
-- has no NUL, line break or backslash, and no element of it is empty, `.` or `..`.
pub valid_relative_path_iff :
    (path : Text) (allow_empty : Bool)
    → (valid_relative_path path allow_empty ≡ true) ↔ (
        ((path ≡ []) × (allow_empty ≡ true))
        ⊎ ((length path ≤ 512)
            × (contains_any path (0 ∷ b'\n' ∷ b'\r' ∷ b'\\' ∷ []) ≡ false)
            × IsPlain (split b'/' path)))
unfolding valid_relative_path
valid_relative_path_iff path allow_empty =
    let plain_iff = all_iff (λ part. not (dotted part)) (split b'/' path) in
    (
      λ h. ground (arith, plain_iff, text_beq_iff path []),
      elim [
        | inl empty ↦ ground (arith, text_beq_iff path [])
        | inr (short, safe, plain) ↦
            let (n, r) = plain-relative path plain in
            let c = clean-plain path n r plain in
            rw (c, not_dot path plain, r, safe, ==_refl path, plain_iff.1 plain)
              (ground (arith, text_beq_iff path []))
      ],
    )
