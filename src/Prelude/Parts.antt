-- ===== src/Prelude/Parts.antt =====
-- Lemmas on texts that are split at a byte and joined by it.
use panel4wp.Prelude.Tests.{Bool-cases, ==_refl, ◌==◌, nat_eq}
use panel4wp.Prelude.Lists.{All}
use panel4wp.Prelude.Bytes.{Text, split, join, push_head, split-cons}
use Prim.Native.Nat.{ℕ}
use mathlib.Core.Path.{◌≡◌, refl, ap, ◌∙◌}
use mathlib.Core.Logic.{inl, inr}
use mathlib.Core.Bool.{false}
use mathlib.Core.List.{List, [], ◌∷◌, ◌++◌}

-- A part that does not hold the byte.
abbrev pub IsPart : ℕ → Text → Type 0
IsPart sep = All (λ c. (c == sep) ≡ false)

pub split-IsPart : (sep : ℕ) (s : Text) → All (IsPart sep) (split sep s)
unfolding split push_head
split-IsPart sep [] = (tt, tt)
split-IsPart sep (c ∷ s) =
    let (p, ps, e) = split-cons sep s in
    let ih : All (IsPart sep) (p ∷ ps) = rw e at (split-IsPart sep s) in
    elim (Bool-cases (c == sep)) [
      | inl hit ↦ rw hit (tt, split-IsPart sep s)
      | inr miss ↦ rw miss (rw e ((miss, ih.0), ih.1))
    ]

split-part : (sep : ℕ) (p : Text) → IsPart sep p → split sep p ≡ p ∷ []
unfolding split push_head
split-part sep [] h = refl
split-part sep (c ∷ p) h = rw (h.0, split-part sep p h.1) refl

split-append :
    (sep : ℕ) (p rest : Text) → IsPart sep p → split sep (p ++ sep ∷ rest) ≡ p ∷ split sep rest
unfolding split push_head
split-append sep [] rest h = rw (==_refl sep) refl
split-append sep (c ∷ p) rest h = rw (h.0, split-append sep p rest h.1) refl

-- Parts that are joined are split again.
pub split-join :
    (sep : ℕ) (p : Text) (ps : List Text)
    → All (IsPart sep) (p ∷ ps)
    → split sep (join sep (p ∷ ps)) ≡ p ∷ ps
unfolding join
split-join sep p [] h = split-part sep p h.0
split-join sep p (q ∷ ps) h =
    split-append sep p (join sep (q ∷ ps)) h.0 ∙ ap (◌∷◌ p) (split-join sep q ps h.1)
