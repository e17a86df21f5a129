-- ===== src/Prelude/Bytes.antt =====
-- Go strings as lists of bytes, with what the source uses of package `strings`.
use Prim.Native.Nat.{ℕ, ◌-◌}
use Prim.Native.Char.{code}
use Prim.Native.String.{String}
use mathlib.Core.Path.{◌≡◌, refl, ap, ◌∙◌}
use mathlib.Core.Logic.{◌↔◌, inl, inr}
use mathlib.Core.Bool.{Bool, true, false, ◌&&◌}
use mathlib.Core.List.{List, [], ◌∷◌, ◌++◌, reverse}
use native.Mathlib.Omega.{arith}
use panel4wp.Prelude.Tests.{ltb, if◌then◌else◌, Equality, ◌==◌, nat_eq, eq_of_==, Bool-cases}
use panel4wp.Prelude.Lists.{length, any, drop, take, All, All-append}

-- The bytes of a string.
abbrev pub Text : Type 0
Text = List ℕ

-- A literal of the source, which is ASCII.
abbrev pub codes : String → Text
codes String.[] = []
codes (String.◌∷◌ c s) = code c ∷ codes s

unfoldable pub text_beq : Text → Text → Bool
text_beq [] [] = true
text_beq [] (y ∷ ys) = false
text_beq (x ∷ xs) [] = false
text_beq (x ∷ xs) (y ∷ ys) = x == y && text_beq xs ys

pub text_beq_iff : (a b : Text) → (text_beq a b ≡ true) ↔ (a ≡ b)
unfolding text_beq
text_beq_iff [] [] = (λ _. refl, λ _. refl)
text_beq_iff [] (y ∷ b) = ground arith
text_beq_iff (x ∷ a) [] = ground arith
text_beq_iff (x ∷ a) (y ∷ b) = ground (arith, text_beq_iff a b)

instance abbrev pub text_eq : Equality Text
text_eq = record { same = text_beq; decides = text_beq_iff }

-- strings.HasPrefix
unfoldable pub has_prefix : Text → Text → Bool
has_prefix s [] = true
has_prefix [] (p ∷ ps) = false
has_prefix (c ∷ s) (p ∷ ps) = c == p && has_prefix s ps

-- strings.HasSuffix
unfoldable pub has_suffix : Text → Text → Bool
unfolding has_prefix
has_suffix s p = has_prefix (reverse s) (reverse p)

-- strings.TrimPrefix
unfoldable pub trim_prefix : Text → Text → Text
unfolding has_prefix
trim_prefix s p = if has_prefix s p then drop (length p) s else s

-- strings.TrimSuffix
unfoldable pub trim_suffix : Text → Text → Text
unfolding has_suffix
trim_suffix s p = if has_suffix s p then take (length s - length p) s else s

-- strings.ContainsAny, for a set of ASCII bytes
abbrev pub contains_any : Text → Text → Bool
contains_any s set = any (λ c. any (λ d. d == c) set) s

-- A byte in front of the first part.
unfoldable pub push_head : ℕ → List Text → List Text
push_head c [] = (c ∷ []) ∷ []
push_head c (p ∷ ps) = (c ∷ p) ∷ ps

-- strings.Split by one byte; the result has at least one part
unfoldable pub split : ℕ → Text → List Text
unfolding push_head
split sep [] = [] ∷ []
split sep (c ∷ s) = let parts = split sep s in if c == sep then [] ∷ parts else push_head c parts

-- strings.Join by one byte
unfoldable pub join : ℕ → List Text → Text
join sep [] = []
join sep (p ∷ []) = p
join sep (p ∷ q ∷ ps) = p ++ (sep ∷ join sep (q ∷ ps))

pub split-cons : (sep : ℕ) (s : Text) → (p : Text) × (ps : List Text) × (split sep s ≡ p ∷ ps)
unfolding split
split-cons sep [] = ([], [], refl)
split-cons sep (c ∷ s) =
    let (p, ps, e) = split-cons sep s in
    elim (Bool-cases (c == sep)) [
      | inl hit ↦ ([], p ∷ ps, rw hit (rw e))
      | inr miss ↦ (c ∷ p, ps, rw miss (rw (e, push_head)))
    ]

join-push_head :
    (sep c : ℕ) (p : Text) (ps : List Text)
    → join sep (push_head c (p ∷ ps)) ≡ c ∷ join sep (p ∷ ps)
unfolding push_head join
join-push_head sep c p [] = refl
join-push_head sep c p (q ∷ ps) = refl

pub join-one : (sep : ℕ) (p : Text) → join sep (p ∷ []) ≡ p
unfolding join
join-one sep p = refl

join-nil_cons :
    (sep : ℕ) (p : Text) (ps : List Text) → join sep ([] ∷ p ∷ ps) ≡ sep ∷ join sep (p ∷ ps)
unfolding join
join-nil_cons sep p ps = refl

-- What is split joins to itself.
pub join-split : (sep : ℕ) (s : Text) → join sep (split sep s) ≡ s
unfolding split
join-split sep [] = join-one sep []
join-split sep (c ∷ s) =
    let (p, ps, e) = split-cons sep s in
    let ih : join sep (p ∷ ps) ≡ s = rw e at (join-split sep s) in
    elim (Bool-cases (c == sep)) [
      | inl hit ↦ rw hit (rw e (join-nil_cons sep p ps ∙ cc (ih, eq_of_== c sep hit)))
      | inr miss ↦ rw miss (rw e (join-push_head sep c p ps ∙ ap (◌∷◌ c) ih))
    ]

abbrev pub is_ascii : ℕ → Bool
is_ascii c = ltb c 128

pub All-join :
    (P : ℕ → Type 0) (sep : ℕ) (ps : List Text) → P sep → All (All P) ps → All P (join sep ps)
unfolding join
All-join P sep [] h k = tt
All-join P sep (p ∷ []) h k = k.0
All-join P sep (p ∷ q ∷ ps) h k = All-append P p _ k.0 (h, All-join P sep (q ∷ ps) h k.1)
