-- ===== src/Strings/Space.antt =====
-- strings.TrimSpace and strings.Fields: white space is Unicode's, in its UTF-8 form.
use mathlib.Core.List.{reverse-reverse, reverse-cons}
use panel4wp.Prelude.{
  ℕ, ◌-◌, ◌≡◌, refl, Bool, true, false, ◌&&◌, ◌||◌, List, [], ◌∷◌, ◌++◌, reverse, arith, leb, ltb,
  if◌then◌else◌, ◌==◌, nat_eq, Text, All, All-append, is_ascii,
}

abbrev pub ascii_space : ℕ → Bool
ascii_space c = (leb 9 c && leb c 13) || c == 32

-- U+0085, U+00A0
abbrev space2 : ℕ → ℕ → Bool
space2 a b = a == 0xc2 && (b == 0x85 || b == 0xa0)

-- U+1680, U+2000 to U+200A, U+2028, U+2029, U+202F, U+205F, U+3000
abbrev space3 : ℕ → ℕ → ℕ → Bool
space3 a b c =
    (a == 0xe1 && b == 0x9a && c == 0x80)
    || (a == 0xe2
        && b == 0x80
        && ((leb 0x80 c && leb c 0x8a) || c == 0xa8 || c == 0xa9 || c == 0xaf))
    || (a == 0xe2 && b == 0x81 && c == 0x9f)
    || (a == 0xe3 && b == 0x80 && c == 0x80)

-- The bytes of the white-space rune that the text begins with, or 0.
pub space_width : Text → ℕ
space_width [] = 0
space_width (a ∷ []) = if ascii_space a then 1 else 0
space_width (a ∷ b ∷ []) = if ascii_space a then 1 else if space2 a b then 2 else 0
space_width (a ∷ b ∷ c ∷ s) =
    if ascii_space a then 1 else if space2 a b then 2 else if space3 a b c then 3 else 0

-- The same for a text that is read from its end.
pub space_width_back : Text → ℕ
space_width_back [] = 0
space_width_back (a ∷ []) = if ascii_space a then 1 else 0
space_width_back (a ∷ b ∷ []) = if ascii_space a then 1 else if space2 b a then 2 else 0
space_width_back (a ∷ b ∷ c ∷ s) =
    if ascii_space a then 1 else if space2 b a then 2 else if space3 c b a then 3 else 0

-- Drops the runes that `width` counts; `skip` bytes of the one before are still to come.
trim_with : (Text → ℕ) → ℕ → Text → Text
trim_with width skip [] = []
trim_with width skip (c ∷ s) =
    let w = width (c ∷ s) in
    let rest = trim_with width (if ltb 0 skip then skip - 1 else w - 1) s in
    if skip == 0 && w == 0 then c ∷ s else rest

-- strings.TrimSpace
unfoldable pub trim_space : Text → Text
unfolding trim_with space_width space_width_back
trim_space s = reverse (trim_with space_width_back 0 (reverse (trim_with space_width 0 s)))

-- A field that is read whole, in front of the later ones.
flush : Text → List Text → List Text
flush [] rest = rest
flush (c ∷ word) rest = (c ∷ word) ∷ rest

-- strings.Fields; `word` is what was read of the current field
fields_from : ℕ → Text → Text → List Text
fields_from skip word [] = flush word []
fields_from skip word (c ∷ s) =
    let w = space_width (c ∷ s) in
    let inside = skip == 0 && w == 0 in
    let rest =
      fields_from (if ltb 0 skip then skip - 1 else w - 1) (if inside then word ++ c ∷ [] else [])
        s in
    if inside then rest else flush word rest

unfoldable pub fields : Text → List Text
unfolding fields_from space_width flush
fields s = fields_from 0 [] s

-- ASCII bytes that are no white space.
abbrev pub IsSolid : ℕ → Type 0
IsSolid c = (is_ascii c ≡ true) × (ascii_space c ≡ false)

space_width-solid : (c : ℕ) (s : Text) → IsSolid c → space_width (c ∷ s) ≡ 0
unfolding space_width
space_width-solid c [] h = ground arith
space_width-solid c (a ∷ []) h = ground arith
space_width-solid c (a ∷ b ∷ s) h = ground arith

space_width_back-solid :
    (c : ℕ) (s : Text) → IsSolid c → All IsSolid s → space_width_back (c ∷ s) ≡ 0
unfolding space_width_back
space_width_back-solid c [] h k = ground arith
space_width_back-solid c (a ∷ []) h k = ground arith
space_width_back-solid c (a ∷ b ∷ s) h k = ground arith

All-reverse : (s : Text) → All IsSolid s → All IsSolid (reverse s)
All-reverse [] h = tt
All-reverse (c ∷ s) h =
    rw (reverse-cons c s) (All-append IsSolid (reverse s) (c ∷ []) (All-reverse s h.1) (h.0, tt))

trim_front : (s : Text) → All IsSolid s → trim_with space_width 0 s ≡ s
unfolding trim_with
trim_front [] h = refl
trim_front (c ∷ s) h = ground (arith, space_width-solid c s h.0)

trim_back : (s : Text) → All IsSolid s → trim_with space_width_back 0 s ≡ s
unfolding trim_with
trim_back [] h = refl
trim_back (c ∷ s) h = ground (arith, space_width_back-solid c s h.0 h.1)

-- A text of ASCII bytes with no white space is trimmed to itself.
pub trim_space-solid : (s : Text) → All IsSolid s → trim_space s ≡ s
unfolding trim_space
trim_space-solid s h =
    rw (trim_front s h, trim_back (reverse s) (All-reverse s h)) (reverse-reverse s)

trim_space_runs : trim_space (32 ∷ 9 ∷ 97 ∷ 32 ∷ 98 ∷ 0xc2 ∷ 0xa0 ∷ 10 ∷ []) ≡ 97 ∷ 32 ∷ 98 ∷ []
unfolding trim_space
trim_space_runs = refl

fields_run : fields (32 ∷ 97 ∷ 98 ∷ 32 ∷ 32 ∷ 99 ∷ []) ≡ (97 ∷ 98 ∷ []) ∷ (99 ∷ []) ∷ []
unfolding fields
fields_run = refl
