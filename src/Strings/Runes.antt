-- ===== src/Strings/Runes.antt =====
-- `len([]rune(s))`: the number of runes that a decoding of the bytes as UTF-8 yields, where each byte
-- that begins no valid encoding counts as one.
use panel4wp.Prelude.{
  ℕ, ◌+◌, ◌-◌, ◌≤◌, Bool, ◌&&◌, [], ◌∷◌, arith, leb, if◌then◌else◌, ◌==◌, nat_eq, Text, length,
}

abbrev within : ℕ → ℕ → ℕ → Bool
within lo hi c = leb lo c && leb c hi

abbrev cont : ℕ → Bool
cont = within 0x80 0xbf

-- The second byte that may follow a three-byte or a four-byte lead.
abbrev second3 : ℕ → ℕ → Bool
second3 a b =
    if a == 0xe0 then within 0xa0 0xbf b else if a == 0xed then within 0x80 0x9f b else cont b

abbrev second4 : ℕ → ℕ → Bool
second4 a b =
    if a == 0xf0 then within 0x90 0xbf b else if a == 0xf4 then within 0x80 0x8f b else cont b

-- The bytes of the rune that the text begins with.
rune_width : Text → ℕ
rune_width (a ∷ b ∷ c ∷ d ∷ s) =
    if within 0xc2 0xdf a && cont b
    then 2
    else if within 0xe0 0xef a && second3 a b && cont c
    then 3
    else if within 0xf0 0xf4 a && second4 a b && cont c && cont d
    then 4
    else 1
rune_width (a ∷ b ∷ c ∷ []) =
    if within 0xc2 0xdf a && cont b
    then 2
    else if within 0xe0 0xef a && second3 a b && cont c
    then 3
    else 1
rune_width (a ∷ b ∷ []) = if within 0xc2 0xdf a && cont b then 2 else 1
rune_width _ = 1

runes_from : ℕ → Text → ℕ
runes_from skip [] = 0
runes_from skip (c ∷ s) =
    (if skip == 0 then 1 else 0)
    + runes_from (if skip == 0 then rune_width (c ∷ s) - 1 else skip - 1) s

unfoldable pub rune_count : Text → ℕ
unfolding runes_from rune_width
rune_count = runes_from 0

runes_from-le : (skip : ℕ) (s : Text) → runes_from skip s ≤ length s
unfolding runes_from
runes_from-le skip [] = omega arith
runes_from-le skip (c ∷ s) =
    ground (arith, runes_from-le (rune_width (c ∷ s) - 1) s, runes_from-le (skip - 1) s)

-- A text has at most as many runes as bytes.
pub rune_count-le : (s : Text) → rune_count s ≤ length s
unfolding rune_count
rune_count-le s = runes_from-le 0 s
