-- ===== src/Strings/Hex.antt =====
-- encoding/hex: `EncodeToString`, two lower-case digits for each byte.
use panel4wp.Prelude.{
  ℕ, ◌+◌, ◌*◌, ◌/◌, ◌%◌, ◌<◌, ◌≡◌, refl, Bool, true, ◌&&◌, ◌||◌, List, [], ◌∷◌, arith, leb, ltb,
  if◌then◌else◌, Text, All, length,
}

abbrev pub hex_digit : ℕ → ℕ
hex_digit n = if ltb n 10 then b'0' + n else 87 + n

-- [0-9a-f]
abbrev pub is_hex : ℕ → Bool
is_hex c = (leb b'0' c && leb c b'9') || (leb b'a' c && leb c b'f')

unfoldable pub hex_encode : List ℕ → Text
hex_encode [] = []
hex_encode (b ∷ bs) = hex_digit (b / 16) ∷ hex_digit (b % 16) ∷ hex_encode bs

pub length-hex_encode : (bs : List ℕ) → length (hex_encode bs) ≡ 2 * length bs
unfolding hex_encode
length-hex_encode [] = refl
length-hex_encode (b ∷ bs) = omega (arith, length-hex_encode bs)

pub hex_digit_lem : (n : ℕ) → n < 16 → is_hex (hex_digit n) ≡ true
hex_digit_lem n h = ground arith

pub All-hex_encode :
    (bs : List ℕ) → All (λ b. b < 256) bs → All (λ c. is_hex c ≡ true) (hex_encode bs)
unfolding hex_encode
All-hex_encode [] h = tt
All-hex_encode (b ∷ bs) h = (
  hex_digit_lem (b / 16) (omega arith),
  (hex_digit_lem (b % 16) (omega arith), All-hex_encode bs h.1),
)
