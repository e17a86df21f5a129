-- ===== src/Strings/Case.antt =====
-- strings.ToLower and strings.EqualFold. A text of ASCII bytes is mapped byte by byte; for any other
-- text Go walks the Unicode case tables, which are the parameters `lower_unicode` and `fold_unicode`.
use panel4wp.Prelude.{
  ℕ, ◌+◌, ◌≡◌, refl, Bool, true, false, ◌&&◌, [], ◌∷◌, arith, leb, if◌then◌else◌, ◌==◌, text_eq,
  Text, All, all, map, is_ascii, all_iff,
}

abbrev pub lower_byte : ℕ → ℕ
lower_byte c = if leb b'A' c && leb c b'Z' then c + 32 else c

unfoldable pub to_lower : (Text → Text) → Text → Text
to_lower lower_unicode s = if all is_ascii s then map lower_byte s else lower_unicode s

unfoldable pub equal_fold : (Text → Text → Bool) → Text → Text → Bool
equal_fold fold_unicode s t =
    if all is_ascii s && all is_ascii t
    then map lower_byte s == map lower_byte t
    else fold_unicode s t

abbrev pub is_upper : ℕ → Bool
is_upper c = leb b'A' c && leb c b'Z'

map-lower_byte : (s : Text) → All (λ c. is_upper c ≡ false) s → map lower_byte s ≡ s
map-lower_byte [] h = refl
map-lower_byte (c ∷ s) h = ground (arith, map-lower_byte s h.1)

-- A text of ASCII bytes, none of them upper case, is its own lower case.
pub to_lower-fixed :
    (lower_unicode : Text → Text) (s : Text)
    → All (λ c. is_ascii c ≡ true) s
    → All (λ c. is_upper c ≡ false) s
    → to_lower lower_unicode s ≡ s
unfolding to_lower
to_lower-fixed u s a l = rw ((all_iff is_ascii s).1 a) (map-lower_byte s l)
