-- ===== src/Float.antt =====
-- float64, for the CPU counts of the source. A finite value is an integer number of billionths, which
-- is exact for the values that the program writes (quarter steps, Docker's NanoCpus / 1e9, percentages
-- with two decimals); binary rounding of other values is not modelled.
use panel4wp.Prelude.{ℕ, ◌+◌, ◌*◌, ◌/◌, Bool, true, false, not, ◌&&◌, ◌||◌, if◌then◌else◌}
use panel4wp.Prelude.Int.{
  ℤ, pos, negsuc, pos_part, neg_part, ◌+ℤ◌, ◌-ℤ◌, ◌*ℤ◌, ltb_ℤ, leb_ℤ, int_beq,
}

-- `inf true` is minus infinity.
pub data Float : Type 0 where
  nan : Float
  inf : Bool → Float
  nano : ℤ → Float

-- An unsigned constant of the source, in billionths.
abbrev pub const : ℕ → Float
const n = nano (pos n)

abbrev pub one : ℕ
one = 1_000_000_000

-- a < b; any comparison with NaN is false
abbrev pub ltb_f : Float → Float → Bool
ltb_f (nano a) (nano b) = ltb_ℤ a b
ltb_f (nano a) (inf negative) = not negative
ltb_f (inf negative) (nano b) = negative
ltb_f (inf a) (inf b) = a && not b
ltb_f _ _ = false

-- a <= b
abbrev pub leb_f : Float → Float → Bool
leb_f (nano a) (nano b) = leb_ℤ a b
leb_f (nano a) (inf negative) = not negative
leb_f (inf negative) (nano b) = negative
leb_f (inf a) (inf b) = a || not b
leb_f _ _ = false

-- a == b
abbrev pub eq_f : Float → Float → Bool
eq_f (nano a) (nano b) = int_beq a b
eq_f (inf a) (inf b) = (a && b) || (not a && not b)
eq_f _ _ = false

abbrev pub is_nan : Float → Bool
is_nan nan = true
is_nan _ = false

-- math.IsInf(x, 0)
abbrev pub is_inf : Float → Bool
is_inf (inf _) = true
is_inf _ = false

unfoldable pub add_f : Float → Float → Float
add_f (nano a) (nano b) = nano (a +ℤ b)
add_f (nano a) (inf n) = inf n
add_f (inf n) (nano b) = inf n
add_f (inf true) (inf true) = inf true
add_f (inf false) (inf false) = inf false
add_f _ _ = nan

unfoldable pub sub_f : Float → Float → Float
sub_f (nano a) (nano b) = nano (a -ℤ b)
sub_f (nano a) (inf n) = inf (not n)
sub_f (inf n) (nano b) = inf n
sub_f (inf true) (inf false) = inf true
sub_f (inf false) (inf true) = inf false
sub_f _ _ = nan

-- k * a, for a positive whole constant k
unfoldable pub scale_f : ℕ → Float → Float
scale_f k (nano a) = nano (pos k *ℤ a)
scale_f k (inf n) = inf n
scale_f k nan = nan

-- math.Abs
unfoldable pub abs_f : Float → Float
abs_f (nano a) = nano (pos (pos_part a + neg_part a))
abs_f (inf n) = inf false
abs_f nan = nan

abbrev round_nano : ℕ → ℕ
round_nano n = (n + 500_000_000) / one * one

-- math.Round: to a whole number, halves away from zero
unfoldable pub round_f : Float → Float
round_f (nano (pos n)) = const (round_nano n)
round_f (nano (negsuc n)) = nano (pos 0 -ℤ pos (round_nano (n + 1)))
round_f x = x

-- The builtin `max` on floats: NaN if an operand is.
unfoldable pub max_f : Float → Float → Float
max_f nan b = nan
max_f (inf n) nan = nan
max_f (nano a) nan = nan
max_f (inf n) b = if ltb_f (inf n) b then b else inf n
max_f (nano a) b = if ltb_f (nano a) b then b else nano a
