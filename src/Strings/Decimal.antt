-- ===== src/Strings/Decimal.antt =====
-- strconv.Atoi, strconv.ParseInt(_, 10, 64) and the verb %d.
use mathlib.Core.Option.{some-injective}
use panel4wp.Prelude.{
  ℕ, zero, suc, ◌+◌, ◌-◌, ◌*◌, ◌/◌, ◌%◌, ◌^◌, ◌<◌, ◌≡◌, sym, ap, ◌∙◌, Bool, true, false, ◌&&◌,
  Option, none, some, [], ◌∷◌, ◌++◌, arith, leb, ltb, if◌then◌else◌, ◌==◌, nat_eq, Text, All,
  All-append, Bool-cases, inl, inr,
}
use panel4wp.Prelude.Int.{ℤ, pos, negsuc}

abbrev pub is_digit : ℕ → Bool
is_digit c = leb b'0' c && leb c b'9'

-- The number that the digits stand for, after `n`.
digits_from : ℕ → Text → Option ℕ
digits_from n [] = some n
digits_from n (c ∷ s) = if is_digit c then digits_from (n * 10 + (c - b'0')) s else none

pub digits : Text → Option ℕ
unfolding digits_from
digits [] = none
digits (c ∷ s) = digits_from 0 (c ∷ s)

abbrev signed : Bool → Option ℕ → Option ℤ
signed true none = none
signed true (some n) =
    if ltb (2 ^ 63) n then none else if n == 0 then some (pos 0) else some (negsuc (n - 1))
signed false none = none
signed false (some n) = if ltb n (2 ^ 63) then some (pos n) else none

-- strconv.Atoi and strconv.ParseInt(s, 10, 64): `none` is their error, a value out of range too
unfoldable pub atoi : Text → Option ℤ
unfolding digits
atoi [] = none
atoi (c ∷ s) =
    if c == b'-'
    then signed true (digits s)
    else if c == b'+'
    then signed false (digits s)
    else signed false (digits (c ∷ s))

-- The decimal digits of a number; `fuel` is above the number.
decimal_fuel : ℕ → ℕ → Text
decimal_fuel zero n = []
decimal_fuel (suc fuel) n =
    let rest = decimal_fuel fuel (n / 10) in
    if ltb n 10 then (b'0' + n) ∷ [] else rest ++ (b'0' + n % 10) ∷ []

unfoldable pub decimal : ℕ → Text
unfolding decimal_fuel
decimal n = decimal_fuel (n + 1) n

-- %d
unfoldable pub format_int : ℤ → Text
unfolding decimal
format_int (pos n) = decimal n
format_int (negsuc n) = b'-' ∷ decimal (n + 1)

digits_from-append :
    (n m c : ℕ) (s : Text)
    → digits_from n s ≡ some m
    → is_digit c ≡ true
    → digits_from n (s ++ c ∷ []) ≡ some (m * 10 + (c - b'0'))
unfolding digits_from
digits_from-append n m c [] h k = ground arith
digits_from-append n m c (d ∷ s) h k =
    ground (arith, digits_from-append (n * 10 + (d - b'0')) m c s)

digit_lem : (n : ℕ) → n < 10 → is_digit (b'0' + n) ≡ true
digit_lem n h = ground arith

digits_from-decimal_fuel : (fuel n : ℕ) → n < fuel → digits_from 0 (decimal_fuel fuel n) ≡ some n
unfolding decimal_fuel
digits_from-decimal_fuel zero n h = elim h [ ]
digits_from-decimal_fuel (suc fuel) n h = elim (Bool-cases (ltb n 10)) [
  | inl small ↦ rw small (unfold digits_from in ground arith)
  | inr large ↦ rw large (
      digits_from-append 0 (n / 10) (b'0' + n % 10) _
        (digits_from-decimal_fuel fuel (n / 10) (ground arith)) (digit_lem (n % 10) (omega arith))
      ∙ ap some (omega arith))
]

-- Some digit stands in front.
decimal_fuel-cons :
    (fuel n : ℕ)
    → n < fuel
    → (c : ℕ) × (s : Text) × (decimal_fuel fuel n ≡ c ∷ s) × (is_digit c ≡ true)
unfolding decimal_fuel
decimal_fuel-cons zero n h = elim h [ ]
decimal_fuel-cons (suc fuel) n h = elim (Bool-cases (ltb n 10)) [
  | inl small ↦ (b'0' + n, [], rw small, ground arith)
  | inr large ↦
      (let (c, s, e, k) = decimal_fuel-cons fuel (n / 10) (ground arith) in
        (c, s ++ (b'0' + n % 10) ∷ [], rw large (rw e), k))
]

atoi-digit :
    (c : ℕ) (s : Text) → is_digit c ≡ true → atoi (c ∷ s) ≡ signed false (digits_from 0 (c ∷ s))
unfolding atoi digits
atoi-digit c s h = ground arith

-- What %d prints, Atoi reads.
pub atoi-decimal : (n : ℕ) → n < 2 ^ 63 → atoi (decimal n) ≡ some (pos n)
unfolding decimal
atoi-decimal n h =
    let (c, s, e, k) = decimal_fuel-cons (n + 1) n (omega arith) in
    let r : digits_from 0 (c ∷ s) ≡ some n =
      rw e at (digits_from-decimal_fuel (n + 1) n (omega arith)) in
    rw e (atoi-digit c s k ∙ rw r (ground arith))

-- The digits of a number are digits.
pub All-decimal : (n : ℕ) → All (λ c. is_digit c ≡ true) (decimal n)
unfolding decimal
All-decimal n = go (n + 1) n
  where
    go : (fuel k : ℕ) → All (λ c. is_digit c ≡ true) (decimal_fuel fuel k)
    go zero k = tt
    go (suc fuel) k = elim (Bool-cases (ltb k 10)) [
      | inl small ↦ rw (small, decimal_fuel) (ground arith)
      | inr large ↦
          rw (large, decimal_fuel)
            (All-append (λ c. is_digit c ≡ true) _ _ (go fuel (k / 10))
              (digit_lem (k % 10) (omega arith), tt))
    ]

-- Two numbers with the same digits are equal.
pub decimal-injective : (n m : ℕ) → decimal n ≡ decimal m → n ≡ m
unfolding decimal
decimal-injective n m e = some-injective _ _ (
    sym (digits_from-decimal_fuel (n + 1) n (omega arith))
    ∙ ap (digits_from 0) e
    ∙ digits_from-decimal_fuel (m + 1) m (omega arith))
