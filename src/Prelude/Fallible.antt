-- ===== src/Prelude/Fallible.antt =====
-- Go's `(T, error)`: a value or an error. `error` alone is `Result E (Unit {0})`.
use mathlib.Core.Path.{◌≡◌, refl}
use mathlib.Core.Logic.{◌⊎◌, inl, inr}
use mathlib.Core.Bool.{Bool, true, false}
use mathlib.Core.Option.{Option, none, some}
use panel4wp.Prelude.Tests.{if◌then◌else◌}

pub data Result (E : Type 0) (A : Type 0) : Type 0 where
  ok : A → Result E A
  err : E → Result E A

-- `if err != nil { return err }` after a call, with its value and without.
infixl 5 ◌>>=◌ ◌>>◌
abbrev pub ◌>>=◌ : {E T U : Type 0} → Result E T → (T → Result E U) → Result E U
err e >>= next = err e
ok value >>= next = next value

abbrev pub ◌>>◌ : {E U : Type 0} → Result E (Unit {0}) → Result E U → Result E U
call >> next = call >>= λ _. next

-- `if cond { return err }`
abbrev pub fail_if : {E : Type 0} → Bool → E → Result E (Unit {0})
fail_if true e = err e
fail_if false e = ok tt

-- The error of a call is dropped for one of the caller's own.
abbrev pub map_err : {E F A : Type 0} → (E → F) → Result E A → Result F A
map_err f (ok a) = ok a
map_err f (err e) = err (f e)

abbrev pub is_ok : {E A : Type 0} → Result E A → Bool
is_ok (ok a) = true
is_ok (err e) = false

abbrev pub ok_or : {E A : Type 0} → Option A → E → Result E A
ok_or none e = err e
ok_or (some a) e = ok a

pub Result-cases :
    {E A : Type 0} (r : Result E A) → ((a : A) × (r ≡ ok a)) ⊎ ((e : E) × (r ≡ err e))
Result-cases (ok a) = inl (a, refl)
Result-cases (err e) = inr (e, refl)

pub fail_if-eq-ok : {E : Type 0} (b : Bool) (e : E) → fail_if b e ≡ ok tt → b ≡ false
fail_if-eq-ok true e h = cc
fail_if-eq-ok false e h = refl

-- A guard that was passed.
pub guard_passed :
    {E A : Type 0} (b : Bool) (e : E) (k : Result E A) {a : A}
    → (fail_if b e >> k) ≡ ok a
    → (b ≡ false) × (k ≡ ok a)
guard_passed true e k h = cc
guard_passed false e k h = (refl, h)

pub ok-injective : {E A : Type 0} {a b : A} → ◌≡◌ {A = Result E A} (ok a) (ok b) → a ≡ b
ok-injective h = cc

-- A sequence that succeeded: so did its parts.
pub >>-eq-ok :
    {E A : Type 0} (m : Result E (Unit {0})) (k : Result E A) {a : A}
    → (m >> k) ≡ ok a
    → (m ≡ ok tt) × (k ≡ ok a)
>>-eq-ok (ok tt) k h = (refl, h)
>>-eq-ok (err e) k h = cc

-- A test that did not end in its error.
pub test_passed :
    {E A : Type 0} (b : Bool) (e : E) (k : Result E A) {a : A}
    → (if b then err e else k) ≡ ok a
    → (b ≡ false) × (k ≡ ok a)
test_passed true e k h = cc
test_passed false e k h = (refl, h)

pub >>=-eq-ok :
    {E A B : Type 0} (m : Result E A) (k : A → Result E B) {b : B}
    → (m >>= k) ≡ ok b
    → (a : A) × (m ≡ ok a) × (k a ≡ ok b)
>>=-eq-ok (ok a) k h = (a, refl, h)
>>=-eq-ok (err e) k h = cc
