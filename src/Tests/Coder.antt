-- ===== src/Tests/Coder.antt =====
-- Concrete encodings that are read back, for the witnesses: values as lists of numbers.
use panel4wp.Prelude.{
  ℕ, zero, suc, ◌≡◌, refl, ap, List, [], ◌∷◌, Text, some, none, Option, length, Bool, true, false,
}
use panel4wp.Prelude.Int.{ℤ, pos, negsuc}
use panel4wp.Float.{Float, nan, inf, nano}

pub record Coder (A : Type 0) : Type 0 where
  pub put : A → Text → Text
  pub get : Text → A × Text
  pub law : (a : A) (rest : Text) → get (put a rest) ≡ (a, rest)

get_number : Text → ℕ × Text
get_number [] = (0, [])
get_number (n ∷ s) = (n, s)

pub number : Coder ℕ
unfolding get_number
number = record { put = λ n s. n ∷ s; get = get_number; law = λ n s. refl }

-- One value after another.
pub both : {A B : Type 0} → Coder A → Coder B → Coder (A × B)
both a b = record {
  put = λ p s. a.put p.0 (b.put p.1 s);
  get = λ s. let (x, t) = a.get s in let (y, u) = b.get t in ((x, y), u);
  law = λ p s. rw (a.law p.0 (b.put p.1 s)) (rw (b.law p.1 s) refl);
}

-- A type whose values are those of an encoded one.
pub via : {A B : Type 0} (c : Coder A) (f : B → A) (g : A → B) → ((b : B) → g (f b) ≡ b) → Coder B
via c f g r = record {
  put = λ b s. c.put (f b) s;
  get = λ s. let (x, t) = c.get s in (g x, t);
  law = λ b s. rw (c.law (f b) s) (ap (λ x. (x, s)) (r b));
}

get_many : {A : Type 0} → Coder A → ℕ → Text → List A × Text
get_many c zero s = ([], s)
get_many c (suc n) s = let (x, t) = c.get s in let (xs, u) = get_many c n t in (x ∷ xs, u)

put_many : {A : Type 0} → Coder A → List A → Text → Text
put_many c [] s = s
put_many c (x ∷ xs) s = c.put x (put_many c xs s)

get_many-put_many :
    {A : Type 0} (c : Coder A) (xs : List A) (s : Text)
    → get_many c (length xs) (put_many c xs s) ≡ (xs, s)
unfolding get_many put_many
get_many-put_many c [] s = refl
get_many-put_many c (x ∷ xs) s = rw (c.law x (put_many c xs s)) (rw (get_many-put_many c xs s) refl)

get_counted : {A : Type 0} → Coder A → Text → List A × Text
get_counted c [] = ([], [])
get_counted c (n ∷ s) = get_many c n s

pub many : {A : Type 0} → Coder A → Coder (List A)
unfolding get_counted
many c = record {
  put = λ xs s. length xs ∷ put_many c xs s;
  get = get_counted c;
  law = λ xs s. get_many-put_many c xs s;
}

sign_of : ℤ → ℕ × ℕ
sign_of (pos n) = (0, n)
sign_of (negsuc n) = (1, n)

of_sign : ℕ × ℕ → ℤ
of_sign (zero, n) = pos n
of_sign (suc k, n) = negsuc n

of_sign-sign_of : (z : ℤ) → of_sign (sign_of z) ≡ z
unfolding of_sign sign_of
of_sign-sign_of (pos n) = refl
of_sign-sign_of (negsuc n) = refl

pub integer : Coder ℤ
integer = via (both number number) sign_of of_sign of_sign-sign_of

float_parts : Float → ℕ × ℤ
float_parts nan = (0, pos 0)
float_parts (inf true) = (1, pos 0)
float_parts (inf false) = (2, pos 0)
float_parts (nano z) = (3, z)

of_parts : ℕ × ℤ → Float
of_parts (zero, z) = nan
of_parts (suc zero, z) = inf true
of_parts (suc (suc zero), z) = inf false
of_parts (suc (suc (suc k)), z) = nano z

of_parts-float_parts : (f : Float) → of_parts (float_parts f) ≡ f
unfolding of_parts float_parts
of_parts-float_parts nan = refl
of_parts-float_parts (inf true) = refl
of_parts-float_parts (inf false) = refl
of_parts-float_parts (nano z) = refl

pub float : Coder Float
float = via (both number integer) float_parts of_parts of_parts-float_parts

pub text : Coder Text
text = many number

parts_of_flag : Bool → ℕ
parts_of_flag true = 1
parts_of_flag false = 0

flag_of : ℕ → Bool
flag_of zero = false
flag_of (suc n) = true

flag_of-parts_of_flag : (b : Bool) → flag_of (parts_of_flag b) ≡ b
unfolding flag_of parts_of_flag
flag_of-parts_of_flag true = refl
flag_of-parts_of_flag false = refl

pub flag : Coder Bool
flag = via number parts_of_flag flag_of flag_of-parts_of_flag

list_of : {A : Type 0} → Option A → List A
list_of none = []
list_of (some x) = x ∷ []

first_of : {A : Type 0} → List A → Option A
first_of [] = none
first_of (x ∷ xs) = some x

first_of-list_of : {A : Type 0} (o : Option A) → first_of (list_of o) ≡ o
unfolding list_of first_of
first_of-list_of none = refl
first_of-list_of (some x) = refl

pub option : {A : Type 0} → Coder A → Coder (Option A)
option c = via (many c) list_of first_of first_of-list_of
