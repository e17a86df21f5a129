-- ===== src/Core/Ids.antt =====
-- internal/core/site.go: the regular expressions of identifiers and the functions that make them.
-- A regular expression of fixed length is the list of its byte classes.
use mathlib.Core.Option.{some-injective}
use mathlib.Core.Path.{subst}
use panel4wp.Prelude.{
  ℕ, zero, suc, ◌+◌, ◌/◌, ◌%◌, ◌<◌, ◌≡◌, ◌↔◌, Bool, true, false, ◌&&◌, Option, none, some, List, [],
  ◌∷◌, ◌++◌, arith, ◌==◌, nat_eq, Text, All, length, replicate,
}
use panel4wp.Strings.Hex.{is_hex, hex_encode, length-hex_encode, All-hex_encode}
use panel4wp.Strings.Decimal.{is_digit}

abbrev pub Class : Type 0
Class = ℕ → Bool

-- Each byte of the whole text lies in the class at its place.
unfoldable pub match_classes : List Class → Text → Bool
match_classes [] [] = true
match_classes [] (c ∷ s) = false
match_classes (k ∷ ks) [] = false
match_classes (k ∷ ks) (c ∷ s) = k c && match_classes ks s

-- ^[0-9a-f]{16}$
unfoldable pub valid_id : Text → Bool
unfolding match_classes
valid_id = match_classes (replicate 16 is_hex)

abbrev literal : ℕ → Class
literal b c = c == b

abbrev backup_id : List Class
backup_id =
    replicate 8 is_digit
    ++ (literal b'T' ∷ replicate 6 is_digit ++ (literal b'Z' ∷ literal b'-' ∷ replicate 8 is_hex))

-- ^[0-9]{8}T[0-9]{6}Z-[0-9a-f]{8}$
unfoldable pub valid_backup_id : Text → Bool
unfolding match_classes
valid_backup_id = match_classes backup_id

-- `rand.Read` fills the buffer or fails; what it read is the argument.
unfoldable pub new_id : Option (List ℕ) → Option Text
new_id none = none
new_id (some bytes) = some (hex_encode bytes)

unfoldable pub random_password : Option (List ℕ) → Option Text
random_password none = none
random_password (some bytes) = some (hex_encode bytes)

-- The fields of `now.UTC()` that the layout 20060102T150405Z prints.
pub record Clock : Type 0 where
  pub year : ℕ
  pub month : ℕ
  pub day : ℕ
  pub hour : ℕ
  pub minute : ℕ
  pub second : ℕ

pub record IsClock (t : Clock) : Type 0 where
  pub year_fits : t.year < 10000
  pub month_fits : t.month < 100
  pub day_fits : t.day < 100
  pub hour_fits : t.hour < 100
  pub minute_fits : t.minute < 100
  pub second_fits : t.second < 100

abbrev pad2 : ℕ → Text
pad2 n = (b'0' + n / 10) ∷ (b'0' + n % 10) ∷ []

abbrev pad4 : ℕ → Text
pad4 n = pad2 (n / 100) ++ pad2 (n % 100)

abbrev pub stamp : Clock → Text
stamp t =
    pad4 t.year
    ++ (pad2 t.month
        ++ (pad2 t.day
            ++ (b'T' ∷ (pad2 t.hour ++ (pad2 t.minute ++ (pad2 t.second ++ (b'Z' ∷ [])))))))

unfoldable pub new_backup_id : Clock → Option (List ℕ) → Option Text
new_backup_id now none = none
new_backup_id now (some bytes) = some (stamp now ++ (b'-' ∷ hex_encode bytes))

pub match_replicate :
    (k : Class) (n : ℕ) (s : Text)
    → (match_classes (replicate n k) s ≡ true) ↔ ((length s ≡ n) × All (λ c. k c ≡ true) s)
unfolding match_classes
match_replicate k zero [] = ground arith
match_replicate k zero (c ∷ s) = (λ h. cc, λ h. absurd (omega (arith, h.0)))
match_replicate k (suc n) [] = (λ h. cc, λ h. absurd (omega (arith, h.0)))
match_replicate k (suc n) (c ∷ s) = ground (arith, match_replicate k n s)

-- An identifier is sixteen lower-case hexadecimal digits, and nothing else is one.
pub valid_id_iff :
    (s : Text) → (valid_id s ≡ true) ↔ ((length s ≡ 16) × All (λ c. is_hex c ≡ true) s)
unfolding valid_id
valid_id_iff s = match_replicate is_hex 16 s

-- Whatever eight random bytes were read, `NewID` returns a valid identifier.
pub new_id-valid_id :
    (bytes : List ℕ) {id : Text}
    → length bytes ≡ 8
    → All (λ b. b < 256) bytes
    → new_id (some bytes) ≡ some id
    → valid_id id ≡ true
unfolding new_id
new_id-valid_id bytes {id} n b e =
    subst (λ x. valid_id x ≡ true) (some-injective _ _ e)
      ((valid_id_iff (hex_encode bytes)).1
        (omega (arith, length-hex_encode bytes), All-hex_encode bytes b))

match-pad2 :
    (n : ℕ) (ks : List Class) (s : Text)
    → n < 100
    → match_classes ks s ≡ true
    → match_classes (is_digit ∷ is_digit ∷ ks) (pad2 n ++ s) ≡ true
unfolding match_classes
match-pad2 n ks s h k = ground arith

match-literal :
    (b : ℕ) (ks : List Class) (s : Text)
    → match_classes ks s ≡ true
    → match_classes (literal b ∷ ks) (b ∷ s) ≡ true
unfolding match_classes
match-literal b ks s k = ground arith

match_stamp :
    (now : Clock) (s : Text)
    → IsClock now
    → match_classes (replicate 8 is_hex) s ≡ true
    → match_classes backup_id (stamp now ++ (b'-' ∷ s)) ≡ true
match_stamp now s v tail = match-pad2 (now.year / 100) _ _ (omega (arith, v.year_fits)) (
    match-pad2 (now.year % 100) _ _ (omega arith) (
      match-pad2 now.month _ _ v.month_fits (
        match-pad2 now.day _ _ v.day_fits (
          match-literal b'T' _ _ (
            match-pad2 now.hour _ _ v.hour_fits (
              match-pad2 now.minute _ _ v.minute_fits (
                match-pad2 now.second _ _ v.second_fits
                  (match-literal b'Z' _ _ (match-literal b'-' _ _ tail)))))))))

-- Whatever four random bytes were read, `NewBackupID` returns a valid backup identifier.
pub new_backup_id-valid_backup_id :
    (now : Clock) (bytes : List ℕ) {id : Text}
    → IsClock now
    → length bytes ≡ 4
    → All (λ b. b < 256) bytes
    → new_backup_id now (some bytes) ≡ some id
    → valid_backup_id id ≡ true
unfolding new_backup_id valid_backup_id
new_backup_id-valid_backup_id now bytes {id} v n b e =
    let tail =
      (match_replicate is_hex 8 (hex_encode bytes)).1
        (omega (arith, length-hex_encode bytes), All-hex_encode bytes b) in
    subst (λ x. match_classes backup_id x ≡ true) (some-injective _ _ e)
      (match_stamp now (hex_encode bytes) v tail)
