-- ===== src/Panel/Login/Limit.antt =====
-- cmd/panel/main.go: theorems on loginAllowed and on the session cookie.
use panel4wp.Prelude.{
  ℕ, ◌+◌, ◌*◌, ◌≤◌, ◌<◌, ◌^◌, ◌≡◌, inl, inr, refl, arith, Bool, true, false, ◌&&◌, some, List, [],
  ◌∷◌, ◌++◌, All, All-mono, ltb, leb, length, if◌then◌else◌, ◌==◌, ==_refl, text_eq, nat_eq, Text,
  split, join, split-join, IsPart, Bool-cases,
}
use panel4wp.Strings.Decimal.{decimal, is_digit, atoi-decimal, All-decimal}
use panel4wp.Core.Model.{Time}
use panel4wp.Panel.Login.{recent, login_allowed, let_through, authenticated, session_value}

-- A time in the ten minutes up to another.
abbrev pub in_window : Time → Time → Bool
in_window now t = ltb now (t + 600) && leb t now

abbrev pub count_in : Time → List Time → ℕ
count_in now [] = 0
count_in now (t ∷ ts) = (if in_window now t then 1 else 0) + count_in now ts

-- The attempts come in the order of the clock.
abbrev pub Ascending : List Time → Type 0
Ascending [] = Unit
Ascending (t ∷ ts) = All (λ (u : Time). t ≤ u) ts × Ascending ts

count_in-length : (now : Time) (ts : List Time) → count_in now ts ≤ length ts
count_in-length now [] = omega arith
count_in-length now (t ∷ ts) = ground (arith, count_in-length now ts)

count_in-append :
    (now : Time) (xs ys : List Time) → count_in now (xs ++ ys) ≡ count_in now xs + count_in now ys
count_in-append now [] ys = omega arith
count_in-append now (x ∷ xs) ys = rw (count_in-append now xs ys) (omega arith)

-- What lies too far back counts for no later time.
count_in-recent :
    (t now : Time) (ts : List Time) → t ≤ now → count_in now (recent t ts) ≡ count_in now ts
count_in-recent t now [] h = refl
count_in-recent t now (x ∷ xs) h = ground (arith, count_in-recent t now xs h)

count_in-fewer : (t now : Time) (ts : List Time) → count_in now (recent t ts) ≤ count_in now ts
count_in-fewer t now [] = omega arith
count_in-fewer t now (x ∷ xs) = ground (arith, count_in-fewer t now xs)

let_through-All :
    (n : ℕ) (ts fails : List Time)
    → All (λ (u : Time). n ≤ u) ts
    → All (λ (u : Time). n ≤ u) (let_through ts fails)
unfolding let_through
let_through-All n [] fails h = tt
let_through-All n (t ∷ ts) fails h = elim (Bool-cases (login_allowed t fails).0) [
  | inl good ↦ rw good (h.0, let_through-All n ts (login_allowed t fails).1 h.1)
  | inr bad ↦ rw bad (let_through-All n ts (login_allowed t fails).1 h.1)
]

-- Times that are all later
count_in-later :
    (now t : Time) (ts : List Time) → now < t → All (λ (u : Time). t ≤ u) ts → count_in now ts ≡ 0
count_in-later now t [] h k = refl
count_in-later now t (u ∷ us) h k = ground (arith, count_in-later now t us h k.1)

-- At most eight at any time, and any later time.
abbrev Few : List Time → Type 0
Few ts = (now : Time) → count_in now ts ≤ 8

kept-Few : (t : Time) (fails : List Time) → Few fails → Few (login_allowed t fails).1
unfolding login_allowed
kept-Few t fails h now = elim (Bool-cases (leb 8 (length (recent t fails)))) [
  | inl full ↦ rw full (omega (arith, count_in-fewer t now fails, h now))
  | inr room ↦
      let short : length (recent t fails) < 8 = ground arith in
      let n = count_in-append now (recent t fails) (t ∷ []) in
      let l = count_in-length now (recent t fails) in rw (room, login_allowed) (rw n (ground arith))
]

-- What is kept counts as much as before, and the attempt with it.
step_count :
    (t now : Time) (fails : List Time)
    → t ≤ now
    → count_in now (login_allowed t fails).1
      ≡ count_in now fails + (if (login_allowed t fails).0 then count_in now (t ∷ []) else 0)
unfolding login_allowed
step_count t now fails h = elim (Bool-cases (leb 8 (length (recent t fails)))) [
  | inl full ↦ rw (full, login_allowed) (omega (arith, count_in-recent t now fails h))
  | inr room ↦
      let n = count_in-append now (recent t fails) (t ∷ []) in
      rw (room, login_allowed) (rw n (omega (arith, count_in-recent t now fails h)))
]

let_through-bound :
    (ts fails : List Time) (now : Time)
    → Ascending ts
    → Few fails
    → count_in now fails + count_in now (let_through ts fails) ≤ 8
unfolding let_through
let_through-bound [] fails now a h = omega (arith, h now)
let_through-bound (t ∷ ts) fails now a h =
    let kept = (login_allowed t fails).1 in
    let ih = let_through-bound ts kept now a.1 (kept-Few t fails h) in
    elim (Bool-cases (leb t now)) [
      | inl due ↦
          let le : t ≤ now = ground arith in
          let step = step_count t now fails le in
          elim (Bool-cases (login_allowed t fails).0) [
            | inl good ↦ rw (good, let_through) (omega (arith, ih, rw good at step))
            | inr bad ↦ rw (bad, let_through) (omega (arith, ih, rw bad at step))
          ]
      | inr early ↦
          let lt : now < t = ground arith in
          let none_yet =
            count_in-later now t (let_through (t ∷ ts) fails) lt
              (let_through-All t (t ∷ ts) fails (omega arith, a.0)) in
          omega (arith, h now, none_yet)
    ]

-- As long as no login succeeds, at most eight attempts of an address are let through in any ten minutes.
pub let_through-Few :
    (ts : List Time) (now : Time) → Ascending ts → count_in now (let_through ts []) ≤ 8
let_through-Few ts now a = omega (arith, let_through-bound ts [] now a (λ n. omega arith))

digit_no_dot : (c : ℕ) → is_digit c ≡ true → (c == b'.') ≡ false
digit_no_dot c h = ground arith

-- A session cookie is accepted in the eight hours after its login, and no longer.
pub authenticated-session_value :
    (sign : Text → Text) (login now : Time)
    → ((s : Text) → IsPart b'.' (sign s))
    → login + 8 * 3600 < 2 ^ 63
    → authenticated sign now (some (session_value sign login)) ≡ ltb now (login + 8 * 3600)
unfolding authenticated session_value join
authenticated-session_value sign login now plain fits =
    let payload = decimal (login + 8 * 3600) in
    let digits =
      All-mono _ (λ c. (c == b'.') ≡ false) digit_no_dot payload (All-decimal (login + 8 * 3600)) in
    let parts : split b'.' (session_value sign login) ≡ payload ∷ sign payload ∷ [] =
      split-join b'.' payload (sign payload ∷ []) (digits, (plain payload, tt)) in
    rw (parts, authenticated)
      (rw (atoi-decimal (login + 8 * 3600) fits) (rw (==_refl (sign payload)) (ground arith)))
