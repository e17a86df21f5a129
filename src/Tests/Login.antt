-- ===== src/Tests/Login.antt =====
-- cmd/panel/main.go: login attempts and a session on concrete values.
use panel4wp.Prelude.{
  ◌≡◌, ◌≤◌, ◌+◌, ◌*◌, arith, some, List, [], ◌∷◌, ltb, Text, codes, IsPart, text_eq,
}
use panel4wp.Core.Model.{Time}
use panel4wp.Panel.Login.{let_through, authenticated, session_value}
use panel4wp.Panel.Login.Limit.{Ascending, count_in, let_through-Few, authenticated-session_value}

abbrev nine : List Time
nine = 1 ∷ 2 ∷ 3 ∷ 4 ∷ 5 ∷ 6 ∷ 7 ∷ 8 ∷ 9 ∷ []

nine-Ascending : Ascending nine
nine-Ascending = ground arith

-- Nine attempts in nine seconds.
let_through-Few_example : count_in 9 (let_through nine []) ≤ 8
let_through-Few_example = let_through-Few nine 9 nine-Ascending

abbrev signed : Text → Text
signed s = codes "c2lnbmVk"

signed-IsPart : (s : Text) → IsPart b'.' (signed s)
signed-IsPart s = ground arith

authenticated-session_value_example :
    authenticated signed 1000 (some (session_value signed 900)) ≡ ltb 1000 (900 + 8 * 3600)
authenticated-session_value_example =
    authenticated-session_value signed 900 1000 signed-IsPart (omega arith)
