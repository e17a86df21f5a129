-- ===== src/Panel/Login.antt =====
-- cmd/panel/main.go: the limit on login attempts, and the session cookie.
pub mod Limit
use panel4wp.Prelude.{
  ℕ, ◌+◌, ◌*◌, Bool, true, false, not, ◌&&◌, ◌||◌, Option, none, some, List, [], ◌∷◌, ◌++◌, ltb,
  leb, length, select, if◌then◌else◌, ◌==◌, text_eq, Text, codes, split, trim_prefix,
}
use panel4wp.Prelude.Int.{ℤ, pos, leb_ℤ}
use panel4wp.Strings.Decimal.{atoi, decimal}
use panel4wp.Core.Ids.{valid_id}
use panel4wp.Core.Model.{Time}

-- The attempts of an address that lie less than ten minutes back.
abbrev pub recent : Time → List Time → List Time
recent now fails = select (λ t. ltb now (t + 600)) fails

-- loginAllowed, on the attempts of one address
unfoldable pub login_allowed : Time → List Time → Bool × List Time
login_allowed now fails =
    let kept = recent now fails in
    if leb 8 (length kept) then (false, kept) else (true, kept ++ now ∷ [])

-- The attempts that are let through, of those of one address that all fail.
unfoldable pub let_through : List Time → List Time → List Time
unfolding login_allowed
let_through [] fails = []
let_through (now ∷ later) fails =
    let (allowed, kept) = login_allowed now fails in
    let rest = let_through later kept in if allowed then now ∷ rest else rest

-- The value of wph_session that a login sets; `sign` is the keyed hash in base64.
unfoldable pub session_value : (Text → Text) → Time → Text
session_value sign now =
    let payload = decimal (now + 8 * 3600) in payload ++ (codes "." ++ sign payload)

-- authenticated, on the cookie's value
unfoldable pub authenticated : (Text → Text) → Time → Option Text → Bool
authenticated sign now none = false
authenticated sign now (some value) = elim (split b'.' value) [
  | payload ∷ signature ∷ [] ↦ elim (atoi payload) [
    | none ↦ false
    | some expires ↦ not (leb_ℤ expires (pos now)) && sign payload == signature
  ]
  | _ ↦ false
]

-- csrf
unfoldable pub csrf : (Text → Text) → Text → Text
csrf sign session = sign (codes "csrf:" ++ session)

-- checkCSRF; the form's field is none if the form cannot be parsed.
unfoldable pub check_csrf : (Text → Text) → Option Text → Option Text → Bool
unfolding csrf
check_csrf sign none field = false
check_csrf sign (some session) none = false
check_csrf sign (some session) (some field) = field == csrf sign session

-- siteIDFromFilesPath
unfoldable pub site_id_from_files_path : Text → Option Text
site_id_from_files_path path = elim (split b'/' (trim_prefix path (codes "/sites/"))) [
  | id ∷ page ∷ [] ↦ if not (page == codes "files") || not (valid_id id) then none else some id
  | _ ↦ none
]
