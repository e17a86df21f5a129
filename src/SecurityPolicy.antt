-- ===== src/SecurityPolicy.antt =====
-- internal/securitypolicy/policy.go: `Active`, on the security options that Docker reports.
use panel4wp.Prelude.{
  ◌≡◌, refl, sym, ◌∙◌, ap, inl, inr, Bool, true, false, not, ◌&&◌, ◌||◌, Option, none, some, List,
  [], ◌∷◌, if◌then◌else◌, ◌==◌, arith, text_eq, Text, codes, has_prefix, drop, any, select,
  Bool-cases, Option-cases, negation_lem, eq_of_==,
}

abbrev pub no_new_privileges : Text → Bool
no_new_privileges o =
    o == codes "no-new-privileges=true"
    || o == codes "no-new-privileges:true"
    || o == codes "no-new-privileges"

abbrev pub is_seccomp : Text → Bool
is_seccomp o = has_prefix o (codes "seccomp=") || has_prefix o (codes "seccomp:")

abbrev pub profile_in : Text → Text
profile_in o = drop 8 o

-- A profile that is JSON and equals the wanted one. `normal` is json.Unmarshal and json.Marshal of the
-- result.
abbrev pub fits : (Text → Option Text) → Text → Text → Bool
fits normal want o = elim (normal (profile_in o)) [ none ↦ false | some got ↦ want == got ]

-- The loop of Active, with what was found so far.
unfoldable pub active_from : (Text → Option Text) → Text → Bool → Bool → List Text → Bool
active_from normal want found privileges [] = found && privileges
active_from normal want found privileges (o ∷ os) =
    let rest =
      active_from normal want (found || is_seccomp o) (privileges || no_new_privileges o) os in
    if is_seccomp o && (found || not (fits normal want o)) then false else rest

-- Active, for the embedded profile
unfoldable pub active : (Text → Option Text) → Text → List Text → Bool
unfolding active_from
active normal profile options = elim (normal profile) [
  | none ↦ false
  | some want ↦ active_from normal want false false options
]

passed_on : (a b : Bool) → (if a then false else b) ≡ true → (a ≡ false) × (b ≡ true)
passed_on true b h = cc
passed_on false b h = (refl, h)

||_assoc : (a b c : Bool) → ((a || b) || c) ≡ (a || (b || c))
||_assoc true b c = ground arith
||_assoc false b c = refl

-- After one profile there is none, and the privileges are closed in all.
active_from-found :
    (normal : Text → Option Text) (want : Text) (p : Bool) (os : List Text)
    → active_from normal want true p os ≡ true
    → (select is_seccomp os ≡ []) × ((p || any no_new_privileges os) ≡ true)
unfolding active_from
active_from-found normal want p [] h = (refl, ground (arith, h))
active_from-found normal want p (o ∷ os) h =
    let (a, b) = passed_on (is_seccomp o && true) _ h in
    let (c, d) = active_from-found normal want (p || no_new_privileges o) os b in
    let other : is_seccomp o ≡ false = ground arith in
    (rw other c, sym (||_assoc p (no_new_privileges o) (any no_new_privileges os)) ∙ d)

-- Exactly one option is a profile, it has the wanted content, and one closes the privileges.
pub record IsActive (normal : Text → Option Text) (want : Text) (p : Bool) (os : List Text)
    : Type 0 where
  pub option : Text
  pub only : select is_seccomp os ≡ option ∷ []
  pub content : normal (profile_in option) ≡ some want
  pub privileges : (p || any no_new_privileges os) ≡ true

fits-normal :
    (normal : Text → Option Text) (want o : Text)
    → fits normal want o ≡ true
    → normal (profile_in o) ≡ some want
fits-normal normal want o h = elim (Option-cases (normal (profile_in o))) [
  | inl n ↦ cc (rw (n, fits) at h)
  | inr (got, n) ↦ n ∙ ap some (sym (eq_of_== want got (rw (n, fits) at h)))
]

active_from-IsActive :
    (normal : Text → Option Text) (want : Text) (p : Bool) (os : List Text)
    → active_from normal want false p os ≡ true
    → IsActive normal want p os
unfolding active_from
active_from-IsActive normal want p [] h = cc
active_from-IsActive normal want p (o ∷ os) h =
    let (a, b) = passed_on (is_seccomp o && (false || not (fits normal want o))) _ h in
    elim (Bool-cases (is_seccomp o)) [
      | inl hit ↦
          let (c, d) = active_from-found normal want (p || no_new_privileges o) os (rw hit at b) in
          record {
            option = o;
            only = rw hit (ap (◌∷◌ o) c);
            content = fits-normal normal want o (negation_lem (fits normal want o) (rw hit at a));
            privileges = sym (||_assoc p (no_new_privileges o) (any no_new_privileges os)) ∙ d;
          }
      | inr miss ↦
          let r = active_from-IsActive normal want (p || no_new_privileges o) os (rw miss at b) in
          record {
            option = r.option;
            only = rw miss r.only;
            content = r.content;
            privileges =
                sym (||_assoc p (no_new_privileges o) (any no_new_privileges os)) ∙ r.privileges;
          }
    ]

-- What Active accepts has exactly one profile, whose content is that of the embedded one, and closes
-- the privileges.
pub active-IsActive :
    (normal : Text → Option Text) (profile : Text) (os : List Text)
    → active normal profile os ≡ true
    → (want : Text) × (normal profile ≡ some want) × IsActive normal want false os
unfolding active
active-IsActive normal profile os h = elim (Option-cases (normal profile)) [
  | inl n ↦ cc (rw (n, active) at h)
  | inr (want, n) ↦ (want, n, active_from-IsActive normal want false os (rw (n, active) at h))
]
