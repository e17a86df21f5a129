-- ===== src/Worker/Quota/Ledger.antt =====
-- cmd/worker/quota_registry.go: the ledger of project reservations, its validation and its loading.
use panel4wp.Prelude.{
  ℕ, ◌≤◌, ◌≡◌, ◌≢◌, refl, Bool, true, false, not, ◌||◌, Option, none, some, List, [], ◌∷◌, ◌++◌,
  arith, ltb, if◌then◌else◌, ◌==◌, nat_eq, text_eq, Text, length, Result, ok, err, fail_if, ◌>>◌,
  All, contains, is_some, test_passed, guard_passed, ◌↔◌, ==_of_ne, ne_of_==, ||_false,
  append-injective, ◌∙◌, sym,
}
use panel4wp.Strings.Decimal.{decimal, decimal-injective}
use panel4wp.Core.Ids.{valid_id}
use panel4wp.Worker.Quota.Marker.{quota_uuid, quota_uuid-length}

pub record Reservation : Type 0 where
  pub site_id : Text
  pub filesystem_uuid : Text
  pub project_id : ℕ  -- uint32

-- `none` is a nil slice.
pub record Ledger : Type 0 where
  pub version : ℕ
  pub reservations : Option (List Reservation)

pub data LedgerError : Type 0 where
  unsupported conflicting missing_ledger undecodable unreadable_root marked_sites write_failed :
      LedgerError

abbrev pub entries : Ledger → List Reservation
entries l = elim l.reservations [ none ↦ [] | some es ↦ es ]

-- fmt.Sprintf("%s:%d", …)
abbrev pub ledger_key : Reservation → Text
ledger_key e = e.filesystem_uuid ++ (b':' ∷ decimal e.project_id)

-- An entry that the loop refuses, after the keys and the sites that were seen.
abbrev refused : List Text → List Text → Reservation → Bool
refused ids sites e =
    not (valid_id e.site_id)
    || not (quota_uuid e.filesystem_uuid)
    || e.project_id == 0
    || contains (ledger_key e) ids
    || contains e.site_id sites

-- The loop, with the keys and the sites that were seen.
check_entries : List Text → List Text → List Reservation → Result LedgerError (Unit {0})
check_entries ids sites [] = ok tt
check_entries ids sites (e ∷ es) =
    if refused ids sites e
    then err conflicting
    else check_entries (ledger_key e ∷ ids) (e.site_id ∷ sites) es

abbrev bad_header : Ledger → Bool
bad_header l = not (l.version == 1) || not (is_some l.reservations) || ltb 4096 (length (entries l))

-- validateQuotaLedger
unfoldable pub validate_ledger : Ledger → Result LedgerError (Unit {0})
unfolding check_entries
validate_ledger l = do fail_if (bad_header l) unsupported; check_entries [] [] (entries l)

-- A reservation that clashes with none of the list: another site, and not the same project on the same
-- filesystem.
abbrev pub Apart : Reservation → Reservation → Type 0
Apart e f =
    (f.site_id ≢ e.site_id) × (f.filesystem_uuid ≡ e.filesystem_uuid → f.project_id ≢ e.project_id)

pub record IsWellFormed (e : Reservation) : Type 0 where
  pub site : valid_id e.site_id ≡ true
  pub filesystem : quota_uuid e.filesystem_uuid ≡ true
  pub project : e.project_id ≢ 0

-- Each entry is well formed and clashes with none before it.
abbrev pub Distinct : List Reservation → List Reservation → Type 0
Distinct before [] = Unit
Distinct before (e ∷ es) = IsWellFormed e × All (Apart e) before × Distinct (e ∷ before) es

keys : List Reservation → List Text
keys [] = []
keys (e ∷ es) = ledger_key e ∷ keys es

sites : List Reservation → List Text
sites [] = []
sites (e ∷ es) = e.site_id ∷ sites es

not_contains :
    (e : Reservation) (before : List Reservation)
    → contains (ledger_key e) (keys before) ≡ false
    → contains e.site_id (sites before) ≡ false
    → All (Apart e) before
unfolding keys sites
not_contains e [] k s = tt
not_contains e (f ∷ before) k s =
    let (k1, k2) = ||_false (ledger_key f == ledger_key e) _ k in
    let (s1, s2) = ||_false (f.site_id == e.site_id) _ s in
    (
      (ne_of_== f.site_id e.site_id s1, λ q p. ne_of_== (ledger_key f) (ledger_key e) k1 (cc)),
      not_contains e before k2 s2,
    )

ledger_key-injective :
    (e f : Reservation)
    → quota_uuid e.filesystem_uuid ≡ true
    → quota_uuid f.filesystem_uuid ≡ true
    → ledger_key f ≡ ledger_key e
    → (f.filesystem_uuid ≡ e.filesystem_uuid) × (f.project_id ≡ e.project_id)
ledger_key-injective e f u v q =
    let (a, b) =
      append-injective f.filesystem_uuid e.filesystem_uuid (b':' ∷ decimal f.project_id)
        (b':' ∷ decimal e.project_id)
        (quota_uuid-length f.filesystem_uuid v ∙ sym (quota_uuid-length e.filesystem_uuid u)) q in
    (a, decimal-injective f.project_id e.project_id (cc (b)))

contains-Apart :
    (e : Reservation) (before : List Reservation)
    → quota_uuid e.filesystem_uuid ≡ true
    → All IsWellFormed before
    → All (Apart e) before
    → (contains (ledger_key e) (keys before) ≡ false) × (contains e.site_id (sites before) ≡ false)
unfolding keys sites
contains-Apart e [] u w a = (refl, refl)
contains-Apart e (f ∷ before) u w a =
    let (k, s) = contains-Apart e before u w.1 a.1 in
    let (a1, a2) = a.0 in
    (
      rw
          (==_of_ne (ledger_key f) (ledger_key e)
            (λ q. let (x, y) = ledger_key-injective e f u w.0.filesystem q in a2 x y))
          k,
      rw (==_of_ne f.site_id e.site_id a1) s,
    )

accepted :
    (ids sites : List Text) (e : Reservation)
    → refused ids sites e ≡ false
    → IsWellFormed e × (contains (ledger_key e) ids ≡ false) × (contains e.site_id sites ≡ false)
accepted ids sites e h =
    let (a, s) = ||_false _ (contains e.site_id sites) h in
    let (b, k) = ||_false _ (contains (ledger_key e) ids) a in (ground arith, k, s)

accepts :
    (ids sites : List Text) (e : Reservation)
    → IsWellFormed e
    → contains (ledger_key e) ids ≡ false
    → contains e.site_id sites ≡ false
    → refused ids sites e ≡ false
accepts ids sites e w k s = rw (k, s, w.site, w.filesystem) (ground (arith, w.project))

check_entries-Distinct :
    (before es : List Reservation)
    → check_entries (keys before) (sites before) es ≡ ok tt
    → Distinct before es
unfolding check_entries keys sites
check_entries-Distinct before [] h = tt
check_entries-Distinct before (e ∷ es) h =
    let (p, rest) = test_passed (refused (keys before) (sites before) e) conflicting _ h in
    let (w, k, s) = accepted (keys before) (sites before) e p in
    (w, not_contains e before k s, check_entries-Distinct (e ∷ before) es rest)

check_entries_complete :
    (before es : List Reservation)
    → All IsWellFormed before
    → Distinct before es
    → check_entries (keys before) (sites before) es ≡ ok tt
unfolding check_entries keys sites
check_entries_complete before [] w d = refl
check_entries_complete before (e ∷ es) w d =
    let (we, a, rest) = d in
    let (k, s) = contains-Apart e before we.filesystem w a in
    rw (accepts (keys before) (sites before) e we k s)
      (check_entries_complete (e ∷ before) es (we, w) rest)

-- A ledger is accepted exactly if it has version 1, a list of at most 4096 entries, each of them well
-- formed, and no two of them share a site or a project of one filesystem.
pub validate_ledger_iff :
    (l : Ledger)
    → (validate_ledger l ≡ ok tt) ↔ (
        (l.version ≡ 1)
        × (is_some l.reservations ≡ true)
        × (length (entries l) ≤ 4096)
        × Distinct [] (entries l))
unfolding validate_ledger keys sites
validate_ledger_iff l = (
  λ h.
      let (g, rest) = guard_passed (bad_header l) unsupported (check_entries [] [] (entries l)) h in
      let d = check_entries-Distinct [] (entries l) rest in
      (ground arith, ground arith, ground arith, d),
  λ (v, s, n, d). rw (check_entries_complete [] (entries l) tt d) (ground arith),
)
