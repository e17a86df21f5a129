-- ===== src/Worker/Quota/Search.antt =====
-- cmd/worker/quota_registry.go: the search of `reserveQuotaProject` for a free project identifier.
use panel4wp.Prelude.{
  ℕ, zero, suc, ◌+◌, ◌≤◌, ◌<◌, ◌≡◌, ◌≢◌, true, false, not, List, [], ◌∷◌, arith, leb, if◌then◌else◌,
  ◌==◌, nat_eq, length, contains, inl, inr, Bool-cases,
}

-- `exhausted` is the source's error; `stuck` is the model's fuel running out.
pub data Found : Type 0 where
  free : ℕ → Found
  exhausted stuck : Found

abbrev pub first_project : ℕ
first_project = 1_000_000

abbrev pub last_project : ℕ
last_project = 4_294_967_295

-- `for occupied[project] { if project == ^uint32(0) { return … }; project++ }`
search_from : ℕ → ℕ → List ℕ → Found
search_from zero project occupied = stuck
search_from (suc fuel) project occupied =
    let next = search_from fuel (project + 1) occupied in
    if not (contains project occupied)
    then free project
    else if project == last_project
    then exhausted
    else next

-- Every round but the last passes an occupied identifier, so there are at most as many as of those.
unfoldable pub search : List ℕ → Found
unfolding search_from
search occupied = search_from (length occupied + 1) first_project occupied

-- The occupied identifiers from `p` on.
above : ℕ → List ℕ → ℕ
above p [] = 0
above p (q ∷ qs) = (if leb p q then 1 else 0) + above p qs

above-le : (p : ℕ) (qs : List ℕ) → above p qs ≤ length qs
unfolding above
above-le p [] = omega arith
above-le p (q ∷ qs) = ground (arith, above-le p qs)

above_mono : (p : ℕ) (qs : List ℕ) → above (p + 1) qs ≤ above p qs
unfolding above
above_mono p [] = omega arith
above_mono p (q ∷ qs) = ground (arith, above_mono p qs)

above-contains : (p : ℕ) (qs : List ℕ) → contains p qs ≡ true → above (p + 1) qs < above p qs
unfolding above
above-contains p [] h = cc
above-contains p (q ∷ qs) h = ground (arith, above-contains p qs, above_mono p qs)

search_from_ends :
    (fuel p : ℕ) (occupied : List ℕ) → above p occupied < fuel → search_from fuel p occupied ≢ stuck
unfolding search_from
search_from_ends zero p occupied h = elim h [ ]
search_from_ends (suc fuel) p occupied h =
    ground (arith, search_from_ends fuel (p + 1) occupied, above-contains p occupied)

-- What a result of the search means.
abbrev pub IsFree : List ℕ → Found → Type 0
IsFree occupied (free p) = (contains p occupied ≡ false) × (first_project ≤ p) × (p ≤ last_project)
IsFree occupied exhausted = contains last_project occupied ≡ true
IsFree occupied stuck = Unit

search_from-IsFree :
    (fuel p : ℕ) (occupied : List ℕ)
    → first_project ≤ p
    → p ≤ last_project
    → IsFree occupied (search_from fuel p occupied)
unfolding search_from
search_from-IsFree zero p occupied l h = tt
search_from-IsFree (suc fuel) p occupied l h = elim (Bool-cases (contains p occupied)) [
  | inl taken ↦ elim (Bool-cases (p == last_project)) [
    | inl last ↦ rw (taken, last) (ground arith)
    | inr more ↦
        rw (taken, more) (search_from-IsFree fuel (p + 1) occupied (omega arith) (ground arith))
  ]
  | inr vacant ↦ rw vacant (vacant, l, h)
]

-- The search ends with its own fuel, whatever is occupied.
pub search_ends : (occupied : List ℕ) → search occupied ≢ stuck
unfolding search
search_ends occupied =
    search_from_ends (length occupied + 1) first_project occupied
      (omega (arith, above-le first_project occupied))

-- An identifier that is found is free, not below the first and a uint32; the search gives up only where
-- the last identifier is taken.
pub search-IsFree : (occupied : List ℕ) → IsFree occupied (search occupied)
unfolding search
search-IsFree occupied =
    search_from-IsFree (length occupied + 1) first_project occupied (omega arith) (omega arith)
