-- ===== src/Worker/Quota/Reserve/Safety.antt =====
-- What `reserveQuotaProject` guarantees: no reservation is lost, none is given twice.
use mathlib.Core.Option.{some-injective}
use mathlib.Core.Path.{subst}
use panel4wp.Prelude.{
  negation_lem, ℕ, ◌≤◌, ◌<◌, ◌≡◌, ◌≢◌, ◌⊎◌, inl, inr, refl, sym, ap, ◌∙◌, Bool, true, false, not,
  ◌||◌, Option, none, some, List, [], ◌∷◌, ◌++◌, arith, leb, ltb, if◌then◌else◌, ◌==◌, nat_eq,
  text_eq, Text, All, contains, length, length-append, Result, ok, err, Option-cases, Bool-cases,
  ==_refl, eq_of_==, ne_of_==, ||_false, contains-append, ok-injective,
}
use panel4wp.Core.Ids.{valid_id}
use panel4wp.Files.{content, Write, written, failed_before, failed_after, atomic_config}
use panel4wp.Worker.Quota.Inventory.{Inventory, InventoryError, ids_of, IsSound}
use panel4wp.Worker.Quota.Ledger.{
  Reservation, Ledger, entries, validate_ledger, validate_ledger_iff, Apart, IsWellFormed, Distinct,
}
use panel4wp.Worker.Quota.Search.{Found, free, exhausted, stuck, search-IsFree, IsFree}
use panel4wp.Worker.Quota.Load.{Disk, Codec, load_ledger, load_ledger-Holds, Holds}
use panel4wp.Worker.Quota.Reserve.{
  World, own_entry, burned, reserve_in, reserve, append_entry, allocate, ReserveError, too_large,
  not_written, no_identifier, too_many, reservation_moved, invalid_site, no_compose, already_marked,
  not_locked, with_ledger, quota_ledger_limit,
}

own_entry-none :
    (id : Text) (es : List Reservation) → own_entry id es ≡ none → All (λ f. f.site_id ≢ id) es
unfolding own_entry
own_entry-none id [] h = tt
own_entry-none id (e ∷ es) h = elim (Bool-cases (e.site_id == id)) [
  | inl hit ↦ cc (rw hit at h)
  | inr miss ↦ (ne_of_== e.site_id id miss, own_entry-none id es (rw miss at h))
]

burned-not :
    (uuid : Text) (p : ℕ) (es : List Reservation)
    → contains p (burned uuid es) ≡ false
    → All (λ f. f.filesystem_uuid ≡ uuid → f.project_id ≢ p) es
unfolding burned
burned-not uuid p [] h = tt
burned-not uuid p (e ∷ es) h = elim (Bool-cases (e.filesystem_uuid == uuid)) [
  | inl same ↦
      let (a, b) = ||_false (e.project_id == p) (contains p (burned uuid es)) (rw same at h) in
      (λ _. ne_of_== e.project_id p a, burned-not uuid p es b)
  | inr other ↦
      (λ q. absurd (ne_of_== e.filesystem_uuid uuid other q), burned-not uuid p es (rw other at h))
]

All-both :
    (id uuid : Text) (p : ℕ) (es : List Reservation)
    → All (λ f. f.site_id ≢ id) es
    → All (λ f. f.filesystem_uuid ≡ uuid → f.project_id ≢ p) es
    → All (Apart (record { site_id = id; filesystem_uuid = uuid; project_id = p })) es
All-both id uuid p [] a b = tt
All-both id uuid p (e ∷ es) a b = ((a.0, b.0), All-both id uuid p es a.1 b.1)

Distinct-append :
    (before es : List Reservation) (e : Reservation)
    → Distinct before es
    → IsWellFormed e
    → All (Apart e) before
    → All (Apart e) es
    → Distinct before (es ++ e ∷ [])
Distinct-append before [] e d w a b = (w, a, tt)
Distinct-append before (f ∷ es) e d w a b =
    let (wf, af, rest) = d in (wf, af, Distinct-append (f ∷ before) es e rest w (b.0, a) b.1)

-- The ledger with one more entry.
abbrev pub extended : Ledger → Reservation → Ledger
extended l e = record l { reservations = some (entries l ++ e ∷ []) }

extended-valid :
    (l : Ledger) (e : Reservation)
    → validate_ledger l ≡ ok tt
    → length (entries l) < 4096
    → IsWellFormed e
    → All (Apart e) (entries l)
    → validate_ledger (extended l e) ≡ ok tt
extended-valid l e v n w a =
    let (ver, _, _, d) = (validate_ledger_iff l).0 v in
    (validate_ledger_iff (extended l e)).1 (
      ver,
      refl,
      omega (arith, length-append (entries l) (e ∷ [])),
      Distinct-append [] (entries l) e d w tt a,
    )

own_entry-append :
    (id : Text) (es : List Reservation) (e : Reservation)
    → own_entry id es ≡ none
    → e.site_id ≡ id
    → own_entry id (es ++ e ∷ []) ≡ some e
unfolding own_entry
own_entry-append id [] e h s = rw s (rw (==_refl id))
own_entry-append id (f ∷ es) e h s = elim (Bool-cases (f.site_id == id)) [
  | inl hit ↦ cc (rw hit at h)
  | inr miss ↦ rw miss (own_entry-append id es e (rw miss at h) s)
]

own_entry-site :
    (id : Text) (es : List Reservation) {e : Reservation}
    → own_entry id es ≡ some e
    → e.site_id ≡ id
unfolding own_entry
own_entry-site id [] h = cc
own_entry-site id (f ∷ es) {e} h = elim (Bool-cases (f.site_id == id)) [
  | inl hit ↦
      ap (λ (x : Reservation). x.site_id) (sym (some-injective _ _ (rw hit at h)))
      ∙ eq_of_== f.site_id id hit
  | inr miss ↦ own_entry-site id es (rw miss at h)
]

-- A ledger whose JSON is within the limit is read back as it was written.
abbrev pub RoundTrips : Codec → Type 0
RoundTrips c =
    (l : Ledger) → length (c.encode l) ≤ quota_ledger_limit → c.decode (c.encode l) ≡ some l

abbrev moved : Inventory → Reservation → Bool
moved r e =
    not (e.filesystem_uuid == r.filesystem_uuid) || contains e.project_id (ids_of r.project_ids)

-- Ledgers only grow, by an entry for the site that clashes with none before.
abbrev pub Grows : Text → Ledger → Ledger → Type 0
Grows id l l' =
    (l' ≡ l)
    ⊎ ((e : Reservation) × (l' ≡ extended l e) × (e.site_id ≡ id) × All (Apart e) (entries l))

-- A reservation that a call may answer with.
pub record Granted (id : Text) (r : Inventory) (l : Ledger) (e : Reservation) : Type 0 where
  pub site : e.site_id ≡ id
  pub filesystem : e.filesystem_uuid ≡ r.filesystem_uuid
  pub unoccupied : contains e.project_id (ids_of r.project_ids) ≡ false
  pub recorded : own_entry id (entries l) ≡ some e

-- The state after a call: a ledger that grew, and holds the answer if there is one.
pub record IsSafe (c : Codec) (id : Text) (r : Inventory) (l : Ledger)
    (o : Result ReserveError Reservation × Disk) : Type 0 where
  pub ledger : Ledger
  pub holds : Holds c o.1 ledger
  pub grows : Grows id l ledger
  pub granted : (e : Reservation) → o.0 ≡ ok e → Granted id r ledger e

stays :
    {id : Text} {r : Inventory} {l : Ledger} {e : Reservation}
    → Granted id r l e
    → moved r e ≡ false
stays {id} {r} {l} {e} g = rw (g.filesystem, ==_refl r.filesystem_uuid, g.unoccupied)

module _ (c : Codec) (rt : RoundTrips c) (id : Text) (r : Inventory) (l : Ledger) (d : Disk)
    (h : Holds c d l) where
  own_entry-Granted :
      (e : Reservation) → own_entry id (entries l) ≡ some e → moved r e ≡ false → Granted id r l e
  own_entry-Granted e old still =
      let (a, b) = ||_false _ (contains e.project_id (ids_of r.project_ids)) still in
      record {
        site = own_entry-site id (entries l) old;
        filesystem = eq_of_== e.filesystem_uuid r.filesystem_uuid (ground arith);
        unoccupied = b;
        recorded = old;
      }

  unchanged : (x : ReserveError) → IsSafe c id r l (err x, d)
  unchanged x = record { ledger = l; holds = h; grows = inl refl; granted = λ e q. cc }

  module _ (e : Reservation) (own : own_entry id (entries l) ≡ none) (site : e.site_id ≡ id)
      (fs : e.filesystem_uuid ≡ r.filesystem_uuid)
      (vacant : contains e.project_id (ids_of r.project_ids) ≡ false)
      (apart : All (Apart e) (entries l)) (valid : validate_ledger (extended l e) ≡ ok tt) where
    stored :
        length (c.encode (extended l e)) ≤ quota_ledger_limit
        → Holds c (record d { ledger = content (c.encode (extended l e)) }) (extended l e)
    stored short = record {
      text = c.encode (extended l e);
      stored = refl;
      sealed = h.sealed;
      decoded = rt (extended l e) short;
      valid = valid;
    }

    Granted-extended : Granted id r (extended l e) e
    Granted-extended = record {
      site = site;
      filesystem = fs;
      unoccupied = vacant;
      recorded = own_entry-append id (entries l) e own site;
    }

    grown : Grows id l (extended l e)
    grown = inr (e, refl, site, apart)

    append_short :
        (w : Write)
        → ltb quota_ledger_limit (length (c.encode (extended l e))) ≡ false
        → IsSafe c id r l (append_entry c w l e d)
    unfolding append_entry atomic_config
    append_short written short = rw short (record {
      ledger = extended l e;
      holds = stored (ground arith);
      grows = grown;
      granted = λ f q. subst (Granted id r (extended l e)) (ok-injective q) Granted-extended;
    })
    append_short failed_before short = rw short (unchanged not_written)
    append_short failed_after short = rw short (record {
      ledger = extended l e;
      holds = stored (ground arith);
      grows = grown;
      granted = λ f q. cc;
    })

    append_entry-IsSafe : (w : Write) → IsSafe c id r l (append_entry c w l e d)
    unfolding append_entry
    append_entry-IsSafe w =
        elim (Bool-cases (ltb quota_ledger_limit (length (c.encode (extended l e))))) [
          | inl long ↦ rw long (unchanged too_large)
          | inr short ↦ append_short w short
        ]

  module _ (valid_site : valid_id id ≡ true) (sound : IsSound r) where
    allocate-IsSafe :
        (w : Write) (f : Found)
        → own_entry id (entries l) ≡ none
        → length (entries l) < 4096
        → IsFree (ids_of r.project_ids ++ burned r.filesystem_uuid (entries l)) f
        → IsSafe c id r l (allocate c w id r.filesystem_uuid f l d)
    unfolding allocate
    allocate-IsSafe w exhausted own n p = unchanged no_identifier
    allocate-IsSafe w stuck own n p = unchanged no_identifier
    allocate-IsSafe w (free project) own n p =
        let e : Reservation = record {
          site_id = id;
          filesystem_uuid = r.filesystem_uuid;
          project_id = project;
        } in
        let (vacant, unburned) =
          ||_false (contains project (ids_of r.project_ids)) _
            (sym (contains-append project (ids_of r.project_ids) _) ∙ p.0) in
        let apart =
          All-both id r.filesystem_uuid project (entries l) (own_entry-none id (entries l) own)
            (burned-not r.filesystem_uuid project (entries l) unburned) in
        let wf : IsWellFormed e = record {
          site = valid_site;
          filesystem = sound.filesystem;
          project = omega (arith, p.1);
        } in
        append_entry-IsSafe e own refl refl vacant apart (extended-valid l e h.valid n wf apart) w

    -- Whatever the call answers, and wherever its write stops: the ledger on the disk is valid and keeps
    -- every earlier reservation; an answer is recorded in it, lies on the site's filesystem and is not in use
    -- there.
    pub reserve_in-IsSafe : (w : Write) → IsSafe c id r l (reserve_in c w id r l d)
    unfolding reserve_in
    reserve_in-IsSafe w = elim (Option-cases (own_entry id (entries l))) [
      | inl new ↦ elim (Bool-cases (leb 4096 (length (entries l)))) [
        | inl full ↦ rw (new, reserve_in) (rw full (unchanged too_many))
        | inr room ↦
            rw (new, reserve_in)
              (rw room (allocate-IsSafe w _ new (ground arith) (search-IsFree _)))
      ]
      | inr (e, old) ↦ elim (Bool-cases (moved r e)) [
        | inl gone ↦ rw (old, reserve_in) (rw gone (unchanged reservation_moved))
        | inr still ↦
            rw (old, reserve_in)
              (rw still (record {
                ledger = l;
                holds = h;
                grows = inl refl;
                granted =
                    λ f q. subst (Granted id r l) (ok-injective q) (own_entry-Granted e old still);
              }))
      ]
    ]

module _ (c : Codec) (w : World) (id : Text) (r : Inventory) (l : Ledger) (d : Disk)
    (rt : RoundTrips c) (h : Holds c d l) (sound : IsSound r) where
  if_IsSafe :
      (b : Bool) (x : ReserveError) (o : Result ReserveError Reservation × Disk)
      → (b ≡ false → IsSafe c id r l o)
      → IsSafe c id r l (if b then (err x, d) else o)
  if_IsSafe true x o k = unchanged c rt id r l d h x
  if_IsSafe false x o k = k refl

  with_ledger-IsSafe :
      (i : Result InventoryError Inventory)
      → w.inventory ≡ i
      → i ≡ ok r
      → valid_id id ≡ true
      → IsSafe c id r l (with_ledger c w id (ok l, d))
  unfolding with_ledger
  with_ledger-IsSafe (ok q) e i v =
      rw (e, with_ledger)
        (subst (λ x. IsSafe c id r l (reserve_in c w.write id x l d)) (sym (ok-injective i))
          (reserve_in-IsSafe c rt id r l d h v sound w.write))
  with_ledger-IsSafe (err x) e i v = cc

  locked-IsSafe :
      (lock : Option Bool)
      → w.inventory ≡ ok r
      → valid_id id ≡ true
      → IsSafe c id r l (elim lock [
        | none ↦ (err not_locked, d)
        | some fresh ↦ with_ledger c w id (load_ledger c w.setup fresh d)
      ])
  locked-IsSafe none i v = unchanged c rt id r l d h not_locked
  locked-IsSafe (some fresh) i v =
      rw (load_ledger-Holds c w.setup fresh d l h) (with_ledger-IsSafe w.inventory refl i v)

-- One call of the program on a registry in order.
pub reserve-IsSafe :
    (c : Codec) (w : World) (id : Text) (r : Inventory) (l : Ledger) (d : Disk)
    → RoundTrips c
    → Holds c d l
    → w.inventory ≡ ok r
    → IsSound r
    → IsSafe c id r l (reserve c w id d)
unfolding reserve
reserve-IsSafe c w id r l d rt h i sound =
    let guard = if_IsSafe c w id r l d rt h sound in
    guard (not (valid_id id)) invalid_site _ λ v. guard (not w.compose) no_compose _ λ _.
      guard (w.marker.marked || w.marker.failed) already_marked _
        λ _. locked-IsSafe c w id r l d rt h sound w.lock i (negation_lem (valid_id id) v)
