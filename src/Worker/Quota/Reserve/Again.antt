-- ===== src/Worker/Quota/Reserve/Again.antt =====
-- cmd/worker/quota_registry.go: theorems on repeated calls of `reserveQuotaProject`.
use panel4wp.Prelude.{
  ◌≡◌, refl, sym, ◌∙◌, ◌⊎◌, inl, inr, Bool, true, false, not, ◌||◌, Option, none, some, List, [],
  ◌∷◌, ◌++◌, if◌then◌else◌, ◌==◌, nat_eq, text_eq, Text, All, contains, Result, ok, err, Bool-cases,
  ==_refl,
}
use panel4wp.Core.Ids.{valid_id}
use panel4wp.Worker.Quota.Inventory.{Inventory, InventoryError, ids_of, IsSound}
use panel4wp.Worker.Quota.Ledger.{Reservation, Ledger, entries}
use panel4wp.Worker.Quota.Load.{Disk, Codec, load_ledger, load_ledger-Holds, Holds}
use panel4wp.Worker.Quota.Reserve.{
  World, own_entry, reserve_in, reserve, with_ledger, ReserveError, invalid_site, no_compose,
  already_marked, not_locked,
}
use panel4wp.Worker.Quota.Reserve.Safety.{RoundTrips, Grows, reserve-IsSafe}

-- Calls of reserveQuotaProject one after another, each for its own site and in its own world.
unfoldable pub reserve_all : Codec → List (World × Text) → Disk → Disk
reserve_all c [] d = d
reserve_all c ((w, id) ∷ calls) d = reserve_all c calls (reserve c w id d).1

-- The inventory of the storage fails, or is sound.
abbrev pub MeetsInventory : World × Text → Type 0
MeetsInventory (w, id) =
    ((x : InventoryError) × (w.inventory ≡ err x))
    ⊎ ((r : Inventory) × (w.inventory ≡ ok r) × IsSound r)

own_entry-kept :
    (id : Text) (es : List Reservation) (new : Reservation) {e : Reservation}
    → own_entry id es ≡ some e
    → own_entry id (es ++ new ∷ []) ≡ some e
unfolding own_entry
own_entry-kept id [] new h = cc
own_entry-kept id (f ∷ es) new h = elim (Bool-cases (f.site_id == id)) [
  | inl hit ↦ rw hit (rw hit at h)
  | inr miss ↦ rw miss (own_entry-kept id es new (rw miss at h))
]

Grows-kept :
    (id other : Text) (l l' : Ledger) {e : Reservation}
    → Grows other l l'
    → own_entry id (entries l) ≡ some e
    → own_entry id (entries l') ≡ some e
Grows-kept id other l l' (inl same) h = rw same h
Grows-kept id other l l' (inr (new, same, site, apart)) h =
    rw same (own_entry-kept id (entries l) new h)

if_same :
    (b : Bool) (x : ReserveError) (d : Disk) (o : Result ReserveError Reservation × Disk)
    → o.1 ≡ d
    → (if b then (err x, d) else o).1 ≡ d
if_same true x d o h = refl
if_same false x d o h = h

abbrev disk_of : Result ReserveError Reservation × Disk → Disk
disk_of o = o.1

locked_same :
    (c : Codec) (w : World) (id : Text) (l : Ledger) (d : Disk) {x : InventoryError}
    → Holds c d l
    → w.inventory ≡ err x
    → (lock : Option Bool)
    → disk_of (elim lock [
      | none ↦ (err not_locked, d)
      | some fresh ↦ with_ledger c w id (load_ledger c w.setup fresh d)
    ])
      ≡ d
unfolding with_ledger
locked_same c w id l d h i none = refl
locked_same c w id l d h i (some fresh) =
    rw (load_ledger-Holds c w.setup fresh d l h) (rw (i, with_ledger) refl)

reserve-same :
    (c : Codec) (w : World) (id : Text) (l : Ledger) (d : Disk) {x : InventoryError}
    → Holds c d l
    → w.inventory ≡ err x
    → (reserve c w id d).1 ≡ d
unfolding reserve
reserve-same c w id l d h i = if_same (not (valid_id id)) invalid_site d _ (
    if_same (not w.compose) no_compose d _ (
      if_same (w.marker.marked || w.marker.failed) already_marked d _
        (locked_same c w id l d h i w.lock)))

-- A registry in order that holds the site's reservation.
abbrev HoldsEntry : Codec → Disk → Text → Reservation → Type 0
HoldsEntry c d id e = (l : Ledger) × Holds c d l × (own_entry id (entries l) ≡ some e)

reserve_all-HoldsEntry :
    (c : Codec) (calls : List (World × Text)) (d : Disk) (id : Text) (e : Reservation)
    → RoundTrips c
    → All MeetsInventory calls
    → HoldsEntry c d id e
    → HoldsEntry c (reserve_all c calls d) id e
unfolding reserve_all
reserve_all-HoldsEntry c [] d id e rt meets h = h
reserve_all-HoldsEntry c ((w, other) ∷ calls) d id e rt (inl (x, failed), rest) (l, holds, own) =
    reserve_all-HoldsEntry c calls (reserve c w other d).1 id e rt rest
      (rw (reserve-same c w other l d holds failed) (l, holds, own))
reserve_all-HoldsEntry c ((w, other) ∷ calls) d id e rt (inr meets, rest) (l, holds, own) =
    let (r, inventory, sound) = meets in
    let safe = reserve-IsSafe c w other r l d rt holds inventory sound in
    reserve_all-HoldsEntry c calls (reserve c w other d).1 id e rt rest
      (safe.ledger, safe.holds, Grows-kept id other l safe.ledger safe.grows own)

reserve_in-again :
    (c : Codec) (w : World) (id : Text) (r : Inventory) (l : Ledger) (d : Disk) (e : Reservation)
    → own_entry id (entries l) ≡ some e
    → e.filesystem_uuid ≡ r.filesystem_uuid
    → contains e.project_id (ids_of r.project_ids) ≡ false
    → reserve_in c w.write id r l d ≡ (ok e, d)
unfolding reserve_in
reserve_in-again c w id r l d e own fs vacant =
    rw (own, reserve_in) (rw (fs, ==_refl r.filesystem_uuid, vacant) refl)

-- A world in which a call gets as far as the ledger, with this inventory.
pub record IsOpen (w : World) (r : Inventory) : Type 0 where
  pub compose : w.compose ≡ true
  pub unmarked : (w.marker.marked || w.marker.failed) ≡ false
  pub fresh : Bool
  pub locked : w.lock ≡ some fresh
  pub inventory : w.inventory ≡ ok r

reserve-stored :
    (c : Codec) (w : World) (id : Text) (r : Inventory) (d : Disk) (e : Reservation)
    → valid_id id ≡ true
    → IsOpen w r
    → HoldsEntry c d id e
    → e.filesystem_uuid ≡ r.filesystem_uuid
    → contains e.project_id (ids_of r.project_ids) ≡ false
    → reserve c w id d ≡ (ok e, d)
unfolding reserve with_ledger
reserve-stored c w id r d e v o (l, holds, own) fs vacant =
    rw (v, o.compose, o.unmarked, o.locked)
      (rw (load_ledger-Holds c w.setup o.fresh d l holds)
        (rw (o.inventory, with_ledger) (reserve_in-again c w id r l d e own fs vacant)))

reserve-valid_id :
    (c : Codec) (w : World) (id : Text) (d : Disk) {e : Reservation}
    → (reserve c w id d).0 ≡ ok e
    → valid_id id ≡ true
unfolding reserve
reserve-valid_id c w id d h = elim (Bool-cases (valid_id id)) [
  | inl good ↦ good
  | inr bad ↦ cc (rw bad at h)
]

-- If a call on a registry in order, with a sound inventory, answers with a reservation for a site, then
-- after any further calls, for whatever sites and however their inventories and writes end (an inventory
-- that is answered is sound), a call for the site that gets to the ledger, with an inventory of the same
-- filesystem in which the project is not in use, answers with the same reservation and changes nothing;
-- ledgers within the limit are read back as they were written.
pub reserve_again :
    (c : Codec) (w w' : World) (id : Text) (r r' : Inventory) (l : Ledger) (d : Disk)
    (e : Reservation) (calls : List (World × Text))
    → RoundTrips c
    → Holds c d l
    → w.inventory ≡ ok r
    → IsSound r
    → (reserve c w id d).0 ≡ ok e
    → All MeetsInventory calls
    → IsOpen w' r'
    → r'.filesystem_uuid ≡ r.filesystem_uuid
    → contains e.project_id (ids_of r'.project_ids) ≡ false
    → reserve c w' id (reserve_all c calls (reserve c w id d).1)
      ≡ (ok e, reserve_all c calls (reserve c w id d).1)
reserve_again c w w' id r r' l d e calls rt h i sound answered meets open_ fs vacant =
    let safe = reserve-IsSafe c w id r l d rt h i sound in
    let granted = safe.granted e answered in
    reserve-stored c w' id r' (reserve_all c calls (reserve c w id d).1) e
      (reserve-valid_id c w id d answered) open_
      (reserve_all-HoldsEntry c calls (reserve c w id d).1 id e rt meets
        (safe.ledger, safe.holds, granted.recorded))
      (granted.filesystem ∙ sym fs) vacant
