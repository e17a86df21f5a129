-- ===== src/Worker/Quota/Inventory.antt =====
-- cmd/worker/quota_registry.go: what `storageInventory` demands of the output of its probe.
use mathlib.Core.Path.{subst}
use panel4wp.Prelude.{
  ℕ, ◌+◌, ◌%◌, ◌^◌, ◌≤◌, ◌<◌, ◌≡◌, Bool, true, false, not, ◌||◌, Option, none, some, List, [], ◌∷◌,
  arith, ltb, leb, if◌then◌else◌, ◌==◌, nat_eq, text_eq, Text, codes, length, Result, ok, err,
  fail_if, ◌>>◌, >>-eq-ok, Option-cases, inl, inr, ok-injective,
}
use panel4wp.Worker.Quota.Marker.{quota_uuid}

-- The numbers are uint64 and uint32; `none` is a slice that the JSON does not give.
pub record Inventory : Type 0 where
  pub verified : Bool
  pub reason : Text
  pub filesystem_uuid : Text
  pub scanned_inodes : ℕ
  pub wordpress_inodes : ℕ
  pub database_inodes : ℕ
  pub project_ids : Option (List ℕ)

pub data InventoryError : Type 0 where
  probe_failed undecodable incomplete overlapping invalid_census : InventoryError

abbrev pub ids_of : Option (List ℕ) → List ℕ
ids_of none = []
ids_of (some ids) = ids

abbrev is_none : Option (List ℕ) → Bool
is_none none = true
is_none (some ids) = false

-- The loop over the census, with the identifier before.
check_census : ℕ → List ℕ → Result InventoryError (Unit {0})
check_census previous [] = ok tt
check_census previous (id ∷ ids) =
    if id == 0 || leb id previous then err invalid_census else check_census id ids

unfoldable pub check_inventory : Inventory → Result InventoryError (Unit {0})
unfolding check_census
check_inventory r = do
  fail_if
      (not r.verified
        || not (r.reason == codes "verified")
        || not (quota_uuid r.filesystem_uuid)
        || r.scanned_inodes == 0
        || ltb 1_000_000 r.scanned_inodes
        || r.wordpress_inodes == 0
        || ltb 1_000_000 r.wordpress_inodes
        || r.database_inodes == 0
        || ltb 1_000_000 r.database_inodes
        || is_none r.project_ids
        || ltb 65536 (length (ids_of r.project_ids)))
      incomplete
  fail_if (ltb r.scanned_inodes ((r.wordpress_inodes + r.database_inodes) % 2 ^ 64)) overlapping
  check_census 0 (ids_of r.project_ids)

-- storageInventory: the probe's output, `none` if it failed, through the strict JSON decoder
unfoldable pub storage_inventory :
    (Text → Option Inventory) → Option Text → Result InventoryError Inventory
storage_inventory decode none = err probe_failed
storage_inventory decode (some out) = elim (decode out) [
  | none ↦ err undecodable
  | some r ↦ check_inventory r >> ok r
]

-- Each identifier is above the one before.
abbrev pub Increasing : ℕ → List ℕ → Type 0
Increasing previous [] = Unit
Increasing previous (id ∷ ids) = (previous < id) × Increasing id ids

check_census-Increasing :
    (previous : ℕ) (ids : List ℕ) → check_census previous ids ≡ ok tt → Increasing previous ids
unfolding check_census
check_census-Increasing previous [] h = tt
check_census-Increasing previous (id ∷ ids) h = ground (arith, check_census-Increasing id ids)

-- What an accepted inventory says: a well-formed filesystem, non-empty trees that do not overlap, and a
-- census without zero and without repetition.
pub record IsSound (r : Inventory) : Type 0 where
  pub filesystem : quota_uuid r.filesystem_uuid ≡ true
  pub wordpress : 0 < r.wordpress_inodes
  pub database : 0 < r.database_inodes
  pub disjoint : r.wordpress_inodes + r.database_inodes ≤ r.scanned_inodes
  pub census : Increasing 0 (ids_of r.project_ids)

pub check_inventory-IsSound : (r : Inventory) → check_inventory r ≡ ok tt → IsSound r
unfolding check_inventory
check_inventory-IsSound r h =
    let census = check_census-Increasing 0 (ids_of r.project_ids) in ground (arith, census)

-- Whatever the probe printed, an accepted inventory is sound.
pub storage_inventory-IsSound :
    (decode : Text → Option Inventory) (out : Option Text) {r : Inventory}
    → storage_inventory decode out ≡ ok r
    → IsSound r
unfolding storage_inventory
storage_inventory-IsSound decode none h = cc
storage_inventory-IsSound decode (some out) {r} h = elim (Option-cases (decode out)) [
  | inl e ↦ cc (rw (e, storage_inventory) at h)
  | inr (q, e) ↦
      let h' : (check_inventory q >> ok q) ≡ ok r = rw (e, storage_inventory) at h in
      let (c, k) = >>-eq-ok (check_inventory q) (ok q) h' in
      subst IsSound (ok-injective k) (check_inventory-IsSound q c)
]
