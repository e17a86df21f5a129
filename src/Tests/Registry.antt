-- ===== src/Tests/Registry.antt =====
-- The project registry on concrete inputs. The codec writes a ledger of known entries as short marks.
use panel4wp.Prelude.{
  ◌≤◌, ◌≡◌, ◌≢◌, ◌↔◌, refl, true, false, [], ◌∷◌, arith, Text, codes, some, Option, ok, err, inl,
  inr, length, text_beq, is_some, replicate, nat_eq, text_eq,
}
use panel4wp.Strings.Decimal.{decimal}
use panel4wp.Core.Ids.{valid_id}
use panel4wp.Files.{content, written, failed_after}
use panel4wp.Worker.Quota.Marker.{absent, unmarked, quota_marked, quota_uuid, quota_marked-unmarked}
use panel4wp.Worker.Quota.Inventory.{
  Inventory, probe_failed, storage_inventory, check_inventory, IsSound, storage_inventory-IsSound,
}
use panel4wp.Worker.Quota.Ledger.{
  Reservation, Ledger, validate_ledger, validate_ledger_iff, entries, Distinct,
}
use panel4wp.Worker.Quota.Search.{Found, search, search_ends, search-IsFree, IsFree, stuck}
use panel4wp.Worker.Quota.Load.{Disk, Holds, sentinel_text, load_ledger}
use panel4wp.Worker.Quota.Reserve.{World, reserve, reserve_in, own_entry}
use panel4wp.Tests.Codec.{put_ledger, get_ledger, plain_codec, plain_codec-RoundTrips}
use panel4wp.Worker.Quota.Reserve.Safety.{IsSafe, reserve-IsSafe}
use panel4wp.Worker.Quota.Reserve.Again.{reserve_all, reserve_again}

abbrev uuid : Text
uuid = replicate 32 b'a'

abbrev shop_id : Text
shop_id = codes "0123456789abcdef"

abbrev census : Inventory
census = record {
  verified = true;
  reason = codes "verified";
  filesystem_uuid = uuid;
  scanned_inodes = 9;
  wordpress_inodes = 4;
  database_inodes = 3;
  project_ids = some (7 ∷ 1_000_000 ∷ []);
}

abbrev read_census : Text → Option Inventory
read_census out = some census

census_accepted : storage_inventory read_census (some []) ≡ ok census
unfolding storage_inventory check_inventory quota_uuid text_beq
census_accepted = refl

storage_inventory-IsSound_example : IsSound census
storage_inventory-IsSound_example = storage_inventory-IsSound read_census (some []) census_accepted

search_past_census : search (7 ∷ 1_000_000 ∷ 1_000_001 ∷ []) ≡ Found.free 1_000_002
unfolding search
search_past_census = refl

search_ends_example : search (1_000_000 ∷ []) ≢ stuck
search_ends_example = search_ends (1_000_000 ∷ [])

search-IsFree_example : IsFree (1_000_000 ∷ []) (search (1_000_000 ∷ []))
search-IsFree_example = search-IsFree (1_000_000 ∷ [])

abbrev first_entry : Reservation
first_entry = record { site_id = shop_id; filesystem_uuid = uuid; project_id = 1_000_001 }

abbrev one_entry : Ledger
one_entry = record { version = 1; reservations = some (first_entry ∷ []) }

validate_ledger_iff_example : (validate_ledger one_entry ≡ ok tt) ↔ (
    (one_entry.version ≡ 1)
    × (is_some one_entry.reservations ≡ true)
    × (length (entries one_entry) ≤ 4096)
    × Distinct [] (entries one_entry))
validate_ledger_iff_example = validate_ledger_iff one_entry

quota_marked-unmarked_example : (absent ≡ absent) × (absent ≡ absent)
unfolding quota_marked
quota_marked-unmarked_example = quota_marked-unmarked absent absent refl

abbrev stored_disk : Disk
stored_disk = record {
  ledger = content (plain_codec.encode one_entry);
  sentinel = content sentinel_text;
}

one_entry-valid : validate_ledger one_entry ≡ ok tt
unfolding validate_ledger valid_id quota_uuid decimal
one_entry-valid = refl

stored_disk-Holds : Holds plain_codec stored_disk one_entry
unfolding put_ledger
stored_disk-Holds = record {
  text = plain_codec.encode one_entry;
  stored = refl;
  sealed = refl;
  decoded = plain_codec-RoundTrips one_entry (omega arith);
  valid = one_entry-valid;
}

abbrev other_id : Text
other_id = codes "fedcba9876543210"

abbrev world : World
world = record {
  compose = true;
  marker = unmarked;
  lock = some false;
  setup = record { root = some []; sentinel_write = written; ledger_write = written };
  inventory = ok census;
  write = failed_after;
}

census-IsSound : IsSound census
census-IsSound = record {
  filesystem = unfold quota_uuid in refl;
  wordpress = omega arith;
  database = omega arith;
  disjoint = omega arith;
  census = omega arith;
}

reserve-IsSafe_example :
    IsSafe plain_codec other_id census one_entry (reserve plain_codec world other_id stored_disk)
reserve-IsSafe_example =
    reserve-IsSafe plain_codec world other_id census one_entry stored_disk plain_codec-RoundTrips
      stored_disk-Holds refl census-IsSound

abbrev lost_write : World × Text
lost_write = (world, other_id)

abbrev no_census : World × Text
no_census = (record world { inventory = err probe_failed }, other_id)

first_answer : (reserve plain_codec world shop_id stored_disk).0 ≡ ok first_entry
unfolding reserve reserve_in own_entry load_ledger text_beq valid_id put_ledger get_ledger
    validate_ledger quota_uuid decimal
first_answer = refl

-- Between the two calls, one for another site is stored but reported as failed, and one fails before.
reserve_again_example :
    reserve plain_codec world shop_id (
      reserve_all plain_codec
        (lost_write ∷ no_census ∷ [])
        (reserve plain_codec world shop_id stored_disk).1)
    ≡ (
      ok first_entry,
      reserve_all plain_codec
          (lost_write ∷ no_census ∷ [])
          (reserve plain_codec world shop_id stored_disk).1,
    )
reserve_again_example =
    reserve_again plain_codec world world shop_id census census one_entry stored_disk first_entry
      (lost_write ∷ no_census ∷ []) plain_codec-RoundTrips stored_disk-Holds refl census-IsSound
      first_answer (inr (census, refl, census-IsSound), (inl (_, refl), tt))
      (record { compose = refl; unmarked = refl; fresh = false; locked = refl; inventory = refl })
      refl refl
