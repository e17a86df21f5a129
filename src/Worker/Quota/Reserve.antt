-- ===== src/Worker/Quota/Reserve.antt =====
-- cmd/worker/quota_registry.go: `reserveQuotaProject`, one call under the lock of the ledger.
pub mod Safety
pub mod Again
use panel4wp.Prelude.{
  ℕ, ◌+◌, ◌≤◌, ◌<◌, ◌≡◌, refl, Bool, true, false, not, ◌&&◌, ◌||◌, Option, none, some, List, [],
  ◌∷◌, ◌++◌, arith, leb, ltb, if◌then◌else◌, ◌==◌, nat_eq, text_eq, Text, any, map, contains,
  length, Result, ok, err, ◌>>=◌, ◌>>◌, map_err, select, length, Option-cases,
}
use panel4wp.Core.Ids.{valid_id}
use panel4wp.Files.{File, content, Write, written, atomic_config}
use panel4wp.Worker.Quota.Marker.{Marker}
use panel4wp.Worker.Quota.Inventory.{Inventory, InventoryError, ids_of}
use panel4wp.Worker.Quota.Ledger.{Reservation, Ledger, LedgerError, entries}
use panel4wp.Worker.Quota.Search.{Found, free, exhausted, stuck, search}
use panel4wp.Worker.Quota.Load.{Disk, Codec, Setup, load_ledger}

pub data ReserveError : Type 0 where
  invalid_site no_compose already_marked not_locked reservation_moved too_many no_identifier
        too_large not_written :
      ReserveError
  bad_ledger : LedgerError → ReserveError
  bad_inventory : InventoryError → ReserveError

-- What the call meets outside the registry: whether compose.yaml is there, the site's marker, the lock
-- (`none` if it fails, else whether the registry directory was made by this call), the initialisation,
-- the storage inventory and the fate of the last write.
pub record World : Type 0 where
  pub compose : Bool
  pub marker : Marker
  pub lock : Option Bool
  pub setup : Setup
  pub inventory : Result InventoryError Inventory
  pub write : Write

-- The site's own entry, the first in the ledger.
unfoldable pub own_entry : Text → List Reservation → Option Reservation
own_entry id [] = none
own_entry id (e ∷ es) = if e.site_id == id then some e else own_entry id es

-- The projects of the filesystem that the ledger has given away.
unfoldable pub burned : Text → List Reservation → List ℕ
burned uuid [] = []
burned uuid (e ∷ es) =
    if e.filesystem_uuid == uuid then e.project_id ∷ burned uuid es else burned uuid es

abbrev pub quota_ledger_limit : ℕ
quota_ledger_limit = 1_048_576

-- The new reservation is appended, and the whole ledger written.
append_entry : Codec → Write → Ledger → Reservation → Disk → Result ReserveError Reservation × Disk
append_entry c w l e d =
    let body = c.encode (record l { reservations = some (entries l ++ e ∷ []) }) in
    let (ledger', failed) = atomic_config w body d.ledger in
    if ltb quota_ledger_limit (length body)
    then (err too_large, d)
    else (if failed then err not_written else ok e, record d { ledger = ledger' })

allocate :
    Codec → Write → Text → Text → Found → Ledger → Disk → Result ReserveError Reservation × Disk
allocate c w id uuid exhausted l d = (err no_identifier, d)
allocate c w id uuid stuck l d = (err no_identifier, d)
allocate c w id uuid (free project) l d =
    append_entry c w l (record { site_id = id; filesystem_uuid = uuid; project_id = project }) d

-- With the ledger and the inventory at hand.
unfoldable pub reserve_in :
    Codec → Write → Text → Inventory → Ledger → Disk → Result ReserveError Reservation × Disk
unfolding allocate append_entry own_entry burned
reserve_in c w id inventory l d =
    let census = ids_of inventory.project_ids in
    let uuid = inventory.filesystem_uuid in
    elim (own_entry id (entries l)) [
      | some e ↦
          if not (e.filesystem_uuid == uuid) || contains e.project_id census
          then (err reservation_moved, d)
          else (ok e, d)
      | none ↦
          if leb 4096 (length (entries l))
          then (err too_many, d)
          else allocate c w id uuid (search (census ++ burned uuid (entries l))) l d
    ]

with_ledger :
    Codec → World → Text → Result LedgerError Ledger × Disk → Result ReserveError Reservation × Disk
with_ledger c w id (err e, d) = (err (bad_ledger e), d)
with_ledger c w id (ok l, d) = elim w.inventory [
  | err e ↦ (err (bad_inventory e), d)
  | ok inventory ↦ reserve_in c w.write id inventory l d
]

-- reserveQuotaProject
unfoldable pub reserve : Codec → World → Text → Disk → Result ReserveError Reservation × Disk
unfolding with_ledger
reserve c w id d =
    if not (valid_id id)
    then (err invalid_site, d)
    else if not w.compose
    then (err no_compose, d)
    else if w.marker.marked || w.marker.failed
    then (err already_marked, d)
    else elim w.lock [
      | none ↦ (err not_locked, d)
      | some fresh ↦ with_ledger c w id (load_ledger c w.setup fresh d)
    ]
