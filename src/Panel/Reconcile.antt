-- ===== src/Panel/Reconcile.antt =====
-- cmd/panel/runtime.go: reconcileRuntime, which asks the worker about every site and resolves the
-- operations whose answer was lost.
pub mod Resolved
use panel4wp.Prelude.{
  Bool, true, false, not, ◌&&◌, ◌||◌, Option, none, some, List, [], ◌∷◌, ◌++◌, any, if◌then◌else◌,
  ◌==◌, text_eq, nat_eq, Text, codes, Result, ok, err, is_ok, is_some, length, ℕ,
}
use panel4wp.Files.{File, Write}
use panel4wp.Core.Model.{
  Time, Site, Status, SiteRuntime, Resources, Operation, Backup, creating, running, stopped, failed,
  deleting, unhealthy, source_manual, source_scheduled, source_safety,
}
use panel4wp.Core.Validate.{Invalid, validate_resources}
use panel4wp.Store.{SitesCodec, StoreError, put, delete, list}
use panel4wp.Panel.{Panel, note}
use panel4wp.Panel.Tracked.{operation_pending, pending, succeeded}

-- visibleStatus
unfoldable pub visible_status : Site → Text
visible_status site =
    if not (site.health_error == [])
    then codes "unknown"
    else if operation_pending site
    then codes "busy"
    else site.status

-- How the call of /runtime ends: status 409, any other error, or a snapshot.
pub data Asked : Type 0 where
  busy : Asked
  unanswered : Text → Asked
  answered : SiteRuntime → Asked

pub data RuntimeError : Type 0 where
  no_sites not_stored : StoreError → RuntimeError
  invalid_status : RuntimeError
  invalid_limits : Invalid → RuntimeError
  not_checked : Text → RuntimeError

-- What the visit of one site meets.
pub record Visit : Type 0 where
  pub asked : Asked
  pub checked_at : Time
  pub write : Write

-- The loop goes on with the first error so far, or the function returns.
pub data Turn : Type 0 where
  go_on returned : Option RuntimeError → Panel → Turn

abbrev pub known_status : Status → Bool
known_status s = s == running || s == stopped || s == unhealthy

abbrev interrupted_error : Text
interrupted_error = codes "Operation was interrupted before a confirmed worker result."

abbrev interrupted : Operation → Operation
interrupted own = record own { state = codes "interrupted"; error = interrupted_error }

-- The operation that takes the place of a pending one: the receipt under the panel's own kind, if it is
-- this operation's.
unfoldable pub resolved : Option Operation → Operation → Operation
resolved none own = interrupted own
resolved (some receipt) own =
    if receipt.id == own.id then record receipt { kind = own.kind } else interrupted own

abbrev source_of : Text → Text
source_of kind =
    if kind == codes "scheduled-backup"
    then source_scheduled
    else if kind == codes "safety-backup"
    then source_safety
    else source_manual

abbrev add_copy : Text → Backup → List Backup → List Backup
add_copy kind copy bs =
    if any (λ (b : Backup). b.id == copy.id) bs
    then bs
    else bs ++ record copy { source = source_of kind } ∷ []

-- The copies of a site after its operation was resolved.
unfoldable pub confirmed_backups : Option Operation → Operation → List Backup → List Backup
confirmed_backups none own bs = bs
confirmed_backups (some receipt) own bs =
    let with_copy : List Backup = elim receipt.backup [
      | none ↦ bs
      | some copy ↦ if receipt.state == succeeded then add_copy own.kind copy bs else bs
    ] in
    if receipt.id == own.id then with_copy else bs

abbrev create_again : Text
create_again =
    codes
      "Site creation response was interrupted. Retry creation to finish installation and obtain a new WordPress administrator password. Existing data and database credentials are preserved."

abbrev inspect_change : Text
inspect_change =
    codes
      "A restore, update, or resource change was interrupted. Inspect the saved configuration and site before continuing; restore a retained safety backup if data recovery is needed."

abbrev changes : Text → Bool
changes kind = kind == codes "restore" || kind == codes "update" || kind == codes "resources"

-- The switch on the kind of the operation that was resolved.
unfoldable pub recovered : SiteRuntime → Operation → Site → Site
recovered snapshot op site =
    let good = op.state == succeeded in
    if op.kind == codes "create"
    then record site { status = failed; error = create_again }
    else if changes op.kind
    then record site {
      status = snapshot.status;
      error = if good then snapshot.detail else inspect_change;
    }
    else record site {
      status = snapshot.status;
      error =
          if good
          then snapshot.detail
          else op.error ++ codes " Inspect the site before trying the operation again.";
    }

-- A site without an unresolved operation.
unfoldable pub settled : SiteRuntime → Site → Site
settled snapshot site =
    let confirmed : Bool = elim site.operation [ none ↦ true | some op ↦ op.state == succeeded ] in
    if site.status == creating
    then record site {
      status = failed;
      error =
          codes
            "Site creation was interrupted. Retry creation to finish installation and obtain a new administrator password.";
    }
    else if site.status == deleting
    then record site {
      status = unhealthy;
      error =
          codes
            "Deletion was interrupted. Inspect the site, then confirm Delete again if required.";
    }
    else if site.status == failed
    then site
    else record site {
      status = snapshot.status;
      error = if confirmed then snapshot.detail else site.error;
    }

-- The limits that the worker has configured, which are checked.
unfoldable pub with_limits : Option Resources → Site → Result Invalid Site
with_limits none site = ok site
with_limits (some r) site = elim (validate_resources r) [
  | err e ↦ err e
  | ok _ ↦ ok (record site { memory_mb = r.memory_mb; cpus = r.cpus })
]

-- The end of the loop's body.
unfoldable pub store_visit : SitesCodec → Visit → Option RuntimeError → Site → Panel → Turn
store_visit c v first site p =
    let (stored, f) = put c v.write (record site { health_checked_at = v.checked_at }) p.sites in
    elim stored [
      | err e ↦ returned (some (not_stored e)) (record p { sites = f })
      | ok _ ↦ go_on first (record p { sites = f })
    ]

-- The last words of a confirmed deletion, or those of any other operation that was resolved.
unfoldable pub recover :
    SitesCodec → Visit → SiteRuntime → Option RuntimeError → Operation → Site → Panel → Turn
unfolding store_visit
recover c v snapshot first own site p =
    let op = resolved snapshot.operation own in
    let next : Site = record site {
      operation = some op;
      backups = confirmed_backups snapshot.operation own site.backups;
    } in
    let (removed, f) = delete c v.write next.id p.sites in
    let gone : Turn = elim removed [
      | err e ↦ returned (some (not_stored e)) (record p { sites = f })
      | ok _ ↦ go_on first (
          note (codes "operation-recovered") next.id true (codes "confirmed deletion")
            (record p { sites = f }))
    ] in
    if op.kind == codes "delete" && op.state == succeeded
    then gone
    else store_visit c v first (recovered snapshot op next) (
        note (codes "operation-recovered") next.id (op.state == succeeded)
          (op.kind ++ codes ": " ++ op.state) p)

-- A site whose snapshot was received.
unfoldable pub take_snapshot :
    SitesCodec → Visit → SiteRuntime → Option RuntimeError → Site → Panel → Turn
unfolding recover
take_snapshot c v snapshot first site p =
    let update : Turn = elim (with_limits snapshot.resources (record site { health_error = [] })) [
      | err e ↦ returned (some (invalid_limits e)) p
      | ok s ↦ elim s.operation [
        | none ↦ store_visit c v first (settled snapshot s) p
        | some own ↦
            if own.state == pending
            then recover c v snapshot first own s p
            else store_visit c v first (settled snapshot s) p
      ]
    ] in
    if known_status snapshot.status then update else returned (some invalid_status) p

abbrev not_available : Text
not_available =
    codes
      "Service status could not be checked. Refresh status after the worker and Docker are available."

abbrev keep_first : Option RuntimeError → RuntimeError → Option RuntimeError
keep_first none e = some e
keep_first (some first) e = some first

-- One turn of the loop.
unfoldable pub visit : SitesCodec → Visit → Option RuntimeError → Site → Panel → Turn
unfolding take_snapshot store_visit
visit c v first site p = elim v.asked [
  | busy ↦ returned none p
  | unanswered message ↦
      store_visit c v (keep_first first (not_checked message))
        (record site { health_error = not_available }) p
  | answered snapshot ↦ take_snapshot c v snapshot first site p
]

unfoldable pub visit_all :
    SitesCodec → (ℕ → Visit) → Option RuntimeError → List Site → Panel → Option RuntimeError × Panel
unfolding visit
visit_all c visits first [] p = (first, p)
visit_all c visits first (s ∷ ss) p = elim (visit c (visits (length ss)) first s p) [
  | returned e q ↦ (e, q)
  | go_on e q ↦ visit_all c visits e ss q
]

-- reconcileRuntime, under its lock
unfoldable pub reconcile_runtime : SitesCodec → (ℕ → Visit) → Panel → Option RuntimeError × Panel
reconcile_runtime c visits p = elim (list c p.sites) [
  | err e ↦ (some (no_sites e), p)
  | ok sites ↦ visit_all c visits none sites p
]
