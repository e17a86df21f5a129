-- ===== src/Worker/Receipts/Quiesce.antt =====
-- cmd/worker/runtime.go: quiesceSite, which ends whatever an operation may have left running.
use panel4wp.Prelude.{
  Bool, true, false, ◌&&◌, ◌||◌, Option, none, some, List, ◌++◌, any, if◌then◌else◌, ◌==◌, text_eq,
  Text, codes, ◌≡◌, refl, inl, inr, Bool-cases,
}
use panel4wp.Files.{File, missing, Write}
use panel4wp.Core.Model.{Time}
use panel4wp.Worker.Docker.{Docker, project_of}
use panel4wp.Worker.Docker.Jobs.{remove_owned_jobs}
use panel4wp.Worker.Quota.Intent.{IntentCodec}
use panel4wp.Worker.Quota.Guard.{GuardFiles, marked_in}
use panel4wp.Worker.Quota.Fence.{fence_quota_site}
use panel4wp.Worker.Receipts.{ReceiptCodec, Receipts}

-- A line of `docker ps` about a running service.
pub record Service : Type 0 where
  pub name : Text
  pub project : Text
  pub service : Text

-- The daemon, and the files that these calls write: the receipts and the intents of the sites.
pub record World (D : Type 0) : Type 0 where
  pub daemon : D
  pub receipts : Receipts
  pub intents : Text → File

-- What the calls find, and how their writes end. `services` is `docker ps` with a project's label,
-- decoded up to a line that does not parse, and whether there is one.
pub record Machine (D : Type 0) : Type 0 where
  pub docker : Docker D
  pub services : Text → D → Option (List Service × Bool)
  pub intent_codec : IntentCodec
  pub receipt_codec : ReceiptCodec
  pub quota : Text → GuardFiles
  pub intent_write : Text → Write
  pub receipt_write : Text → Write
  pub now : Time

-- A service that the site's own labels and names show.
abbrev is_service : Text → Text → Text → Service → Bool
is_service id service prefix s =
    s.project == project_of id && s.service == service && s.name == prefix ++ id

-- docker stop, of a service that runs
unfoldable pub stop_if : {D : Type 0} → Machine D → Bool → Text → D → D × Bool
stop_if m running name d =
    let stopped = m.docker.stop name d in if running then stopped else (d, false)

unfoldable pub stop_services : {D : Type 0} → Machine D → Text → List Service → D → D × Bool
unfolding stop_if
stop_services m id ss d =
    let (d', failed) =
      stop_if m (any (is_service id (codes "wordpress") (codes "wph-wp-")) ss)
        (codes "wph-wp-" ++ id) d in
    let rest =
      stop_if m (any (is_service id (codes "db") (codes "wph-db-")) ss) (codes "wph-db-" ++ id)
        d' in
    if failed then (d', true) else rest

abbrev pub stops_site : Text → Bool
stops_site kind =
    kind == codes "restore"
    || kind == codes "update"
    || kind == codes "backup"
    || kind == codes "prepare-restore"
    || kind == codes "resources"

-- A site without a quota.
unfoldable pub quiesce_unmarked : {D : Type 0} → Machine D → Text → Text → D → D × Bool
unfolding stop_services
quiesce_unmarked {D} m id kind d =
    let (cleared, failed) = remove_owned_jobs m.docker id d in
    let stopped : D × Bool = elim (m.services (project_of id) cleared) [
      | none ↦ (cleared, true)
      | some (ss, broken) ↦ if broken then (cleared, true) else stop_services m id ss cleared
    ] in
    if failed then (cleared, true) else if stops_site kind then stopped else (cleared, false)

-- quiesceSite: the world afterwards, and whether it failed.
unfoldable pub quiesce_site : {D : Type 0} → Machine D → Text → Text → World D → World D × Bool
unfolding quiesce_unmarked
quiesce_site {D} m id kind w =
    let mark = marked_in id (m.quota id) in
    let (h, fence_failed) =
      fence_quota_site m.docker m.intent_codec (m.intent_write id) id (codes "blocked")
        (record { daemon = w.daemon; intent = w.intents id; compose = missing }) in
    let fenced : World D × Bool = (
      record w { daemon = h.daemon; intents = λ j. if id == j then h.intent else w.intents j },
      fence_failed,
    ) in
    let (d, failed) = quiesce_unmarked m id kind w.daemon in
    if mark.marked || mark.failed then fenced else (record w { daemon = d }, failed)

-- No receipt is changed.
pub quiesce_site-receipts :
    {D : Type 0} (m : Machine D) (id kind : Text) (w : World D)
    → (quiesce_site m id kind w).0.receipts ≡ w.receipts
unfolding quiesce_site
quiesce_site-receipts m id kind w =
    let mark = marked_in id (m.quota id) in
    elim (Bool-cases (mark.marked || mark.failed)) [
      | inl quota ↦ rw (quota, quiesce_site) refl
      | inr none_here ↦ rw (none_here, quiesce_site) refl
    ]
