-- ===== src/Worker/Receipts/Snapshot.antt =====
-- cmd/worker/runtime.go: runtimeSnapshot, the status of a site that the panel asks for.
use panel4wp.Prelude.{
  ltb, length, ◌*◌, Bool, true, false, not, ◌&&◌, ◌||◌, Option, none, some, List, [], ◌∷◌, ◌++◌,
  if◌then◌else◌, ◌==◌, text_eq, Text, codes, Result, ok, err, nat_eq,
}
use panel4wp.Prelude.Int.{ℤ, pos, int_eq, ◌*ℤ◌, wrap64}
use panel4wp.Float.{Float, nano}
use panel4wp.Files.{File}
use panel4wp.Core.Ids.{valid_id}
use panel4wp.Core.Model.{Operation, Resources, SiteRuntime, Status, running, stopped, unhealthy}
use panel4wp.SecurityPolicy.{active}
use panel4wp.Worker.Docker.{project_of}
use panel4wp.Worker.Compose.{FloatText, no_file, unusable, configured, configured_resources}
use panel4wp.Worker.Quota.Marker.{Lstat, absent, present, unreadable}
use panel4wp.Worker.Quota.Intent.{load_quota_intent}
use panel4wp.Worker.Quota.Guard.{Guard, marked_in, load_quota_guard}
use panel4wp.Worker.Receipts.{ReceiptError, load_operation}
use panel4wp.Worker.Receipts.Quiesce.{World, Machine}
use panel4wp.Worker.Receipts.Recover.{is_pending, interrupt, interrupted}

-- containerState
pub record ContainerState : Type 0 where
  pub name : Text
  pub project : Text
  pub service : Text
  pub status : Text
  pub health : Text
  pub memory : ℤ
  pub cpus : ℤ
  pub restart : Text
  pub security_opts : List Text

-- What a snapshot reads beside what the machine has. `states` is `docker inspect`, decoded up to an object
-- that does not parse, and whether there is one; `route` is os.Stat of the site's route.
pub record View (D : Type 0) : Type 0 where
  pub text : FloatText
  pub compose : Text → File
  pub states : List Text → D → Option (List ContainerState × Bool)
  pub decode_guard : Text → Option Guard
  pub normal : Text → Option Text
  pub profile : Text
  pub route : Text → Lstat

pub data SnapshotError : Type 0 where
  invalid_site unconfigured not_at_rest docker_failed too_many bad_response route_failed :
      SnapshotError
  receipt_failed : ReceiptError → SnapshotError

-- The status and its words.
abbrev pub Look : Type 0
Look = Status × Text

-- The last state of a site's own container of a service.
unfoldable pub last_state : Text → Text → Text → List ContainerState → Option ContainerState
last_state id service prefix [] = none
last_state id service prefix (s ∷ ss) =
    let rest = last_state id service prefix ss in
    let own = s.project == project_of id && s.service == service && s.name == prefix ++ id in
    elim rest [ some later ↦ some later | none ↦ if own then some s else none ]

abbrev is_healthy : ContainerState → Bool
is_healthy s = s.status == codes "running" && (s.health == [] || s.health == codes "healthy")

abbrev is_off : ContainerState → Bool
is_off s = s.status == codes "exited" || s.status == codes "created"

abbrev states_text : ContainerState → ContainerState → Text
states_text wp db =
    codes "WordPress: "
    ++ (wp.status
        ++ (codes " "
            ++ (wp.health
                ++ (codes "; database: "
                    ++ (db.status
                        ++ (codes " "
                            ++ (db.health
                                ++ codes
                                    ". Start the site and inspect its logs if the problem persists.")))))))

unfoldable pub base_look : ContainerState → ContainerState → Look
base_look wp db =
    if is_healthy wp && is_healthy db
    then (running, [])
    else if is_off wp && is_off db
    then (stopped, [])
    else (unhealthy, states_text wp db)

abbrev is_steady : Look → Bool
is_steady l = l.0 == running || l.0 == stopped

-- int64(r.CPUs * 1e9), for the finite values that were validated.
abbrev nano_cpus : Float → ℤ
nano_cpus (nano c) = c
nano_cpus _ = pos 0

abbrev differs : Resources → ContainerState → Bool
differs r s =
    not (s.memory == wrap64 (r.memory_mb *ℤ pos (1024 * 1024))) || not (s.cpus == nano_cpus r.cpus)

unfoldable pub look_limits : Option Resources → ContainerState → ContainerState → Look → Look
look_limits none wp db l = l
look_limits (some r) wp db l =
    if is_steady l && (differs r wp || differs r db)
    then (
      unhealthy,
      codes
          "Configured resources differ from Docker limits. Start the site to apply its saved configuration.",
    )
    else l

unfoldable pub look_policy :
    (Text → Option Text) → Text → ContainerState → ContainerState → Look → Look
look_policy normal profile wp db l =
    if is_steady l
      && (not (active normal profile wp.security_opts)
          || not (active normal profile db.security_opts))
    then (
      unhealthy,
      codes
          "Site services need the current writer security policy. Start the site to apply it with existing volumes.",
    )
    else l

abbrev no_guard : {E : Type 0} → Result E (Option Guard) → Bool
no_guard (ok (some g)) = false
no_guard (ok none) = true
no_guard (err e) = true

unfoldable pub look_quota :
    {D : Type 0}
    → Machine D
    → View D
    → Text
    → World D
    → ContainerState
    → ContainerState
    → Look
    → Look
look_quota m v id w wp db l =
    let mark = marked_in id (m.quota id) in
    let guard = load_quota_guard v.decode_guard id (m.quota id) in
    let blocked : Bool = elim (load_quota_intent m.intent_codec (w.intents id)) [
      | err e ↦ true
      | ok intent ↦ intent.state == codes "blocked"
    ] in
    if (mark.marked || mark.failed)
      && (mark.failed
          || no_guard guard
          || blocked
          || not (wp.restart == codes "no")
          || not (db.restart == codes "no"))
    then (
      unhealthy,
      codes
          "Quota startup is blocked. Verify storage and the saved quota record, then explicitly start the site.",
    )
    else l

unfoldable pub look_route : Lstat → Look → Result SnapshotError Look
look_route route l =
    let looked : Result SnapshotError Look = elim route [
      | present ↦ ok l
      | absent ↦
          ok (unhealthy, codes "Domain route is missing. Inspect the server route configuration.")
      | unreadable ↦ err route_failed
    ] in
    if l.0 == running then looked else ok l

-- The status of a site whose two containers were found.
unfoldable pub look_at :
    {D : Type 0}
    → Machine D
    → View D
    → Text
    → Option Resources
    → World D
    → ContainerState
    → ContainerState
    → Result SnapshotError Look
unfolding base_look look_limits look_policy look_quota look_route
look_at m v id limits w wp db = look_route (v.route id) (
    look_quota m v id w wp db
      (look_policy v.normal v.profile wp db (look_limits limits wp db (base_look wp db))))

-- The containers of `docker ps`.
unfoldable pub look_among :
    {D : Type 0}
    → Machine D
    → View D
    → Text
    → Option Resources
    → World D
    → List Text
    → Result SnapshotError Look
unfolding look_at last_state
look_among m v id limits w [] = ok (
  unhealthy,
  codes "Site containers are missing. Start the site to recreate services with existing volumes.",
)
look_among m v id limits w (i ∷ is) =
    let found : List ContainerState → Result SnapshotError Look = λ ss.
      elim (last_state id (codes "wordpress") (codes "/wph-wp-") ss) [
        | none ↦ ok (
          unhealthy,
          codes "A site service is missing. Start the site to recreate it with existing volumes.",
        )
        | some wp ↦ elim (last_state id (codes "db") (codes "/wph-db-") ss) [
          | none ↦ ok (
            unhealthy,
            codes "A site service is missing. Start the site to recreate it with existing volumes.",
          )
          | some db ↦ look_at m v id limits w wp db
        ]
      ] in
    if ltb 20 (length (i ∷ is)) then err too_many else elim (v.states (i ∷ is) w.daemon) [
      | none ↦ err docker_failed
      | some (ss, broken) ↦ if broken then err bad_response else found ss
    ]

-- The part of runtimeSnapshot that only reads, from the call of `docker ps` on.
unfoldable pub look :
    {D : Type 0}
    → Machine D
    → View D
    → Text
    → Option Resources
    → Option Operation
    → World D
    → Result SnapshotError SiteRuntime
unfolding look_among
look m v id limits op w = elim (m.docker.ps (project_of id) w.daemon) [
  | none ↦ err docker_failed
  | some is ↦ elim (look_among m v id limits w is) [
    | err e ↦ err e
    | ok (status, detail) ↦
        ok (record { status = status; detail = detail; operation = op; resources = limits })
  ]
]

abbrev pub restarted : Text
restarted = codes "Worker restarted before the operation finished."

-- The receipt of the site, which is settled first if it is pending.
unfoldable pub settle_receipt :
    {D : Type 0}
    → Machine D
    → Text
    → Bool
    → World D
    → Result SnapshotError (Option Operation) × World D
settle_receipt {D} m id recover w = elim (load_operation m.receipt_codec (w.receipts id)) [
  | err e ↦ (err (receipt_failed e), w)
  | ok none ↦ (ok none, w)
  | ok (some op) ↦
      let (w', failed) = interrupt m id restarted op w in
      let settled : Result SnapshotError (Option Operation) × World D =
        if failed
        then (err not_at_rest, w')
        else (ok (some (interrupted restarted m.now op)), w') in
      if recover && is_pending (some op) then settled else (ok (some op), w)
]

unfoldable pub snapshot_with :
    {D : Type 0}
    → Machine D
    → View D
    → Text
    → Bool
    → Option Resources
    → World D
    → Result SnapshotError SiteRuntime × World D
unfolding settle_receipt look
snapshot_with m v id recover limits w =
    let (answer, w') = settle_receipt m id recover w in
    (elim answer [ err e ↦ err e | ok op ↦ look m v id limits op w' ], w')

-- runtimeSnapshot
unfoldable pub runtime_snapshot :
    {D : Type 0}
    → Machine D
    → View D
    → Text
    → Bool
    → World D
    → Result SnapshotError SiteRuntime × World D
unfolding snapshot_with
runtime_snapshot {D} m v id recover w =
    let taken : Result SnapshotError SiteRuntime × World D =
      elim (configured_resources v.text id (v.compose id)) [
        | unusable ↦ (err unconfigured, w)
        | no_file ↦ snapshot_with m v id recover none w
        | configured r ↦ snapshot_with m v id recover (some r) w
      ] in
    if valid_id id then taken else (err invalid_site, w)
