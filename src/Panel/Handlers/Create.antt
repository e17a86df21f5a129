-- ===== src/Panel/Handlers/Create.antt =====
-- cmd/panel/main.go: createSite.
use panel4wp.Prelude.{
  Bool, true, false, Option, none, List, [], ◌++◌, any, if◌then◌else◌, ◌==◌, text_eq, ℕ, Text,
  codes, Result, ok, err, is_ok, map_err, ok_or, fail_if, ◌>>=◌, ◌>>◌,
}
use panel4wp.Prelude.Int.{pos}
use panel4wp.Float.{Float}
use panel4wp.Strings.Space.{trim_space}
use panel4wp.Files.{File, Write}
use panel4wp.Core.Model.{
  Time, Site, Resources, ResourcePlan, BackupPolicy, HostCapacity, creating, running, failed,
}
use panel4wp.Core.Ids.{new_id, random_password}
use panel4wp.Core.Domain.{DomainError, normalize_domain}
use panel4wp.Core.Validate.{Invalid, validate_site}
use panel4wp.Core.Capacity.{Refusal, check}
use panel4wp.Store.{SitesCodec, put, list}
use panel4wp.Store.Plans.{PlanError}
use panel4wp.Panel.{Panel, note}
use panel4wp.Panel.Tracked.{Attempt, CallError, call_tracked}
use panel4wp.Panel.Forms.{FormError, chosen_resources}
use panel4wp.Panel.Handlers.{Form}
use panel4wp.Panel.Handlers.Safety.{error_of}

pub data CreateError : Type 0 where
  no_site_id unlisted taken no_capacity no_credentials : CreateError
  bad_site_domain : DomainError → CreateError
  bad_limits : FormError → CreateError
  bad_site : Invalid → CreateError
  no_room : Refusal → CreateError

-- What the creation of a site meets. The capacity is the worker's answer, if it gives one.
pub record CreateRun : Type 0 where
  pub form : Form
  pub id_bytes : Option (List ℕ)
  pub lower_unicode : Text → Text
  pub parse_float : Text → Option Float
  pub plans : Result PlanError (List ResourcePlan)
  pub now : Time
  pub capacity : Option HostCapacity
  pub database_bytes : Option (List ℕ)
  pub admin_bytes : Option (List ℕ)
  pub first : Write
  pub attempt : Attempt (Unit {0})
  pub last : Write

abbrev no_policy : BackupPolicy
no_policy = record {
  enabled = false;
  interval_hours = pos 0;
  retention = pos 0;
  next_run_at = 0;
  last_attempt_at = 0;
  last_success_at = 0;
  last_error = [];
}

-- The site of the form, in state creating.
abbrev site_of : CreateRun → Text → Text → Resources → Site
site_of run id domain limits = record {
  id = id;
  domain = domain;
  title = trim_space (run.form (codes "title"));
  admin_email = trim_space (run.form (codes "email"));
  memory_mb = limits.memory_mb;
  cpus = limits.cpus;
  status = creating;
  error = [];
  created_at = run.now;
  backups = [];
  backup_policy = no_policy;
  mail_enabled = false;
  operation = none;
  health_error = [];
  health_checked_at = 0;
}

abbrev domain_text : CreateRun → Text → Text
domain_text run id =
    let raw = run.form (codes "domain") in
    if trim_space raw == [] then id ++ codes ".localhost" else raw

-- The checks of the form.
unfoldable pub new_site : CreateRun → Result CreateError (Site × Resources)
new_site run = ok_or (new_id run.id_bytes) no_site_id >>= λ id.
    map_err bad_site_domain (normalize_domain run.lower_unicode (domain_text run id)) >>= λ domain.
    map_err bad_limits (chosen_resources run.parse_float run.plans run.form) >>= λ limits.
    map_err bad_site (validate_site run.lower_unicode (site_of run id domain limits)) >>= λ _.
    ok (site_of run id domain limits, limits)

abbrev pub has_domain : Text → Site → Bool
has_domain domain s = s.domain == domain

-- The checks against what is there: the domains of the listed sites and the room of the host.
unfoldable pub admit : CreateRun → List Site → Site × Resources → Result CreateError Site
admit run sites (site, limits) =
    fail_if (any (has_domain site.domain) sites) taken
    >> (ok_or run.capacity no_capacity >>= λ capacity.
        map_err no_room (check capacity limits) >>= λ _.
        ok_or (random_password run.database_bytes) no_credentials >>= λ _.
        ok_or (random_password run.admin_bytes) no_credentials >>= λ _. ok site)

-- All checks, up to the first write.
unfoldable pub admitted : SitesCodec → CreateRun → File → Result CreateError Site
unfolding new_site admit
admitted c run f = new_site run >>= λ made. elim (list c f) [
  | err e ↦ err unlisted
  | ok sites ↦ admit run sites made
]

pub data CreateReply : Type 0 where
  refused : CreateError → CreateReply
  new_not_stored : CreateReply
  create_failed : CallError → CreateReply
  created_not_stored created : CreateReply

-- The creation of a site that is stored.
unfoldable pub ask_create : SitesCodec → CreateRun → Site → Panel → CreateReply × Panel
ask_create c run site p =
    let (answer, called, f) = call_tracked c (codes "create") run.attempt site p.sites in
    elim answer [
      | err e ↦
          let broken : Site = record called { status = failed; error = error_of e } in
          (
            create_failed e,
            note (codes "create") called.id false (error_of e)
                (record p { sites = (put c run.last broken f).1 }),
          )
      | ok _ ↦
          let up : Site = record called { status = running; error = []; health_error = [] } in
          let (stored, f') = put c run.last up f in
          let q : Panel = record p { sites = f' } in
          if is_ok stored
          then (created, note (codes "create") up.id true [] q)
          else (created_not_stored, q)
    ]

-- createSite
unfoldable pub create_site : SitesCodec → CreateRun → Panel → CreateReply × Panel
unfolding admitted ask_create
create_site c run p = elim (admitted c run p.sites) [
  | err e ↦ (refused e, p)
  | ok site ↦
      let (stored, f) = put c run.first site p.sites in
      let q : Panel = record p { sites = f } in
      let asked = ask_create c run site q in if is_ok stored then asked else (new_not_stored, q)
]
