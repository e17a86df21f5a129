-- ===== src/Panel/Forms.antt =====
-- cmd/panel/resources.go: the limits that a form asks for, and the change of a site's limits.
use mathlib.Core.Path.{subst}
use panel4wp.Prelude.{
  ◌≡◌, Bool, true, false, not, ◌&&◌, ◌||◌, Option, List, [], ◌∷◌, if◌then◌else◌, ◌==◌, text_eq,
  Text, codes, has_prefix, trim_prefix, Result, ok, err, is_ok, map_err, ok_or, ◌>>=◌, Result-cases,
  ok-injective, inl, inr,
}
use panel4wp.Prelude.Int.{ℤ, pos, int_eq}
use panel4wp.Float.{Float, const, eq_f}
use panel4wp.Strings.Decimal.{atoi}
use panel4wp.Files.{Write}
use panel4wp.Core.Model.{Site, Resources, ResourcePlan, running, stopped}
use panel4wp.Core.Ids.{valid_id}
use panel4wp.Core.Validate.{Invalid, validate_resources, validate_resources-InRange, InRange}
use panel4wp.Store.{SitesCodec, put}
use panel4wp.Store.Plans.{PlanError}
use panel4wp.Panel.{Panel, note}
use panel4wp.Panel.Tracked.{Attempt, CallError, call_tracked}
use panel4wp.Panel.Handlers.{Form}
use panel4wp.Panel.Handlers.Safety.{error_of}

pub data FormError : Type 0 where
  bad_memory_text bad_cpu_text bad_plan plan_gone : FormError
  no_plans : PlanError → FormError
  out_of_range : Invalid → FormError

abbrev limits_of : ℤ → Float → Resources
limits_of m c = record { memory_mb = m; cpus = c }

abbrev small : Resources
small = limits_of (pos 384) (const 500_000_000)

abbrev standard : Resources
standard = limits_of (pos 768) (const 1_000_000_000)

abbrev large : Resources
large = limits_of (pos 1536) (const 2_000_000_000)

abbrev checked : Resources → Result FormError Resources
checked r = map_err out_of_range (validate_resources r) >>= λ _. ok r

abbrev custom : (Text → Option Float) → Form → Result FormError Resources
custom parse_float form = ok_or (atoi (form (codes "memory_mb"))) bad_memory_text >>= λ m.
    ok_or (parse_float (form (codes "cpus"))) bad_cpu_text >>= λ c. checked (limits_of m c)

-- formResources; strconv.ParseFloat is an argument.
unfoldable pub form_resources : (Text → Option Float) → Form → Result FormError Resources
form_resources parse_float form =
    let plan = form (codes "plan") in
    if plan == codes "small"
    then checked small
    else if plan == [] || plan == codes "standard"
    then checked standard
    else if plan == codes "large"
    then checked large
    else if plan == codes "custom"
    then custom parse_float form
    else err bad_plan

-- resourcePlan
unfoldable pub resource_plan : Resources → Text
resource_plan r =
    let is_r : Resources → Bool = λ o. r.memory_mb == o.memory_mb && eq_f r.cpus o.cpus in
    if is_r small
    then codes "small"
    else if is_r standard
    then codes "standard"
    else if is_r large
    then codes "large"
    else codes "custom"

unfoldable pub find_plan : Text → List ResourcePlan → Result FormError Resources
find_plan id [] = err plan_gone
find_plan id (p ∷ ps) = if p.id == id then checked p.resources else find_plan id ps

-- app.formResources, with the answer of ListResourcePlans
unfoldable pub chosen_resources :
    (Text → Option Float) → Result PlanError (List ResourcePlan) → Form → Result FormError Resources
unfolding form_resources find_plan
chosen_resources parse_float plans form =
    let value = form (codes "plan") in
    let id = trim_prefix value (codes "saved-") in
    let saved : Result FormError Resources =
      if not (valid_id id) then err bad_plan else map_err no_plans plans >>= find_plan id in
    if not (has_prefix value (codes "saved-")) then form_resources parse_float form else saved

pub data LimitsReply : Type 0 where
  unverified : LimitsReply
  bad_form : FormError → LimitsReply
  change_failed : CallError → LimitsReply
  inconsistent limits_not_stored limits_saved : LimitsReply

pub record LimitsRun : Type 0 where
  pub form : Form
  pub parse_float : Text → Option Float
  pub plans : Result PlanError (List ResourcePlan)
  pub attempt : Attempt Resources
  pub write : Write

abbrev note_limits : Site → Bool → Text → Panel → Panel
note_limits site success detail p = note (codes "resources") site.id success detail p

-- The end of saveResources, with what the worker has applied.
unfoldable pub store_limits :
    SitesCodec → LimitsRun → Resources → Resources → Site → Panel → LimitsReply × Panel
store_limits c run wanted applied site p =
    let next : Site = record site {
      memory_mb = applied.memory_mb;
      cpus = applied.cpus;
      error = [];
      health_error = [];
    } in
    let (stored, f) = put c run.write next p.sites in
    let q : Panel = record p { sites = f } in
    if not (applied.memory_mb == wanted.memory_mb && eq_f applied.cpus wanted.cpus)
    then (inconsistent, p)
    else if is_ok stored
    then (limits_saved, note_limits next true [] q)
    else (limits_not_stored, q)

-- saveResources
unfoldable pub save_resources : SitesCodec → LimitsRun → Site → Panel → LimitsReply × Panel
unfolding chosen_resources store_limits
save_resources c run site p =
    let ask : Resources → LimitsReply × Panel = λ limits.
      let (answer, called, f) = call_tracked c (codes "resources") run.attempt site p.sites in
      let q : Panel = record p { sites = f } in
      elim answer [
        | err e ↦ (change_failed e, note_limits site false (error_of e) q)
        | ok applied ↦ store_limits c run limits applied called q
      ] in
    if not (site.health_error == []) || not (site.status == running || site.status == stopped)
    then (unverified, p)
    else elim (chosen_resources run.parse_float run.plans run.form) [
      | err e ↦ (bad_form e, p)
      | ok limits ↦ ask limits
    ]

checked-InRange : (r limits : Resources) → checked r ≡ ok limits → InRange limits
checked-InRange r limits h = elim (Result-cases (validate_resources r)) [
  | inl (t, v) ↦ subst InRange (ok-injective (rw v at h)) (validate_resources-InRange r v)
  | inr (e, v) ↦ cc (rw v at h)
]
