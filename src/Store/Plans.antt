-- ===== src/Store/Plans.antt =====
-- internal/store/plans.go: the named resource plans, in a file of their own.
pub mod Append
use panel4wp.Prelude.{
  ℕ, ◌+◌, ◌≤◌, ◌<◌, ◌≡◌, ◌≢◌, ◌↔◌, ◌⊎◌, inl, inr, refl, sym, ap, ◌∙◌, Bool, true, false, not, ◌&&◌,
  ◌||◌, Option, none, some, List, [], ◌∷◌, ◌++◌, arith, ltb, leb, if◌then◌else◌, ◌==◌, text_eq,
  text_beq_iff, Text, Result, ok, err, ◌>>=◌, ◌>>◌, fail_if, map_err, contains, any, select, length,
  is_ok, All, length-append, Bool-cases, contains-append, ||_false, test_passed, >>-eq-ok, ==_refl,
  guard_passed,
}
use panel4wp.Strings.Case.{to_lower, equal_fold}
use panel4wp.Files.{
  File, missing, unreadable, content, Write, written, failed_before, failed_after, write_json,
}
use panel4wp.Core.Ids.{valid_id}
use panel4wp.Core.Model.{ResourcePlan}
use panel4wp.Core.Validate.{Invalid, validate_plan}

pub data PlanError : Type 0 where
  unreadable_plans undecodable too_many duplicate exists_already unknown_plan bad_id not_written :
      PlanError
  invalid : Invalid → PlanError

pub record PlansCodec : Type 0 where
  pub decode : Text → Option (List ResourcePlan)
  pub encode : List ResourcePlan → Text

-- What Go's Unicode tables say of texts that are not ASCII, for ToLower and for EqualFold.
pub record CaseTables : Type 0 where
  pub lower : Text → Text
  pub fold : Text → Text → Bool

-- The loop of readResourcePlans, with the identifiers and the lower-case names seen.
unfoldable pub check_plans :
    CaseTables → List Text → List Text → List ResourcePlan → Result PlanError (Unit {0})
check_plans u seen names [] = ok tt
check_plans u seen names (p ∷ ps) =
    map_err invalid (validate_plan p)
    >> (if contains p.id seen || contains (to_lower u.lower p.name) names
        then err duplicate
        else check_plans u (p.id ∷ seen) (to_lower u.lower p.name ∷ names) ps)

unfoldable pub check_all : CaseTables → List ResourcePlan → Result PlanError (List ResourcePlan)
check_all u plans = do fail_if (ltb 30 (length plans)) too_many; check_plans u [] [] plans; ok plans

-- readResourcePlans, and ListResourcePlans
unfoldable pub read_plans : CaseTables → PlansCodec → File → Result PlanError (List ResourcePlan)
unfolding check_plans check_all
read_plans u c missing = ok []
read_plans u c unreadable = err unreadable_plans
read_plans u c (content text) = elim (c.decode text) [
  | none ↦ err undecodable
  | some plans ↦ check_all u plans
]

unfoldable pub clashes : CaseTables → ResourcePlan → ResourcePlan → Bool
clashes u p q = q.id == p.id || equal_fold u.fold q.name p.name

unfoldable pub write_plans :
    PlansCodec → Write → List ResourcePlan → File → Result PlanError (Unit {0}) × File
write_plans c w plans f =
    let (f', failed) = write_json w (c.encode plans) f in
    (if failed then err not_written else ok tt, f')

-- Store.PutResourcePlan
unfoldable pub put_plan :
    CaseTables → PlansCodec → Write → ResourcePlan → File → Result PlanError (Unit {0}) × File
unfolding clashes
put_plan u c w p f = elim (validate_plan p) [
  | err e ↦ (err (invalid e), f)
  | ok _ ↦ elim (read_plans u c f) [
    | err e ↦ (err e, f)
    | ok plans ↦
        if leb 30 (length plans)
        then (err too_many, f)
        else if any (clashes u p) plans
        then (err exists_already, f)
        else write_plans c w (plans ++ p ∷ []) f
  ]
]

-- Store.DeleteResourcePlan
unfoldable pub delete_plan :
    CaseTables → PlansCodec → Write → Text → File → Result PlanError (Unit {0}) × File
delete_plan u c w id f = if not (valid_id id) then (err bad_id, f) else elim (read_plans u c f) [
  | err e ↦ (err e, f)
  | ok plans ↦
      if not (any (λ p. p.id == id) plans)
      then (err unknown_plan, f)
      else write_plans c w (select (λ p. not (p.id == id)) plans) f
]
