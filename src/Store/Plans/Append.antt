-- ===== src/Store/Plans/Append.antt =====
-- internal/store/plans.go: theorems on PutResourcePlan followed by a read.
use panel4wp.Prelude.{
  ◌≡◌, inl, inr, refl, sym, ap, ◌∙◌, Bool, true, false, ◌||◌, some, List, [], ◌∷◌, ◌++◌, arith, ltb,
  leb, if◌then◌else◌, ◌==◌, text_eq, Text, ok, err, map_err, contains, any, length, length-append,
  ok-injective, Bool-cases, Option-cases, Result-cases, test_passed, >>-eq-ok, guard_passed,
}
use panel4wp.Strings.Case.{to_lower}
use panel4wp.Files.{
  File, missing, unreadable, content, Write, written, failed_before, failed_after, write_json,
}
use panel4wp.Core.Model.{ResourcePlan}
use panel4wp.Core.Validate.{validate_plan}
use panel4wp.Store.Plans.{
  CaseTables, PlansCodec, PlanError, check_plans, check_all, read_plans, put_plan, write_plans,
  clashes,
}

-- The name that readResourcePlans compares.
abbrev pub lower_name : CaseTables → ResourcePlan → Text
lower_name u p = to_lower u.lower p.name

abbrev pub repeats : CaseTables → ResourcePlan → ResourcePlan → Bool
repeats u p q = q.id == p.id || lower_name u q == lower_name u p

regroup : (a s b n r : Bool) → ((a || s) || (b || n)) || r ≡ (s || n) || ((a || b) || r)
regroup true s b n r = ground arith
regroup false s true n r = ground arith
regroup false s false n r = refl

-- One more plan at the end of an accepted list is refused exactly if it repeats an identifier or a
-- lower-case name.
check_plans-append :
    (u : CaseTables) (p : ResourcePlan) (seen names : List Text) (ps : List ResourcePlan)
    → validate_plan p ≡ ok tt
    → check_plans u seen names ps ≡ ok tt
    → check_plans u seen names (ps ++ p ∷ []) ≡ (
        if (contains p.id seen || contains (lower_name u p) names) || any (repeats u p) ps
        then err PlanError.duplicate
        else ok tt)
unfolding check_plans
check_plans-append u p seen names [] v h = rw v (ground arith)
check_plans-append u p seen names (q ∷ ps) v h =
    let (a, b) = >>-eq-ok (map_err PlanError.invalid (validate_plan q)) _ h in
    let (c, d) = test_passed (contains q.id seen || contains (lower_name u q) names) _ _ b in
    rw (a, c)
      (check_plans-append u p (q.id ∷ seen) (lower_name u q ∷ names) ps v d
        ∙ ap (λ t. if t then err PlanError.duplicate else ok tt)
            (regroup (q.id == p.id) (contains p.id seen) (lower_name u q == lower_name u p)
              (contains (lower_name u p) names) (any (repeats u p) ps)))

-- What is written is read back.
abbrev pub PlansRoundTrip : PlansCodec → Type 0
PlansRoundTrip c = (ps : List ResourcePlan) → c.decode (c.encode ps) ≡ some ps

write_plans-ok :
    (c : PlansCodec) (w : Write) (ps : List ResourcePlan) (f : File)
    → (write_plans c w ps f).0 ≡ ok tt
    → (write_plans c w ps f).1 ≡ content (c.encode ps)
unfolding write_plans write_json
write_plans-ok c written ps f h = refl
write_plans-ok c failed_before ps f h = cc
write_plans-ok c failed_after ps f h = refl

check_all-checked :
    (u : CaseTables) (ps : List ResourcePlan) {qs : List ResourcePlan}
    → check_all u ps ≡ ok qs
    → (check_plans u [] [] ps ≡ ok tt) × (qs ≡ ps)
unfolding check_all
check_all-checked u ps h =
    let (a, b) = guard_passed (ltb 30 (length ps)) PlanError.too_many _ h in
    let (c, d) = >>-eq-ok (check_plans u [] [] ps) _ b in (c, cc)

-- A list that was read passes the checks.
read_plans-checked :
    (u : CaseTables) (c : PlansCodec) (f : File) {ps : List ResourcePlan}
    → read_plans u c f ≡ ok ps
    → check_plans u [] [] ps ≡ ok tt
unfolding read_plans
read_plans-checked u c missing h = rw (sym (ok-injective h)) refl
read_plans-checked u c unreadable h = cc
read_plans-checked u c (content text) h = elim (Option-cases (c.decode text)) [
  | inl n ↦ cc (rw (n, read_plans) at h)
  | inr (ps, q) ↦
      let k : check_all u ps ≡ ok _ = rw (q, read_plans) at h in
      let (a, b) = check_all-checked u ps k in rw b a
]

check_all-append :
    (u : CaseTables) (p : ResourcePlan) (ps : List ResourcePlan)
    → validate_plan p ≡ ok tt
    → check_plans u [] [] ps ≡ ok tt
    → leb 30 (length ps) ≡ false
    → check_all u (ps ++ p ∷ [])
      ≡ (if any (repeats u p) ps then err PlanError.duplicate else ok (ps ++ p ∷ []))
unfolding check_all
check_all-append u p ps v k n =
    let le : ltb 30 (length (ps ++ p ∷ [])) ≡ false =
      rw (length-append ps (p ∷ [])) (ground arith) in
    rw (le, check_plans-append u p [] [] ps v k) (ground arith)

finish :
    (u : CaseTables) (c : PlansCodec) (w : Write) (p : ResourcePlan) (f : File)
    (ps : List ResourcePlan)
    → PlansRoundTrip c
    → validate_plan p ≡ ok tt
    → check_plans u [] [] ps ≡ ok tt
    → leb 30 (length ps) ≡ false
    → (write_plans c w (ps ++ p ∷ []) f).0 ≡ ok tt
    → read_plans u c (write_plans c w (ps ++ p ∷ []) f).1
      ≡ (if any (repeats u p) ps then err PlanError.duplicate else ok (ps ++ p ∷ []))
unfolding read_plans
finish u c w p f ps rt v k n h =
    rw (write_plans-ok c w (ps ++ p ∷ []) f h)
      (rw (rt (ps ++ p ∷ []), read_plans) (check_all-append u p ps v k n))

put_plan-step :
    (u : CaseTables) (c : PlansCodec) (w : Write) (p : ResourcePlan) (f : File)
    {ps : List ResourcePlan}
    → validate_plan p ≡ ok tt
    → read_plans u c f ≡ ok ps
    → put_plan u c w p f ≡ (
        if leb 30 (length ps)
        then (err PlanError.too_many, f)
        else if any (clashes u p) ps
        then (err PlanError.exists_already, f)
        else write_plans c w (ps ++ p ∷ []) f)
unfolding put_plan
put_plan-step u c w p f v r = rw (v, put_plan) (rw r refl)

put_plan-valid :
    (u : CaseTables) (c : PlansCodec) (w : Write) (p : ResourcePlan) (f : File)
    → (put_plan u c w p f).0 ≡ ok tt
    → validate_plan p ≡ ok tt
unfolding put_plan
put_plan-valid u c w p f h = elim (Result-cases (validate_plan p)) [
  | inl (tt, v) ↦ v
  | inr (e, v) ↦ cc (rw (v, put_plan) at h)
]

-- After a PutResourcePlan that succeeded, the file is read as the old plans with the new one at the
-- end, unless the new name has the lower case of an old one: then that read reports a duplicate.
pub put_plan-read_plans :
    (u : CaseTables) (c : PlansCodec) (w : Write) (p : ResourcePlan) (f : File)
    {ps : List ResourcePlan}
    → PlansRoundTrip c
    → read_plans u c f ≡ ok ps
    → (put_plan u c w p f).0 ≡ ok tt
    → read_plans u c (put_plan u c w p f).1
      ≡ (if any (repeats u p) ps then err PlanError.duplicate else ok (ps ++ p ∷ []))
put_plan-read_plans u c w p f {ps} rt r h =
    let v = put_plan-valid u c w p f h in
    let step = put_plan-step u c w p f v r in
    let h' = ap (λ r. r.0) (sym step) ∙ h in
    elim (Bool-cases (leb 30 (length ps))) [
      | inl l ↦ cc (rw l at h')
      | inr l ↦ elim (Bool-cases (any (clashes u p) ps)) [
        | inl m ↦ cc (rw (l, m) at h')
        | inr m ↦
            rw step (
              rw (l, m) (finish u c w p f ps rt v (read_plans-checked u c f r) l (rw (l, m) at h')))
      ]
    ]
