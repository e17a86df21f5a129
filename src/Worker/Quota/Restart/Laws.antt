-- ===== src/Worker/Quota/Restart/Laws.antt =====
-- cmd/worker/quota_restart.go: theorems on quotaRestartCompose.
use mathlib.Core.Path.{subst}
use panel4wp.Prelude.{
  ◌≡◌, ◌⊎◌, inl, inr, refl, sym, ap, ◌∙◌, Bool, true, false, not, ◌&&◌, arith, List, [], ◌∷◌,
  if◌then◌else◌, ◌==◌, nat_eq, text_eq, text_beq, Text, ok, has_prefix, split, join, test_passed,
  Result-cases, Bool-cases, All, negation_lem, IsPart, split-IsPart, split-join, split-cons,
  eq_of_==, ok-injective,
}
use panel4wp.Worker.Quota.Restart.{
  newline, section_after, unless_stopped, no_restart, is_restart, is_known, RestartError, Walk,
  add_line, add_hit, walk, has_policies, quota_restart_compose,
}

known_cases : (l : Text) → is_known l ≡ true → (l ≡ unless_stopped) ⊎ (l ≡ no_restart)
known_cases l h = elim (Bool-cases (l == unless_stopped)) [
  | inl k ↦ inl (eq_of_== l unless_stopped k)
  | inr k ↦ inr (eq_of_== l no_restart (rw k at h))
]

section_after-known : (l section : Text) → is_known l ≡ true → section_after l section ≡ section
unfolding section_after has_prefix
section_after-known l section h = elim (known_cases l h) [ inl k ↦ rw k refl | inr k ↦ rw k refl ]

section_after-no_restart : (section : Text) → section_after no_restart section ≡ section
unfolding section_after has_prefix
section_after-no_restart section = refl

-- The line that a line becomes.
abbrev pub turned_off : Text → Text → Text
turned_off section l = if is_restart (section_after l section) l then no_restart else l

-- A line that is not refused and its replacement open the same section and are both restart lines or not.
same_section :
    (l section : Text)
    → (is_restart (section_after l section) l && not (is_known l)) ≡ false
    → section_after (turned_off section l) section ≡ section_after l section
same_section l section h = elim (Bool-cases (is_restart (section_after l section) l)) [
  | inl hit ↦ rw hit (
      section_after-no_restart section
      ∙ sym (section_after-known l section (negation_lem (is_known l) (rw hit at h))))
  | inr miss ↦ rw miss refl
]

-- Every restart line of the two services says "no".
abbrev pub RestartsOff : Text → List Text → Type 0
RestartsOff section [] = Unit
RestartsOff section (l ∷ ls) =
    (is_restart (section_after l section) l ≡ true → l ≡ no_restart)
    × RestartsOff (section_after l section) ls

-- The lines with the restarts turned off, and all else as it was.
abbrev pub turn_off : Text → List Text → List Text
turn_off section [] = []
turn_off section (l ∷ ls) = turned_off section l ∷ turn_off (section_after l section) ls

same_hit :
    (now l : Text) → is_restart now (if is_restart now l then no_restart else l) ≡ is_restart now l
unfolding has_prefix
same_hit now l = elim (Bool-cases (is_restart now l)) [
  | inl hit ↦ rw hit (ground (arith, hit))
  | inr miss ↦ rw miss miss
]

abbrev refuses : Text → Text → Bool
refuses now l = is_restart now l && not (is_known l)

same_line :
    (now l : Text) (w : Walk)
    → add_line now (if is_restart now l then no_restart else l) w ≡ add_line now l w
same_line now l w = elim (Bool-cases (is_restart now l)) [
  | inl hit ↦
      let off : is_restart now no_restart ≡ true =
        ap (λ b. is_restart now (if b then no_restart else l)) (sym hit) ∙ same_hit now l ∙ hit in
      ap (λ b. add_line now (if b then no_restart else l) w) hit
      ∙ ap (λ b. add_hit b now no_restart w) off
      ∙ ap (λ b. add_hit b now l w) (sym hit)
  | inr miss ↦ ap (λ b. add_line now (if b then no_restart else l) w) miss
]

walk_step :
    (section l : Text) (ls : List Text) {w : Walk}
    → walk section (l ∷ ls) ≡ ok w
    → (refuses (section_after l section) l ≡ false)
      × (v : Walk) × (walk (section_after l section) ls ≡ ok v)
      × (add_line (section_after l section) l v ≡ w)
unfolding walk
walk_step section l ls h =
    let (a, b) = test_passed (refuses (section_after l section) l) RestartError.unfamiliar _ h in
    elim (Result-cases (walk (section_after l section) ls)) [
      | inl (v, k) ↦ (a, v, k, ok-injective (rw k at b))
      | inr (e, k) ↦ cc (rw k at b)
    ]

walk_lines :
    (section : Text) (ls : List Text) {w : Walk}
    → walk section ls ≡ ok w
    → w.lines ≡ turn_off section ls
unfolding walk
walk_lines section [] h = rw (sym (ok-injective h)) refl
walk_lines section (l ∷ ls) h =
    let (a, v, k, q) = walk_step section l ls h in
    rw (sym q) (ap (◌∷◌ (turned_off section l)) (walk_lines (section_after l section) ls k))

-- A line that was turned off is accepted and left alone.
not_refused :
    (now l : Text)
    → refuses now l ≡ false
    → refuses now (if is_restart now l then no_restart else l) ≡ false
unfolding text_beq
not_refused now l h = elim (Bool-cases (is_restart now l)) [
  | inl hit ↦ rw hit (ground arith)
  | inr miss ↦ rw miss (rw miss refl)
]

walk_cons :
    (section o : Text) (os : List Text) {now : Text} {v : Walk}
    → section_after o section ≡ now
    → refuses now o ≡ false
    → walk now os ≡ ok v
    → walk section (o ∷ os) ≡ ok (add_line now o v)
unfolding walk
walk_cons section o os {now} {v} e =
    subst
      (λ n. refuses n o ≡ false → walk n os ≡ ok v → walk section (o ∷ os) ≡ ok (add_line n o v)) e
      (λ r k. rw (r, k) refl)

walk_again :
    (section : Text) (ls : List Text) {w : Walk}
    → walk section ls ≡ ok w
    → walk section (turn_off section ls) ≡ ok w
walk_again section [] h = h
walk_again section (l ∷ ls) h =
    let (a, v, k, q) = walk_step section l ls h in
    let now = section_after l section in
    walk_cons section (turned_off section l) (turn_off now ls) (same_section l section a)
      (not_refused now l a) (walk_again now ls k)
    ∙ ap ok (same_line now l v ∙ q)

restart_off :
    (now l : Text)
    → is_restart now (if is_restart now l then no_restart else l) ≡ true
    → (if is_restart now l then no_restart else l) ≡ no_restart
restart_off now l h = rw (sym (same_hit now l) ∙ h) refl

turn_off-RestartsOff :
    (section : Text) (ls : List Text) {w : Walk}
    → walk section ls ≡ ok w
    → RestartsOff section (turn_off section ls)
turn_off-RestartsOff section [] h = tt
turn_off-RestartsOff section (l ∷ ls) h =
    let (a, v, k, q) = walk_step section l ls h in
    let now = section_after l section in
    rw (same_section l section a) (restart_off now l, turn_off-RestartsOff now ls k)

no_restart-IsPart : IsPart newline no_restart
no_restart-IsPart = (
  refl,
  (
    refl,
    (
      refl,
      (
        refl,
        (
          refl,
          (
            refl,
            (
              refl,
              (refl, (refl, (refl, (refl, (refl, (refl, (refl, (refl, (refl, (refl, tt)))))))))),
            ),
          ),
        ),
      ),
    ),
  ),
)

same-IsPart :
    (section : Text) (ls : List Text)
    → All (IsPart newline) ls
    → All (IsPart newline) (turn_off section ls)
unfolding has_prefix
same-IsPart section [] h = tt
same-IsPart section (l ∷ ls) h = elim (Bool-cases (is_restart (section_after l section) l)) [
  | inl hit ↦ rw hit (no_restart-IsPart, same-IsPart (section_after l section) ls h.1)
  | inr miss ↦ rw miss (h.0, same-IsPart (section_after l section) ls h.1)
]

-- The lines of the new file are those of the old one with the restarts turned off.
split-lines :
    (text : Text)
    → split newline (join newline (turn_off [] (split newline text)))
      ≡ turn_off [] (split newline text)
split-lines text =
    let (p, ps, e) = split-cons newline text in
    let parts = same-IsPart [] (split newline text) (split-IsPart newline text) in
    rw e (split-join newline (turned_off [] p) (turn_off (section_after p []) ps) (rw e at parts))

compose_lines :
    (text : Text) {out : Text}
    → quota_restart_compose text ≡ ok out
    → (w : Walk) × (walk [] (split newline text) ≡ ok w)
      × (has_policies w ≡ true)
      × (join newline w.lines ≡ out)
unfolding quota_restart_compose
compose_lines text h = elim (Result-cases (walk [] (split newline text))) [
  | inl (w, k) ↦
      let h' = rw (k, quota_restart_compose) at h in
      let (a, b) =
        test_passed (not (has_policies w)) RestartError.missing_policy (ok (join newline w.lines))
          h' in
      (w, k, negation_lem (has_policies w) a, ok-injective b)
  | inr (e, k) ↦ cc (rw (k, quota_restart_compose) at h)
]

-- A Compose file that is accepted becomes one whose lines are the old ones, but that each restart line of the two
-- services says "no"; and rewriting it once more is accepted and changes nothing.
pub quota_restart_compose_lem :
    (text : Text) {out : Text}
    → quota_restart_compose text ≡ ok out
    → (split newline out ≡ turn_off [] (split newline text))
      × RestartsOff [] (split newline out)
      × (quota_restart_compose out ≡ ok out)
unfolding quota_restart_compose
quota_restart_compose_lem text {out} h =
    let (w, k, two, j) = compose_lines text h in
    let lines = walk_lines [] (split newline text) k in
    let out_is : join newline (turn_off [] (split newline text)) ≡ out =
      ap (join newline) (sym lines) ∙ j in
    let s : split newline out ≡ turn_off [] (split newline text) =
      ap (split newline) (sym out_is) ∙ split-lines text in
    (
      s,
      rw s (turn_off-RestartsOff [] (split newline text) k),
      rw (s, walk_again [] (split newline text) k, quota_restart_compose) (rw two (ap ok j)),
    )
