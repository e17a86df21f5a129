-- ===== src/Core/Validate.antt =====
-- internal/core/site.go and resources.go: the validation of a backup policy, of resources, of a site
-- and of a named plan, and the limits that a site falls back to.
use panel4wp.Prelude.{
  ◌≡◌, ◌↔◌, ◌⊎◌, true, false, not, ◌&&◌, ◌||◌, [], ◌∷◌, arith, ltb, if◌then◌else◌, ◌==◌, nat_eq,
  text_eq, Text, any, length, codes, Result, ok, err, fail_if, ◌>>=◌, ◌>>◌, map_err, contains_any,
  >>-eq-ok,
}
use panel4wp.Prelude.Int.{ℤ, pos, ltb_ℤ, int_eq, ◌≤ℤ◌}
use panel4wp.Float.{
  Float, const, one, ltb_f, leb_f, eq_f, is_nan, is_inf, sub_f, scale_f, abs_f, round_f,
}
use panel4wp.Strings.Space.{trim_space}
use panel4wp.Strings.Runes.{rune_count}
use panel4wp.Core.Ids.{valid_id}
use panel4wp.Core.Domain.{DomainError, normalize_domain}
use panel4wp.Core.Model.{BackupPolicy, Resources, ResourcePlan, Site}

pub data Invalid : Type 0 where
  bad_interval bad_retention bad_memory bad_cpus bad_plan : Invalid
  bad_site_id bad_title title_lines bad_email : Invalid
  bad_domain : DomainError → Invalid

unfoldable pub validate_backup_policy : BackupPolicy → Result Invalid (Unit {0})
validate_backup_policy policy =
    if not policy.enabled
    then ok tt
    else if not (
        policy.interval_hours == pos 6
        || policy.interval_hours == pos 12
        || policy.interval_hours == pos 24
        || policy.interval_hours == pos 168)
    then err bad_interval
    else if ltb_ℤ policy.retention (pos 1) || ltb_ℤ (pos 30) policy.retention
    then err bad_retention
    else ok tt

-- Resources.Validate
unfoldable pub validate_resources : Resources → Result Invalid (Unit {0})
validate_resources r = do
  fail_if (ltb_ℤ r.memory_mb (pos 256) || ltb_ℤ (pos 8192) r.memory_mb) bad_memory
  fail_if
      (is_nan r.cpus
        || is_inf r.cpus
        || ltb_f r.cpus (const 250_000_000)
        || ltb_f (const 8_000_000_000) r.cpus
        || ltb_f (const 1000) (abs_f (sub_f (scale_f 4 r.cpus) (round_f (scale_f 4 r.cpus)))))
      bad_cpus
  ok tt

-- ResourcePlan.Validate
unfoldable pub validate_plan : ResourcePlan → Result Invalid (Unit {0})
validate_plan p = do
  fail_if
      (not (valid_id p.id)
        || trim_space p.name == []
        || ltb 60 (rune_count p.name)
        || contains_any p.name (b'\n' ∷ b'\r' ∷ 0 ∷ []))
      bad_plan
  validate_resources p.resources

-- The identifier and the domain of a site.
check_identity : (Text → Text) → Site → Result Invalid (Unit {0})
check_identity lower_unicode s = do
  fail_if (not (valid_id s.id)) bad_site_id
  _ ← map_err bad_domain (normalize_domain lower_unicode s.domain)
  ok tt

-- Its title and its administrator's address.
check_texts : Site → Result Invalid (Unit {0})
check_texts s = do
  fail_if (trim_space s.title == [] || ltb 120 (rune_count s.title)) bad_title
  fail_if (contains_any s.title (b'\n' ∷ b'\r' ∷ [])) title_lines
  fail_if
      (trim_space s.admin_email == []
        || ltb 254 (length s.admin_email)
        || contains_any s.admin_email (codes " \n\r\t")
        || not (any (λ c. c == b'@') s.admin_email))
      bad_email
  ok tt

-- Its limits, of which zero stands for the default.
check_limits : ℤ → Float → Result Invalid (Unit {0})
check_limits memory_mb cpus = do
  fail_if (not (memory_mb == pos 0) && (ltb_ℤ memory_mb (pos 256) || ltb_ℤ (pos 8192) memory_mb))
      bad_memory
  fail_if
      (is_nan cpus
        || is_inf cpus
        || (not (eq_f cpus (const 0))
            && (ltb_f cpus (const 250_000_000) || ltb_f (const 8_000_000_000) cpus)))
      bad_cpus
  ok tt

unfoldable pub validate_site : (Text → Text) → Site → Result Invalid (Unit {0})
unfolding check_identity check_texts check_limits
validate_site lower_unicode s = do
  check_identity lower_unicode s
  check_texts s
  check_limits s.memory_mb s.cpus

-- ResourceLimits and SiteResources: zero means the default
unfoldable pub site_resources : Site → Resources
site_resources s = record {
  memory_mb = if s.memory_mb == pos 0 then pos 512 else s.memory_mb;
  cpus = if eq_f s.cpus (const 0) then const one else s.cpus;
}

-- A policy is accepted exactly if it is off, or its interval is offered and its retention is in 1..30.
pub validate_backup_policy_iff :
    (p : BackupPolicy)
    → (validate_backup_policy p ≡ ok tt) ↔ (
        (p.enabled ≡ false)
        ⊎ (((p.interval_hours ≡ pos 6)
              ⊎ (p.interval_hours ≡ pos 12)
              ⊎ (p.interval_hours ≡ pos 24)
              ⊎ (p.interval_hours ≡ pos 168))
            × (pos 1 ≤ℤ p.retention)
            × (p.retention ≤ℤ pos 30)))
unfolding validate_backup_policy
validate_backup_policy_iff p = ground arith

-- The range that the limits of a container lie in.
pub record InRange (r : Resources) : Type 0 where
  pub memory_low : pos 256 ≤ℤ r.memory_mb
  pub memory_high : r.memory_mb ≤ℤ pos 8192
  pub cpus_low : leb_f (const 250_000_000) r.cpus ≡ true
  pub cpus_high : leb_f r.cpus (const 8_000_000_000) ≡ true

limits : ℤ → Float → Resources
limits m c = record {
  memory_mb = if m == pos 0 then pos 512 else m;
  cpus = if eq_f c (const 0) then const one else c;
}

check_limits-InRange : (m : ℤ) (c : Float) → check_limits m c ≡ ok tt → InRange (limits m c)
unfolding check_limits limits
check_limits-InRange m c h = ground arith

-- The limits of a validated site are in range, the defaults included.
pub validate_site-InRange :
    (lower_unicode : Text → Text) (s : Site)
    → validate_site lower_unicode s ≡ ok tt
    → InRange (site_resources s)
unfolding validate_site site_resources limits
validate_site-InRange u s h =
    let rest =
      (>>-eq-ok (check_identity u s) (check_texts s >> check_limits s.memory_mb s.cpus) h).1 in
    check_limits-InRange s.memory_mb s.cpus
      (>>-eq-ok (check_texts s) (check_limits s.memory_mb s.cpus) rest).1

-- What validated resources satisfy.
pub validate_resources-InRange : (r : Resources) → validate_resources r ≡ ok tt → InRange r
unfolding validate_resources
validate_resources-InRange r h = ground arith
