-- ===== src/Tests/Core.antt =====
-- internal/core on concrete inputs.
use panel4wp.Prelude.{
  ℕ, ◌≤◌, ◌≡◌, refl, true, false, List, [], ◌∷◌, arith, Text, codes, none, ok, err, split, length,
  text_beq, has_prefix, All, ◌↔◌, ◌⊎◌, contains_any,
}
use panel4wp.Prelude.Int.{pos, ◌≤ℤ◌, ◌+ℤ◌, ◌-ℤ◌, ◌*ℤ◌, wrap64}
use panel4wp.Float.{const, add_f, sub_f, scale_f, abs_f, round_f, max_f}
use panel4wp.Strings.Space.{trim_space}
use panel4wp.Strings.Case.{to_lower}
use panel4wp.Strings.Hex.{is_hex}
use panel4wp.Strings.Runes.{rune_count}
use panel4wp.Core.Ids.{valid_id, Clock, valid_id_iff}
use panel4wp.Core.Domain.{
  normalize_domain, check_domain, domain_label, IsNormal, normalize_domain_idem,
  normalize_domain-IsNormal, deep_localhost,
}
use panel4wp.Core.RelativePath.{clean, valid_relative_path, valid_relative_path_iff, IsPlain}
use panel4wp.Core.Model.{Site, Resources, HostCapacity, BackupPolicy, running}
use panel4wp.Core.Validate.{validate_site, validate_resources}
use panel4wp.Core.Capacity.{
  check, available_memory_bytes, available_cpus, committed, check-memory_budget, check-cpu_budget,
  check-admits,
}

abbrev keep : Text → Text
keep s = s

abbrev typed : Text
typed = codes " Shop.Example.com\n"

typed_normal : normalize_domain keep typed ≡ ok (codes "shop.example.com")
unfolding normalize_domain check_domain to_lower trim_space split text_beq domain_label
typed_normal = refl

deep : normalize_domain keep (codes "a.b.localhost") ≡ err deep_localhost
unfolding normalize_domain check_domain to_lower trim_space split text_beq domain_label
deep = refl

normalize_domain_idem_example :
    normalize_domain keep (codes "shop.example.com") ≡ ok (codes "shop.example.com")
normalize_domain_idem_example = normalize_domain_idem keep typed typed_normal

normalize_domain-IsNormal_example : IsNormal (codes "shop.example.com")
normalize_domain-IsNormal_example = normalize_domain-IsNormal keep typed typed_normal

abbrev eight : List ℕ
eight = 0x01 ∷ 0x23 ∷ 0x45 ∷ 0x67 ∷ 0x89 ∷ 0xab ∷ 0xcd ∷ 0xef ∷ []

abbrev zeros : Text
zeros = codes "0000000000000000"

valid_id_iff_example :
    (valid_id zeros ≡ true) ↔ ((length zeros ≡ 16) × All (λ c. is_hex c ≡ true) zeros)
valid_id_iff_example = valid_id_iff zeros

abbrev noon : Clock
noon = record { year = 2026; month = 9; day = 20; hour = 12; minute = 0; second = 7 }

valid_relative_path_iff_example : (valid_relative_path (codes "a/b") false ≡ true) ↔ (
    ((codes "a/b" ≡ []) × (false ≡ true))
    ⊎ ((length (codes "a/b") ≤ 512)
        × (contains_any (codes "a/b") (0 ∷ b'\n' ∷ b'\r' ∷ b'\\' ∷ []) ≡ false)
        × IsPlain (split b'/' (codes "a/b"))))
valid_relative_path_iff_example = valid_relative_path_iff (codes "a/b") false

escaping : valid_relative_path (codes "wp-content/../../etc") false ≡ false
unfolding valid_relative_path clean text_beq has_prefix split
escaping = refl

plain_path : valid_relative_path (codes "wp-content/a.txt") false ≡ true
unfolding valid_relative_path clean text_beq has_prefix split
plain_path = refl

abbrev policy : BackupPolicy
policy = record {
  enabled = true;
  interval_hours = pos 24;
  retention = pos 7;
  next_run_at = 0;
  last_attempt_at = 0;
  last_success_at = 0;
  last_error = [];
}

abbrev shop : Site
shop = record {
  id = codes "0123456789abcdef";
  domain = codes "shop.example.com";
  title = codes "Shop";
  admin_email = codes "me@example.com";
  memory_mb = pos 0;
  cpus = const 500_000_000;
  status = running;
  error = [];
  created_at = 1;
  backups = [];
  backup_policy = policy;
  mail_enabled = false;
  operation = none;
  health_error = [];
  health_checked_at = 0;
}

shop_valid : validate_site keep shop ≡ ok tt
unfolding validate_site valid_id normalize_domain check_domain to_lower trim_space split text_beq
    domain_label rune_count
shop_valid = refl

-- Four gibibytes and two CPUs, with one site of 512 MiB per container in place.
abbrev host : HostCapacity
host = record {
  other_memory_bytes = pos 0;
  other_cpus = const 0;
  cpus = const 4_000_000_000;
  memory_bytes = pos 4_294_967_296;
  reserved_cpus = const 500_000_000;
  reserved_memory_bytes = pos 858_993_459;
  allocated_cpus = const 1_000_000_000;
  allocated_memory_bytes = pos 1_073_741_824;
  docker_disk_free_bytes = pos 9_000_000_000;
  data_disk_free_bytes = pos 9_000_000_000;
}

abbrev small : Resources
small = record { memory_mb = pos 512; cpus = const 1_000_000_000 }

small_valid : validate_resources small ≡ ok tt
unfolding validate_resources abs_f sub_f scale_f round_f ◌*ℤ◌ ◌-ℤ◌
small_valid = refl

small_fits : check host small ≡ ok tt
unfolding check available_memory_bytes available_cpus validate_resources add_f abs_f sub_f scale_f
    round_f max_f ◌+ℤ◌ ◌*ℤ◌ ◌-ℤ◌ wrap64
small_fits = refl

check-memory_budget_example : committed host +ℤ pos 1_073_741_824 ≤ℤ pos 4_294_967_296
check-memory_budget_example = check-memory_budget host small (omega arith) small_fits

check-cpu_budget_example :
    pos 500_000_000 +ℤ pos 1_000_000_000 +ℤ pos 0 +ℤ (pos 1_000_000_000 +ℤ pos 1_000_000_000)
    ≤ℤ pos 4_000_000_000 +ℤ pos 1000
check-cpu_budget_example = check-cpu_budget host small refl refl refl refl refl small_fits

check-admits_example : check host small ≡ ok tt
unfolding ◌+ℤ◌
check-admits_example =
    check-admits host small (omega arith) small_valid refl refl refl refl refl (omega arith)
      (omega arith) (omega arith) (omega arith) (omega arith) (omega arith)
