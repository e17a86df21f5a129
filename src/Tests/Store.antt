-- ===== src/Tests/Store.antt =====
-- internal/store on concrete files, with encodings that are read back.
use panel4wp.Prelude.{
  ℕ, ◌≡◌, refl, true, false, Bool, List, [], ◌∷◌, ◌++◌, Text, codes, none, some, Option, ok, err,
  if◌then◌else◌, ◌==◌, text_eq, text_beq, any, is_ok, ◌⊎◌,
}
use panel4wp.Prelude.Int.{pos, ◌*ℤ◌, ◌-ℤ◌}
use panel4wp.Float.{const, abs_f, sub_f, scale_f, round_f}
use panel4wp.Strings.Case.{to_lower, equal_fold}
use panel4wp.Strings.Space.{trim_space}
use panel4wp.Strings.Runes.{rune_count}
use panel4wp.Files.{File, content, written, write_json}
use panel4wp.Core.Ids.{valid_id}
use panel4wp.Core.Model.{Site, Resources, ResourcePlan, Backup, BackupPolicy, Operation, running}
use panel4wp.Core.Validate.{validate_plan, validate_resources}
use panel4wp.Store.{Sites, SitesCodec, read_sites, get_site, get, put, delete}
use panel4wp.Store.Laws.{SitesRoundTrip, get-put, get-delete}
use panel4wp.Store.Plans.{
  CaseTables, PlansCodec, PlanError, read_plans, check_all, check_plans, put_plan, write_plans,
  clashes,
}
use panel4wp.Store.Plans.Append.{PlansRoundTrip, repeats, put_plan-read_plans}
use panel4wp.Tests.Coder.{Coder, number, integer, float, text, both, via, many, option, flag}

plan_coder : Coder ResourcePlan
plan_coder =
    via (both text (both text (both integer float)))
      (λ p. (p.id, (p.name, (p.resources.memory_mb, p.resources.cpus))))
      (λ p. record {
        id = p.0;
        name = p.1.0;
        resources = record { memory_mb = p.1.1.0; cpus = p.1.1.1 };
      })
      (λ p. refl)

plans_codec : PlansCodec
plans_codec = record {
  decode = λ t. some ((many plan_coder).get t).0;
  encode = λ ps. (many plan_coder).put ps [];
}

plans_codec-RoundTrip : PlansRoundTrip plans_codec
unfolding plans_codec
plans_codec-RoundTrip ps = rw ((many plan_coder).law ps []) refl

-- The entries of Go's tables for U+0130, a dotted capital I: its lower case is an `i`, and it folds to
-- no other rune.
abbrev dotted : Text
dotted = 196 ∷ 176 ∷ []

abbrev tables : CaseTables
tables = record { lower = λ s. if s == dotted then codes "i" else s; fold = λ s t. s == t }

abbrev small : Resources
small = record { memory_mb = pos 512; cpus = const 500_000_000 }

abbrev plan_i : ResourcePlan
plan_i = record { id = codes "0123456789abcdef"; name = codes "i"; resources = small }

abbrev plan_dotted : ResourcePlan
plan_dotted = record { id = codes "fedcba9876543210"; name = dotted; resources = small }

abbrev one_plan : File
one_plan = content (plans_codec.encode (plan_i ∷ []))

plan_i_checked : check_all tables (plan_i ∷ []) ≡ ok (plan_i ∷ [])
unfolding check_all check_plans validate_plan validate_resources valid_id trim_space rune_count
    to_lower text_beq abs_f sub_f scale_f round_f ◌*ℤ◌ ◌-ℤ◌
plan_i_checked = refl

one_plan_read : read_plans tables plans_codec one_plan ≡ ok (plan_i ∷ [])
unfolding read_plans
one_plan_read = rw (plans_codec-RoundTrip (plan_i ∷ []), read_plans) plan_i_checked

dotted_put : (put_plan tables plans_codec written plan_dotted one_plan).0 ≡ ok tt
unfolding put_plan validate_plan validate_resources valid_id trim_space rune_count text_beq clashes
    equal_fold write_plans abs_f sub_f scale_f round_f ◌*ℤ◌ ◌-ℤ◌ write_json
dotted_put = rw (one_plan_read, put_plan) refl

-- The plan with the dotted capital I is stored, and the file is unreadable afterwards.
put_plan-read_plans_example :
    read_plans tables plans_codec (put_plan tables plans_codec written plan_dotted one_plan).1 ≡ (
      if any (repeats tables plan_dotted) (plan_i ∷ [])
      then err PlanError.duplicate
      else ok ((plan_i ∷ []) ++ plan_dotted ∷ []))
put_plan-read_plans_example =
    put_plan-read_plans tables plans_codec written plan_dotted one_plan plans_codec-RoundTrip
      one_plan_read dotted_put

unfoldable pub backup_coder : Coder Backup
backup_coder =
    via (both text (both number text)) (λ b. (b.id, (b.created_at, b.source)))
      (λ p. record { id = p.0; created_at = p.1.0; source = p.1.1 }) (λ b. refl)

unfoldable pub policy_coder : Coder BackupPolicy
policy_coder =
    via (both flag (both integer (both integer (both number (both number (both number text))))))
      (λ b. (
        b.enabled,
        (
          b.interval_hours,
          (b.retention, (b.next_run_at, (b.last_attempt_at, (b.last_success_at, b.last_error)))),
        ),
      ))
      (λ p. record {
        enabled = p.0;
        interval_hours = p.1.0;
        retention = p.1.1.0;
        next_run_at = p.1.1.1.0;
        last_attempt_at = p.1.1.1.1.0;
        last_success_at = p.1.1.1.1.1.0;
        last_error = p.1.1.1.1.1.1;
      })
      (λ b. refl)

unfoldable pub operation_coder : Coder Operation
operation_coder =
    via
      (both text (
        both text
          (both text (both number (both number (both text (both (option backup_coder) flag)))))))
      (λ o. (
        o.id,
        (
          o.kind,
          (o.state, (o.started_at, (o.finished_at, (o.error, (o.backup, o.admission_rejected))))),
        ),
      ))
      (λ p. record {
        id = p.0;
        kind = p.1.0;
        state = p.1.1.0;
        started_at = p.1.1.1.0;
        finished_at = p.1.1.1.1.0;
        error = p.1.1.1.1.1.0;
        backup = p.1.1.1.1.1.1.0;
        admission_rejected = p.1.1.1.1.1.1.1;
      })
      (λ o. refl)

-- The fields of a site in two halves.
pub record Half : Type 0 where
  pub status : Text
  pub error : Text
  pub created_at : ℕ
  pub backups : List Backup
  pub backup_policy : BackupPolicy
  pub mail_enabled : Bool
  pub operation : Option Operation
  pub health_error : Text
  pub health_checked_at : ℕ

unfoldable pub half_coder : Coder Half
half_coder =
    via
      (both text (
        both text (
          both number (
            both (many backup_coder)
              (both policy_coder (both flag (both (option operation_coder) (both text number))))))))
      (λ h. (
        h.status,
        (
          h.error,
          (
            h.created_at,
            (
              h.backups,
              (
                h.backup_policy,
                (h.mail_enabled, (h.operation, (h.health_error, h.health_checked_at))),
              ),
            ),
          ),
        ),
      ))
      (λ p. record {
        status = p.0;
        error = p.1.0;
        created_at = p.1.1.0;
        backups = p.1.1.1.0;
        backup_policy = p.1.1.1.1.0;
        mail_enabled = p.1.1.1.1.1.0;
        operation = p.1.1.1.1.1.1.0;
        health_error = p.1.1.1.1.1.1.1.0;
        health_checked_at = p.1.1.1.1.1.1.1.1;
      })
      (λ h. refl)

unfoldable pub half_of : Site → Half
half_of s = record {
  status = s.status;
  error = s.error;
  created_at = s.created_at;
  backups = s.backups;
  backup_policy = s.backup_policy;
  mail_enabled = s.mail_enabled;
  operation = s.operation;
  health_error = s.health_error;
  health_checked_at = s.health_checked_at;
}

unfoldable pub site_coder : Coder Site
unfolding half_of
site_coder =
    via (both text (both text (both text (both text (both integer (both float half_coder))))))
      (λ s. (s.id, (s.domain, (s.title, (s.admin_email, (s.memory_mb, (s.cpus, half_of s)))))))
      (λ p.
        let h = p.1.1.1.1.1.1 in
        record {
          id = p.0;
          domain = p.1.0;
          title = p.1.1.0;
          admin_email = p.1.1.1.0;
          memory_mb = p.1.1.1.1.0;
          cpus = p.1.1.1.1.1.0;
          status = h.status;
          error = h.error;
          created_at = h.created_at;
          backups = h.backups;
          backup_policy = h.backup_policy;
          mail_enabled = h.mail_enabled;
          operation = h.operation;
          health_error = h.health_error;
          health_checked_at = h.health_checked_at;
        })
      (λ s. refl)

unfoldable pub sites_codec : SitesCodec
sites_codec = record {
  decode = λ t. some (some ((many (both text site_coder)).get t).0);
  encode = λ m. (many (both text site_coder)).put m [];
}

pub sites_codec-RoundTrip : SitesRoundTrip sites_codec
unfolding sites_codec
sites_codec-RoundTrip m = rw ((many (both text site_coder)).law m []) refl

abbrev pub a_policy : BackupPolicy
a_policy = record {
  enabled = false;
  interval_hours = pos 24;
  retention = pos 7;
  next_run_at = 0;
  last_attempt_at = 0;
  last_success_at = 0;
  last_error = [];
}

abbrev pub named : Text → ℕ → Site
named i t = record {
  id = i;
  domain = codes "a.example";
  title = codes "A";
  admin_email = codes "a@example.com";
  memory_mb = pos 512;
  cpus = const 500_000_000;
  status = running;
  error = [];
  created_at = t;
  backups = [];
  backup_policy = a_policy;
  mail_enabled = false;
  operation = none;
  health_error = [];
  health_checked_at = 0;
}

abbrev pub two_sites : Sites
two_sites = (codes "a", named (codes "a") 1) ∷ (codes "b", named (codes "b") 2) ∷ []

unfoldable pub sites_file : File
sites_file = content (sites_codec.encode two_sites)

pub sites_file_read : read_sites sites_codec sites_file ≡ ok two_sites
unfolding sites_file read_sites
sites_file_read = rw (sites_codec-RoundTrip two_sites, read_sites) refl

get-put_example :
    ((is_ok (put sites_codec written (named (codes "c") 3) sites_file).0 ≡ true)
      × (get sites_codec (codes "b") (put sites_codec written (named (codes "c") 3) sites_file).1
          ≡ ok (
              if codes "c" == codes "b"
              then some (named (codes "c") 3)
              else get_site (codes "b") two_sites)))
    ⊎ ((is_ok (put sites_codec written (named (codes "c") 3) sites_file).0 ≡ false)
        × ((put sites_codec written (named (codes "c") 3) sites_file).1 ≡ sites_file))
get-put_example =
    get-put sites_codec sites_codec-RoundTrip written sites_file (named (codes "c") 3) (codes "b")
      sites_file_read

get-delete_example :
    ((is_ok (delete sites_codec written (codes "a") sites_file).0 ≡ true)
      × (get sites_codec (codes "b") (delete sites_codec written (codes "a") sites_file).1
          ≡ ok (if codes "a" == codes "b" then none else get_site (codes "b") two_sites)))
    ⊎ ((is_ok (delete sites_codec written (codes "a") sites_file).0 ≡ false)
        × ((delete sites_codec written (codes "a") sites_file).1 ≡ sites_file))
get-delete_example =
    get-delete sites_codec sites_codec-RoundTrip written sites_file (codes "a") (codes "b")
      sites_file_read
