-- ===== src/Worker/Quota/Restart.antt =====
-- quotaRestartCompose of cmd/worker/quota_restart.go: turns off the restarts of a site's two services.
pub mod Laws
use panel4wp.Prelude.{
  ℕ, ◌+◌, Bool, true, false, not, ◌&&◌, ◌||◌, List, [], ◌∷◌, if◌then◌else◌, ◌==◌, nat_eq, text_eq,
  Text, codes, Result, ok, err, has_prefix, has_suffix, trim_suffix, split, join,
}
use panel4wp.Strings.Space.{trim_space}

abbrev pub newline : ℕ
newline = 10

abbrev pub wordpress : Text
wordpress = codes "wordpress"

abbrev pub db : Text
db = codes "db"

-- The section that a line is in, after `section`: a line of two spaces and a name with a colon opens one.
unfoldable pub section_after : Text → Text → Text
section_after line section =
    if has_prefix line (codes "  ")
      && not (has_prefix line (codes "   "))
      && has_suffix line (codes ":")
    then trim_suffix (trim_space line) (codes ":")
    else section

abbrev pub unless_stopped : Text
unless_stopped = codes "    restart: unless-stopped"

abbrev pub no_restart : Text
no_restart = codes "    restart: \"no\""

-- A restart line of one of the two services.
abbrev pub is_restart : Text → Text → Bool
is_restart section line =
    (section == wordpress || section == db) && has_prefix line (codes "    restart:")

abbrev pub is_known : Text → Bool
is_known line = line == unless_stopped || line == no_restart

pub data RestartError : Type 0 where
  unfamiliar missing_policy : RestartError

-- The lines that were rewritten, and how many restart lines each service has.
pub record Walk : Type 0 where
  pub lines : List Text
  pub wordpress_seen : ℕ
  pub db_seen : ℕ

abbrev pub count_if : Bool → ℕ → ℕ
count_if true n = n + 1
count_if false n = n

abbrev pub add_hit : Bool → Text → Text → Walk → Walk
add_hit hit section line w = record {
  lines = (if hit then no_restart else line) ∷ w.lines;
  wordpress_seen = count_if (hit && section == wordpress) w.wordpress_seen;
  db_seen = count_if (hit && section == db) w.db_seen;
}

abbrev pub add_line : Text → Text → Walk → Walk
add_line section line w = add_hit (is_restart section line) section line w

-- The loop; the counts are of the lines from here on.
unfoldable pub walk : Text → List Text → Result RestartError Walk
walk section [] = ok (record { lines = []; wordpress_seen = 0; db_seen = 0 })
walk section (line ∷ rest) =
    let now = section_after line section in
    let later = walk now rest in
    if is_restart now line && not (is_known line)
    then err unfamiliar
    else elim later [ err e ↦ err e | ok w ↦ ok (add_line now line w) ]

abbrev pub has_policies : Walk → Bool
has_policies w = w.wordpress_seen == 1 && w.db_seen == 1

-- quotaRestartCompose
unfoldable pub quota_restart_compose : Text → Result RestartError Text
quota_restart_compose data' = elim (walk [] (split newline data')) [
  | err e ↦ err e
  | ok w ↦ if not (has_policies w) then err missing_policy else ok (join newline w.lines)
]
