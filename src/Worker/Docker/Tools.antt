-- ===== src/Worker/Docker/Tools.antt =====
-- removeStaleDatabaseTools of cmd/worker/runtime.go: ends the database sessions that a worker's restart
-- has made invalid.
use panel4wp.Prelude.{
  Bool, true, ◌&&◌, Option, none, some, List, [], ◌∷◌, ◌++◌, if◌then◌else◌, ◌==◌, text_eq, Text,
  codes, trim_prefix,
}
use panel4wp.Core.Ids.{valid_id}
use panel4wp.Worker.Docker.{Docker, project_of}

-- A line of `docker ps` about a container of the database tool.
pub record Tool : Type 0 where
  pub name : Text
  pub project : Text

abbrev pma : Text
pma = codes "wph-pma-"

-- A site's own tool, by its name and its label.
unfoldable pub is_own_tool : Tool → Bool
is_own_tool t =
    let id = trim_prefix t.name pma in
    valid_id id && t.name == pma ++ id && t.project == project_of id

-- The loop over the decoded lines; `broken` is a line that does not parse, after the others.
unfoldable pub remove_tools : {D : Type 0} → Docker D → Bool → List Tool → D → D × Bool
unfolding is_own_tool
remove_tools k broken [] d = (d, broken)
remove_tools k broken (t ∷ ts) d =
    let (removed, failed) = k.remove t.name d in
    let rest = remove_tools k broken ts (if is_own_tool t then removed else d) in
    if is_own_tool t && failed then (removed, true) else rest

-- removeStaleDatabaseTools; the lines are none if `docker ps` fails.
unfoldable pub remove_stale_database_tools :
    {D : Type 0} → Docker D → (D → Option (List Tool × Bool)) → D → D × Bool
unfolding remove_tools
remove_stale_database_tools k tools d = elim (tools d) [
  | none ↦ (d, true)
  | some (ts, broken) ↦ remove_tools k broken ts d
]
