-- ===== src/Worker/Docker.antt =====
-- The containers that cmd/worker looks at and the commands that it runs on them. The Docker command is
-- outside the repository: its daemon's state is a type of its own, and what the commands do to it is a
-- parameter.
pub mod Laws
pub mod Jobs
pub mod Tools
use panel4wp.Prelude.{
  ℕ, Bool, true, false, not, ◌&&◌, ◌||◌, Option, none, some, List, [], ◌∷◌, ◌++◌, ltb, length,
  select, if◌then◌else◌, ◌==◌, text_eq, Text, codes, has_prefix, drop, trim_prefix, contains,
}

-- containerState, without the fields that only runtimeSnapshot reads
pub record Container : Type 0 where
  pub name : Text
  pub project : Text
  pub service : Text
  pub status : Text
  pub restart : Text
  pub security_opts : List Text

-- A line of `docker ps` about a container that runs a job.
pub record Job : Type 0 where
  pub name : Text
  pub project : Text
  pub service : Text
  pub site : Text
  pub role : Text

-- A command that changes the daemon's state gives the new state, and whether it failed.
pub record Docker (D : Type 0) : Type 0 where
  -- docker ps -a with a project's label: the identifiers
  pub ps : Text → D → Option (List Text)
  -- docker inspect, decoded
  pub inspect : List Text → D → Option (List Container)
  -- docker ps -a with a filter, decoded up to a line that does not parse, and whether there is one
  pub jobs : Text → D → Option (List Job × Bool)
  -- docker rm -f NAME
  pub remove : Text → D → D × Bool
  -- docker update --restart no NAME
  pub update : Text → D → D × Bool
  -- docker stop --time 20 NAME
  pub stop : Text → D → D × Bool

-- The name that a service's container has in front of the site's identifier.
expected : Text → Text
expected service =
    if service == codes "wordpress"
    then codes "/wph-wp-"
    else if service == codes "db"
    then codes "/wph-db-"
    else if service == codes "phpmyadmin"
    then codes "/wph-pma-"
    else []

abbrev pub project_of : Text → Text
project_of id = codes "wph-" ++ id

-- A container that is a site's own by its labels and its name.
unfoldable pub is_own : Text → Container → Bool
unfolding expected
is_own id c =
    c.project == project_of id
    && not (expected c.service == [])
    && c.name == expected c.service ++ id

-- What docker inspect says of a site's own containers.
unfoldable pub own_of : {D : Type 0} → Docker D → Text → List Text → D → Option (List Container)
unfolding is_own
own_of k id is d = elim (k.inspect is d) [ none ↦ none | some cs ↦ some (select (is_own id) cs) ]

unfoldable pub containers_of :
    {D : Type 0} → Docker D → Text → List Text → D → Option (List Container)
containers_of k id [] d = some []
containers_of k id (i ∷ is) d = if ltb 20 (length (i ∷ is)) then none else own_of k id (i ∷ is) d

-- quotaContainers; `none` is an error
unfoldable pub quota_containers : {D : Type 0} → Docker D → Text → D → Option (List Container)
quota_containers k id d = elim (k.ps (project_of id) d) [
  | none ↦ none
  | some is ↦ containers_of k id is d
]

-- A container that a stop is sent to.
abbrev pub is_live : Text → Bool
is_live status =
    status == codes "running" || status == codes "restarting" || status == codes "paused"

abbrev pub bare_name : Container → Text
bare_name c = trim_prefix c.name (codes "/")

-- One turn of the loop of fenceQuotaSite: the daemon's state, and whether a command failed.
unfoldable pub fence_one : {D : Type 0} → Docker D → Container → D → D × Bool
fence_one k c d =
    let (updated, no_update) = k.update (bare_name c) d in
    let (stopped, no_stop) = k.stop (bare_name c) updated in
    if is_live c.status then (stopped, no_update || no_stop) else (updated, no_update)

unfoldable pub fence_containers : {D : Type 0} → Docker D → List Container → D → D × Bool
fence_containers k [] d = (d, false)
fence_containers k (c ∷ cs) d =
    let (turned, failed) = fence_one k c d in
    let (rest, more) = fence_containers k cs turned in (rest, failed || more)
