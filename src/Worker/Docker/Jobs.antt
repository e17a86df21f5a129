-- ===== src/Worker/Docker/Jobs.antt =====
-- removeOwnedJobs of cmd/worker/runtime.go: removes the job containers of a site, or of all sites.
use panel4wp.Prelude.{
  Bool, true, not, ◌&&◌, ◌||◌, none, some, List, [], ◌∷◌, ◌++◌, if◌then◌else◌, ◌==◌, text_eq, Text,
  codes, trim_prefix,
}
use panel4wp.Core.Ids.{valid_id}
use panel4wp.Worker.Docker.{Docker, Job, project_of}

-- The site of a job, and whether the labels and the name show that the job is its own.
unfoldable pub owner : Job → Text × Bool
owner job =
    let project = trim_prefix job.project (codes "wph-") in
    if job.service == codes "cli"
    then (project, valid_id project && job.project == project_of project)
    else (
      job.site,
      job.role == codes "job" && valid_id job.site && job.name == codes "wph-job-" ++ job.site,
    )

-- The loop over the decoded lines: the daemon's state, and whether it ended in an error. `broken` is a
-- line that does not parse, after the others.
unfoldable pub remove_jobs : {D : Type 0} → Docker D → Text → Bool → List Job → D → D × Bool
unfolding owner
remove_jobs k site broken [] d = (d, broken)
remove_jobs k site broken (job ∷ jobs) d =
    let (id, owned) = owner job in
    let skipped = not owned || (not (site == []) && not (id == site)) in
    let (removed, failed) = k.remove job.name d in
    let rest = remove_jobs k site broken jobs (if skipped then d else removed) in
    if not skipped && failed then (removed, true) else rest

-- One of the two filters
unfoldable pub remove_filtered : {D : Type 0} → Docker D → Text → Text → D → D × Bool
remove_filtered k site filter d = elim (k.jobs filter d) [
  | none ↦ (d, true)
  | some (jobs, broken) ↦ remove_jobs k site broken jobs d
]

-- removeOwnedJobs
unfoldable pub remove_owned_jobs : {D : Type 0} → Docker D → Text → D → D × Bool
remove_owned_jobs k site d =
    let (d', failed) = remove_filtered k site (codes "label=panel4wp.role=job") d in
    if failed
    then (d', true)
    else remove_filtered k site (codes "label=com.docker.compose.service=cli") d'
