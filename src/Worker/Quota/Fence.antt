-- ===== src/Worker/Quota/Fence.antt =====
-- fenceQuotaSite of cmd/worker/quota_restart.go, on the part of the host that it works on.
pub mod Laws
use panel4wp.Prelude.{Bool, true, false, ◌||◌, Option, none, some, List, Text, Result, ok, err}
use panel4wp.Files.{File, Write}
use panel4wp.Worker.Docker.{Docker, Container, quota_containers, fence_containers}
use panel4wp.Worker.Docker.Jobs.{remove_owned_jobs}
use panel4wp.Worker.Quota.Intent.{IntentCodec, save_quota_intent}

-- The daemon, and the two files of a site that the quota code writes.
pub record Host (D : Type 0) : Type 0 where
  pub daemon : D
  pub intent : File
  pub compose : File

-- The containers are stopped once they could be listed.
unfoldable pub fence_listed : {D : Type 0} → Docker D → Option (List Container) → D → D × Bool
fence_listed k none d = (d, true)
fence_listed k (some cs) d = fence_containers k cs d

-- fenceQuotaSite: the host afterwards, and whether it reports an error. `w` is how its write of the
-- intent ends. An error of one part does not keep the others from being tried.
unfoldable pub fence_quota_site :
    {D : Type 0} → Docker D → IntentCodec → Write → Text → Text → Host D → Host D × Bool
fence_quota_site k c w id state h =
    let (intent, no_intent) = save_quota_intent c w id state h.intent in
    let (cleared, no_jobs) = remove_owned_jobs k id h.daemon in
    let (fenced, no_fence) = fence_listed k (quota_containers k id cleared) cleared in
    (
      record { daemon = fenced; intent = intent; compose = h.compose },
      no_fence || no_intent || no_jobs,
    )
