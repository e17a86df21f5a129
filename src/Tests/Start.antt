-- ===== src/Tests/Start.antt =====
-- cmd/worker/quota_restart.go: the start of a site whose Compose file holds no limits.
use panel4wp.Prelude.{
  ◌≡◌, refl, true, false, none, [], split, join, has_prefix, has_suffix, trim_suffix, trim_prefix,
  text_beq,
}
use panel4wp.Strings.Space.{trim_space, fields}
use panel4wp.Files.{written, atomic_config}
use panel4wp.Core.Ids.{valid_id}
use panel4wp.SecurityPolicy.{active, active_from}
use panel4wp.Worker.Docker.{
  is_own, quota_containers, containers_of, own_of, fence_containers, fence_one,
}
use panel4wp.Worker.Docker.Jobs.{remove_owned_jobs, remove_filtered, remove_jobs}
use panel4wp.Worker.Compose.{
  configured_resources, compose_resources, compose_lines, compose_section, take_line,
}
use panel4wp.Worker.Quota.Marker.{quota_marked, quota_uuid}
use panel4wp.Worker.Quota.Restart.{quota_restart_compose, walk, section_after}
use panel4wp.Worker.Quota.Intent.{
  valid_quota_intent, save_quota_intent, load_quota_intent, read_guard_json,
}
use panel4wp.Worker.Quota.Guard.{load_quota_guard, check_guard, storage_fails}
use panel4wp.Worker.Quota.Fence.{fence_quota_site, fence_listed}
use panel4wp.Worker.Quota.Preflight.{
  quota_preflight, check_marked, check_site, guard_of, or_fence, ensure_quota_restart_compose,
  rewrite_compose, containers_fail, is_unsafe,
}
use panel4wp.Worker.Quota.Start.{
  Start, EndsBlocked, start_quota_site, start_checked, start_quota_site-EndsBlocked,
}
use panel4wp.Tests.Quota.{Daemon, setting, host, docker_laws, codec-RoundTrip}

abbrev start : Start Daemon
start = record {
  setting = setting true;
  text = record { parse = λ s. none; print = λ f. [] };
  refuses = λ r. false;
  up = λ d. (d, false);
  running_write = written;
}

starts : (start_quota_site start host).1 ≡ true
unfolding start_quota_site start_checked configured_resources compose_resources compose_lines
    compose_section take_line fields quota_preflight guard_of check_marked check_site or_fence
    quota_marked valid_id load_quota_guard read_guard_json check_guard quota_uuid storage_fails
    containers_fail is_unsafe active active_from quota_containers containers_of own_of is_own
    ensure_quota_restart_compose rewrite_compose atomic_config quota_restart_compose walk
    section_after split join has_prefix has_suffix trim_suffix trim_space text_beq fence_quota_site
    fence_listed fence_containers fence_one remove_owned_jobs remove_filtered remove_jobs
    save_quota_intent load_quota_intent valid_quota_intent trim_prefix
starts = refl

start_quota_site-EndsBlocked_example :
    EndsBlocked start docker_laws host (start_quota_site start host).0
start_quota_site-EndsBlocked_example =
    start_quota_site-EndsBlocked start docker_laws codec-RoundTrip host starts
