-- ===== src/Tests/Quota.antt =====
-- The quota fence on a concrete host: a daemon with one container, and a site whose quota is ready.
use mathlib.Core.Option.{some-injective}
use panel4wp.Prelude.{
  zero, suc, ◌≡◌, ◌≤◌, refl, sym, ◌⊎◌, inl, inr, Bool, true, false, Option, none, some, [], ◌∷◌,
  ◌++◌, if◌then◌else◌, ◌==◌, arith, length, codes, text_eq, Text, text_beq, Bool-cases, eq_of_==,
  ok, has_prefix, has_suffix, split, join, trim_suffix, trim_prefix, replicate,
}
use panel4wp.Prelude.Int.{ℤ, pos, negsuc}
use panel4wp.Strings.Space.{trim_space}
use panel4wp.Files.{missing, content, written, atomic_config}
use panel4wp.Core.Ids.{valid_id}
use panel4wp.SecurityPolicy.{active, active_from, IsActive, active-IsActive}
use panel4wp.Worker.Docker.{
  Container, Docker, is_live, is_own, quota_containers, containers_of, own_of, fence_containers,
  fence_one,
}
use panel4wp.Worker.Docker.Laws.{DockerLaws}
use panel4wp.Worker.Docker.Jobs.{remove_owned_jobs, remove_filtered, remove_jobs}
use panel4wp.Worker.Quota.Marker.{present, absent, quota_marked, quota_uuid}
use panel4wp.Worker.Quota.Restart.{quota_restart_compose, walk, section_after, newline}
use panel4wp.Worker.Quota.Restart.Laws.{quota_restart_compose_lem, turn_off, RestartsOff}
use panel4wp.Worker.Quota.Intent.{
  Intent, IntentCodec, IntentRoundTrip, valid_quota_intent, save_quota_intent, load_quota_intent,
  read_guard_json, intent_of,
}
use panel4wp.Worker.Quota.Guard.{Guard, load_quota_guard, check_guard, storage_fails, marked_in}
use panel4wp.Worker.Quota.Fence.{Host, fence_quota_site, fence_listed}
use panel4wp.Worker.Quota.Fence.Laws.{IsFenced, fence_quota_site-IsFenced}
use panel4wp.Worker.Quota.Preflight.{
  Setting, quota_preflight, finish_quota_write, check_marked, check_site, guard_of, or_fence,
  ensure_quota_restart_compose, rewrite_compose, containers_fail, is_unsafe, success, failure,
  refused, is_unmarked,
}
use panel4wp.Worker.Quota.Preflight.Laws.{Passed, quota_preflight-IsVerified}
use panel4wp.Worker.Quota.Preflight.Finish.{
  EndsFenced, quota_preflight-EndsFenced, finish_quota_write-EndsFenced,
  finish_quota_write-IsVerified,
}

abbrev pub shop : Text
shop = codes "0123456789abcdef"

abbrev web : Text
web = codes "wph-wp-" ++ shop

-- The status and the restart policy of the site's one container.
abbrev pub Daemon : Type 0
Daemon = Text × Text

abbrev container : Daemon → Container
container d = record {
  name = b'/' ∷ web;
  project = codes "wph-" ++ shop;
  service = codes "wordpress";
  status = d.0;
  restart = d.1;
  security_opts = codes "seccomp=p" ∷ codes "no-new-privileges" ∷ [];
}

abbrev pub docker : Docker Daemon
docker = record {
  ps = λ p d. some (codes "c1" ∷ []);
  inspect = λ is d. some (container d ∷ []);
  jobs = λ f d. some ([], false);
  remove = λ n d. (d, false);
  update = λ n d. ((d.0, if n == web then codes "no" else d.1), false);
  stop = λ n d. ((if n == web then codes "exited" else d.0, d.1), false);
}

abbrev status_of : Daemon → Text → Text
status_of d n = if n == web then d.0 else codes "exited"

abbrev policy_of : Daemon → Text → Text
policy_of d n = if n == web then d.1 else codes "no"

updated :
    (n m : Text) (d : Daemon)
    → policy_of d m ≡ codes "no"
    → policy_of (docker.update n d).0 m ≡ codes "no"
updated n m d h = elim (Bool-cases (n == web)) [
  | inl hit ↦ rw hit (elim (Bool-cases (m == web)) [ inl k ↦ rw k refl | inr k ↦ rw k refl ])
  | inr miss ↦ rw miss h
]

sets : (n : Text) (d : Daemon) → policy_of (docker.update n d).0 n ≡ codes "no"
sets n d = elim (Bool-cases (n == web)) [ inl k ↦ rw k refl | inr k ↦ rw k refl ]

ends : (n : Text) (d : Daemon) → is_live (status_of (docker.stop n d).0 n) ≡ false
unfolding text_beq
ends n d = elim (Bool-cases (n == web)) [ inl k ↦ rw k refl | inr k ↦ rw k refl ]

keeps :
    (n m : Text) (d : Daemon)
    → is_live (status_of d m) ≡ false
    → is_live (status_of (docker.stop n d).0 m) ≡ false
unfolding text_beq
keeps n m d h = elim (Bool-cases (n == web)) [
  | inl hit ↦ rw hit (elim (Bool-cases (m == web)) [ inl k ↦ rw k refl | inr k ↦ rw k refl ])
  | inr miss ↦ rw miss h
]

pub docker_laws : DockerLaws docker
unfolding trim_prefix has_prefix text_beq
docker_laws = record {
  status = status_of;
  policy = policy_of;
  inspect_status = λ is d e. rw (sym (some-injective _ _ e)) (refl, tt);
  update_sets = λ n d e. sets n d;
  update_keeps = updated;
  update_status = λ n m d. refl;
  stop_ends = λ n d e. ends n d;
  stop_keeps = keeps;
  stop_policy = λ n m d. refl;
}

pub encode_intent : Intent → Text
encode_intent i = elim i.version [ pos n ↦ 0 ∷ n ∷ i.state | negsuc n ↦ 1 ∷ n ∷ i.state ]

pub decode_intent : Text → Option Intent
decode_intent (zero ∷ n ∷ s) = some (record { version = pos n; state = s })
decode_intent (suc zero ∷ n ∷ s) = some (record { version = negsuc n; state = s })
decode_intent [] = none
decode_intent (k ∷ []) = none
decode_intent (suc (suc k) ∷ n ∷ s) = none

decode-encode :
    (v : ℤ) (s : Text)
    → decode_intent (encode_intent (record { version = v; state = s }))
      ≡ some (record { version = v; state = s })
unfolding decode_intent encode_intent
decode-encode (pos n) s = refl
decode-encode (negsuc n) s = refl

abbrev pub codec : IntentCodec
codec = record { decode = decode_intent; encode = encode_intent }

small : (s : Text) → valid_quota_intent s ≡ true → length (encode_intent (intent_of s)) ≤ 4096
unfolding encode_intent valid_quota_intent
small s h = elim (Bool-cases (s == codes "running")) [
  | inl k ↦ rw (eq_of_== s (codes "running") k) (ground arith)
  | inr k ↦ elim (Bool-cases (s == codes "stopped")) [
    | inl k2 ↦ rw (eq_of_== s (codes "stopped") k2) (ground arith)
    | inr k2 ↦ elim (Bool-cases (s == codes "blocked")) [
      | inl k3 ↦ rw (eq_of_== s (codes "blocked") k3) (ground arith)
      | inr k3 ↦ rw (eq_of_== s (codes "maintenance") (rw (k, k2, k3) at h)) (ground arith)
    ]
  ]
]

pub codec-RoundTrip : IntentRoundTrip codec
codec-RoundTrip = record { back = λ i. decode-encode i.version i.state; small = small }

abbrev compose_text : Text
compose_text = join newline (
    codes "services:"
    ∷ codes "  wordpress:"
    ∷ codes "    restart: unless-stopped"
    ∷ codes "  db:"
    ∷ codes "    restart: \"no\""
    ∷ [])

abbrev rewritten : Text
rewritten = join newline (
    codes "services:"
    ∷ codes "  wordpress:"
    ∷ codes "    restart: \"no\""
    ∷ codes "  db:"
    ∷ codes "    restart: \"no\""
    ∷ [])

rewrites : quota_restart_compose compose_text ≡ ok rewritten
unfolding quota_restart_compose walk section_after split join has_prefix has_suffix trim_suffix
    trim_space text_beq
rewrites = refl

quota_restart_compose_lem_example :
    (split newline rewritten ≡ turn_off [] (split newline compose_text))
    × RestartsOff [] (split newline rewritten)
    × (quota_restart_compose rewritten ≡ ok rewritten)
quota_restart_compose_lem_example = quota_restart_compose_lem compose_text rewrites

active_run :
    active (λ t. some t) (codes "p") (codes "seccomp=p" ∷ codes "no-new-privileges" ∷ []) ≡ true
unfolding active active_from has_prefix text_beq
active_run = refl

active-IsActive_example :
    (want : Text) × (some (codes "p") ≡ some want)
    × IsActive (λ t. some t) want false (codes "seccomp=p" ∷ codes "no-new-privileges" ∷ [])
active-IsActive_example =
    active-IsActive (λ t. some t) (codes "p") (codes "seccomp=p" ∷ codes "no-new-privileges" ∷ [])
      active_run

abbrev ready : Guard
ready = record {
  version = pos 1;
  phase = codes "ready";
  project_id = 1_000_001;
  hard_bytes = 5120;
  filesystem_uuid = replicate 32 b'a';
}

abbrev pub setting : Bool → Setting Daemon
setting verified = record {
  docker = docker;
  codec = codec;
  decode = λ t. some ready;
  normal = λ t. some t;
  profile = codes "p";
  policy = λ f. (f, false);
  probe = λ p b u. some (record { verified = verified; reason = codes "verified" });
  intent_write = written;
  compose_write = written;
  id = shop;
  files = record { guard = content []; guard_stat = present; plan_stat = absent };
}

abbrev pub host : Host Daemon
host = record {
  daemon = (codes "running", codes "no");
  intent = missing;
  compose = content compose_text;
}

passes : (quota_preflight (setting true) host).1 ≡ false
unfolding quota_preflight guard_of check_marked check_site or_fence quota_marked valid_id
    load_quota_guard read_guard_json check_guard quota_uuid storage_fails containers_fail is_unsafe
    active active_from quota_containers containers_of own_of is_own ensure_quota_restart_compose
    rewrite_compose atomic_config quota_restart_compose walk section_after split join has_prefix
    has_suffix trim_suffix trim_space text_beq
passes = refl

fails : (quota_preflight (setting false) host).1 ≡ true
unfolding quota_preflight guard_of check_marked check_site or_fence quota_marked valid_id
    load_quota_guard read_guard_json check_guard quota_uuid storage_fails containers_fail is_unsafe
    active active_from quota_containers containers_of own_of is_own ensure_quota_restart_compose
    rewrite_compose atomic_config quota_restart_compose walk section_after split join has_prefix
    has_suffix trim_suffix trim_space text_beq
fails = refl

quota_preflight-IsVerified_example :
    Passed (setting true) host (quota_preflight (setting true) host).0
quota_preflight-IsVerified_example = quota_preflight-IsVerified (setting true) host passes

quota_preflight-EndsFenced_example :
    EndsFenced (setting false) docker_laws host (quota_preflight (setting false) host).0
quota_preflight-EndsFenced_example =
    quota_preflight-EndsFenced (setting false) docker_laws codec-RoundTrip host fails

marked : is_unmarked (marked_in shop (setting true).files) ≡ false
unfolding quota_marked valid_id
marked = refl

finishes : (finish_quota_write (setting true) success host).1 ≡ false
unfolding finish_quota_write quota_marked valid_id
finishes = passes

finish_quota_write-IsVerified_example :
    (success ≡ success)
    × Passed (setting true) host (finish_quota_write (setting true) success host).0
finish_quota_write-IsVerified_example =
    finish_quota_write-IsVerified (setting true) success host finishes

finish_fails : (finish_quota_write (setting true) failure host).1 ≡ true
unfolding finish_quota_write
finish_fails = rw marked refl

finish_quota_write-EndsFenced_example :
    (is_unmarked (marked_in shop (setting true).files) ≡ true)
    ⊎ (EndsFenced (setting true) docker_laws host (finish_quota_write (setting true) failure host).0
        ⊎ ((failure ≡ refused) × ((quota_preflight (setting true) host).1 ≡ false)))
finish_quota_write-EndsFenced_example =
    finish_quota_write-EndsFenced (setting true) docker_laws codec-RoundTrip failure host
      finish_fails

fences : (fence_quota_site docker codec written shop (codes "blocked") host).1 ≡ false
unfolding fence_quota_site fence_listed remove_owned_jobs remove_filtered remove_jobs
    quota_containers containers_of own_of is_own fence_containers fence_one save_quota_intent
    load_quota_intent valid_id valid_quota_intent read_guard_json atomic_config text_beq has_prefix
    trim_prefix
fences = refl

fence_quota_site-IsFenced_example :
    IsFenced docker docker_laws codec shop
      (codes "blocked")
      (remove_owned_jobs docker shop host.daemon).0
      (fence_quota_site docker codec written shop (codes "blocked") host).0
fence_quota_site-IsFenced_example =
    fence_quota_site-IsFenced docker docker_laws codec written shop (codes "blocked") host
      codec-RoundTrip fences

saves : (save_quota_intent codec written shop (codes "blocked") missing).1 ≡ false
unfolding save_quota_intent load_quota_intent valid_id valid_quota_intent read_guard_json
    atomic_config text_beq
saves = refl
