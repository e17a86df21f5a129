-- ===== src/Worker/Quota/Preflight/Laws.antt =====
-- cmd/worker/quota_restart.go: theorems on quotaPreflight when it reports no error.
use panel4wp.Prelude.{
  ◌≡◌, refl, ap, ◌⊎◌, inl, inr, Bool, true, false, not, ◌||◌, Option, none, some, List, [], ◌∷◌,
  any, All, Text, Result, ok, err, ◌==◌, text_eq, codes, ℕ, Bool-cases, Option-cases, ||_false,
  negation_lem, eq_of_==, ok-injective, nat_eq,
}
use panel4wp.Worker.Docker.{Container, quota_containers}
use panel4wp.Worker.Quota.Intent.{GuardError}
use panel4wp.Worker.Quota.Guard.{Guard, Verdict, marked_in, load_quota_guard, storage_fails}
use panel4wp.Worker.Quota.Fence.{Host}
use panel4wp.Worker.Quota.Preflight.{
  Setting, ensure_quota_restart_compose, is_unsafe, containers_fail, check_site, check_marked,
  guard_in, guard_of, or_fence, is_unmarked, quota_preflight,
}
use panel4wp.Worker.Quota.Preflight.Compose.{HasRestartsOff, ensure-HasRestartsOff}
use panel4wp.SecurityPolicy.{active}

-- Docker does not start the container again by itself, and it runs under the security profile.
abbrev pub IsSafe : (Text → Option Text) → Text → Container → Type 0
IsSafe normal profile c = (c.restart ≡ codes "no") × (active normal profile c.security_opts ≡ true)

any-IsSafe :
    (normal : Text → Option Text) (profile : Text) (cs : List Container)
    → any (is_unsafe normal profile) cs ≡ false
    → All (IsSafe normal profile) cs
unfolding is_unsafe
any-IsSafe normal profile [] h = tt
any-IsSafe normal profile (c ∷ cs) h =
    let (a, b) = ||_false (is_unsafe normal profile c) _ h in
    let (r, s) = ||_false (not (c.restart == codes "no")) _ a in
    (
      (
        eq_of_== c.restart (codes "no") (negation_lem (c.restart == codes "no") r),
        negation_lem (active normal profile c.security_opts) s,
      ),
      any-IsSafe normal profile cs b,
    )

-- The storage helper confirmed the project, the limit and the filesystem of the record.
abbrev pub IsConfirmed : (ℕ → ℕ → Text → Option Verdict) → Guard → Type 0
IsConfirmed probe g =
    (v : Verdict) × (probe g.project_id g.hard_bytes g.filesystem_uuid ≡ some v)
    × (v.verified ≡ true)
    × (v.reason ≡ codes "verified")

storage-IsConfirmed :
    (probe : ℕ → ℕ → Text → Option Verdict) (g : Guard)
    → storage_fails probe (some g) ≡ false
    → IsConfirmed probe g
unfolding storage_fails
storage-IsConfirmed probe g h =
    elim (Option-cases (probe g.project_id g.hard_bytes g.filesystem_uuid)) [
      | inl n ↦ cc (rw (n, storage_fails) at h)
      | inr (v, n) ↦
          let (a, b) = ||_false (not v.verified) _ (rw (n, storage_fails) at h) in
          (
            v,
            n,
            negation_lem v.verified a,
            eq_of_== v.reason (codes "verified") (negation_lem (v.reason == codes "verified") b),
          )
    ]

-- Everything that a passed check has verified, on the host that it leaves.
pub record IsVerified {D : Type 0} (s : Setting D) (g : Guard) (h : Host D) : Type 0 where
  pub confirmed : IsConfirmed s.probe g
  pub restarts : HasRestartsOff h.compose
  pub containers : List Container
  pub listed : quota_containers s.docker s.id h.daemon ≡ some containers
  pub safe : All (IsSafe s.normal s.profile) containers

containers-IsSafe :
    (normal : Text → Option Text) (profile : Text) (o : Option (List Container))
    → containers_fail normal profile o ≡ false
    → (cs : List Container) × (o ≡ some cs) × All (IsSafe normal profile) cs
unfolding containers_fail
containers-IsSafe normal profile none h = cc
containers-IsSafe normal profile (some cs) h = (cs, refl, any-IsSafe normal profile cs h)

check_site-IsVerified :
    {D : Type 0} (s : Setting D) (g : Guard) (h : Host D)
    → (check_site s g h).1 ≡ false
    → IsVerified s g (check_site s g h).0
unfolding check_site
check_site-IsVerified s g h e =
    let (a, no_containers) =
      ||_false
        ((ensure_quota_restart_compose s.policy s.compose_write h.compose).1
          || storage_fails s.probe (some g))
        _ e in
    let (compose, storage) =
      ||_false (ensure_quota_restart_compose s.policy s.compose_write h.compose).1 _ a in
    let (cs, n, safe) =
      containers-IsSafe s.normal s.profile (quota_containers s.docker s.id h.daemon)
        no_containers in
    record {
      confirmed = storage-IsConfirmed s.probe g storage;
      restarts = ensure-HasRestartsOff s.policy s.compose_write h.compose compose;
      containers = cs;
      listed = n;
      safe = safe;
    }

check_site-daemon :
    {D : Type 0} (s : Setting D) (g : Guard) (h : Host D) → (check_site s g h).0.daemon ≡ h.daemon
unfolding check_site
check_site-daemon s g h = refl

pub check_marked-daemon :
    {D : Type 0} (s : Setting D) (r : Result (Unit {0}) Guard) (h : Host D)
    → (check_marked s r h).0.daemon ≡ h.daemon
unfolding check_marked
check_marked-daemon s (err e) h = refl
check_marked-daemon s (ok g) h = check_site-daemon s g h

or_fence-passed :
    {D : Type 0} (s : Setting D) (r : Host D × Bool)
    → (or_fence s r).1 ≡ false
    → (r.1 ≡ false) × ((or_fence s r).0 ≡ r.0)
unfolding or_fence
or_fence-passed s (h, true) e = cc
or_fence-passed s (h, false) e = (refl, refl)

check_marked-IsVerified :
    {D : Type 0} (s : Setting D) (r : Result (Unit {0}) Guard) (h : Host D)
    → (check_marked s r h).1 ≡ false
    → (g : Guard) × (r ≡ ok g)
      × IsVerified s g (check_marked s r h).0
      × ((check_marked s r h).0.daemon ≡ h.daemon)
unfolding check_marked
check_marked-IsVerified s (err e) h f = cc
check_marked-IsVerified s (ok g) h f =
    (g, refl, check_site-IsVerified s g h f, check_site-daemon s g h)

guard_in-loaded :
    (r : Result GuardError (Option Guard)) {g : Guard} → guard_in r ≡ ok g → r ≡ ok (some g)
guard_in-loaded (err e) h = cc
guard_in-loaded (ok none) h = cc
guard_in-loaded (ok (some g)) h = ap (λ x. ok (some x)) (ok-injective h)

guard_of-loaded :
    {D : Type 0} (s : Setting D) {g : Guard}
    → guard_of s ≡ ok g
    → load_quota_guard s.decode s.id s.files ≡ ok (some g)
unfolding guard_of
guard_of-loaded s h = elim (Bool-cases (marked_in s.id s.files).failed) [
  | inl bad ↦ cc (rw bad at h)
  | inr good ↦ guard_in-loaded (load_quota_guard s.decode s.id s.files) (rw good at h)
]

-- The site has no quota and all is as it was, or its record was loaded and the checks verified it.
abbrev pub Passed : {D : Type 0} → Setting D → Host D → Host D → Type 0
Passed s before after =
    ((is_unmarked (marked_in s.id s.files) ≡ true) × (after ≡ before))
    ⊎ ((g : Guard) × (load_quota_guard s.decode s.id s.files ≡ ok (some g))
        × IsVerified s g after
        × (after.daemon ≡ before.daemon))

check_marked-intent :
    {D : Type 0} (s : Setting D) (r : Result (Unit {0}) Guard) (h : Host D)
    → (check_marked s r h).0.intent ≡ h.intent
unfolding check_marked check_site
check_marked-intent s (err e) h = refl
check_marked-intent s (ok g) h = refl

pub quota_preflight-intent :
    {D : Type 0} (s : Setting D) (h : Host D)
    → (quota_preflight s h).1 ≡ false
    → (quota_preflight s h).0.intent ≡ h.intent
unfolding quota_preflight
quota_preflight-intent s h e = elim (Bool-cases (is_unmarked (marked_in s.id s.files))) [
  | inl none_marked ↦ rw none_marked refl
  | inr marked ↦
      let (a, b) = or_fence-passed s (check_marked s (guard_of s) h) (rw marked at e) in
      rw marked (rw b (check_marked-intent s (guard_of s) h))
]

-- quotaPreflight passes a site only if it has no quota, and then it leaves all as it was, or if its
-- quota record was loaded, the storage helper confirmed it, every restart line of the two services in the
-- Compose file says "no", and the site's containers were listed and each of them has the restart policy "no" and
-- runs under the security profile; Docker is then as it was.
pub quota_preflight-IsVerified :
    {D : Type 0} (s : Setting D) (h : Host D)
    → (quota_preflight s h).1 ≡ false
    → Passed s h (quota_preflight s h).0
unfolding quota_preflight
quota_preflight-IsVerified s h e = elim (Bool-cases (is_unmarked (marked_in s.id s.files))) [
  | inl none_marked ↦ inl (none_marked, rw none_marked refl)
  | inr marked ↦
      let (a, b) = or_fence-passed s (check_marked s (guard_of s) h) (rw marked at e) in
      let (g, loaded, verified, daemon) = check_marked-IsVerified s (guard_of s) h a in
      inr (g, guard_of-loaded s loaded, rw marked (rw b verified), rw marked (rw b daemon))
]
