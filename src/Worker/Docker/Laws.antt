-- ===== src/Worker/Docker/Laws.antt =====
-- What Docker documents of its commands, and lemmas on the loop of fenceQuotaSite.
use mathlib.Core.Option.{some-injective}
use panel4wp.Prelude.{
  ◌≡◌, sym, ◌∙◌, inl, inr, false, some, List, [], ◌∷◌, text_eq, Text, codes, All, ||_false,
  Bool-cases, All-mono, All-select, select, ltb, length, Option-cases,
}
use panel4wp.Worker.Docker.{
  Container, Docker, own_of, containers_of, quota_containers, is_own, project_of, is_live,
  bare_name, fence_one, fence_containers,
}

-- What Docker documents of the two commands, in terms of the status and the restart policy that the
-- daemon holds for each name. Of a command that failed it says only that it starts nothing and turns
-- no restarts on.
pub record DockerLaws {D : Type 0} (k : Docker D) : Type 0 where
  pub status : D → Text → Text
  pub policy : D → Text → Text
  -- What is inspected is what the daemon holds.
  pub inspect_status :
      (is : List Text) (d : D) {cs : List Container}
      → k.inspect is d ≡ some cs
      → All (λ c. status d (bare_name c) ≡ c.status) cs
  pub update_sets :
      (n : Text) (d : D) → (k.update n d).1 ≡ false → policy (k.update n d).0 n ≡ codes "no"
  pub update_keeps :
      (n m : Text) (d : D) → policy d m ≡ codes "no" → policy (k.update n d).0 m ≡ codes "no"
  pub update_status : (n m : Text) (d : D) → status (k.update n d).0 m ≡ status d m
  pub stop_ends :
      (n : Text) (d : D) → (k.stop n d).1 ≡ false → is_live (status (k.stop n d).0 n) ≡ false
  pub stop_keeps :
      (n m : Text) (d : D)
      → is_live (status d m) ≡ false
      → is_live (status (k.stop n d).0 m) ≡ false
  pub stop_policy : (n m : Text) (d : D) → policy (k.stop n d).0 m ≡ policy d m

-- The container is down and Docker does not start it again.
abbrev pub IsDown : {D : Type 0} {k : Docker D} → DockerLaws k → D → Container → Type 0
IsDown l d c =
    (is_live (l.status d (bare_name c)) ≡ false) × (l.policy d (bare_name c) ≡ codes "no")

-- A container that was inspected as down is down.
abbrev pub IsSeen : {D : Type 0} {k : Docker D} → DockerLaws k → D → Container → Type 0
IsSeen l d c = is_live c.status ≡ false → is_live (l.status d (bare_name c)) ≡ false

module _ {D : Type 0} (k : Docker D) (l : DockerLaws k) where
  update-quiet :
      (n m : Text) (d : D)
      → is_live (l.status d m) ≡ false
      → is_live (l.status (k.update n d).0 m) ≡ false
  update-quiet n m d h = rw (l.update_status n m d) h

  fence_one-quiet :
      (c : Container) (m : Text) (d : D)
      → is_live (l.status d m) ≡ false
      → is_live (l.status (fence_one k c d).0 m) ≡ false
  unfolding fence_one
  fence_one-quiet c m d h = elim (Bool-cases (is_live c.status)) [
    | inl live ↦ rw live (l.stop_keeps (bare_name c) m _ (update-quiet (bare_name c) m d h))
    | inr down ↦ rw down (update-quiet (bare_name c) m d h)
  ]

  fence_one-policy :
      (c : Container) (m : Text) (d : D)
      → l.policy d m ≡ codes "no"
      → l.policy (fence_one k c d).0 m ≡ codes "no"
  unfolding fence_one
  fence_one-policy c m d h = elim (Bool-cases (is_live c.status)) [
    | inl live ↦ rw live (l.stop_policy (bare_name c) m _ ∙ l.update_keeps (bare_name c) m d h)
    | inr down ↦ rw down (l.update_keeps (bare_name c) m d h)
  ]

  -- A turn without a failure takes its container down.
  fence_one-IsDown :
      (c : Container) (d : D)
      → IsSeen l d c
      → (fence_one k c d).1 ≡ false
      → IsDown l (fence_one k c d).0 c
  unfolding fence_one
  fence_one-IsDown c d seen h = elim (Bool-cases (is_live c.status)) [
    | inl live ↦
        let (a, b) = ||_false (k.update (bare_name c) d).1 _ (rw live at h) in
        rw live (
          l.stop_ends (bare_name c) _ b,
          l.stop_policy (bare_name c) (bare_name c) _ ∙ l.update_sets (bare_name c) d a,
        )
    | inr down ↦ rw down (
      update-quiet (bare_name c) (bare_name c) d (seen down),
      l.update_sets (bare_name c) d (rw down at h),
    )
  ]

  fence_containers-keeps :
      (cs : List Container) (c : Container) (d : D)
      → IsDown l d c
      → IsDown l (fence_containers k cs d).0 c
  unfolding fence_containers
  fence_containers-keeps [] c d h = h
  fence_containers-keeps (e ∷ cs) c d (s, p) =
      fence_containers-keeps cs c (fence_one k e d).0
        (fence_one-quiet e (bare_name c) d s, fence_one-policy e (bare_name c) d p)

  one-IsSeen : (e c : Container) (d : D) → IsSeen l d c → IsSeen l (fence_one k e d).0 c
  one-IsSeen e c d h q = fence_one-quiet e (bare_name c) d (h q)

  -- The loop takes every container down if no command failed.
  pub fence_containers-IsDown :
      (cs : List Container) (d : D)
      → All (IsSeen l d) cs
      → (fence_containers k cs d).1 ≡ false
      → All (IsDown l (fence_containers k cs d).0) cs
  unfolding fence_containers
  fence_containers-IsDown [] d h f = tt
  fence_containers-IsDown (c ∷ cs) d h f =
      let (a, b) = ||_false (fence_one k c d).1 _ f in
      (
        fence_containers-keeps cs c (fence_one k c d).0 (fence_one-IsDown c d h.0 a),
        fence_containers-IsDown cs (fence_one k c d).0
            (All-mono (IsSeen l d) (IsSeen l (fence_one k c d).0) (λ e q. one-IsSeen c e d q) cs
              h.1)
            b,
      )

  select-IsSeen :
      (id : Text) (d : D) (cs : List Container)
      → All (λ c. l.status d (bare_name c) ≡ c.status) cs
      → All (IsSeen l d) (select (is_own id) cs)
  select-IsSeen id d cs h =
      All-select (IsSeen l d) (is_own id) cs (All-mono _ (IsSeen l d) (λ c e q. rw e q) cs h)

  inspected :
      (id : Text) (is : List Text) (d : D) {cs : List Container}
      → own_of k id is d ≡ some cs
      → All (IsSeen l d) cs
  unfolding own_of
  inspected id is d h = elim (Option-cases (k.inspect is d)) [
    | inl n ↦ cc (rw (n, own_of) at h)
    | inr (all, n) ↦
        let e : select (is_own id) all ≡ _ = some-injective _ _ (rw (n, own_of) at h) in
        rw (sym e) (select-IsSeen id d all (l.inspect_status is d n))
  ]

  found-IsSeen :
      (id : Text) (is : List Text) (d : D) {cs : List Container}
      → containers_of k id is d ≡ some cs
      → All (IsSeen l d) cs
  unfolding containers_of
  found-IsSeen id [] d h = rw (sym (some-injective _ _ h)) tt
  found-IsSeen id (i ∷ is) d h = elim (Bool-cases (ltb 20 (length (i ∷ is)))) [
    | inl many ↦ cc (rw many at h)
    | inr few ↦ inspected id (i ∷ is) d (rw few at h)
  ]

  -- The containers that were found are as the daemon holds them.
  pub quota_containers-IsSeen :
      (id : Text) (d : D) {cs : List Container}
      → quota_containers k id d ≡ some cs
      → All (IsSeen l d) cs
  unfolding quota_containers
  quota_containers-IsSeen id d h = elim (Option-cases (k.ps (project_of id) d)) [
    | inl n ↦ cc (rw (n, quota_containers) at h)
    | inr (is, n) ↦ found-IsSeen id is d (rw (n, quota_containers) at h)
  ]
