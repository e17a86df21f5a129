-- ===== src/Panel/Handlers/Kept.antt =====
-- cmd/panel/main.go: what a safety backup and a call of the worker keep in the store.
use mathlib.Core.Path.{subst}
use panel4wp.Prelude.{
  ◌≡◌, inl, inr, sym, ap, ◌∙◌, arith, Bool, true, Option, some, ◌==◌, ==_refl, text_eq, Text, codes,
  Result, ok, is_ok, Bool-cases, Result-cases, Option-cases, ok-injective, any-append,
}
use panel4wp.Files.{File, Write}
use panel4wp.Core.Model.{Site, Backup, Operation}
use panel4wp.Store.{Sites, SitesCodec, put, read_sites}
use panel4wp.Store.Laws.{SitesRoundTrip}
use panel4wp.Panel.Tracked.{
  Attempt, not_confirmed, marker, settle, call_tracked, operation_pending, Stored, put-Stored,
  put-Stored_again, Stored-readable, call_tracked-IsMarked, call_tracked-id,
}
use panel4wp.Panel.Handlers.Safety.{SafetyRun, safety_copy, with_copy, is_known}

-- A test that does not look at the operation of a site.
abbrev pub Free : (Site → Bool) → Type 0
Free test =
    (s : Site) (o : Option Operation) → test s ≡ true → test (record s { operation = o }) ≡ true

module _ (c : SitesCodec) (rt : SitesRoundTrip c) (test : Site → Bool) (free : Free test) where
  settle-Stored :
      {A : Type 0} (a : Attempt A) (op : Operation) (site : Site) (f : File)
      → test site ≡ true
      → Stored test c f site.id
      → Stored test c (settle c a op site f).2 site.id × (test (settle c a op site f).1 ≡ true)
  unfolding settle
  settle-Stored a op site f t h = elim (Result-cases a.answer) [
    | inl (v, e) ↦ rw (e, settle) (h, free site _ t)
    | inr (m, e) ↦
        let noted : Site = record site { operation = some (record op { error = not_confirmed }) } in
        rw (e, settle)
          (put-Stored_again c rt test a.second noted f (free site _ t) h, free site _ t)
  ]

  -- What the store has of a site stays there through a call of the worker.
  pub call_tracked-Stored :
      {A : Type 0} (kind : Text) (a : Attempt A) (site : Site) (f : File)
      → test site ≡ true
      → Stored test c f site.id
      → Stored test c (call_tracked c kind a site f).2 site.id
        × (test (call_tracked c kind a site f).1 ≡ true)
  unfolding call_tracked
  call_tracked-Stored kind a site f t h = elim (Option-cases a.id) [
    | inl n ↦ rw (n, call_tracked) (h, t)
    | inr (id, n) ↦
        let op = marker id kind a.started in
        let marked : Site = record site { operation = some op } in
        let t' : test marked ≡ true = free site _ t in
        let h' = put-Stored_again c rt test a.first marked f t' h in
        elim (Bool-cases (is_ok (put c a.first marked f).0)) [
          | inl good ↦ rw (n, call_tracked) (rw good (settle-Stored a op marked _ t' h'))
          | inr bad ↦ rw (n, call_tracked) (rw bad (h', t'))
        ]
  ]

  -- And when the site that the caller goes on with is stored.
  pub put_called-Stored :
      {A : Type 0} (kind : Text) (a : Attempt A) (w : Write) (site s : Site) (f : File)
      → s.id ≡ site.id
      → test site ≡ true
      → test s ≡ true
      → Stored test c f site.id
      → Stored test c (put c w s (call_tracked c kind a site f).2).1 site.id
  put_called-Stored kind a w site s f i t u h =
      let after = (call_tracked c kind a site f).2 in
      subst (λ k. Stored test c (put c w s after).1 k) i
        (put-Stored_again c rt test w s after u
          (subst (λ k. Stored test c after k) (sym i) (call_tracked-Stored kind a site f t h).0))

module _ (c : SitesCodec) (rt : SitesRoundTrip c) where
  pub call_tracked-readable :
      {A : Type 0} (kind : Text) (a : Attempt A) (site : Site) (f : File) {m : Sites}
      → read_sites c f ≡ ok m
      → (m' : Sites) × (read_sites c (call_tracked c kind a site f).2 ≡ ok m')
  call_tracked-readable kind a site f {m} e = elim (call_tracked-IsMarked c rt kind a site f e) [
    | inl (same, x) ↦ (m, ap (read_sites c) same ∙ e)
    | inr marked ↦ Stored-readable c rt operation_pending site.id _ marked
  ]

  settle-answer :
      {A : Type 0} (a : Attempt A) (op : Operation) (site : Site) (f : File) {v : A}
      → (settle c a op site f).0 ≡ ok v
      → a.answer ≡ ok v
  unfolding settle
  settle-answer a op site f {v} h = elim (Result-cases a.answer) [
    | inl (u, e) ↦ e ∙ ap ok (ok-injective (rw (e, settle) at h))
    | inr (x, e) ↦
        let noted : Site = record site { operation = some (record op { error = not_confirmed }) } in
        elim (Bool-cases (is_ok (put c a.second noted f).0)) [
          | inl good ↦ cc (rw good at (rw (e, settle) at h))
          | inr bad ↦ cc (rw bad at (rw (e, settle) at h))
        ]
  ]

  -- A call that succeeded was answered by the worker.
  pub call_tracked-answer :
      {A : Type 0} (kind : Text) (a : Attempt A) (site : Site) (f : File) {v : A}
      → (call_tracked c kind a site f).0 ≡ ok v
      → a.answer ≡ ok v
  unfolding call_tracked
  call_tracked-answer kind a site f h = elim (Option-cases a.id) [
    | inl n ↦ cc (rw (n, call_tracked) at h)
    | inr (id, n) ↦
        let op = marker id kind a.started in
        let marked : Site = record site { operation = some op } in
        elim (Bool-cases (is_ok (put c a.first marked f).0)) [
          | inl good ↦ settle-answer a op marked _ (rw good at (rw (n, call_tracked) at h))
          | inr bad ↦ cc (rw bad at (rw (n, call_tracked) at h))
        ]
  ]

  -- A safety backup that was made: the worker has answered with it, and the store has it.
  pub record IsSafe (copy : Backup) (full site : Site) (answer : Result Text Backup) (f : File)
      : Type 0 where
    pub answered : answer ≡ ok copy
    pub held : is_known copy.id full ≡ true
    pub stored : Stored (is_known copy.id) c f full.id
    pub same : full.id ≡ site.id

  has_copy : (copy : Backup) (s : Site) → is_known copy.id (with_copy s copy) ≡ true
  has_copy copy s =
      any-append (λ (b : Backup). b.id == copy.id) s.backups _ ∙ rw (==_refl copy.id) (ground arith)

  pub safety_copy-IsSafe :
      (run : SafetyRun) (site : Site) (f : File) {m : Sites} (copy : Backup) (full : Site)
      → read_sites c f ≡ ok m
      → (safety_copy c run site f).0 ≡ ok (copy, full)
      → IsSafe copy full site run.attempt.answer (safety_copy c run site f).1
  unfolding safety_copy
  safety_copy-IsSafe run site f copy full e h =
      let kind = codes "safety-backup" in
      let called = call_tracked c kind run.attempt site f in
      elim (Result-cases called.0) [
        | inr (x, a) ↦ cc (rw (a, safety_copy) at h)
        | inl (copy', a) ↦
            let made = with_copy called.1 copy' in
            elim (Bool-cases (is_ok (put c run.write made called.2).0)) [
              | inr bad ↦ cc (rw bad at (rw (a, safety_copy) at h))
              | inl good ↦
                  let (_, readable) = call_tracked-readable kind run.attempt site f e in
                  let pair : (copy', made) ≡ (copy, full) =
                    ok-injective (rw good at (rw (a, safety_copy) at h)) in
                  let stored : Stored (is_known copy'.id) c (put c run.write made called.2).1
                      made.id =
                    elim (put-Stored c rt (is_known copy'.id) run.write made called.2 readable
                      (has_copy copy' called.1)) [
                        | inl new ↦ new
                        | inr (failed, x) ↦ cc (good, failed)
                      ] in
                  subst (λ r. IsSafe r.0 r.1 site run.attempt.answer (safety_copy c run site f).1)
                    pair
                    (record {
                      answered = call_tracked-answer kind run.attempt site f a;
                      held = has_copy copy' called.1;
                      stored = rw (a, safety_copy) stored;
                      same = call_tracked-id c kind run.attempt site f;
                    })
            ]
      ]
