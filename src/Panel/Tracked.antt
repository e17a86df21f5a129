-- ===== src/Panel/Tracked.antt =====
-- callTracked and operationPending of cmd/panel/runtime.go: a call of the worker under a marker that is
-- stored before it.
use mathlib.Core.Path.{subst}
use panel4wp.Prelude.{
  ◌≡◌, ◌⊎◌, inl, inr, refl, sym, ap, ◌∙◌, Bool, true, false, Option, none, some, [], if◌then◌else◌,
  ◌==◌, text_eq, ==_refl, Text, codes, Result, ok, err, is_ok, Bool-cases, Result-cases,
  Option-cases,
}
use panel4wp.Files.{File, Write}
use panel4wp.Core.Model.{Time, Site, Operation}
use panel4wp.Store.{Sites, SitesCodec, read_sites, put, get}
use panel4wp.Store.Laws.{SitesRoundTrip, get-put}

abbrev pub pending : Text
pending = codes "pending"

abbrev pub succeeded : Text
succeeded = codes "succeeded"

-- operationPending
unfoldable pub operation_pending : Site → Bool
operation_pending site = elim site.operation [ none ↦ false | some op ↦ op.state == pending ]

-- What one call meets: the identifier that was drawn, the clock, how the two writes of the store end,
-- and the worker's answer, in which a lost response is an error too.
pub record Attempt (A : Type 0) : Type 0 where
  pub id : Option Text
  pub started : Time
  pub finished : Time
  pub first : Write
  pub second : Write
  pub answer : Result Text A

pub data CallError : Type 0 where
  no_id not_recorded not_saved : CallError
  worker : Text → CallError

abbrev pub marker : Text → Text → Time → Operation
marker id kind started = record {
  id = id;
  kind = kind;
  state = pending;
  started_at = started;
  finished_at = 0;
  error = [];
  backup = none;
  admission_rejected = false;
}

abbrev pub not_confirmed : Text
not_confirmed =
    codes "Response was not confirmed. Refresh service status to resolve this operation."

-- The answer is there: the caller stores a success, an error is stored here.
unfoldable pub settle :
    {A : Type 0}
    → SitesCodec
    → Attempt A
    → Operation
    → Site
    → File
    → Result CallError A × Site × File
settle c a op site f = elim a.answer [
  | ok result ↦ (
    ok result,
    record site { operation = some (record op { state = succeeded; finished_at = a.finished }) },
    f,
  )
  | err message ↦
      let noted = record site { operation = some (record op { error = not_confirmed }) } in
      let (saved, f') = put c a.second noted f in
      (if is_ok saved then err (worker message) else err not_saved, noted, f')
]

-- callTracked: its error, the site that the caller goes on with, and the store.
unfoldable pub call_tracked :
    {A : Type 0} → SitesCodec → Text → Attempt A → Site → File → Result CallError A × Site × File
unfolding settle
call_tracked c kind a site f = elim a.id [
  | none ↦ (err no_id, site, f)
  | some id ↦
      let marked = record site { operation = some (marker id kind a.started) } in
      let (recorded, f') = put c a.first marked f in
      let rest = settle c a (marker id kind a.started) marked f' in
      if is_ok recorded then rest else (err not_recorded, marked, f')
]

-- The store has the site under its identifier, and it meets a test.
abbrev pub Stored : (Site → Bool) → SitesCodec → File → Text → Type 0
Stored test c f id = (s : Site) × (get c id f ≡ ok (some s)) × (test s ≡ true)

module _ (c : SitesCodec) (rt : SitesRoundTrip c) (test : Site → Bool) where
  -- A write of a site that meets the test, when it succeeds
  pub put-Stored :
      (w : Write) (s : Site) (f : File) {m : Sites}
      → read_sites c f ≡ ok m
      → test s ≡ true
      → (Stored test c (put c w s f).1 s.id)
        ⊎ ((is_ok (put c w s f).0 ≡ false) × ((put c w s f).1 ≡ f))
  put-Stored w s f e p = elim (get-put c rt w f s s.id e) [
    | inl (stored, found) ↦ inl (s, found ∙ ap ok (rw (==_refl s.id) refl), p)
    | inr same ↦ inr same
  ]

  pub Stored-readable :
      (id : Text) (f : File) → Stored test c f id → (m : Sites) × (read_sites c f ≡ ok m)
  unfolding get
  Stored-readable id f (s, found, p) = elim (Result-cases (read_sites c f)) [
    | inl (m, e) ↦ (m, e)
    | inr (x, e) ↦ cc (rw (e, get) at found)
  ]

  -- A further write, however it ends
  pub put-Stored_again :
      (w : Write) (s : Site) (f : File)
      → test s ≡ true
      → Stored test c f s.id
      → Stored test c (put c w s f).1 s.id
  put-Stored_again w s f p h =
      let (m, e) = Stored-readable s.id f h in
      elim (put-Stored w s f e p) [
        | inl new ↦ new
        | inr (failed, same) ↦ subst (λ g. Stored test c g s.id) (sym same) h
      ]

-- The store has the site with an operation that is not resolved.
abbrev pub IsMarked : SitesCodec → File → Text → Type 0
IsMarked = Stored operation_pending

module _ (c : SitesCodec) (rt : SitesRoundTrip c) where
  settle-IsMarked :
      {A : Type 0} (a : Attempt A) (op : Operation) (site : Site) (f : File)
      → op.state ≡ pending
      → IsMarked c f site.id
      → IsMarked c (settle c a op site f).2 site.id
  unfolding settle operation_pending
  settle-IsMarked a op site f p h = elim (Result-cases a.answer) [
    | inl (v, e) ↦ rw (e, settle) h
    | inr (m, e) ↦
        rw (e, settle)
          (put-Stored_again c rt operation_pending a.second
            (record site { operation = some (record op { error = not_confirmed }) }) f
            (rw p (==_refl pending)) h)
  ]

  -- Either the worker was not asked and the store is as it was, or it holds the marker, whatever the
  -- worker answered, and however the second write ended.
  pub call_tracked-IsMarked :
      {A : Type 0} (kind : Text) (a : Attempt A) (site : Site) (f : File) {m : Sites}
      → read_sites c f ≡ ok m
      → (((call_tracked c kind a site f).2 ≡ f)
          × (((call_tracked c kind a site f).0 ≡ err CallError.no_id)
              ⊎ ((call_tracked c kind a site f).0 ≡ err CallError.not_recorded)))
        ⊎ IsMarked c (call_tracked c kind a site f).2 site.id
  unfolding call_tracked operation_pending
  call_tracked-IsMarked kind a site f e = elim (Option-cases a.id) [
    | inl n ↦ inl (rw (n, call_tracked) refl, inl (rw (n, call_tracked) refl))
    | inr (id, n) ↦
        let op = marker id kind a.started in
        let marked : Site = record site { operation = some op } in
        elim (put-Stored c rt operation_pending a.first marked f e (==_refl pending)) [
          | inl stored ↦ elim (Bool-cases (is_ok (put c a.first marked f).0)) [
            | inl good ↦ inr (
                rw (n, call_tracked)
                  (rw good (settle-IsMarked a op marked (put c a.first marked f).1 refl stored)))
            | inr bad ↦ inr (rw (n, call_tracked) (rw bad stored))
          ]
          | inr (failed, same) ↦
              inl
                (rw (n, call_tracked) (rw failed same), inr (rw (n, call_tracked) (rw failed refl)))
        ]
  ]

settle-id :
    {A : Type 0} (c : SitesCodec) (a : Attempt A) (op : Operation) (site : Site) (f : File)
    → (settle c a op site f).1.id ≡ site.id
unfolding settle
settle-id c a op site f = elim (Result-cases a.answer) [
  | inl (v, e) ↦ rw (e, settle) refl
  | inr (m, e) ↦ rw (e, settle) refl
]

-- The caller goes on with the same site.
pub call_tracked-id :
    {A : Type 0} (c : SitesCodec) (kind : Text) (a : Attempt A) (site : Site) (f : File)
    → (call_tracked c kind a site f).1.id ≡ site.id
unfolding call_tracked
call_tracked-id c kind a site f = elim (Option-cases a.id) [
  | inl n ↦ rw (n, call_tracked) refl
  | inr (id, n) ↦
      let marked : Site = record site { operation = some (marker id kind a.started) } in
      elim (Bool-cases (is_ok (put c a.first marked f).0)) [
        | inl good ↦
            rw (n, call_tracked)
              (rw good (settle-id c a (marker id kind a.started) marked (put c a.first marked f).1))
        | inr bad ↦ rw (n, call_tracked) (rw bad refl)
      ]
]
