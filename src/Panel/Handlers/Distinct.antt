-- ===== src/Panel/Handlers/Distinct.antt =====
-- cmd/panel/main.go: the domains of the sites in the store, which createSite keeps apart.
use mathlib.Core.Path.{subst}
use mathlib.Core.Option.{some-injective}
use panel4wp.Prelude.{
  ◌≡◌, ◌⊎◌, inl, inr, refl, sym, ap, ◌∙◌, true, false, some, List, [], any, ◌==◌, ==_refl, text_eq,
  Text, codes, ok, is_ok, Bool-cases, Result-cases, Option-cases, eq_of_==, ok-injective,
  guard_passed, >>=-eq-ok, map_err, ok_or,
}
use panel4wp.Files.{File, Write}
use panel4wp.Core.Model.{Site, Operation, Resources, running, failed}
use panel4wp.Store.{Sites, SitesCodec, put, get, get_site, read_sites, list}
use panel4wp.Store.Laws.{SitesRoundTrip, get-put, any-list}
use panel4wp.Panel.{Panel, note}
use panel4wp.Panel.Tracked.{
  Attempt, marker, settle, call_tracked, not_confirmed, call_tracked-id, put-Stored,
  Stored-readable,
}
use panel4wp.Panel.Handlers.Safety.{error_of}
use panel4wp.Panel.Handlers.Create.{
  CreateRun, has_domain, admit, admitted, new_site, ask_create, create_site, no_capacity, no_room,
  no_credentials,
}
use panel4wp.Core.Capacity.{check}
use panel4wp.Core.Ids.{random_password}

-- No two sites of the store have one domain.
abbrev pub Distinct : SitesCodec → File → Type 0
Distinct c f =
    (i j : Text) (s t : Site)
    → get c i f ≡ ok (some s)
    → get c j f ≡ ok (some t)
    → s.domain ≡ t.domain
    → i ≡ j

-- And the file is read, and a domain is the site's under an identifier, if anyone's.
abbrev Reserved : SitesCodec → Text → Text → File → Type 0
Reserved c id domain f =
    ((m : Sites) × (read_sites c f ≡ ok m))
    × Distinct c f
    × ((j : Text) (t : Site) → get c j f ≡ ok (some t) → t.domain ≡ domain → j ≡ id)

module _ (c : SitesCodec) (rt : SitesRoundTrip c) where
  pub get-read :
      (j : Text) (f : File) {m : Sites} → read_sites c f ≡ ok m → get c j f ≡ ok (get_site j m)
  unfolding get
  get-read j f e = rw (e, get) refl

  -- What is found after a write is the site that was written, or was there before.
  get-put_cases :
      (w : Write) (s t : Site) (j : Text) (f : File) {m : Sites}
      → read_sites c f ≡ ok m
      → get c j (put c w s f).1 ≡ ok (some t)
      → ((j ≡ s.id) × (t ≡ s)) ⊎ (get c j f ≡ ok (some t))
  get-put_cases w s t j f {m} e h = elim (get-put c rt w f s j e) [
    | inr (_, same) ↦ inr (rw same at h)
    | inl (good, q) ↦ elim (Bool-cases (s.id == j)) [
      | inl same ↦
          inl
            (sym (eq_of_== s.id j same), some-injective _ _ (ok-injective (sym h ∙ (rw same at q))))
      | inr other ↦ inr (get-read j f e ∙ sym (rw other at q) ∙ h)
    ]
  ]

  put-readable :
      (w : Write) (s : Site) (f : File) {m : Sites}
      → read_sites c f ≡ ok m
      → (m' : Sites) × (read_sites c (put c w s f).1 ≡ ok m')
  put-readable w s f {m} e = elim (put-Stored c rt (λ t. true) w s f e refl) [
    | inl new ↦ Stored-readable c rt (λ t. true) s.id _ new
    | inr (_, same) ↦ (m, ap (read_sites c) same ∙ e)
  ]

  put-Reserved :
      (w : Write) (s : Site) (f : File)
      → Reserved c s.id s.domain f
      → Reserved c s.id s.domain (put c w s f).1
  put-Reserved w s f ((m, e), d, r) = (
    put-readable w s f e,
    (λ i j u t h k q. elim (get-put_cases w s u i f e h) [
      | inl (i_new, u_new) ↦ elim (get-put_cases w s t j f e k) [
        | inl (j_new, t_new) ↦ i_new ∙ sym j_new
        | inr t_old ↦ i_new ∙ sym (r j t t_old (sym q ∙ ap (λ (x : Site). x.domain) u_new))
      ]
      | inr u_old ↦ elim (get-put_cases w s t j f e k) [
        | inl (j_new, t_new) ↦ r i u u_old (q ∙ ap (λ (x : Site). x.domain) t_new) ∙ sym j_new
        | inr t_old ↦ d i j u t u_old t_old q
      ]
    ]),
    (λ j t h q. elim (get-put_cases w s t j f e h) [ inl (new, x) ↦ new | inr old ↦ r j t old q ]),
  )

  settle-Reserved :
      {A : Type 0} (a : Attempt A) (op : Operation) (site : Site) (f : File)
      → Reserved c site.id site.domain f
      → Reserved c site.id site.domain (settle c a op site f).2
        × ((settle c a op site f).1.domain ≡ site.domain)
  unfolding settle
  settle-Reserved a op site f h = elim (Result-cases a.answer) [
    | inl (v, e) ↦ rw (e, settle) (h, refl)
    | inr (x, e) ↦
        rw (e, settle)
          (
            put-Reserved a.second
                (record site { operation = some (record op { error = not_confirmed }) }) f h,
            refl,
          )
  ]

  call_tracked-Reserved :
      {A : Type 0} (kind : Text) (a : Attempt A) (site : Site) (f : File)
      → Reserved c site.id site.domain f
      → Reserved c site.id site.domain (call_tracked c kind a site f).2
        × ((call_tracked c kind a site f).1.domain ≡ site.domain)
  unfolding call_tracked
  call_tracked-Reserved kind a site f h = elim (Option-cases a.id) [
    | inl n ↦ rw (n, call_tracked) (h, refl)
    | inr (id, n) ↦
        let op = marker id kind a.started in
        let marked : Site = record site { operation = some op } in
        let h' = put-Reserved a.first marked f h in
        elim (Bool-cases (is_ok (put c a.first marked f).0)) [
          | inl good ↦ rw (n, call_tracked) (rw good (settle-Reserved a op marked _ h'))
          | inr bad ↦ rw (n, call_tracked) (rw bad (h', refl))
        ]
  ]

  -- The site that was called with is stored again.
  put_same-Reserved :
      (w : Write) (s site : Site) (f : File)
      → s.id ≡ site.id
      → s.domain ≡ site.domain
      → Reserved c site.id site.domain f
      → Reserved c site.id site.domain (put c w s f).1
  put_same-Reserved w s site f i d h =
      subst (λ k. Reserved c k site.domain (put c w s f).1) i
        (subst (λ k. Reserved c s.id k (put c w s f).1) d
          (put-Reserved w s f (
            subst (λ k. Reserved c s.id k f) (sym d)
              (subst (λ k. Reserved c k site.domain f) (sym i) h))))

  ask_create-Reserved :
      (run : CreateRun) (site : Site) (p : Panel)
      → Reserved c site.id site.domain p.sites
      → Reserved c site.id site.domain (ask_create c run site p).1.sites
  unfolding ask_create note
  ask_create-Reserved run site p h =
      let kind = codes "create" in
      let called = call_tracked c kind run.attempt site p.sites in
      let same = call_tracked-id c kind run.attempt site p.sites in
      let (k, domain) = call_tracked-Reserved kind run.attempt site p.sites h in
      elim (Result-cases called.0) [
        | inr (e, a) ↦
            rw (a, ask_create)
              (put_same-Reserved run.last (record called.1 { status = failed; error = error_of e })
                site called.2 same domain k)
        | inl (v, a) ↦
            let up : Site = record called.1 { status = running; error = []; health_error = [] } in
            let stored = put_same-Reserved run.last up site called.2 same domain k in
            elim (Bool-cases (is_ok (put c run.last up called.2).0)) [
              | inl good ↦ rw (a, ask_create) (rw good stored)
              | inr bad ↦ rw (a, ask_create) (rw bad stored)
            ]
      ]

-- A site passes the checks only if no listed site has its domain.
admit-free :
    (run : CreateRun) (sites : List Site) (made : Site × Resources) (site : Site)
    → admit run sites made ≡ ok site
    → any (has_domain site.domain) sites ≡ false
unfolding admit
admit-free run sites (made, limits) site h =
    let (free, rest) = guard_passed (any (has_domain made.domain) sites) _ _ h in
    let (capacity, _, more) = >>=-eq-ok (ok_or run.capacity no_capacity) _ rest in
    let (_, _, last) = >>=-eq-ok (map_err no_room (check capacity limits)) _ more in
    let (_, _, one) =
      >>=-eq-ok (ok_or (random_password run.database_bytes) no_credentials) _ last in
    let (_, _, end) = >>=-eq-ok (ok_or (random_password run.admin_bytes) no_credentials) _ one in
    subst (λ (s : Site). any (has_domain s.domain) sites ≡ false) (ok-injective end) free

admitted-free :
    (c : SitesCodec) (run : CreateRun) (f : File) (site : Site) {ss : List Site}
    → list c f ≡ ok ss
    → admitted c run f ≡ ok site
    → any (has_domain site.domain) ss ≡ false
unfolding admitted
admitted-free c run f site {ss} e h =
    let (made, _, rest) = >>=-eq-ok (new_site run) _ h in admit-free run ss made site (rw e at rest)

-- The creation of a site, however it ends, leaves no two sites of the store with one domain if there
-- were none.
pub create_site-Distinct :
    (c : SitesCodec) (run : CreateRun) (p : Panel) {m : Sites}
    → SitesRoundTrip c
    → read_sites c p.sites ≡ ok m
    → Distinct c p.sites
    → Distinct c (create_site c run p).1.sites
unfolding create_site
create_site-Distinct c run p {m} rt e d = elim (Result-cases (admitted c run p.sites)) [
  | inr (x, a) ↦ rw (a, create_site) d
  | inl (site, a) ↦
      let (ss, listed, covers) = any-list c p.sites e in
      let free = admitted-free c run p.sites site listed a in
      let alone : (j : Text) (t : Site)
          → get c j p.sites ≡ ok (some t)
          → t.domain ≡ site.domain
          → j ≡ site.id =
        λ j t h q.
          let found : get_site j m ≡ some t = ok-injective (sym (get-read c rt j p.sites e) ∙ h) in
          let hit : has_domain site.domain t ≡ true = rw q (==_refl site.domain) in
          cc (free, covers (has_domain site.domain) j t found hit) in
      let first = put-Reserved c rt run.first site p.sites ((m, e), d, alone) in
      elim (Bool-cases (is_ok (put c run.first site p.sites).0)) [
        | inl good ↦
            rw (a, create_site)
              (rw good
                (ask_create-Reserved c rt run site
                  (record p { sites = (put c run.first site p.sites).1 }) first).1)
        | inr bad ↦ rw (a, create_site) (rw bad first.1)
      ]
]
