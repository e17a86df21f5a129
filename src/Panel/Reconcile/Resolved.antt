-- ===== src/Panel/Reconcile/Resolved.antt =====
-- cmd/panel/runtime.go: what reconcileRuntime leaves pending when the worker answers.
use mathlib.Core.Path.{subst}
use panel4wp.Prelude.{
  ◌≡◌, inl, inr, refl, ap, ◌∙◌, arith, true, false, ◌&&◌, Option, none, some, List, [], ◌∷◌, ◌++◌,
  any, ◌==◌, text_eq, nat_eq, text_beq, Text, codes, ok, is_ok, length, ℕ, Bool-cases, Result-cases,
  Option-cases, ok-injective,
}
use panel4wp.Files.{File, content, written}
use panel4wp.Core.Model.{Site, SiteRuntime, Operation}
use panel4wp.Store.{
  Sites, SitesCodec, get_site, put_site, remove_site, get, put, delete, read_sites,
}
use panel4wp.Store.Laws.{
  SitesRoundTrip, read_sites-content, put-written, delete-written, get_site-put_site,
  get_site-remove_site, Keyed, list-Keyed,
}
use panel4wp.Panel.{Panel, note}
use panel4wp.Panel.Tracked.{operation_pending, pending, succeeded}
use panel4wp.Panel.Reconcile.{
  Visit, Turn, go_on, RuntimeError, answered, known_status, with_limits, resolved,
  confirmed_backups, recovered, settled, store_visit, recover, take_snapshot, visit, visit_all,
  reconcile_runtime,
}

-- Each unresolved operation belongs to a site of the list.
abbrev pub Covered : Sites → List Site → Type 0
Covered m ss =
    (j : Text) (s : Site)
    → get_site j m ≡ some s
    → operation_pending s ≡ true
    → any (λ (t : Site). t.id == j) ss ≡ true

put_site-Covered :
    (s t : Site) (m : Sites) (ss : List Site)
    → operation_pending s ≡ false
    → Covered m (t ∷ ss)
    → Covered (put_site t.id s m) ss
put_site-Covered s t m ss h k j u e p = elim (Bool-cases (t.id == j)) [
  | inl same ↦
      let found : some s ≡ some u = rw (get_site-put_site t.id j s m, same) at e in cc (h, p, found)
  | inr other ↦
      let found : get_site j m ≡ some u = rw (get_site-put_site t.id j s m, other) at e in
      rw other at (k j u found p)
]

remove_site-Covered :
    (t : Site) (m : Sites) (ss : List Site) → Covered m (t ∷ ss) → Covered (remove_site t.id m) ss
remove_site-Covered t m ss k j u e p = elim (Bool-cases (t.id == j)) [
  | inl same ↦
      let found : ◌≡◌ {A = Option Site} none (some u) =
        rw (get_site-remove_site t.id j m, same) at e in
      cc found
  | inr other ↦
      let found : get_site j m ≡ some u = rw (get_site-remove_site t.id j m, other) at e in
      rw other at (k j u found p)
]

settled-operation :
    (r : SiteRuntime) (s : Site)
    → ((settled r s).operation ≡ s.operation) × ((settled r s).id ≡ s.id)
unfolding settled
settled-operation r s = ground arith

recovered-operation :
    (r : SiteRuntime) (op : Operation) (s : Site)
    → ((recovered r op s).operation ≡ s.operation) × ((recovered r op s).id ≡ s.id)
unfolding recovered
recovered-operation r op s = ground arith

-- A receipt that the worker has resolved.
abbrev pub Final : Option Operation → Type 0
Final none = Unit
Final (some receipt) = (receipt.state == pending) ≡ false

resolved-final :
    (receipt : Option Operation) (own : Operation)
    → Final receipt
    → ((resolved receipt own).state == pending) ≡ false
unfolding resolved text_beq
resolved-final none own h = refl
resolved-final (some r) own h = elim (Bool-cases (r.id == own.id)) [
  | inl same ↦ rw same h
  | inr other ↦ rw other refl
]

with_limits-site :
    (r : SiteRuntime) (site s : Site)
    → with_limits r.resources site ≡ ok s
    → (s.operation ≡ site.operation) × (s.id ≡ site.id)
unfolding with_limits
with_limits-site r site s h = ground arith

-- A visit that the worker answers with a final receipt and with what the panel accepts, and whose write
-- gets through.
pub record Answered (v : Visit) : Type 0 where
  pub snapshot : SiteRuntime
  pub asked : v.asked ≡ answered snapshot
  pub status : known_status snapshot.status ≡ true
  pub limits : (site : Site) → is_ok (with_limits snapshot.resources site) ≡ true
  pub receipt : Final snapshot.operation
  pub write : v.write ≡ written

-- The turn goes on, and what it leaves unresolved belongs to the sites after it.
abbrev Advances : SitesCodec → Sites → Option RuntimeError → Site → List Site → Turn → Type 0
Advances c m first t ss turn =
    (q : Panel) × (m' : Sites) × (turn ≡ go_on first q)
    × (read_sites c q.sites ≡ ok m')
    × (Covered m (t ∷ ss) → Covered m' ss)

module _ (c : SitesCodec) (rt : SitesRoundTrip c) (v : Visit) (good : Answered v)
    (first : Option RuntimeError) (t : Site) (ss : List Site) (m : Sites) where
  store_visit-Advances :
      (s : Site) (p : Panel)
      → read_sites c p.sites ≡ ok m
      → s.id ≡ t.id
      → operation_pending s ≡ false
      → Advances c m first t ss (store_visit c v first s p)
  unfolding store_visit operation_pending
  store_visit-Advances s p e i h =
      let s' : Site = record s { health_checked_at = v.checked_at } in
      let m' = put_site t.id s' m in
      let put_is : put c v.write s' p.sites ≡ (ok tt, content (c.encode m')) =
        rw good.write (
          put-written c p.sites e s' ∙ ap (λ k. (ok tt, content (c.encode (put_site k s' m)))) i) in
      (
        record p { sites = content (c.encode m') },
        m',
        rw (put_is, store_visit) (rw put_is refl),
        read_sites-content c m' rt,
        put_site-Covered s' t m ss h,
      )

  recover-Advances :
      (own : Operation) (s : Site) (p : Panel)
      → read_sites c p.sites ≡ ok m
      → s.id ≡ t.id
      → Advances c m first t ss (recover c v good.snapshot first own s p)
  unfolding recover operation_pending note
  recover-Advances own s p e i =
      let r = good.snapshot in
      let op = resolved r.operation own in
      let next : Site = record s {
        operation = some op;
        backups = confirmed_backups r.operation own s.backups;
      } in
      let (kept, same) = recovered-operation r op next in
      elim (Bool-cases (op.kind == codes "delete" && op.state == succeeded)) [
        | inl gone ↦
            let m' = remove_site t.id m in
            let delete_is : delete c v.write s.id p.sites ≡ (ok tt, content (c.encode m')) =
              rw good.write (
                delete-written c p.sites e s.id
                ∙ ap (λ k. (ok tt, content (c.encode (remove_site k m)))) i) in
            (
              note (codes "operation-recovered") s.id true (codes "confirmed deletion")
                  (record p { sites = content (c.encode m') }),
              m',
              rw (gone, recover) (rw delete_is (rw delete_is refl)),
              read_sites-content c m' rt,
              remove_site-Covered t m ss,
            )
        | inr stays ↦ subst (Advances c m first t ss) (rw stays refl) (
            store_visit-Advances (recovered r op next)
              (note (codes "operation-recovered") next.id (op.state == succeeded)
                (op.kind ++ codes ": " ++ op.state) p)
              e (same ∙ i) (rw kept (resolved-final r.operation own good.receipt)))
      ]

  take_snapshot-Advances :
      (p : Panel)
      → read_sites c p.sites ≡ ok m
      → Advances c m first t ss (take_snapshot c v good.snapshot first t p)
  unfolding take_snapshot operation_pending
  take_snapshot-Advances p e =
      let r = good.snapshot in
      let healthy : Site = record t { health_error = [] } in
      elim (Result-cases (with_limits r.resources healthy)) [
        | inr (x, bad) ↦ cc (good.limits healthy, ap is_ok bad)
        | inl (s, w) ↦
            let (op_same, id_same) = with_limits-site r healthy s w in
            let (kept, same) = settled-operation r s in
            elim (Option-cases s.operation) [
              | inl n ↦ rw good.status (
                  rw w (
                    rw n (
                      store_visit-Advances (settled r s) p e (same ∙ id_same) (rw (kept, n) refl))))
              | inr (own, n) ↦ elim (Bool-cases (own.state == pending)) [
                | inl waits ↦
                    rw good.status (rw w (rw n (rw waits (recover-Advances own s p e id_same))))
                | inr over ↦ rw good.status (
                    rw w (
                      rw n (
                        rw over (
                          store_visit-Advances (settled r s) p e (same ∙ id_same)
                            (rw (kept, n) over)))))
              ]
            ]
      ]

visit_all-Covered :
    (c : SitesCodec) (visits : ℕ → Visit) (first : Option RuntimeError) (ss : List Site) (p : Panel)
    (m : Sites)
    → SitesRoundTrip c
    → ((i : ℕ) → Answered (visits i))
    → read_sites c p.sites ≡ ok m
    → Covered m ss
    → ((visit_all c visits first ss p).0 ≡ first)
      × ((m' : Sites) × (read_sites c (visit_all c visits first ss p).1.sites ≡ ok m')
          × Covered m' [])
unfolding visit_all visit
visit_all-Covered c visits first [] p m rt good e k = (refl, (m, e, k))
visit_all-Covered c visits first (t ∷ ss) p m rt good e k =
    let g = good (length ss) in
    let (q, m', turn, e', k') =
      take_snapshot-Advances c rt (visits (length ss)) g first t ss m p e in
    let seen : visit c (visits (length ss)) first t p ≡ go_on first q = rw (g.asked, visit) turn in
    rw (seen, visit_all) ((visit_all-Covered c visits first ss q m' rt good e' (k' k)))

none_left :
    (m : Sites) (j : Text) (s : Site)
    → Covered m []
    → get_site j m ≡ some s
    → operation_pending s ≡ false
none_left m j s k e = elim (Bool-cases (operation_pending s)) [
  | inl waits ↦ cc (k j s e waits)
  | inr over ↦ over
]

found_in :
    (c : SitesCodec) (f : File) (j : Text) (s : Site) {m : Sites}
    → read_sites c f ≡ ok m
    → get c j f ≡ ok (some s)
    → get_site j m ≡ some s
unfolding get
found_in c f j s e h = ok-injective (rw (e, get) at h)

-- A reconciliation in which the worker answers for every site, with a receipt that is not pending, and in
-- which every write gets through, ends without an error and leaves no site with a pending operation.
pub reconcile_runtime-Resolved :
    (c : SitesCodec) (visits : ℕ → Visit) (p : Panel) {m : Sites}
    → SitesRoundTrip c
    → ((i : ℕ) → Answered (visits i))
    → read_sites c p.sites ≡ ok m
    → Keyed m
    → ((reconcile_runtime c visits p).0 ≡ none)
      × ((j : Text) (s : Site)
          → get c j (reconcile_runtime c visits p).1.sites ≡ ok (some s)
          → operation_pending s ≡ false)
unfolding reconcile_runtime
reconcile_runtime-Resolved c visits p {m} rt good e h =
    let (ss, listed, covers) = list-Keyed c p.sites e h in
    let (no_error, (m', e', k)) =
      visit_all-Covered c visits none ss p m rt good e (λ j s f _. covers j s f) in
    rw (listed, reconcile_runtime) (no_error, λ j s f. none_left m' j s k (found_in c _ j s e' f))
