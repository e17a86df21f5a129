-- ===== src/Store/Laws.antt =====
-- internal/store/store.go: theorems on the calls of the store.
use mathlib.Core.Option.{some-injective}
use mathlib.Core.List.{Perm}
use mathlib.Core.List.Perm
use panel4wp.Prelude.{
  ℕ, ◌≤◌, ◌≡◌, ◌⊎◌, Bool, any, inl, inr, refl, ap, ◌∙◌, true, false, none, some, List, [], ◌∷◌,
  arith, ltb, if◌then◌else◌, ◌==◌, text_eq, text_beq_iff, eq_of_==, ==_refl, sym, Text, ok, err,
  Bool-cases, is_ok, All, All-mono,
}
use panel4wp.Files.{File, content, Write, written, failed_before, failed_after, write_json}
use panel4wp.Core.Model.{Site}
use panel4wp.Store.{
  Sites, SitesCodec, StoreError, get_site, put_site, remove_site, read_sites, get, put, delete,
  insert_newest, sort_newest, values, list, write_sites,
}

pub get_site-put_site :
    (id j : Text) (s : Site) (m : Sites)
    → get_site j (put_site id s m) ≡ (if id == j then some s else get_site j m)
unfolding get_site put_site
get_site-put_site id j s [] = refl
get_site-put_site id j s ((k, t) ∷ m) =
    ground
      (arith, get_site-put_site id j s m, text_beq_iff id j, text_beq_iff k id, text_beq_iff k j)

pub get_site-remove_site :
    (id j : Text) (m : Sites)
    → get_site j (remove_site id m) ≡ (if id == j then none else get_site j m)
unfolding get_site remove_site
get_site-remove_site id j [] = ground arith
get_site-remove_site id j ((k, t) ∷ m) =
    ground
      (arith, get_site-remove_site id j m, text_beq_iff id j, text_beq_iff k id, text_beq_iff k j)

-- What is written is read back.
abbrev pub SitesRoundTrip : SitesCodec → Type 0
SitesRoundTrip c = (m : Sites) → c.decode (c.encode m) ≡ some (some m)

pub read_sites-content :
    (c : SitesCodec) (m : Sites) → SitesRoundTrip c → read_sites c (content (c.encode m)) ≡ ok m
unfolding read_sites
read_sites-content c m rt = rw (rt m, read_sites)

get-content :
    (c : SitesCodec) (j : Text) (m : Sites)
    → SitesRoundTrip c
    → get c j (content (c.encode m)) ≡ ok (get_site j m)
unfolding get
get-content c j m rt = rw (read_sites-content c m rt, get) refl

-- A write either stores the new map or reports an error and leaves the file alone.
write_sites_cases :
    (c : SitesCodec) (w : Write) (m : Sites) (f : File)
    → (write_sites c w m f ≡ (ok tt, content (c.encode m)))
      ⊎ (write_sites c w m f ≡ (err StoreError.not_written, f))
unfolding write_sites write_json
write_sites_cases c written m f = inl refl
write_sites_cases c failed_before m f = inr refl
write_sites_cases c failed_after m f = inl refl

module _ (c : SitesCodec) (rt : SitesRoundTrip c) (w : Write) (f : File) where
  -- After a Put that succeeded, Get finds the site under its identifier and every other identifier as
  -- before; after one that failed, the file is as it was.
  pub get-put :
      (s : Site) (j : Text) {m : Sites}
      → read_sites c f ≡ ok m
      → ((is_ok (put c w s f).0 ≡ true)
          × (get c j (put c w s f).1 ≡ ok (if s.id == j then some s else get_site j m)))
        ⊎ ((is_ok (put c w s f).0 ≡ false) × ((put c w s f).1 ≡ f))
  unfolding put
  get-put s j {m} e = elim (write_sites_cases c w (put_site s.id s m) f) [
    | inl k ↦ inl (
      rw (e, put) (rw k),
      rw (e, put)
          (rw k (get-content c j (put_site s.id s m) rt ∙ ap ok (get_site-put_site s.id j s m))),
    )
    | inr k ↦ inr (rw (e, put) (rw k), rw (e, put) (rw k))
  ]

  -- After a Delete that succeeded, the identifier is gone and every other one is as before; after one
  -- that failed, the file is as it was.
  pub get-delete :
      (id j : Text) {m : Sites}
      → read_sites c f ≡ ok m
      → ((is_ok (delete c w id f).0 ≡ true)
          × (get c j (delete c w id f).1 ≡ ok (if id == j then none else get_site j m)))
        ⊎ ((is_ok (delete c w id f).0 ≡ false) × ((delete c w id f).1 ≡ f))
  unfolding delete
  get-delete id j {m} e = elim (write_sites_cases c w (remove_site id m) f) [
    | inl k ↦ inl (
      rw (e, delete) (rw k),
      rw (e, delete)
          (rw k (get-content c j (remove_site id m) rt ∙ ap ok (get_site-remove_site id j m))),
    )
    | inr k ↦ inr (rw (e, delete) (rw k), rw (e, delete) (rw k))
  ]

-- A write that gets through stores the new map.
module _ (c : SitesCodec) (f : File) {m : Sites} (e : read_sites c f ≡ ok m) where
  pub put-written : (s : Site) → put c written s f ≡ (ok tt, content (c.encode (put_site s.id s m)))
  unfolding put write_sites write_json
  put-written s = rw (e, put) refl

  pub delete-written :
      (id : Text) → delete c written id f ≡ (ok tt, content (c.encode (remove_site id m)))
  unfolding delete write_sites write_json
  delete-written id = rw (e, delete) refl

insert_newest-perm : (s : Site) (ss : List Site) → Perm (insert_newest s ss) (s ∷ ss)
unfolding insert_newest
insert_newest-perm s [] = Perm.refl (s ∷ [])
insert_newest-perm s (t ∷ ts) = elim (Bool-cases (ltb s.created_at t.created_at)) [
  | inl older ↦ rw older (Perm.trans (Perm.cons t (insert_newest-perm s ts)) (Perm.swap s t ts))
  | inr newer ↦ rw newer (Perm.refl (s ∷ t ∷ ts))
]

-- Each site is at least as new as those after it.
abbrev pub NewestFirst : List Site → Type 0
NewestFirst [] = Unit
NewestFirst (s ∷ ss) = All (λ (t : Site). t.created_at ≤ s.created_at) ss × NewestFirst ss

insert_newest-All :
    (n : ℕ) (s : Site) (ss : List Site)
    → s.created_at ≤ n
    → All (λ (t : Site). t.created_at ≤ n) ss
    → All (λ (t : Site). t.created_at ≤ n) (insert_newest s ss)
unfolding insert_newest
insert_newest-All n s [] h k = (h, tt)
insert_newest-All n s (t ∷ ts) h k = ground (arith, insert_newest-All n s ts h k.1)

insert_newest-NewestFirst :
    (s : Site) (ss : List Site) → NewestFirst ss → NewestFirst (insert_newest s ss)
unfolding insert_newest
insert_newest-NewestFirst s [] h = (tt, tt)
insert_newest-NewestFirst s (t ∷ ts) h = elim (Bool-cases (ltb s.created_at t.created_at)) [
  | inl older ↦
      rw older
        (insert_newest-All t.created_at s ts (ground arith) h.0, insert_newest-NewestFirst s ts h.1)
  | inr newer ↦
      let le : t.created_at ≤ s.created_at = ground arith in
      rw newer (
        (le, All-mono _ (λ (u : Site). u.created_at ≤ s.created_at) (λ u k. omega arith) ts h.0),
        h,
      )
]

-- The list that is shown holds the same sites, the newest first.
pub sort_newest_lem : (ss : List Site) → Perm (sort_newest ss) ss × NewestFirst (sort_newest ss)
unfolding sort_newest
sort_newest_lem [] = (Perm.nil, tt)
sort_newest_lem (s ∷ ss) =
    let (p, n) = sort_newest_lem ss in
    (
      Perm.trans (insert_newest-perm s (sort_newest ss)) (Perm.cons s p),
      insert_newest-NewestFirst s (sort_newest ss) n,
    )

any-insert_newest :
    (test : Site → Bool) (s : Site) (ss : List Site)
    → any test (insert_newest s ss) ≡ any test (s ∷ ss)
unfolding insert_newest
any-insert_newest test s [] = refl
any-insert_newest test s (t ∷ ts) = elim (Bool-cases (ltb s.created_at t.created_at)) [
  | inl older ↦ rw older (rw (any-insert_newest test s ts) (ground arith))
  | inr newer ↦ rw newer refl
]

any-sort_newest : (test : Site → Bool) (ss : List Site) → any test (sort_newest ss) ≡ any test ss
unfolding sort_newest
any-sort_newest test [] = refl
any-sort_newest test (s ∷ ss) =
    any-insert_newest test s (sort_newest ss) ∙ rw (any-sort_newest test ss) refl

-- Every site stands under its own identifier, as each Put leaves it.
abbrev pub Keyed : Sites → Type 0
Keyed [] = Unit
Keyed ((k, s) ∷ m) = (s.id ≡ k) × Keyed m

any-values :
    (test : Site → Bool) (j : Text) (s : Site) (m : Sites)
    → get_site j m ≡ some s
    → test s ≡ true
    → any test (values m) ≡ true
unfolding get_site
any-values test j s [] e h = cc
any-values test j s ((k, t) ∷ m) e h = elim (Bool-cases (k == j)) [
  | inl same ↦ let q : t ≡ s = some-injective _ _ (rw same at e) in rw q (rw h refl)
  | inr other ↦ let rest = any-values test j s m (rw other at e) h in rw rest (ground arith)
]

get_site-Keyed : (j : Text) (s : Site) (m : Sites) → Keyed m → get_site j m ≡ some s → s.id ≡ j
unfolding get_site
get_site-Keyed j s [] h e = cc
get_site-Keyed j s ((k, t) ∷ m) h e = elim (Bool-cases (k == j)) [
  | inl same ↦
      let q : t ≡ s = some-injective _ _ (rw same at e) in
      sym (ap (λ (x : Site). x.id) q) ∙ h.0 ∙ eq_of_== k j same
  | inr other ↦ get_site-Keyed j s m h.1 (rw other at e)
]

-- The list holds every site that is found.
pub any-list :
    (c : SitesCodec) (f : File) {m : Sites}
    → read_sites c f ≡ ok m
    → (ss : List Site) × (list c f ≡ ok ss)
      × ((test : Site → Bool) (j : Text) (s : Site)
          → get_site j m ≡ some s
          → test s ≡ true
          → any test ss ≡ true)
unfolding list
any-list c f {m} e = (
  sort_newest (values m),
  rw (e, list) refl,
  λ test j s k h. any-sort_newest test (values m) ∙ any-values test j s m k h,
)

pub list-Keyed :
    (c : SitesCodec) (f : File) {m : Sites}
    → read_sites c f ≡ ok m
    → Keyed m
    → (ss : List Site) × (list c f ≡ ok ss)
      × ((j : Text) (s : Site) → get_site j m ≡ some s → any (λ (t : Site). t.id == j) ss ≡ true)
list-Keyed c f {m} e h =
    let (ss, listed, covers) = any-list c f e in
    (
      ss,
      listed,
      λ j s k. covers (λ (t : Site). t.id == j) j s k (rw (get_site-Keyed j s m h k) (==_refl j)),
    )
