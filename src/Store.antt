-- ===== src/Store.antt =====
-- internal/store/store.go: the sites, kept in one JSON file that is read and rewritten by every call.
-- A call holds the mutex from its read to its write, so calls do not interleave.
pub mod Laws
pub mod Plans
use panel4wp.Prelude.{
  ℕ, ◌≡◌, refl, Bool, true, false, not, Option, none, some, List, [], ◌∷◌, ltb, if◌then◌else◌, ◌==◌,
  text_eq, Text, Result, ok, err,
}
use panel4wp.Files.{File, missing, unreadable, content, Write, write_json}
use panel4wp.Core.Model.{Site}

-- map[string]core.Site
abbrev pub Sites : Type 0
Sites = List (Text × Site)

unfoldable pub get_site : Text → Sites → Option Site
get_site id [] = none
get_site id ((k, s) ∷ m) = if k == id then some s else get_site id m

-- sites[id] = site
unfoldable pub put_site : Text → Site → Sites → Sites
put_site id site [] = (id, site) ∷ []
put_site id site ((k, s) ∷ m) = if k == id then (id, site) ∷ m else (k, s) ∷ put_site id site m

-- delete(sites, id)
unfoldable pub remove_site : Text → Sites → Sites
remove_site id [] = []
remove_site id ((k, s) ∷ m) = let rest = remove_site id m in if k == id then rest else (k, s) ∷ rest

pub data StoreError : Type 0 where
  unreadable_store undecodable not_written : StoreError

-- json.Unmarshal and json.MarshalIndent; a JSON null leaves the map nil, which the code replaces.
pub record SitesCodec : Type 0 where
  pub decode : Text → Option (Option Sites)
  pub encode : Sites → Text

abbrev or_empty : Option Sites → Sites
or_empty none = []
or_empty (some sites) = sites

-- Store.read
unfoldable pub read_sites : SitesCodec → File → Result StoreError Sites
read_sites c missing = ok []
read_sites c unreadable = err unreadable_store
read_sites c (content text) = elim (c.decode text) [
  | none ↦ err undecodable
  | some sites ↦ ok (or_empty sites)
]

unfoldable pub write_sites : SitesCodec → Write → Sites → File → Result StoreError (Unit {0}) × File
write_sites c w sites f =
    let (f', failed) = write_json w (c.encode sites) f in
    (if failed then err not_written else ok tt, f')

-- Store.Get: `none` is the flag `false`
unfoldable pub get : SitesCodec → Text → File → Result StoreError (Option Site)
unfolding read_sites get_site
get c id f = elim (read_sites c f) [ err e ↦ err e | ok sites ↦ ok (get_site id sites) ]

-- Store.Put
unfoldable pub put : SitesCodec → Write → Site → File → Result StoreError (Unit {0}) × File
put c w site f = elim (read_sites c f) [
  | err e ↦ (err e, f)
  | ok sites ↦ write_sites c w (put_site site.id site sites) f
]

-- Store.Delete
unfoldable pub delete : SitesCodec → Write → Text → File → Result StoreError (Unit {0}) × File
delete c w id f = elim (read_sites c f) [
  | err e ↦ (err e, f)
  | ok sites ↦ write_sites c w (remove_site id sites) f
]

abbrev values : Sites → List Site
values [] = []
values ((k, s) ∷ m) = s ∷ values m

-- One more site in a list with the newest first. Go leaves the order of equal times open.
insert_newest : Site → List Site → List Site
insert_newest s [] = s ∷ []
insert_newest s (t ∷ ts) =
    if ltb s.created_at t.created_at then t ∷ insert_newest s ts else s ∷ t ∷ ts

unfoldable pub sort_newest : List Site → List Site
unfolding insert_newest
sort_newest [] = []
sort_newest (s ∷ ss) = insert_newest s (sort_newest ss)

-- Store.List
unfoldable pub list : SitesCodec → File → Result StoreError (List Site)
unfolding sort_newest
list c f = elim (read_sites c f) [ err e ↦ err e | ok sites ↦ ok (sort_newest (values sites)) ]
