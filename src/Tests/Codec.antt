-- ===== src/Tests/Codec.antt =====
-- A codec that round-trips every ledger: each text behind its length, each list behind its count.
use panel4wp.Prelude.{
  ℕ, zero, suc, ◌≡◌, refl, ap, List, [], ◌∷◌, ◌++◌, Text, some, none, Option, length, take, drop,
}
use panel4wp.Worker.Quota.Ledger.{Reservation, Ledger}
use panel4wp.Worker.Quota.Load.{Codec}
use panel4wp.Worker.Quota.Reserve.Safety.{RoundTrips}

put_text : Text → Text → Text
put_text t rest = length t ∷ (t ++ rest)

put_entries : List Reservation → Text
unfolding put_text
put_entries [] = []
put_entries (e ∷ es) =
    put_text e.site_id (put_text e.filesystem_uuid (e.project_id ∷ put_entries es))

unfoldable pub put_ledger : Ledger → Text
unfolding put_entries
put_ledger l = elim l.reservations [
  | none ↦ l.version ∷ 0 ∷ []
  | some es ↦ l.version ∷ suc (length es) ∷ put_entries es
]

get_text : Text → Text × Text
get_text [] = ([], [])
get_text (n ∷ s) = (take n s, drop n s)

entry_of : Text → Text → Text → Reservation × Text
entry_of a b [] = (record { site_id = a; filesystem_uuid = b; project_id = 0 }, [])
entry_of a b (p ∷ s) = (record { site_id = a; filesystem_uuid = b; project_id = p }, s)

second : Text → Text → Reservation × Text
unfolding get_text entry_of
second a s = entry_of a (get_text s).0 (get_text s).1

get_entry : Text → Reservation × Text
unfolding get_text second
get_entry s = second (get_text s).0 (get_text s).1

get_entries : ℕ → Text → List Reservation
get_entries zero s = []
get_entries (suc n) s = let (e, rest) = get_entry s in e ∷ get_entries n rest

get_reservations : Text → Option (List Reservation)
get_reservations [] = none
get_reservations (zero ∷ s) = none
get_reservations (suc n ∷ s) = some (get_entries n s)

unfoldable pub get_ledger : Text → Option Ledger
unfolding get_reservations get_entries get_entry
get_ledger [] = none
get_ledger (v ∷ s) = some (record { version = v; reservations = get_reservations s })

take-append : (t r : Text) → take (length t) (t ++ r) ≡ t
take-append [] r = refl
take-append (c ∷ t) r = ap (◌∷◌ c) (take-append t r)

drop-append : (t r : Text) → drop (length t) (t ++ r) ≡ r
drop-append [] r = refl
drop-append (c ∷ t) r = drop-append t r

second-put :
    (a b : Text) (p : ℕ) (rest : Text)
    → second a (put_text b (p ∷ rest))
      ≡ (record { site_id = a; filesystem_uuid = b; project_id = p }, rest)
unfolding second put_text
second-put a b p rest = rw (take-append b (p ∷ rest), drop-append b (p ∷ rest))

get_entry-put :
    (e : Reservation) (rest : Text)
    → get_entry (put_text e.site_id (put_text e.filesystem_uuid (e.project_id ∷ rest))) ≡ (e, rest)
unfolding get_entry put_text
get_entry-put e rest =
    let more = length e.filesystem_uuid ∷ (e.filesystem_uuid ++ e.project_id ∷ rest) in
    rw (take-append e.site_id more, drop-append e.site_id more)
      (second-put e.site_id e.filesystem_uuid e.project_id rest)

get_entries-put : (es : List Reservation) → get_entries (length es) (put_entries es) ≡ es
unfolding get_entries put_entries
get_entries-put [] = refl
get_entries-put (e ∷ es) = rw (get_entry-put e (put_entries es)) (ap (◌∷◌ e) (get_entries-put es))

abbrev pub plain_codec : Codec
plain_codec = record { decode = get_ledger; encode = put_ledger }

get_ledger-put :
    (v : ℕ) (r : Option (List Reservation))
    → get_ledger (put_ledger (record { version = v; reservations = r }))
      ≡ some (record { version = v; reservations = r })
unfolding get_ledger put_ledger get_reservations
get_ledger-put v none = refl
get_ledger-put v (some es) = rw (get_entries-put es)

pub plain_codec-RoundTrips : RoundTrips plain_codec
plain_codec-RoundTrips l short = get_ledger-put l.version l.reservations
