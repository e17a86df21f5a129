-- ===== src/Worker/Quota/Load.antt =====
-- cmd/worker/quota_registry.go: `loadQuotaLedger` over the two files of the registry.
use mathlib.Core.Path.{subst}
use panel4wp.Prelude.{
  ◌≡◌, refl, Bool, true, false, ◌&&◌, ◌||◌, Option, none, some, List, [], arith, if◌then◌else◌,
  ◌==◌, text_eq, Text, codes, any, ==_refl, eq_of_==, Option-cases, Bool-cases, inl, inr,
  ok-injective, >>-eq-ok, ap, ◌∙◌, Result, ok, err, ◌>>◌,
}
use panel4wp.Core.Ids.{valid_id}
use panel4wp.Files.{
  File, missing, unreadable, content, Write, written, failed_before, failed_after, atomic_config,
}
use panel4wp.Worker.Quota.Marker.{Marker}
use panel4wp.Worker.Quota.Ledger.{
  Ledger, LedgerError, missing_ledger, undecodable, unreadable_root, marked_sites, write_failed,
  validate_ledger, validate_ledger_iff,
}

-- projects.json and .quota-initialized.
pub record Disk : Type 0 where
  pub ledger : File
  pub sentinel : File

abbrev pub sentinel_text : Text
sentinel_text = codes "panel4wp-quota-ledger-v1\n"

abbrev pub empty_ledger : Ledger
empty_ledger = record { version = 1; reservations = some [] }

-- How the JSON of a ledger is read (by `strictQuotaJSON`) and written (by json.Marshal).
pub record Codec : Type 0 where
  pub decode : Text → Option Ledger
  pub encode : Ledger → Text

-- What an initialisation meets: the entries of the root with their markers, if it can be listed, and the
-- fate of its two writes.
pub record Setup : Type 0 where
  pub root : Option (List (Text × Marker))
  pub sentinel_write : Write
  pub ledger_write : Write

abbrev is_missing : File → Bool
is_missing missing = true
is_missing _ = false

abbrev managed : Text × Marker → Bool
managed (name, m) = valid_id name && (m.marked || m.failed)

-- The sentinel, then an empty ledger.
write_files : Codec → Write → Write → Disk → Result LedgerError Ledger × Disk
write_files c sentinel_write ledger_write d =
    let (sentinel', failed) = atomic_config sentinel_write sentinel_text d.sentinel in
    let (ledger', failed') = atomic_config ledger_write (c.encode empty_ledger) d.ledger in
    if failed then (err write_failed, record d { sentinel = sentinel' }) else (
      if failed' then err write_failed else ok empty_ledger,
      record { ledger = ledger'; sentinel = sentinel' },
    )

-- The branch for a registry that was just created.
initialize :
    Codec → Option (List (Text × Marker)) → Write → Write → Disk → Result LedgerError Ledger × Disk
initialize c none sentinel_write ledger_write d = (err unreadable_root, d)
initialize c (some names) sentinel_write ledger_write d =
    if any managed names then (err marked_sites, d) else write_files c sentinel_write ledger_write d

abbrev holds_sentinel : File → Bool
holds_sentinel (content text) = text == sentinel_text
holds_sentinel _ = false

read_ledger : Codec → File → Bool → Result LedgerError Ledger
read_ledger c (content text) true = elim (c.decode text) [
  | none ↦ err undecodable
  | some l ↦ validate_ledger l >> ok l
]
read_ledger c _ _ = err missing_ledger

-- loadQuotaLedger
unfoldable pub load_ledger : Codec → Setup → Bool → Disk → Result LedgerError Ledger × Disk
unfolding initialize write_files read_ledger atomic_config
load_ledger c s fresh d =
    if fresh && is_missing d.ledger && is_missing d.sentinel
    then initialize c s.root s.sentinel_write s.ledger_write d
    else (read_ledger c d.ledger (holds_sentinel d.sentinel), d)

-- A registry whose files agree: the sentinel, and a ledger that is read back and valid.
pub record Holds (c : Codec) (d : Disk) (l : Ledger) : Type 0 where
  pub text : Text
  pub stored : d.ledger ≡ content text
  pub sealed : d.sentinel ≡ content sentinel_text
  pub decoded : c.decode text ≡ some l
  pub valid : validate_ledger l ≡ ok tt

read_ledger-valid :
    (c : Codec) (text : Text) (l : Ledger)
    → c.decode text ≡ some l
    → validate_ledger l ≡ ok tt
    → read_ledger c (content text) true ≡ ok l
unfolding read_ledger
read_ledger-valid c text l d v = rw (d, read_ledger) (rw v)

-- What was stored is what is loaded, and loading it changes nothing.
pub load_ledger-Holds :
    (c : Codec) (s : Setup) (fresh : Bool) (d : Disk) (l : Ledger)
    → Holds c d l
    → load_ledger c s fresh d ≡ (ok l, d)
unfolding load_ledger
load_ledger-Holds c s fresh d l h = ground (
  arith,
  read_ledger-valid c h.text l h.decoded h.valid,
  ==_refl sentinel_text,
  h.stored,
  h.sealed,
)

read_ledger_sound :
    (c : Codec) (f : File) (b : Bool) {l : Ledger}
    → read_ledger c f b ≡ ok l
    → (text : Text) × (f ≡ content text)
      × (b ≡ true)
      × (c.decode text ≡ some l)
      × (validate_ledger l ≡ ok tt)
unfolding read_ledger
read_ledger_sound c missing b h = cc
read_ledger_sound c unreadable b h = cc
read_ledger_sound c (content text) false h = cc
read_ledger_sound c (content text) true {l} h = elim (Option-cases (c.decode text)) [
  | inl e ↦ cc (rw (e, read_ledger) at h)
  | inr (q, e) ↦
      let k : (validate_ledger q >> ok q) ≡ ok l = rw (e, read_ledger) at h in
      let (v, o) = >>-eq-ok (validate_ledger q) (ok q) k in
      let q≡l = ok-injective o in
      (text, refl, refl, e ∙ ap some q≡l, subst (λ x. validate_ledger x ≡ ok tt) q≡l v)
]

holds_sentinel-true : (f : File) → holds_sentinel f ≡ true → f ≡ content sentinel_text
holds_sentinel-true missing h = cc
holds_sentinel-true unreadable h = cc
holds_sentinel-true (content t) h = ap content (eq_of_== t sentinel_text h)

empty_ledger-valid : validate_ledger empty_ledger ≡ ok tt
empty_ledger-valid = (validate_ledger_iff empty_ledger).1 (refl, refl, omega arith, tt)

write_files_sound :
    (c : Codec) (v w : Write) (d : Disk) {l : Ledger}
    → c.decode (c.encode empty_ledger) ≡ some empty_ledger
    → (write_files c v w d).0 ≡ ok l
    → Holds c (write_files c v w d).1 l
unfolding write_files atomic_config
write_files_sound c written written d {l} rt e = subst (Holds c _) (ok-injective e) (record {
  text = c.encode empty_ledger;
  stored = refl;
  sealed = refl;
  decoded = rt;
  valid = empty_ledger-valid;
})
write_files_sound c written failed_before d rt e = cc
write_files_sound c written failed_after d rt e = cc
write_files_sound c failed_before w d rt e = cc
write_files_sound c failed_after w d rt e = cc

initialize_sound :
    (c : Codec) (root : Option (List (Text × Marker))) (v w : Write) (d : Disk) {l : Ledger}
    → c.decode (c.encode empty_ledger) ≡ some empty_ledger
    → (initialize c root v w d).0 ≡ ok l
    → Holds c (initialize c root v w d).1 l
unfolding initialize
initialize_sound c none v w d rt e = cc
initialize_sound c (some names) v w d rt e = elim (Bool-cases (any managed names)) [
  | inl taken ↦ cc (rw taken at e)
  | inr clear ↦ rw clear (write_files_sound c v w d rt (rw clear at e))
]

-- A ledger that was loaded is valid, and is what the disk holds afterwards.
pub load_ledger_sound :
    (c : Codec) (s : Setup) (fresh : Bool) (d : Disk) {l : Ledger}
    → c.decode (c.encode empty_ledger) ≡ some empty_ledger
    → (load_ledger c s fresh d).0 ≡ ok l
    → Holds c (load_ledger c s fresh d).1 l
unfolding load_ledger
load_ledger_sound c s fresh d {l} rt e =
    elim (Bool-cases (fresh && is_missing d.ledger && is_missing d.sentinel)) [
      | inl new ↦
          rw new (initialize_sound c s.root s.sentinel_write s.ledger_write d rt (rw new at e))
      | inr old ↦ rw old (
          let (t, f, b, q, v) =
            read_ledger_sound c d.ledger (holds_sentinel d.sentinel) (rw old at e) in
          record {
            text = t;
            stored = f;
            sealed = holds_sentinel-true d.sentinel b;
            decoded = q;
            valid = v;
          })
    ]
