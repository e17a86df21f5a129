-- ===== src/Worker/Quota/Intent.antt =====
-- cmd/worker/quota_restart.go: the start-up intent of a site, in its quota-intent.json.
use panel4wp.Prelude.{
  ◌≡◌, ◌≤◌, inl, inr, refl, Bool, true, false, not, ◌&&◌, ◌||◌, Option, none, some, ltb,
  if◌then◌else◌, ◌==◌, arith, text_eq, Text, codes, length, Result, ok, err, Bool-cases,
  Result-cases, ||_false, &&_split, eq_of_==, negation_lem,
}
use panel4wp.Prelude.Int.{ℤ, pos, int_beq}
use panel4wp.Files.{
  File, missing, unreadable, content, Write, written, failed_before, failed_after, atomic_config,
}
use panel4wp.Core.Ids.{valid_id}

pub data GuardError : Type 0 where
  not_exist unreadable_state oversized undecodable invalid_state invalid_id : GuardError

-- readGuardJSON; `decode` is the strict decoding of one value without unknown fields
unfoldable pub read_guard_json : {A : Type 0} → (Text → Option A) → File → Result GuardError A
read_guard_json decode missing = err not_exist
read_guard_json decode unreadable = err unreadable_state
read_guard_json decode (content text) =
    if ltb 4096 (length text)
    then err oversized
    else elim (decode text) [ none ↦ err undecodable | some a ↦ ok a ]

-- quotaIntent
pub record Intent : Type 0 where
  pub version : ℤ
  pub state : Text

abbrev pub intent_of : Text → Intent
intent_of state = record { version = pos 1; state = state }

-- encoding/json: a field that the text does not have keeps the value of `stopped`.
pub record IntentCodec : Type 0 where
  pub decode : Text → Option Intent
  pub encode : Intent → Text

-- validQuotaIntent
unfoldable pub valid_quota_intent : Text → Bool
valid_quota_intent s =
    s == codes "running" || s == codes "stopped" || s == codes "blocked" || s == codes "maintenance"

abbrev check_intent : Intent → Result GuardError Intent
check_intent i =
    if not (int_beq i.version (pos 1)) || not (valid_quota_intent i.state)
    then err invalid_state
    else ok i

-- loadQuotaIntent
unfoldable pub load_quota_intent : IntentCodec → File → Result GuardError Intent
load_quota_intent c f = elim (read_guard_json c.decode f) [
  | err not_exist ↦ ok (intent_of (codes "stopped"))
  | err unreadable_state ↦ err unreadable_state
  | err oversized ↦ err oversized
  | err undecodable ↦ err undecodable
  | err invalid_state ↦ err invalid_state
  | err invalid_id ↦ err invalid_id
  | ok i ↦ check_intent i
]

-- os.Stat of a file of the site: it is there.
abbrev exists : File → Bool
exists missing = false
exists unreadable = true
exists (content text) = true

abbrev pub already : IntentCodec → Text → File → Bool
already c state f = elim (load_quota_intent c f) [
  | err e ↦ false
  | ok i ↦ i.state == state && exists f
]

-- saveQuotaIntent: the file afterwards, and whether it failed.
unfoldable pub save_quota_intent : IntentCodec → Write → Text → Text → File → File × Bool
save_quota_intent c w id state f =
    if not (valid_id id) || not (valid_quota_intent state)
    then (f, true)
    else if already c state f
    then (f, false)
    else atomic_config w (c.encode (intent_of state)) f

-- What is encoded is read back, and is small.
pub record IntentRoundTrip (c : IntentCodec) : Type 0 where
  pub back : (i : Intent) → c.decode (c.encode i) ≡ some i
  pub small : (s : Text) → valid_quota_intent s ≡ true → length (c.encode (intent_of s)) ≤ 4096

read_guard_json-content :
    {A : Type 0} (decode : Text → Option A) (text : Text) (a : A)
    → length text ≤ 4096
    → decode text ≡ some a
    → read_guard_json decode (content text) ≡ ok a
unfolding read_guard_json
read_guard_json-content decode text a n e =
    let fits : ltb 4096 (length text) ≡ false = ground arith in rw (fits, e) refl

written_intent :
    (c : IntentCodec) (s : Text)
    → IntentRoundTrip c
    → valid_quota_intent s ≡ true
    → load_quota_intent c (content (c.encode (intent_of s))) ≡ ok (intent_of s)
unfolding load_quota_intent
written_intent c s rt v =
    let read =
      read_guard_json-content c.decode (c.encode (intent_of s)) (intent_of s) (rt.small s v)
        (rt.back (intent_of s)) in
    rw (read, load_quota_intent) (rw v refl)

-- The state that the next load finds.
abbrev pub HasIntent : IntentCodec → File → Text → Type 0
HasIntent c f s = (i : Intent) × (load_quota_intent c f ≡ ok i) × (i.state ≡ s)

already-HasIntent : (c : IntentCodec) (s : Text) (f : File) → already c s f ≡ true → HasIntent c f s
already-HasIntent c s f h = elim (Result-cases (load_quota_intent c f)) [
  | inl (i, k) ↦
      let (a, b) = &&_split (i.state == s) (exists f) (rw (k, already) at h) in
      (i, k, eq_of_== i.state s a)
  | inr (e, k) ↦ cc (rw (k, already) at h)
]

atomic_config-HasIntent :
    (c : IntentCodec) (w : Write) (s : Text) (f : File)
    → IntentRoundTrip c
    → valid_quota_intent s ≡ true
    → (atomic_config w (c.encode (intent_of s)) f).1 ≡ false
    → HasIntent c (atomic_config w (c.encode (intent_of s)) f).0 s
unfolding atomic_config
atomic_config-HasIntent c written s f rt v h = (intent_of s, written_intent c s rt v, refl)
atomic_config-HasIntent c failed_before s f rt v h = cc
atomic_config-HasIntent c failed_after s f rt v h = cc

-- A saveQuotaIntent that succeeded leaves the state for the next load.
pub save_quota_intent-HasIntent :
    (c : IntentCodec) (w : Write) (id s : Text) (f : File)
    → IntentRoundTrip c
    → (save_quota_intent c w id s f).1 ≡ false
    → HasIntent c (save_quota_intent c w id s f).0 s
unfolding save_quota_intent
save_quota_intent-HasIntent c w id s f rt h =
    elim (Bool-cases (not (valid_id id) || not (valid_quota_intent s))) [
      | inl bad ↦ cc (rw bad at h)
      | inr good ↦
          let v = negation_lem (valid_quota_intent s) (||_false (not (valid_id id)) _ good).1 in
          elim (Bool-cases (already c s f)) [
            | inl same ↦ rw (good, same) (already-HasIntent c s f same)
            | inr new ↦ rw (good, new) (atomic_config-HasIntent c w s f rt v (rw (good, new) at h))
          ]
    ]
