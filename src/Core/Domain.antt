-- ===== src/Core/Domain.antt =====
-- internal/core/site.go: `domainLabel` and `NormalizeDomain`.
use mathlib.Core.Path.{subst}
use panel4wp.Prelude.{
  negation_lem, ℕ, zero, suc, ◌+◌, ◌<◌, ◌≤◌, ◌≡◌, refl, Bool, true, false, not, ◌&&◌, ◌||◌, List,
  [], ◌∷◌, arith, leb, ltb, ◌==◌, nat_eq, text_eq, Text, All, all, length, codes, Result, ok,
  fail_if, ◌>>◌, split, join-split, contains_any, All-mono, all_iff, &&_split, ||_false,
  guard_passed, ok-injective, All-join, ==_refl,
}
use panel4wp.Strings.Space.{trim_space, trim_space-solid, IsSolid}
use panel4wp.Strings.Case.{to_lower, to_lower-fixed, is_upper}

pub data DomainError : Type 0 where
  invalid_domain no_suffix invalid_label deep_localhost : DomainError

-- [a-z0-9]
abbrev pub is_alnum : ℕ → Bool
is_alnum c = (leb b'a' c && leb c b'z') || (leb b'0' c && leb c b'9')

-- [a-z0-9-]
abbrev pub is_label_byte : ℕ → Bool
is_label_byte c = is_alnum c || c == b'-'

-- What follows the first byte: nothing, or at most 61 bytes of [a-z0-9-] and one of [a-z0-9].
label_rest : ℕ → Text → Bool
label_rest left [] = false
label_rest left (c ∷ []) = is_alnum c
label_rest zero (c ∷ d ∷ s) = false
label_rest (suc left) (c ∷ d ∷ s) = is_label_byte c && label_rest left (d ∷ s)

-- ^[a-z0-9](?:[a-z0-9-]{0,61}[a-z0-9])?$
unfoldable pub domain_label : Text → Bool
unfolding label_rest
domain_label [] = false
domain_label (c ∷ []) = is_alnum c
domain_label (c ∷ d ∷ s) = is_alnum c && label_rest 61 (d ∷ s)

-- labels[len(labels)-1]; `Split` returns one label at least
abbrev pub last_label : List Text → Text
last_label [] = []
last_label (l ∷ []) = l
last_label (l ∷ m ∷ ls) = last_label (m ∷ ls)

-- The checks behind the trimming and lowering.
unfoldable pub check_domain : Text → Result DomainError Text
check_domain domain = do
  fail_if (domain == [] || ltb 253 (length domain) || contains_any domain (codes "/:@\\\n\r\t "))
      invalid_domain
  let labels = split b'.' domain
  fail_if (ltb (length labels) 2) no_suffix
  fail_if (not (all domain_label labels)) invalid_label
  fail_if (last_label labels == codes "localhost" && not (length labels == 2)) deep_localhost
  ok domain

-- `lower_unicode` is what ToLower does with a text that is not ASCII.
unfoldable pub normalize_domain : (Text → Text) → Text → Result DomainError Text
normalize_domain lower_unicode raw = check_domain (to_lower lower_unicode (trim_space raw))

-- The bytes of a normal domain.
abbrev pub IsDomainByte : ℕ → Type 0
IsDomainByte c = (is_label_byte c || c == b'.') ≡ true

label_rest-bytes :
    (left : ℕ) (s : Text) → label_rest left s ≡ true → All (λ c. is_label_byte c ≡ true) s
unfolding label_rest
label_rest-bytes left [] h = tt
label_rest-bytes left (c ∷ []) h = ground arith
label_rest-bytes zero (c ∷ d ∷ s) h = cc
label_rest-bytes (suc left) (c ∷ d ∷ s) h =
    let (a, b) = &&_split (is_label_byte c) (label_rest left (d ∷ s)) h in
    (a, label_rest-bytes left (d ∷ s) b)

domain_label-bytes : (s : Text) → domain_label s ≡ true → All (λ c. is_label_byte c ≡ true) s
unfolding domain_label
domain_label-bytes [] h = tt
domain_label-bytes (c ∷ []) h = ground arith
domain_label-bytes (c ∷ d ∷ s) h =
    let (a, b) = &&_split (is_alnum c) (label_rest 61 (d ∷ s)) h in
    (ground arith, label_rest-bytes 61 (d ∷ s) b)

label_rest-length : (left : ℕ) (s : Text) → label_rest left s ≡ true → length s ≤ left + 1
unfolding label_rest
label_rest-length left [] h = omega arith
label_rest-length left (c ∷ []) h = omega arith
label_rest-length zero (c ∷ d ∷ s) h = cc
label_rest-length (suc left) (c ∷ d ∷ s) h =
    let (a, b) = &&_split (is_label_byte c) (label_rest left (d ∷ s)) h in
    omega (arith, label_rest-length left (d ∷ s) b)

pub domain_label-length : (s : Text) → domain_label s ≡ true → (0 < length s) × (length s ≤ 63)
unfolding domain_label
domain_label-length [] h = cc
domain_label-length (c ∷ []) h = omega arith
domain_label-length (c ∷ d ∷ s) h =
    let (a, b) = &&_split (is_alnum c) (label_rest 61 (d ∷ s)) h in
    omega (arith, label_rest-length 61 (d ∷ s) b)

-- What the checks establish.
pub record IsNormal (d : Text) : Type 0 where
  pub bounded : length d ≤ 253
  pub bytes : All IsDomainByte d
  pub labels : All (λ l. domain_label l ≡ true) (split b'.' d)
  pub suffixed : 2 ≤ length (split b'.' d)
  pub shallow : last_label (split b'.' d) ≡ codes "localhost" → length (split b'.' d) ≡ 2

check_domain-eq :
    (x : Text) {d : Text}
    → check_domain x ≡ ok d
    → (x ≡ d)
      × (length x ≤ 253)
      × (2 ≤ length (split b'.' x))
      × (all domain_label (split b'.' x) ≡ true)
      × ((last_label (split b'.' x) == codes "localhost") ≡ true → length (split b'.' x) ≡ 2)
unfolding check_domain
check_domain-eq x {d} h =
    let (a, h1) = guard_passed _ _ _ h in
    let (b, h2) = guard_passed _ _ _ h1 in
    let (c, h3) = guard_passed _ _ _ h2 in
    let (l, h4) = guard_passed _ _ _ h3 in
    let (a1, a2) = ||_false (x == [] || ltb 253 (length x)) _ a in
    (ok-injective h4, ground arith, ground arith, negation_lem _ c, λ k. ground arith)

labels-bytes : (s : Text) → domain_label s ≡ true → All IsDomainByte s
labels-bytes s h =
    All-mono (λ c. is_label_byte c ≡ true) IsDomainByte (λ c k. ground arith) s
      (domain_label-bytes s h)

check_domain-IsNormal : (x : Text) {d : Text} → check_domain x ≡ ok d → IsNormal d
check_domain-IsNormal x {d} h =
    let (e, l, m, a, k) = check_domain-eq x h in
    subst IsNormal e (record {
      bounded = l;
      bytes = subst (All IsDomainByte) (join-split b'.' x) (
          All-join IsDomainByte b'.' (split b'.' x) refl
            (All-mono _ _ labels-bytes _ ((all_iff domain_label (split b'.' x)).0 a)));
      labels = (all_iff domain_label (split b'.' x)).0 a;
      suffixed = m;
      shallow = λ q. k (rw q (==_refl (codes "localhost")));
    })

solid : (c : ℕ) → IsDomainByte c → IsSolid c
solid c h = ground arith

not_upper : (c : ℕ) → IsDomainByte c → is_upper c ≡ false
not_upper c h = ground arith

-- Whatever was typed in, an accepted domain is normal.
pub normalize_domain-IsNormal :
    (lower_unicode : Text → Text) (raw : Text) {d : Text}
    → normalize_domain lower_unicode raw ≡ ok d
    → IsNormal d
unfolding normalize_domain
normalize_domain-IsNormal u raw h = check_domain-IsNormal (to_lower u (trim_space raw)) h

-- A normal domain is what its normalisation returns: normalising is idempotent.
pub normalize_domain_idem :
    (lower_unicode : Text → Text) (raw : Text) {d : Text}
    → normalize_domain lower_unicode raw ≡ ok d
    → normalize_domain lower_unicode d ≡ ok d
unfolding normalize_domain
normalize_domain_idem u raw {d} h =
    let n = normalize_domain-IsNormal u raw h in
    let t = trim_space-solid d (All-mono _ _ solid d n.bytes) in
    let l =
      to_lower-fixed u d (All-mono _ _ (λ c k. (solid c k).0) d n.bytes)
        (All-mono _ _ not_upper d n.bytes) in
    let e = (check_domain-eq (to_lower u (trim_space raw)) h).0 in
    rw (t, l) (subst (λ x. check_domain x ≡ ok d) e h)
