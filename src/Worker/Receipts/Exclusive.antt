-- ===== src/Worker/Receipts/Exclusive.antt =====
-- cmd/worker/runtime.go: theorems on trackOperation and on the function that it returns.
use mathlib.Core.Path.{subst}
use panel4wp.Prelude.{
  ◌≡◌, inl, inr, refl, sym, ap, ◌∙◌, arith, true, false, not, Option, some, ◌==◌, text_eq, ==_refl,
  ==_sym, eq_of_==, ◌≢◌, Text, codes, ok, fail_if, ok_or, ◌>>=◌, ◌>>◌, Bool-cases, Result-cases,
  ok-injective, guard_passed, >>=-eq-ok,
}
use panel4wp.Files.{Write, written, failed_before, failed_after, atomic_config}
use panel4wp.Core.Model.{Time, Operation}
use panel4wp.Core.Ids.{valid_id}
use panel4wp.Worker.Receipts.{
  ReceiptCodec, Receipts, load_operation, save_operation, Body, target, blocks, admit_operation,
  track_operation, receipt, bad_body, bad_operation_id, bad_site_id, unsupported, submitted,
  begin_at, begin_after, is_tracked,
}

-- What is written is read back.
abbrev pub ReceiptRoundTrip : ReceiptCodec → Type 0
ReceiptRoundTrip c = (op : Operation) → c.decode (c.encode op) ≡ some op

-- The receipt of a site is pending.
abbrev pub IsPending : ReceiptCodec → Text → Receipts → Type 0
IsPending c id rs =
    (op : Operation) × (load_operation c (rs id) ≡ ok (some op))
    × ((op.state == codes "pending") ≡ true)

-- What was checked of an operation that begins.
record Begun (c : ReceiptCodec) (operation_id : Text) (rs : Receipts) (id : Text) (op : Operation)
    : Type 0 where
  previous : Option Operation
  loaded : load_operation c (rs id) ≡ ok previous
  free : blocks operation_id previous ≡ false
  waits : (op.state == codes "pending") ≡ true
  named : op.id ≡ operation_id

admitted-Begun :
    (c : ReceiptCodec) (operation_id path : Text) (body : Option Body) (started : Time)
    (rs : Receipts) {id : Text} {op : Operation}
    → admit_operation c operation_id path body started rs ≡ ok (id, op)
    → Begun c operation_id rs id op
unfolding admit_operation
admitted-Begun c operation_id path body started rs {id} {op} h =
    let (_, h1) =
      guard_passed (not (valid_id operation_id)) bad_operation_id
        (fail_if (not (is_tracked path)) unsupported
          >> (ok_or body bad_body >>= λ b. begin_at c operation_id started rs (target path b)))
        h in
    let (_, h2) =
      guard_passed (not (is_tracked path)) unsupported
        (ok_or body bad_body >>= λ b. begin_at c operation_id started rs (target path b)) h1 in
    let (b, _, h3) =
      >>=-eq-ok (ok_or body bad_body) (λ b. begin_at c operation_id started rs (target path b))
        h2 in
    let t = target path b in
    let (_, h4) =
      guard_passed (not (valid_id t.0)) bad_site_id
        (load_operation c (rs t.0) >>= begin_after operation_id started t) h3 in
    let (previous, loaded, h5) =
      >>=-eq-ok (load_operation c (rs t.0)) (begin_after operation_id started t) h4 in
    let (free, h6) =
      guard_passed (blocks operation_id previous) submitted
        (ok (t.0, receipt operation_id t.1 started)) h5 in
    let made : (t.0, receipt operation_id t.1 started) ≡ (id, op) = ok-injective h6 in
    subst (λ (r : Text × Operation). Begun c operation_id rs r.0 r.1) made
      (record {
        previous = previous;
        loaded = loaded;
        free = free;
        waits = ==_refl (codes "pending");
        named = refl;
      })

-- No operation of a site with a pending receipt begins.
admitted-other :
    (c : ReceiptCodec) (operation_id : Text) (rs : Receipts) (id other : Text) (op : Operation)
    → IsPending c id rs
    → Begun c operation_id rs other op
    → (id == other) ≡ false
admitted-other c operation_id rs id other op (old, found, waits) begun =
    elim (Bool-cases (id == other)) [
      | inr apart ↦ apart
      | inl same ↦
          let here : load_operation c (rs other) ≡ ok (some old) =
            subst (λ k. load_operation c (rs k) ≡ ok (some old)) (eq_of_== id other same) found in
          let p : begun.previous ≡ some old = ok-injective (sym begun.loaded ∙ here) in
          let busy : blocks operation_id begun.previous ≡ true = rw p (rw waits (ground arith)) in
          cc (busy, begun.free)
    ]

-- A receipt that was saved, wherever the write stopped without an error.
pub save_operation-saved :
    (c : ReceiptCodec) (w : Write) (id : Text) (op : Operation) (rs : Receipts)
    → ReceiptRoundTrip c
    → (save_operation c w id op rs).0 ≡ false
    → load_operation c ((save_operation c w id op rs).1 id) ≡ ok (some op)
unfolding save_operation atomic_config load_operation
save_operation-saved c written id op rs rt h = rw (==_refl id) (rw (rt op) refl)
save_operation-saved c failed_before id op rs rt h = cc
save_operation-saved c failed_after id op rs rt h = cc

-- Another site's receipt is not touched.
pub save_operation-other :
    (c : ReceiptCodec) (w : Write) (id j : Text) (op : Operation) (rs : Receipts)
    → (id == j) ≡ false
    → (save_operation c w id op rs).1 j ≡ rs j
unfolding save_operation
save_operation-other c w id j op rs h = rw h refl

-- A site whose receipt is pending begins no operation, whatever is asked, and its receipt stays; and an
-- operation that has begun leaves its site's receipt pending under its own identifier.
pub track_operation-Exclusive :
    (c : ReceiptCodec) (w : Write) (operation_id path : Text) (body : Option Body) (started : Time)
    (rs : Receipts)
    → ReceiptRoundTrip c
    → ((id : Text)
        → IsPending c id rs
        → ((track_operation c w operation_id path body started rs).1 id ≡ rs id)
          × ((op : Operation)
              → (track_operation c w operation_id path body started rs).0 ≢ ok (id, op)))
      × ((id : Text) (op : Operation)
          → (track_operation c w operation_id path body started rs).0 ≡ ok (id, op)
          → IsPending c id (track_operation c w operation_id path body started rs).1
            × (op.id ≡ operation_id))
unfolding track_operation
track_operation-Exclusive c w operation_id path body started rs rt =
    elim (Result-cases (admit_operation c operation_id path body started rs)) [
      | inr (e, a) ↦ rw (a, track_operation) ((λ id waits. (refl, λ op h. cc)), (λ id op h. cc))
      | inl ((other, new), a) ↦
          let begun = admitted-Begun c operation_id path body started rs a in
          elim (Bool-cases (save_operation c w other new rs).0) [
            | inl bad ↦
                rw (a, track_operation)
                  (rw bad (
                    (λ id busy.
                        let apart = admitted-other c operation_id rs id other new busy begun in
                        (
                          save_operation-other c w other id new rs (==_sym other id ∙ apart),
                          λ op h. cc,
                        )),
                    (λ id op h. cc),
                  ))
            | inr good ↦
                rw (a, track_operation)
                  (rw good (
                    (λ id busy.
                        let apart = admitted-other c operation_id rs id other new busy begun in
                        (
                          save_operation-other c w other id new rs (==_sym other id ∙ apart),
                          λ op h.
                              let same : other ≡ id =
                                ap (λ (r : Text × Operation). r.0) (ok-injective h) in
                              let hit : (id == other) ≡ true = rw same (==_refl id) in
                              cc (apart, hit),
                        )),
                    (λ id op h.
                        let pair : (other, new) ≡ (id, op) = ok-injective h in
                        subst
                          (λ (r : Text × Operation).
                            IsPending c r.0 (save_operation c w other new rs).1
                            × (r.1.id ≡ operation_id))
                          pair
                          (
                            (new, save_operation-saved c w other new rs rt good, begun.waits),
                            begun.named,
                          )),
                  ))
          ]
    ]
