-- ===== src/Worker/Receipts/Recover.antt =====
-- cmd/worker/runtime.go: recoverInterruptedJobs, which a worker runs when it starts.
use mathlib.Core.Path.{subst}
use panel4wp.Prelude.{
  ◌≡◌, refl, ap, ◌∙◌, inl, inr, All, text_beq, Bool-cases, Result-cases, eq_of_==, Bool, true,
  false, ◌&&◌, Option, none, some, List, [], ◌∷◌, ◌++◌, if◌then◌else◌, ◌==◌, text_eq, Text, codes,
  ok, err, trim_suffix,
}
use panel4wp.Core.Ids.{valid_id}
use panel4wp.Core.Model.{Time, Operation}
use panel4wp.Worker.Docker.Jobs.{remove_owned_jobs}
use panel4wp.Worker.Receipts.{ReceiptCodec, Receipts, load_operation, save_operation}
use panel4wp.Worker.Receipts.Quiesce.{World, Machine, quiesce_site, quiesce_site-receipts}
use panel4wp.Worker.Receipts.Exclusive.{
  ReceiptRoundTrip, save_operation-saved, save_operation-other,
}

abbrev pub is_pending : Option Operation → Bool
is_pending none = false
is_pending (some op) = op.state == codes "pending"

abbrev pub interrupted : Text → Time → Operation → Operation
interrupted error now op = record op {
  state = codes "interrupted";
  error = error;
  finished_at = now;
}

-- A pending operation is brought to rest, and its receipt says so.
unfoldable pub interrupt :
    {D : Type 0} → Machine D → Text → Text → Operation → World D → World D × Bool
interrupt m id error op w =
    let (rested, failed) = quiesce_site m id op.kind w in
    let (no_save, rs) =
      save_operation m.receipt_codec (m.receipt_write id) id (interrupted error m.now op)
        rested.receipts in
    if failed then (rested, true) else (record rested { receipts = rs }, no_save)

abbrev pub stopped_jobs : Text
stopped_jobs = codes "Worker restarted before the operation finished; remaining jobs were stopped."

-- A receipt of a site, once it was found by name.
unfoldable pub recover_one : {D : Type 0} → Machine D → Text → World D → World D × Bool
unfolding interrupt
recover_one m id w = elim (load_operation m.receipt_codec (w.receipts id)) [
  | err e ↦ (w, true)
  | ok none ↦ (w, false)
  | ok (some op) ↦ if is_pending (some op) then interrupt m id stopped_jobs op w else (w, false)
]

abbrev pub receipt_id : Text → Text
receipt_id name = trim_suffix name (codes ".json")

abbrev pub is_receipt : Text → Bool
is_receipt name = valid_id (receipt_id name) && name == receipt_id name ++ codes ".json"

-- The loop over the directory's entries
unfoldable pub recover_all : {D : Type 0} → Machine D → List Text → World D → World D × Bool
unfolding recover_one
recover_all m [] w = (w, false)
recover_all m (name ∷ names) w =
    let (w', failed) = recover_one m (receipt_id name) w in
    let rest = recover_all m names (if is_receipt name then w' else w) in
    if is_receipt name && failed then (w', true) else rest

-- recoverInterruptedJobs; the entries are none if the directory cannot be read, and empty if it is missing.
unfoldable pub recover_interrupted_jobs :
    {D : Type 0} → Machine D → Option (List Text) → World D → World D × Bool
unfolding recover_all
recover_interrupted_jobs m entries w =
    let (d, failed) = remove_owned_jobs m.docker [] w.daemon in
    let cleared : World _ = record w { daemon = d } in
    if failed
    then (cleared, true)
    else elim entries [ none ↦ (cleared, true) | some names ↦ recover_all m names cleared ]

-- The receipt of a site can be read, and it is not pending.
abbrev pub Resolved : ReceiptCodec → Text → Receipts → Type 0
Resolved c id rs =
    (o : Option Operation) × (load_operation c (rs id) ≡ ok o) × (is_pending o ≡ false)

module _ {D : Type 0} (m : Machine D) (rt : ReceiptRoundTrip m.receipt_codec) where
  -- An operation that was interrupted without an error.
  pub interrupt-Resolved :
      (id error : Text) (op : Operation) (w : World D)
      → (interrupt m id error op w).1 ≡ false
      → Resolved m.receipt_codec id (interrupt m id error op w).0.receipts
  unfolding interrupt text_beq
  interrupt-Resolved id error op w h =
      let c = m.receipt_codec in
      let rested = quiesce_site m id op.kind w in
      let ended = interrupted error m.now op in
      elim (Bool-cases rested.1) [
        | inl failed ↦ cc (rw (failed, interrupt) at h)
        | inr good ↦
            let saved : (save_operation c (m.receipt_write id) id ended rested.0.receipts).0
                ≡ false =
              rw (good, interrupt) at h in
            rw (good, interrupt)
              (
                some ended,
                save_operation-saved c (m.receipt_write id) id ended rested.0.receipts rt saved,
                refl,
              )
      ]

  interrupt-other :
      (id j error : Text) (op : Operation) (w : World D)
      → (id == j) ≡ false
      → (interrupt m id error op w).0.receipts j ≡ w.receipts j
  unfolding interrupt
  interrupt-other id j error op w apart =
      let rested = quiesce_site m id op.kind w in
      let same = quiesce_site-receipts m id op.kind w in
      elim (Bool-cases rested.1) [
        | inl failed ↦ rw (failed, interrupt) (ap (λ (r : Receipts). r j) same)
        | inr good ↦
            rw (good, interrupt)
              (save_operation-other m.receipt_codec (m.receipt_write id) id j
                  (interrupted error m.now op) rested.0.receipts apart
                ∙ ap (λ (r : Receipts). r j) same)
      ]

  recover_one-Resolved :
      (id : Text) (w : World D)
      → (recover_one m id w).1 ≡ false
      → Resolved m.receipt_codec id (recover_one m id w).0.receipts
  unfolding recover_one
  recover_one-Resolved id w h =
      elim (Result-cases (load_operation m.receipt_codec (w.receipts id))) [
        | inr (e, l) ↦ cc (rw (l, recover_one) at h)
        | inl (none, l) ↦ rw (l, recover_one) (none, l, refl)
        | inl (some op, l) ↦ elim (Bool-cases (op.state == codes "pending")) [
          | inr over ↦ rw (l, recover_one) (rw over (some op, l, over))
          | inl waits ↦
              rw (l, recover_one)
                (rw waits (
                  interrupt-Resolved id stopped_jobs op w (rw waits at (rw (l, recover_one) at h))))
        ]
      ]

  recover_one-other :
      (id j : Text) (w : World D)
      → (id == j) ≡ false
      → (recover_one m id w).0.receipts j ≡ w.receipts j
  unfolding recover_one
  recover_one-other id j w apart =
      elim (Result-cases (load_operation m.receipt_codec (w.receipts id))) [
        | inr (e, l) ↦ rw (l, recover_one) refl
        | inl (none, l) ↦ rw (l, recover_one) refl
        | inl (some op, l) ↦ elim (Bool-cases (op.state == codes "pending")) [
          | inr over ↦ rw (l, recover_one) (rw over refl)
          | inl waits ↦
              rw (l, recover_one) (rw waits (interrupt-other id j stopped_jobs op w apart))
        ]
      ]

  recover_one-keeps :
      (id j : Text) (w : World D)
      → (recover_one m id w).1 ≡ false
      → Resolved m.receipt_codec j w.receipts
      → Resolved m.receipt_codec j (recover_one m id w).0.receipts
  recover_one-keeps id j w h (o, l, over) = elim (Bool-cases (id == j)) [
    | inl same ↦
        subst (λ k. Resolved m.receipt_codec k (recover_one m id w).0.receipts) (eq_of_== id j same)
          (recover_one-Resolved id w h)
    | inr apart ↦
        (o, ap (load_operation m.receipt_codec) (recover_one-other id j w apart) ∙ l, over)
  ]

  -- The receipts of the names are resolved, and those that were are still.
  Swept : List Text → Receipts → Receipts → Type 0
  Swept names before after =
      ((j : Text) → Resolved m.receipt_codec j before → Resolved m.receipt_codec j after)
      × All (λ name. is_receipt name ≡ true → Resolved m.receipt_codec (receipt_id name) after)
          names

  recover_all-Swept :
      (names : List Text) (w : World D)
      → (recover_all m names w).1 ≡ false
      → Swept names w.receipts (recover_all m names w).0.receipts
  unfolding recover_all Swept
  recover_all-Swept [] w h = ((λ j r. r), tt)
  recover_all-Swept (name ∷ names) w h =
      let one = recover_one m (receipt_id name) w in
      let before = w.receipts in
      elim (Bool-cases (is_receipt name)) [
        | inr skip ↦
            let same : recover_all m names w ≡ recover_all m (name ∷ names) w =
              rw (skip, recover_all) refl in
            let (keeps, all) = recover_all-Swept names w (rw (skip, recover_all) at h) in
            subst (λ (r : World D × Bool). Swept (name ∷ names) before r.0.receipts) same
              (keeps, ((λ is. cc (is, skip)), all))
        | inl is ↦ elim (Bool-cases one.1) [
          | inl failed ↦ cc (rw failed at (rw (is, recover_all) at h))
          | inr good ↦
              let same : recover_all m names one.0 ≡ recover_all m (name ∷ names) w =
                rw (is, recover_all) (rw good refl) in
              let (keeps, all) =
                recover_all-Swept names one.0 (rw good at (rw (is, recover_all) at h)) in
              subst (λ (r : World D × Bool). Swept (name ∷ names) before r.0.receipts) same
                (
                  (λ j r. keeps j (recover_one-keeps (receipt_id name) j w good r)),
                  (
                    (λ _. keeps (receipt_id name) (recover_one-Resolved (receipt_id name) w good)),
                    all,
                  ),
                )
        ]
      ]

-- A start of the worker that ends without an error leaves no pending receipt among those whose file is
-- listed in the directory.
pub recover_interrupted_jobs-Resolved :
    {D : Type 0} (m : Machine D) (names : List Text) (w : World D)
    → ReceiptRoundTrip m.receipt_codec
    → (recover_interrupted_jobs m (some names) w).1 ≡ false
    → All
        (λ name.
          is_receipt name ≡ true
          → Resolved m.receipt_codec
              (receipt_id name)
              (recover_interrupted_jobs m (some names) w).0.receipts)
        names
unfolding recover_interrupted_jobs Swept
recover_interrupted_jobs-Resolved m names w rt h =
    let (d, failed) = remove_owned_jobs m.docker [] w.daemon in
    elim (Bool-cases (remove_owned_jobs m.docker [] w.daemon).1) [
      | inl bad ↦ cc (rw (bad, recover_interrupted_jobs) at h)
      | inr good ↦
          rw (good, recover_interrupted_jobs)
            (recover_all-Swept m rt names (record w { daemon = d })
              (rw (good, recover_interrupted_jobs) at h)).1
    ]
