-- ===== src/Worker/Receipts/Shown.antt =====
-- cmd/worker/runtime.go: theorems on runtimeSnapshot.
use mathlib.Core.Path.{subst}
use panel4wp.Prelude.{
  ◌≡◌, refl, sym, ap, inl, inr, text_beq, true, false, Option, none, some, ◌==◌, text_eq, Text,
  codes, ok, nat_eq, Bool-cases, Result-cases, Option-cases, ok-injective,
}
use panel4wp.Prelude.Int.{int_eq}
use panel4wp.Core.Ids.{valid_id}
use panel4wp.Core.Model.{Operation, Resources, SiteRuntime}
use panel4wp.Worker.Docker.{project_of}
use panel4wp.Worker.Compose.{configured_resources, Configured-cases}
use panel4wp.Worker.Receipts.{load_operation}
use panel4wp.Worker.Receipts.Quiesce.{World, Machine}
use panel4wp.Worker.Receipts.Exclusive.{ReceiptRoundTrip}
use panel4wp.Worker.Receipts.Recover.{
  is_pending, interrupt, interrupted, Resolved, interrupt-Resolved,
}
use panel4wp.Worker.Receipts.Snapshot.{
  View, look, look_among, settle_receipt, snapshot_with, runtime_snapshot, restarted,
}

look-operation :
    {D : Type 0} (m : Machine D) (v : View D) (id : Text) (limits : Option Resources)
    (op : Option Operation) (w : World D) {snapshot : SiteRuntime}
    → look m v id limits op w ≡ ok snapshot
    → snapshot.operation ≡ op
unfolding look
look-operation m v id limits op w h = elim (Option-cases (m.docker.ps (project_of id) w.daemon)) [
  | inl n ↦ cc (rw (n, look) at h)
  | inr (is, n) ↦ elim (Result-cases (look_among m v id limits w is)) [
    | inr (e, a) ↦ cc (rw a at (rw (n, look) at h))
    | inl (l, a) ↦
        sym (ap (λ (r : SiteRuntime). r.operation) (ok-injective (rw a at (rw (n, look) at h))))
  ]
]

-- The operation that a snapshot shows, and the receipt that it leaves.
abbrev Shown : {D : Type 0} → Machine D → Text → Option Operation → World D → Type 0
Shown m id op w = (is_pending op ≡ false) × Resolved m.receipt_codec id w.receipts

settle_receipt-Shown :
    {D : Type 0} (m : Machine D) (id : Text) (w : World D) {op : Option Operation}
    → ReceiptRoundTrip m.receipt_codec
    → (settle_receipt m id true w).0 ≡ ok op
    → Shown m id op (settle_receipt m id true w).1
unfolding settle_receipt text_beq
settle_receipt-Shown m id w {op} rt h =
    elim (Result-cases (load_operation m.receipt_codec (w.receipts id))) [
      | inr (e, l) ↦ cc (rw (l, settle_receipt) at h)
      | inl (none, l) ↦
          let same : none ≡ op = ok-injective (rw (l, settle_receipt) at h) in
          rw (l, settle_receipt) (subst (λ o. is_pending o ≡ false) same refl, (none, l, refl))
      | inl (some o, l) ↦ elim (Bool-cases (o.state == codes "pending")) [
        | inr over ↦
            let same : some o ≡ op = ok-injective (rw over at (rw (l, settle_receipt) at h)) in
            rw (l, settle_receipt)
              (rw over (subst (λ p. is_pending p ≡ false) same over, (some o, l, over)))
        | inl waits ↦ elim (Bool-cases (interrupt m id restarted o w).1) [
          | inl failed ↦ cc (rw failed at (rw waits at (rw (l, settle_receipt) at h)))
          | inr good ↦
              let same : some (interrupted restarted m.now o) ≡ op =
                ok-injective (rw good at (rw waits at (rw (l, settle_receipt) at h))) in
              rw (l, settle_receipt)
                (rw waits (
                  rw good (
                    subst (λ p. is_pending p ≡ false) same refl,
                    interrupt-Resolved m rt id restarted o w good,
                  )))
        ]
      ]
    ]

snapshot_with-Shown :
    {D : Type 0} (m : Machine D) (v : View D) (id : Text) (limits : Option Resources) (w : World D)
    {snapshot : SiteRuntime}
    → ReceiptRoundTrip m.receipt_codec
    → (snapshot_with m v id true limits w).0 ≡ ok snapshot
    → Shown m id snapshot.operation (snapshot_with m v id true limits w).1
unfolding snapshot_with
snapshot_with-Shown m v id limits w rt h =
    let settled = settle_receipt m id true w in
    elim (Result-cases settled.0) [
      | inr (e, a) ↦ cc (rw (a, snapshot_with) at h)
      | inl (op, a) ↦
          let same = look-operation m v id limits op settled.1 (rw (a, snapshot_with) at h) in
          subst (λ o. Shown m id o settled.1) (sym same) (settle_receipt-Shown m id w rt a)
    ]

-- A status that the worker answers to the panel shows no pending operation, and none is left pending in
-- the site's receipt.
pub runtime_snapshot-Resolved :
    {D : Type 0} (m : Machine D) (v : View D) (id : Text) (w : World D) (snapshot : SiteRuntime)
    → ReceiptRoundTrip m.receipt_codec
    → (runtime_snapshot m v id true w).0 ≡ ok snapshot
    → (is_pending snapshot.operation ≡ false)
      × Resolved m.receipt_codec id (runtime_snapshot m v id true w).1.receipts
unfolding runtime_snapshot
runtime_snapshot-Resolved m v id w snapshot rt h = elim (Bool-cases (valid_id id)) [
  | inr bad ↦ cc (rw (bad, runtime_snapshot) at h)
  | inl good ↦ elim (Configured-cases (configured_resources v.text id (v.compose id))) [
    | inl (inl f) ↦ cc (rw f at (rw (good, runtime_snapshot) at h))
    | inl (inr f) ↦
        rw (good, runtime_snapshot)
          (rw f (snapshot_with-Shown m v id none w rt (rw f at (rw (good, runtime_snapshot) at h))))
    | inr (r, f) ↦
        rw (good, runtime_snapshot)
          (rw f
            (snapshot_with-Shown m v id (some r) w rt (rw f at (rw (good, runtime_snapshot) at h))))
  ]
]
