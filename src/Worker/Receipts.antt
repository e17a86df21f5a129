-- ===== src/Worker/Receipts.antt =====
-- cmd/worker/runtime.go: the receipts of the long operations, a file for each site.
pub mod Quiesce
pub mod Exclusive
pub mod Snapshot
pub mod Shown
pub mod Recover
use panel4wp.Prelude.{
  ◌≡◌, ◌⊎◌, inl, inr, Bool, true, false, not, ◌&&◌, ◌||◌, Option, none, some, List, [], ◌∷◌, ◌++◌,
  any, if◌then◌else◌, ◌==◌, text_eq, Text, codes, trim_prefix, Result, ok, err, is_ok, fail_if,
  ok_or, ◌>>=◌, ◌>>◌,
}
use panel4wp.Files.{File, missing, unreadable, content, Write, atomic_config}
use panel4wp.Core.Model.{Time, Operation, Backup}
use panel4wp.Core.Ids.{valid_id}

-- encoding/json on a receipt
pub record ReceiptCodec : Type 0 where
  pub decode : Text → Option Operation
  pub encode : Operation → Text

-- The files of .operations, by the site's identifier.
abbrev pub Receipts : Type 0
Receipts = Text → File

abbrev pub set_receipt : Text → File → Receipts → Receipts
set_receipt id f rs = λ j. if id == j then f else rs j

pub data ReceiptError : Type 0 where
  unreadable_receipt bad_receipt bad_operation_id unsupported bad_body bad_site_id : ReceiptError
  submitted not_saved not_fenced : ReceiptError

-- loadOperation
unfoldable pub load_operation : ReceiptCodec → File → Result ReceiptError (Option Operation)
load_operation c missing = ok none
load_operation c unreadable = err unreadable_receipt
load_operation c (content text) = elim (c.decode text) [
  | none ↦ err bad_receipt
  | some op ↦ ok (some op)
]

-- saveOperation, which replaces the file whole: whether it failed, and the files.
unfoldable pub save_operation : ReceiptCodec → Write → Text → Operation → Receipts → Bool × Receipts
save_operation c w id op rs =
    let (f, failed) = atomic_config w (c.encode op) (rs id) in (failed, set_receipt id f rs)

-- What trackOperation reads of a request's body.
pub record Body : Type 0 where
  pub site_id : Text
  pub id : Text
  pub action : Text

abbrev pending : Text
pending = codes "pending"

abbrev pub is_tracked : Text → Bool
is_tracked path =
    path == codes "/create"
    || path == codes "/action"
    || path == codes "/backup"
    || path == codes "/restore"
    || path == codes "/update"
    || path == codes "/resources"

-- The site of a request and the kind of its operation.
abbrev pub target : Text → Body → Text × Text
target path body =
    if path == codes "/action"
    then (body.id, body.action)
    else (body.site_id, trim_prefix path (codes "/"))

-- A receipt that does not let an operation begin.
abbrev pub blocks : Text → Option Operation → Bool
blocks operation_id none = false
blocks operation_id (some op) = op.id == operation_id || op.state == pending

abbrev pub receipt : Text → Text → Time → Operation
receipt operation_id kind started = record {
  id = operation_id;
  kind = kind;
  state = pending;
  started_at = started;
  finished_at = 0;
  error = [];
  backup = none;
  admission_rejected = false;
}

-- The last checks of trackOperation, on the receipt that is there.
abbrev pub begin_after :
    Text → Time → Text × Text → Option Operation → Result ReceiptError (Text × Operation)
begin_after operation_id started (id, kind) previous =
    fail_if (blocks operation_id previous) submitted >> ok (id, receipt operation_id kind started)

abbrev pub begin_at :
    ReceiptCodec → Text → Time → Receipts → Text × Text → Result ReceiptError (Text × Operation)
begin_at c operation_id started rs (id, kind) =
    fail_if (not (valid_id id)) bad_site_id
    >> (load_operation c (rs id) >>= begin_after operation_id started (id, kind))

-- The checks of trackOperation; the body is none if it cannot be read or decoded.
unfoldable pub admit_operation :
    ReceiptCodec
    → Text
    → Text
    → Option Body
    → Time
    → Receipts
    → Result ReceiptError (Text × Operation)
admit_operation c operation_id path body started rs =
    fail_if (not (valid_id operation_id)) bad_operation_id
    >> (fail_if (not (is_tracked path)) unsupported
        >> (ok_or body bad_body >>= λ b. begin_at c operation_id started rs (target path b)))

-- trackOperation: the site and the operation that has begun, and the files.
unfoldable pub track_operation :
    ReceiptCodec
    → Write
    → Text
    → Text
    → Option Body
    → Time
    → Receipts
    → Result ReceiptError (Text × Operation) × Receipts
unfolding admit_operation
track_operation c w operation_id path body started rs =
    elim (admit_operation c operation_id path body started rs) [
      | err e ↦ (err e, rs)
      | ok (id, op) ↦
          let (failed, rs') = save_operation c w id op rs in
          (if failed then err not_saved else ok (id, op), rs')
    ]

-- How an operation ends: `refused` is an admission error, with its mark for a safe quota.
pub data Ended : Type 0 where
  fine broken : Ended
  refused : Bool → Ended

abbrev failed_text : Text
failed_text = codes "Worker operation failed; inspect the activity log."

abbrev pub with_end : Ended → Time → Option Backup → Operation → Operation
with_end ended finished result op =
    let good : Bool = elim ended [ fine ↦ true | broken ↦ false | refused safe ↦ false ] in
    let rejected : Bool = elim ended [
      | fine ↦ false
      | broken ↦ false
      | refused safe ↦ safe && op.kind == codes "resources"
    ] in
    record op {
      state = if good then codes "succeeded" else codes "failed";
      finished_at = finished;
      error = if good then [] else failed_text;
      backup = result;
      admission_rejected = rejected;
    }

-- The function that trackOperation returns; `no_fence` is the error of quiesceSite, which runs only for a
-- broken operation.
unfoldable pub end_operation :
    ReceiptCodec
    → Write
    → Ended
    → Bool
    → Time
    → Option Backup
    → Text × Operation
    → Receipts
    → Result ReceiptError (Unit {0}) × Receipts
end_operation c w ended no_fence finished result (id, op) rs =
    let (failed, rs') = save_operation c w id (with_end ended finished result op) rs in
    let saved : Result ReceiptError (Unit {0}) × Receipts =
      (if failed then err not_saved else ok tt, rs') in
    elim ended [
      | fine ↦ saved
      | refused safe ↦ saved
      | broken ↦ if no_fence then (err not_fenced, rs) else saved
    ]
