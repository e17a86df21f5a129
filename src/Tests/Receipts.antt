-- ===== src/Tests/Receipts.antt =====
-- cmd/worker/runtime.go: the receipts of one site, whose update was cut off.
use panel4wp.Prelude.{
  ◌≡◌, ◌≢◌, refl, true, false, none, some, List, [], ◌∷◌, ◌++◌, All, if◌then◌else◌, ◌==◌, text_eq,
  text_beq, Text, codes, ok, trim_suffix,
}
use panel4wp.Files.{missing, content, written, atomic_config}
use panel4wp.Core.Ids.{valid_id}
use panel4wp.Core.Model.{Operation, SiteRuntime, unhealthy}
use panel4wp.Worker.Docker.Jobs.{remove_owned_jobs, remove_filtered, remove_jobs}
use panel4wp.Worker.Quota.Marker.{absent, quota_marked}
use panel4wp.Worker.Compose.{configured_resources}
use panel4wp.Worker.Receipts.{
  ReceiptCodec, Receipts, Body, receipt, track_operation, load_operation, save_operation,
}
use panel4wp.Worker.Receipts.Quiesce.{
  Machine, World, quiesce_site, quiesce_unmarked, stop_services, stop_if,
}
use panel4wp.Worker.Receipts.Exclusive.{ReceiptRoundTrip, IsPending, track_operation-Exclusive}
use panel4wp.Worker.Receipts.Recover.{
  Resolved, is_receipt, receipt_id, is_pending, interrupt, interrupted, recover_one, recover_all,
  recover_interrupted_jobs, recover_interrupted_jobs-Resolved,
}
use panel4wp.Worker.Receipts.Snapshot.{
  View, runtime_snapshot, snapshot_with, settle_receipt, look, look_among, last_state,
}
use panel4wp.Worker.Receipts.Shown.{runtime_snapshot-Resolved}
use panel4wp.Tests.Store.{operation_coder}
use panel4wp.Tests.Quota.{Daemon, docker, shop, codec}

receipt_codec : ReceiptCodec
receipt_codec = record {
  decode = λ t. some (operation_coder.get t).0;
  encode = λ op. operation_coder.put op [];
}

receipt_codec-RoundTrip : ReceiptRoundTrip receipt_codec
unfolding receipt_codec
receipt_codec-RoundTrip op = rw (operation_coder.law op []) refl

abbrev update_receipt : Operation
update_receipt = receipt (codes "00000000000000aa") (codes "update") 5

receipts : Receipts
receipts id = if shop == id then content (receipt_codec.encode update_receipt) else missing

abbrev second_update : Body
second_update = record { site_id = shop; id = []; action = [] }

-- A second update while the first is pending.
track_operation-Exclusive_example :
    ((id : Text)
      → IsPending receipt_codec id receipts
      → ((track_operation receipt_codec written
              (codes "00000000000000bb")
              (codes "/update")
              (some second_update)
              9
              receipts).1
            id
          ≡ receipts id)
        × ((op : Operation)
            → (track_operation receipt_codec written
                (codes "00000000000000bb")
                (codes "/update")
                (some second_update)
                9
                receipts).0
              ≢ ok (id, op)))
    × ((id : Text) (op : Operation)
        → (track_operation receipt_codec written
            (codes "00000000000000bb")
            (codes "/update")
            (some second_update)
            9
            receipts).0
          ≡ ok (id, op)
        → IsPending receipt_codec id
            (track_operation receipt_codec written
              (codes "00000000000000bb")
              (codes "/update")
              (some second_update)
              9
              receipts).1
          × (op.id ≡ codes "00000000000000bb"))
track_operation-Exclusive_example =
    track_operation-Exclusive receipt_codec written (codes "00000000000000bb") (codes "/update")
      (some second_update) 9 receipts receipt_codec-RoundTrip

abbrev machine : Machine Daemon
machine = record {
  docker = docker;
  services = λ p d. some (
    record {
      name = codes "wph-wp-" ++ shop;
      project = codes "wph-" ++ shop;
      service = codes "wordpress";
    }
        ∷ [],
    false,
  );
  intent_codec = codec;
  receipt_codec = receipt_codec;
  quota = λ id. record { guard = missing; guard_stat = absent; plan_stat = absent };
  intent_write = λ id. written;
  receipt_write = λ id. written;
  now = 12;
}

abbrev world : World Daemon
world = record {
  daemon = (codes "running", codes "unless-stopped");
  receipts = receipts;
  intents = λ id. missing;
}

found : load_operation receipt_codec (receipts shop) ≡ ok (some update_receipt)
unfolding load_operation receipts text_beq
found = rw (receipt_codec-RoundTrip update_receipt, load_operation) refl

abbrev names : List Text
names = (shop ++ codes ".json") ∷ codes ".receipt-1" ∷ []

recovers : (recover_interrupted_jobs machine (some names) world).1 ≡ false
unfolding recover_interrupted_jobs recover_all recover_one interrupt remove_owned_jobs
    remove_filtered remove_jobs save_operation quiesce_site quiesce_unmarked stop_services stop_if
    quota_marked valid_id text_beq trim_suffix atomic_config
recovers = rw (found, recover_interrupted_jobs, recover_all, recover_one) refl

recover_interrupted_jobs-Resolved_example :
    All
      (λ name.
        is_receipt name ≡ true
        → Resolved receipt_codec
            (receipt_id name)
            (recover_interrupted_jobs machine (some names) world).0.receipts)
      names
recover_interrupted_jobs-Resolved_example =
    recover_interrupted_jobs-Resolved machine names world receipt_codec-RoundTrip recovers

abbrev view : View Daemon
view = record {
  text = record { parse = λ s. none; print = λ f. [] };
  compose = λ id. missing;
  states = λ is d. some ([], false);
  decode_guard = λ t. none;
  normal = λ t. none;
  profile = [];
  route = λ id. absent;
}

abbrev shown : SiteRuntime
shown = record {
  status = unhealthy;
  detail = codes "A site service is missing. Start the site to recreate it with existing volumes.";
  operation =
      some
        (interrupted (codes "Worker restarted before the operation finished.") 12 update_receipt);
  resources = none;
}

answers : (runtime_snapshot machine view shop true world).0 ≡ ok shown
unfolding runtime_snapshot snapshot_with settle_receipt look look_among last_state interrupt
    remove_owned_jobs remove_filtered remove_jobs configured_resources save_operation quiesce_site
    quiesce_unmarked stop_services stop_if quota_marked valid_id text_beq atomic_config
answers = rw (found, runtime_snapshot, snapshot_with, settle_receipt) refl

-- The update that was cut off is shown as interrupted.
runtime_snapshot-Resolved_example :
    (is_pending shown.operation ≡ false)
    × Resolved receipt_codec shop (runtime_snapshot machine view shop true world).1.receipts
runtime_snapshot-Resolved_example =
    runtime_snapshot-Resolved machine view shop world shown receipt_codec-RoundTrip answers
