-- ===== src/Tests/Panel.antt =====
-- cmd/panel on the two sites of a concrete file.
use panel4wp.Prelude.{
  ℕ, ◌≡◌, ◌⊎◌, refl, arith, true, false, none, some, List, [], ◌∷◌, text_eq, text_beq, Text, codes,
  ok, err,
}
use panel4wp.Prelude.Int.{pos}
use panel4wp.Files.{File, content, written, failed_before}
use panel4wp.Core.Model.{
  Site, Backup, SiteRuntime, Operation, running, source_scheduled, source_manual,
}
use panel4wp.Store.{Sites, get, read_sites}
use panel4wp.Panel.{Panel}
use panel4wp.Panel.Tracked.{
  Attempt, call_tracked, operation_pending, marker, IsMarked, CallError, call_tracked-IsMarked,
}
use panel4wp.Panel.Backups.{Round, prune_scheduled_backups, scheduled_backup_count}
use panel4wp.Panel.Backups.Prune.{IsPruned, prune_scheduled_backups-IsPruned}
use panel4wp.Panel.Backups.Ends.{EndsWell, prune_scheduled_backups-EndsWell}
use panel4wp.Panel.Backups.Schedule.{ScheduledRun, run_scheduled_backup}
use panel4wp.Panel.Backups.Once.{Settled, run_scheduled_backup-Settled}
use panel4wp.Panel.Reconcile.{Visit, answered, reconcile_runtime, with_limits}
use panel4wp.Panel.Reconcile.Resolved.{Answered, reconcile_runtime-Resolved}
use panel4wp.Tests.Store.{sites_codec, sites_codec-RoundTrip, sites_file, sites_file_read, named}

abbrev pub site_b : Site
site_b = named (codes "b") 2

abbrev pub panel : Panel
panel = record { sites = sites_file; events = [] }

abbrev lost : Attempt (Unit {0})
lost = record {
  id = some (codes "1");
  started = 5;
  finished = 9;
  first = written;
  second = failed_before;
  answer = err (codes "EOF");
}

-- The response is lost and the second write fails.
call_tracked-IsMarked_example :
    (((call_tracked sites_codec (codes "update") lost site_b sites_file).2 ≡ sites_file)
      × (((call_tracked sites_codec (codes "update") lost site_b sites_file).0
            ≡ err CallError.no_id)
          ⊎ ((call_tracked sites_codec (codes "update") lost site_b sites_file).0
              ≡ err CallError.not_recorded)))
    ⊎ IsMarked sites_codec
        (call_tracked sites_codec (codes "update") lost site_b sites_file).2
        (codes "b")
call_tracked-IsMarked_example =
    call_tracked-IsMarked sites_codec sites_codec-RoundTrip (codes "update") lost site_b sites_file
      sites_file_read

abbrev pub copy : Text → ℕ → Text → Backup
copy i t from = record { id = i; created_at = t; source = from }

abbrev copies : List Backup
copies =
    copy (codes "1") 30 source_scheduled
    ∷ copy (codes "2") 10 source_manual
    ∷ copy (codes "3") 20 source_scheduled
    ∷ []

abbrev keeps_one : Site
keeps_one = record site_b {
  backups = copies;
  backup_policy = record site_b.backup_policy { enabled = true; retention = pos 1 };
}

abbrev deleted : ℕ → Round
deleted i = record { answer = ok tt; write = written }

prune_scheduled_backups-IsPruned_example :
    IsPruned copies (prune_scheduled_backups sites_codec deleted 4 keeps_one panel).site.backups
prune_scheduled_backups-IsPruned_example =
    prune_scheduled_backups-IsPruned sites_codec deleted 4 keeps_one panel

prune_scheduled_backups-EndsWell_example :
    EndsWell 1
      (scheduled_backup_count copies)
      (prune_scheduled_backups sites_codec deleted 4 keeps_one panel)
unfolding scheduled_backup_count text_beq
prune_scheduled_backups-EndsWell_example =
    prune_scheduled_backups-EndsWell sites_codec deleted 4 1 keeps_one panel refl (omega arith)

abbrev copied : ScheduledRun
copied = record {
  backup = record {
    clock = record { year = 2026; month = 1; day = 2; hour = 3; minute = 4; second = 5 };
    bytes = some (1 ∷ 2 ∷ 3 ∷ 4 ∷ []);
    attempt = record {
      id = some (codes "1");
      started = 5;
      finished = 9;
      first = written;
      second = written;
      answer = ok (copy (codes "4") 40 []);
    };
  };
  write = failed_before;
  rounds = deleted;
  fuel = 5;
}

-- The copy is made, but it is not recorded.
run_scheduled_backup-Settled_example :
    Settled sites_codec sites_file 40
      (codes "b")
      (run_scheduled_backup sites_codec copied 40 keeps_one panel).sites
run_scheduled_backup-Settled_example =
    run_scheduled_backup-Settled sites_codec copied 40 23 keeps_one panel sites_codec-RoundTrip
      sites_file_read refl (omega arith)

abbrev receipt : Operation
receipt = record (marker (codes "1") (codes "update") 5) { state = codes "failed" }

abbrev snapshot : SiteRuntime
snapshot = record { status = running; detail = []; operation = some receipt; resources = none }

abbrev visited : ℕ → Visit
visited i = record { asked = answered snapshot; checked_at = 50; write = written }

visited-Answered : (i : ℕ) → Answered (visited i)
unfolding text_beq with_limits
visited-Answered i = record {
  snapshot = snapshot;
  asked = refl;
  status = refl;
  limits = λ s. refl;
  receipt = refl;
  write = refl;
}

abbrev unresolved : Sites
unresolved =
    (codes "a", named (codes "a") 1)
    ∷ (codes "b", record site_b { operation = some (marker (codes "1") (codes "update") 5) })
    ∷ []

unresolved_file : File
unresolved_file = content (sites_codec.encode unresolved)

unresolved_read : read_sites sites_codec unresolved_file ≡ ok unresolved
unfolding unresolved_file read_sites
unresolved_read = rw (sites_codec-RoundTrip unresolved, read_sites) refl

abbrev unresolved_panel : Panel
unresolved_panel = record { sites = unresolved_file; events = [] }

-- The update of site b failed while nobody waited for it.
reconcile_runtime-Resolved_example :
    ((reconcile_runtime sites_codec visited unresolved_panel).0 ≡ none)
    × ((j : Text) (s : Site)
        → get sites_codec j (reconcile_runtime sites_codec visited unresolved_panel).1.sites
          ≡ ok (some s)
        → operation_pending s ≡ false)
reconcile_runtime-Resolved_example =
    reconcile_runtime-Resolved sites_codec visited unresolved_panel sites_codec-RoundTrip
      visited-Answered unresolved_read (refl, (refl, tt))
