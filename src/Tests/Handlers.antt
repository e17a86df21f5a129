-- ===== src/Tests/Handlers.antt =====
-- cmd/panel/main.go: the handlers on the two sites of a concrete file.
use panel4wp.Prelude.{
  ℕ, ◌≡◌, ◌⊎◌, inl, inr, refl, sym, ◌∙◌, true, none, some, List, [], ◌∷◌, if◌then◌else◌, ◌==◌,
  text_eq, text_beq, Bool-cases, eq_of_==, Text, codes, Result, ok, err,
}
use panel4wp.Prelude.Int.{pos}
use panel4wp.Float.{const}
use panel4wp.Files.{File, content, written, failed_before, write_json}
use panel4wp.Core.Model.{Site, Backup, HostCapacity, running}
use panel4wp.Core.Ids.{valid_backup_id, new_backup_id}
use panel4wp.Store.{get, put, Sites, get_site, read_sites, write_sites}
use panel4wp.Panel.{Panel}
use panel4wp.Panel.Tracked.{Attempt, call_tracked, settle, Stored}
use panel4wp.Panel.Handlers.{Form}
use panel4wp.Panel.Handlers.Safety.{
  SafetyRun, UpdateRun, update_site, ask_update, safety_copy, ask_restore, after_prepare,
  prepare_and_restore, RestoreRun, restore_site, is_known,
}
use panel4wp.Panel.Handlers.Update.{update_asked, update_site-KeepsSafety}
use panel4wp.Panel.Handlers.Restore.{restore_asked, HasSafety, restore_site-KeepsSafety}
use panel4wp.Panel.Handlers.Create.{CreateRun, create_site}
use panel4wp.Panel.Handlers.Distinct.{Distinct, create_site-Distinct}
use panel4wp.Panel.Handlers.Actions.{ActionRun, site_action, site_path}
use panel4wp.Panel.Handlers.Listed.{Listed}
use panel4wp.Panel.Handlers.Deleted.{IsDeletion, site_action-Listed}
use panel4wp.Tests.Store.{sites_codec, sites_codec-RoundTrip, sites_file, sites_file_read, named}
use panel4wp.Tests.Panel.{panel, site_b, copy}

abbrev answer_of : {A : Type 0} → Result Text A → Attempt A
answer_of a = record {
  id = some (codes "1");
  started = 5;
  finished = 9;
  first = written;
  second = written;
  answer = a;
}

abbrev safety : SafetyRun
safety = record { attempt = answer_of (ok (copy (codes "7") 40 [])); write = written }

abbrev update_fails : UpdateRun
update_fails = record {
  clock = record { year = 2026; month = 1; day = 2; hour = 3; minute = 4; second = 5 };
  bytes = some (1 ∷ 2 ∷ 3 ∷ 4 ∷ []);
  safety = safety;
  update = answer_of (err (codes "exit status 1"));
  write = written;
}

asked_update : update_asked (update_site sites_codec update_fails site_b panel).0 ≡ true
unfolding update_site ask_update safety_copy call_tracked settle put read_sites sites_codec
    sites_file text_beq new_backup_id write_sites write_json
asked_update = refl

-- The update fails after the safety backup was stored.
update_site-KeepsSafety_example :
    (running ≡ running)
    × ((made : Backup) × (◌≡◌ {A = Result Text Backup} (ok (copy (codes "7") 40 [])) (ok made))
        × Stored
            (is_known made.id)
            sites_codec
            (update_site sites_codec update_fails site_b panel).1.sites
            (codes "b"))
update_site-KeepsSafety_example =
    update_site-KeepsSafety sites_codec update_fails site_b panel sites_codec-RoundTrip
      sites_file_read asked_update

abbrev old_id : Text
old_id = codes "20260101T000000Z-00000000"

abbrev restorable : Site
restorable = record site_b { backups = copy old_id 3 [] ∷ [] }

abbrev restore_form : Form
restore_form key = if key == codes "confirm" then codes "a.example" else old_id

abbrev restores : RestoreRun
restores = record {
  form = restore_form;
  clock = record { year = 2026; month = 1; day = 2; hour = 3; minute = 4; second = 5 };
  bytes = some (1 ∷ 2 ∷ 3 ∷ 4 ∷ []);
  prepare = answer_of (ok tt);
  safety = safety;
  restore = answer_of (ok tt);
  write = failed_before;
}

asked_restore : restore_asked (restore_site sites_codec restores restorable panel).0 ≡ true
unfolding restore_site prepare_and_restore after_prepare ask_restore safety_copy call_tracked settle
    put read_sites sites_codec sites_file text_beq new_backup_id write_sites write_json
    valid_backup_id
asked_restore = refl

-- The restore is done, but it cannot be recorded.
restore_site-KeepsSafety_example :
    (codes "a.example" ≡ codes "a.example")
    × (is_known old_id restorable ≡ true)
    × (valid_backup_id old_id ≡ true)
    × HasSafety sites_codec safety
        (codes "b")
        (restore_site sites_codec restores restorable panel).1.sites
unfolding text_beq
restore_site-KeepsSafety_example =
    restore_site-KeepsSafety sites_codec restores restorable panel sites_codec-RoundTrip
      sites_file_read asked_restore

abbrev one_site : Sites
one_site = (codes "a", named (codes "a") 1) ∷ []

one_file : File
one_file = content (sites_codec.encode one_site)

one_file_read : read_sites sites_codec one_file ≡ ok one_site
unfolding one_file read_sites
one_file_read = rw (sites_codec-RoundTrip one_site, read_sites) refl

only_a : (i : Text) (s : Site) → get sites_codec i one_file ≡ ok (some s) → codes "a" ≡ i
unfolding get get_site
only_a i s h = elim (Bool-cases (codes "a" == i)) [
  | inl same ↦ eq_of_== (codes "a") i same
  | inr other ↦ cc (rw other at (rw (one_file_read, get) at h))
]

one_file-Distinct : Distinct sites_codec one_file
one_file-Distinct i j s t h k q = sym (only_a i s h) ∙ only_a j t k

abbrev create_form : Form
create_form key =
    if key == codes "domain"
    then codes "B.example"
    else if key == codes "title"
    then codes "B"
    else if key == codes "email"
    then codes "b@example.com"
    else codes "small"

abbrev roomy : HostCapacity
roomy = record {
  other_memory_bytes = pos 0;
  other_cpus = const 0;
  cpus = const 4_000_000_000;
  memory_bytes = pos 8_000_000_000;
  reserved_cpus = const 0;
  reserved_memory_bytes = pos 0;
  allocated_cpus = const 0;
  allocated_memory_bytes = pos 0;
  docker_disk_free_bytes = pos 9_000_000_000;
  data_disk_free_bytes = pos 9_000_000_000;
}

abbrev eight : List ℕ
eight = 1 ∷ 2 ∷ 3 ∷ 4 ∷ 5 ∷ 6 ∷ 7 ∷ 8 ∷ []

abbrev creates : CreateRun
creates = record {
  form = create_form;
  id_bytes = some eight;
  lower_unicode = λ s. s;
  parse_float = λ s. none;
  plans = ok [];
  now = 7;
  capacity = some roomy;
  database_bytes = some eight;
  admin_bytes = some eight;
  first = written;
  attempt = answer_of (err (codes "EOF"));
  last = failed_before;
}

abbrev one_panel : Panel
one_panel = record { sites = one_file; events = [] }

create_site-Distinct_example :
    Distinct sites_codec (create_site sites_codec creates one_panel).1.sites
create_site-Distinct_example =
    create_site-Distinct sites_codec creates one_panel sites_codec-RoundTrip one_file_read
      one_file-Distinct

abbrev site_id : Text
site_id = codes "00000000000000aa"

abbrev deletes : ActionRun
deletes = record {
  path = codes "/sites/00000000000000aa/delete";
  form = λ key. codes "a.example";
  now = 7;
  first = written;
  last = written;
  attempt = answer_of (ok tt);
  database = ok tt;
  mail = none;
  mail_worker = λ i mail. ok tt;
  copy_answer = ok tt;
  limits = record {
    form = λ key. [];
    parse_float = λ s. none;
    plans = ok [];
    attempt = answer_of (ok (record { memory_mb = pos 768; cpus = const 1_000_000_000 }));
    write = written;
  };
  backup = record { clock = restores.clock; bytes = none; attempt = answer_of (ok (copy [] 1 [])) };
  update = update_fails;
  restore = restores;
}

abbrev id_sites : Sites
id_sites = (site_id, named site_id 1) ∷ []

id_file : File
id_file = content (sites_codec.encode id_sites)

id_read : read_sites sites_codec id_file ≡ ok id_sites
unfolding id_file read_sites
id_read = rw (sites_codec-RoundTrip id_sites, read_sites) refl

id_found : get sites_codec site_id id_file ≡ ok (some (named site_id 1))
unfolding get get_site text_beq
id_found = rw (id_read, get) refl

abbrev id_panel : Panel
id_panel = record { sites = id_file; events = [] }

-- The deletion of the only site.
site_action-Listed_example :
    Listed sites_codec site_id (site_action sites_codec deletes id_panel).1.sites
    ⊎ ((site : Site) × (site_path (codes "/sites/00000000000000aa/delete")
          ≡ some (site_id, codes "delete"))
        × (get sites_codec site_id id_file ≡ ok (some site))
        × IsDeletion deletes site)
site_action-Listed_example =
    site_action-Listed sites_codec deletes site_id id_panel sites_codec-RoundTrip
      (named site_id 1, id_found)
