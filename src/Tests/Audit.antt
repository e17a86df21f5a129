-- ===== src/Tests/Audit.antt =====
-- internal/audit on a short log.
use panel4wp.Prelude.{
  ◌≡◌, refl, true, false, some, [], ◌∷◌, reverse, take, arith, Text, codes, ok, split, trim_suffix,
  has_suffix, has_prefix, text_beq,
}
use panel4wp.Prelude.Int.{pos}
use panel4wp.Files.{content, missing}
use panel4wp.Audit.{Entry, EntryCodec, Logs, Ends, list, scan_lines, append, read_line}
use panel4wp.Audit.Laws.{all_entries, list-newest}
use panel4wp.Audit.Append.{IsKept, append-IsKept}

abbrev named : Text → Entry
named a = record { time = 1; action = a; site_id = []; domain = []; success = true; detail = [] }

abbrev codec : EntryCodec
codec = record { decode = λ t. some (named t); encode = λ e. e.action }

abbrev two_lines : Text
two_lines = b'a' ∷ 10 ∷ b'b' ∷ 10 ∷ []

two_entries :
    all_entries codec (scan_lines two_lines) ≡ ok (named (codes "a") ∷ named (codes "b") ∷ [])
unfolding scan_lines split trim_suffix has_suffix has_prefix read_line text_beq
two_entries = refl

list-newest_example :
    list codec (pos 1) (content two_lines)
    ≡ ok (take 1 (reverse (named (codes "a") ∷ named (codes "b") ∷ [])))
list-newest_example = list-newest codec 1 two_lines (omega arith) (omega arith) two_entries

abbrev ends : Ends
ends = record {
  now = 7;
  directory_fails = false;
  rename_fails = false;
  open_fails = false;
  short_write = some 1;
}

abbrev logs : Logs
logs = record { current = content two_lines; older = missing }

append-IsKept_example : IsKept logs (append codec ends (named (codes "backup")) logs).1
append-IsKept_example = append-IsKept codec ends (named (codes "backup")) logs
