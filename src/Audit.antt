-- ===== src/Audit.antt =====
-- internal/audit/log.go: the log of actions, one JSON line each, with one older file.
pub mod Laws
pub mod Append
use panel4wp.Prelude.{
  ℕ, ◌*◌, Bool, true, false, not, ◌||◌, Option, none, some, List, [], ◌∷◌, ◌++◌, map, reverse, ltb,
  leb, if◌then◌else◌, ◌==◌, nat_eq, text_eq, Text, codes, Result, ok, err, ◌>>=◌, ◌>>◌, length,
  take, drop, split, has_suffix, trim_suffix,
}
use panel4wp.Prelude.Int.{ℤ, pos, pos_part, ltb_ℤ}
use panel4wp.Strings.Space.{trim_space}
use panel4wp.Files.{File, missing, unreadable, content}
use panel4wp.Core.Model.{Time}

abbrev pub max_log_bytes : ℕ
max_log_bytes = 10 * 1_048_576

pub record Entry : Type 0 where
  pub time : Time
  pub action : Text
  pub site_id : Text
  pub domain : Text
  pub success : Bool
  pub detail : Text

pub data AuditError : Type 0 where
  no_action no_directory not_rotated no_stat not_written bad_limit unreadable_log too_long
        undecodable :
      AuditError

abbrev pub newline : ℕ
newline = 10

-- A line feed or a carriage return becomes a space.
abbrev pub one_line : ℕ → ℕ
one_line c = if c == newline || c == 13 then 32 else c

-- clean
unfoldable pub clean : ℕ → Text → Text
clean limit value = take limit (trim_space (map one_line value))

-- The entry as it is written; `now` is the clock.
unfoldable pub normal_entry : Time → Entry → Entry
unfolding clean
normal_entry now e = record {
  time = if e.time == 0 then now else e.time;
  action = clean 80 e.action;
  site_id = clean 64 e.site_id;
  domain = clean 253 e.domain;
  success = e.success;
  detail = clean 500 e.detail;
}

-- The log and the older file beside it.
pub record Logs : Type 0 where
  pub current : File
  pub older : File

-- json.Marshal and json.Unmarshal of an entry
pub record EntryCodec : Type 0 where
  pub decode : Text → Option Entry
  pub encode : Entry → Text

-- How the calls of the file system end; a write may stop after some bytes.
pub record Ends : Type 0 where
  pub now : Time
  pub directory_fails : Bool
  pub rename_fails : Bool
  pub open_fails : Bool
  pub short_write : Option ℕ

-- The log is moved away once it is large. The older file is removed even if the move fails.
unfoldable pub rotate : Bool → Logs → Result AuditError Logs × Logs
rotate rename_fails logs = elim logs.current [
  | missing ↦ (ok logs, logs)
  | unreadable ↦ (err no_stat, logs)
  | content text ↦
      if ltb (length text) max_log_bytes
      then (ok logs, logs)
      else if rename_fails
      then (err not_rotated, record { current = content text; older = missing })
      else (
        ok (record { current = missing; older = content text }),
        record { current = missing; older = content text },
      )
]

abbrev pub text_of : File → Text
text_of missing = []
text_of unreadable = []
text_of (content text) = text

-- The line is written at the end of the log.
unfoldable pub write_line : Ends → Text → Logs → Result AuditError (Unit {0}) × Logs
write_line ends line logs =
    let old = text_of logs.current in
    if ends.open_fails then (err not_written, logs) else elim ends.short_write [
      | none ↦ (ok tt, record { current = content (old ++ line); older = logs.older })
      | some n ↦
          (err not_written, record { current = content (old ++ take n line); older = logs.older })
    ]

abbrev pub write_rotated :
    Ends → Text → Result AuditError Logs × Logs → Result AuditError (Unit {0}) × Logs
write_rotated ends line (err e, logs) = (err e, logs)
write_rotated ends line (ok rotated, logs) = write_line ends line rotated

-- Log.Append
unfoldable pub append : EntryCodec → Ends → Entry → Logs → Result AuditError (Unit {0}) × Logs
unfolding normal_entry
append c ends e logs =
    let entry = normal_entry ends.now e in
    if entry.action == []
    then (err no_action, logs)
    else if ends.directory_fails
    then (err no_directory, logs)
    else write_rotated ends (c.encode entry ++ newline ∷ []) (rotate ends.rename_fails logs)

abbrev drop_empty_last : List Text → List Text
drop_empty_last [] = []
drop_empty_last ([] ∷ []) = []
drop_empty_last ((c ∷ p) ∷ []) = (c ∷ p) ∷ []
drop_empty_last (p ∷ q ∷ ps) = p ∷ drop_empty_last (q ∷ ps)

-- The lines that bufio.Scanner meets, without the text's last line feed.
unfoldable pub scan_lines : Text → List Text
scan_lines text = drop_empty_last (split newline text)

-- One more entry, of which at most `limit` are kept.
unfoldable pub keep : ℕ → List Entry → Entry → List Entry
keep limit entries e =
    if length entries == limit then drop 1 entries ++ e ∷ [] else entries ++ e ∷ []

-- One line, which is within the buffer of 1 MiB with the carriage return at its end, and whose token is
-- without it.
unfoldable pub read_line : EntryCodec → Text → Result AuditError Entry
read_line c line =
    if leb 1_048_576 (length line)
    then err too_long
    else elim (c.decode (trim_suffix line (13 ∷ []))) [ none ↦ err undecodable | some e ↦ ok e ]

-- The loop of List
unfoldable pub scan : EntryCodec → ℕ → List Entry → List Text → Result AuditError (List Entry)
scan c limit entries [] = ok entries
scan c limit entries (line ∷ lines) =
    read_line c line >>= λ e. scan c limit (keep limit entries e) lines

-- Log.List
unfoldable pub list : EntryCodec → ℤ → File → Result AuditError (List Entry)
list c limit f = if ltb_ℤ limit (pos 1) || ltb_ℤ (pos 500) limit then err bad_limit else elim f [
  | missing ↦ ok []
  | unreadable ↦ err unreadable_log
  | content text ↦ elim (scan c (pos_part limit) [] (scan_lines text)) [
    | err e ↦ err e
    | ok entries ↦ ok (reverse entries)
  ]
]
