-- ===== src/Audit/Append.antt =====
-- internal/audit/log.go: theorems on Log.Append.
use panel4wp.Prelude.{
  ◌≡◌, refl, sym, ◌⊎◌, inl, inr, Bool, true, false, [], ◌∷◌, ◌++◌, if◌then◌else◌, ◌==◌, text_eq,
  ltb, length, take, ok, err, Text, Bool-cases, Option-cases, append-nil_right,
}
use panel4wp.Files.{File, missing, unreadable, content}
use panel4wp.Audit.{
  Entry, EntryCodec, AuditError, Logs, Ends, rotate, write_line, write_rotated, append, text_of,
  max_log_bytes, normal_entry, newline,
}

-- What was in the log is still at its start, or is the whole older file.
abbrev pub IsKept : Logs → Logs → Type 0
IsKept before after =
    ((p : Text) × (text_of after.current ≡ text_of before.current ++ p))
    ⊎ (after.older ≡ before.current)

same-IsKept : (logs : Logs) → IsKept logs logs
same-IsKept logs = inl ([], sym (append-nil_right (text_of logs.current)))

write_line-IsKept :
    (ends : Ends) (line : Text) (logs : Logs) → IsKept logs (write_line ends line logs).1
unfolding write_line
write_line-IsKept ends line logs = elim (Bool-cases ends.open_fails) [
  | inl bad ↦ rw bad (same-IsKept logs)
  | inr good ↦ rw good (elim (Option-cases ends.short_write) [
    | inl whole ↦ rw whole (inl (line, refl))
    | inr (n, part) ↦ rw part (inl (take n line, refl))
  ])
]

write_line-older :
    (ends : Ends) (line : Text) (logs : Logs) → (write_line ends line logs).1.older ≡ logs.older
unfolding write_line
write_line-older ends line logs = elim (Bool-cases ends.open_fails) [
  | inl bad ↦ rw bad refl
  | inr good ↦ rw good (elim (Option-cases ends.short_write) [
    | inl whole ↦ rw whole refl
    | inr (n, part) ↦ rw part refl
  ])
]

rotated-IsKept :
    (ends : Ends) (line : Text) (b : Bool) (f older : File)
    → IsKept
        (record { current = f; older = older })
        (write_rotated ends line (rotate b (record { current = f; older = older }))).1
unfolding rotate
rotated-IsKept ends line b missing older =
    write_line-IsKept ends line (record { current = missing; older = older })
rotated-IsKept ends line b unreadable older =
    same-IsKept (record { current = unreadable; older = older })
rotated-IsKept ends line b (content text) older =
    elim (Bool-cases (ltb (length text) max_log_bytes)) [
      | inl small ↦
          rw small (write_line-IsKept ends line (record { current = content text; older = older }))
      | inr large ↦ rw large (moved b)
    ]
  where
    moved :
        (b : Bool)
        → IsKept
            (record { current = content text; older = older })
            (write_rotated ends line (
              if b
              then (err AuditError.not_rotated, record { current = content text; older = missing })
              else (
                ok (record { current = missing; older = content text }),
                record { current = missing; older = content text },
              ))).1
    moved true = inl ([], sym (append-nil_right text))
    moved false =
        inr (write_line-older ends line (record { current = missing; older = content text }))

-- However an Append ends, what the log held is still at its start or is all of the older file.
pub append-IsKept :
    (c : EntryCodec) (ends : Ends) (e : Entry) (logs : Logs) → IsKept logs (append c ends e logs).1
unfolding append write_line
append-IsKept c ends e logs = elim (Bool-cases ((normal_entry ends.now e).action == [])) [
  | inl bad ↦ rw bad (same-IsKept logs)
  | inr named ↦ elim (Bool-cases ends.directory_fails) [
    | inl bad ↦ rw (named, bad) (same-IsKept logs)
    | inr good ↦
        rw (named, good)
          (rotated-IsKept ends (c.encode (normal_entry ends.now e) ++ newline ∷ [])
            ends.rename_fails logs.current logs.older)
  ]
]
