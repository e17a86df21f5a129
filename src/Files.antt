-- ===== src/Files.antt =====
-- Files that are replaced whole: `atomicConfig` of cmd/worker/resources.go and `writeJSON` of
-- internal/store/store.go: each call is one step on a file.
use panel4wp.Prelude.{Bool, true, false, Text}

-- A file of the state directory.
pub data File : Type 0 where
  missing unreadable : File
  content : Text → File

-- How far a write by `atomicConfig` gets: an error before the rename leaves the old file, one in the
-- directory's sync leaves the new one.
pub data Write : Type 0 where
  written failed_before failed_after : Write

-- atomicConfig: the file afterwards, and whether an error is returned.
unfoldable pub atomic_config : Write → Text → File → File × Bool
atomic_config written data' old = (content data', false)
atomic_config failed_before data' old = (old, true)
atomic_config failed_after data' old = (content data', true)

-- writeJSON: the same, but an error of the directory's sync is ignored.
unfoldable pub write_json : Write → Text → File → File × Bool
write_json written data' old = (content data', false)
write_json failed_before data' old = (old, true)
write_json failed_after data' old = (content data', false)
