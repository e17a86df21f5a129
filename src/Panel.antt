-- ===== src/Panel.antt =====
-- cmd/panel: the browser's half, which keeps the sites' metadata and asks the worker for every effect.
pub mod Tracked
pub mod Backups
pub mod Reconcile
pub mod Handlers
pub mod Forms
pub mod Login
use panel4wp.Prelude.{Bool, List, [], ◌∷◌, ◌++◌, Text, length, leb, if◌then◌else◌, take, ℕ}
use panel4wp.Files.{File}

-- What `record` appends to the audit log, whose errors it only prints.
pub record Event : Type 0 where
  pub action : Text
  pub site_id : Text
  pub success : Bool
  pub detail : Text

-- The file of the sites, and what was recorded.
pub record Panel : Type 0 where
  pub sites : File
  pub events : List Event

-- record
unfoldable pub note : Text → Text → Bool → Text → Panel → Panel
note action id success detail p = record p {
  events =
      p.events ++ record { action = action; site_id = id; success = success; detail = detail } ∷ [];
}

-- truncateText
unfoldable pub truncate_text : Text → ℕ → Text
truncate_text value limit = if leb (length value) limit then value else take limit value
