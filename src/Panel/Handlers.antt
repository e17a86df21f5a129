-- ===== src/Panel/Handlers.antt =====
-- cmd/panel/main.go: the handlers of a site's page, under the panel's mutex. A reply of a handler stands
-- for the HTTP response and leaves out its words.
pub mod Safety
pub mod Kept
pub mod Update
pub mod Restore
pub mod Change
pub mod Create
pub mod Distinct
pub mod Actions
pub mod Listed
pub mod Deleted
use panel4wp.Prelude.{Text}

-- r.FormValue
abbrev pub Form : Type 0
Form = Text → Text
