-- ===== src/Tests.antt =====
-- Runs of the model on concrete inputs, and each theorem at an input that meets its hypotheses.
pub mod Core
pub mod Codec
pub mod Coder
pub mod Store
pub mod Quota
pub mod Audit
pub mod Settings
pub mod Registry
pub mod Panel
pub mod Handlers
pub mod Receipts
pub mod Login
pub mod Start
