-- ===== src/Worker/Quota.antt =====
-- cmd/worker/quota_*.go: quota markers, the project ledger, the restart fence.
pub mod Marker
pub mod Inventory
pub mod Ledger
pub mod Search
pub mod Load
pub mod Reserve
pub mod Restart
pub mod Intent
pub mod Guard
pub mod Fence
pub mod Preflight
pub mod Start
