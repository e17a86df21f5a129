-- ===== src/Worker.antt =====
-- cmd/worker: the privileged half, which owns site directories and containers.
pub mod Docker
pub mod Receipts
pub mod Compose
pub mod Quota
