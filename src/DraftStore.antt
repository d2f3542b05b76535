-- ===== src/DraftStore.antt =====
-- apps/sidecar/src/run-draft-store.ts: the store of run drafts. One draft is a directory of five
-- files; every method runs under a lock and inside a transaction that keeps a copy of them.
pub mod Files
pub mod Transactions
pub mod Reading
pub mod Workflows
pub mod Operations
pub mod Decisions
pub mod Launches
pub mod Atomic
pub mod Stopped
pub mod Readback
pub mod Durable
pub mod Cancelled
pub mod Methods
pub mod Stale
pub mod Launching
pub mod Tests
