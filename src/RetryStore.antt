-- ===== src/RetryStore.antt =====
-- apps/sidecar/src/retry-store.ts: the records of scheduled and decided retries that are kept in
-- JSON files of a run, and the migration of the records of an earlier version.
pub mod Files
pub mod Writes
pub mod Schedules
pub mod Migration
pub mod Migrate
pub mod Migrating
pub mod Kept
pub mod Migrated
pub mod Accounts
pub mod Distinct
pub mod Effects
pub mod Replay
pub mod Laws
pub mod Tests
