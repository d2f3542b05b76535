-- ===== src/Execution.antt =====
-- packages/core/src/execution-plan.ts: what each node of a run may do next.
mod Artifacts
mod Inputs
mod Gates
mod Joins
mod Edges
mod Decision
mod Awaited
pub mod Ready
mod Start
pub mod Plan
mod Scope
mod Sources
pub mod Tests
unfoldable pub use Artifacts.*
unfoldable pub use Inputs.*
unfoldable pub use Gates.*
unfoldable pub use Joins.*
unfoldable pub use Edges.*
unfoldable pub use Decision.*
