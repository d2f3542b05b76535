-- ===== src/Types.antt =====
-- packages/core/src/types.ts, and the types of run-drafts.ts: the records that the components exchange. An optional property is
-- an `Option`, an inline object type is a record of its own, a union of texts is a data type.
mod Retry
mod Workflow
mod Run
mod Provider
mod Adapter
mod Plan
mod Validation
mod Draft
pub use Retry.*
pub use Workflow.*
pub use Run.*
pub use Provider.*
pub use Adapter.*
pub use Plan.*
pub use Validation.*
pub use Draft.*
