-- ===== src/Lib.antt =====
-- A model of the core of Miracle, which plans and runs workflows of AI agents: the package
-- `packages/core/src`, whose functions are pure and which the server in `apps/sidecar/src` calls, and
-- the two stores of that server, which keep drafts and retries in files.
--
-- How the parts work together. A workflow is checked (`validateWorkflowSpec`) and planned
-- (`createDryRunPlan`); a run draft collects the inputs of a launch and is confirmed against a plan's
-- hash (`confirmRunDraft`); a run is made from the workflow (`createRunFromWorkflow`); at each round
-- `calculateExecutionPlan` says which nodes may execute; `selectProviderRoute` chooses the provider of
-- a node; `classifyAdapterOutcome` says what the adapter's answer means, and `decideRetry` whether and
-- when a failed attempt is tried again. The run draft store runs the draft operations on files, inside a
-- transaction per draft; the retry store keeps the schedules and the states of retries over restarts.
--
-- Which file models which part:
--   Types, Types/*      packages/core/src/types.ts: a record or a data type per type. An optional
--                       property is an Option; a property of an object type is a record of its own.
--                       Types/Draft has the types of run-drafts.ts.
--   Schemas             packages/core/src/schemas.ts: the schemas that the modelled functions parse
--                       with, as Boolean tests; `parse` returns the value or throws.
--   Schemas/Values, Schemas/Stored
--                       the schemas of the records of the retry store on JSON values, and those values.
--   Retry               packages/core/src/retry-policy.ts, all of it.
--   Outcome             packages/core/src/adapter-outcome.ts, all of it.
--   Routing             packages/core/src/provider-routing.ts, all of it.
--   Validation          packages/core/src/validation.ts, all of it.
--   Canonical           packages/core/src/run-drafts.ts: `canonicalJson`, `canonicalPlanHash`.
--   Drafts              packages/core/src/run-drafts.ts: `createRunDraft`, `updateRunDraft`,
--                       `refreshRunDraftWorkflowSource`, `reviseRunDraft`, `cancelRunDraft`,
--                       `confirmRunDraft`. A state is a draft with its confirmation, and Drafts/Lifecycle
--                       has the operations as a step relation.
--   Drafts/Plan, Drafts/DryRun
--                       packages/core/src/run-drafts.ts: `defaultCredentialScopes`,
--                       `createWorkflowSnapshotDraft`, `createRunDraftDryRunPlan`.
--   Execution           packages/core/src/execution-plan.ts, all of it: Artifacts, Inputs, Gates, Joins
--                       and Edges hold the helpers, Decision the decision on a node and the plan.
--   Run                 packages/core/src/run.ts, all of it.
--   Schemas/Invocations packages/core/src/schemas.ts: the schema of an invocation, and
--                       `parseAdapterResultForInvocation`.
--   Runner              packages/core/src/runner.ts, all of it: Runner has `createAdapterInvocation`,
--                       Mock `executeMockAdapter`, Records what is recorded of a result.
--   Projections         packages/core/src/projections.ts: `buildRunSummary`, `buildDagProjection`,
--                       `buildGateDecisionProjection`.
--   RetryStore          apps/sidecar/src/retry-store.ts, all of it: Files has the files and the errors
--                       of reading them, Writes the write of one file, Schedules the two stores, and
--                       Migration, Migrate and Migrating the migration of the older formats.
--   DraftStore          apps/sidecar/src/run-draft-store.ts, all of it: Files has the files of a draft,
--                       Transactions the lock and the transaction, Reading the checks and
--                       `readUnlocked`, Workflows `readWorkflow`, Operations and Decisions the methods,
--                       Launches `requestLaunch`. Atomic and Stopped say what a transaction does, whole
--                       or stopped.
--   Prelude, Samples    shared helpers, and the sample workflow of the tests. Prelude/Actions has the
--                       actions that change a state and may throw, Prelude/Ensures what holds of a
--                       result.
--
-- In the stores, a file is missing, has a content that reading it refuses (the error is given), or has
-- a value; `JSON.parse`, the modification times and the paths of the file system are parameters, and so
-- is the order in which a recursive `rm` removes two entries. A call of the file system succeeds, except
-- a copy whose source is missing, and where a theorem speaks of a process that stops between two calls,
-- of a lock that is taken, or of a write that fails: after a launch, before or after the draft is
-- written, or in the retry store, whose writes say which of their calls fail. The five parallel reads of
-- `readUnlocked` fail with the error of the first file that fails, in the order of the source. A file
-- of a draft that holds JSON of other types than the record's is one that reading refuses; the rest of
-- the checks is there.
--
-- Functions that throw return a Result. A function of one name in the source has that name here in
-- snake case. What the source takes from its runtime is a parameter: the clock and `Date.parse`,
-- `localeCompare`, `JSON.stringify` of a text or number, SHA-256, the order of keys, the JSON value of a
-- workflow and of the hashed part of a plan, and the schema parser of zod for a whole workflow.
--
-- Numbers are natural numbers, except priorities, which are integers: amounts of money and times are
-- whole, versions too, so `Number.isInteger` and `Number.isFinite` hold of them, and no sum is rounded. The
-- time that is left for an attempt is the exception: it is a number of whole milliseconds with or without
-- a fraction, or no usable number.
-- `Array.prototype.sort` is an insertion sort, which is stable too. No function needs fuel, but for the
-- digits of a number in a text, which get one step more than the number's value.
--
-- Not modelled: the adapters' registry, the attention items and the canvas of projections.ts, and the
-- historical view of packages/core/src; and the server and the web application, which are input and output around the
-- core, with the adapters' processes and network calls.
pub mod Prelude
pub mod Types
pub mod Schemas
pub mod Retry
pub mod RetryStore
pub mod DraftStore
pub mod Outcome
pub mod Routing
pub mod Validation
pub mod Canonical
pub mod Drafts
pub mod Execution
pub mod Run
pub mod Runner
pub mod Projections
pub mod Samples
