-- ===== src/Job.antt =====
-- Jobs: the words that name their priorities, states, kinds and errors, the policy that gives each
-- kind a priority, the quota that chooses which priority a worker serves next, and the retries of
-- failed attempts (crates/domain/src/job.rs, crates/application/src/jobs.rs).
pub mod Priority
pub mod State
pub mod Kind
pub mod ErrorClass
pub mod Collection
pub mod Words
pub mod Policy
pub mod Selection
pub mod Retry
pub mod Quota
mod Tests
