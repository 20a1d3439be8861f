-- ===== src/Rule.antt =====
-- The rule engine (crates/domain/src/rule/): a rule, written by the user, decides for each
-- discovered work whether it is downloaded, kept as metadata, or ignored.
pub mod Platform
pub mod Field
pub mod Operator
pub mod Options
pub mod Value
pub mod Schema
pub mod Validation
pub mod Trace
pub mod Candidate
pub mod Compare
pub mod ValueTest
pub mod Semantics
pub mod Evaluator
pub mod Catalog
mod Tests
