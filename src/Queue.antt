-- ===== src/Queue.antt =====
-- The job queue (crates/db/src/jobs): its tables, and the transactions that read and write them.
pub mod Store
pub mod Transact
pub mod Table
pub mod Attempts
pub mod Linked
pub mod Insertion
pub mod Transitions
pub mod Claiming
pub mod Accounts
pub mod Enqueue
pub mod Listing
pub mod Service
pub mod Lease
pub mod Requests
mod Tests
pub mod Coherence
