-- ===== src/Subscription.antt =====
-- Subscriptions: the words of their states, and when they run (crates/domain/src/subscription.rs).
pub mod Kind
pub mod Account
pub mod RunStatus
pub mod RecentState
pub mod ImportKind
pub mod ImportStatus
pub mod Words
pub mod Schedule
mod Tests
