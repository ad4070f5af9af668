-- ===== src/Notifications.antt =====
-- src/bybit_flow/notifications.py with identity.py: the outbox and its deliveries, what makes a
-- setup visible, the claims of one opportunity, and the updates of ended plans.
pub mod Keys
pub mod Visibility
pub mod Outbox
pub mod Interleaving
pub mod Changes
pub mod Advance
pub mod Rows
pub mod Once
pub mod AtMostOnce
pub mod Conflicts
pub mod Clear
pub mod Nested
pub mod Dispatch
pub mod Termination
pub mod Opportunity
pub mod Claims
pub mod Events
pub mod Twins
pub mod Grants
pub mod Ownership
pub mod Terminals
pub mod Retries
pub mod Initial
pub mod OneMessage
mod Tests
mod ClaimTests
mod NestedTests
