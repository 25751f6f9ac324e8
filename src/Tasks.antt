-- ===== src/Tasks.antt =====
-- The task engine's local store (modules/tasks/src/task-store.js): what the store keeps, its
-- operations, and what they guarantee.
pub mod Types
pub mod Journal
pub mod Store
pub mod Control
pub mod Sweep
pub mod Calls
pub mod Moves
pub mod Steps
pub mod Lifecycle
pub mod Recovery
pub mod Guarantees
pub mod Durability
pub mod Exclusion
mod Tests
