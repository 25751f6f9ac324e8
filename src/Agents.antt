-- ===== src/Agents.antt =====
-- Upgrades of the agents (modules/agents/src).
pub mod Versions
pub mod Policies
pub mod Upgrades
pub mod Cycle
pub mod Windows
pub mod Order
pub mod Newest
pub mod Stagings
pub mod Flight
pub mod Progress
mod Tests
