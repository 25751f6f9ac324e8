-- ===== src/Identity/Accounts.antt =====
-- The local identity service, modules/identity/src/identity-service.js: people, their sessions, factors and roles.
pub mod State
pub mod Users
pub mod Sessions
pub mod Passwords
pub mod Factors
pub mod Verify
pub mod RoleAdmin
pub mod Standing
pub mod Keeping
pub mod Securing
pub mod Proving
pub mod Resetting
pub mod Managing
pub mod Founding
pub mod Changing
pub mod Guarantees
pub mod Cases
pub mod Waiting
pub mod Steady
pub mod Proven
pub mod Verified
mod Tests
mod FactorTests
