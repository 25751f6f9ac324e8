-- ===== src/Identity.antt =====
-- Signing in (modules/identity/src): one-time passwords, two-factor rules, and the limit on failed
-- sign-ins.
pub mod Base32
pub mod RoundTrip
pub mod Totp
pub mod Codes
pub mod BackupCodes
pub mod Mfa
pub mod SingleUse
pub mod Lockout
pub mod Roles
pub mod RoleRequests
pub mod Grants
pub mod Accounts
pub mod RateLimiter
pub mod History
pub mod SignIn
mod Tests
