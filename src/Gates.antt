-- ===== src/Gates.antt =====
-- The gates of a release (modules/platform/src): rules that can fail a build.
pub mod Expressions
pub mod Licences
pub mod Reading
pub mod Reviews
pub mod Scans
pub mod Passes
mod Tests
