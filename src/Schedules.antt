-- ===== src/Schedules.antt =====
-- Scheduled operations (modules/tasks/src/schedule-rules.js, schedule-service.js and schedule-runner.js).
pub mod Runs
pub mod Counts
mod Tests
mod ClaimTests
pub mod When
pub mod Requests
pub mod Shapes
pub mod Words
mod RequestTests
pub mod Targets
pub mod Store
pub mod Runner
pub mod Later
pub mod Owed
pub mod History
