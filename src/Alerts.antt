-- ===== src/Alerts.antt =====
-- Threshold alerts (modules/monitoring/src/alert-rules.js and alert-service.js): rules, measurements, the plan
-- of one evaluation, and the service that stores what it says.
pub mod Rules
pub mod Plan
pub mod Visits
pub mod Soundness
pub mod Service
pub mod Evaluation
pub mod Feed
pub mod Deletion
pub mod Listing
pub mod Requests
pub mod Readings
pub mod Kept
pub mod Editing
mod RequestTests
mod Tests
mod ServiceTests
