-- ===== src/Capacity.antt =====
-- Capacity forecasts (modules/monitoring/src/capacity-rules.js), of them what works on whole numbers.
pub mod Readings
pub mod Thinning
mod Tests
