-- ===== src/Alerts/Soundness.antt =====
-- The second loop, and the whole evaluation.
use nuvrion.Alerts.Plan.{Plan}
