-- ===== src/Alerts/Evaluation.antt =====
-- `evaluate` of modules/monitoring/src/alert-service.js, and what each person has read.
use nuvrion.Common.{
  ℕ, ◌+◌, ◌*◌, String, ◌||◌, none, some, List, [], ◌∷◌, ◌++◌, map, filter_by, length, str_eq, leb,
  put, values, if◌then◌else◌,
}
use nuvrion.Alerts.Rules.{Rule, Target, active, is_open}
use nuvrion.Alerts.Plan.{Firing, Refresh, Resolution, plan_evaluation}
use nuvrion.Alerts.Service.{StoredRule, StoredAlert, AlertService, persist, resolved_alert}

-- STALE_AFTER_MS
abbrev pub stale_after_ms : ℕ
stale_after_ms = 10 * 60000

-- The alert that a firing pushes.
unfoldable pub fired_alert : String → ℕ → Firing → StoredAlert
fired_alert id at f = record {
  alert = record {
    id = id;
    rule_id = some f.rule.id;
    target_id = f.target.id;
    status = active;
    value = f.value;
  };
  rule_name = f.rule.name;
  metric = f.rule.metric;
  comparison = f.rule.comparison;
  threshold = f.rule.threshold;
  severity = f.rule.severity;
  target_kind = f.target.kind;
  target_name = f.target.name;
  connection_id = f.target.connection_id;
  first_seen_at = at;
  last_seen_at = at;
  acknowledged_at = none;
  acknowledged_by = none;
  resolved_at = none;
  resolved_reason = none;
}

unfoldable pub fire_all : (ℕ → String) → ℕ → ℕ → List Firing → List StoredAlert
unfolding fired_alert
fire_all uuid drawn at [] = []
fire_all uuid drawn at (f ∷ fs) = fired_alert (uuid drawn) at f ∷ fire_all uuid (drawn + 1) at fs

-- Object.assign(alert, { ruleName, ..., value, lastSeenAt })
unfoldable pub refreshed : ℕ → Firing → StoredAlert → StoredAlert
refreshed at f a = record a {
  alert = record a.alert { value = f.value };
  rule_name = f.rule.name;
  metric = f.rule.metric;
  comparison = f.rule.comparison;
  threshold = f.rule.threshold;
  severity = f.rule.severity;
  target_name = f.target.name;
  last_seen_at = at;
}

-- An alert that is in the plan is the stored one of its identifier.
unfoldable pub change_alert :
    String → (StoredAlert → StoredAlert) → List StoredAlert → List StoredAlert
change_alert id f alerts = map (λ a. if str_eq a.alert.id id then f a else a) alerts

unfoldable pub refresh_all : ℕ → List Refresh → List StoredAlert → List StoredAlert
unfolding change_alert refreshed
refresh_all at [] alerts = alerts
refresh_all at (r ∷ rs) alerts =
    refresh_all at rs (change_alert r.alert.id (refreshed at r.firing) alerts)

unfoldable pub resolve_all : ℕ → List Resolution → List StoredAlert → List StoredAlert
unfolding change_alert
resolve_all at [] alerts = alerts
resolve_all at (r ∷ rs) alerts =
    resolve_all at rs (change_alert r.alert.id (resolved_alert at r.reason) alerts)

pub record Evaluated : Type 0 where
  pub fired : ℕ
  pub refreshed_count : ℕ
  pub resolved_count : ℕ
  pub stale : ℕ
  pub rules : ℕ
  pub evaluated_at : ℕ

-- evaluate(targets, now)
unfoldable pub evaluate : (ℕ → String) → List Target → ℕ → AlertService → Evaluated × AlertService
unfolding fire_all refresh_all resolve_all
evaluate uuid targets now s =
    let rules = map (λ (r : StoredRule). r.rule) (values s.rules) in
    let openings = filter_by is_open (map (λ (a : StoredAlert). a.alert) s.alerts) in
    let plan = plan_evaluation rules targets openings s.pending now stale_after_ms in
    let pushed = s.alerts ++ fire_all uuid s.drawn now plan.fire in
    let s' : AlertService = record s {
      alerts = resolve_all now plan.resolve (refresh_all now plan.refresh pushed);
      pending = plan.pending;
      drawn = s.drawn + length plan.fire;
    } in
    (
      record {
        fired = length plan.fire;
        refreshed_count = length plan.refresh;
        resolved_count = length plan.resolve;
        stale = plan.stale;
        rules = length (filter_by (λ (r : Rule). r.enabled) rules);
        evaluated_at = now;
      },
      (if leb 1 (length plan.fire) || (leb 1 (length plan.refresh) || leb 1 (length plan.resolve))
          then persist s'
          else s'),
    )

-- markRead(userId)
unfoldable pub mark_read : String → ℕ → AlertService → ℕ × AlertService
unfolding persist
mark_read user now s = (now, persist (record s { reads = put user now s.reads }))
