-- ===== src/Alerts/ServiceTests.antt =====
-- An evaluation that fires, what is shown of it, and the deletion of its rule.
use nuvrion.Common.{ℕ, ◌+◌, ◌≡◌, refl, String, true, false, none, some, List, [], ◌∷◌, All, map}
use nuvrion.Alerts.Rules.{vm, above, warning, active, Rule, Target}
use nuvrion.Alerts.Service.{StoredRule, StoredAlert, AlertService, is_of_rule, delete_rule}
use nuvrion.Alerts.Evaluation.{evaluate, fired_alert}
use nuvrion.Alerts.Feed.{preview_rule}

abbrev busy : Rule
busy = record {
  id = "r1";
  name = "CPU";
  metric = "vm.cpu_percent";
  comparison = above;
  threshold = 80;
  duration_minutes = 0;
  severity = warning;
  connection_id = none;
  enabled = true;
}

abbrev machine : Target
machine = record {
  kind = vm;
  id = "vm1";
  name = "web";
  connection_id = "c1";
  observed_at = 990000;
  values = ("vm.cpu_percent", 95) ∷ [];
}

abbrev stored_rule : StoredRule
stored_rule = record {
  rule = busy;
  row_version = 1;
  created_by = none;
  created_at = 0;
  updated_at = 0;
}

abbrev quiet_service : AlertService
quiet_service = record {
  rules = ("r1", stored_rule) ∷ [];
  alerts = [];
  reads = [];
  pending = [];
  has_file = false;
  disk = none;
  drawn = 0;
}

abbrev fired : StoredAlert
fired = fired_alert "a0" 1000000 (record { rule = busy; target = machine; value = 95 })

evaluated : (evaluate (λ n. "a0") (machine ∷ []) 1000000 quiet_service).1.alerts ≡ fired ∷ []
unfolding evaluate nuvrion.Alerts.Service.persist fired_alert nuvrion.Alerts.Plan.plan_evaluation
    nuvrion.Alerts.Plan.close_alerts nuvrion.Alerts.Plan.visit_rules nuvrion.Common.values
    nuvrion.Alerts.Plan.enabled_rules nuvrion.Common.put nuvrion.Common.get
    nuvrion.Alerts.Rules.metrics nuvrion.Alerts.Plan.visit_targets nuvrion.Alerts.Plan.visit
    nuvrion.Alerts.Rules.kind_eq nuvrion.Alerts.Plan.in_scope nuvrion.Alerts.Plan.plan_value
    nuvrion.Alerts.Rules.condition_holds nuvrion.Alerts.Plan.plan_holding
    nuvrion.Alerts.Plan.open_by_key
evaluated = refl

previewed :
    preview_rule busy (machine ∷ []) 1000000
    ≡ some (record {
      evaluated = 1;
      unmeasured = 0;
      matches = record { id = "vm1"; name = "web"; value = 95 } ∷ [];
    })
unfolding preview_rule nuvrion.Common.get nuvrion.Alerts.Rules.metrics nuvrion.Alerts.Rules.kind_eq
    nuvrion.Alerts.Plan.in_scope nuvrion.Alerts.Rules.condition_holds
previewed = refl

abbrev loud_service : AlertService
loud_service = record quiet_service { alerts = fired ∷ [] }

one_closed : (delete_rule "r1" 1100000 loud_service).0 ≡ some 1
unfolding delete_rule nuvrion.Common.get is_of_rule fired_alert nuvrion.Alerts.Rules.is_open
one_closed = refl
