-- ===== src/Alerts/Tests.antt =====
-- The theorem about planned alerts at one rule, with a virtual machine above its threshold.
use nuvrion.Common.{true, none, [], ◌∷◌}
use nuvrion.Alerts.Rules.{vm, above, warning, Rule, Target}

abbrev busy_cpu : Rule
busy_cpu = record {
  id = "r1";
  name = "CPU";
  metric = "vm.cpu_percent";
  comparison = above;
  threshold = 80;
  duration_minutes = 5;
  severity = warning;
  connection_id = none;
  enabled = true;
}

abbrev machine : Target
machine = record {
  kind = vm;
  id = "vm1";
  name = "web";
  connection_id = "c1";
  observed_at = 990000;
  values = ("vm.cpu_percent", 95) ∷ [];
}
