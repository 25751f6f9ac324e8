-- ===== src/Alerts/Rules.antt =====
-- Rules, targets and alerts of modules/monitoring/src/alert-rules.js. A measurement is a whole number
-- of the metric's smallest unit, a time a number of milliseconds.
use nuvrion.Common.{ℕ, String, Bool, true, false, Option, [], ◌∷◌, ltb, Assoc}

pub data Kind : Type 0 where
  vm host datastore cluster : Kind

unfoldable pub kind_eq : Kind → Kind → Bool
kind_eq vm vm = true
kind_eq vm _ = false
kind_eq host host = true
kind_eq host _ = false
kind_eq datastore datastore = true
kind_eq datastore _ = false
kind_eq cluster cluster = true
kind_eq cluster _ = false

pub record Metric : Type 0 where
  pub kind : Kind
  pub label : String
  pub unit : String
  pub max : ℕ

abbrev metric_of : Kind → String → String → ℕ → Metric
metric_of kind label unit max = record { kind = kind; label = label; unit = unit; max = max }

-- METRICS
unfoldable pub metrics : Assoc Metric
metrics =
    ("vm.cpu_percent", metric_of vm "Virtual machine CPU use" "%" 100)
    ∷ ("vm.memory_percent", metric_of vm "Virtual machine memory use" "%" 100)
    ∷ ("host.cpu_percent", metric_of host "Host CPU use" "%" 100)
    ∷ ("host.memory_percent", metric_of host "Host memory use" "%" 100)
    ∷ ("datastore.used_percent", metric_of datastore "Datastore space used" "%" 100)
    ∷ ("datastore.free_gb", metric_of datastore "Datastore free space" "GB" 10_000_000)
    ∷ ("datastore.days_until_full", metric_of datastore "Datastore days until full" "days" 3650)
    ∷ ("host.cpu_days_until_full", metric_of host "Host CPU days until fully used" "days" 3650)
    ∷ (
      "host.memory_days_until_full",
      metric_of host "Host memory days until fully used" "days" 3650,
    )
    ∷ (
      "cluster.cpu_days_until_full",
      metric_of cluster "Cluster CPU days until fully used" "days" 3650,
    )
    ∷ (
      "cluster.memory_days_until_full",
      metric_of cluster "Cluster memory days until fully used" "days" 3650,
    )
    ∷ []

pub data Comparison : Type 0 where
  above below : Comparison

pub data Severity : Type 0 where
  warning critical : Severity

pub record Rule : Type 0 where
  pub id : String
  pub name : String
  pub metric : String
  pub comparison : Comparison
  pub threshold : ℕ
  pub duration_minutes : ℕ
  pub severity : Severity
  pub connection_id : Option String
  pub enabled : Bool

pub record Target : Type 0 where
  pub kind : Kind
  pub id : String
  pub name : String
  pub connection_id : String
  pub observed_at : ℕ
  pub values : Assoc ℕ

pub data Status : Type 0 where
  active acknowledged resolved : Status

pub record Alert : Type 0 where
  pub id : String
  pub rule_id : Option String
  pub target_id : String
  pub status : Status
  pub value : ℕ

-- OPEN.includes(alert.status)
unfoldable pub is_open : Alert → Bool
is_open a = elim a.status [ active ↦ true | acknowledged ↦ true | resolved ↦ false ]

unfoldable pub condition_holds : Rule → ℕ → Bool
condition_holds rule value = elim rule.comparison [
  | above ↦ ltb rule.threshold value
  | below ↦ ltb value rule.threshold
]
