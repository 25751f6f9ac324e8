-- ===== src/Alerts/Plan.antt =====
-- `planEvaluation` of modules/monitoring/src/alert-rules.js, as its loops: for each enabled rule each
-- target is visited, then each open alert.
use nuvrion.Common.{
  ℕ, ◌+◌, ◌*◌, String, text_append, Bool, ◌&&◌, ◌||◌, not, none, some, List, [], ◌∷◌, ◌++◌, str_eq,
  truthy, is_some, or_else, ltb, leb, any, get, put, values, Assoc, if◌then◌else◌,
}
use nuvrion.Alerts.Rules.{kind_eq, Metric, metrics, Rule, Target, Alert, condition_holds}

pub data Reason : Type 0 where
  cleared rule_disabled rule_deleted scope_changed target_gone : Reason

pub record Firing : Type 0 where
  pub rule : Rule
  pub target : Target
  pub value : ℕ

pub record Refresh : Type 0 where
  pub alert : Alert
  pub firing : Firing

pub record Resolution : Type 0 where
  pub alert : Alert
  pub reason : Reason

pub record Plan : Type 0 where
  pub fire : List Firing
  pub refresh : List Refresh
  pub resolve : List Resolution
  pub pending : Assoc ℕ
  pub stale : ℕ
  pub seen : List String

abbrev pub empty_plan : Plan
empty_plan = record { fire = []; refresh = []; resolve = []; pending = []; stale = 0; seen = [] }

-- `${ruleId}\n${targetId}`
unfoldable pub pending_key : String → String → String
pending_key rule_id target_id = text_append (text_append rule_id "\n") target_id

-- new Map(rules.filter(rule => rule.enabled).map(rule => [rule.id, rule]))
unfoldable pub enabled_rules : List Rule → Assoc Rule → Assoc Rule
enabled_rules [] m = m
enabled_rules (r ∷ rs) m = enabled_rules rs (if r.enabled then put r.id r m else m)

-- new Map(open.filter(alert => alert.ruleId).map(alert => [pendingKey(...), alert]))
unfoldable pub open_by_key : List Alert → Assoc Alert → Assoc Alert
unfolding pending_key
open_by_key [] m = m
open_by_key (a ∷ alerts) m =
    open_by_key alerts
      (if truthy a.rule_id then put (pending_key (or_else a.rule_id "") a.target_id) a m else m)

-- The rule does not narrow to a connection, or to the target's.
unfoldable pub in_scope : Rule → Target → Bool
in_scope rule target =
    not (truthy rule.connection_id) || str_eq target.connection_id (or_else rule.connection_id "")

-- `if (pending.has(key)) plan.pending.set(key, pending.get(key))`
unfoldable pub carry : String → Assoc ℕ → Plan → Plan
carry key pending plan = elim (get key pending) [
  | none ↦ plan
  | some since ↦ record plan { pending = put key since plan.pending }
]

module _ (openings : Assoc Alert) (pending : Assoc ℕ) (now stale_after : ℕ) where
  -- The condition holds: the time since it has is kept, and the alert fires or is refreshed when that
  -- is the rule's whole duration.
  unfoldable pub plan_holding : Rule → Target → String → ℕ → Plan → Plan
  plan_holding rule target key value plan =
      let since = or_else (get key pending) now in
      let firing : Firing = record { rule = rule; target = target; value = value } in
      let kept = record plan { pending = put key since plan.pending } in
      if leb (since + rule.duration_minutes * 60000) now
      then elim (get key openings) [
        | none ↦ record kept { fire = plan.fire ++ firing ∷ [] }
        | some alert ↦ record kept {
          refresh = plan.refresh ++ record { alert = alert; firing = firing } ∷ [];
        }
      ]
      else kept

  unfoldable pub plan_clear : String → Plan → Plan
  plan_clear key plan = elim (get key openings) [
    | none ↦ plan
    | some alert ↦ record plan {
      resolve = plan.resolve ++ record { alert = alert; reason = cleared } ∷ [];
    }
  ]

  unfoldable pub plan_value : Rule → Target → String → ℕ → Plan → Plan
  plan_value rule target key value plan =
      if ltb (target.observed_at + stale_after) now
      then carry key pending (record plan { stale = plan.stale + 1 })
      else if condition_holds rule value
      then plan_holding rule target key value plan
      else plan_clear key plan

  -- The body of the inner loop.
  unfoldable pub visit : Rule → Metric → Target → Plan → Plan
  visit rule metric target plan =
      let key = pending_key rule.id target.id in
      let marked = record plan { seen = key ∷ plan.seen } in
      if kind_eq target.kind metric.kind && in_scope rule target
      then elim (get rule.metric target.values) [
        | none ↦ carry key pending marked
        | some value ↦ plan_value rule target key value marked
      ]
      else plan

  unfoldable pub visit_targets : Rule → Metric → List Target → Plan → Plan
  visit_targets rule metric [] plan = plan
  visit_targets rule metric (t ∷ ts) plan = visit_targets rule metric ts (visit rule metric t plan)

  unfoldable pub visit_rules : List Target → List Rule → Plan → Plan
  visit_rules targets [] plan = plan
  visit_rules targets (r ∷ rs) plan = visit_rules targets rs (elim (get r.metric metrics) [
    | none ↦ plan
    | some metric ↦ visit_targets r metric targets plan
  ])

-- The body of the second loop: an open alert whose rule is off or gone, or that no target was
-- measured for.
unfoldable pub close_alert : List Rule → Assoc Rule → List Target → Alert → Plan → Plan
close_alert rules enabled targets alert plan =
    let rule_id = or_else alert.rule_id "" in
    let push = λ (reason : Reason). record plan {
      resolve = plan.resolve ++ record { alert = alert; reason = reason } ∷ [];
    } in
    if not (truthy alert.rule_id)
    then plan
    else if not (is_some (get rule_id enabled))
    then push (if any (λ r. str_eq r.id rule_id) rules then rule_disabled else rule_deleted)
    else if not (any (str_eq (pending_key rule_id alert.target_id)) plan.seen)
    then push
        (if any (λ t. str_eq t.id alert.target_id) targets then scope_changed else target_gone)
    else plan

unfoldable pub close_alerts : List Rule → Assoc Rule → List Target → List Alert → Plan → Plan
close_alerts rules enabled targets [] plan = plan
close_alerts rules enabled targets (a ∷ alerts) plan =
    close_alerts rules enabled targets alerts (close_alert rules enabled targets a plan)

unfoldable pub plan_evaluation : List Rule → List Target → List Alert → Assoc ℕ → ℕ → ℕ → Plan
plan_evaluation rules targets openings pending now stale_after =
    let enabled = enabled_rules rules [] in
    let visited =
      visit_rules (open_by_key openings []) pending now stale_after targets (values enabled)
        empty_plan in
    close_alerts rules enabled targets openings visited
