-- ===== src/Alerts/Service.antt =====
-- modules/monitoring/src/alert-service.js: rules, the alerts they raise, and what each person has read.
use nuvrion.Common.{
  ℕ, ◌+◌, String, text_append, Bool, true, false, ◌&&◌, not, Option, none, some, List, [], ◌∷◌, map,
  any, find_by, filter_by, length, is_some, or_else, str_eq, leb, ◌==◌, get, put, remove, values,
  Assoc, if◌then◌else◌,
}
use nuvrion.Common.Results.{Result, ok, err, ◌>>=◌, ◌>>◌, refuse_if}
use nuvrion.Common.Json.{Json, Platform}
use nuvrion.Common.Text.{codes}
use nuvrion.Alerts.Rules.{
  Kind, Comparison, Severity, Rule, Status, active, acknowledged, resolved, Alert, is_open,
}
use nuvrion.Alerts.Plan.{Reason, rule_deleted}

-- A rule as it is kept.
pub record StoredRule : Type 0 where
  pub rule : Rule
  pub row_version : ℕ
  pub created_by : Option String
  pub created_at : ℕ
  pub updated_at : ℕ

-- An alert as it is kept; `alert` has its identifier, rule, target, status and value.
pub record StoredAlert : Type 0 where
  pub alert : Alert
  pub rule_name : String
  pub metric : String
  pub comparison : Comparison
  pub threshold : ℕ
  pub severity : Severity
  pub target_kind : Kind
  pub target_name : String
  pub connection_id : String
  pub first_seen_at : ℕ
  pub last_seen_at : ℕ
  pub acknowledged_at : Option ℕ
  pub acknowledged_by : Option String
  pub resolved_at : Option ℕ
  pub resolved_reason : Option Reason

pub record Saved : Type 0 where
  pub rules : Assoc StoredRule
  pub alerts : List StoredAlert
  pub reads : Assoc ℕ

pub record AlertService : Type 0 where
  pub rules : Assoc StoredRule
  pub alerts : List StoredAlert
  pub reads : Assoc ℕ
  pub pending : Assoc ℕ
  pub has_file : Bool
  pub disk : Option Saved
  pub drawn : ℕ

-- #persist()
unfoldable pub persist : AlertService → AlertService
persist s = record s {
  disk =
      if s.has_file
      then some (record { rules = s.rules; alerts = s.alerts; reads = s.reads })
      else s.disk;
}

-- this.#publicRule(rule): with the number of its open alerts
unfoldable pub public_rule : AlertService → StoredRule → StoredRule × ℕ
public_rule s r = (
  r,
  length (
      filter_by
        (λ a.
          is_some a.alert.rule_id
          && (str_eq (or_else a.alert.rule_id "") r.rule.id && is_open a.alert))
        s.alerts),
)

-- The errors of the service, and those of parseRule and mergeRule.
pub data Refusal (E : Type 0) : Type 0 where
  invalid : E → Refusal E
  rule_exists : String → Refusal E
  rule_limit alert_resolved version_conflict : Refusal E

-- LIMITS.rules
abbrev pub rules_limit : ℕ
rules_limit = 100

unfoldable pub checked {ℓ} : {E : Type 0} {A : Type ℓ} → Result E A → Result (Refusal E) A
checked (err e) = err (invalid e)
checked (ok a) = ok a

-- #checkName(name, exceptId): whether the name is taken
unfoldable pub name_taken : Platform → String → Option String → Assoc StoredRule → Bool
name_taken platform name except_id rules =
    any
      (λ r.
        not (elim except_id [ none ↦ false | some id ↦ str_eq r.rule.id id ])
        && str_eq (platform.lower r.rule.name) (platform.lower name))
      (values rules)

-- The rules that the service calls: parseRule(input) and mergeRule(existing, patch), of whose results all
-- fields but the identifier are used.
module _ {E : Type 0} (platform : Platform) (parse : Option Json → Result E Rule)
    (merge : Rule → Option Json → Result E Rule) where
  -- createRule(input, userId), with the identifier that is drawn and the time
  unfoldable pub create_rule :
      Option Json
      → Option String
      → ℕ
      → String
      → AlertService
      → Result (Refusal E) (StoredRule × AlertService)
  create_rule input user_id now id s = do
    rule ← checked (parse input)
    refuse_if (leb rules_limit (length s.rules)) rule_limit
    refuse_if (name_taken platform rule.name none s.rules) (rule_exists rule.name)
    let stored : StoredRule = record {
      rule = record rule { id = id };
      row_version = 1;
      created_by = user_id;
      created_at = now;
      updated_at = now;
    }
    ok (stored, persist (record s { rules = put id stored s.rules }))

  -- updateRule(id, patch, expectedVersion)
  unfoldable pub update_rule :
      String
      → Option Json
      → ℕ
      → ℕ
      → AlertService
      → Result (Refusal E) (Option StoredRule × AlertService)
  update_rule id patch expected now s = elim (get id s.rules) [
    | none ↦ ok (none, s)
    | some r ↦ do
      refuse_if (not (r.row_version == expected)) version_conflict
      rule ← checked (merge r.rule patch)
      refuse_if (name_taken platform rule.name (some id) s.rules) (rule_exists rule.name)
      let changed : StoredRule = record r {
        rule = record rule { id = r.rule.id };
        row_version = r.row_version + 1;
        updated_at = now;
      }
      ok (some changed, persist (record s { rules = put id changed s.rules }))
  ]

-- alert.ruleId === id
unfoldable pub is_of_rule : String → StoredAlert → Bool
is_of_rule id a = elim a.alert.rule_id [ none ↦ false | some own ↦ str_eq own id ]

-- Object.assign(alert, { status: 'resolved', resolvedAt, resolvedReason })
unfoldable pub resolved_alert : ℕ → Reason → StoredAlert → StoredAlert
resolved_alert now reason a = record a {
  alert = record a.alert { status = resolved };
  resolved_at = some now;
  resolved_reason = some reason;
}

-- The two loops of deleteRule over the alerts, on one of them.
unfoldable pub released : String → ℕ → StoredAlert → StoredAlert
unfolding is_of_rule resolved_alert
released id now a =
    if is_of_rule id a
    then (let b = if is_open a.alert then resolved_alert now rule_deleted a else a in
        record b { alert = record b.alert { rule_id = none } })
    else a

-- key.startsWith(`${id}\n`)
unfoldable pub text_starts : List ℕ → List ℕ → Bool
text_starts [] text = true
text_starts (p ∷ ps) [] = false
text_starts (p ∷ ps) (c ∷ cs) = p == c && text_starts ps cs

unfoldable pub forget_pending : String → Assoc ℕ → Assoc ℕ
unfolding text_starts
forget_pending id [] = []
forget_pending id ((key, since) ∷ pending) =
    let rest = forget_pending id pending in
    if text_starts (codes (text_append id "\n")) (codes key) then rest else (key, since) ∷ rest

-- deleteRule(id): how many alerts were resolved
unfoldable pub delete_rule : String → ℕ → AlertService → Option ℕ × AlertService
delete_rule id now s = elim (get id s.rules) [
  | none ↦ (none, s)
  | some r ↦ (
    some (length (filter_by (λ a. is_of_rule id a && is_open a.alert) s.alerts)),
    persist (record s {
      alerts = map (released id now) s.alerts;
      rules = remove id s.rules;
      pending = forget_pending id s.pending;
    }),
  )
]

unfoldable pub status_eq : Status → Status → Bool
status_eq active active = true
status_eq active _ = false
status_eq acknowledged acknowledged = true
status_eq acknowledged _ = false
status_eq resolved resolved = true
status_eq resolved _ = false

abbrev pub acknowledged_alert : String → ℕ → StoredAlert → StoredAlert
acknowledged_alert user now a = record a {
  alert = record a.alert { status = acknowledged };
  acknowledged_at = some now;
  acknowledged_by = some user;
}

-- alerts.find(item => item.id === id), changed in place
unfoldable pub change_first :
    String → (StoredAlert → StoredAlert) → List StoredAlert → List StoredAlert
change_first id f [] = []
change_first id f (a ∷ alerts) =
    let rest = change_first id f alerts in if str_eq a.alert.id id then f a ∷ alerts else a ∷ rest

-- acknowledge(id, userId)
unfoldable pub acknowledge :
    {E : Type 0}
    → String
    → String
    → ℕ
    → AlertService
    → Result (Refusal E) (Option StoredAlert × AlertService)
acknowledge id user now s = elim (find_by (λ a. str_eq a.alert.id id) s.alerts) [
  | none ↦ ok (none, s)
  | some a ↦ elim a.alert.status [
    | resolved ↦ err alert_resolved
    | active ↦ ok (
      some (acknowledged_alert user now a),
      persist (record s { alerts = change_first id (acknowledged_alert user now) s.alerts }),
    )
    | acknowledged ↦ ok (some a, s)
  ]
]

-- new AlertService({ file })
unfoldable pub open_service : Bool → Option Saved → AlertService
open_service has_file disk =
    let empty : Saved = record { rules = []; alerts = []; reads = [] } in
    let saved = if has_file then or_else disk empty else empty in
    record {
      rules = saved.rules;
      alerts = saved.alerts;
      reads = saved.reads;
      pending = [];
      has_file = has_file;
      disk = disk;
      drawn = 0;
    }
