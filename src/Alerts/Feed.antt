-- ===== src/Alerts/Feed.antt =====
-- `previewRule` and `feedFromAlerts` of modules/monitoring/src/alert-rules.js, and the notifications of
-- modules/monitoring/src/alert-service.js.
use nuvrion.Common.{
  ℕ, ◌+◌, ◌-◌, ◌*◌, String, text_append, Bool, true, false, ◌&&◌, Option, none, some, List, [], ◌∷◌,
  filter_by, take, length, is_some, or_else, ltb, leb, get, if◌then◌else◌,
}
use nuvrion.Alerts.Rules.{
  kind_eq, metrics, Comparison, above, below, Severity, Rule, Target, condition_holds,
}
use nuvrion.Alerts.Plan.{in_scope}
use nuvrion.Alerts.Service.{StoredAlert, AlertService}
use nuvrion.Alerts.Evaluation.{stale_after_ms}

pub record Match : Type 0 where
  pub id : String
  pub name : String
  pub value : ℕ

pub record Preview : Type 0 where
  pub evaluated : ℕ
  pub unmeasured : ℕ
  pub matches : List Match

unfoldable pub is_measured : String → ℕ → Target → Bool
is_measured metric now t = is_some (get metric t.values) && leb now (t.observed_at + stale_after_ms)

-- The matches of the measured targets, in their order.
unfoldable pub matches_of : Rule → List Target → List Match
matches_of rule [] = []
matches_of rule (t ∷ ts) =
    let value = or_else (get rule.metric t.values) 0 in
    let rest = matches_of rule ts in
    if condition_holds rule value
    then record { id = t.id; name = t.name; value = value } ∷ rest
    else rest

-- sort((a, b) => rule.comparison === 'above' ? b.value - a.value : a.value - b.value)
unfoldable pub comes_first : Comparison → ℕ → ℕ → Bool
comes_first above a b = leb b a
comes_first below a b = leb a b

unfoldable pub insert_match : Comparison → Match → List Match → List Match
unfolding comes_first
insert_match c x [] = x ∷ []
insert_match c x (y ∷ ys) =
    let rest = insert_match c x ys in if comes_first c x.value y.value then x ∷ y ∷ ys else y ∷ rest

unfoldable pub sort_matches : Comparison → List Match → List Match
unfolding insert_match
sort_matches c [] = []
sort_matches c (x ∷ xs) = insert_match c x (sort_matches c xs)

-- previewRule(rule, targets, now); none if the rule's metric is unknown, where the source throws
unfoldable pub preview_rule : Rule → List Target → ℕ → Option Preview
unfolding is_measured matches_of sort_matches
preview_rule rule targets now = elim (get rule.metric metrics) [
  | none ↦ none
  | some metric ↦
      let candidates = filter_by (λ t. kind_eq t.kind metric.kind && in_scope rule t) targets in
      let measured = filter_by (is_measured rule.metric now) candidates in
      some (record {
        evaluated = length measured;
        unmeasured = length candidates - length measured;
        matches = sort_matches rule.comparison (matches_of rule measured);
      })
]

pub record Event : Type 0 where
  pub id : String
  pub is_resolution : Bool
  pub at : ℕ
  pub alert_id : String
  pub severity : Severity
  pub title : String
  pub detail : String

-- The one or two events of each alert; `describe` is describeValue.
unfoldable pub events_of : (String → ℕ → String) → List StoredAlert → List Event
events_of describe [] = []
events_of describe (a ∷ alerts) =
    let fired : Event = record {
      id = text_append a.alert.id ":fired";
      is_resolution = false;
      at = a.first_seen_at;
      alert_id = a.alert.id;
      severity = a.severity;
      title = a.target_name;
      detail = text_append a.rule_name (text_append ": " (describe a.metric a.alert.value));
    } in
    let rest = events_of describe alerts in
    elim a.resolved_at [
      | none ↦ fired ∷ rest
      | some at ↦
          fired
          ∷ record {
            id = text_append a.alert.id ":resolved";
            is_resolution = true;
            at = at;
            alert_id = a.alert.id;
            severity = a.severity;
            title = a.target_name;
            detail = text_append a.rule_name ": back to normal";
          }
          ∷ rest
    ]

-- sort((a, b) => String(b.at).localeCompare(String(a.at))): the latest first
unfoldable pub insert_event : Event → List Event → List Event
insert_event x [] = x ∷ []
insert_event x (y ∷ ys) =
    let rest = insert_event x ys in if leb y.at x.at then x ∷ y ∷ ys else y ∷ rest

unfoldable pub sort_events : List Event → List Event
unfolding insert_event
sort_events [] = []
sort_events (x ∷ xs) = insert_event x (sort_events xs)

-- feedFromAlerts(alerts, limit)
unfoldable pub feed_from_alerts : (String → ℕ → String) → List StoredAlert → ℕ → List Event
unfolding events_of sort_events
feed_from_alerts describe alerts limit = take limit (sort_events (events_of describe alerts))

pub record Notifications : Type 0 where
  pub items : List Event
  pub unread_count : ℕ
  pub last_read_at : Option ℕ

-- UNREAD_WINDOW_MS
abbrev pub unread_window_ms : ℕ
unread_window_ms = 24 * 60 * 60000

-- notifications(userId, { limit })
unfoldable pub notifications : (String → ℕ → String) → String → ℕ → ℕ → AlertService → Notifications
unfolding feed_from_alerts
notifications describe user limit now s =
    let last_read_at = get user s.reads in
    let since = or_else last_read_at (now - unread_window_ms) in
    let most = if ltb 1 limit then (if ltb limit 200 then limit else 200) else 1 in
    record {
      items = feed_from_alerts describe s.alerts most;
      unread_count =
          length (filter_by (λ e. ltb since e.at) (feed_from_alerts describe s.alerts 1000));
      last_read_at = last_read_at;
    }
