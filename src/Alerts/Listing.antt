-- ===== src/Alerts/Listing.antt =====
-- What modules/monitoring/src/alert-service.js lists: rules and alerts.
use nuvrion.Common.{
  ℕ, String, Bool, true, ◌&&◌, ◌||◌, not, Option, none, some, List, [], ◌∷◌, map, filter_by, take,
  ltb, leb, get, values, if◌then◌else◌,
}
use nuvrion.Alerts.Rules.{Status, is_open}
use nuvrion.Alerts.Service.{StoredRule, StoredAlert, AlertService, public_rule, status_eq}

-- getRule(id)
unfoldable pub get_rule : String → AlertService → Option (StoredRule × ℕ)
unfolding public_rule
get_rule id s = elim (get id s.rules) [ none ↦ none | some r ↦ some (public_rule s r) ]

module _ (not_after : String → String → Bool) where
  -- sort((a, b) => a.name.localeCompare(b.name)): `not_after a b` is a.localeCompare(b) <= 0
  unfoldable pub insert_by_name : StoredRule → List StoredRule → List StoredRule
  insert_by_name x [] = x ∷ []
  insert_by_name x (y ∷ ys) =
      let rest = insert_by_name x ys in
      if not_after x.rule.name y.rule.name then x ∷ y ∷ ys else y ∷ rest

  unfoldable pub sort_by_name : List StoredRule → List StoredRule
  unfolding insert_by_name
  sort_by_name [] = []
  sort_by_name (x ∷ xs) = insert_by_name x (sort_by_name xs)

  -- listRules()
  unfoldable pub list_rules : AlertService → List (StoredRule × ℕ)
  unfolding sort_by_name public_rule
  list_rules s = map (public_rule s) (sort_by_name (values s.rules))

-- Which alerts listAlerts gives: the open ones, all, or those of a status.
pub data Wanted : Type 0 where
  open_only every_one : Wanted
  of_status : Status → Wanted

unfoldable pub is_wanted : Wanted → StoredAlert → Bool
unfolding status_eq
is_wanted open_only a = is_open a.alert
is_wanted every_one a = true
is_wanted (of_status status) a = status_eq a.alert.status status

-- Open alerts first, then the latest seen.
unfoldable pub listed_first : StoredAlert → StoredAlert → Bool
listed_first a b =
    if is_open a.alert
    then not (is_open b.alert) || leb b.last_seen_at a.last_seen_at
    else not (is_open b.alert) && leb b.last_seen_at a.last_seen_at

unfoldable pub insert_alert : StoredAlert → List StoredAlert → List StoredAlert
unfolding listed_first
insert_alert x [] = x ∷ []
insert_alert x (y ∷ ys) =
    let rest = insert_alert x ys in if listed_first x y then x ∷ y ∷ ys else y ∷ rest

unfoldable pub sort_alerts : List StoredAlert → List StoredAlert
unfolding insert_alert
sort_alerts [] = []
sort_alerts (x ∷ xs) = insert_alert x (sort_alerts xs)

-- listAlerts({ status, limit })
unfoldable pub list_alerts : Wanted → ℕ → AlertService → List StoredAlert
unfolding is_wanted sort_alerts
list_alerts wanted limit s =
    let most = if ltb 1 limit then (if ltb limit 500 then limit else 500) else 1 in
    take most (sort_alerts (filter_by (is_wanted wanted) s.alerts))
