-- ===== src/Alerts/Deletion.antt =====
-- What deleting a rule does to the alerts of modules/monitoring/src/alert-service.js.
use nuvrion.Common.{
  ℕ, ◌+◌, ◌≡◌, refl, sym, ap, ◌∙◌, arith, String, false, ◌&&◌, none, some, List, [], ◌∷◌, map,
  filter_by, length, get, All, Bool-cases, Option-cases, inl, inr, if◌then◌else◌,
}
use nuvrion.Alerts.Rules.{is_open}
use nuvrion.Alerts.Service.{
  StoredAlert, AlertService, persist, is_of_rule, released, resolved_alert, delete_rule,
}

-- How many alerts are open, and how many of these are of a rule.
abbrev count_open : List StoredAlert → ℕ
count_open alerts = length (filter_by (λ a. is_open a.alert) alerts)

module _ (id : String) (now : ℕ) where
  released-free : (a : StoredAlert) → is_of_rule id (released id now a) ≡ false
  unfolding released is_of_rule resolved_alert
  released-free a = elim (Bool-cases (is_of_rule id a)) [
    | inl q ↦ rw (q, released) refl
    | inr q ↦ rw (q, released) q
  ]

  All-released_free :
      (alerts : List StoredAlert)
      → All (λ a. is_of_rule id a ≡ false) (map (released id now) alerts)
  All-released_free [] = tt
  All-released_free (a ∷ alerts) = (released-free a, All-released_free alerts)

  released-open :
      (a : StoredAlert)
      → is_open (released id now a).alert ≡ (if is_of_rule id a then false else is_open a.alert)
  unfolding released resolved_alert is_open
  released-open a = elim (Bool-cases (is_of_rule id a)) [
    | inr q ↦ rw (q, released) refl
    | inl q ↦ elim (Bool-cases (is_open a.alert)) [
      | inl o ↦ rw (q, o, released) refl
      | inr o ↦ rw (q, o, released) o
    ]
  ]

  count_open-released :
      (alerts : List StoredAlert)
      → count_open (map (released id now) alerts)
          + length (filter_by (λ a. is_of_rule id a && is_open a.alert) alerts)
        ≡ count_open alerts
  count_open-released [] = refl
  count_open-released (a ∷ alerts) = ground (arith, released-open a, count_open-released alerts)

-- When a rule is deleted, no alert is of it any more, and exactly as many alerts that were open are not open
-- any more as the call says.
delete_rule-closed :
    (id : String) (now n : ℕ) (s : AlertService)
    → (delete_rule id now s).0 ≡ some n
    → All (λ a. is_of_rule id a ≡ false) (delete_rule id now s).1.alerts
      × (count_open (delete_rule id now s).1.alerts + n ≡ count_open s.alerts)
unfolding delete_rule persist
delete_rule-closed id now n s h = elim (Option-cases (get id s.rules)) [
  | inl q ↦ let no : none ≡ some n = rw (q, delete_rule) at h in absurd (cc)
  | inr (r, q) ↦
      let told : length (filter_by (λ a. is_of_rule id a && is_open a.alert) s.alerts) ≡ n =
        let r : some (length (filter_by (λ a. is_of_rule id a && is_open a.alert) s.alerts))
            ≡ some n =
          rw (q, delete_rule) at h in
        cc in
      rw (q, delete_rule)
        (
          All-released_free id now s.alerts,
          (ap (λ k. count_open (map (released id now) s.alerts) + k) (sym told)
              ∙ count_open-released id now s.alerts),
        )
]
