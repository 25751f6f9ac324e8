-- ===== src/Alerts/Readings.antt =====
-- What parseRule of modules/monitoring/src/alert-rules.js reads of the fields of a request.
use nuvrion.Common.{
  ℕ, ◌≤◌, String, Bool, true, false, Option, none, some, ◌≡◌, refl, sym, ap, subst, get, any,
  str_eq, Assoc, arith, ◌⊎◌, inl, inr, if◌then◌else◌,
}
use nuvrion.Common.Results.{Result, ok, err, >>=-eq-ok, ok_eq}
use nuvrion.Common.Json.{Json, int, other_number, Platform, or_value}
use nuvrion.Alerts.Rules.{Metric, metrics}
use nuvrion.Alerts.Requests.{
  AlertError, Parsed, name_label, description_label, name_max, description_max, unknown_metric,
  comparison_of, severity_of, max_of, duration_of, enabled_of, key_text, metric_in, threshold_of,
  connection_of, plain_text, parse_fields, within, inherited,
}

module _ (platform : Platform) (fits : Option ℕ → Bool) where
  -- The value of a field that is kept as it was sent.
  abbrev pub sent : Option Json → Result AlertError Json
  sent none = err unknown_metric
  sent (some v) = ok v

  abbrev pub minutes_of : Option Json → Result AlertError ℕ
  minutes_of v = duration_of (or_value v (int 0))

  abbrev pub name_of : Option Json → Result AlertError String
  name_of = plain_text platform name_label name_max true

  abbrev pub description_of : Option Json → Result AlertError String
  description_of = plain_text platform description_label description_max false

  -- What is read of the fields of a request that is accepted.
  pub record Reads (fields : Assoc Json) (r : Parsed) : Type 0 where
    pub named : name_of (get "name" fields) ≡ ok r.name
    pub described : description_of (get "description" fields) ≡ ok r.description
    pub measured : sent (get "metric" fields) ≡ ok r.metric
    pub compared : comparison_of (get "comparison" fields) ≡ ok r.comparison
    pub bounded : sent (get "threshold" fields) ≡ ok r.threshold
    pub lasting : minutes_of (get "durationMinutes" fields) ≡ ok r.duration_minutes
    pub ranked : severity_of (get "severity" fields) ≡ ok r.severity
    pub connected : connection_of platform (get "connectionId" fields) ≡ ok r.connection_id
    pub switched : enabled_of (get "enabled" fields) ≡ ok r.enabled

  -- The threshold is one of the metric: a whole number that is at most the metric's greatest, or another number that is
  -- finite, not negative and at most that. A name that every object inherits passes for a metric, with no greatest.
  pub data IsBounded (r : Parsed) : Type 0 where
    whole :
        (metric : Metric) (n : ℕ)
        → get (key_text platform r.metric) metrics ≡ some metric
        → r.threshold ≡ int n
        → n ≤ metric.max
        → IsBounded r
    other :
        (metric : Metric)
        → get (key_text platform r.metric) metrics ≡ some metric
        → r.threshold ≡ other_number
        → fits (some metric.max) ≡ true
        → IsBounded r
    no_metric :
        get (key_text platform r.metric) metrics ≡ none
        → any (str_eq (key_text platform r.metric)) inherited ≡ true
        → IsBounded r

  -- The threshold is a number that `within` or `fits` admits.
  data Admitted (max : Option ℕ) : Json → Type 0 where
    whole_number : (n : ℕ) → within max n ≡ true → Admitted max (int n)
    other_value : fits max ≡ true → Admitted max other_number

  threshold_of-Admitted :
      (max : Option ℕ) (v : Json) → threshold_of fits max (some v) ≡ ok v → Admitted max v
  unfolding threshold_of
  threshold_of-Admitted max (int n) e = whole_number n (ground arith)
  threshold_of-Admitted max other_number e = other_value (ground arith)
  threshold_of-Admitted max _ e = absurd (cc)

  greatest_found :
      (found : Option Metric) (passes : Bool) (max : Option ℕ)
      → ◌≡◌ {A = Option (Option ℕ)}
          (elim found [
            | some metric ↦ some (some metric.max)
            | none ↦ if passes then some none else none
          ])
          (some max)
      → ((metric : Metric) × (found ≡ some metric) × (some metric.max ≡ max))
        ⊎ ((found ≡ none) × (passes ≡ true))
  greatest_found (some metric) passes max e = inl (metric, refl, cc)
  greatest_found none true max e = inr (refl, refl)
  greatest_found none false max e = absurd (cc)

  in_range :
      (r : Parsed) (metric : Metric) (v : Json)
      → get (key_text platform r.metric) metrics ≡ some metric
      → r.threshold ≡ v
      → Admitted (some metric.max) v
      → IsBounded r
  unfolding within
  in_range r metric _ q t (whole_number n i) = whole metric n q t (ground arith)
  in_range r metric _ q t (other_value i) = other metric q t i

  Admitted-IsBounded :
      (r : Parsed) (max : Option ℕ) (v : Json)
      → max_of (key_text platform r.metric) ≡ some max
      → r.threshold ≡ v
      → Admitted max v
      → IsBounded r
  unfolding max_of
  Admitted-IsBounded r max v e t a =
      let key = key_text platform r.metric in
      elim (greatest_found (get key metrics) (any (str_eq key) inherited) max e) [
        | inl (metric, q, same) ↦ in_range r metric v q t (subst (λ m. Admitted m v) (sym same) a)
        | inr (q, passes) ↦ no_metric q passes
      ]

  metric_found :
      (found : Option (Option ℕ)) (w v : Json) (max : Option ℕ)
      → ◌≡◌ {A = Result AlertError (Json × Option ℕ)}
          (elim found [ none ↦ err unknown_metric | some m ↦ ok (w, m) ])
          (ok (v, max))
      → (w ≡ v) × (found ≡ some max)
  metric_found none w v max e = absurd (cc)
  metric_found (some m) w v max e =
      let pair = ok_eq (w, m) (v, max) e in (ap (λ q. q.0) pair, ap (λ q. some q.1) pair)

  metric_in-Sent :
      (given : Option Json) (v : Json) (max : Option ℕ)
      → metric_in platform given ≡ ok (v, max)
      → (sent given ≡ ok v) × (max_of (key_text platform v) ≡ some max)
  unfolding metric_in
  metric_in-Sent none v max e = absurd (cc)
  metric_in-Sent (some w) v max e =
      let (same, found) = metric_found (max_of (key_text platform w)) w v max e in
      (ap ok same, subst (λ u. max_of (key_text platform u) ≡ some max) same found)

  threshold_of-Sent :
      (max : Option ℕ) (given : Option Json) (v : Json)
      → threshold_of fits max given ≡ ok v
      → (sent given ≡ ok v) × (threshold_of fits max (some v) ≡ ok v)
  unfolding threshold_of
  threshold_of-Sent max none v e = absurd (cc)
  threshold_of-Sent max (some w) v e = ground arith

  pub parse_fields-Reads :
      (fields : Assoc Json) (r : Parsed)
      → parse_fields platform fits fields ≡ ok r
      → Reads fields r × IsBounded r
  unfolding parse_fields
  parse_fields-Reads fields r e =
      let (metric, e1, h1) = >>=-eq-ok (metric_in platform (get "metric" fields)) _ e in
      let (comparison, e2, h2) = >>=-eq-ok (comparison_of (get "comparison" fields)) _ h1 in
      let (severity, e3, h3) = >>=-eq-ok (severity_of (get "severity" fields)) _ h2 in
      let (threshold, e4, h4) =
        >>=-eq-ok (threshold_of fits metric.1 (get "threshold" fields)) _ h3 in
      let (duration_minutes, e5, h5) = >>=-eq-ok (minutes_of (get "durationMinutes" fields)) _ h4 in
      let (connection_id, e6, h6) =
        >>=-eq-ok (connection_of platform (get "connectionId" fields)) _ h5 in
      let (enabled, e7, h7) = >>=-eq-ok (enabled_of (get "enabled" fields)) _ h6 in
      let (name, e8, h8) = >>=-eq-ok (name_of (get "name" fields)) _ h7 in
      let (description, e9, h9) = >>=-eq-ok (description_of (get "description" fields)) _ h8 in
      let (measured, is_metric) = metric_in-Sent (get "metric" fields) metric.0 metric.1 e1 in
      let (bounded, is_within) = threshold_of-Sent metric.1 (get "threshold" fields) threshold e4 in
      subst (λ s. Reads fields s × IsBounded s) (ok_eq _ r h9)
        (
          record {
            named = e8;
            described = e9;
            measured = measured;
            compared = e2;
            bounded = bounded;
            lasting = e5;
            ranked = e3;
            connected = e6;
            switched = e7;
          },
          Admitted-IsBounded _ metric.1 threshold is_metric refl
              (threshold_of-Admitted metric.1 threshold is_within),
        )
