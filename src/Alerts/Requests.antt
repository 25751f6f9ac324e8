-- ===== src/Alerts/Requests.antt =====
-- parseRule and mergeRule of modules/monitoring/src/alert-rules.js. A rule's metric and threshold are kept
-- as they were sent; what JavaScript says of a number that is no whole one from 0 on is a parameter.
use nuvrion.Common.{
  ℕ, String, Bool, true, false, ◌&&◌, Option, none, some, List, [], ◌∷◌, any, str_eq, length, ltb,
  leb, ◌==◌, get, Assoc, if◌then◌else◌,
}
use nuvrion.Common.Results.{Result, ok, err, ◌>>=◌, ◌>>◌, refuse_if}
use nuvrion.Common.Text.{units, trim, has_control, is_uuid}
use nuvrion.Common.Json.{
  Json, null, bool, int, text, other_number, Platform, object_of, named_unknown_field, to_text,
  or_value, spread,
}
use nuvrion.Alerts.Rules.{Comparison, Severity, above, below, warning, critical, metrics}

pub data Label : Type 0 where
  name_label description_label : Label

-- The reasons of an AlertError.
pub data AlertError : Type 0 where
  needed too_long characters : Label → AlertError
  not_object unknown_metric bad_comparison bad_severity bad_duration bad_connection bad_enabled
        nothing_to_change :
      AlertError
  unknown_field_named : String → AlertError
  bad_threshold : Option ℕ → AlertError

-- LIMITS
abbrev pub name_max : ℕ
name_max = 100

abbrev pub description_max : ℕ
description_max = 300

abbrev pub duration_max : ℕ
duration_max = 1440

-- EDITABLE
abbrev pub editable : List String
editable =
    "name" ∷ "description" ∷ "metric" ∷ "comparison" ∷ "threshold" ∷ "durationMinutes" ∷ "severity"
    ∷ "connectionId" ∷ "enabled" ∷ []

-- The names that every object inherits.
abbrev pub inherited : List String
inherited =
    "constructor" ∷ "__proto__" ∷ "__defineGetter__" ∷ "__defineSetter__" ∷ "__lookupGetter__"
    ∷ "__lookupSetter__" ∷ "hasOwnProperty" ∷ "isPrototypeOf" ∷ "propertyIsEnumerable"
    ∷ "toLocaleString" ∷ "toString" ∷ "valueOf" ∷ []

-- What parseRule returns.
pub record Parsed : Type 0 where
  pub name : String
  pub description : String
  pub metric : Json
  pub comparison : Comparison
  pub threshold : Json
  pub duration_minutes : ℕ
  pub severity : Severity
  pub connection_id : Option String
  pub enabled : Bool

-- plainText, on the trimmed text
unfoldable pub check_text : Label → ℕ → Bool → String → Result AlertError String
unfolding units has_control
check_text label max required s = do
  refuse_if (str_eq s "" && required) (needed label)
  refuse_if (ltb max (units s)) (too_long label)
  refuse_if (has_control s) (characters label)
  ok s

unfoldable pub comparison_of : Option Json → Result AlertError Comparison
comparison_of (some (text s)) =
    if str_eq s "above" then ok above else if str_eq s "below" then ok below else err bad_comparison
comparison_of _ = err bad_comparison

unfoldable pub severity_of : Option Json → Result AlertError Severity
severity_of (some (text s)) =
    if str_eq s "warning"
    then ok warning
    else if str_eq s "critical"
    then ok critical
    else err bad_severity
severity_of _ = err bad_severity

-- METRICS[key]?.max: the greatest threshold of a metric. An inherited name has none.
unfoldable pub max_of : String → Option (Option ℕ)
unfolding get metrics
max_of key = elim (get key metrics) [
  | some metric ↦ some (some metric.max)
  | none ↦ if any (str_eq key) inherited then some none else none
]

unfoldable pub duration_of : Json → Result AlertError ℕ
duration_of (int n) = if ltb duration_max n then err bad_duration else ok n
duration_of _ = err bad_duration

unfoldable pub enabled_of : Option Json → Result AlertError Bool
enabled_of none = ok true
enabled_of (some (bool b)) = ok b
enabled_of _ = err bad_enabled

-- The fields of a request that has none but those that may be edited.
unfoldable pub request_fields : Option Json → Result AlertError (Assoc Json)
unfolding named_unknown_field
request_fields body = elim (object_of body) [
  | none ↦ err not_object
  | some fields ↦ elim (named_unknown_field editable fields) [
    | some name ↦ err (unknown_field_named name)
    | none ↦ ok fields
  ]
]

unfoldable pub within : Option ℕ → ℕ → Bool
within none n = true
within (some max) n = leb n max

unfoldable pub comparison_text : Comparison → String
comparison_text above = "above"
comparison_text below = "below"

unfoldable pub severity_text : Severity → String
severity_text warning = "warning"
severity_text critical = "critical"

unfoldable pub text_or_null : Option String → Json
text_or_null none = null
text_or_null (some s) = text s

-- The editable fields of a rule.
unfoldable pub fields_of_rule : Parsed → Assoc Json
unfolding comparison_text severity_text text_or_null
fields_of_rule r =
    ("name", text r.name)
    ∷ ("description", text r.description)
    ∷ ("metric", r.metric)
    ∷ ("comparison", text (comparison_text r.comparison))
    ∷ ("threshold", r.threshold)
    ∷ ("durationMinutes", int r.duration_minutes)
    ∷ ("severity", text (severity_text r.severity))
    ∷ ("connectionId", text_or_null r.connection_id)
    ∷ ("enabled", bool r.enabled)
    ∷ []

module _ (platform : Platform) where
  -- A value as the name of a property.
  unfoldable pub key_text : Json → String
  key_text (text s) = s
  key_text null = "null"
  key_text v = platform.shown v

  unfoldable pub metric_in : Option Json → Result AlertError (Json × Option ℕ)
  unfolding max_of key_text
  metric_in none = err unknown_metric
  metric_in (some v) = elim (max_of (key_text v)) [
    | none ↦ err unknown_metric
    | some max ↦ ok (v, max)
  ]

  unfoldable pub connection_of : Option Json → Result AlertError (Option String)
  unfolding is_uuid
  connection_of none = ok none
  connection_of (some null) = ok none
  connection_of (some (text s)) =
      if is_uuid s then ok (some (platform.lower s)) else err bad_connection
  connection_of (some _) = err bad_connection

  unfoldable pub plain_text : Label → ℕ → Bool → Option Json → Result AlertError String
  unfolding check_text to_text trim
  plain_text label max required raw = check_text label max required (trim (to_text platform raw))

-- `fits max`: the number that is no whole one is finite, not negative, and at most `max` where there is a `max`.
module _ (fits : Option ℕ → Bool) where
  unfoldable pub threshold_of : Option ℕ → Option Json → Result AlertError Json
  unfolding within
  threshold_of max (some (int n)) = if within max n then ok (int n) else err (bad_threshold max)
  threshold_of max (some other_number) =
      if fits max then ok other_number else err (bad_threshold max)
  threshold_of max _ = err (bad_threshold max)

module _ (platform : Platform) (fits : Option ℕ → Bool) where
  unfoldable pub parse_fields : Assoc Json → Result AlertError Parsed
  unfolding metric_in comparison_of severity_of threshold_of duration_of connection_of enabled_of
      plain_text
  parse_fields fields = do
    metric ← metric_in platform (get "metric" fields)
    comparison ← comparison_of (get "comparison" fields)
    severity ← severity_of (get "severity" fields)
    threshold ← threshold_of fits metric.1 (get "threshold" fields)
    duration_minutes ← duration_of (or_value (get "durationMinutes" fields) (int 0))
    connection_id ← connection_of platform (get "connectionId" fields)
    enabled ← enabled_of (get "enabled" fields)
    name ← plain_text platform name_label name_max true (get "name" fields)
    description ←
        plain_text platform description_label description_max false (get "description" fields)
    ok (record {
      name = name;
      description = description;
      metric = metric.0;
      comparison = comparison;
      threshold = threshold;
      duration_minutes = duration_minutes;
      severity = severity;
      connection_id = connection_id;
      enabled = enabled;
    })

  -- parseRule(body)
  unfoldable pub parse_rule : Option Json → Result AlertError Parsed
  unfolding request_fields parse_fields
  parse_rule body = request_fields body >>= parse_fields

  -- mergeRule(existing, patch)
  unfoldable pub merge_rule : Parsed → Option Json → Result AlertError Parsed
  unfolding request_fields fields_of_rule spread parse_fields
  merge_rule existing patch = request_fields patch >>= λ fields.
      refuse_if (length fields == 0) nothing_to_change
      >> parse_fields (spread fields (fields_of_rule existing))
