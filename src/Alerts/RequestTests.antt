-- ===== src/Alerts/RequestTests.antt =====
-- Requests for alert rules.
use nuvrion.Common.{ℕ, String, Bool, true, false, Option, none, some, ◌∷◌, [], ◌≡◌, refl, leb}
use nuvrion.Common.Results.{ok, err}
use nuvrion.Common.Json.{
  Json, text, int, bool, other_number, object, field, end, Fields, fields_of, Platform,
}
use nuvrion.Alerts.Rules.{above, warning}
use nuvrion.Alerts.Requests.{
  Parsed, parse_rule, merge_rule, bad_threshold, unknown_metric, nothing_to_change,
  unknown_field_named,
}
use nuvrion.Alerts.Readings.{IsBounded}
use nuvrion.Alerts.Editing.{IsEdit, merge_rule-IsEdit}

abbrev platform : Platform
platform = record { lower = λ s. "8c2d5f1e-0a3b-4c6d-9e7f-001122334455"; shown = λ v. "12.5" }

-- The number that is no whole one is 12.5.
abbrev fits : Option ℕ → Bool
fits none = true
fits (some max) = leb 13 max

abbrev request : String → Json → Fields → Json
request metric threshold more = object (
    field "name" (text " Busy machines ") (
      field "metric" (text metric) (
        field "comparison" (text "above")
          (field "threshold" threshold (field "severity" (text "warning") more)))))

abbrev busy : Parsed
busy = record {
  name = "Busy machines";
  description = "";
  metric = text "vm.cpu_percent";
  comparison = above;
  threshold = int 90;
  duration_minutes = 0;
  severity = warning;
  connection_id = none;
  enabled = true;
}

parse_busy : parse_rule platform fits (some (request "vm.cpu_percent" (int 90) end)) ≡ ok busy
unfolding parse_rule
parse_busy = refl

too_great :
    parse_rule platform fits (some (request "vm.cpu_percent" (int 101) end))
    ≡ err (bad_threshold (some 100))
unfolding parse_rule
too_great = refl

with_fraction :
    parse_rule platform fits (some (request "vm.cpu_percent" other_number end))
    ≡ ok (record busy { threshold = other_number })
unfolding parse_rule
with_fraction = refl

no_metric : parse_rule platform fits (some (request "vm.disk" (int 1) end)) ≡ err unknown_metric
unfolding parse_rule
no_metric = refl

-- A name that every object inherits passes as a metric, with any threshold.
inherited_metric :
    parse_rule platform fits (some (request "constructor" (int 123456789) end))
    ≡ ok (record busy { metric = text "constructor"; threshold = int 123456789 })
unfolding parse_rule
inherited_metric = refl

nothing_given : merge_rule platform fits busy (some (object end)) ≡ err nothing_to_change
unfolding merge_rule
nothing_given = refl

other_field :
    merge_rule platform fits busy (some (object (field "id" (text "x") end)))
    ≡ err (unknown_field_named "id")
unfolding merge_rule
other_field = refl

abbrev quieter : Fields
quieter = field "threshold" (int 70) (field "enabled" (bool false) end)

merge_quieter :
    merge_rule platform fits busy (some (object quieter))
    ≡ ok (record busy { threshold = int 70; enabled = false })
unfolding merge_rule nuvrion.Common.put
merge_quieter = refl

merge_rule-IsEdit_example :
    IsEdit platform fits
      (fields_of quieter)
      busy
      (record busy { threshold = int 70; enabled = false })
    × IsBounded platform fits (record busy { threshold = int 70; enabled = false })
unfolding nuvrion.Common.get
merge_rule-IsEdit_example =
    merge_rule-IsEdit platform fits (λ s. refl) (some (request "vm.cpu_percent" (int 90) end))
      quieter busy (record busy { threshold = int 70; enabled = false }) (refl, (refl, tt))
      parse_busy merge_quieter
