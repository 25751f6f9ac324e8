-- ===== src/Schedules/RequestTests.antt =====
-- Requests for schedules.
use nuvrion.Common.{
  ℕ, String, Bool, true, false, Option, none, some, List, [], ◌∷◌, ◌≡◌, refl, inl, inr, str_eq,
}
use nuvrion.Common.Results.{ok}
use nuvrion.Common.Json.{
  Json, text, int, array, object, nil, cons, field, end, Items, Fields, Platform,
}
use nuvrion.Schedules.When.{once, weekly}
use nuvrion.Schedules.Requests.{Zones, Parsed, parse_schedule, merge_schedule}
use nuvrion.Schedules.Words.{describe_schedule}
use nuvrion.Schedules.Shapes.{IsProper, parsed-IsProper}

abbrev platform : Platform
platform = record { lower = λ s. s; shown = λ v. "2024-02-29" }

abbrev zones : Zones
zones = record { is_zone = λ z. str_eq z "UTC"; utc_day = λ d. d }

abbrev request : Fields → Json
request more = object (
    field "name" (text " Nightly ") (
      field "operation" (text "stop") (
        field "targetKind" (text "tag")
          (field "tag" (text "Env = dev") (field "timeOfDay" (text "23:30") more)))))

abbrev on_days : Items → Json
on_days days = request (field "frequency" (text "weekly") (field "weekdays" (array days) end))

abbrev nightly : Parsed
nightly = record {
  name = "Nightly";
  description = "";
  basics = record {
    operation = "stop";
    by_tag = true;
    frequency = weekly;
    time_of_day = "23:30";
    time_zone = "UTC";
    enabled = true;
  };
  vm_ids = [];
  tag = some "Env=dev";
  connection_id = none;
  weekdays = 1 ∷ 5 ∷ [];
  run_date = none;
}

parse_nightly :
    parse_schedule platform zones (some (on_days (cons (int 5) (cons (int 1) (cons (int 5) nil)))))
    ≡ ok nightly
unfolding parse_schedule nuvrion.Common.get nuvrion.Inventory.TagRules.parse_tag_filter
parse_nightly = refl

-- A change to "once" drops the days of the week.
merge_once :
    merge_schedule platform zones nightly
      (some (object (field "frequency" (text "once") (field "runDate" (text "2024-02-29") end))))
    ≡ ok (record nightly {
      basics = record nightly.basics { frequency = once };
      weekdays = [];
      run_date = some (text "2024-02-29");
    })
unfolding merge_schedule nuvrion.Common.get nuvrion.Common.put
    nuvrion.Inventory.TagRules.parse_tag_filter
merge_once = refl

-- A list of one date passes as a date, and is kept as the list.
parse_listed_date :
    parse_schedule platform zones (
      some (
        request (
          field "frequency"
            (text "once")
            (field "runDate" (array (cons (text "2024-02-29") nil)) end))))
    ≡ ok (record nightly {
      basics = record nightly.basics { frequency = once };
      weekdays = [];
      run_date = some (array (cons (text "2024-02-29") nil));
    })
unfolding parse_schedule nuvrion.Common.get nuvrion.Inventory.TagRules.parse_tag_filter
parse_listed_date = refl

parsed-IsProper_example : IsProper platform zones nightly
parsed-IsProper_example = parsed-IsProper platform zones nightly _ nightly (inl parse_nightly)

described :
    describe_schedule platform nightly
    ≡ "Shut down guest: machines tagged Env=dev, every Mon, Fri at 23:30 (UTC)"
unfolding describe_schedule
described = refl
