-- ===== src/Schedules/Requests.antt =====
-- parseSchedule and mergeSchedule of modules/tasks/src/schedule-rules.js. What the platform knows of time zones
-- and of days is a parameter.
use nuvrion.Common.{
  ℕ, ◌+◌, ◌-◌, ◌*◌, String, text_append, Bool, true, false, ◌&&◌, not, Option, none, some, List, [],
  ◌∷◌, ◌++◌, map, any, is_some, str_eq, length, ltb, leb, ◌==◌, get, put, Assoc, or_else, sort_by,
  if◌then◌else◌,
}
use nuvrion.Common.Results.{Result, ok, err, ◌>>=◌, ◌>>◌, refuse_if}
use nuvrion.Common.Text.{codes, units, trim, has_control, is_digit, is_time, is_uuid}
use nuvrion.Common.Json.{
  Json, null, bool, int, text, array, Platform, object_of, array_of, named_unknown_field, to_text,
  is_truthy, has_length, or_value, items, spread,
}
use nuvrion.Inventory.TagRules.{TagError, Filter, parse_tag_filter}
use nuvrion.Inventory.TagRequest.{distinct}
use nuvrion.Schedules.When.{Day, Frequency, once, daily, weekly}

pub data Label : Type 0 where
  name_label description_label : Label

-- The reasons of a ScheduleError.
pub data ScheduleError : Type 0 where
  needed too_long characters : Label → ScheduleError
  not_object nothing_to_change bad_operation bad_target bad_frequency bad_time bad_zone :
      ScheduleError
  unknown_field_named : String → ScheduleError
  bad_enabled no_machines too_many_machines bad_machine tag_beside no_tag machines_beside :
      ScheduleError
  bad_tag : TagError → ScheduleError
  bad_connection connection_beside bad_days days_beside bad_date date_beside : ScheduleError

-- What is asked of Intl.DateTimeFormat, and the day that Date.UTC makes of a date.
pub record Zones : Type 0 where
  pub is_zone : String → Bool
  pub utc_day : Day → Day

-- LIMITS
abbrev pub machines_limit : ℕ
machines_limit = 50

abbrev pub name_max : ℕ
name_max = 100

abbrev pub description_max : ℕ
description_max = 300

abbrev pub operation_keys : List String
operation_keys = "start" ∷ "stop" ∷ "power_off" ∷ "pause" ∷ "reboot_guest" ∷ "restart" ∷ []

abbrev pub editable : List String
editable =
    "name" ∷ "description" ∷ "operation" ∷ "targetKind" ∷ "vmIds" ∷ "tag" ∷ "connectionId"
    ∷ "frequency" ∷ "timeOfDay" ∷ "weekdays" ∷ "runDate" ∷ "timeZone" ∷ "enabled" ∷ []

-- The fields that are read first.
pub record Basics : Type 0 where
  pub operation : String
  pub by_tag : Bool
  pub frequency : Frequency
  pub time_of_day : String
  pub time_zone : String
  pub enabled : Bool

-- What parseSchedule returns. A date is kept as it was sent.
pub record Parsed : Type 0 where
  pub name : String
  pub description : String
  pub basics : Basics
  pub open basics use *
  pub vm_ids : List String
  pub tag : Option String
  pub connection_id : Option String
  pub weekdays : List ℕ
  pub run_date : Option Json

-- plainText, on the trimmed text
unfoldable pub check_text : Label → ℕ → Bool → String → Result ScheduleError String
unfolding units has_control
check_text label max required s = do
  refuse_if (str_eq s "" && required) (needed label)
  refuse_if (ltb max (units s)) (too_long label)
  refuse_if (has_control s) (characters label)
  ok s

unfoldable pub operation_of : Option Json → Result ScheduleError String
operation_of (some (text s)) = if any (str_eq s) operation_keys then ok s else err bad_operation
operation_of _ = err bad_operation

-- Whether the machines are those with a tag.
unfoldable pub target_of : Option Json → Result ScheduleError Bool
target_of (some (text s)) =
    if str_eq s "vms" then ok false else if str_eq s "tag" then ok true else err bad_target
target_of _ = err bad_target

unfoldable pub frequency_of : Option Json → Result ScheduleError Frequency
frequency_of (some (text s)) =
    if str_eq s "once"
    then ok once
    else if str_eq s "daily"
    then ok daily
    else if str_eq s "weekly"
    then ok weekly
    else err bad_frequency
frequency_of _ = err bad_frequency

unfoldable pub time_of : Option Json → Result ScheduleError String
unfolding is_time
time_of (some (text s)) = if is_time (codes s) then ok s else err bad_time
time_of _ = err bad_time

-- validTimeZone(name)
unfoldable pub valid_time_zone : Zones → Json → Option String
unfolding units
valid_time_zone zones (text s) =
    if not (str_eq s "") && (leb (units s) 64 && zones.is_zone s) then some s else none
valid_time_zone zones _ = none

unfoldable pub zone_of : Zones → Option Json → Result ScheduleError String
unfolding valid_time_zone
zone_of zones v = elim (valid_time_zone zones (or_value v (text "UTC"))) [
  | none ↦ err bad_zone
  | some zone ↦ ok zone
]

unfoldable pub enabled_of : Option Json → Result ScheduleError Bool
enabled_of none = ok true
enabled_of (some (bool b)) = ok b
enabled_of _ = err bad_enabled

-- The texts of a list, if all are identifiers.
unfoldable pub uuids_of : List Json → Result ScheduleError (List String)
unfolding is_uuid
uuids_of [] = ok []
uuids_of (text id ∷ rest) =
    let others = uuids_of rest in
    if is_uuid id then (others >>= λ ids. ok (id ∷ ids)) else err bad_machine
uuids_of (v ∷ rest) = err bad_machine

-- The list, if it has elements.
unfoldable pub filled_list : ScheduleError → Option Json → Result ScheduleError (List Json)
filled_list reason v = elim (array_of v) [
  | none ↦ err reason
  | some vs ↦ elim vs [ [] ↦ err reason | w ∷ ws ↦ ok (w ∷ ws) ]
]

-- filter.value === undefined ? filter.key : `${filter.key}=${filter.value}`
unfoldable pub tag_text : Filter → String
tag_text f = elim f.value [ none ↦ f.key | some v ↦ text_append f.key (text_append "=" v) ]

unfoldable pub filter_of : Platform → String → Result ScheduleError Filter
filter_of platform s = elim (parse_tag_filter platform (some (text s))) [
  | err e ↦ err (bad_tag e)
  | ok f ↦ ok f
]

unfoldable pub tag_of : Platform → Option Json → Result ScheduleError String
unfolding filter_of tag_text
tag_of platform (some (text s)) = filter_of platform s >>= λ f. ok (tag_text f)
tag_of platform _ = err no_tag

unfoldable pub connection_of : Platform → Option Json → Result ScheduleError (Option String)
unfolding is_uuid
connection_of platform none = ok none
connection_of platform (some null) = ok none
connection_of platform (some (text s)) =
    if is_uuid s then ok (some (platform.lower s)) else err bad_connection
connection_of platform (some _) = err bad_connection

-- The days of a week, if all are.
unfoldable pub days_of : List Json → Result ScheduleError (List ℕ)
days_of [] = ok []
days_of (int n ∷ rest) =
    let others = days_of rest in
    if leb n 6 then (others >>= λ days. ok (n ∷ days)) else err bad_days
days_of (v ∷ rest) = err bad_days

-- [...new Set(days)]
unfoldable pub distinct_days : List ℕ → List ℕ → List ℕ
distinct_days seen [] = seen
distinct_days seen (d ∷ ds) =
    distinct_days (if any (λ x. x == d) seen then seen else seen ++ d ∷ []) ds

unfoldable pub sorted_days : List ℕ → List ℕ
unfolding distinct_days sort_by
sorted_days days = sort_by (λ a b. ltb b a) (distinct_days [] days)

unfoldable pub number_of : List ℕ → ℕ → ℕ
number_of [] n = n
number_of (c ∷ cs) n = number_of cs (n * 10 + (c - b'0'))

-- /^(\d{4})-(\d{2})-(\d{2})$/, as the day that it writes
unfoldable pub date_of : List ℕ → Option Day
unfolding is_digit number_of
date_of (a ∷ b ∷ c ∷ d ∷ x ∷ e ∷ f ∷ y ∷ g ∷ h ∷ []) =
    if (is_digit a && (is_digit b && (is_digit c && is_digit d)))
      && (x == b'-' && (is_digit e && is_digit f) && (y == b'-' && (is_digit g && is_digit h)))
    then some (record {
      year = number_of (a ∷ b ∷ c ∷ d ∷ []) 0;
      month = number_of (e ∷ f ∷ []) 0;
      day = number_of (g ∷ h ∷ []) 0;
    })
    else none
date_of _ = none

unfoldable pub same_day : Day → Day → Bool
same_day a b = a.year == b.year && (a.month == b.month && a.day == b.day)

-- Whether a value is written as a day of the calendar.
unfoldable pub is_date : Platform → Zones → Option Json → Bool
unfolding date_of same_day to_text
is_date platform zones v = elim (date_of (codes (to_text platform v))) [
  | none ↦ false
  | some day ↦ same_day (zones.utc_day day) day
]

module _ (platform : Platform) (zones : Zones) where
  -- plainText(raw, label, max, { required })
  unfoldable pub plain_text : Label → ℕ → Bool → Option Json → Result ScheduleError String
  unfolding check_text to_text trim
  plain_text label max required raw = check_text label max required (trim (to_text platform raw))

  -- The machines, listed or with a tag.
  unfoldable pub machines_of :
      Bool → Assoc Json → Result ScheduleError (List String × Option String)
  unfolding filled_list uuids_of tag_of has_length distinct is_truthy
  machines_of false fields = do
    vms ← filled_list no_machines (get "vmIds" fields)
    refuse_if (ltb machines_limit (length vms)) too_many_machines
    ids ← uuids_of vms
    refuse_if (is_truthy (get "tag" fields)) tag_beside
    ok (distinct (map platform.lower ids), none)
  machines_of true fields = do
    tag ← tag_of platform (get "tag" fields)
    refuse_if (has_length (get "vmIds" fields)) machines_beside
    ok ([], some tag)

  unfoldable pub weekdays_of : Frequency → Assoc Json → Result ScheduleError (List ℕ)
  unfolding filled_list days_of sorted_days has_length
  weekdays_of weekly fields = filled_list bad_days (get "weekdays" fields) >>= λ vs.
      days_of vs >>= λ days. ok (sorted_days days)
  weekdays_of once fields = refuse_if (has_length (get "weekdays" fields)) days_beside >> ok []
  weekdays_of daily fields = refuse_if (has_length (get "weekdays" fields)) days_beside >> ok []

  unfoldable pub run_date_of : Frequency → Assoc Json → Result ScheduleError (Option Json)
  unfolding is_date is_truthy
  run_date_of once fields =
      if is_date platform zones (get "runDate" fields)
      then ok (get "runDate" fields)
      else err bad_date
  run_date_of daily fields = refuse_if (is_truthy (get "runDate" fields)) date_beside >> ok none
  run_date_of weekly fields = refuse_if (is_truthy (get "runDate" fields)) date_beside >> ok none

  unfoldable pub basics_of : Assoc Json → Result ScheduleError Basics
  unfolding operation_of target_of frequency_of time_of zone_of enabled_of
  basics_of fields = do
    operation ← operation_of (get "operation" fields)
    by_tag ← target_of (get "targetKind" fields)
    frequency ← frequency_of (get "frequency" fields)
    time_of_day ← time_of (get "timeOfDay" fields)
    time_zone ← zone_of zones (get "timeZone" fields)
    enabled ← enabled_of (get "enabled" fields)
    ok (record {
      operation = operation;
      by_tag = by_tag;
      frequency = frequency;
      time_of_day = time_of_day;
      time_zone = time_zone;
      enabled = enabled;
    })

  -- The connection that narrows a tag.
  unfoldable pub narrowed_by : Bool → Assoc Json → Result ScheduleError (Option String)
  unfolding connection_of
  narrowed_by by_tag fields =
      connection_of platform (get "connectionId" fields) >>= λ connection_id.
      refuse_if (is_some connection_id && not by_tag) connection_beside >> ok connection_id

  unfoldable pub parse_fields : Assoc Json → Result ScheduleError Parsed
  unfolding basics_of machines_of narrowed_by weekdays_of run_date_of plain_text
  parse_fields fields = do
    basics ← basics_of fields
    machines ← machines_of basics.by_tag fields
    connection_id ← narrowed_by basics.by_tag fields
    weekdays ← weekdays_of basics.frequency fields
    run_date ← run_date_of basics.frequency fields
    name ← plain_text name_label name_max true (get "name" fields)
    description ← plain_text description_label description_max false (get "description" fields)
    ok (record {
      name = name;
      description = description;
      basics = basics;
      vm_ids = machines.0;
      tag = machines.1;
      connection_id = connection_id;
      weekdays = weekdays;
      run_date = run_date;
    })

  -- The fields of a request that has none but those that may be edited.
  unfoldable pub request_fields : Option Json → Result ScheduleError (Assoc Json)
  unfolding named_unknown_field
  request_fields body = elim (object_of body) [
    | none ↦ err not_object
    | some fields ↦ elim (named_unknown_field editable fields) [
      | some name ↦ err (unknown_field_named name)
      | none ↦ ok fields
    ]
  ]

  -- parseSchedule(body)
  unfoldable pub parse_schedule : Option Json → Result ScheduleError Parsed
  unfolding request_fields parse_fields
  parse_schedule body = request_fields body >>= parse_fields

  unfoldable pub frequency_text : Frequency → String
  frequency_text once = "once"
  frequency_text daily = "daily"
  frequency_text weekly = "weekly"

  unfoldable pub text_or_null : Option String → Json
  text_or_null none = null
  text_or_null (some s) = text s

  -- The editable fields of a schedule.
  unfoldable pub fields_of_schedule : Parsed → Assoc Json
  unfolding frequency_text text_or_null
  fields_of_schedule s =
      ("name", text s.name)
      ∷ ("description", text s.description)
      ∷ ("operation", text s.operation)
      ∷ ("targetKind", text (if s.by_tag then "tag" else "vms"))
      ∷ ("vmIds", array (items (map text s.vm_ids)))
      ∷ ("tag", text_or_null s.tag)
      ∷ ("connectionId", text_or_null s.connection_id)
      ∷ ("frequency", text (frequency_text s.frequency))
      ∷ ("timeOfDay", text s.time_of_day)
      ∷ ("weekdays", array (items (map int s.weekdays)))
      ∷ ("runDate", or_else s.run_date null)
      ∷ ("timeZone", text s.time_zone)
      ∷ ("enabled", bool s.enabled)
      ∷ []

  unfoldable pub is_word : String → Option Json → Bool
  is_word s (some (text t)) = str_eq s t
  is_word s _ = false

  -- The fields that do not apply to the new shape are those of the patch, or none.
  unfoldable pub fitted : Assoc Json → Assoc Json → Assoc Json
  unfolding is_word
  fitted patch merged =
      let of_list = is_word "vms" (get "targetKind" merged) in
      let a =
        if of_list
        then put "tag" (or_value (get "tag" patch) null) merged
        else put "vmIds" (or_value (get "vmIds" patch) (array (items []))) merged in
      let b =
        if is_word "weekly" (get "frequency" merged)
        then a
        else put "weekdays" (or_value (get "weekdays" patch) (array (items []))) a in
      let c =
        if is_word "once" (get "frequency" merged)
        then b
        else put "runDate" (or_value (get "runDate" patch) null) b in
      if of_list && not (is_some (get "connectionId" patch)) then put "connectionId" null c else c

  -- mergeSchedule(existing, patch)
  unfoldable pub merge_schedule : Parsed → Option Json → Result ScheduleError Parsed
  unfolding request_fields fields_of_schedule spread fitted parse_fields
  merge_schedule existing patch = request_fields patch >>= λ fields.
      refuse_if (length fields == 0) nothing_to_change
      >> parse_fields (fitted fields (spread fields (fields_of_schedule existing)))
