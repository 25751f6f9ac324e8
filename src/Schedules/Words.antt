-- ===== src/Schedules/Words.antt =====
-- A schedule and a run in words, of modules/tasks/src/schedule-rules.js.
use nuvrion.Common.{
  ℕ, String, text_append, Bool, true, false, ◌&&◌, Option, List, [], ◌∷◌, ◌++◌, map, str_eq, length,
  get_elem?, ◌==◌, Assoc, get, or_else, if◌then◌else◌,
}
use nuvrion.Common.Json.{int, Platform, to_text}
use nuvrion.Schedules.When.{once, daily, weekly}
use nuvrion.Schedules.Requests.{Parsed}

-- OPERATIONS
abbrev pub operations : Assoc String
operations =
    ("start", "Power on")
    ∷ ("stop", "Shut down guest")
    ∷ ("power_off", "Power off")
    ∷ ("pause", "Suspend")
    ∷ ("reboot_guest", "Restart guest OS")
    ∷ ("restart", "Restart")
    ∷ []

-- WEEKDAY_NAMES
abbrev pub weekday_names : List String
weekday_names = "Sun" ∷ "Mon" ∷ "Tue" ∷ "Wed" ∷ "Thu" ∷ "Fri" ∷ "Sat" ∷ []

-- The pieces of a text in a row.
unfoldable pub glue : List String → String
glue [] = ""
glue (s ∷ ss) = text_append s (glue ss)

-- texts.join(', ')
unfoldable pub joined : List String → String
joined [] = ""
joined (s ∷ []) = s
joined (s ∷ t ∷ ts) = text_append s (text_append ", " (joined (t ∷ ts)))

unfoldable pub same_days : List ℕ → List ℕ → Bool
same_days [] [] = true
same_days (x ∷ xs) (y ∷ ys) = x == y && same_days xs ys
same_days _ _ = false

-- every weekday, every weekend, or the names of the days
unfoldable pub days_label : List ℕ → String
unfolding same_days joined
days_label days =
    if same_days days (1 ∷ 2 ∷ 3 ∷ 4 ∷ 5 ∷ [])
    then "every weekday"
    else if same_days days (0 ∷ 6 ∷ [])
    then "every weekend"
    else text_append "every "
        (joined (map (λ d. or_else (get_elem? weekday_names d) "undefined") days))

-- A run as describeRun reads it.
pub record Told : Type 0 where
  pub outcome : String
  pub error : Option String
  pub matched : ℕ
  pub submitted : ℕ
  pub skipped : ℕ
  pub failed : ℕ

module _ (platform : Platform) where
  -- String(n)
  unfoldable pub number_text : ℕ → String
  number_text n = platform.shown (int n)

  -- describeWhen(schedule)
  unfoldable pub describe_when : Parsed → String
  unfolding days_label glue to_text
  describe_when s = elim s.frequency [
    | once ↦ glue (
        "once on "
        ∷ to_text platform s.run_date
        ∷ " at "
        ∷ s.time_of_day
        ∷ " ("
        ∷ s.time_zone
        ∷ ")"
        ∷ [])
    | daily ↦ glue ("every day at " ∷ s.time_of_day ∷ " (" ∷ s.time_zone ∷ ")" ∷ [])
    | weekly ↦ glue (days_label s.weekdays ∷ " at " ∷ s.time_of_day ∷ " (" ∷ s.time_zone ∷ ")" ∷ [])
  ]

  -- describeTargets(schedule)
  unfoldable pub describe_targets : Parsed → String
  unfolding number_text glue
  describe_targets s =
      if s.by_tag
      then text_append "machines tagged " (or_else s.tag "null")
      else glue (
          number_text (length s.vm_ids)
          ∷ " virtual machine"
          ∷ (if length s.vm_ids == 1 then "" else "s")
          ∷ [])

  -- describeSchedule(schedule)
  unfoldable pub describe_schedule : Parsed → String
  unfolding describe_when describe_targets glue get
  describe_schedule s = glue (
      or_else (get s.operation operations) s.operation
      ∷ ": "
      ∷ describe_targets s
      ∷ ", "
      ∷ describe_when s
      ∷ [])

  -- A count in words, if it is not 0.
  unfoldable pub counted_part : ℕ → String → List String
  unfolding number_text
  counted_part n word = if n == 0 then [] else text_append (number_text n) word ∷ []

  -- describeRun(run)
  unfoldable pub describe_run : Told → String
  unfolding joined counted_part number_text
  describe_run run =
      if str_eq run.outcome "missed"
      then "Missed: Nuvrion was not running at the time"
      else if str_eq run.outcome "error"
      then text_append "Could not run: " (or_else run.error "unknown error")
      else if run.matched == 0
      then "No machines matched"
      else joined (
          text_append (number_text run.submitted) " requested"
          ∷ (counted_part run.skipped " skipped" ++ counted_part run.failed " failed"))
