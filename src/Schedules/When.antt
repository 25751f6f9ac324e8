-- ===== src/Schedules/When.antt =====
-- When a schedule runs, of modules/tasks/src/schedule-rules.js. Times are milliseconds, from 1970-01-02 on.
use nuvrion.Common.{
  ℕ, zero, suc, ◌+◌, ◌-◌, ◌*◌, ◌/◌, String, Bool, true, false, ◌&&◌, not, Option, none, some, List,
  [], ◌∷◌, any, filter_by, ltb, ◌==◌, if◌then◌else◌,
}

pub record Day : Type 0 where
  pub year : ℕ
  pub month : ℕ
  pub day : ℕ

pub record Clock : Type 0 where
  pub hour : ℕ
  pub minute : ℕ

pub record Local : Type 0 where
  pub date : Day
  pub time : Clock
  pub second : ℕ

-- The platform: the parts that Intl.DateTimeFormat shows for a time in a zone, Date.UTC of such parts, the
-- day that Date.UTC gives for so many days later, and its getUTCDay.
pub record Calendar : Type 0 where
  pub parts_of : ℕ → String → Local
  pub utc : Local → ℕ
  pub days_later : Day → ℕ → Day
  pub weekday : Day → ℕ

pub data Frequency : Type 0 where
  once daily weekly : Frequency

-- The fields of a schedule that say when it runs; timeOfDay and runDate are their numbers.
pub record Timing : Type 0 where
  pub frequency : Frequency
  pub time_of_day : Clock
  pub weekdays : List ℕ
  pub run_date : Day
  pub time_zone : String

abbrev pub hour_ms : ℕ
hour_ms = 3600000

abbrev pub is_once : Frequency → Bool
is_once once = true
is_once daily = false
is_once weekly = false

module _ (calendar : Calendar) where
  -- guess - offsetAt(ms, timeZone): the offset is what the parts say less the time in whole seconds
  unfoldable pub less_offset : ℕ → ℕ → String → ℕ
  less_offset guess ms zone = guess + ms / 1000 * 1000 - calendar.utc (calendar.parts_of ms zone)

  -- sameLocal(ms, wanted, timeZone)
  unfoldable pub same_local : ℕ → Day → Clock → String → Bool
  same_local ms date time zone =
      let p = calendar.parts_of ms zone in
      (p.date.year == date.year && (p.date.month == date.month && p.date.day == date.day))
      && (p.time.hour == time.hour && p.time.minute == time.minute)

  -- Math.min(x, ...xs)
  unfoldable pub least_of : ℕ → List ℕ → ℕ
  least_of x [] = x
  least_of x (y ∷ ys) = least_of (if ltb y x then y else x) ys

  -- localToUtc(wanted, timeZone)
  unfoldable pub local_to_utc : Day → Clock → String → ℕ
  unfolding less_offset same_local least_of
  local_to_utc date time zone =
      let guess = calendar.utc (record { date = date; time = time; second = 0 }) in
      let first = less_offset guess guess zone in
      let second = less_offset guess first zone in
      elim (filter_by (λ candidate. same_local candidate date time zone)
        (first
          ∷ second
          ∷ (first - hour_ms)
          ∷ (first + hour_ms)
          ∷ (second - hour_ms)
          ∷ (second + hour_ms)
          ∷ [])) [ [] ↦ if ltb first second then second else first | ◌∷◌ m ms ↦ least_of m ms ]

  -- The loop of nextRun over the days from today on, for so many rounds.
  unfoldable pub next_day : Timing → Day → ℕ → ℕ → ℕ → Option ℕ
  next_day t today after zero offset = none
  next_day t today after (suc n) offset =
      let later = next_day t today after n (offset + 1) in
      let date = calendar.days_later today offset in
      let at = local_to_utc date t.time_of_day t.time_zone in
      if is_weekly t.frequency && not (any (λ d. d == calendar.weekday date) t.weekdays)
      then later
      else if ltb after at
      then some at
      else later
    where
      is_weekly : Frequency → Bool
      is_weekly once = false
      is_weekly daily = false
      is_weekly weekly = true

  -- nextRun(schedule, afterMs)
  unfoldable pub next_run : Timing → ℕ → Option ℕ
  next_run t after =
      let at = local_to_utc t.run_date t.time_of_day t.time_zone in
      let next = next_day t (calendar.parts_of after t.time_zone).date after 10 0 in
      if is_once t.frequency then (if ltb after at then some at else none) else next

  -- nextRuns(schedule, afterMs, count)
  unfoldable pub next_runs : Timing → ℕ → ℕ → List ℕ
  next_runs t after zero = []
  next_runs t after (suc count) = elim (next_run t after) [
    | none ↦ []
    | some at ↦ at ∷ next_runs t at count
  ]

-- LIMITS.graceMinutes, in milliseconds
abbrev pub grace_ms : ℕ
grace_ms = 15 * 60000

-- isLate(scheduledFor, now)
unfoldable pub is_late : ℕ → ℕ → Bool
is_late scheduled_for now = ltb (scheduled_for + grace_ms) now
