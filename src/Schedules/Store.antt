-- ===== src/Schedules/Store.antt =====
-- modules/tasks/src/schedule-service.js: the schedules and the history of their runs, in a file.
use nuvrion.Common.{
  ℕ, ◌+◌, String, Bool, true, false, ◌&&◌, ◌||◌, not, Option, none, some, List, [], ◌∷◌, map, any,
  find_by, filter_by, take, length, is_some, or_else, str_eq, ltb, leb, ◌==◌, get, put, remove,
  values, Assoc, if◌then◌else◌,
}
use nuvrion.Common.Results.{Result, ok, err, ◌>>=◌, ◌>>◌, refuse_if}
use nuvrion.Common.Json.{Json, Platform}
use nuvrion.Schedules.Runs.{Item}
use nuvrion.Schedules.Targets.{Wanted}
use nuvrion.Schedules.When.{Calendar, Timing, next_run, is_late}

-- What parseSchedule gives of a request.
pub record Fields : Type 0 where
  pub name : String
  pub description : String
  pub operation : String
  pub targets : Wanted
  pub timing : Timing
  pub enabled : Bool

pub record Schedule : Type 0 where
  pub id : String
  pub fields : Fields
  pub next_run_at : Option ℕ
  pub last_run_at : Option ℕ
  pub last_outcome : Option String
  pub created_by : Option String
  pub row_version : ℕ
  pub created_at : ℕ
  pub updated_at : ℕ

-- A run, as the runner reports it; the store adds its identifier.
pub record Run : Type 0 where
  pub schedule_id : Option String
  pub schedule_name : String
  pub operation : String
  pub trigger : String
  pub scheduled_for : ℕ
  pub started_at : ℕ
  pub finished_at : ℕ
  pub requested_by : Option String
  pub outcome : String
  pub matched : ℕ
  pub submitted_count : ℕ
  pub skipped_count : ℕ
  pub failed_count : ℕ
  pub details : List Item
  pub details_truncated : Bool
  pub error : Option String

pub record Recorded : Type 0 where
  pub id : String
  pub run : Run

pub record Saved : Type 0 where
  pub schedules : Assoc Schedule
  pub runs : List Recorded

pub record ScheduleService : Type 0 where
  pub schedules : Assoc Schedule
  pub runs : List Recorded
  pub has_file : Bool
  pub disk : Option Saved

-- #persist()
unfoldable pub persist : ScheduleService → ScheduleService
persist s = record s {
  disk = if s.has_file then some (record { schedules = s.schedules; runs = s.runs }) else s.disk;
}

-- new ScheduleService({ file })
unfoldable pub open_service : Bool → Option Saved → ScheduleService
open_service has_file disk =
    let saved : Saved =
      if has_file
      then or_else disk (record { schedules = []; runs = [] })
      else record { schedules = []; runs = [] } in
    record { schedules = saved.schedules; runs = saved.runs; has_file = has_file; disk = disk }

-- #public(schedule): the schedule and its last run
unfoldable pub public_schedule : ScheduleService → Schedule → Schedule × Option Recorded
public_schedule s schedule = (
  schedule,
  find_by (λ r. str_eq (or_else r.run.schedule_id "") schedule.id && is_some r.run.schedule_id)
      s.runs,
)

-- The errors of the service, and those of parseSchedule and mergeSchedule.
pub data Refusal (E : Type 0) : Type 0 where
  invalid : E → Refusal E
  name_exists : String → Refusal E
  time_passed schedule_limit version_conflict : Refusal E

-- LIMITS
abbrev pub schedules_limit : ℕ
schedules_limit = 100

abbrev pub runs_kept : ℕ
runs_kept = 200

-- A result of parseSchedule or mergeSchedule.
unfoldable pub checked {ℓ} : {E : Type 0} {A : Type ℓ} → Result E A → Result (Refusal E) A
checked (err e) = err (invalid e)
checked (ok a) = ok a

-- #checkName(name, exceptId): whether the name is taken
unfoldable pub name_taken : Platform → String → Option String → Assoc Schedule → Bool
name_taken platform name except_id schedules =
    any
      (λ item.
        not (elim except_id [ none ↦ false | some id ↦ str_eq item.id id ])
        && str_eq (platform.lower item.fields.name) (platform.lower name))
      (values schedules)

-- #planNext(fields, now)
unfoldable pub plan_next : {E : Type 0} → Calendar → Fields → ℕ → Result (Refusal E) (Option ℕ)
plan_next calendar fields now =
    if not fields.enabled then ok none else (elim (next_run calendar fields.timing now) [
      | none ↦ err time_passed
      | some at ↦ ok (some at)
    ])

-- The rules that the service calls: parseSchedule(input), and mergeSchedule(existing, patch).
module _ {E : Type 0} (platform : Platform) (calendar : Calendar)
    (parse : Option Json → Result E Fields) (merge : Fields → Option Json → Result E Fields) where
  -- createSchedule(input, userId, now), with the identifier that is drawn
  unfoldable pub create_schedule :
      Option Json
      → Option String
      → ℕ
      → String
      → ScheduleService
      → Result (Refusal E) (Schedule × ScheduleService)
  unfolding checked plan_next name_taken persist
  create_schedule input user_id now id s = do
    fields ← checked (parse input)
    refuse_if (leb schedules_limit (length s.schedules)) schedule_limit
    next ← plan_next calendar fields now
    refuse_if (name_taken platform fields.name none s.schedules) (name_exists fields.name)
    let schedule : Schedule = record {
      id = id;
      fields = fields;
      next_run_at = next;
      last_run_at = none;
      last_outcome = none;
      created_by = user_id;
      row_version = 1;
      created_at = now;
      updated_at = now;
    }
    ok (schedule, persist (record s { schedules = put id schedule s.schedules }))

  -- updateSchedule(id, patch, expectedVersion, now)
  unfoldable pub update_schedule :
      String
      → Option Json
      → ℕ
      → ℕ
      → ScheduleService
      → Result (Refusal E) (Option Schedule × ScheduleService)
  unfolding checked plan_next name_taken persist
  update_schedule id patch expected now s = elim (get id s.schedules) [
    | none ↦ ok (none, s)
    | some schedule ↦ do
      refuse_if (not (schedule.row_version == expected)) version_conflict
      fields ← checked (merge schedule.fields patch)
      next ← plan_next calendar fields now
      refuse_if (name_taken platform fields.name (some id) s.schedules) (name_exists fields.name)
      let changed : Schedule = record schedule {
        fields = fields;
        next_run_at = next;
        row_version = schedule.row_version + 1;
        updated_at = now;
      }
      ok (some changed, persist (record s { schedules = put id changed s.schedules }))
  ]

-- if (run.scheduleId === id) run.scheduleId = null
unfoldable pub orphaned : String → Recorded → Recorded
orphaned id r = elim r.run.schedule_id [
  | none ↦ r
  | some own ↦ if str_eq own id then record r { run = record r.run { schedule_id = none } } else r
]

-- deleteSchedule(id)
unfoldable pub delete_schedule : String → ScheduleService → Option ℕ × ScheduleService
unfolding orphaned persist
delete_schedule id s = elim (get id s.schedules) [
  | none ↦ (none, s)
  | some schedule ↦ (
    some 1,
    persist (record s { schedules = remove id s.schedules; runs = map (orphaned id) s.runs }),
  )
]

pub record Claim : Type 0 where
  pub schedule : Schedule
  pub scheduled_for : ℕ
  pub late : Bool

-- Whether a schedule is due: it is enabled, and its next run is not ahead.
unfoldable pub due_at : Schedule → ℕ → Option ℕ
due_at schedule now = elim schedule.next_run_at [
  | none ↦ none
  | some at ↦ if not schedule.fields.enabled || ltb now at then none else some at
]

-- The schedule after it is claimed: at its next run, or off.
unfoldable pub advanced : Calendar → ℕ → Schedule → Schedule
advanced calendar now schedule =
    let next = next_run calendar schedule.fields.timing now in
    record schedule {
      next_run_at = next;
      fields = if is_some next then schedule.fields else record schedule.fields { enabled = false };
    }

unfoldable pub claim_all : Calendar → ℕ → Assoc Schedule → List Claim × Assoc Schedule
claim_all calendar now [] = ([], [])
claim_all calendar now ((id, schedule) ∷ rest) =
    let (claims, left) = claim_all calendar now rest in
    elim (due_at schedule now) [
      | none ↦ (claims, (id, schedule) ∷ left)
      | some at ↦ (
        record { schedule = schedule; scheduled_for = at; late = is_late at now } ∷ claims,
        (id, advanced calendar now schedule) ∷ left,
      )
    ]

-- claimDue(now)
unfoldable pub claim_due : Calendar → ℕ → ScheduleService → List Claim × ScheduleService
claim_due calendar now s =
    let (claims, left) = claim_all calendar now s.schedules in
    let s' : ScheduleService = record s { schedules = left } in
    (claims, (if leb 1 (length claims) then persist s' else s))

-- item.scheduleId ?? item.scheduleName
unfoldable pub history_key : Recorded → String
history_key r = or_else r.run.schedule_id r.run.schedule_name

unfoldable pub count_key : String → List String → ℕ
count_key k [] = 0
count_key k (j ∷ seen) = if str_eq j k then count_key k seen + 1 else count_key k seen

-- The filter of recordRun, with the keys seen so far: the first `runs_kept` of each key.
unfoldable pub keep_runs : List String → List Recorded → List Recorded
unfolding history_key count_key
keep_runs seen [] = []
keep_runs seen (r ∷ rs) =
    let rest = keep_runs (history_key r ∷ seen) rs in
    if leb (count_key (history_key r) seen + 1) runs_kept then r ∷ rest else rest

-- schedule.lastRunAt = record.startedAt; schedule.lastOutcome = record.outcome
unfoldable pub noted_run : Run → Assoc Schedule → Assoc Schedule
noted_run run schedules = elim run.schedule_id [
  | none ↦ schedules
  | some id ↦ elim (get id schedules) [
    | none ↦ schedules
    | some schedule ↦
        put id
          (record schedule { last_run_at = some run.started_at; last_outcome = some run.outcome })
          schedules
  ]
]

-- recordRun(run), with the identifier that is drawn
unfoldable pub record_run : Run → String → ScheduleService → Recorded × ScheduleService
record_run run id s =
    let recorded : Recorded = record { id = id; run = run } in
    (
      recorded,
      persist (record s {
        schedules = noted_run run s.schedules;
        runs = keep_runs [] (recorded ∷ s.runs);
      }),
    )

-- listRuns({ scheduleId, limit })
unfoldable pub list_runs : Option String → ℕ → ScheduleService → List Recorded
list_runs schedule_id limit s =
    let most = if ltb 1 limit then (if ltb limit 200 then limit else 200) else 1 in
    take most (
      filter_by
        (λ r. elim schedule_id [
          | none ↦ true
          | some id ↦
              str_eq id ""
              || (is_some r.run.schedule_id && str_eq (or_else r.run.schedule_id "") id)
        ])
        s.runs)

-- getSchedule(id)
unfoldable pub get_schedule : String → ScheduleService → Option (Schedule × Option Recorded)
unfolding public_schedule
get_schedule id s = elim (get id s.schedules) [
  | none ↦ none
  | some schedule ↦ some (public_schedule s schedule)
]

module _ (not_after : String → String → Bool) where
  -- sort((a, b) => a.name.localeCompare(b.name)): `not_after a b` is a.localeCompare(b) <= 0
  unfoldable pub insert_by_name : Schedule → List Schedule → List Schedule
  insert_by_name x [] = x ∷ []
  insert_by_name x (y ∷ ys) =
      let rest = insert_by_name x ys in
      if not_after x.fields.name y.fields.name then x ∷ y ∷ ys else y ∷ rest

  unfoldable pub sort_by_name : List Schedule → List Schedule
  unfolding insert_by_name
  sort_by_name [] = []
  sort_by_name (x ∷ xs) = insert_by_name x (sort_by_name xs)

  -- listSchedules()
  unfoldable pub list_schedules : ScheduleService → List (Schedule × Option Recorded)
  unfolding sort_by_name public_schedule
  list_schedules s = map (public_schedule s) (sort_by_name (values s.schedules))
