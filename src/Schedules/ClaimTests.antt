-- ===== src/Schedules/ClaimTests.antt =====
-- Runs of the schedule service and runner over a calendar of one zone, and applications of their theorems.
use nuvrion.Common.{
  All, Among, arith, ◌+◌, ◌*◌, ◌/◌, ◌%◌, ◌≡◌, refl, true, false, none, some, [], ◌∷◌, map,
}
use nuvrion.Common.Results.{ok}
use nuvrion.Common.Json.{Platform}
use nuvrion.Schedules.Runs.{submitted}
use nuvrion.Schedules.Targets.{Resource, listed}
use nuvrion.Schedules.When.{Day, Calendar, Timing, daily, weekly, next_run, next_runs, local_to_utc}
use nuvrion.Schedules.Store.{
  Fields, Schedule, Run, Recorded, ScheduleService, Claim, Refusal, time_passed, claim_due,
  create_schedule, delete_schedule, record_run, runs_kept,
}
use nuvrion.Schedules.Runner.{Surroundings, Requester, Runner, run_due}
use nuvrion.Schedules.Owed.{told, Owed}
use nuvrion.Schedules.History.{run_due-Owed}

-- Days are numbered from 1970-01-01, a Thursday; there is one zone, of no offset.
abbrev calendar : Calendar
calendar = record {
  parts_of = λ ms zone. record {
    date = record { year = 0; month = 0; day = ms / 86400000 };
    time = record { hour = ms / 3600000 % 24; minute = ms / 60000 % 60 };
    second = ms / 1000 % 60;
  };
  utc =
      λ p. p.date.day * 86400000 + p.time.hour * 3600000 + p.time.minute * 60000 + p.second * 1000;
  days_later = λ d n. record { year = 0; month = 0; day = d.day + n };
  weekday = λ d. (d.day + 4) % 7;
}

abbrev at_noon : Timing
at_noon = record {
  frequency = daily;
  time_of_day = record { hour = 12; minute = 0 };
  weekdays = [];
  run_date = record { year = 0; month = 0; day = 0 };
  time_zone = "UTC";
}

-- From the Saturday of day 9 on: Monday and Friday.
abbrev on_weekdays : Timing
on_weekdays = record at_noon { frequency = weekly; weekdays = 1 ∷ 5 ∷ [] }

coming : next_runs calendar on_weekdays 777600000 3 ≡ 993600000 ∷ 1339200000 ∷ 1598400000 ∷ []
unfolding next_runs next_run nuvrion.Schedules.When.next_day local_to_utc
coming = refl

abbrev fields : Fields
fields = record {
  name = "Night";
  description = "";
  operation = "stop";
  targets = listed ("vm1" ∷ []);
  timing = at_noon;
  enabled = true;
}

abbrev schedule : Schedule
schedule = record {
  id = "s";
  fields = fields;
  next_run_at = some 475200000;
  last_run_at = none;
  last_outcome = none;
  created_by = some "ann";
  row_version = 1;
  created_at = 432000000;
  updated_at = 432000000;
}

abbrev service : ScheduleService
service = record { schedules = ("s", schedule) ∷ []; runs = []; has_file = false; disk = none }

abbrev platform : Platform
platform = record { lower = λ s. s; shown = λ v. "" }

abbrev machine : Resource
machine = record {
  id = "vm1";
  name = "web";
  resource_type = none;
  lifecycle_state = "active";
  connection_id = "c";
}

abbrev world : Surroundings
world = record {
  platform = platform;
  resources = ok (machine ∷ []);
  tags = ok (λ r. []);
  requester = λ id. some (record { id = id; username = id });
  submit =
      λ r operation key who. ok (record { result = submitted; detail = none; task_id = some "t" });
  tag_message = λ e. "";
  decimal = λ n. "";
  uuid = λ n. "run";
}

abbrev runner : Runner
runner = record { store = service; audits = []; running = false; drawn = 0 }

-- A claim in time, and one an hour late.
claimed_in_time :
    (claim_due calendar 475200000 service).0
    ≡ record { schedule = schedule; scheduled_for = 475200000; late = false } ∷ []
unfolding claim_due nuvrion.Schedules.Store.claim_all nuvrion.Schedules.Store.due_at
    nuvrion.Schedules.When.is_late
claimed_in_time = refl

told_late : map told (run_due world calendar 478800000 runner).0 ≡ (some "s", 475200000, true) ∷ []
unfolding run_due nuvrion.Schedules.Runner.run_claims claim_due nuvrion.Schedules.Store.claim_all
    nuvrion.Schedules.Store.due_at nuvrion.Schedules.Runner.run_claim nuvrion.Schedules.When.is_late
    nuvrion.Schedules.Runner.record_and_audit record_run nuvrion.Schedules.Runner.missed_run
told_late = refl

outcomes : map (λ r. r.run.outcome) (run_due world calendar 475200000 runner).0 ≡ "completed" ∷ []
unfolding run_due nuvrion.Schedules.Runner.run_claims claim_due nuvrion.Schedules.Store.claim_all
    nuvrion.Schedules.Store.due_at nuvrion.Schedules.Runner.run_claim nuvrion.Schedules.When.is_late
    nuvrion.Schedules.Runner.execute nuvrion.Schedules.Runner.record_and_audit record_run
    nuvrion.Schedules.Runner.run_of nuvrion.Schedules.Runner.who_runs
    nuvrion.Schedules.Runner.found_targets nuvrion.Schedules.Runner.summed_run
    nuvrion.Schedules.Runs.summarise_run nuvrion.Schedules.Runner.submit_all
outcomes = refl

run_due-Owed_example :
    Owed 475200000 (("s", schedule) ∷ []) (map told (run_due world calendar 475200000 runner).0)
    × All
        (λ x. Among x (run_due world calendar 475200000 runner).1.store.runs)
        (run_due world calendar 475200000 runner).0
run_due-Owed_example = run_due-Owed world calendar 475200000 runner refl (omega arith)

abbrev run : Run
run = record {
  schedule_id = some "s";
  schedule_name = "Night";
  operation = "stop";
  trigger = "schedule";
  scheduled_for = 475200000;
  started_at = 475200000;
  finished_at = 475200001;
  requested_by = some "ann";
  outcome = "completed";
  matched = 1;
  submitted_count = 1;
  skipped_count = 0;
  failed_count = 0;
  details = [];
  details_truncated = false;
  error = none;
}
