-- ===== src/Schedules/Runner.antt =====
-- modules/tasks/src/schedule-runner.js: running what is due.
use nuvrion.Common.{
  ℕ, ◌+◌, String, text_append, Bool, false, Option, none, some, List, [], ◌∷◌, ◌++◌, str_eq,
  if◌then◌else◌,
}
use nuvrion.Common.Results.{Result as Thrown, ok, err, ◌>>=◌}
use nuvrion.Common.Json.{Platform}
use nuvrion.Inventory.TagRules.{TagError, Tag}
use nuvrion.Schedules.Runs.{
  Result, Item, Outcome, partial, all_failed, run_completed, run_skipped, Summary, summarise_run,
  failed,
}
use nuvrion.Schedules.Targets.{Resource, Found, resolve_targets}
use nuvrion.Schedules.When.{Calendar}
use nuvrion.Schedules.Store.{Schedule, Run, Recorded, ScheduleService, Claim, claim_due, record_run}

pub record Requester : Type 0 where
  pub id : String
  pub username : String

-- What the rest of the platform gives the runner. A call that throws is an `err` with its message.
-- What came of asking for an operation on a machine.
pub record Answer : Type 0 where
  pub result : Result
  pub detail : Option String
  pub task_id : Option String

pub record Surroundings : Type 0 where
  pub platform : Platform
  pub resources : Thrown String (List Resource)
  pub tags : Thrown String (Resource → List Tag)
  pub requester : String → Option Requester
  pub submit : Resource → String → String → Requester → Thrown String Answer
  pub tag_message : TagError → String
  pub decimal : ℕ → String
  pub uuid : ℕ → String

pub record Audit : Type 0 where
  pub schedule : Schedule
  pub run : Recorded
  pub who : Option Requester

pub record Runner : Type 0 where
  pub store : ScheduleService
  pub audits : List Audit
  pub running : Bool
  pub drawn : ℕ

unfoldable pub outcome_text : Outcome → String
outcome_text partial = "partial"
outcome_text all_failed = "failed"
outcome_text run_completed = "completed"
outcome_text run_skipped = "skipped"

-- outcome.detail ? { detail } : {}
unfoldable pub if_not_empty : Option String → Option String
if_not_empty none = none
if_not_empty (some s) = if str_eq s "" then none else some s

-- What is kept of an answer, or of the error that was caught.
unfoldable pub item_of : Resource → Thrown String Answer → Item
unfolding if_not_empty
item_of r (ok answer) = record {
  resource_id = r.id;
  name = some r.name;
  result = answer.result;
  detail = if_not_empty answer.detail;
  task_id = if_not_empty answer.task_id;
}
item_of r (err message) = record {
  resource_id = r.id;
  name = some r.name;
  result = failed;
  detail = if_not_empty (some message);
  task_id = none;
}

module _ (world : Surroundings) where
  -- `schedule:${schedule.id}:${trigger}:${scheduledFor}:${resource.id}`
  unfoldable pub request_key : Schedule → String → ℕ → Resource → String
  request_key schedule trigger scheduled_for r = text_append "schedule:" (
      text_append schedule.id (
        text_append ":" (
          text_append trigger
            (text_append ":" (text_append (world.decimal scheduled_for) (text_append ":" r.id))))))

  -- The loop over the machines.
  unfoldable pub submit_all : Schedule → String → ℕ → Requester → List Resource → List Item
  unfolding request_key item_of
  submit_all schedule trigger scheduled_for who [] = []
  submit_all schedule trigger scheduled_for who (r ∷ rs) =
      item_of r (
        world.submit r schedule.fields.operation (request_key schedule trigger scheduled_for r) who)
      ∷ submit_all schedule trigger scheduled_for who rs

  -- The base of a run, with an error in place of a summary.
  unfoldable pub failed_run : Schedule → String → ℕ → Option String → ℕ → ℕ → String → Run
  failed_run schedule trigger scheduled_for requested_by started finished message = record {
    schedule_id = some schedule.id;
    schedule_name = schedule.fields.name;
    operation = schedule.fields.operation;
    trigger = trigger;
    scheduled_for = scheduled_for;
    started_at = started;
    finished_at = finished;
    requested_by = requested_by;
    outcome = "error";
    matched = 0;
    submitted_count = 0;
    skipped_count = 0;
    failed_count = 0;
    details = [];
    details_truncated = false;
    error = some message;
  }

  unfoldable pub summed_run : Run → Summary → Run
  unfolding outcome_text
  summed_run base summary = record base {
    outcome = outcome_text summary.outcome;
    matched = summary.matched;
    submitted_count = summary.submitted_count;
    skipped_count = summary.skipped_count;
    failed_count = summary.failed_count;
    details = summary.details;
    details_truncated = summary.details_truncated;
    error = none;
  }

  -- The machines of a schedule; an error has the message that is caught.
  unfoldable pub found_targets : Schedule → Thrown String Found
  unfolding resolve_targets
  found_targets schedule = world.resources >>= λ resources. world.tags >>= λ tags.
      (elim (resolve_targets world.platform tags schedule.fields.targets resources) [
        | err e ↦ err (world.tag_message e)
        | ok found ↦ ok found
      ])

  abbrev pub nobody : String
  nobody =
      "The person who made this schedule can no longer operate machines, so it did nothing. Ask someone who can to make it again."

  -- Who a schedule runs as.
  unfoldable pub who_runs : Schedule → Option Requester → Option Requester
  who_runs schedule (some who) = some who
  who_runs schedule none = elim schedule.created_by [ none ↦ none | some id ↦ world.requester id ]

  -- The run that execute records.
  unfoldable pub run_of : Schedule → ℕ → String → Option Requester → ℕ → ℕ → Run
  run_of schedule scheduled_for trigger none started finished =
      failed_run schedule trigger scheduled_for schedule.created_by started finished nobody
  run_of schedule scheduled_for trigger (some who) started finished =
      let base = failed_run schedule trigger scheduled_for (some who.id) started finished in
      elim (found_targets schedule) [
        | err message ↦ base message
        | ok found ↦ summed_run (base "") (
            summarise_run (submit_all schedule trigger scheduled_for who found.machines) found.gone)
      ]

  -- schedules.recordRun(run), then the audit event
  unfoldable pub record_and_audit : Schedule → Run → Option Requester → Runner → Recorded × Runner
  record_and_audit schedule run who r =
      let (recorded, store) = record_run run (world.uuid r.drawn) r.store in
      (
        recorded,
        record r {
          store = store;
          audits = r.audits ++ record { schedule = schedule; run = recorded; who = who } ∷ [];
          drawn = r.drawn + 1;
        },
      )

  -- execute(schedule, { scheduledFor, trigger, requestedBy }), with the clock's times at its start and end
  unfoldable pub execute :
      Schedule → ℕ → String → Option Requester → ℕ → ℕ → Runner → Recorded × Runner
  execute schedule scheduled_for trigger requested_by started finished r =
      let who = who_runs schedule requested_by in
      record_and_audit schedule (run_of schedule scheduled_for trigger who started finished) who r

  -- The run that is recorded for one that is late.
  unfoldable pub missed_run : Claim → ℕ → Run
  missed_run claim now = record {
    schedule_id = some claim.schedule.id;
    schedule_name = claim.schedule.fields.name;
    operation = claim.schedule.fields.operation;
    trigger = "schedule";
    scheduled_for = claim.scheduled_for;
    started_at = now;
    finished_at = now;
    requested_by = claim.schedule.created_by;
    outcome = "missed";
    matched = 0;
    submitted_count = 0;
    skipped_count = 0;
    failed_count = 0;
    details = [];
    details_truncated = false;
    error = none;
  }

  -- One round of runDue's loop; the clock shows `now` throughout.
  unfoldable pub run_claim : ℕ → Claim → Runner → Recorded × Runner
  run_claim now claim r =
      if claim.late
      then record_and_audit claim.schedule (missed_run claim now) none r
      else execute claim.schedule claim.scheduled_for "schedule" none now now r

  unfoldable pub run_claims : ℕ → List Claim → Runner → List Recorded × Runner
  run_claims now [] r = ([], r)
  run_claims now (claim ∷ claims) r =
      let (recorded, r') = run_claim now claim r in
      let (others, r'') = run_claims now claims r' in (recorded ∷ others, r'')

  -- runDue()
  unfoldable pub run_due : Calendar → ℕ → Runner → List Recorded × Runner
  run_due calendar now r =
      let (claims, store) = claim_due calendar now r.store in
      let (recorded, r') = run_claims now claims (record r { store = store }) in
      if r.running then ([], r) else (recorded, r')
