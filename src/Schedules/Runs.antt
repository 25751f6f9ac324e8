-- ===== src/Schedules/Runs.antt =====
-- `summariseRun` of modules/tasks/src/schedule-rules.js.
use nuvrion.Common.{
  ℕ, ◌+◌, String, Bool, true, false, Option, none, some, List, ◌++◌, length, take, map, filter_by,
  ltb, if◌then◌else◌,
}

pub data Result : Type 0 where
  submitted skipped failed : Result

unfoldable pub result_eq : Result → Result → Bool
result_eq submitted submitted = true
result_eq submitted _ = false
result_eq skipped skipped = true
result_eq skipped _ = false
result_eq failed failed = true
result_eq failed _ = false

-- What came of one machine.
pub record Item : Type 0 where
  pub resource_id : String
  pub name : Option String
  pub result : Result
  pub detail : Option String
  pub task_id : Option String

pub data Outcome : Type 0 where
  partial all_failed run_completed run_skipped : Outcome

pub record Summary : Type 0 where
  pub outcome : Outcome
  pub matched : ℕ
  pub submitted_count : ℕ
  pub skipped_count : ℕ
  pub failed_count : ℕ
  pub details : List Item
  pub details_truncated : Bool

-- LIMITS.detailsKept
abbrev pub details_kept : ℕ
details_kept = 100

unfoldable pub count : Result → List Item → ℕ
unfolding result_eq
count kind items = length (filter_by (λ item. result_eq item.result kind) items)

unfoldable pub outcome_of : ℕ → ℕ → Outcome
outcome_of submitted_count failed_count =
    if ltb 0 failed_count
    then (if ltb 0 submitted_count then partial else all_failed)
    else (if ltb 0 submitted_count then run_completed else run_skipped)

unfoldable pub gone_item : String → Item
gone_item id = record {
  resource_id = id;
  name = none;
  result = skipped;
  detail = some "That machine is no longer there.";
  task_id = none;
}

-- summariseRun({ results, gone })
unfoldable pub summarise_run : List Item → List String → Summary
unfolding count outcome_of gone_item
summarise_run results gone =
    let details = results ++ map gone_item gone in
    record {
      outcome = outcome_of (count submitted results) (count failed results);
      matched = length results + length gone;
      submitted_count = count submitted results;
      skipped_count = count skipped results + length gone;
      failed_count = count failed results;
      details = take details_kept details;
      details_truncated = ltb details_kept (length details);
    }
