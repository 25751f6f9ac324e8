-- ===== src/Webhooks/EventTests.antt =====
-- The events of a small feed and of some runs.
use nuvrion.Common.{ℕ, String, none, some, List, [], ◌∷◌, map, ◌≡◌, refl}
use nuvrion.Common.Text.{codes}
use nuvrion.Webhooks.Rules.{warning, critical}
use nuvrion.Webhooks.Events.{FeedItem, Run, collect_events}

abbrev item : String → String → ℕ → FeedItem
item source kind at = record {
  id = "e";
  kind = kind;
  at = at;
  source = source;
  severity = "critical";
  title = some (codes "esx1");
  detail = none;
}

abbrev run_at : String → ℕ → Run
run_at outcome at = record {
  id = "r1";
  outcome = outcome;
  started_at = at;
  schedule_name = none;
  summary = some (codes "1 of 2");
}

abbrev feed : List FeedItem
feed =
    item "threshold" "fired" 70
    ∷ item "connection" "fired" 30
    ∷ item "connection" "resolved" 50
    ∷ item "threshold" "resolved" 5
    ∷ []

-- The events since a time in their order; a run that was completed is none.
collected_types :
    map {B = ℕ × String}
      (λ e. (e.at, e.type))
      (collect_events feed (run_at "partial" 40 ∷ run_at "completed" 60 ∷ []) 10)
    ≡ (30, "connection.down")
      ∷ (40, "schedule.problem")
      ∷ (50, "connection.recovered")
      ∷ (70, "alert.fired")
      ∷ []
unfolding collect_events
collected_types = refl

collected_missed :
    collect_events [] (run_at "missed" 40 ∷ []) 0
    ≡ record {
      id = "schedule-run:r1";
      type = "schedule.problem";
      at = 40;
      severity = warning;
      title = codes "A schedule";
      detail = codes "The scheduled run was missed: 1 of 2";
    }
      ∷ []
unfolding collect_events
collected_missed = refl

collected_severities :
    map (λ e. e.severity) (collect_events [] (run_at "error" 1 ∷ run_at "partial" 2 ∷ []) 0)
    ≡ critical ∷ warning ∷ []
unfolding collect_events
collected_severities = refl
