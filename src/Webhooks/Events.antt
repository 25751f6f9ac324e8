-- ===== src/Webhooks/Events.antt =====
-- collectEvents of modules/notifications/src/webhook-rules.js: the events of the notification feed and of the runs of
-- schedules. Their times are numbers, which the texts of toISOString, all of one length, are compared as.
use nuvrion.Common.{
  ℕ, String, text_append, Bool, Option, none, some, List, [], ◌∷◌, ◌++◌, map, any, filter_by,
  sort_by, or_else, str_eq, ltb, leb, if◌then◌else◌,
}
use nuvrion.Common.Text.{codes}
use nuvrion.Webhooks.Rules.{Severity, warning, critical, Event}

-- An event of the feed; a text that is undefined is `none`.
pub record FeedItem : Type 0 where
  pub id : String
  pub kind : String
  pub at : ℕ
  pub source : String
  pub severity : String
  pub title : Option (List ℕ)
  pub detail : Option (List ℕ)

-- A run of a schedule.
pub record Run : Type 0 where
  pub id : String
  pub outcome : String
  pub started_at : ℕ
  pub schedule_name : Option (List ℕ)
  pub summary : Option (List ℕ)

unfoldable pub type_of : FeedItem → String
type_of item =
    let resolved = str_eq item.kind "resolved" in
    if str_eq item.source "connection"
    then (if resolved then "connection.recovered" else "connection.down")
    else (if resolved then "alert.resolved" else "alert.fired")

-- x ? critical : warning
unfoldable pub severity_if : Bool → Severity
severity_if b = if b then critical else warning

unfoldable pub event_of_item : FeedItem → Event
unfolding type_of severity_if
event_of_item item = record {
  id = item.id;
  type = type_of item;
  at = item.at;
  severity = severity_if (str_eq item.severity "critical");
  title = or_else item.title [];
  detail = or_else item.detail [];
}

-- The label of an outcome that is a problem.
unfoldable pub label_of : String → Option String
label_of outcome =
    if str_eq outcome "partial"
    then some "partly failed"
    else if str_eq outcome "failed"
    then some "failed"
    else if str_eq outcome "error"
    then some "could not run"
    else if str_eq outcome "missed"
    then some "was missed"
    else none

-- run.summary ? `: ${run.summary}` : ''
unfoldable pub summary_part : Option (List ℕ) → List ℕ
summary_part none = []
summary_part (some []) = []
summary_part (some (c ∷ cs)) = codes ": " ++ c ∷ cs

unfoldable pub event_of_run : Run → String → Event
unfolding severity_if summary_part
event_of_run run label = record {
  id = text_append "schedule-run:" run.id;
  type = "schedule.problem";
  at = run.started_at;
  severity = severity_if (any (str_eq run.outcome) ("failed" ∷ "error" ∷ []));
  title = or_else run.schedule_name (codes "A schedule");
  detail = codes "The scheduled run " ++ codes label ++ summary_part run.summary;
}

unfoldable pub events_of_runs : List Run → List Event
unfolding label_of event_of_run
events_of_runs [] = []
events_of_runs (run ∷ runs) = elim (label_of run.outcome) [
  | none ↦ events_of_runs runs
  | some label ↦ event_of_run run label ∷ events_of_runs runs
]

-- collectEvents({ feed, runs, since })
unfoldable pub collect_events : List FeedItem → List Run → ℕ → List Event
unfolding event_of_item events_of_runs sort_by
collect_events feed runs since =
    sort_by (λ a b. ltb b.at a.at)
      (filter_by (λ e. leb since e.at) (map event_of_item feed ++ events_of_runs runs))
