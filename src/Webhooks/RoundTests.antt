-- ===== src/Webhooks/RoundTests.antt =====
-- A round of the dispatcher over one destination and one event.
use nuvrion.Common.{ℕ, ◌≤◌, ◌≡◌, refl, String, true, false, none, some, List, [], ◌∷◌}
use nuvrion.Common.Results.{ok}
use nuvrion.Common.Json.{text}
use nuvrion.Webhooks.Rules.{warning, critical, Event, Destination}
use nuvrion.Webhooks.Queue.{Service}
use nuvrion.Webhooks.Dispatcher.{Means, Round, per_tick, tick}

abbrev chat : Destination
chat = record {
  id = "d1";
  name = "chat";
  events = "alert.fired" ∷ [];
  min_severity = warning;
  enabled = true;
  active_since = 0;
  consecutive_failures = 0;
  last_attempt_at = none;
  last_success_at = none;
  last_error = none;
  format = text "json";
  url_hint = "";
  secret = "";
  has_signing_secret = false;
  row_version = 1;
  created_by = none;
  created_at = 0;
  updated_at = 0;
}

abbrev alert : Event
alert = record {
  id = "e1";
  type = "alert.fired";
  at = 500;
  severity = critical;
  title = [];
  detail = [];
}

abbrev idle : Service
idle = record {
  destinations = ("d1", chat) ∷ [];
  deliveries = [];
  has_file = false;
  disk = none;
  drawn = 0;
}

abbrev means : Means
means = record {
  events_since = λ from. alert ∷ [];
  post =
      λ d e id. ok (record { ok = true; status = some 200; error = none; duration_ms = some 12 });
  not_after = λ a b. true;
  uuid = λ n. "v1";
  test_event = λ at. alert;
}

one_sent : (tick means false 1000 idle).0 ≡ record { queued = 1; attempted = 1; sent_count = 1 }
unfolding tick nuvrion.Webhooks.Dispatcher.deliver_all nuvrion.Webhooks.Dispatcher.deliver
    nuvrion.Webhooks.Dispatcher.queue_all nuvrion.Webhooks.Dispatcher.active_destinations
    nuvrion.Webhooks.Dispatcher.sort_by_name nuvrion.Webhooks.Dispatcher.insert_by_name
    nuvrion.Webhooks.Dispatcher.counted nuvrion.Webhooks.Dispatcher.is_sent
    nuvrion.Webhooks.Dispatcher.caught nuvrion.Webhooks.Dispatcher.event_of
    nuvrion.Webhooks.Queue.enqueue nuvrion.Webhooks.Queue.enqueue_events
    nuvrion.Webhooks.Queue.new_delivery nuvrion.Webhooks.Queue.claim_due
    nuvrion.Webhooks.Queue.due_deliveries nuvrion.Webhooks.Queue.sort_by_attempt
    nuvrion.Webhooks.Queue.insert_by_attempt nuvrion.Webhooks.Queue.is_due
    nuvrion.Webhooks.Queue.claimed nuvrion.Webhooks.Queue.persist nuvrion.Webhooks.Queue.is_pending
    nuvrion.Webhooks.Queue.is_queued_for nuvrion.Webhooks.Results.record_result
    nuvrion.Webhooks.Results.judged nuvrion.Webhooks.Results.status_of
    nuvrion.Webhooks.Results.note_result nuvrion.Webhooks.Results.noted
    nuvrion.Webhooks.Results.replace_first nuvrion.Webhooks.Rules.judge nuvrion.Webhooks.Rules.wants
    nuvrion.Webhooks.Rules.rank nuvrion.Common.values nuvrion.Common.get nuvrion.Common.put
one_sent = refl
