-- ===== src/Webhooks/Tests.antt =====
-- The theorems about the queue at one destination and one alert.
use nuvrion.Common.{ℕ, zero, suc, arith, ◌≡◌, true, false, none, String, List, [], ◌∷◌, All}
use nuvrion.Common.Json.{text}
use nuvrion.Webhooks.Rules.{warning, critical, Event, Destination, PostResult}
use nuvrion.Webhooks.Queue.{Service, enqueue, claim_due}
use nuvrion.Webhooks.Retries.{Call, enqueues, claims, records, run, IsBounded, run-IsBounded}
use nuvrion.Webhooks.Claims.{IsNew, claim_due-claim_due}
use nuvrion.Webhooks.Enqueue.{enqueue-enqueue}

abbrev tally : ℕ → String
tally zero = ""
tally (suc n) = String.◌∷◌ "b" (tally n)

abbrev chat : Destination
chat = record {
  id = "d1";
  name = "chat";
  events = "alert.fired" ∷ [];
  min_severity = warning;
  enabled = true;
  active_since = 0;
  consecutive_failures = 0;
  last_attempt_at = none;
  last_success_at = none;
  last_error = none;
  format = text "json";
  url_hint = "";
  secret = "";
  has_signing_secret = false;
  row_version = 1;
  created_by = none;
  created_at = 0;
  updated_at = 0;
}

abbrev alert : Event
alert = record {
  id = "e1";
  type = "alert.fired";
  at = 500;
  severity = critical;
  title = b'C' ∷ b'P' ∷ b'U' ∷ [];
  detail = [];
}

abbrev idle : Service
idle = record {
  destinations = ("d1", chat) ∷ [];
  deliveries = [];
  has_file = true;
  disk = none;
  drawn = 1;
}

abbrev refused : PostResult
refused = record { ok = false; status = none; error = none; duration_ms = none }

abbrev evening : List Call
evening =
    enqueues "d1" (alert ∷ []) 1000
    ∷ claims 20 1000
    ∷ records "b" refused 1500
    ∷ claims 20 61500
    ∷ records "b" refused 62000
    ∷ []

run-IsBounded_example : All IsBounded (run tally evening idle).deliveries
run-IsBounded_example = run-IsBounded tally evening idle tt

abbrev waiting : Service
waiting = (enqueue tally "d1" (alert ∷ []) 1000 idle).1

claim_due-claim_due_example :
    All (IsNew (claim_due 20 1000 waiting).0) (claim_due 20 5000 (claim_due 20 1000 waiting).1).0
claim_due-claim_due_example = claim_due-claim_due 20 20 1000 5000 waiting (omega arith)

enqueue-enqueue_example : enqueue tally "d1" (alert ∷ []) 9000 waiting ≡ (0, waiting)
enqueue-enqueue_example = enqueue-enqueue tally "d1" (alert ∷ []) 1000 9000 idle
