-- ===== src/Webhooks/Dispatcher.antt =====
-- modules/notifications/src/dispatcher.js: one round of queueing and sending, and a test post. The clock shows
-- one time during a round, and the posts of a slice are recorded in their order.
use nuvrion.Common.{
  ℕ, ◌+◌, ◌-◌, ◌*◌, String, text_append, Bool, true, false, Option, none, some, List, [], ◌∷◌,
  filter_by, get, values, if◌then◌else◌,
}
use nuvrion.Common.Results.{Result, ok, err}
use nuvrion.Webhooks.Rules.{Event, Destination, PostResult, wants}
use nuvrion.Webhooks.Queue.{Status, Delivery, Service, enqueue, claim_due}
use nuvrion.Webhooks.Results.{record_result, record_test}

-- LIMITS.perTick
abbrev pub per_tick : ℕ
per_tick = 20

-- WINDOW_MS
abbrev pub window_ms : ℕ
window_ms = 24 * 3600000

-- What the dispatcher is given: the events since a time; a post, which is buildPayload, buildHeaders and send
-- with the destination's secrets, or the first 150 characters of the message of what it throws; the order of names; identifiers.
pub record Means : Type 0 where
  pub events_since : ℕ → List Event
  pub post : Destination → Event → String → Result String PostResult
  pub not_after : String → String → Bool
  pub uuid : ℕ → String
  pub test_event : ℕ → Event

pub record Round : Type 0 where
  pub queued : ℕ
  pub attempted : ℕ
  pub sent_count : ℕ

abbrev pub no_round : Round
no_round = record { queued = 0; attempted = 0; sent_count = 0 }

-- The event that deliver makes of a delivery.
unfoldable pub event_of : Delivery → Event
event_of d = record {
  id = d.event_id;
  type = d.event_type;
  at = d.occurred_at;
  severity = d.severity;
  title = d.title;
  detail = d.detail;
}

-- The result of a post, or of what it threw.
unfoldable pub caught : Result String PostResult → PostResult
caught (ok r) = r
caught (err message) = record {
  ok = false;
  status = none;
  error = some (text_append "The webhook could not be sent: " message);
  duration_ms = none;
}

unfoldable pub is_sent : Status → Bool
is_sent Status.pending = false
is_sent Status.sent = true
is_sent Status.failed = false

-- One more delivery of a round.
unfoldable pub counted : Option Delivery → Round → Round
unfolding is_sent
counted none round = round
counted (some d) round = record round {
  attempted = round.attempted + 1;
  sent_count = if is_sent d.status then round.sent_count + 1 else round.sent_count;
}

module _ (means : Means) where
  -- deliver(delivery)
  unfoldable pub deliver : ℕ → Delivery → Service → Option Delivery × Service
  deliver now d s = elim (get d.destination_id s.destinations) [
    | none ↦ (none, s)
    | some item ↦ record_result d.id (caught (means.post item (event_of d) d.id)) now s
  ]

  unfoldable pub deliver_all : ℕ → List Delivery → Round → Service → Round × Service
  deliver_all now [] round s = (round, s)
  deliver_all now (d ∷ ds) round s =
      let (done, s') = deliver now d s in deliver_all now ds (counted done round) s'

  unfoldable pub insert_by_name : Destination → List Destination → List Destination
  insert_by_name x [] = x ∷ []
  insert_by_name x (y ∷ ys) =
      let rest = insert_by_name x ys in
      if means.not_after x.name y.name then x ∷ y ∷ ys else y ∷ rest

  unfoldable pub sort_by_name : List Destination → List Destination
  sort_by_name [] = []
  sort_by_name (x ∷ xs) = insert_by_name x (sort_by_name xs)

  -- (await destinations.listDestinations()).filter(destination => destination.enabled)
  unfoldable pub active_destinations : Service → List Destination
  active_destinations s = filter_by (λ d. d.enabled) (sort_by_name (values s.destinations))

  -- The loop over the active destinations.
  unfoldable pub queue_all : ℕ → List Event → List Destination → ℕ → Service → ℕ × Service
  queue_all now events [] queued s = (queued, s)
  queue_all now events (d ∷ ds) queued s = elim (filter_by (wants d) events) [
    | [] ↦ queue_all now events ds queued s
    | ◌∷◌ e es ↦
        let (n, s') = enqueue means.uuid d.id (e ∷ es) now s in
        queue_all now events ds (queued + n) s'
  ]

  -- tick()
  unfoldable pub tick : Bool → ℕ → Service → Round × Service
  tick running now s =
      let (queued, s') =
        queue_all now (means.events_since (now - window_ms)) (active_destinations s) 0 s in
      let (due, s'') = claim_due per_tick now s' in
      let done =
        deliver_all now due (record { queued = queued; attempted = 0; sent_count = 0 }) s'' in
      if running then (no_round, s) else done

  -- test(destinationId)
  unfoldable pub test : String → ℕ → Service → Option Delivery × Service
  test destination_id now s = elim (get destination_id s.destinations) [
    | none ↦ (none, s)
    | some item ↦
        let e = means.test_event now in
        record_test means.uuid destination_id e (caught (means.post item e (means.uuid s.drawn)))
          now (record s { drawn = s.drawn + 1 })
  ]
