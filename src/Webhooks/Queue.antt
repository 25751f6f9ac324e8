-- ===== src/Webhooks/Queue.antt =====
-- The queue of deliveries of modules/notifications/src/destination-service.js. Times are milliseconds; the
-- text forms of toISOString and Date.parse are inverse on them, and sort as the times do.
use nuvrion.Common.{
  ℕ, ◌+◌, String, Bool, true, false, ◌&&◌, Option, none, some, List, [], ◌∷◌, take, map, any,
  filter_by, str_eq, leb, get, Assoc, if◌then◌else◌,
}
use nuvrion.Webhooks.Rules.{Severity, Event, Destination}

pub data Status : Type 0 where
  pending sent failed : Status

unfoldable pub is_pending : Status → Bool
is_pending pending = true
is_pending sent = false
is_pending failed = false

pub record Delivery : Type 0 where
  pub id : String
  pub destination_id : String
  pub destination_name : String
  pub event_id : String
  pub event_type : String
  pub severity : Severity
  pub title : List ℕ
  pub detail : List ℕ
  pub occurred_at : ℕ
  pub status : Status
  pub attempts : ℕ
  pub next_attempt_at : ℕ
  pub claimed_until : Option ℕ
  pub response_status : Option ℕ
  pub error : Option String
  pub duration_ms : Option ℕ
  pub created_at : ℕ
  pub sent_at : Option ℕ

-- DestinationService: the two collections, what the file holds, and how many identifiers were drawn.
pub record Service : Type 0 where
  pub destinations : Assoc Destination
  pub deliveries : List Delivery
  pub has_file : Bool
  pub disk : Option (Assoc Destination × List Delivery)
  pub drawn : ℕ

-- #persist()
unfoldable pub persist : Service → Service
persist s = record s { disk = if s.has_file then some (s.destinations, s.deliveries) else s.disk }

-- delivery.destinationId === destinationId && delivery.eventId === event.id
unfoldable pub is_queued_for : String → Event → Delivery → Bool
is_queued_for destination_id e d = str_eq d.destination_id destination_id && str_eq d.event_id e.id

module _ (uuid : ℕ → String) where
  unfoldable pub new_delivery : Destination → String → Event → ℕ → ℕ → Delivery
  new_delivery item destination_id e drawn now = record {
    id = uuid drawn;
    destination_id = destination_id;
    destination_name = item.name;
    event_id = e.id;
    event_type = e.type;
    severity = e.severity;
    title = take 300 e.title;
    detail = take 1000 e.detail;
    occurred_at = e.at;
    status = pending;
    attempts = 0;
    next_attempt_at = now;
    claimed_until = none;
    response_status = none;
    error = none;
    duration_ms = none;
    created_at = now;
    sent_at = none;
  }

  -- The loop of enqueue: how many were queued, and the deliveries with the identifiers drawn.
  unfoldable pub enqueue_events :
      Destination → String → ℕ → List Event → List Delivery → ℕ → ℕ × (List Delivery × ℕ)
  enqueue_events item destination_id now [] ds drawn = (0, (ds, drawn))
  enqueue_events item destination_id now (e ∷ es) ds drawn =
      let skipped = enqueue_events item destination_id now es ds drawn in
      let (n, rest) =
        enqueue_events item destination_id now es
          (new_delivery item destination_id e drawn now ∷ ds) (drawn + 1) in
      if any (is_queued_for destination_id e) ds then skipped else (n + 1, rest)

  -- enqueue(destinationId, events, now)
  unfoldable pub enqueue : String → List Event → ℕ → Service → ℕ × Service
  enqueue destination_id events now s = elim (get destination_id s.destinations) [
    | none ↦ (0, s)
    | some item ↦
        let (n, (ds, drawn)) = enqueue_events item destination_id now events s.deliveries s.drawn in
        let s' = record s { deliveries = ds; drawn = drawn } in
        (n, (if leb 1 n then persist s' else s'))
  ]

-- The delivery is to be sent, its time has come, nobody has claimed it, and its destination is on.
unfoldable pub is_due : Assoc Destination → ℕ → Delivery → Bool
is_due destinations now d =
    is_pending d.status
    && (leb d.next_attempt_at now
        && ((elim d.claimed_until [ none ↦ true | some until ↦ leb until now ])
            && (elim (get d.destination_id destinations) [
              | none ↦ false
              | some item ↦ item.enabled
            ])))

-- Stable insertion by the time of the next attempt, as Array.prototype.sort does.
unfoldable pub insert_by_attempt : Delivery → List Delivery → List Delivery
insert_by_attempt d [] = d ∷ []
insert_by_attempt d (x ∷ xs) =
    if leb d.next_attempt_at x.next_attempt_at then d ∷ x ∷ xs else x ∷ insert_by_attempt d xs

unfoldable pub sort_by_attempt : List Delivery → List Delivery
sort_by_attempt [] = []
sort_by_attempt (d ∷ ds) = insert_by_attempt d (sort_by_attempt ds)

abbrev pub has_id : String → Delivery → Bool
has_id id d = str_eq d.id id

abbrev pub claim_ms : ℕ
claim_ms = 120000

unfoldable pub claimed : ℕ → Delivery → Delivery
claimed now d = record d { claimed_until = some (now + claim_ms) }

unfoldable pub due_deliveries : ℕ → ℕ → Service → List Delivery
due_deliveries limit now s =
    take limit (sort_by_attempt (filter_by (is_due s.destinations now) s.deliveries))

-- claimDue(limit, now): each claimed delivery is changed where it stands, found by its identifier.
unfoldable pub claim_due : ℕ → ℕ → Service → List Delivery × Service
claim_due limit now s =
    let due = due_deliveries limit now s in
    let marked = map (λ d. if any (has_id d.id) due then claimed now d else d) s.deliveries in
    let s' = record s { deliveries = marked } in
    (map (claimed now) due, elim due [ [] ↦ s' | d ∷ rest ↦ persist s' ])
