-- ===== src/Webhooks/Results.antt =====
-- Results of posts, test posts and old deliveries, of modules/notifications/src/destination-service.js.
use nuvrion.Common.{
  ℕ, ◌+◌, ◌*◌, ◌-◌, String, ◌&&◌, ◌||◌, Option, none, some, List, [], ◌∷◌, length, find_by, or_else,
  leb, ◌==◌, get, put, Assoc, if◌then◌else◌,
}
use nuvrion.Webhooks.Rules.{
  Event, Destination, PostResult, Verdict, is_sent, is_failed, again_after, judge,
}
use nuvrion.Webhooks.Queue.{
  pending, sent, failed, is_pending, Status, Delivery, Service, persist, has_id,
}

unfoldable pub status_of : Verdict → Status
status_of is_sent = sent
status_of is_failed = failed
status_of (again_after wait) = pending

-- The delivery with the result of one more attempt. A wait that is undefined, which `judge` gives only
-- for no attempt, would be an error of toISOString; here the time stays.
unfoldable pub judged : PostResult → ℕ → Delivery → Delivery
judged r now d =
    let verdict = judge r (d.attempts + 1) in
    record d {
      attempts = d.attempts + 1;
      status = status_of verdict;
      claimed_until = none;
      response_status = r.status;
      error = if r.ok then none else r.error;
      duration_ms = r.duration_ms;
      sent_at = elim verdict [
        | is_sent ↦ some now
        | is_failed ↦ d.sent_at
        | again_after wait ↦ d.sent_at
      ];
      next_attempt_at = elim verdict [
        | is_sent ↦ d.next_attempt_at
        | is_failed ↦ d.next_attempt_at
        | again_after wait ↦ elim wait [ none ↦ d.next_attempt_at | some ms ↦ now + ms ]
      ];
    }

unfoldable pub noted : PostResult → ℕ → Destination → Destination
noted r now item = record item {
  last_attempt_at = some now;
  consecutive_failures = if r.ok then 0 else item.consecutive_failures + 1;
  last_success_at = if r.ok then some now else item.last_success_at;
  last_error = if r.ok then none else r.error;
}

unfoldable pub note_result : String → PostResult → ℕ → Assoc Destination → Assoc Destination
note_result id r now m = elim (get id m) [ none ↦ m | some item ↦ put id (noted r now item) m ]

-- The first delivery under the identifier is replaced.
unfoldable pub replace_first : String → (Delivery → Delivery) → List Delivery → List Delivery
replace_first id change [] = []
replace_first id change (d ∷ ds) =
    if has_id id d then change d ∷ ds else d ∷ replace_first id change ds

-- recordResult(deliveryId, result, now)
unfoldable pub record_result : String → PostResult → ℕ → Service → Option Delivery × Service
record_result id r now s = elim (find_by (has_id id) s.deliveries) [
  | none ↦ (none, s)
  | some d ↦ (
    some (judged r now d),
    persist (record s {
      deliveries = replace_first id (judged r now) s.deliveries;
      destinations = note_result d.destination_id r now s.destinations;
    }),
  )
]

-- recordTest(destinationId, event, result, now): a test post is recorded as it happened.
unfoldable pub record_test :
    (ℕ → String) → String → Event → PostResult → ℕ → Service → Option Delivery × Service
record_test uuid destination_id e r now s = elim (get destination_id s.destinations) [
  | none ↦ (none, s)
  | some item ↦
      let d : Delivery = record {
        id = uuid s.drawn;
        destination_id = destination_id;
        destination_name = item.name;
        event_id = e.id;
        event_type = "test";
        severity = e.severity;
        title = e.title;
        detail = e.detail;
        occurred_at = now;
        status = if r.ok then sent else failed;
        attempts = 1;
        next_attempt_at = now;
        claimed_until = none;
        response_status = r.status;
        error = if r.ok then none else r.error;
        duration_ms = r.duration_ms;
        created_at = now;
        sent_at = if r.ok then some now else none;
      } in
      (
        some d,
        persist (record s {
          deliveries = d ∷ s.deliveries;
          destinations = put destination_id (noted r now item) s.destinations;
          drawn = s.drawn + 1;
        }),
      )
]

-- LIMITS.deliveriesKept and LIMITS.retentionDays
abbrev pub deliveries_kept : ℕ
deliveries_kept = 200

abbrev retention_ms : ℕ
retention_ms = 30 * 86400000

-- The filter of prune, with the counts of the deliveries of each destination so far.
unfoldable pub keep_recent : ℕ → Assoc ℕ → List Delivery → List Delivery
keep_recent now counts [] = []
keep_recent now counts (d ∷ ds) =
    let count = or_else (get d.destination_id counts) 0 + 1 in
    let rest = keep_recent now (put d.destination_id count counts) ds in
    if is_pending d.status || (leb count deliveries_kept && leb now (d.created_at + retention_ms))
    then d ∷ rest
    else rest

-- prune(now): how many deliveries went.
unfoldable pub prune : ℕ → Service → ℕ × Service
prune now s =
    let kept = keep_recent now [] s.deliveries in
    let s' = record s { deliveries = kept } in
    (
      length s.deliveries - length kept,
      (if length kept == length s.deliveries then s' else persist s'),
    )
