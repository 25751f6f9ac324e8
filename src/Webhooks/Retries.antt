-- ===== src/Webhooks/Retries.antt =====
-- How often a delivery is tried.
use nuvrion.Common.{
  ℕ, ◌+◌, ◌≡◌, String, refl, true, false, Bool, List, [], ◌∷◌, map, any, arith, All, leb, ltb, get,
  put, length, ◌==◌, or_else, Assoc, find_by, Bool-cases, Option-cases, inl, inr, implies,
  if◌then◌else◌,
}
use nuvrion.Webhooks.Rules.{Event, Destination, PostResult, max_attempts, judge}
use nuvrion.Webhooks.Queue.{
  Delivery, Service, is_pending, sent, failed, persist, new_delivery, enqueue_events, enqueue,
  is_queued_for, due_deliveries, has_id, claimed, claim_due,
}
use nuvrion.Webhooks.Results.{
  judged, replace_first, record_result, record_test, keep_recent, prune, status_of,
}

-- The calls that change the queue.
pub data Call : Type 0 where
  enqueues : String → List Event → ℕ → Call
  claims : ℕ → ℕ → Call
  records : String → PostResult → ℕ → Call
  tests : String → Event → PostResult → ℕ → Call
  prunes : ℕ → Call

unfoldable pub step : (ℕ → String) → Call → Service → Service
step uuid (enqueues id es now) s = (enqueue uuid id es now s).1
step uuid (claims limit now) s = (claim_due limit now s).1
step uuid (records id r now) s = (record_result id r now s).1
step uuid (tests id e r now) s = (record_test uuid id e r now s).1
step uuid (prunes now) s = (prune now s).1

unfoldable pub run : (ℕ → String) → List Call → Service → Service
run uuid [] s = s
run uuid (c ∷ cs) s = run uuid cs (step uuid c s)

-- A delivery that waits has been tried fewer than six times.
abbrev pub IsBounded : Delivery → Type 0
IsBounded d = implies (is_pending d.status) (ltb d.attempts max_attempts) ≡ true

judged-IsBounded : (r : PostResult) (now : ℕ) (d : Delivery) → IsBounded (judged r now d)
unfolding judged judge status_of is_pending
judged-IsBounded r now d = ground arith

enqueue_events-IsBounded :
    (uuid : ℕ → String) (item : Destination) (id : String) (now : ℕ) (es : List Event)
    (ds : List Delivery) (drawn : ℕ)
    → All IsBounded ds
    → All IsBounded (enqueue_events uuid item id now es ds drawn).1.0
unfolding enqueue_events new_delivery is_pending
enqueue_events-IsBounded uuid item id now [] ds drawn h = h
enqueue_events-IsBounded uuid item id now (e ∷ es) ds drawn h =
    elim (Bool-cases (any (is_queued_for id e) ds)) [
      | inl q ↦ rw q (enqueue_events-IsBounded uuid item id now es ds drawn h)
      | inr q ↦ rw q (
          enqueue_events-IsBounded uuid item id now es (new_delivery uuid item id e drawn now ∷ ds)
            (drawn + 1) (refl, h))
    ]

replace_first-IsBounded :
    (id : String) (r : PostResult) (now : ℕ) (ds : List Delivery)
    → All IsBounded ds
    → All IsBounded (replace_first id (judged r now) ds)
unfolding replace_first
replace_first-IsBounded id r now [] h = h
replace_first-IsBounded id r now (d ∷ ds) h = elim (Bool-cases (has_id id d)) [
  | inl q ↦ rw (q, replace_first) (judged-IsBounded r now d, h.1)
  | inr q ↦ rw (q, replace_first) (h.0, replace_first-IsBounded id r now ds h.1)
]

marked-IsBounded :
    (now : ℕ) (due ds : List Delivery)
    → All IsBounded ds
    → All IsBounded (map (λ d. if any (has_id d.id) due then claimed now d else d) ds)
unfolding claimed
marked-IsBounded now due [] h = h
marked-IsBounded now due (d ∷ ds) h =
    (mark (any (has_id d.id) due), marked-IsBounded now due ds h.1)
  where
    mark : (b : Bool) → IsBounded (if b then claimed now d else d)
    mark true = h.0
    mark false = h.0

with_first :
    (d : Delivery) (ds : List Delivery) (b : Bool)
    → IsBounded d
    → All IsBounded ds
    → All IsBounded (if b then d ∷ ds else ds)
with_first d ds true h hs = (h, hs)
with_first d ds false h hs = hs

keep_recent-IsBounded :
    (now : ℕ) (counts : Assoc ℕ) (ds : List Delivery)
    → All IsBounded ds
    → All IsBounded (keep_recent now counts ds)
unfolding keep_recent
keep_recent-IsBounded now counts [] h = h
keep_recent-IsBounded now counts (d ∷ ds) h = with_first d _ _ h.0 (
    keep_recent-IsBounded now
      (put d.destination_id (or_else (get d.destination_id counts) 0 + 1) counts) ds h.1)

enqueue-IsBounded :
    (uuid : ℕ → String) (id : String) (es : List Event) (now : ℕ) (s : Service)
    → All IsBounded s.deliveries
    → All IsBounded (enqueue uuid id es now s).1.deliveries
unfolding enqueue persist
enqueue-IsBounded uuid id es now s h = elim (Option-cases (get id s.destinations)) [
  | inl e ↦ rw (e, enqueue) h
  | inr (item, e) ↦
      let queued = enqueue_events uuid item id now es s.deliveries s.drawn in
      let bounded = enqueue_events-IsBounded uuid item id now es s.deliveries s.drawn h in
      elim (Bool-cases (leb 1 queued.0)) [
        | inl n ↦ rw (e, enqueue, n) bounded
        | inr n ↦ rw (e, enqueue, n) bounded
      ]
]

claim_due-IsBounded :
    (limit now : ℕ) (s : Service)
    → All IsBounded s.deliveries
    → All IsBounded (claim_due limit now s).1.deliveries
unfolding claim_due persist
claim_due-IsBounded limit now s h =
    by_due _ (due_deliveries limit now s) (marked-IsBounded now _ s.deliveries h)
  where
    by_due :
        (u : Service) (xs : List Delivery)
        → All IsBounded u.deliveries
        → All IsBounded (elim xs as (λ x. Service) [ [] ↦ u | d ∷ rest ↦ persist u ]).deliveries
    by_due u [] b = b
    by_due u (x ∷ xs) b = b

record_result-IsBounded :
    (id : String) (r : PostResult) (now : ℕ) (s : Service)
    → All IsBounded s.deliveries
    → All IsBounded (record_result id r now s).1.deliveries
unfolding record_result persist
record_result-IsBounded id r now s h = elim (Option-cases (find_by (has_id id) s.deliveries)) [
  | inl e ↦ rw (e, record_result) h
  | inr (d, e) ↦ rw (e, record_result) (replace_first-IsBounded id r now s.deliveries h)
]

record_test-IsBounded :
    (uuid : ℕ → String) (id : String) (e : Event) (r : PostResult) (now : ℕ) (s : Service)
    → All IsBounded s.deliveries
    → All IsBounded (record_test uuid id e r now s).1.deliveries
unfolding record_test persist is_pending
record_test-IsBounded uuid id ev r now s h = elim (Option-cases (get id s.destinations)) [
  | inl e ↦ rw (e, record_test) h
  | inr (item, e) ↦ rw (e, record_test) (settled r.ok, h)
]
  where
    settled : (ok : Bool) → implies (is_pending (if ok then sent else failed)) true ≡ true
    settled true = refl
    settled false = refl

prune-IsBounded :
    (now : ℕ) (s : Service) → All IsBounded s.deliveries → All IsBounded (prune now s).1.deliveries
unfolding prune persist
prune-IsBounded now s h =
    let kept = keep_recent-IsBounded now [] s.deliveries h in
    elim (Bool-cases (length (keep_recent now [] s.deliveries) == length s.deliveries)) [
      | inl e ↦ rw (e, prune) kept
      | inr e ↦ rw (e, prune) kept
    ]

step-IsBounded :
    (uuid : ℕ → String) (c : Call) (s : Service)
    → All IsBounded s.deliveries
    → All IsBounded (step uuid c s).deliveries
unfolding step
step-IsBounded uuid (enqueues id es now) s h = enqueue-IsBounded uuid id es now s h
step-IsBounded uuid (claims limit now) s h = claim_due-IsBounded limit now s h
step-IsBounded uuid (records id r now) s h = record_result-IsBounded id r now s h
step-IsBounded uuid (tests id e r now) s h = record_test-IsBounded uuid id e r now s h
step-IsBounded uuid (prunes now) s h = prune-IsBounded now s h

-- After any history of calls, from a queue where every delivery that waits was tried fewer than six
-- times, it is so again.
pub run-IsBounded :
    (uuid : ℕ → String) (cs : List Call) (s : Service)
    → All IsBounded s.deliveries
    → All IsBounded (run uuid cs s).deliveries
unfolding run
run-IsBounded uuid [] s h = h
run-IsBounded uuid (c ∷ cs) s h = run-IsBounded uuid cs (step uuid c s) (step-IsBounded uuid c s h)
