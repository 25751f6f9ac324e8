-- ===== src/Webhooks/Rounds.antt =====
-- How much a round of modules/notifications/src/dispatcher.js does.
use nuvrion.Common.{
  ℕ, ◌+◌, ◌-◌, ◌≤◌, ◌≡◌, refl, arith, Bool, true, false, Option, none, some, List, [], ◌∷◌, map,
  length, length-take-le, filter_by,
}
use nuvrion.Webhooks.Queue.{
  Delivery, Service, claimed, claim_due, due_deliveries, sort_by_attempt, is_due,
}
use nuvrion.Webhooks.Dispatcher.{
  Means, Round, per_tick, counted, deliver, deliver_all, queue_all, active_destinations, window_ms,
  tick,
}

counted-le :
    (done : Option Delivery) (round : Round)
    → ((counted done round).attempted ≤ round.attempted + 1)
      × ((counted done round).sent_count + round.attempted
          ≤ (counted done round).attempted + round.sent_count)
unfolding counted
counted-le none round = (omega arith, omega arith)
counted-le (some d) round = ground arith

module _ (means : Means) (now : ℕ) where
  deliver_all-le :
      (due : List Delivery) (round : Round) (s : Service)
      → round.sent_count ≤ round.attempted
      → ((deliver_all means now due round s).0.attempted ≤ round.attempted + length due)
        × ((deliver_all means now due round s).0.sent_count
            ≤ (deliver_all means now due round s).0.attempted)
  unfolding deliver_all
  deliver_all-le [] round s h = (omega arith, h)
  deliver_all-le (d ∷ ds) round s h =
      let (one, more) = counted-le (deliver means now d s).0 round in
      let (a, b) =
        deliver_all-le ds (counted (deliver means now d s).0 round) (deliver means now d s).1
          (omega (arith, more, h)) in
      ((omega (arith, a, one)), b)

  length-map : (ds : List Delivery) → length (map (claimed now) ds) ≡ length ds
  length-map [] = refl
  length-map (d ∷ ds) = omega (arith, length-map ds)

  length-claim_due : (n : ℕ) (s : Service) → length (claim_due n now s).0 ≤ n
  unfolding claim_due due_deliveries
  length-claim_due n s = omega (
    arith,
    length-map (due_deliveries n now s),
    length-take-le n (sort_by_attempt (filter_by (is_due s.destinations now) s.deliveries)),
  )

-- A round attempts at most 20 deliveries, and sends at most as many as it attempts.
pub tick-bounded :
    (means : Means) (running : Bool) (now : ℕ) (s : Service)
    → ((tick means running now s).0.attempted ≤ per_tick)
      × ((tick means running now s).0.sent_count ≤ (tick means running now s).0.attempted)
unfolding tick
tick-bounded means true now s = (omega arith, omega arith)
tick-bounded means false now s =
    let ready =
      queue_all means now (means.events_since (now - window_ms)) (active_destinations means s) 0
        s in
    let (a, b) =
      deliver_all-le means now (claim_due per_tick now ready.1).0
        (record { queued = ready.0; attempted = 0; sent_count = 0 })
        (claim_due per_tick now ready.1).1 (omega arith) in
    ((omega (arith, a, length-claim_due means now per_tick ready.1)), b)
