-- ===== src/Webhooks/Enqueue.antt =====
-- An event is queued once for a destination.
use nuvrion.Common.{
  ℕ, ◌+◌, ◌≡◌, String, refl, sym, subst, true, false, none, some, List, [], ◌∷◌, any, arith, All,
  leb, get, Bool-cases, Option-cases, inl, inr, eq_refl,
}
use nuvrion.Webhooks.Rules.{Event, Destination}
use nuvrion.Webhooks.Queue.{
  Delivery, Service, persist, new_delivery, enqueue_events, enqueue, is_queued_for,
}

-- Each event has a delivery to the destination.
abbrev AllQueued : String → List Event → List Delivery → Type 0
AllQueued id es ds = All (λ e. any (is_queued_for id e) ds ≡ true) es

module _ (uuid : ℕ → String) (item : Destination) (id : String) (now : ℕ) where
  new_delivery-queued :
      (e : Event) (ds : List Delivery) (drawn : ℕ)
      → any (is_queued_for id e) (new_delivery uuid item id e drawn now ∷ ds) ≡ true
  unfolding new_delivery is_queued_for
  new_delivery-queued e ds drawn = rw (eq_refl id, eq_refl e.id) refl

  -- What is queued stays queued.
  enqueue_events-kept :
      (e : Event) (es : List Event) (ds : List Delivery) (drawn : ℕ)
      → any (is_queued_for id e) ds ≡ true
      → any (is_queued_for id e) (enqueue_events uuid item id now es ds drawn).1.0 ≡ true
  unfolding enqueue_events
  enqueue_events-kept e [] ds drawn h = h
  enqueue_events-kept e (x ∷ es) ds drawn h = elim (Bool-cases (any (is_queued_for id x) ds)) [
    | inl q ↦ rw q (enqueue_events-kept e es ds drawn h)
    | inr q ↦ rw q (
        enqueue_events-kept e es (new_delivery uuid item id x drawn now ∷ ds) (drawn + 1)
          (ground arith))
  ]

  enqueue_events-skip :
      (e : Event) (es : List Event) (ds : List Delivery) (drawn : ℕ)
      → any (is_queued_for id e) ds ≡ true
      → (enqueue_events uuid item id now (e ∷ es) ds drawn).1
        ≡ (enqueue_events uuid item id now es ds drawn).1
  unfolding enqueue_events
  enqueue_events-skip e es ds drawn q = rw q refl

  enqueue_events-add :
      (e : Event) (es : List Event) (ds : List Delivery) (drawn : ℕ)
      → any (is_queued_for id e) ds ≡ false
      → (enqueue_events uuid item id now (e ∷ es) ds drawn).1
        ≡ (enqueue_events uuid item id now es
            (new_delivery uuid item id e drawn now ∷ ds)
            (drawn + 1)).1
  unfolding enqueue_events
  enqueue_events-add e es ds drawn q = rw q refl

  enqueue_events-AllQueued :
      (es : List Event) (ds : List Delivery) (drawn : ℕ)
      → AllQueued id es (enqueue_events uuid item id now es ds drawn).1.0
  enqueue_events-AllQueued [] ds drawn = tt
  enqueue_events-AllQueued (e ∷ es) ds drawn = elim (Bool-cases (any (is_queued_for id e) ds)) [
    | inl q ↦
        subst (λ v. AllQueued id (e ∷ es) v.0) (sym (enqueue_events-skip e es ds drawn q))
          (enqueue_events-kept e es ds drawn q, enqueue_events-AllQueued es ds drawn)
    | inr q ↦
        subst (λ v. AllQueued id (e ∷ es) v.0) (sym (enqueue_events-add e es ds drawn q))
          (
            enqueue_events-kept e es (new_delivery uuid item id e drawn now ∷ ds) (drawn + 1)
                (new_delivery-queued e ds drawn),
            enqueue_events-AllQueued es (new_delivery uuid item id e drawn now ∷ ds) (drawn + 1),
          )
  ]

  enqueue_events-AllQueued_same :
      (es : List Event) (ds : List Delivery) (drawn : ℕ)
      → AllQueued id es ds
      → enqueue_events uuid item id now es ds drawn ≡ (0, (ds, drawn))
  unfolding enqueue_events
  enqueue_events-AllQueued_same [] ds drawn h = refl
  enqueue_events-AllQueued_same (e ∷ es) ds drawn h =
      rw h.0 (enqueue_events-AllQueued_same es ds drawn h.1)

enqueue-known :
    (uuid : ℕ → String) (id : String) (es : List Event) (now : ℕ) (s : Service)
    → AllQueued id es s.deliveries
    → enqueue uuid id es now s ≡ (0, s)
unfolding enqueue
enqueue-known uuid id es now s h = elim (Option-cases (get id s.destinations)) [
  | inl e ↦ rw (e, enqueue) refl
  | inr (item, e) ↦
      rw (e, enqueue, enqueue_events-AllQueued_same uuid item id now es s.deliveries s.drawn h) refl
]

enqueue-missing :
    (uuid : ℕ → String) (id : String) (es : List Event) (now : ℕ) (s : Service)
    → get id s.destinations ≡ none
    → enqueue uuid id es now s ≡ (0, s)
unfolding enqueue
enqueue-missing uuid id es now s e = rw (e, enqueue) refl

enqueue-AllQueued :
    (uuid : ℕ → String) (id : String) (es : List Event) (now : ℕ) (s : Service) (item : Destination)
    → get id s.destinations ≡ some item
    → AllQueued id es (enqueue uuid id es now s).1.deliveries
unfolding enqueue persist
enqueue-AllQueued uuid id es now s item e =
    let queued = enqueue_events uuid item id now es s.deliveries s.drawn in
    let all = enqueue_events-AllQueued uuid item id now es s.deliveries s.drawn in
    elim (Bool-cases (leb 1 queued.0)) [
      | inl n ↦ rw (e, enqueue, n) all
      | inr n ↦ rw (e, enqueue, n) all
    ]

-- The same events queued again for the same destination, at whatever time: none is queued, and nothing
-- changes.
pub enqueue-enqueue :
    (uuid : ℕ → String) (id : String) (es : List Event) (now later : ℕ) (s : Service)
    → enqueue uuid id es later (enqueue uuid id es now s).1 ≡ (0, (enqueue uuid id es now s).1)
enqueue-enqueue uuid id es now later s = elim (Option-cases (get id s.destinations)) [
  | inl e ↦ rw (enqueue-missing uuid id es now s e) (enqueue-missing uuid id es later s e)
  | inr (item, e) ↦ enqueue-known uuid id es later _ (enqueue-AllQueued uuid id es now s item e)
]
