-- ===== src/Webhooks/Claims.antt =====
-- Who may send a delivery, and how often an event is queued.
use nuvrion.Common.{
  ℕ, ◌+◌, ◌<◌, ◌≡◌, String, refl, false, List, [], ◌∷◌, map, any, arith, All, leb, take, filter_by,
  Bool-cases, inl, inr, Assoc, if◌then◌else◌, zero, suc,
}
use nuvrion.Webhooks.Rules.{Destination}
use nuvrion.Webhooks.Queue.{
  Delivery, Service, persist, is_due, insert_by_attempt, sort_by_attempt, due_deliveries, has_id,
  claimed, claim_ms, claim_due,
}

module _ (P : Delivery → Type 0) where
  All-take : (n : ℕ) (ds : List Delivery) → All P ds → All P (take n ds)
  All-take zero ds h = tt
  All-take (suc n) [] h = tt
  All-take (suc n) (d ∷ ds) h = (h.0, All-take n ds h.1)

  All-insert_by_attempt :
      (d : Delivery) (ds : List Delivery) → P d → All P ds → All P (insert_by_attempt d ds)
  unfolding insert_by_attempt
  All-insert_by_attempt d [] p h = (p, tt)
  All-insert_by_attempt d (x ∷ xs) p h =
      elim (Bool-cases (leb d.next_attempt_at x.next_attempt_at)) [
        | inl e ↦ rw (e, insert_by_attempt) (p, h)
        | inr e ↦ rw (e, insert_by_attempt) (h.0, All-insert_by_attempt d xs p h.1)
      ]

  All-sort_by_attempt : (ds : List Delivery) → All P ds → All P (sort_by_attempt ds)
  unfolding sort_by_attempt
  All-sort_by_attempt [] h = tt
  All-sort_by_attempt (d ∷ ds) h =
      All-insert_by_attempt d (sort_by_attempt ds) h.0 (All-sort_by_attempt ds h.1)

-- No delivery of the list is among those that `due` names.
abbrev pub IsNew : List Delivery → Delivery → Type 0
IsNew due d = any (has_id d.id) due ≡ false

-- A delivery that is claimed is not due again until the claim ends.
claimed-not_due :
    (m : Assoc Destination) (now later : ℕ) (d : Delivery)
    → later < now + claim_ms
    → is_due m later (claimed now d) ≡ false
unfolding is_due claimed
claimed-not_due m now later d h = ground arith

due-IsNew :
    (m : Assoc Destination) (now later : ℕ) (due ds : List Delivery)
    → later < now + claim_ms
    → All (IsNew due) (
        filter_by
          (is_due m later)
          (map (λ d. if any (has_id d.id) due then claimed now d else d) ds))
unfolding claimed
due-IsNew m now later due [] h = tt
due-IsNew m now later due (d ∷ ds) h = elim (Bool-cases (any (has_id d.id) due)) [
  | inl e ↦ rw (e, claimed-not_due m now later d h) (due-IsNew m now later due ds h)
  | inr e ↦ elim (Bool-cases (is_due m later d)) [
    | inl q ↦ rw (e, q) (e, due-IsNew m now later due ds h)
    | inr q ↦ rw (e, q) (due-IsNew m now later due ds h)
  ]
]

written_collections :
    (xs : List Delivery) (u : Service)
    → ((elim xs as (λ x. Service) [ [] ↦ u | d ∷ rest ↦ persist u ]).deliveries ≡ u.deliveries)
      × ((elim xs as (λ x. Service) [ [] ↦ u | d ∷ rest ↦ persist u ]).destinations
          ≡ u.destinations)
unfolding persist
written_collections [] u = (refl, refl)
written_collections (x ∷ xs) u = (refl, refl)

claim_due-collections :
    (limit now : ℕ) (s : Service)
    → ((claim_due limit now s).1.deliveries
        ≡ map
            (λ d. if any (has_id d.id) (due_deliveries limit now s) then claimed now d else d)
            s.deliveries)
      × ((claim_due limit now s).1.destinations ≡ s.destinations)
unfolding claim_due
claim_due-collections limit now s = written_collections (due_deliveries limit now s) _

-- The deliveries that are due after a claim.
due_deliveries-claim_due :
    (limit more now later : ℕ) (s : Service)
    → later < now + claim_ms
    → All (IsNew (due_deliveries limit now s)) (due_deliveries more later (claim_due limit now s).1)
unfolding due_deliveries
due_deliveries-claim_due limit more now later s h =
    let (deliveries, destinations) = claim_due-collections limit now s in
    let due = due_deliveries limit now s in
    rw (deliveries, destinations)
      (All-take (IsNew due) more _
        (All-sort_by_attempt (IsNew due) _ (due-IsNew s.destinations now later due s.deliveries h)))

any-claimed :
    (id : String) (now : ℕ) (due : List Delivery)
    → any (has_id id) (map (claimed now) due) ≡ any (has_id id) due
unfolding claimed
any-claimed id now [] = refl
any-claimed id now (d ∷ ds) = rw (any-claimed id now ds) refl

All-claimed :
    (now later : ℕ) (due ds : List Delivery)
    → All (IsNew due) ds
    → All (IsNew (map (claimed now) due)) (map (claimed later) ds)
unfolding claimed
All-claimed now later due [] h = tt
All-claimed now later due (d ∷ ds) h =
    (rw (any-claimed d.id now due) h.0, All-claimed now later due ds h.1)

-- A claim on the state that a first claim left, with nothing in between and within two minutes of it, gets none of
-- the deliveries that the first one got, however many each of them may get.
pub claim_due-claim_due :
    (limit more now later : ℕ) (s : Service)
    → later < now + claim_ms
    → All (IsNew (claim_due limit now s).0) (claim_due more later (claim_due limit now s).1).0
unfolding claim_due
claim_due-claim_due limit more now later s h =
    All-claimed now later (due_deliveries limit now s)
      (due_deliveries more later (claim_due limit now s).1)
      (due_deliveries-claim_due limit more now later s h)
