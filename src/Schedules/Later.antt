-- ===== src/Schedules/Later.antt =====
-- When schedules run next: what modules/tasks/src/schedule-rules.js and schedule-service.js make of it.
use nuvrion.Common.{
  ℕ, zero, suc, ◌+◌, ◌<◌, ◌≡◌, refl, subst, arith, Bool, true, false, Option, none, some, List, [],
  ◌∷◌, ltb, leb, length, Assoc, Bool-cases, Option-cases, inl, inr, if◌then◌else◌,
}
use nuvrion.Schedules.When.{
  Day, Calendar, Timing, local_to_utc, next_day, next_run, next_runs, is_once,
}
use nuvrion.Schedules.Store.{
  Schedule, ScheduleService, Claim, persist, due_at, advanced, claim_all, claim_due,
}

-- Nothing, or a time after this one.
abbrev pub IsLater : ℕ → Option ℕ → Type 0
IsLater after none = Unit
IsLater after (some at) = after < at

-- Times in order, all after this one.
abbrev pub Ascends : ℕ → List ℕ → Type 0
Ascends after [] = Unit
Ascends after (at ∷ rest) = (after < at) × Ascends at rest

module _ (calendar : Calendar) where
  pick-IsLater :
      (skipped : Bool) (after at : ℕ) (later : Option ℕ)
      → IsLater after later
      → IsLater after (if skipped then later else (if ltb after at then some at else later))
  pick-IsLater true after at later h = h
  pick-IsLater false after at later h = elim (Bool-cases (ltb after at)) [
    | inl q ↦ rw q (ground arith)
    | inr q ↦ rw q h
  ]

  next_day-IsLater :
      (t : Timing) (today : Day) (after n offset : ℕ)
      → IsLater after (next_day calendar t today after n offset)
  unfolding next_day
  next_day-IsLater t today after zero offset = tt
  next_day-IsLater t today after (suc n) offset =
      pick-IsLater _ after _ _ (next_day-IsLater t today after n (offset + 1))

  pub next_run-IsLater : (t : Timing) (after : ℕ) → IsLater after (next_run calendar t after)
  unfolding next_run
  next_run-IsLater t after = elim (Bool-cases (is_once t.frequency)) [
    | inl q ↦ rw q (
        pick-IsLater false after (local_to_utc calendar t.run_date t.time_of_day t.time_zone) none
          tt)
    | inr q ↦ rw q (next_day-IsLater t (calendar.parts_of after t.time_zone).date after 10 0)
  ]

  -- The runs that nextRuns lists are in order, each after the one before, and after the time that was given.
  pub next_runs-Ascends :
      (t : Timing) (after count : ℕ) → Ascends after (next_runs calendar t after count)
  unfolding next_runs
  next_runs-Ascends t after zero = tt
  next_runs-Ascends t after (suc count) =
      by_next (next_run calendar t after) (next_run-IsLater t after)
        (λ at. next_runs-Ascends t at count)
    where
      by_next :
          (o : Option ℕ)
          → IsLater after o
          → ((at : ℕ) → Ascends at (next_runs calendar t at count))
          → Ascends after (elim o [ none ↦ [] | some at ↦ at ∷ next_runs calendar t at count ])
      by_next none h rest = tt
      by_next (some at) h rest = (h, rest at)

  -- A schedule that was claimed is not due at that time any more.
  due_at-advanced :
      (now : ℕ) (schedule : Schedule) → due_at (advanced calendar now schedule) now ≡ none
  unfolding due_at advanced
  due_at-advanced now schedule =
      elim (Option-cases (next_run calendar schedule.fields.timing now)) [
        | inl q ↦ rw (q, advanced, due_at) refl
        | inr (at, q) ↦
            let later = subst (IsLater now) q (next_run-IsLater schedule.fields.timing now) in
            rw (q, advanced, due_at) (ground arith)
      ]

  claim_all-claim_all :
      (now : ℕ) (m : Assoc Schedule) → (claim_all calendar now (claim_all calendar now m).1).0 ≡ []
  unfolding claim_all
  claim_all-claim_all now [] = refl
  claim_all-claim_all now ((id, schedule) ∷ rest) = elim (Option-cases (due_at schedule now)) [
    | inl q ↦ rw (q, claim_all) (rw q (claim_all-claim_all now rest))
    | inr (at, q) ↦
        rw (q, claim_all) (rw (due_at-advanced now schedule) (claim_all-claim_all now rest))
  ]

none_left : (claims : List Claim) → leb 1 (length claims) ≡ false → claims ≡ []
none_left [] h = refl
none_left (c ∷ cs) h = absurd (ground arith)

-- A second claim at the same time gets no schedule.
claim_due-again :
    (calendar : Calendar) (now : ℕ) (s : ScheduleService)
    → (claim_due calendar now (claim_due calendar now s).1).0 ≡ []
unfolding claim_due persist
claim_due-again calendar now s =
    elim (Bool-cases (leb 1 (length (claim_all calendar now s.schedules).0))) [
      | inl q ↦ rw q (claim_all-claim_all calendar now s.schedules)
      | inr q ↦ rw q (none_left _ q)
    ]
