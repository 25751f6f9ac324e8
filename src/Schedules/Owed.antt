-- ===== src/Schedules/Owed.antt =====
-- The runs that modules/tasks/src/schedule-service.js and the runner of schedule-runner.js owe, and what a run tells of its schedule.
use nuvrion.Common.{
  ℕ, ◌+◌, ◌≤◌, ◌<◌, ◌≡◌, refl, ap, ltb, Assoc, Option-cases, ap₂, arith, String, Bool, true, false,
  Option, none, some, List, [], ◌∷◌, map, length, str_eq, Bool-cases, inl, inr,
}
use nuvrion.Common.Results.{Result as Thrown, ok, err}
use nuvrion.Schedules.Runs.{
  Outcome, partial, all_failed, run_completed, run_skipped, Summary, summarise_run,
}
use nuvrion.Schedules.Targets.{Found}
use nuvrion.Schedules.When.{Calendar, is_late}
use nuvrion.Schedules.Store.{Schedule, Run, Recorded, Claim, record_run, due_at, claim_all}
use nuvrion.Schedules.Runner.{
  Surroundings, Requester, Runner, outcome_text, failed_run, summed_run, found_targets, who_runs,
  run_of, record_and_audit, execute, missed_run, run_claim, run_claims, submit_all,
}

-- What a recorded run says of its claim: the schedule, its time, and whether it was missed.
abbrev pub Told : Type 0
Told = Option String × ℕ × Bool

abbrev pub told : Recorded → Told
told r = (r.run.schedule_id, r.run.scheduled_for, str_eq r.run.outcome "missed")

abbrev expected : Claim → Told
expected claim = (some claim.schedule.id, claim.scheduled_for, claim.late)

module _ (world : Surroundings) where
  summed-told :
      (base : Run) (summary : Summary)
      → str_eq (summed_run world base summary).outcome "missed" ≡ false
  unfolding summed_run outcome_text
  summed-told base summary = by_outcome summary.outcome
    where
      by_outcome : (o : Outcome) → str_eq (outcome_text o) "missed" ≡ false
      by_outcome partial = refl
      by_outcome all_failed = refl
      by_outcome run_completed = refl
      by_outcome run_skipped = refl

  run_of-told :
      (schedule : Schedule) (at : ℕ) (who : Option Requester) (started finished : ℕ) (id : String)
      → told (record { id = id; run = run_of world schedule at "schedule" who started finished })
        ≡ (some schedule.id, at, false)
  unfolding run_of failed_run summed_run
  run_of-told schedule at none started finished id = refl
  run_of-told schedule at (some who) started finished id = by_found (found_targets world schedule)
    where
      by_found :
          (o : Thrown String Found)
          → told (record {
            id = id;
            run = elim o [
              | err message ↦
                  failed_run world schedule "schedule" at (some who.id) started finished message
              | ok found ↦
                  summed_run world
                    (failed_run world schedule "schedule" at (some who.id) started finished "")
                    (summarise_run
                      (submit_all world schedule "schedule" at who found.machines)
                      found.gone)
            ];
          })
            ≡ (some schedule.id, at, false)
      by_found (err message) = refl
      by_found (ok found) =
          ap (λ b. (some schedule.id, at, b))
            (summed-told (failed_run world schedule "schedule" at (some who.id) started finished "")
              (summarise_run (submit_all world schedule "schedule" at who found.machines)
                found.gone))

  run_claim-told :
      (now : ℕ) (claim : Claim) (r : Runner) → told (run_claim world now claim r).0 ≡ expected claim
  unfolding run_claim record_and_audit record_run missed_run execute
  run_claim-told now claim r = elim (Bool-cases claim.late) [
    | inl q ↦ rw q refl
    | inr q ↦ rw q (
        run_of-told claim.schedule claim.scheduled_for (who_runs world claim.schedule none) now now
          (world.uuid r.drawn))
  ]

  pub run_claims-told :
      (now : ℕ) (claims : List Claim) (r : Runner)
      → map told (run_claims world now claims r).0 ≡ map expected claims
  unfolding run_claims
  run_claims-told now [] r = refl
  run_claims-told now (claim ∷ claims) r =
      ap₂ (λ (x : Told) (xs : List Told). x ∷ xs) (run_claim-told now claim r)
        (run_claims-told now claims (run_claim world now claim r).1)

-- A run is missed when its time was more than fifteen minutes ago.
abbrev pub IsMissed : ℕ → ℕ → Bool → Type 0
IsMissed at now true = at + 900000 < now
IsMissed at now false = now ≤ at + 900000

-- A schedule is switched off, or has no next run, or one that is ahead.
pub data IsIdle (now : ℕ) (schedule : Schedule) : Type 0 where
  switched_off : schedule.fields.enabled ≡ false → IsIdle now schedule
  no_run : schedule.next_run_at ≡ none → IsIdle now schedule
  ahead : (at : ℕ) → schedule.next_run_at ≡ some at → now < at → IsIdle now schedule

-- The runs that are owed for some schedules, in their order: of each that is switched on and whose next run is not ahead,
-- the run for that time, missed or not.
pub data Owed (now : ℕ) : Assoc Schedule → List Told → Type 0 where
  no_more : Owed now [] []
  due :
      {id : String} {schedule : Schedule} {rest : Assoc Schedule} {tolds : List Told} (at : ℕ)
      (missed : Bool)
      → schedule.fields.enabled ≡ true
      → schedule.next_run_at ≡ some at
      → at ≤ now
      → IsMissed at now missed
      → Owed now rest tolds
      → Owed now ((id, schedule) ∷ rest) ((some schedule.id, at, missed) ∷ tolds)
  not_due :
      {id : String} {schedule : Schedule} {rest : Assoc Schedule} {tolds : List Told}
      → IsIdle now schedule
      → Owed now rest tolds
      → Owed now ((id, schedule) ∷ rest) tolds

due_at-IsIdle : (schedule : Schedule) (now : ℕ) → due_at schedule now ≡ none → IsIdle now schedule
unfolding due_at
due_at-IsIdle schedule now e = elim (Option-cases schedule.next_run_at) [
  | inl q ↦ no_run q
  | inr (at, q) ↦ elim (Bool-cases schedule.fields.enabled) [
    | inr off ↦ switched_off off
    | inl on ↦ ahead at q (ground arith)
  ]
]

due_at-holds :
    (schedule : Schedule) (now at : ℕ)
    → due_at schedule now ≡ some at
    → (schedule.fields.enabled ≡ true) × (schedule.next_run_at ≡ some at) × (at ≤ now)
unfolding due_at
due_at-holds schedule now at e = elim (Option-cases schedule.next_run_at) [
  | inl q ↦ absurd (ground arith)
  | inr (next, q) ↦ (ground arith, ground arith, ground arith)
]

is_late-IsMissed : (at now : ℕ) → IsMissed at now (is_late at now)
unfolding is_late
is_late-IsMissed at now = elim (Bool-cases (ltb (at + 900000) now)) [
  | inl e ↦ rw e (ground arith)
  | inr e ↦ rw e (ground arith)
]

pub length-claim_all :
    (calendar : Calendar) (now : ℕ) (schedules : Assoc Schedule)
    → length (claim_all calendar now schedules).0 ≤ length schedules
unfolding claim_all
length-claim_all calendar now [] = omega arith
length-claim_all calendar now ((id, schedule) ∷ rest) =
    let others = length-claim_all calendar now rest in
    elim (Option-cases (due_at schedule now)) [
      | inl e ↦ rw (e, length) (omega (arith, others))
      | inr (at, e) ↦ rw (e, length) (omega (arith, others))
    ]

pub claim_all-Owed :
    (calendar : Calendar) (now : ℕ) (schedules : Assoc Schedule)
    → Owed now schedules (map expected (claim_all calendar now schedules).0)
unfolding claim_all
claim_all-Owed calendar now [] = no_more
claim_all-Owed calendar now ((id, schedule) ∷ rest) =
    let others = claim_all-Owed calendar now rest in
    elim (Option-cases (due_at schedule now)) [
      | inl e ↦ rw (e, map) (not_due (due_at-IsIdle schedule now e) others)
      | inr (at, e) ↦
          let (enabled, next, past) = due_at-holds schedule now at e in
          rw (e, map) (due at (is_late at now) enabled next past (is_late-IsMissed at now) others)
    ]
