-- ===== src/Schedules/Counts.antt =====
-- The counts of a run's summary.
use nuvrion.Common.{
  ℕ, ◌+◌, ◌≤◌, ◌≡◌, refl, arith, String, Bool, true, false, List, [], ◌∷◌, ◌++◌, length,
  length-append, length-take-le, any, map, ltb,
}
use nuvrion.Schedules.Runs.{
  Result, submitted, skipped, failed, result_eq, Item, details_kept, count, outcome_of, gone_item,
  summarise_run, partial, all_failed, run_completed, run_skipped, Outcome,
}

-- Every item is counted once.
count-total :
    (items : List Item)
    → count submitted items + count skipped items + count failed items ≡ length items
unfolding count result_eq
count-total [] = omega arith
count-total (x ∷ xs) = ground (arith, count-total xs)

length-gone : (gone : List String) → length (map gone_item gone) ≡ length gone
length-gone [] = refl
length-gone (id ∷ gone) = omega (arith, length-gone gone)

-- Something is counted when there is an item of the kind.
count-any :
    (kind : Result) (items : List Item)
    → ltb 0 (count kind items) ≡ any (λ item. result_eq item.result kind) items
unfolding count
count-any kind [] = refl
count-any kind (x ∷ xs) = ground (arith, count-any kind xs)

-- The outcome, by which results there are.
unfoldable pub expected_outcome : Bool → Bool → Outcome
expected_outcome true true = partial
expected_outcome true false = all_failed
expected_outcome false true = run_completed
expected_outcome false false = run_skipped

outcome_of-expected : (m n : ℕ) → outcome_of m n ≡ expected_outcome (ltb 0 n) (ltb 0 m)
unfolding outcome_of expected_outcome
outcome_of-expected m n = ground arith

-- Of any results and any machines that are gone: each machine is counted once, as submitted, skipped or
-- failed; at most 100 details are kept, and the summary says so exactly when there were more machines;
-- the outcome is by whether any machine failed and whether any was submitted.
pub summarise_run_lem :
    (results : List Item) (gone : List String)
    → (let s = summarise_run results gone in
        (s.submitted_count + s.skipped_count + s.failed_count ≡ s.matched)
        × (length s.details ≤ details_kept)
        × (s.details_truncated ≡ ltb details_kept s.matched)
        × (s.outcome
            ≡ expected_outcome
                (any (λ item. result_eq item.result failed) results)
                (any (λ item. result_eq item.result submitted) results)))
unfolding summarise_run
summarise_run_lem results gone = (
  omega (arith, count-total results),
  length-take-le details_kept (results ++ map gone_item gone),
  rw (length-append results (map gone_item gone), length-gone gone) refl,
  rw (outcome_of-expected, count-any failed results, count-any submitted results) refl,
)
