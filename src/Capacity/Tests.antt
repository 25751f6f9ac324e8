-- ===== src/Capacity/Tests.antt =====
-- Readings and charts at concrete values.
use nuvrion.Common.{ℕ, true, false, none, some, List, [], ◌∷◌, ◌≡◌, refl, arith}
use nuvrion.Capacity.Readings.{
  Sample, full, growing, low, medium, high, sample_interval, horizon, worth_keeping, bucketed,
  days_until_full_for_alert, thinned, chart_points,
}
use nuvrion.Capacity.Thinning.{Drawn, thinned-Drawn}

abbrev reading : ℕ → ℕ → ℕ → Sample
reading at capacity used = record { at = at; capacity_bytes = capacity; used_bytes = used }

-- A second reading within half an hour is kept only when the size is another.
worth_keeping_first : worth_keeping sample_interval (reading 5 100 40) [] ≡ true
unfolding worth_keeping
worth_keeping_first = refl

worth_keeping_near :
    worth_keeping sample_interval (reading 60000 100 40) (reading 0 100 39 ∷ []) ≡ false
unfolding worth_keeping
worth_keeping_near = refl

worth_keeping_grown :
    worth_keeping sample_interval (reading 60000 120 40) (reading 0 100 39 ∷ []) ≡ true
unfolding worth_keeping
worth_keeping_grown = refl

worth_keeping_later :
    worth_keeping sample_interval (reading 1800000 100 40) (reading 0 100 39 ∷ []) ≡ true
unfolding worth_keeping
worth_keeping_later = refl

-- Buckets of ten: a size is the newest of its bucket, a use the average, rounded.
bucketed_tens :
    bucketed (reading 1 100 40 ∷ reading 4 110 43 ∷ reading 12 110 50 ∷ []) 10
    ≡ reading 3 110 42 ∷ reading 12 110 50 ∷ []
unfolding bucketed
bucketed_tens = refl

days_none : days_until_full_for_alert none ≡ none
unfolding days_until_full_for_alert
days_none = refl

days_full :
    days_until_full_for_alert
      (some (record { status = full; confidence = some high; days_until_full = some 0 }))
    ≡ some 0
unfolding days_until_full_for_alert
days_full = refl

days_uncertain :
    days_until_full_for_alert
      (some (record { status = growing; confidence = some low; days_until_full = some 125 }))
    ≡ none
unfolding days_until_full_for_alert
days_uncertain = refl

days_growing :
    days_until_full_for_alert
      (some (record { status = growing; confidence = some medium; days_until_full = some 125 }))
    ≡ some 125
unfolding days_until_full_for_alert
days_growing = refl

days_far :
    days_until_full_for_alert
      (some (record { status = growing; confidence = some high; days_until_full = none }))
    ≡ some horizon
unfolding days_until_full_for_alert
days_far = refl

abbrev letters : List ℕ
letters = 10 ∷ 11 ∷ 12 ∷ 13 ∷ 14 ∷ 15 ∷ []

spread_letters : thinned 4 letters ≡ some 10 ∷ some 12 ∷ some 13 ∷ some 15 ∷ []
unfolding thinned
spread_letters = refl

all_letters : thinned 9 letters ≡ some 10 ∷ some 11 ∷ some 12 ∷ some 13 ∷ some 14 ∷ some 15 ∷ []
unfolding thinned
all_letters = refl

thinned-Drawn_example : Drawn 4 letters (thinned 4 letters)
thinned-Drawn_example = thinned-Drawn 4 letters (omega arith)

chart_of_two :
    chart_points (λ at. "t") 2 (reading 1 100 40 ∷ reading 4 100 43 ∷ reading 12 110 50 ∷ [])
    ≡ some (record { at = "t"; used_bytes = 40; capacity_bytes = 100 })
      ∷ some (record { at = "t"; used_bytes = 50; capacity_bytes = 110 })
      ∷ []
unfolding chart_points
chart_of_two = refl
