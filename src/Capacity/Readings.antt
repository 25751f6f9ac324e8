-- ===== src/Capacity/Readings.antt =====
-- The readings of modules/monitoring/src/capacity-rules.js: which are kept, averages, and the thinning for
-- charts. Sizes and times are whole numbers, with sums below 2 ^ 53, where JavaScript's division and rounding of
-- them is that of fractions. The days of a forecast are counted in tenths, as it rounds them. The fitted
-- line and its texts are not modelled.
use mathlib.Core.Option
use nuvrion.Common.{
  String, ℕ, ◌+◌, ◌-◌, ◌*◌, ◌/◌, Bool, true, false, ◌&&◌, not, Option, none, some, List, [], ◌∷◌,
  ◌++◌, map, any, every, filter_by, length, get_elem?, range, ltb, leb, ◌==◌, sort_by,
  if◌then◌else◌,
}

pub record Sample : Type 0 where
  pub at : ℕ
  pub capacity_bytes : ℕ
  pub used_bytes : ℕ

-- SAMPLE_INTERVAL_MS
abbrev pub sample_interval : ℕ
sample_interval = 30 * 60000

-- HORIZON_DAYS, in tenths
abbrev pub horizon : ℕ
horizon = 36500

-- Math.abs(a - b)
unfoldable pub distance : ℕ → ℕ → ℕ
distance a b = if ltb a b then b - a else a - b

-- sample is within the interval of the reading
unfoldable pub is_near : ℕ → Sample → Sample → Bool
unfolding distance
is_near interval reading sample = ltb (distance sample.at reading.at) interval

unfoldable pub is_empty : {A : Type 0} → List A → Bool
is_empty [] = true
is_empty (x ∷ xs) = false

-- worthKeeping(reading, kept, intervalMs)
unfoldable pub worth_keeping : ℕ → Sample → List Sample → Bool
unfolding is_near is_empty
worth_keeping interval reading kept =
    let near = filter_by (is_near interval reading) kept in
    if is_empty near
    then true
    else every (λ s. not (s.capacity_bytes == reading.capacity_bytes)) near
      && not (any (λ s. s.at == reading.at) near)

-- Math.round(a / b)
unfoldable pub round_div : ℕ → ℕ → ℕ
round_div a b = (2 * a + b) / (2 * b)

-- The samples of each bucket, in the order of their first ones.
pub record Bucket : Type 0 where
  pub key : ℕ
  pub samples : List Sample

unfoldable pub add_sample : ℕ → Sample → List Bucket → List Bucket
add_sample key sample [] = record { key = key; samples = sample ∷ [] } ∷ []
add_sample key sample (b ∷ bs) =
    let rest = add_sample key sample bs in
    if b.key == key then record b { samples = b.samples ++ sample ∷ [] } ∷ bs else b ∷ rest

unfoldable pub all_buckets : ℕ → List Sample → List Bucket → List Bucket
unfolding add_sample
all_buckets bucket_ms [] bs = bs
all_buckets bucket_ms (s ∷ ss) bs = all_buckets bucket_ms ss (add_sample (s.at / bucket_ms) s bs)

unfoldable pub sum_by : (Sample → ℕ) → List Sample → ℕ
sum_by f [] = 0
sum_by f (s ∷ ss) = f s + sum_by f ss

-- list.at(-1).capacityBytes
unfoldable pub last_capacity : List Sample → ℕ
last_capacity [] = 0
last_capacity (s ∷ []) = s.capacity_bytes
last_capacity (s ∷ t ∷ ss) = last_capacity (t ∷ ss)

unfoldable pub average_of : List Sample → Sample
unfolding round_div sum_by last_capacity
average_of samples = record {
  at = round_div (sum_by (λ s. s.at) samples) (length samples);
  capacity_bytes = last_capacity samples;
  used_bytes = round_div (sum_by (λ s. s.used_bytes) samples) (length samples);
}

-- bucketed(samples, bucketMs)
unfoldable pub bucketed : List Sample → ℕ → List Sample
unfolding all_buckets average_of sort_by
bucketed samples bucket_ms =
    if bucket_ms == 0
    then samples
    else map (λ b. average_of b.samples)
        (sort_by (λ a b. ltb b.key a.key) (all_buckets bucket_ms samples []))

pub data Status : Type 0 where
  insufficient full stable growing shrinking : Status

pub data Confidence : Type 0 where
  low medium high : Confidence

-- What daysUntilFullForAlert reads of a forecast.
pub record Forecast : Type 0 where
  pub status : Status
  pub confidence : Option Confidence
  pub days_until_full : Option ℕ

unfoldable pub days_of_trusted : Forecast → Option ℕ
days_of_trusted f = elim f.status [
  | insufficient ↦ none
  | full ↦ some 0
  | stable ↦ some horizon
  | growing ↦ elim f.days_until_full [
    | none ↦ some horizon
    | some days ↦ some (if ltb days horizon then days else horizon)
  ]
  | shrinking ↦ some horizon
]

-- daysUntilFullForAlert(f)
unfoldable pub days_until_full_for_alert : Option Forecast → Option ℕ
unfolding days_of_trusted
days_until_full_for_alert none = none
days_until_full_for_alert (some f) = elim f.status [
  | full ↦ some 0
  | _ ↦ elim f.confidence [ none ↦ none | some c ↦ elim c [ low ↦ none | _ ↦ days_of_trusted f ] ]
]

-- Math.round(i * (samples.length - 1) / (max - 1))
unfoldable pub index_at : ℕ → ℕ → ℕ → ℕ
unfolding round_div
index_at count max i = round_div (i * (count - 1)) (max - 1)

-- The samples that chartPoints and trend pick; one out of range would be `none`.
unfoldable pub thinned : {A : Type 0} → ℕ → List A → List (Option A)
unfolding index_at
thinned max samples =
    if leb (length samples) max
    then map some samples
    else map (λ i. get_elem? samples (index_at (length samples) max i)) (range max)

-- A point of the detail chart.
pub record Point : Type 0 where
  pub at : String
  pub used_bytes : ℕ
  pub capacity_bytes : ℕ

unfoldable pub point_of : (ℕ → String) → Sample → Point
point_of to_iso_string s = record {
  at = to_iso_string s.at;
  used_bytes = s.used_bytes;
  capacity_bytes = s.capacity_bytes;
}

-- chartPoints(samples, max)
unfoldable pub chart_points : (ℕ → String) → ℕ → List Sample → List (Option Point)
unfolding thinned point_of
chart_points to_iso_string max samples =
    map (Option.map (point_of to_iso_string)) (thinned max samples)
