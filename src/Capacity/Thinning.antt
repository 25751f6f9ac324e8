-- ===== src/Capacity/Thinning.antt =====
-- The thinning of the readings for charts (modules/monitoring/src/capacity-rules.js).
use native.Mathlib.Nat.{mul-le-mul_right, div-lt_iff_lt-mul, div-eq_of_lt-le}
use nuvrion.Common.{
  ℕ, zero, suc, ◌+◌, ◌-◌, ◌*◌, ◌/◌, ◌≤◌, ◌<◌, true, false, Option, none, some, List, [], ◌∷◌, map,
  every, is_some, length, get_elem?, range, range_from, leb, ◌≡◌, refl, ap, ◌∙◌, inl, inr,
  Bool-cases, arith, leb→le,
}
use mathlib.Core.Option
use nuvrion.Capacity.Readings.{round_div, index_at, thinned}

-- A quotient of at most m rounds to at most m.
round_div-le : (i q m : ℕ) → 1 ≤ q → i ≤ q → round_div (i * m) q ≤ m
unfolding round_div
round_div-le i q m one h =
    let products : i * m ≤ q * m = mul-le-mul_right m h in
    let small : 2 * (i * m) + q < (m + 1) * (2 * q) = omega (arith, products) in
    let half : (2 * (i * m) + q) / (2 * q) < m + 1 = (div-lt_iff_lt-mul (omega arith)).1 small in
    omega (arith, half)

round_div-zero : (q m : ℕ) → 1 ≤ q → round_div (0 * m) q ≡ 0
unfolding round_div
round_div-zero q m h = div-eq_of_lt-le (2 * q) (omega arith) (omega arith)

round_div-whole : (q m : ℕ) → 1 ≤ q → round_div (q * m) q ≡ m
unfolding round_div
round_div-whole q m h = div-eq_of_lt-le (2 * q) (omega arith) (omega arith)

module _ {A : Type 0} where
  get_elem-present : (xs : List A) (i : ℕ) → i < length xs → is_some (get_elem? xs i) ≡ true
  get_elem-present [] i h = ground arith
  get_elem-present (x ∷ xs) zero h = refl
  get_elem-present (x ∷ xs) (suc i) h = get_elem-present xs i (omega arith)

  get_elem-map-some :
      (xs : List A) (i : ℕ) → get_elem? (map some xs) i ≡ Option.map some (get_elem? xs i)
  get_elem-map-some [] i = refl
  get_elem-map-some (x ∷ xs) zero = refl
  get_elem-map-some (x ∷ xs) (suc i) = get_elem-map-some xs i

  every-map-some : (xs : List A) → every is_some (map some xs) ≡ true
  every-map-some [] = refl
  every-map-some (x ∷ xs) = every-map-some xs

length-map : {A B : Type 0} (f : A → B) (xs : List A) → length (map f xs) ≡ length xs
length-map f [] = refl
length-map f (x ∷ xs) = ap suc (length-map f xs)

length-range_from : (n i : ℕ) → length (range_from n i) ≡ n
length-range_from zero i = refl
length-range_from (suc n) i = ap suc (length-range_from n (suc i))

get_elem-map-range_from :
    {B : Type 0} (f : ℕ → B) (n i k : ℕ)
    → k < n
    → get_elem? (map f (range_from n i)) k ≡ some (f (i + k))
get_elem-map-range_from f zero i k h = ground arith
get_elem-map-range_from f (suc n) i zero h = ap (λ j. some (f j)) (omega arith)
get_elem-map-range_from f (suc n) i (suc k) h =
    get_elem-map-range_from f n (suc i) k (omega arith) ∙ ap (λ j. some (f j)) (omega arith)

module _ (max count : ℕ) (many : max < count) (h : 2 ≤ max) where
  index_at-lt : (i : ℕ) → i < max → index_at count max i < count
  unfolding index_at
  index_at-lt i le = omega (arith, round_div-le i (max - 1) (count - 1) (omega arith) (omega arith))

  index_at-first : index_at count max 0 ≡ 0
  unfolding index_at
  index_at-first = round_div-zero (max - 1) (count - 1) (omega arith)

  index_at-last : index_at count max (max - 1) ≡ count - 1
  unfolding index_at
  index_at-last = round_div-whole (max - 1) (count - 1) (omega arith)

every-map-range_from :
    {B : Type 0} (f : ℕ → Option B) (n i : ℕ)
    → ((k : ℕ) → k < i + n → is_some (f k) ≡ true)
    → every is_some (map f (range_from n i)) ≡ true
every-map-range_from f zero i h = refl
every-map-range_from f (suc n) i h =
    ground (arith, h i (omega arith), every-map-range_from f n (suc i) (λ k lt. h k (omega arith)))

-- The picks of `samples` begin and end as they do, and there are no more than `max`, and none is out of range.
abbrev pub Drawn : {A : Type 0} → ℕ → List A → List (Option A) → Type 0
Drawn max samples picks =
    (length picks ≤ max)
    × (every is_some picks ≡ true)
    × (get_elem? picks 0 ≡ Option.map some (get_elem? samples 0))
    × (get_elem? picks (length picks - 1)
        ≡ Option.map some (get_elem? samples (length samples - 1)))

as_some : {A : Type 0} (o : Option A) → is_some o ≡ true → some o ≡ Option.map some o
as_some none h = cc
as_some (some a) h = refl

all-Drawn : {A : Type 0} (max : ℕ) (xs : List A) → length xs ≤ max → Drawn max xs (map some xs)
all-Drawn max xs h = (
  omega (arith, length-map some xs, h),
  every-map-some xs,
  get_elem-map-some xs 0,
  ap (λ n. get_elem? (map some xs) (n - 1)) (length-map some xs)
      ∙ get_elem-map-some xs (length xs - 1),
)

zero_add : (i : ℕ) → 0 + i ≡ i
zero_add i = omega arith

module _ {A : Type 0} (max : ℕ) (xs : List A) (many : max < length xs) (h : 2 ≤ max) where
  abbrev pick : ℕ → Option A
  pick i = get_elem? xs (index_at (length xs) max i)

  pick-present : (i : ℕ) → i < max → is_some (pick i) ≡ true
  pick-present i lt = get_elem-present xs _ (index_at-lt max (length xs) many h i lt)

  -- The pick of one place that is the place of an element.
  get_elem-picks :
      (i j : ℕ)
      → i < max
      → index_at (length xs) max i ≡ j
      → get_elem? (map pick (range max)) i ≡ Option.map some (get_elem? xs j)
  get_elem-picks i j lt e =
      get_elem-map-range_from pick max 0 i lt
      ∙ ap (λ n. some (pick n)) (zero_add i)
      ∙ as_some (pick i) (pick-present i lt)
      ∙ ap (λ n. Option.map some (get_elem? xs n)) e

  length-picks : length (map pick (range max)) ≡ max
  length-picks = length-map pick (range max) ∙ length-range_from max 0

  picks-Drawn : Drawn max xs (map pick (range max))
  picks-Drawn = (
    omega (arith, length-picks),
    every-map-range_from pick max 0 (λ k lt. pick-present k (omega (arith, lt))),
    get_elem-picks 0 0 (omega arith) (index_at-first max (length xs) many h),
    ap (λ n. get_elem? (map pick (range max)) (n - 1)) length-picks
        ∙ get_elem-picks (max - 1) (length xs - 1) (omega arith)
            (index_at-last max (length xs) many h),
  )

over_full : {A : Type 0} (max : ℕ) (xs : List A) → leb (length xs) max ≡ false → max < length xs
over_full max xs h = ground arith

-- A chart of some readings, with room for two or more, shows no more of them than there is room for; every one it
-- shows is a reading, the first that it shows is the first reading, and the last is the last.
pub thinned-Drawn :
    {A : Type 0} (max : ℕ) (samples : List A) → 2 ≤ max → Drawn max samples (thinned max samples)
unfolding thinned
thinned-Drawn max samples h = elim (Bool-cases (leb (length samples) max)) [
  | inl fits ↦ rw fits (all-Drawn max samples (leb→le _ _ fits))
  | inr over ↦ rw over (picks-Drawn max samples (over_full max samples over) h)
]
