-- ===== src/Common/Lists.antt =====
-- Lists under Boolean tests, as JavaScript's array methods use them, measured by native numbers.
use Prim.Native.Nat.{ℕ, zero, suc, ◌+◌, ◌≤◌}
use mathlib.Core.Path.{◌≡◌, refl}
use mathlib.Core.Logic.{◌⊎◌, inl, inr}
use mathlib.Core.Bool.{Bool, true, false, ◌&&◌, ◌||◌}
use mathlib.Core.List.{List, [], ◌∷◌, ◌++◌}
use mathlib.Core.Option.{Option, none, some}
use native.Mathlib.Omega.{arith}
use nuvrion.Common.Tests.{if◌then◌else◌, Bool-cases}

module _ {ℓ} {A : Type ℓ} where
  abbrev pub length : List A → ℕ
  length [] = 0
  length (x ∷ xs) = suc (length xs)

  abbrev pub take : ℕ → List A → List A
  take zero xs = []
  take (suc n) [] = []
  take (suc n) (x ∷ xs) = x ∷ take n xs

  abbrev pub get_elem? : List A → ℕ → Option A
  get_elem? [] n = none
  get_elem? (x ∷ xs) zero = some x
  get_elem? (x ∷ xs) (suc n) = get_elem? xs n

  -- a.filter(p)
  abbrev pub filter_by : (A → Bool) → List A → List A
  filter_by p [] = []
  filter_by p (x ∷ xs) = let rest = filter_by p xs in if p x then x ∷ rest else rest

  -- a.find(p)
  abbrev pub find_by : (A → Bool) → List A → Option A
  find_by p [] = none
  find_by p (x ∷ xs) = if p x then some x else find_by p xs

  -- a.some(p)
  abbrev pub any : (A → Bool) → List A → Bool
  any p [] = false
  any p (x ∷ xs) = p x || any p xs

  -- a.every(p)
  abbrev pub every : (A → Bool) → List A → Bool
  every p [] = true
  every p (x ∷ xs) = p x && every p xs

  -- for (const x of xs) state = f(x, state)
  abbrev pub each {κ} : {S : Type κ} → (A → S → S) → List A → S → S
  each f [] s = s
  each f (x ∷ xs) s = each f xs (f x s)

  -- A list in order, by whether one element comes after another; equal ones keep their places.
  unfoldable pub insert_by : (A → A → Bool) → A → List A → List A
  insert_by after x [] = x ∷ []
  insert_by after x (y ∷ ys) =
      let rest = insert_by after x ys in if after x y then y ∷ rest else x ∷ y ∷ ys

  -- a.sort()
  unfoldable pub sort_by : (A → A → Bool) → List A → List A
  unfolding insert_by
  sort_by after [] = []
  sort_by after (x ∷ xs) = insert_by after x (sort_by after xs)

  length-insert_by :
      (after : A → A → Bool) (x : A) (xs : List A) → length (insert_by after x xs) ≡ suc (length xs)
  unfolding insert_by
  length-insert_by after x [] = refl
  length-insert_by after x (y ∷ ys) = ground (arith, length-insert_by after x ys)

  pub length-sort_by : (after : A → A → Bool) (xs : List A) → length (sort_by after xs) ≡ length xs
  unfolding sort_by
  length-sort_by after [] = refl
  length-sort_by after (x ∷ xs) =
      omega (arith, length-insert_by after x (sort_by after xs), length-sort_by after xs)

  pub length-append : (xs ys : List A) → length (xs ++ ys) ≡ length xs + length ys
  length-append [] ys = omega arith
  length-append (x ∷ xs) ys = omega (arith, length-append xs ys)

  pub length-take-le : (n : ℕ) (xs : List A) → length (take n xs) ≤ n
  length-take-le zero xs = omega arith
  length-take-le (suc n) [] = omega arith
  length-take-le (suc n) (x ∷ xs) = omega (arith, length-take-le n xs)

  pub length-filter_by-le : (p : A → Bool) (xs : List A) → length (filter_by p xs) ≤ length xs
  length-filter_by-le p [] = omega arith
  length-filter_by-le p (x ∷ xs) = ground (arith, length-filter_by-le p xs)

  pub find_by-holds : (p : A → Bool) (xs : List A) (a : A) → find_by p xs ≡ some a → p a ≡ true
  find_by-holds p [] a h = cc
  find_by-holds p (x ∷ xs) a h = elim (Bool-cases (p x)) [
    | inl e ↦ ground arith
    | inr e ↦ find_by-holds p xs a (ground arith)
  ]

  pub find_by-none : (p : A → Bool) (xs : List A) → find_by p xs ≡ none → any p xs ≡ false
  find_by-none p [] h = refl
  find_by-none p (x ∷ xs) h = ground (arith, find_by-none p xs)

-- so many numbers from one on
abbrev pub range_from : ℕ → ℕ → List ℕ
range_from zero i = []
range_from (suc n) i = i ∷ range_from n (suc i)

abbrev pub range : ℕ → List ℕ
range n = range_from n 0

-- A property of every element.
abbrev pub All {ℓ κ} : {A : Type ℓ} → (A → Type κ) → List A → Type κ
All P [] = Unit
All P (x ∷ xs) = P x × All P xs

-- One of the elements.
abbrev pub Among : {A : Type 0} → A → List A → Type 0
Among x [] = ⊥
Among x (y ∷ ys) = (x ≡ y) ⊎ Among x ys

module _ {ℓ κ} {A : Type ℓ} (P : A → Type κ) where
  pub All-append : (xs ys : List A) → All P xs → All P ys → All P (xs ++ ys)
  All-append [] ys hx hy = hy
  All-append (x ∷ xs) ys hx hy = (hx.0, All-append xs ys hx.1 hy)

  -- One more element at the end.
  pub All-snoc : (xs : List A) (y : A) → All P xs → P y → All P (xs ++ y ∷ [])
  All-snoc xs y hx hy = All-append xs (y ∷ []) hx (hy, tt)

  pub All-take : (n : ℕ) (xs : List A) → All P xs → All P (take n xs)
  All-take zero xs h = tt
  All-take (suc n) [] h = tt
  All-take (suc n) (x ∷ xs) h = (h.0, All-take n xs h.1)

  pub All-filter_by : (p : A → Bool) (xs : List A) → All P xs → All P (filter_by p xs)
  All-filter_by p [] h = tt
  All-filter_by p (x ∷ xs) h = elim (Bool-cases (p x)) [
    | inl e ↦ rw e (h.0, All-filter_by p xs h.1)
    | inr e ↦ rw e (All-filter_by p xs h.1)
  ]

  All-insert_by :
      (after : A → A → Bool) (x : A) (xs : List A) → P x → All P xs → All P (insert_by after x xs)
  unfolding insert_by
  All-insert_by after x [] hx h = (hx, tt)
  All-insert_by after x (y ∷ ys) hx h = elim (Bool-cases (after x y)) [
    | inl e ↦ rw e (h.0, All-insert_by after x ys hx h.1)
    | inr e ↦ rw e (hx, h)
  ]

  pub All-sort_by : (after : A → A → Bool) (xs : List A) → All P xs → All P (sort_by after xs)
  unfolding sort_by
  All-sort_by after [] h = tt
  All-sort_by after (x ∷ xs) h = All-insert_by after x _ h.0 (All-sort_by after xs h.1)

pub All-mono {ℓ κ ι} :
    {A : Type ℓ} (P : A → Type κ) (Q : A → Type ι) (xs : List A)
    → ((x : A) → P x → Q x)
    → All P xs
    → All Q xs
All-mono P Q [] f h = tt
All-mono P Q (x ∷ xs) f h = (f x h.0, All-mono P Q xs f h.1)
