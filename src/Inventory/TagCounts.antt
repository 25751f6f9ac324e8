-- ===== src/Inventory/TagCounts.antt =====
-- What the counts of the catalogue of tags are (modules/inventory/src/tag-service.js).
use nuvrion.Common.{
  ℕ, ◌+◌, ◌≡◌, refl, arith, String, none, some, List, [], ◌∷◌, map, is_some, str_eq, eq_iff,
  or_else, get, get-put, values, Assoc, All, All-sort_by, Keyed, Keyed-put, key_of-get, All-get,
  All-mono, All-values-get, All-values-put, Option-cases, inl, inr, if◌then◌else◌,
}
use nuvrion.Inventory.TagMaps.{Distinct, Distinct-put}
use nuvrion.Inventory.TagStore.{TagService}
use nuvrion.Inventory.TagCatalog.{
  Use, unused, with_value, count_tag, count_tags, count_all, with_sorted, catalog,
}

-- How many resources the counts give for a key, and for a value of it.
abbrev pub times_used : String → Assoc Use → ℕ
times_used key uses = (or_else (get key uses) (unused key)).resource_count

abbrev pub times_valued : String → String → Assoc Use → ℕ
times_valued key value uses = or_else (get value (or_else (get key uses) (unused key)).counts) 0

-- How many of the maps have a key, and with a value.
abbrev pub carries : String → Assoc String → ℕ
carries key m = if is_some (get key m) then 1 else 0

abbrev pub carries_value : String → String → Assoc String → ℕ
carries_value key value m = elim (get key m) [ none ↦ 0 | some v ↦ if str_eq v value then 1 else 0 ]

abbrev pub sum_of {ℓ} : {A : Type ℓ} → (A → ℕ) → List A → ℕ
sum_of f [] = 0
sum_of f (x ∷ xs) = f x + sum_of f xs

module _ (j w : String) where
  times_used-count_tag :
      (k v : String) (uses : Assoc Use)
      → times_used j (count_tag k v uses) ≡ times_used j uses + (if str_eq k j then 1 else 0)
  unfolding count_tag unused with_value
  times_used-count_tag k v uses =
      ground (arith, eq_iff k j, get-put k j (with_value v (or_else (get k uses) (unused k))) uses)

  times_used-count_tags :
      (m : Assoc String) (uses : Assoc Use)
      → Distinct m
      → times_used j (count_tags m uses) ≡ times_used j uses + carries j m
  unfolding count_tags get
  times_used-count_tags [] uses h = omega arith
  times_used-count_tags ((k, v) ∷ m) uses h = ground (
    arith,
    eq_iff k j,
    times_used-count_tag k v uses,
    times_used-count_tags m (count_tag k v uses) h.1,
  )

  times_valued-count_tag :
      (k v : String) (uses : Assoc Use)
      → times_valued j w (count_tag k v uses)
        ≡ times_valued j w uses + (if str_eq k j then (if str_eq v w then 1 else 0) else 0)
  unfolding count_tag unused with_value
  times_valued-count_tag k v uses =
      let u = or_else (get k uses) (unused k) in
      ground (
        arith,
        eq_iff k j,
        eq_iff v w,
        get-put k j (with_value v u) uses,
        get-put v w (or_else (get v u.counts) 0 + 1) u.counts,
      )

  times_valued-count_tags :
      (m : Assoc String) (uses : Assoc Use)
      → Distinct m
      → times_valued j w (count_tags m uses) ≡ times_valued j w uses + carries_value j w m
  unfolding count_tags get
  times_valued-count_tags [] uses h = omega arith
  times_valued-count_tags ((k, v) ∷ m) uses h = ground (
    arith,
    eq_iff k j,
    times_valued-count_tag k v uses,
    times_valued-count_tags m (count_tag k v uses) h.1,
  )

  count_all-counts :
      (ms : List (Assoc String)) (uses : Assoc Use)
      → All Distinct ms
      → (times_used j (count_all ms uses) ≡ times_used j uses + sum_of (carries j) ms)
        × (times_valued j w (count_all ms uses)
            ≡ times_valued j w uses + sum_of (carries_value j w) ms)
  unfolding count_all
  count_all-counts [] uses h = (omega arith, omega arith)
  count_all-counts (m ∷ ms) uses h =
      let (a, b) = count_all-counts ms (count_tags m uses) h.1 in
      (
        omega (arith, a, times_used-count_tags m uses h.0),
        omega (arith, b, times_valued-count_tags m uses h.0),
      )

-- A property of what a map without repeated keys gives is one of its pairs.
All-pairs :
    {V : Type 0} (P : String × V → Type 0) (m : Assoc V)
    → Distinct m
    → ((k : String) (v : V) → get k m ≡ some v → P (k, v))
    → All P m
unfolding get
All-pairs P [] h f = tt
All-pairs P ((j, v) ∷ m) h f = (
  f j v (ground (arith, eq_iff j j)),
  All-pairs P m h.1 (λ k w e. f k w (ground (arith, e, eq_iff j k))),
)

abbrev HasDistinct : Use → Type 0
HasDistinct u = Distinct u.counts

-- The counts are under their own keys, and each has its values once.
abbrev IsSound : Assoc Use → Type 0
IsSound uses = Keyed (λ u. u.key) uses × All HasDistinct (values uses)

use_of-IsSound :
    (k : String) (uses : Assoc Use)
    → IsSound uses
    → ((or_else (get k uses) (unused k)).key ≡ k) × HasDistinct (or_else (get k uses) (unused k))
unfolding unused
use_of-IsSound k uses h = elim (Option-cases (get k uses)) [
  | inl e ↦ rw e (refl, tt)
  | inr (u, e) ↦ rw e (key_of-get (λ u. u.key) k uses u h.0 e, All-get HasDistinct k uses u h.1 e)
]

count_tag-IsSound : (k v : String) (uses : Assoc Use) → IsSound uses → IsSound (count_tag k v uses)
unfolding count_tag with_value
count_tag-IsSound k v uses h =
    let (a, b) = use_of-IsSound k uses h in
    let u : Use = with_value v (or_else (get k uses) (unused k)) in
    (
      Keyed-put (λ u. u.key) k u uses a h.0,
      All-values-put HasDistinct k u uses (Distinct-put v _ _ b) h.1,
    )

count_tags-IsSound :
    (m : Assoc String) (uses : Assoc Use) → IsSound uses → IsSound (count_tags m uses)
unfolding count_tags
count_tags-IsSound [] uses h = h
count_tags-IsSound ((k, v) ∷ m) uses h =
    count_tags-IsSound m (count_tag k v uses) (count_tag-IsSound k v uses h)

count_all-IsSound :
    (ms : List (Assoc String)) (uses : Assoc Use) → IsSound uses → IsSound (count_all ms uses)
unfolding count_all
count_all-IsSound [] uses h = h
count_all-IsSound (m ∷ ms) uses h =
    count_all-IsSound ms (count_tags m uses) (count_tags-IsSound m uses h)

-- An entry of the catalogue of maps counts those that have its key, and for each value those that have it.
abbrev pub IsCounted : List (Assoc String) → Use → Type 0
IsCounted ms u =
    (u.resource_count ≡ sum_of (carries u.key) ms)
    × All (λ c. c.1 ≡ sum_of (carries_value u.key c.0) ms) u.counts

module _ (ms : List (Assoc String)) (tidy : All Distinct ms) where
  abbrev uses : Assoc Use
  uses = count_all ms []

  sound : IsSound uses
  unfolding values
  sound = count_all-IsSound ms [] (tt, tt)

  use-IsCounted : (u : Use) → get u.key uses ≡ some u → IsCounted ms u
  unfolding get values unused
  use-IsCounted u e = (
    ground (arith, e, (count_all-counts u.key "" ms [] tidy).0),
    All-pairs _ u.counts (All-get HasDistinct u.key uses u sound.1 e)
        (λ w n q. ground (arith, e, q, (count_all-counts u.key w ms [] tidy).1)),
  )

  with_sorted-IsCounted : (u : Use) → IsCounted ms u → IsCounted ms (with_sorted u)
  unfolding with_sorted
  with_sorted-IsCounted u h = (h.0, All-sort_by _ _ u.counts h.1)

All-map :
    {A B : Type 0} (P : A → Type 0) (Q : B → Type 0) (f : A → B) (xs : List A)
    → ((x : A) → P x → Q (f x))
    → All P xs
    → All Q (map f xs)
All-map P Q f [] g h = tt
All-map P Q f (x ∷ xs) g h = (g x h.0, All-map P Q f xs g h.1)

-- Of resources whose tags have no key twice, each entry of the catalogue says how many have its key, and for each
-- value that it lists how many have the key with that value.
pub catalog-IsCounted :
    (s : TagService) → All Distinct (values s.tags) → All (IsCounted (values s.tags)) (catalog s)
unfolding catalog
catalog-IsCounted s tidy =
    let ms = values s.tags in
    All-map (IsCounted ms) (IsCounted ms) with_sorted _ (with_sorted-IsCounted ms tidy) (
      All-sort_by (IsCounted ms) _ _ (
        All-mono _ (IsCounted ms) _ (use-IsCounted ms tidy)
          (All-values-get (λ u. u.key) (count_all ms []) (sound ms tidy).0)))
