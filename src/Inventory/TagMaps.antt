-- ===== src/Inventory/TagMaps.antt =====
-- Maps without repeated keys, sorted and written out as tags and back.
use Prim.Native.Nat.{Ordering}
use Prim.Native.String.{compare}
use package.text.Mathlib.Text.{is_lt, is_eq}
use nuvrion.Common.{
  ◌+◌, ◌≤◌, ◌≡◌, refl, arith, String, true, false, none, some, [], ◌∷◌, length, is_some, str_eq,
  eq_iff, get, put, remove, get-put, get-remove, Assoc, Bool-cases, inl, inr, if◌then◌else◌,
}
use nuvrion.Inventory.TagPlan.{insert_by_key, sort_by_key, tags_of}
use nuvrion.Inventory.TagStore.{map_of}

abbrev pub Distinct {ℓ} : {V : Type ℓ} → Assoc V → Type ℓ
Distinct [] = Unit
Distinct ((k, v) ∷ m) = (get k m ≡ none) × Distinct m

module _ {V : Type 0} (k : String) (v : V) where
  pub Distinct-put : (m : Assoc V) → Distinct m → Distinct (put k v m)
  unfolding get put
  Distinct-put [] h = (refl, tt)
  Distinct-put ((j, w) ∷ m) h =
      ground (arith, eq_iff j k, eq_iff k j, get-put k j v m, Distinct-put m h.1)

  pub length-put : (m : Assoc V) → length (put k v m) ≤ length m + 1
  unfolding put
  length-put [] = omega arith
  length-put ((j, w) ∷ m) = ground (arith, length-put m)

pub Distinct-remove : (k : String) (m : Assoc String) → Distinct m → Distinct (remove k m)
unfolding get remove
Distinct-remove k [] h = tt
Distinct-remove k ((j, w) ∷ m) h = ground (arith, get-remove k j m, Distinct-remove k m h.1)

-- A key that comes before another is not that one.
lt-ne : (j k : String) → is_lt (compare j k) ≡ true → str_eq j k ≡ false
lt-ne j k h = by_order (compare j k) h
  where
    by_order : (o : Ordering) → is_lt o ≡ true → is_eq o ≡ false
    by_order Ordering.lt e = refl
    by_order Ordering.eq e = cc
    by_order Ordering.gt e = refl

get-insert_by_key :
    (k j v : String) (m : Assoc String)
    → get j (insert_by_key k v m) ≡ (if str_eq k j then some v else get j m)
unfolding get insert_by_key
get-insert_by_key k j v [] = refl
get-insert_by_key k j v ((i, w) ∷ m) = elim (Bool-cases (is_lt (compare i k))) [
  | inl e ↦
      rw (e, insert_by_key)
        (ground (arith, eq_iff k j, eq_iff i k, eq_iff i j, lt-ne i k e, get-insert_by_key k j v m))
  | inr e ↦ rw (e, insert_by_key) refl
]

pub get-sort_by_key : (j : String) (m : Assoc String) → get j (sort_by_key m) ≡ get j m
unfolding get sort_by_key
get-sort_by_key j [] = refl
get-sort_by_key j ((k, v) ∷ m) =
    ground (arith, get-insert_by_key k j v (sort_by_key m), get-sort_by_key j m)

Distinct-insert_by_key :
    (k v : String) (m : Assoc String) → get k m ≡ none → Distinct m → Distinct (insert_by_key k v m)
unfolding get insert_by_key
Distinct-insert_by_key k v [] e h = (refl, tt)
Distinct-insert_by_key k v ((i, w) ∷ m) e h = elim (Bool-cases (is_lt (compare i k))) [
  | inl q ↦
      rw (q, insert_by_key)
        (
          ground (arith, eq_iff i k, eq_iff k i, lt-ne i k q, get-insert_by_key k i v m),
          Distinct-insert_by_key k v m (ground (arith, lt-ne i k q)) h.1,
        )
  | inr q ↦ rw (q, insert_by_key) (e, h)
]

pub Distinct-sort_by_key : (m : Assoc String) → Distinct m → Distinct (sort_by_key m)
unfolding sort_by_key
Distinct-sort_by_key [] h = tt
Distinct-sort_by_key ((k, v) ∷ m) h =
    Distinct-insert_by_key k v (sort_by_key m) (ground (arith, get-sort_by_key k m, h.0))
      (Distinct-sort_by_key m h.1)

length-insert_by_key :
    (k v : String) (m : Assoc String) → length (insert_by_key k v m) ≡ length m + 1
unfolding insert_by_key
length-insert_by_key k v [] = refl
length-insert_by_key k v ((i, w) ∷ m) = ground (arith, length-insert_by_key k v m)

pub length-sort_by_key : (m : Assoc String) → length (sort_by_key m) ≡ length m
unfolding sort_by_key
length-sort_by_key [] = refl
length-sort_by_key ((k, v) ∷ m) =
    omega (arith, length-insert_by_key k v (sort_by_key m), length-sort_by_key m)

pub length-tags_of : (m : Assoc String) → length (tags_of m) ≡ length m
unfolding tags_of
length-tags_of [] = refl
length-tags_of ((k, v) ∷ m) = omega (arith, length-tags_of m)

-- Read back as a map, the tags of a map without repeats are that map.
pub get-map_of :
    (j : String) (m n : Assoc String)
    → Distinct m
    → get j (map_of (tags_of m) n) ≡ (if is_some (get j m) then get j m else get j n)
unfolding get map_of tags_of
get-map_of j [] n h = refl
get-map_of j ((k, v) ∷ m) n h =
    ground (arith, eq_iff k j, get-map_of j m (put k v n) h.1, get-put k j v n)

pub Distinct-map_of : (m n : Assoc String) → Distinct n → Distinct (map_of (tags_of m) n)
unfolding map_of tags_of
Distinct-map_of [] n h = h
Distinct-map_of ((k, v) ∷ m) n h = Distinct-map_of m (put k v n) (Distinct-put k v n h)

pub length-map_of : (m n : Assoc String) → length (map_of (tags_of m) n) ≤ length m + length n
unfolding map_of tags_of
length-map_of [] n = omega arith
length-map_of ((k, v) ∷ m) n = omega (arith, length-map_of m (put k v n), length-put k v n)
