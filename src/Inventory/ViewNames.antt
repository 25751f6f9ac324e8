-- ===== src/Inventory/ViewNames.antt =====
-- Views of one person with the same name, and what `#checkName` of view-service.js says of them.
use nuvrion.Common.{
  ◌+◌, ◌≤◌, ◌≡◌, refl, ap, subst, arith, String, Bool, true, false, ◌&&◌, ◌||◌, not, none, some,
  List, [], ◌∷◌, any, length, str_eq, eq_iff, get, put, remove, values, get-remove, Assoc, Keyed,
  Bool-cases, inl, inr, if◌then◌else◌,
}
use nuvrion.Common.Json.{Platform}
use nuvrion.Inventory.ViewStore.{Item, mine, name_taken}

-- How many more views of a person there are after one is stored.
pub length-mine-put :
    (u k : String) (v : Item) (m : Assoc Item)
    → length (mine u (put k v m)) ≤ length (mine u m) + (if str_eq v.user_id u then 1 else 0)
unfolding mine put values
length-mine-put u k v [] = ground arith
length-mine-put u k v ((j, w) ∷ m) = ground (arith, length-mine-put u k v m)

pub length-mine-own :
    (u k : String) (v w : Item) (m : Assoc Item)
    → get k m ≡ some w
    → v.user_id ≡ w.user_id
    → length (mine u (put k v m)) ≡ length (mine u m)
unfolding mine put values get
length-mine-own u k v w [] h e = absurd (cc)
length-mine-own u k v w ((j, x) ∷ m) h e = elim (Bool-cases (str_eq j k)) [
  | inl q ↦
      let same : x ≡ w = ground arith in rw (q, put) (ground (arith, ap (λ i. i.user_id) same))
  | inr q ↦
      let found : get k m ≡ some w = ground arith in
      ground (arith, length-mine-own u k v w m found e)
]

pub length-mine-remove :
    (u k : String) (m : Assoc Item) → length (mine u (remove k m)) ≤ length (mine u m)
unfolding mine remove values
length-mine-remove u k [] = omega arith
length-mine-remove u k ((j, w) ∷ m) = ground (arith, length-mine-remove u k m)

pub Keyed-remove :
    (k : String) (m : Assoc Item) → Keyed (λ item. item.id) m → Keyed (λ item. item.id) (remove k m)
unfolding get remove
Keyed-remove k [] h = tt
Keyed-remove k ((j, w) ∷ m) h = elim (Bool-cases (str_eq j k)) [
  | inl q ↦ rw (q, remove) (Keyed-remove k m h.2)
  | inr q ↦ rw (q, remove) (h.0, (ground (arith, get-remove k j m, h.1)), Keyed-remove k m h.2)
]

module _ (platform : Platform) where
  abbrev pub clashes : String → String → Item → Bool
  clashes user name w =
      str_eq w.user_id user && str_eq (platform.lower w.name) (platform.lower name)

  -- No two views of a person have the same name, in lower case.
  abbrev pub Apart : List Item → Type 0
  Apart [] = Unit
  Apart (x ∷ xs) = (any (clashes x.user_id x.name) xs ≡ false) × Apart xs

  -- No view under another key has this person and name.
  abbrev pub is_clear : String → String → String → Assoc Item → Bool
  is_clear k user name [] = true
  is_clear k user name ((j, w) ∷ m) =
      (str_eq j k || not (clashes user name w)) && is_clear k user name m

  is_clear-any :
      (k user name : String) (m : Assoc Item)
      → get k m ≡ none
      → is_clear k user name m ≡ true
      → any (clashes user name) (values m) ≡ false
  unfolding get values
  is_clear-any k user name [] h c = refl
  is_clear-any k user name ((j, w) ∷ m) h c = ground (arith, is_clear-any k user name m)

  any-put :
      (k : String) (v : Item) (user name : String) (m : Assoc Item)
      → clashes user name v ≡ false
      → any (clashes user name) (values m) ≡ false
      → any (clashes user name) (values (put k v m)) ≡ false
  unfolding put values
  any-put k v user name [] c h = rw c refl
  any-put k v user name ((j, w) ∷ m) c h = ground (arith, any-put k v user name m)

  clashes-sym :
      (v w : Item) → clashes v.user_id v.name w ≡ false → clashes w.user_id w.name v ≡ false
  clashes-sym v w h = ground (
    arith,
    eq_iff v.user_id w.user_id,
    eq_iff w.user_id v.user_id,
    eq_iff (platform.lower v.name) (platform.lower w.name),
    eq_iff (platform.lower w.name) (platform.lower v.name),
  )

  pub Apart-put :
      (k : String) (v : Item) (m : Assoc Item)
      → Keyed (λ item. item.id) m
      → is_clear k v.user_id v.name m ≡ true
      → Apart (values m)
      → Apart (values (put k v m))
  unfolding put values
  Apart-put k v [] d c h = (refl, tt)
  Apart-put k v ((j, w) ∷ m) d c h = elim (Bool-cases (str_eq j k)) [
    | inl q ↦
        let same : j ≡ k = (eq_iff j k).0 q in
        rw (q, put) (is_clear-any k v.user_id v.name m (rw (← same) d.1) (ground arith), h.1)
    | inr q ↦
        rw (q, put)
          (
            any-put k v w.user_id w.name m (clashes-sym v w (ground arith)) h.0,
            Apart-put k v m d.2 (ground arith) h.1,
          )
  ]

  any-remove :
      (k user name : String) (m : Assoc Item)
      → any (clashes user name) (values m) ≡ false
      → any (clashes user name) (values (remove k m)) ≡ false
  unfolding remove values
  any-remove k user name [] h = refl
  any-remove k user name ((j, w) ∷ m) h = ground (arith, any-remove k user name m)

  pub Apart-remove : (k : String) (m : Assoc Item) → Apart (values m) → Apart (values (remove k m))
  unfolding remove values
  Apart-remove k [] h = tt
  Apart-remove k ((j, w) ∷ m) h = elim (Bool-cases (str_eq j k)) [
    | inl q ↦ rw (q, remove) (Apart-remove k m h.1)
    | inr q ↦ rw (q, remove) (any-remove k w.user_id w.name m h.0, Apart-remove k m h.1)
  ]

  -- A name that is not taken is clear of the others.
  pub not_taken-clear :
      (k user name : String) (m : Assoc Item)
      → Keyed (λ item. item.id) m
      → name_taken platform user name (some k) m ≡ false
      → is_clear k user name m ≡ true
  unfolding name_taken mine values
  not_taken-clear k user name [] d h = refl
  not_taken-clear k user name ((j, w) ∷ m) d h =
      ground (arith, d.0, not_taken-clear k user name m d.2)

  pub never_taken-clear :
      (k user name : String) (m : Assoc Item)
      → name_taken platform user name none m ≡ false
      → is_clear k user name m ≡ true
  unfolding name_taken mine values
  never_taken-clear k user name [] h = refl
  never_taken-clear k user name ((j, w) ∷ m) h = ground (arith, never_taken-clear k user name m)

  any-clear :
      (k user name : String) (m : Assoc Item)
      → any (clashes user name) (values m) ≡ false
      → is_clear k user name m ≡ true
  unfolding values
  any-clear k user name [] h = refl
  any-clear k user name ((j, w) ∷ m) h = ground (arith, any-clear k user name m)

  any-get :
      (user name k : String) (item : Item) (m : Assoc Item)
      → get k m ≡ some item
      → any (clashes user name) (values m) ≡ false
      → clashes user name item ≡ false
  unfolding get values
  any-get user name k item [] e h = absurd (cc)
  any-get user name k item ((j, w) ∷ m) e h = elim (Bool-cases (str_eq j k)) [
    | inl q ↦
        let same : w ≡ item = ground arith in
        subst (λ i. clashes user name i ≡ false) same (ground arith)
    | inr q ↦ any-get user name k item m (ground arith) (ground arith)
  ]

  -- A view that is there is clear of the others.
  pub own-clear :
      (k : String) (item : Item) (m : Assoc Item)
      → Keyed (λ item. item.id) m
      → get k m ≡ some item
      → Apart (values m)
      → is_clear k item.user_id item.name m ≡ true
  unfolding get values
  own-clear k item [] d e h = refl
  own-clear k item ((j, w) ∷ m) d e h = elim (Bool-cases (str_eq j k)) [
    | inl q ↦
        let same : w ≡ item = ground arith in
        ground (
          arith,
          any-clear j item.user_id item.name m,
          (eq_iff j k).0 q,
          subst (λ i. any (clashes i.user_id i.name) (values m) ≡ false) same h.0,
        )
    | inr q ↦
        let found : get k m ≡ some item = ground arith in
        let clear = own-clear k item m d.2 found h.1 in
        ground (arith, clashes-sym w item (any-get w.user_id w.name k item m found h.0))
  ]
