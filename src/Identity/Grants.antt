-- ===== src/Identity/Grants.antt =====
-- What a role that is accepted may do.
use nuvrion.Common.{
  ◌<◌, length, ◌≡◌, refl, sym, subst, arith, String, true, false, ◌&&◌, not, none, some, List, [],
  ◌∷◌, any, every, All, filter_by, find_by, find_by-none, eq_iff, Bool-cases, Option-cases, inl,
  inr, ◌⊎◌, ◌∙◌,
}
use nuvrion.Identity.Roles.{
  permission_keys, needs, includes, granted, needs_also, missing_of, check_needs, check_keys,
  check_texts,
}

-- Filtering by membership keeps the keys that are in both lists.
includes-filter_by :
    (key : String) (raw keys : List String)
    → includes (filter_by (includes raw) keys) key ≡ (includes keys key && includes raw key)
includes-filter_by key raw [] = refl
includes-filter_by key raw (k ∷ ks) = ground (arith, eq_iff key k, includes-filter_by key raw ks)

all-known :
    (known raw : List String) (key : String)
    → any (λ k. not (includes known k)) raw ≡ false
    → includes raw key ≡ true
    → includes known key ≡ true
all-known known [] key h m = absurd (ground arith)
all-known known (k ∷ ks) key h m = ground (arith, eq_iff key k, all-known known ks key)

missing_of-none :
    (keys : List String) (needed : List String)
    → filter_by (λ n. not (includes keys n)) needed ≡ []
    → every (includes keys) needed ≡ true
missing_of-none keys [] h = refl
missing_of-none keys (n ∷ ns) h = elim (Bool-cases (includes keys n)) [
  | inl e ↦ ground (arith, missing_of-none keys ns)
  | inr e ↦ absurd (ground arith)
]

List-cases : (xs : List String) → (xs ≡ []) ⊎ ((y : String) × (ys : List String) × (xs ≡ y ∷ ys))
List-cases [] = inl refl
List-cases (y ∷ ys) = inr (y, ys, refl)

check_needs-next :
    (keys : List String) (k : String) (rest : List String)
    → missing_of keys k ≡ []
    → check_needs keys (k ∷ rest) ≡ check_needs keys rest
unfolding check_needs
check_needs-next keys k rest e = rw (e, check_needs) refl

check_needs-refused :
    (keys : List String) (k : String) (rest : List String) (m : String) (ms : List String)
    → missing_of keys k ≡ m ∷ ms
    → check_needs keys (k ∷ rest) ≡ needs_also k (m ∷ ms)
unfolding check_needs
check_needs-refused keys k rest m ms e = rw (e, check_needs) refl

-- The granted keys are those that were checked, and have all that they need.
check_needs-granted :
    (keys rest gs : List String)
    → check_needs keys rest ≡ granted gs
    → (gs ≡ keys) × All (λ k. every (includes keys) (needs k) ≡ true) rest
unfolding check_needs missing_of
check_needs-granted keys [] gs e = (ground arith, tt)
check_needs-granted keys (k ∷ rest) gs e = elim (List-cases (missing_of keys k)) [
  | inl q ↦
      let (same, all) =
        check_needs-granted keys rest gs (sym (check_needs-next keys k rest q) ∙ e) in
      (same, (missing_of-none keys (needs k) q, all))
  | inr (m, ms, q) ↦ absurd (refused m ms (sym (check_needs-refused keys k rest m ms q) ∙ e))
]
  where
    refused : (m : String) (ms : List String) → ¬ (needs_also k (m ∷ ms) ≡ granted gs)
    refused m ms h = absurd (ground arith)

check_keys-granted :
    (keys gs : List String)
    → check_keys keys ≡ granted gs
    → (gs ≡ keys) × (0 < length keys) × All (λ k. every (includes keys) (needs k) ≡ true) keys
unfolding check_keys
check_keys-granted [] gs e = absurd (ground arith)
check_keys-granted (k ∷ ks) gs e =
    let (same, all) = check_needs-granted (k ∷ ks) (k ∷ ks) gs e in (same, omega arith, all)

check_texts-known :
    (raw : List String)
    → find_by (λ key. not (includes permission_keys key)) raw ≡ none
    → check_texts raw ≡ check_keys (filter_by (includes raw) permission_keys)
unfolding check_texts
check_texts-known raw f = rw (f, check_texts) refl

check_texts-unknown :
    (raw gs : List String) (key : String)
    → find_by (λ k. not (includes permission_keys k)) raw ≡ some key
    → ¬ (check_texts raw ≡ granted gs)
unfolding check_texts
check_texts-unknown raw gs key f e = absurd (ground arith)

included :
    (raw : List String) (key : String)
    → find_by (λ k. not (includes permission_keys k)) raw ≡ none
    → includes (filter_by (includes raw) permission_keys) key ≡ includes raw key
included raw key f =
    let known = find_by-none (λ k. not (includes permission_keys k)) raw f in
    elim (Bool-cases (includes raw key)) [
      | inl e ↦
          rw
            (
              includes-filter_by key raw permission_keys,
              e,
              all-known permission_keys raw key known e,
            )
            refl
      | inr e ↦ ground (arith, includes-filter_by key raw permission_keys)
    ]

-- The permissions that a request is granted are not none; a key is among them exactly when the request has
-- it; and whatever one of them needs is among them.
pub check_texts-granted :
    (raw gs : List String) (key : String)
    → check_texts raw ≡ granted gs
    → (0 < length gs)
      × (includes gs key ≡ includes raw key)
      × All (λ k. every (includes gs) (needs k) ≡ true) gs
check_texts-granted raw gs key e =
    elim (Option-cases (find_by (λ k. not (includes permission_keys k)) raw)) [
      | inr (k, f) ↦ absurd (check_texts-unknown raw gs k f e)
      | inl f ↦
          let (same, some_key, closed) =
            check_keys-granted _ gs (sym (check_texts-known raw f) ∙ e) in
          subst
            (λ ks.
              (0 < length ks)
              × (includes ks key ≡ includes raw key)
              × All (λ k. every (includes ks) (needs k) ≡ true) ks)
            (sym same) (some_key, included raw key f, closed)
    ]
