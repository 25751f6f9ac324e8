-- ===== src/Common/Dict.antt =====
-- JavaScript's `Map` with text keys: an association list in insertion order. Setting a key that is
-- there keeps its place, a new key goes to the end, and deleting a key closes its place.
use Prim.Native.String.{String}
use mathlib.Core.Path.{◌≡◌, refl, subst}
use mathlib.Core.Option.{Option, none, some}
use mathlib.Core.List.{List, [], ◌∷◌}
use native.Mathlib.Omega.{arith}
use text.Mathlib.Text.{◌==◌ as str_eq}
use text.Mathlib.TextEquality.{eq_iff}
use text.Mathlib.TextPositions.{eq_refl}
use mathlib.Core.Bool.{Bool}
use mathlib.Core.Logic.{inl, inr}
use nuvrion.Common.Lists.{find_by, All, All-mono}
use nuvrion.Common.Tests.{if◌then◌else◌, Bool-cases}

abbrev pub Assoc {ℓ} : Type ℓ → Type ℓ
Assoc V = List (String × V)

module _ {ℓ} {V : Type ℓ} where
  -- m.get(k)
  unfoldable pub get : String → Assoc V → Option V
  get k [] = none
  get k ((j, v) ∷ m) = if str_eq j k then some v else get k m

  -- m.set(k, v)
  unfoldable pub put : String → V → Assoc V → Assoc V
  put k v [] = (k, v) ∷ []
  put k v ((j, w) ∷ m) = if str_eq j k then (j, v) ∷ m else (j, w) ∷ put k v m

  -- m.delete(k)
  unfoldable pub remove : String → Assoc V → Assoc V
  remove k [] = []
  remove k ((j, w) ∷ m) = let rest = remove k m in if str_eq j k then rest else (j, w) ∷ rest

  -- [...m.values()]
  unfoldable pub values : Assoc V → List V
  values [] = []
  values ((k, v) ∷ m) = v ∷ values m

  abbrev pub keys : Assoc V → List String
  keys [] = []
  keys ((k, v) ∷ m) = k ∷ keys m

  pub get-put :
      (k j : String) (v : V) (m : Assoc V)
      → get j (put k v m) ≡ (if str_eq k j then some v else get j m)
  unfolding get put
  get-put k j v [] = refl
  get-put k j v ((i, w) ∷ m) = ground (arith, eq_iff k j, eq_iff i k, eq_iff i j, get-put k j v m)

  pub get-put_self : (k : String) (v : V) (m : Assoc V) → get k (put k v m) ≡ some v
  get-put_self k v m = simp (get-put, eq_refl)

  pub get-remove :
      (k j : String) (m : Assoc V) → get j (remove k m) ≡ (if str_eq k j then none else get j m)
  unfolding get remove
  get-remove k j [] = ground arith
  get-remove k j ((i, w) ∷ m) = ground (arith, eq_iff k j, eq_iff i k, eq_iff i j, get-remove k j m)

  -- Setting a key that is there keeps the keys and their order.
  pub keys-put : (k : String) (v w : V) (m : Assoc V) → get k m ≡ some w → keys (put k v m) ≡ keys m
  unfolding get put
  keys-put k v w [] h = cc
  keys-put k v w ((i, u) ∷ m) h = ground (arith, keys-put k v w m)

pub ruleset dict_laws = (get-put, get-remove)

-- A map whose values carry their own keys, and no key twice.
module _ {ℓ} {V : Type ℓ} (key_of : V → String) where
  abbrev pub Keyed : Assoc V → Type ℓ
  Keyed [] = Unit
  Keyed ((k, v) ∷ m) = (key_of v ≡ k) × (get k m ≡ none) × Keyed m

  pub Keyed-put : (k : String) (v : V) (m : Assoc V) → key_of v ≡ k → Keyed m → Keyed (put k v m)
  unfolding get put
  Keyed-put k v [] e h = (e, refl, tt)
  Keyed-put k v ((j, w) ∷ m) e h =
      ground (arith, eq_iff j k, eq_iff k j, get-put k j v m, Keyed-put k v m e h.2)

  -- A value that a search finds is the one under its own key.
  pub get-find_by :
      (p : V → Bool) (m : Assoc V) (v : V)
      → Keyed m
      → find_by p (values m) ≡ some v
      → get (key_of v) m ≡ some v
  unfolding get values
  get-find_by p [] v h e = absurd (cc)
  get-find_by p ((j, w) ∷ m) v h e = elim (Bool-cases (p w)) [
    | inl t ↦ ground (arith, eq_iff j (key_of v))
    | inr f ↦ ground (arith, eq_iff j (key_of v), get-find_by p m v h.2)
  ]

  -- Each value is the one under its own key.
  pub All-values-get : (m : Assoc V) → Keyed m → All (λ v. get (key_of v) m ≡ some v) (values m)
  unfolding get values
  All-values-get [] h = tt
  All-values-get ((k, w) ∷ m) h = (
    ground (arith, eq_iff k (key_of w)),
    All-mono _ _ (values m) (λ v e. ground (arith, eq_iff k (key_of v))) (All-values-get m h.2),
  )

  pub key_of-get : (k : String) (m : Assoc V) (v : V) → Keyed m → get k m ≡ some v → key_of v ≡ k
  unfolding get
  key_of-get k [] v h e = absurd (cc)
  key_of-get k ((j, w) ∷ m) v h e = ground (arith, eq_iff j k, key_of-get k m v h.2)

module _ {ℓ κ} {V : Type ℓ} (P : V → Type κ) where
  pub All-values-put :
      (k : String) (v : V) (m : Assoc V) → P v → All P (values m) → All P (values (put k v m))
  unfolding put values
  All-values-put k v [] p h = (p, tt)
  All-values-put k v ((j, w) ∷ m) p h = elim (Bool-cases (str_eq j k)) [
    | inl e ↦ rw (e, put) (p, h.1)
    | inr e ↦ rw (e, put) (h.0, All-values-put k v m p h.1)
  ]

  pub All-values-remove :
      (k : String) (m : Assoc V) → All P (values m) → All P (values (remove k m))
  unfolding remove values
  All-values-remove k [] h = tt
  All-values-remove k ((j, w) ∷ m) h = elim (Bool-cases (str_eq j k)) [
    | inl e ↦ rw (e, remove) (All-values-remove k m h.1)
    | inr e ↦ rw (e, remove) (h.0, All-values-remove k m h.1)
  ]

  pub All-get : (k : String) (m : Assoc V) (v : V) → All P (values m) → get k m ≡ some v → P v
  unfolding get values
  All-get k [] v h e = absurd (cc)
  All-get k ((j, w) ∷ m) v h e = elim (Bool-cases (str_eq j k)) [
    | inl q ↦ let same : w ≡ v = ground arith in subst P same h.0
    | inr q ↦ All-get k m v h.1 (ground arith)
  ]
