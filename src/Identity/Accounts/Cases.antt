-- ===== src/Identity/Accounts/Cases.antt =====
-- What holds after a method of modules/identity/src/identity-service.js, or of the entries of a map, case by case.
use nuvrion.Common.{
  ◌≡◌, refl, subst, eq_iff, ◌∷◌, arith, String, Bool, true, false, Option, none, some, [], str_eq,
  get, put, remove, All, Assoc, Bool-cases, inl, inr, if◌then◌else◌,
}
use nuvrion.Common.Results.{Result, ok, err}
use nuvrion.Identity.Accounts.State.{Service, AccountError, Outcome, after}

-- What holds of the state after a method holds if it does in each case.
module _ (P : Service → Type 0) {A : Type 0} where
  pub after-each :
      {B : Type 0} (s : Service) (r : Result AccountError B) (next : B → Outcome A)
      → P s
      → ((b : B) → r ≡ ok b → P (next b).1)
      → P (after s r next).1
  after-each s (err e) next h f = h
  after-each s (ok b) next h f = f b refl

  pub Option-each :
      {B : Type 0} (found : Option B) (absent : A × Service) (next : B → A × Service)
      → P absent.1
      → ((b : B) → found ≡ some b → P (next b).1)
      → P (elim found as (λ _. A × Service) [ none ↦ absent | some b ↦ next b ]).1
  Option-each none absent next h f = h
  Option-each (some b) absent next h f = f b refl

  pub if-each : (b : Bool) (x y : A × Service) → P x.1 → P y.1 → P (if b then x else y).1
  if-each true x y hx hy = hx
  if-each false x y hx hy = hy

pub if-either :
    (P : Service → Type 0) (b : Bool) (x y : Service) → P x → P y → P (if b then x else y)
if-either P true x y hx hy = hx
if-either P false x y hx hy = hy

-- What holds of the entries of a map, keys included.
module _ {V : Type 0} (P : String × V → Type 0) where
  pub All-put : (k : String) (v : V) (m : Assoc V) → P (k, v) → All P m → All P (put k v m)
  unfolding put
  All-put k v [] p h = (p, tt)
  All-put k v ((j, w) ∷ m) p h = elim (Bool-cases (str_eq j k)) [
    | inl e ↦
        let same : k ≡ j = ground (arith, eq_iff j k) in
        rw (e, put) (subst (λ i. P (i, v)) same p, h.1)
    | inr e ↦ rw (e, put) (h.0, All-put k v m p h.1)
  ]

  pub All-remove : (k : String) (m : Assoc V) → All P m → All P (remove k m)
  unfolding remove
  All-remove k [] h = tt
  All-remove k ((j, w) ∷ m) h = elim (Bool-cases (str_eq j k)) [
    | inl e ↦ rw (e, remove) (All-remove k m h.1)
    | inr e ↦ rw (e, remove) (h.0, All-remove k m h.1)
  ]

  pub All-get_entry : (k : String) (m : Assoc V) (v : V) → All P m → get k m ≡ some v → P (k, v)
  unfolding get
  All-get_entry k [] v h e = absurd (cc)
  All-get_entry k ((j, w) ∷ m) v h e = elim (Bool-cases (str_eq j k)) [
    | inl q ↦
        let same : j ≡ k = ground (arith, eq_iff j k) in
        let kept : w ≡ v = ground arith in
        subst (λ i. P (i, v)) same (subst (λ u. P (j, u)) kept h.0)
    | inr q ↦ All-get_entry k m v h.1 (ground arith)
  ]
