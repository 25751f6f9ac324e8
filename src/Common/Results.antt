-- ===== src/Common/Results.antt =====
-- Code that throws: a result, or the error that was thrown.
use mathlib.Core.Path.{◌≡◌, refl}
use mathlib.Core.Bool.{Bool, true, false}

pub data Result {ℓ} (E : Type 0) (A : Type ℓ) : Type ℓ where
  err : E → Result E A
  ok : A → Result E A

-- if (test) throw error
abbrev pub refuse_if : {E : Type 0} → Bool → E → Result E (Unit {0})
refuse_if false reason = ok tt
refuse_if true reason = err reason

infixl 5 ◌>>=◌
abbrev pub ◌>>=◌ {κ ℓ} :
    {E : Type 0} {B : Type κ} {A : Type ℓ} → Result E B → (B → Result E A) → Result E A
err reason >>= next = err reason
ok value >>= next = next value

infixl 5 ◌>>◌
abbrev pub ◌>>◌ {κ} : {E : Type 0} {A : Type κ} → Result E (Unit {0}) → Result E A → Result E A
check >> next = check >>= λ _. next

-- What the parts of a successful chain gave.
pub >>=-eq-ok {κ ℓ} :
    {E : Type 0} {B : Type κ} {A : Type ℓ} (first : Result E B) (next : B → Result E A) {made : A}
    → (first >>= next) ≡ ok made
    → (part : B) × (first ≡ ok part) × (next part ≡ ok made)
>>=-eq-ok (err reason) next h = cc
>>=-eq-ok (ok part) next h = (part, refl, h)

pub refuse_if-eq-ok {κ} :
    {E : Type 0} {B : Type κ} (b : Bool) (e : E) (k : Result E B) {r : B}
    → (refuse_if b e >> k) ≡ ok r
    → (b ≡ false) × (k ≡ ok r)
refuse_if-eq-ok true e k h = cc
refuse_if-eq-ok false e k h = (refl, h)

pub ok_eq {κ} : {E : Type 0} {A : Type κ} (a b : A) → ◌≡◌ {A = Result E A} (ok a) (ok b) → a ≡ b
ok_eq a b h = cc
