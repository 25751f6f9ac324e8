-- ===== src/Common/Trimming.antt =====
-- Laws of trim.
use mathlib.Core.Path.{◌≡◌, refl, ◌∙◌, ap}
use Prim.Native.Char.{Char, code}
use Prim.Native.String.{String}
use mathlib.Core.Bool.{false, ◌&&◌}
use mathlib.Core.Logic.{inl, inr}
use native.Mathlib.Omega.{arith}
use nuvrion.Common.Tests.{Bool-cases}
use nuvrion.Common.Text.{is_space, is_blank, trim_start, trim_end, trim}

is_blank-trim_end : (s : String) → is_blank (trim_end s) ≡ is_blank s
unfolding is_blank trim_end
is_blank-trim_end String.[] = refl
is_blank-trim_end (String.◌∷◌ c s) = elim (Bool-cases (is_space (code c) && is_blank s)) [
  | inl e ↦ rw (e) refl
  | inr e ↦ rw (e, is_blank-trim_end s, e) refl
]

trim_end-trim_end : (s : String) → trim_end (trim_end s) ≡ trim_end s
unfolding is_blank trim_end
trim_end-trim_end String.[] = refl
trim_end-trim_end (String.◌∷◌ c s) = elim (Bool-cases (is_space (code c) && is_blank s)) [
  | inl e ↦ rw (e) refl
  | inr e ↦ rw (e, is_blank-trim_end s, e, trim_end-trim_end s) refl
]

trim_start-cons :
    (c : Char) (s : String)
    → is_space (code c) ≡ false
    → trim_start (String.◌∷◌ c s) ≡ String.◌∷◌ c s
unfolding trim_start
trim_start-cons c s e = rw (e) refl

trim_end-cons :
    (c : Char) (s : String)
    → is_space (code c) ≡ false
    → trim_end (String.◌∷◌ c s) ≡ String.◌∷◌ c (trim_end s)
unfolding trim_end is_blank
trim_end-cons c s e = rw (e) refl

trim_start-trim : (s : String) → trim_start (trim s) ≡ trim s
unfolding trim
trim_start-trim String.[] = refl
trim_start-trim (String.◌∷◌ c s) = elim (Bool-cases (is_space (code c))) [
  | inl e ↦
      let skipped : trim_start (String.◌∷◌ c s) ≡ trim_start s = ground arith in
      rw skipped (trim_start-trim s)
  | inr e ↦ rw (trim_start-cons c s e, trim_end-cons c s e) (trim_start-cons c (trim_end s) e)
]

pub trim-trim : (s : String) → trim (trim s) ≡ trim s
unfolding trim
trim-trim s = ap trim_end (trim_start-trim s) ∙ trim_end-trim_end (trim_start s)
