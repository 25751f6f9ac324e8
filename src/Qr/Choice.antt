-- ===== src/Qr/Choice.antt =====
-- `encode` of apps/web/qr.js: which mask is chosen, and what placing data leaves alone.
use nuvrion.Common.{
  ℕ, ◌-◌, ◌≤◌, ◌≡◌, refl, subst, ◌∙◌, arith, Bool, true, not, List, [], ◌∷◌, All, each, range,
  length, if◌then◌else◌,
}
use nuvrion.Common.Results.{ok, >>=-eq-ok}
use nuvrion.Qr.Codewords.{choose_version, data_codewords, interleave}
use nuvrion.Qr.Matrix.{Modules, Reserved}
use nuvrion.Qr.Place.{Drawing, place_bit, place_column, place_columns, place_data, columns}
use nuvrion.Qr.Encode.{Candidate, candidate, better, best_of, encode}

module _ (draw : ℕ → Candidate) where
  better-le :
      (best c : Candidate)
      → ((better best c).score ≤ best.score) × ((better best c).score ≤ c.score)
  unfolding better
  better-le best c = ground arith

  best_of-le :
      (ns : List ℕ) (best : Candidate)
      → ((best_of draw ns best).score ≤ best.score)
        × All (λ n. (best_of draw ns best).score ≤ (draw n).score) ns
  unfolding best_of
  best_of-le [] best = (omega arith, tt)
  best_of-le (n ∷ ns) best =
      let (old, new) = better-le best (draw n) in
      let (a, b) = best_of-le ns (better best (draw n)) in
      ((omega (arith, a, old)), ((omega (arith, a, new)), b))

-- The penalty of this candidate is at most that of every mask from 0 to 7.
abbrev Least : List ℕ → Candidate → ℕ → Type 0
Least bytes best version =
    All
      (λ n.
        best.score
        ≤ (candidate version (interleave (data_codewords bytes version) version) n).score)
      (range 8)

-- The mask that `encode` chooses has a penalty that is at most that of every mask from 0 to 7.
encode-Least :
    (bytes : List ℕ) (version : ℕ) (best : Candidate)
    → choose_version (length bytes) ≡ ok version
    → encode bytes ≡ ok best
    → Least bytes best version
unfolding encode
encode-Least bytes version best v e =
    let (w, chosen, made) = >>=-eq-ok (choose_version (length bytes)) _ e in
    let codewords = interleave (data_codewords bytes w) w in
    let draw = candidate w codewords in
    let chosen_best : best_of draw (1 ∷ 2 ∷ 3 ∷ 4 ∷ 5 ∷ 6 ∷ 7 ∷ []) (draw 0) ≡ best = cc in
    let same : w ≡ version = cc in
    let (first, others) = best_of-le draw (1 ∷ 2 ∷ 3 ∷ 4 ∷ 5 ∷ 6 ∷ 7 ∷ []) (draw 0) in
    subst (Least bytes best) same (subst (λ b. Least bytes b w) chosen_best (first, others))

module _ (reserved : Reserved) (mask_number r c : ℕ) (held : reserved r c ≡ true) where
  place_bit-kept :
      (row column : ℕ) (d : Drawing)
      → (place_bit reserved mask_number row column d).modules r c ≡ d.modules r c
  unfolding place_bit
  place_bit-kept row column d = ground arith

  place_columns-kept :
      (size : ℕ) (upward : Bool) (cs : List ℕ) (d : Drawing)
      → (place_columns reserved mask_number size upward cs d).modules r c ≡ d.modules r c
  unfolding place_columns place_column
  place_columns-kept size upward [] d = refl
  place_columns-kept size upward (column ∷ rest) d =
      place_columns-kept size (not upward) rest
        (place_column reserved mask_number size upward column d)
      ∙ by_steps (range size) d
    where
      by_steps :
          (steps : List ℕ) (d' : Drawing)
          → (each
                (λ step e.
                  let row = if upward then size - 1 - step else step in
                  place_bit reserved mask_number row
                    (column - 1)
                    (place_bit reserved mask_number row column e))
                steps
                d').modules
              r c
            ≡ d'.modules r c
      by_steps [] d' = refl
      by_steps (step ∷ steps) d' =
          let row = if upward then size - 1 - step else step in
          let once = place_bit reserved mask_number row column d' in
          by_steps steps (place_bit reserved mask_number row (column - 1) once)
          ∙ place_bit-kept row (column - 1) once
          ∙ place_bit-kept row column d'

  -- Placing data, of any length and under any mask, changes no reserved module.
  pub place_data-kept :
      (size : ℕ) (codewords : List ℕ) (modules : Modules)
      → place_data reserved mask_number size codewords modules r c ≡ modules r c
  unfolding place_data
  place_data-kept size codewords modules =
      place_columns-kept size true (columns size (size - 1))
        (record { modules = modules; left = _ })
