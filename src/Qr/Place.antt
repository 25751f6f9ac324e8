-- ===== src/Qr/Place.antt =====
-- Placing the version, the format and the codewords, of apps/web/qr.js.
use nuvrion.Common.{
  ℕ, zero, suc, ◌+◌, ◌-◌, ◌*◌, ◌/◌, ◌%◌, ◌^◌, Bool, true, false, not, List, [], ◌∷◌, get_elem?,
  or_else, ltb, ◌==◌, each, range, range_from, if◌then◌else◌,
}
use nuvrion.Qr.Codewords.{bits_of_bytes}
use nuvrion.Qr.Matrix.{Modules, Reserved, put_module, bch_format, bch_version}

-- ((info >>> i) & 1) === 1
unfoldable pub bit_at : ℕ → ℕ → Bool
bit_at info i = (info / 2 ^ i) % 2 == 1

-- placeVersion(modules, version)
unfoldable pub place_version : ℕ → ℕ → Modules → Modules
unfolding bit_at bch_version
place_version size version modules =
    let placed =
      each
        (λ i ms.
          let a = i / 3 in
          let b = i % 3 + size - 11 in
          let dark = bit_at (bch_version version) i in put_module b a dark (put_module a b dark ms))
        (range 18) modules in
    if ltb version 7 then modules else placed

-- placeFormat(modules, maskNumber)
unfoldable pub place_format : ℕ → ℕ → Modules → Modules
unfolding bit_at bch_format
place_format size mask_number modules =
    let bit = bit_at (bch_format mask_number) in
    let first = each (λ i. put_module i 8 (bit i)) (range 6) modules in
    let corner = put_module 8 7 (bit 8) (put_module 8 8 (bit 7) (put_module 7 8 (bit 6) first)) in
    let second = each (λ i. put_module 8 (14 - i) (bit i)) (range_from 6 9) corner in
    let third = each (λ i. put_module 8 (size - 1 - i) (bit i)) (range 8) second in
    let fourth = each (λ i. put_module (size - 15 + i) 8 (bit i)) (range_from 7 8) third in
    put_module (size - 8) 8 true fourth

-- MASKS
abbrev pub masks : List (ℕ → ℕ → Bool)
masks =
    (λ r c. (r + c) % 2 == 0)
    ∷ (λ r c. r % 2 == 0)
    ∷ (λ r c. c % 3 == 0)
    ∷ (λ r c. (r + c) % 3 == 0)
    ∷ (λ r c. (r / 2 + c / 3) % 2 == 0)
    ∷ (λ r c. (r * c) % 2 + (r * c) % 3 == 0)
    ∷ (λ r c. ((r * c) % 2 + (r * c) % 3) % 2 == 0)
    ∷ (λ r c. ((r + c) % 2 + (r * c) % 3) % 2 == 0)
    ∷ []

-- MASKS[maskNumber](r, c), for a mask from 0 to 7
unfoldable pub mask : ℕ → ℕ → ℕ → Bool
mask mask_number = or_else (get_elem? masks mask_number) (λ r c. false)

-- The columns that placeData starts from, to the left by two: 6 becomes 5.
unfoldable pub columns : ℕ → ℕ → List ℕ
columns zero column = []
columns (suc n) column =
    let here = if column == 6 then 5 else column in
    let rest = columns n (here - 2) in if column == 0 then [] else here ∷ rest

-- The modules so far, and the bits that are left.
pub record Drawing : Type 0 where
  pub modules : Modules
  pub left : List ℕ

-- at < bits.length ? bits[at] === 1 : false
abbrev pub next_bit : List ℕ → Bool
next_bit [] = false
next_bit (bit ∷ bits) = bit == 1

abbrev pub later_bits : List ℕ → List ℕ
later_bits [] = []
later_bits (bit ∷ bits) = bits

module _ (reserved : Reserved) (mask_number : ℕ) where
  -- One module of placeData.
  unfoldable pub place_bit : ℕ → ℕ → Drawing → Drawing
  unfolding mask
  place_bit row column d = if reserved row column then d else record {
    modules =
        put_module row column
          (if mask mask_number row column then not (next_bit d.left) else next_bit d.left)
          d.modules;
    left = later_bits d.left;
  }

  unfoldable pub place_column : ℕ → Bool → ℕ → Drawing → Drawing
  unfolding place_bit
  place_column size upward column d =
      each
        (λ step e.
          let row = if upward then size - 1 - step else step in
          place_bit row (column - 1) (place_bit row column e))
        (range size) d

  unfoldable pub place_columns : ℕ → Bool → List ℕ → Drawing → Drawing
  unfolding place_column
  place_columns size upward [] d = d
  place_columns size upward (column ∷ rest) d =
      place_columns size (not upward) rest (place_column size upward column d)

  -- placeData(modules, reserved, codewords, maskNumber); as many rounds as columns are enough
  unfoldable pub place_data : ℕ → List ℕ → Modules → Modules
  unfolding place_columns columns bits_of_bytes
  place_data size codewords modules =
      (place_columns size true (columns size (size - 1))
        (record { modules = modules; left = bits_of_bytes codewords })).modules
