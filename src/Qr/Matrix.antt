-- ===== src/Qr/Matrix.antt =====
-- The matrix before the text is placed, of apps/web/qr.js.
use Prim.Native.Nat.{bit_xor, bit_or}
use nuvrion.Common.{
  ℕ, zero, suc, ◌+◌, ◌-◌, ◌*◌, ◌/◌, ◌%◌, ◌^◌, Bool, true, ◌&&◌, ◌||◌, not, Option, none, some, List,
  [], ◌∷◌, is_some, get_elem?, or_else, ltb, leb, ◌==◌, each, range, range_from, if◌then◌else◌,
}

-- sizeOf(version)
unfoldable pub size_of : ℕ → ℕ
size_of version = 17 + 4 * version

abbrev pub format_level : ℕ
format_level = 0

-- if ((remainder >>> i) & 1) remainder ^= polynomial << (i - degree), for i from degree + n - 1 down to degree
unfoldable pub bch_remainder : ℕ → ℕ → ℕ → ℕ → ℕ
bch_remainder polynomial degree zero remainder = remainder
bch_remainder polynomial degree (suc n) remainder = bch_remainder polynomial degree n (
    if (remainder / 2 ^ (degree + n)) % 2 == 1
    then bit_xor remainder (polynomial * 2 ^ n)
    else remainder)

-- bchFormat(maskNumber)
unfoldable pub bch_format : ℕ → ℕ
unfolding bch_remainder
bch_format mask_number =
    let info = bit_or (format_level * 8) mask_number in
    bit_xor (bit_or (info * 2 ^ 10) (bch_remainder 0x537 10 5 (info * 2 ^ 10))) 0x5412

-- bchVersion(version)
unfoldable pub bch_version : ℕ → ℕ
unfolding bch_remainder
bch_version version = bit_or (version * 2 ^ 12) (bch_remainder 0x1f25 12 6 (version * 2 ^ 12))

-- ALIGNMENT
abbrev pub alignment_table : List (List ℕ)
alignment_table =
    []
    ∷ []
    ∷ (6 ∷ 18 ∷ [])
    ∷ (6 ∷ 22 ∷ [])
    ∷ (6 ∷ 26 ∷ [])
    ∷ (6 ∷ 30 ∷ [])
    ∷ (6 ∷ 34 ∷ [])
    ∷ (6 ∷ 22 ∷ 38 ∷ [])
    ∷ (6 ∷ 24 ∷ 42 ∷ [])
    ∷ (6 ∷ 26 ∷ 46 ∷ [])
    ∷ (6 ∷ 28 ∷ 50 ∷ [])
    ∷ []

-- ALIGNMENT[version], for a version from 1 to 10
unfoldable pub alignment : ℕ → List ℕ
alignment version = or_else (get_elem? alignment_table version) []

-- modules[row][column], where `none` is null
abbrev pub Modules : Type 0
Modules = ℕ → ℕ → Option Bool

-- modules[row][column] = dark
abbrev pub put_module : ℕ → ℕ → Bool → Modules → Modules
put_module row column dark modules =
    λ i j. if i == row && j == column then some dark else modules i j

-- set(row - shift, column - shift, dark), with its guard
unfoldable pub set_shifted : ℕ → ℕ → ℕ → ℕ → Bool → Modules → Modules
set_shifted size shift row column dark modules =
    if (leb shift row && ltb (row - shift) size) && (leb shift column && ltb (column - shift) size)
    then put_module (row - shift) (column - shift) dark modules
    else modules

-- Whether the finder pattern is dark at (r - 1, c - 1).
unfoldable pub finder_dark : ℕ → ℕ → Bool
finder_dark r c =
    (leb 1 r && leb r 7)
    && (leb 1 c && leb c 7)
    && (r == 1
        || (r == 7 || (c == 1 || (c == 7 || ((leb 3 r && leb r 5) && (leb 3 c && leb c 5))))))

-- finder(row, column)
unfoldable pub finder : ℕ → ℕ → ℕ → Modules → Modules
unfolding set_shifted finder_dark
finder size row column modules =
    each
      (λ r ms. each (λ c. set_shifted size 1 (row + r) (column + c) (finder_dark r c)) (range 9) ms)
      (range 9) modules

-- Math.max(Math.abs(r), Math.abs(c)), for r - 2 and c - 2
unfoldable pub ring : ℕ → ℕ → ℕ
ring r c = let a = (r - 2) + (2 - r) in let b = (c - 2) + (2 - c) in if leb a b then b else a

unfoldable pub alignment_pattern : ℕ → ℕ → ℕ → Modules → Modules
unfolding set_shifted ring
alignment_pattern size row column modules =
    each
      (λ r ms.
        each (λ c. set_shifted size 2 (row + r) (column + c) (not (ring r c == 1))) (range 5) ms)
      (range 5) modules

abbrev pub first_of : List ℕ → ℕ
first_of [] = 0
first_of (c ∷ cs) = c

abbrev pub last_of : List ℕ → ℕ
last_of [] = 0
last_of (c ∷ []) = c
last_of (c ∷ d ∷ cs) = last_of (d ∷ cs)

-- The centres that would sit on a finder pattern.
unfoldable pub on_finder : List ℕ → ℕ → ℕ → Bool
on_finder centres row column =
    let first = first_of centres in
    let last = last_of centres in
    (row == first && column == first)
    || ((row == first && column == last) || (row == last && column == first))

unfoldable pub alignment_patterns : ℕ → List ℕ → Modules → Modules
unfolding alignment_pattern on_finder
alignment_patterns size centres modules =
    each
      (λ row ms.
        each
          (λ column ns.
            if on_finder centres row column then ns else alignment_pattern size row column ns)
          centres ms)
      centres modules

unfoldable pub timing : ℕ → Modules → Modules
unfolding set_shifted
timing size modules =
    each (λ i ms. set_shifted size 0 i 6 (i % 2 == 0) (set_shifted size 0 6 i (i % 2 == 0) ms))
      (range_from (size - 8 - 8) 8) modules

abbrev pub Reserved : Type 0
Reserved = ℕ → ℕ → Bool

-- reserve(row, column)
abbrev pub reserve : ℕ → ℕ → Reserved → Reserved
reserve row column reserved = λ i j. (i == row && j == column) || reserved i j

unfoldable pub reserve_formats : ℕ → ℕ → Reserved → Reserved
reserve_formats size version reserved =
    let near = each (λ i rs. reserve i 8 (reserve 8 i rs)) (range 9) reserved in
    let far =
      each (λ i rs. reserve (size - 1 - i) 8 (reserve 8 (size - 1 - i) rs)) (range 8) near in
    let corners =
      each
        (λ i rs.
          each (λ j qs. reserve (size - 11 + j) i (reserve i (size - 11 + j) qs)) (range 3) rs)
        (range 6) far in
    if leb 7 version then corners else far

unfoldable pub patterns : ℕ → Modules
unfolding finder timing alignment_patterns size_of alignment
patterns version =
    let size = size_of version in
    let finders =
      finder size (size - 7) 0 (finder size 0 (size - 7) (finder size 0 0 (λ i j. none))) in
    set_shifted size 0 (size - 8) 8 true
      (alignment_patterns size (alignment version) (timing size finders))

-- blank(version)
unfoldable pub blank : ℕ → Modules × Reserved
unfolding patterns reserve_formats size_of
blank version =
    let modules = patterns version in
    (modules, reserve_formats (size_of version) version (λ i j. is_some (modules i j)))
