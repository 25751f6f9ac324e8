-- ===== src/Qr/Field.antt =====
-- Reed-Solomon over GF(256), of apps/web/qr.js.
use Prim.Native.Nat.{bit_xor}
use nuvrion.Common.{
  ℕ, zero, suc, ◌+◌, ◌*◌, ◌%◌, ◌||◌, List, [], ◌∷◌, ◌++◌, get_elem?, or_else, leb, ◌==◌,
  if◌then◌else◌,
}

-- x <<= 1; if (x & 256) x ^= 0x11d, for x below 256
unfoldable pub double : ℕ → ℕ
double x = if leb 256 (x * 2) then bit_xor (x * 2) 0x11d else x * 2

unfoldable pub powers : ℕ → ℕ → List ℕ
unfolding double
powers zero x = []
powers (suc n) x = x ∷ powers n (double x)

-- EXP: the table goes on with its first part, EXP[i] = EXP[i - 255]
unfoldable pub exp_at : ℕ → ℕ
unfolding powers
exp_at i = or_else (get_elem? (powers 255 1) (i % 255)) 0

unfoldable pub index_of : ℕ → ℕ → List ℕ → ℕ
index_of x i [] = 0
index_of x i (y ∷ ys) = if y == x then i else index_of x (i + 1) ys

-- LOG
unfoldable pub log_at : ℕ → ℕ
unfolding powers index_of
log_at x = index_of x 0 (powers 255 1)

unfoldable pub multiply : ℕ → ℕ → ℕ
unfolding exp_at log_at
multiply a b = if a == 0 || b == 0 then 0 else exp_at (log_at a + log_at b)

-- The round of generator(degree) for one i: next[j] is poly[j] ^ multiply(poly[j - 1], EXP[i]).
unfoldable pub next_poly : ℕ → ℕ → List ℕ → List ℕ
unfolding multiply
next_poly root carry [] = carry ∷ []
next_poly root carry (c ∷ cs) = bit_xor carry c ∷ next_poly root (multiply c root) cs

unfoldable pub generator_from : ℕ → ℕ → List ℕ → List ℕ
unfolding next_poly exp_at
generator_from zero i poly = poly
generator_from (suc n) i poly = generator_from n (i + 1) (next_poly (exp_at i) 0 poly)

-- generator(degree)
unfoldable pub generator : ℕ → List ℕ
unfolding generator_from
generator degree = generator_from degree 0 (1 ∷ [])

-- result[i] ^= multiply(coefficient, factor), for each coefficient
unfoldable pub xor_onto : ℕ → List ℕ → List ℕ → List ℕ
unfolding multiply
xor_onto factor result [] = result
xor_onto factor [] (c ∷ cs) = multiply c factor ∷ xor_onto factor [] cs
xor_onto factor (r ∷ rs) (c ∷ cs) = bit_xor r (multiply c factor) ∷ xor_onto factor rs cs

abbrev pub first_or_zero : List ℕ → ℕ
first_or_zero [] = 0
first_or_zero (x ∷ xs) = x

abbrev pub after_first : List ℕ → List ℕ
after_first [] = []
after_first (x ∷ xs) = xs

-- One byte of reedSolomon's loop.
unfoldable pub divide_step : List ℕ → ℕ → List ℕ → List ℕ
unfolding xor_onto
divide_step gen byte result =
    let factor = bit_xor byte (first_or_zero result) in
    let shifted = after_first result ++ 0 ∷ [] in
    if factor == 0 then shifted else xor_onto factor shifted (after_first gen)

unfoldable pub divide : List ℕ → List ℕ → List ℕ → List ℕ
unfolding divide_step
divide gen [] result = result
divide gen (byte ∷ bytes) result = divide gen bytes (divide_step gen byte result)

unfoldable pub zeros : ℕ → List ℕ
zeros zero = []
zeros (suc n) = 0 ∷ zeros n

-- reedSolomon(bytes, degree)
unfoldable pub reed_solomon : List ℕ → ℕ → List ℕ
unfolding generator divide zeros
reed_solomon bytes degree = divide (generator degree) bytes (zeros degree)
