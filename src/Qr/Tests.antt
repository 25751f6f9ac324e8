-- ===== src/Qr/Tests.antt =====
-- Runs of the QR encoder, and applications of its theorems.
use nuvrion.Common.{ℕ, ◌≡◌, refl, true, false, some, List, [], ◌∷◌, length, arith}
use nuvrion.Common.Results.{ok}
use nuvrion.Qr.Field.{multiply, generator}
use nuvrion.Qr.Codewords.{choose_version, data_codewords, data_capacity, interleave}
use nuvrion.Qr.Matrix.{bch_format, bch_version, blank}
use nuvrion.Qr.Place.{columns}
use nuvrion.Qr.Encode.{Candidate, candidate, best_of, encode, runs}
use nuvrion.Qr.Reading.{read_text}
use nuvrion.Qr.RoundTrip.{read_text-data_codewords}

product : multiply 0x53 0xca ≡ 0x8f
unfolding multiply
product = refl

-- The generator of ten codewords, as in the tables of the standard.
generator_10 : generator 10 ≡ 1 ∷ 216 ∷ 194 ∷ 159 ∷ 111 ∷ 199 ∷ 94 ∷ 95 ∷ 113 ∷ 157 ∷ 193 ∷ []
unfolding generator
generator_10 = refl

format_0 : bch_format 0 ≡ 0x5412
unfolding bch_format
format_0 = refl

version_7 : bch_version 7 ≡ 0x7c94
unfolding bch_version
version_7 = refl

column_order : columns 21 20 ≡ 20 ∷ 18 ∷ 16 ∷ 14 ∷ 12 ∷ 10 ∷ 8 ∷ 5 ∷ 3 ∷ 1 ∷ []
unfolding columns
column_order = refl

a_run : runs (true ∷ true ∷ true ∷ true ∷ true ∷ true ∷ false ∷ []) ≡ 4
unfolding runs
a_run = refl

-- "AB"
abbrev two_bytes : List ℕ
two_bytes = 65 ∷ 66 ∷ []

chosen : choose_version 2 ≡ ok 1
unfolding choose_version
chosen = refl

codewords :
    data_codewords two_bytes 1
    ≡ 0x40 ∷ 0x24 ∷ 0x14 ∷ 0x20 ∷ 0xec ∷ 0x11 ∷ 0xec ∷ 0x11 ∷ 0xec ∷ 0x11 ∷ 0xec ∷ 0x11 ∷ 0xec
      ∷ 0x11 ∷ 0xec ∷ 0x11 ∷ []
unfolding data_codewords
codewords = refl

read_text-data_codewords_example :
    (length (data_codewords two_bytes 1) ≡ data_capacity 1)
    × (read_text 1 (data_codewords two_bytes 1) ≡ some two_bytes)
read_text-data_codewords_example =
    read_text-data_codewords two_bytes 1 ((omega arith), ((omega arith), tt)) chosen

abbrev best : Candidate
best =
    let draw = candidate 1 (interleave (data_codewords two_bytes 1) 1) in
    best_of draw (1 ∷ 2 ∷ 3 ∷ 4 ∷ 5 ∷ 6 ∷ 7 ∷ []) (draw 0)

encoded : encode two_bytes ≡ ok best
unfolding encode choose_version
encoded = refl

corner : (blank 1).1 0 0 ≡ true
unfolding blank
corner = refl
