-- ===== src/Qr/Version.antt =====
-- `chooseVersion` of apps/web/qr.js: which version a text gets.
use nuvrion.Common.{ℕ, ◌-◌, ◌≤◌, ◌≡◌, arith, true, not, every, range_from, ltb}
use nuvrion.Common.Results.{Result, ok, err}
use nuvrion.Qr.Codewords.{QrError, fits, version_from, choose_version}

-- The version is the least of 1 to 10 in which a text fits; a text that fits in none has over 213 bytes.
abbrev pub IsChoice : ℕ → Result QrError ℕ → Type 0
IsChoice n (ok version) =
    (1 ≤ version)
    × (version ≤ 10)
    × (n ≤ 213)
    × (fits n version ≡ true)
    × (every (λ v. not (fits n v)) (range_from (version - 1) 1) ≡ true)
IsChoice n (err e) = ltb 213 n ≡ true

-- A text of at most 213 bytes gets the least version from 1 to 10 in which it fits, and a longer one none.
pub choose_version-IsChoice : (n : ℕ) → IsChoice n (choose_version n)
unfolding choose_version nuvrion.Qr.Codewords.data_capacity nuvrion.Qr.Codewords.blocks_of
    nuvrion.Qr.Codewords.total_size nuvrion.Qr.Codewords.count_bits
choose_version-IsChoice n = ground arith
