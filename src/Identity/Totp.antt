-- ===== src/Identity/Totp.antt =====
-- One-time passwords of modules/identity/src/totp.js. A text is its list of UTF-16 code units. HMAC is
-- a parameter, from a key and a message to the 20 bytes of the digest.
use nuvrion.Common.{
  ℕ, zero, suc, ◌+◌, ◌-◌, ◌*◌, ◌/◌, ◌%◌, ◌^◌, Bool, true, false, ◌&&◌, not, Option, none, some,
  List, [], ◌∷◌, ◌++◌, length, every, filter_by, is_some, ltb, leb, ◌==◌, if◌then◌else◌,
}
use nuvrion.Identity.Base32.{is_filler, base32_decode}

-- The platform's functions that this module calls: HMAC-SHA-1, SHA-256 as hexadecimal text, toUpperCase
-- and toLowerCase.
pub record Platform : Type 0 where
  pub hmac : List ℕ → List ℕ → List ℕ
  pub sha256 : List ℕ → List ℕ
  pub upper : List ℕ → List ℕ
  pub lower : List ℕ → List ℕ

-- writeBigUInt64BE: the number's last bytes, the highest first
unfoldable pub big_endian : ℕ → ℕ → List ℕ
big_endian zero n = []
big_endian (suc k) n = big_endian k (n / 256) ++ (n % 256) ∷ []

-- bytes[i], where a byte that is not there counts as 0
unfoldable pub byte_at : List ℕ → ℕ → ℕ
byte_at [] i = 0
byte_at (b ∷ bs) zero = b
byte_at (b ∷ bs) (suc i) = byte_at bs i

-- String(n % 10 ** digits).padStart(digits, '0')
unfoldable pub padded : ℕ → ℕ → List ℕ
padded zero n = []
padded (suc k) n = padded k (n / 10) ++ (n % 10 + b'0') ∷ []

-- hotp(secretBytes, counter, digits)
unfoldable pub hotp : Platform → List ℕ → ℕ → ℕ → List ℕ
unfolding big_endian byte_at padded
hotp platform secret counter digits =
    let mac = platform.hmac secret (big_endian 8 counter) in
    let offset = byte_at mac (length mac - 1) % 16 in
    let binary =
      (byte_at mac offset % 128) * 2 ^ 24
      + byte_at mac (offset + 1) * 2 ^ 16
      + byte_at mac (offset + 2) * 2 ^ 8
      + byte_at mac (offset + 3) in
    padded digits binary

abbrev pub code_digits : ℕ
code_digits = 6

-- Math.floor(timeMs / 1000 / period)
unfoldable pub time_step : ℕ → ℕ
time_step time_ms = time_ms / 30000

-- sameText(a, b)
unfoldable pub same_text : List ℕ → List ℕ → Bool
same_text [] [] = true
same_text [] (b ∷ bs) = false
same_text (a ∷ as') [] = false
same_text (a ∷ as') (b ∷ bs) = a == b && same_text as' bs

-- [\s-]
unfoldable pub is_gap : ℕ → Bool
is_gap c = is_filler c && not (c == b'=')

unfoldable pub is_decimal : ℕ → Bool
is_decimal c = leb b'0' c && leb c b'9'

-- normaliseCode(raw)
unfoldable pub normalise_code : List ℕ → Option (List ℕ)
unfolding is_gap is_decimal
normalise_code raw =
    let text = filter_by (λ c. not (is_gap c)) raw in
    if length text == code_digits && every is_decimal text then some text else none

-- The loop of verifyTotp: the k-th step looked at is now + k - window; the first that matches stays.
unfoldable pub match_steps : (ℕ → List ℕ) → List ℕ → ℕ → ℕ → ℕ → ℕ → Option ℕ → Option ℕ
match_steps code_at wanted now window zero k matched = matched
match_steps code_at wanted now window (suc n) k matched =
    match_steps code_at wanted now window n (k + 1) (
      if ltb window (now + k)
        && (same_text (code_at (now + k - window)) wanted && not (is_some matched))
      then some (now + k - window)
      else matched)

pub data Verdict : Type 0 where
  rejected secret_invalid : Verdict
  accepted : ℕ → Verdict

unfoldable pub judge_step : Option ℕ → ℕ → Verdict
judge_step none last_step = rejected
judge_step (some step) last_step = if ltb last_step step then accepted step else rejected

-- verifyTotp(secret, code, { timeMs, lastStep, window })
unfoldable pub verify_totp : Platform → List ℕ → List ℕ → ℕ → ℕ → ℕ → Verdict
verify_totp platform secret code time_ms last_step window = elim (normalise_code code) [
  | none ↦ rejected
  | some wanted ↦ elim (base32_decode platform.upper secret) [
    | none ↦ secret_invalid
    | some bytes ↦
        judge_step
          (match_steps (λ step. hotp platform bytes step code_digits) wanted (time_step time_ms)
            window (2 * window + 1) 0 none)
          last_step
  ]
]
