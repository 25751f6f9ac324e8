-- ===== src/Identity/RoundTrip.antt =====
-- A secret that is encoded reads back as the same bytes.
use nuvrion.Common.{
  ℕ, zero, suc, ◌+◌, ◌-◌, ◌*◌, ◌/◌, ◌%◌, ◌≤◌, ◌<◌, ◌≡◌, refl, ap, ap₂, true, false, not, some, List,
  [], ◌∷◌, map, arith, every, filter_by, All, All-append,
}
use nuvrion.Identity.Base32.{
  word, letter, digit_of, drain, encode_digits, base32_encode, decode_digits, is_filler, is_base32,
  base32_decode,
}

abbrev pub IsByte : ℕ → Type 0
IsByte b = b < 256

-- `drain` stops below five bits, within as many rounds as there are bits.
drain-lt : (fuel bits value : ℕ) → bits ≤ fuel → (drain fuel bits value).1 < 5
unfolding drain
drain-lt zero bits value h = omega arith
drain-lt (suc fuel) bits value h = ground (arith, drain-lt fuel (bits - 5) value)

-- The five states of an encoder that holds the last bits of the byte `b`, and a decoder that has its
-- first bits: none of both, or 8 together. In each the decoder gives `b` and the bytes that follow.
mutual
  unfolding decode_digits encode_digits

  aligned :
      (bytes : List ℕ) (v w : ℕ)
      → All IsByte bytes
      → decode_digits 0 w (encode_digits 0 v bytes) ≡ bytes
  aligned [] v w h = refl
  aligned (b ∷ bytes) v w h =
      holds_5 bytes b ((v * 256 + b) % word) _ h.0 h.1 (omega (arith, h.0)) (omega (arith, h.0))

  holds_5 :
      (bytes : List ℕ) (b v w : ℕ)
      → IsByte b
      → All IsByte bytes
      → w % 32 ≡ b / 8
      → v % 8 ≡ b % 8
      → decode_digits 5 w (encode_digits 3 v bytes) ≡ b ∷ bytes
  holds_5 [] b v w hb h p q = ap (λ (x : ℕ). x ∷ []) (omega arith)
  holds_5 (c ∷ bytes) b v w hb h p q =
      ap₂ (λ (x : ℕ) (xs : List ℕ). x ∷ xs) (omega (arith, h.0))
        (holds_7 bytes c ((v * 256 + c) % word) _ h.0 h.1 (omega (arith, h.0)) (omega (arith, h.0)))

  holds_7 :
      (bytes : List ℕ) (b v w : ℕ)
      → IsByte b
      → All IsByte bytes
      → w % 128 ≡ b / 2
      → v % 2 ≡ b % 2
      → decode_digits 7 w (encode_digits 1 v bytes) ≡ b ∷ bytes
  holds_7 [] b v w hb h p q = ap (λ (x : ℕ). x ∷ []) (omega arith)
  holds_7 (c ∷ bytes) b v w hb h p q =
      ap₂ (λ (x : ℕ) (xs : List ℕ). x ∷ xs) (omega (arith, h.0))
        (holds_4 bytes c ((v * 256 + c) % word) _ h.0 h.1 (omega (arith, h.0)) (omega (arith, h.0)))

  holds_4 :
      (bytes : List ℕ) (b v w : ℕ)
      → IsByte b
      → All IsByte bytes
      → w % 16 ≡ b / 16
      → v % 16 ≡ b % 16
      → decode_digits 4 w (encode_digits 4 v bytes) ≡ b ∷ bytes
  holds_4 [] b v w hb h p q = ap (λ (x : ℕ). x ∷ []) (omega arith)
  holds_4 (c ∷ bytes) b v w hb h p q =
      ap₂ (λ (x : ℕ) (xs : List ℕ). x ∷ xs) (omega (arith, h.0))
        (holds_6 bytes c ((v * 256 + c) % word) _ h.0 h.1 (omega (arith, h.0)) (omega (arith, h.0)))

  holds_6 :
      (bytes : List ℕ) (b v w : ℕ)
      → IsByte b
      → All IsByte bytes
      → w % 64 ≡ b / 4
      → v % 4 ≡ b % 4
      → decode_digits 6 w (encode_digits 2 v bytes) ≡ b ∷ bytes
  holds_6 [] b v w hb h p q = ap (λ (x : ℕ). x ∷ []) (omega arith)
  holds_6 (c ∷ bytes) b v w hb h p q =
      ap₂ (λ (x : ℕ) (xs : List ℕ). x ∷ xs) (omega (arith, h.0))
        (ap₂ (λ (x : ℕ) (xs : List ℕ). x ∷ xs) (omega (arith, h.0))
          (aligned bytes ((v * 256 + c) % word) _ h.1))

abbrev IsDigit : ℕ → Type 0
IsDigit d = d < 32

drain-IsDigit : (fuel bits value : ℕ) → All IsDigit (drain fuel bits value).0
unfolding drain
drain-IsDigit zero bits value = tt
drain-IsDigit (suc fuel) bits value = ground (arith, drain-IsDigit fuel (bits - 5) value)

encode_digits-IsDigit :
    (bytes : List ℕ) (bits value : ℕ) → All IsDigit (encode_digits bits value bytes)
unfolding encode_digits
encode_digits-IsDigit [] bits value = ground arith
encode_digits-IsDigit (b ∷ bytes) bits value =
    All-append IsDigit _ _ (drain-IsDigit (bits + 8) (bits + 8) _) (encode_digits-IsDigit bytes _ _)

letter-is_base32 : (d : ℕ) → IsDigit d → is_base32 (letter d) ≡ true
unfolding letter is_base32
letter-is_base32 d h = ground arith

letter-is_filler : (d : ℕ) → IsDigit d → is_filler (letter d) ≡ false
unfolding letter is_filler
letter-is_filler d h = ground arith

digit_of-letter : (d : ℕ) → IsDigit d → digit_of (letter d) ≡ d
unfolding letter digit_of
digit_of-letter d h = ground arith

module _ where
  every-letter : (ds : List ℕ) → All IsDigit ds → every is_base32 (map letter ds) ≡ true
  every-letter [] h = refl
  every-letter (d ∷ ds) h = ground (arith, letter-is_base32 d h.0, every-letter ds h.1)

  clean-letter :
      (ds : List ℕ)
      → All IsDigit ds
      → filter_by (λ c. not (is_filler c)) (map letter ds) ≡ map letter ds
  clean-letter [] h = refl
  clean-letter (d ∷ ds) h = ground (arith, letter-is_filler d h.0, clean-letter ds h.1)

  digits-letter : (ds : List ℕ) → All IsDigit ds → map digit_of (map letter ds) ≡ ds
  digits-letter [] h = refl
  digits-letter (d ∷ ds) h = cc (digit_of-letter d h.0, digits-letter ds h.1)

-- The text of any bytes is accepted and reads back as these bytes. Of `toUpperCase` it is used that a
-- text of capital letters and digits stays as it is.
pub base32_decode-base32_encode :
    (upper : List ℕ → List ℕ) (bytes : List ℕ)
    → ((text : List ℕ) → every is_base32 text ≡ true → upper text ≡ text)
    → All IsByte bytes
    → base32_decode upper (base32_encode bytes) ≡ some bytes
unfolding base32_decode base32_encode
base32_decode-base32_encode upper bytes keeps h =
    let ds = encode_digits 0 0 bytes in
    let small = encode_digits-IsDigit bytes 0 0 in
    rw
      (
        keeps (map letter ds) (every-letter ds small),
        clean-letter ds small,
        every-letter ds small,
        digits-letter ds small,
      )
      (ap some (aligned bytes 0 0 h))
