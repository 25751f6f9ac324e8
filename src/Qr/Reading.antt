-- ===== src/Qr/Reading.antt =====
-- Reading a text back from its codewords (`dataCodewords` of apps/web/qr.js).
use nuvrion.Common.{
  ℕ, zero, suc, ◌-◌, ◌*◌, ◌%◌, ◌≤◌, ◌<◌, ◌≡◌, refl, sym, ap, ap₂, ◌∙◌, arith, Option, none, some,
  List, [], ◌∷◌, ◌++◌, length, length-append, All, All-append, ltb, ◌==◌, Bool-cases, inl, inr,
  if◌then◌else◌,
}
use nuvrion.Qr.Codewords.{bits_of, bits_of_bytes, terminate, align, pads, count_bits}
use nuvrion.Qr.Bits.{read_number, read_number-bits_of, append-none}

abbrev pub IsByte : ℕ → Type 0
IsByte b = b < 256

abbrev pub IsBit : ℕ → Type 0
IsBit b = b < 2

abbrev pub read_bytes : ℕ → List ℕ → List ℕ
read_bytes zero bits = []
read_bytes (suc n) bits = let (b, rest) = read_number 8 0 bits in b ∷ read_bytes n rest

-- What a reader of byte mode makes of the bits of the codewords: the mode, the count, and as many bytes.
unfoldable pub read_bits : ℕ → List ℕ → Option (List ℕ)
unfolding count_bits
read_bits version bits =
    let (mode, after_mode) = read_number 4 0 bits in
    let (count, rest) = read_number (count_bits version) 0 after_mode in
    if mode == 4 then some (read_bytes count rest) else none

unfoldable pub read_text : ℕ → List ℕ → Option (List ℕ)
unfolding read_bits bits_of_bytes
read_text version words = read_bits version (bits_of_bytes words)

-- A list that begins with another.
abbrev pub IsBegun : List ℕ → List ℕ → Type 0
IsBegun front whole = (rest : List ℕ) × (whole ≡ front ++ rest)

pub append_assoc : (xs ys zs : List ℕ) → (xs ++ ys) ++ zs ≡ xs ++ (ys ++ zs)
append_assoc [] ys zs = refl
append_assoc (x ∷ xs) ys zs = ap (λ (l : List ℕ). x ∷ l) (append_assoc xs ys zs)

pub bits_of_bytes-append :
    (xs ys : List ℕ) → bits_of_bytes (xs ++ ys) ≡ bits_of_bytes xs ++ bits_of_bytes ys
unfolding bits_of_bytes
bits_of_bytes-append [] ys = refl
bits_of_bytes-append (x ∷ xs) ys =
    ap (λ (l : List ℕ). bits_of 8 x ++ l) (bits_of_bytes-append xs ys)
    ∙ sym (append_assoc (bits_of 8 x) (bits_of_bytes xs) (bits_of_bytes ys))

pub length-bits_of : (n v : ℕ) → length (bits_of n v) ≡ n
unfolding bits_of
length-bits_of zero v = refl
length-bits_of (suc n) v = omega (arith, length-bits_of n v)

pub length-bits_of_bytes : (xs : List ℕ) → length (bits_of_bytes xs) ≡ 8 * length xs
unfolding bits_of_bytes
length-bits_of_bytes [] = refl
length-bits_of_bytes (x ∷ xs) = omega (
  arith,
  length-append (bits_of 8 x) (bits_of_bytes xs),
  length-bits_of 8 x,
  length-bits_of_bytes xs,
)

pub bits_of-IsBit : (n v : ℕ) → All IsBit (bits_of n v)
unfolding bits_of
bits_of-IsBit zero v = tt
bits_of-IsBit (suc n) v = ((omega arith), bits_of-IsBit n v)

pub bits_of_bytes-IsBit : (xs : List ℕ) → All IsBit (bits_of_bytes xs)
unfolding bits_of_bytes
bits_of_bytes-IsBit [] = tt
bits_of_bytes-IsBit (x ∷ xs) =
    All-append IsBit (bits_of 8 x) (bits_of_bytes xs) (bits_of-IsBit 8 x) (bits_of_bytes-IsBit xs)

pub read_bytes-bits_of_bytes :
    (bytes rest : List ℕ)
    → All IsByte bytes
    → read_bytes (length bytes) (bits_of_bytes bytes ++ rest) ≡ bytes
unfolding bits_of_bytes
read_bytes-bits_of_bytes [] rest h = refl
read_bytes-bits_of_bytes (b ∷ bytes) rest h =
    let read =
      ap (read_number 8 0) (append_assoc (bits_of 8 b) (bits_of_bytes bytes) rest)
      ∙ read_number-bits_of 8 0 b (bits_of_bytes bytes ++ rest) in
    rw (ap (λ r. r.0 ∷ read_bytes (length bytes) r.1) read) (
      ap₂ (λ (x : ℕ) (xs : List ℕ). x ∷ xs) (omega (arith, h.0))
        (read_bytes-bits_of_bytes bytes rest h.1))

-- Bits with zeros after them.
pub record IsPadded (bits longer : List ℕ) : Type 0 where
  pub more : List ℕ
  pub whole : longer ≡ bits ++ more
  pub zero_bits : All IsBit more

IsPadded-none : (bits : List ℕ) → IsPadded bits bits
IsPadded-none bits = record { more = []; whole = sym (append-none bits); zero_bits = tt }

IsPadded-more : (bits longer : List ℕ) → IsPadded (bits ++ 0 ∷ []) longer → IsPadded bits longer
IsPadded-more bits longer h = record {
  more = 0 ∷ h.more;
  whole = h.whole ∙ append_assoc bits (0 ∷ []) h.more;
  zero_bits = ((omega arith), h.zero_bits);
}

pub terminate-IsPadded :
    (n capacity : ℕ) (bits : List ℕ) → IsPadded bits (terminate n capacity bits)
unfolding terminate
terminate-IsPadded zero capacity bits = IsPadded-none bits
terminate-IsPadded (suc n) capacity bits = elim (Bool-cases (ltb (length bits) capacity)) [
  | inl q ↦
      rw (q, terminate) (IsPadded-more bits _ (terminate-IsPadded n capacity (bits ++ 0 ∷ [])))
  | inr q ↦ rw (q, terminate) (IsPadded-none bits)
]

pub length-terminate-le :
    (n capacity : ℕ) (bits : List ℕ)
    → length bits ≤ capacity
    → length (terminate n capacity bits) ≤ capacity
unfolding terminate
length-terminate-le zero capacity bits h = h
length-terminate-le (suc n) capacity bits h =
    ground (arith, length-append bits (0 ∷ []), length-terminate-le n capacity (bits ++ 0 ∷ []))

pub align-IsPadded : (n : ℕ) (bits : List ℕ) → IsPadded bits (align n bits)
unfolding align
align-IsPadded zero bits = IsPadded-none bits
align-IsPadded (suc n) bits = elim (Bool-cases (length bits % 8 == 0)) [
  | inl q ↦ rw (q, align) (IsPadded-none bits)
  | inr q ↦ rw (q, align) (IsPadded-more bits _ (align-IsPadded n (bits ++ 0 ∷ [])))
]

pub length-align-le :
    (n capacity : ℕ) (bits : List ℕ)
    → length bits ≤ 8 * capacity
    → length (align n bits) ≤ 8 * capacity
unfolding align
length-align-le zero capacity bits h = h
length-align-le (suc n) capacity bits h =
    ground (arith, length-append bits (0 ∷ []), length-align-le n capacity (bits ++ 0 ∷ []))

pub align-whole :
    (n : ℕ) (bits : List ℕ) → (8 - length bits % 8) % 8 ≤ n → length (align n bits) % 8 ≡ 0
unfolding align
align-whole zero bits h = omega (arith, h)
align-whole (suc n) bits h =
    ground (arith, length-append bits (0 ∷ []), align-whole n (bits ++ 0 ∷ []))

pub length-pads : (n pad : ℕ) → length (pads n pad) ≡ n
unfolding pads
length-pads zero pad = refl
length-pads (suc n) pad = omega (arith, length-pads n _)
