-- ===== src/Qr/Bits.antt =====
-- The bits of numbers, as apps/web/qr.js pushes them, and words of eight of them.
use native.Mathlib.Nat.{
  div-add-mod, mod-lt, mod-eq_of_lt, add-mul-mod_self_left, div-div-eq-div-mul,
}
use nuvrion.Common.{
  ℕ, zero, suc, ◌+◌, ◌*◌, ◌/◌, ◌%◌, ◌^◌, ◌≤◌, ◌<◌, ◌≡◌, refl, sym, ap, ap₂, ◌∙◌, arith, List, [],
  ◌∷◌, ◌++◌, length, All, ◌==◌, Bool-cases, inl, inr,
}
use nuvrion.Qr.Codewords.{bits_of, bits_of_bytes, words_from}

-- The number of the next so many bits, highest first, and the bits after them.
abbrev pub read_number : ℕ → ℕ → List ℕ → ℕ × List ℕ
read_number zero acc bits = (acc, bits)
read_number (suc n) acc [] = (acc, [])
read_number (suc n) acc (bit ∷ bits) = read_number n (acc * 2 + bit) bits

pow_pos : (n : ℕ) → 1 ≤ 2 ^ n
pow_pos zero = omega arith
pow_pos (suc n) = omega (arith, pow_pos n)

halves : (q : ℕ) → q ≡ 2 * (q / 2) + q % 2
halves q = omega arith

spread_out : (m a b r : ℕ) → m * (2 * a + b) + r ≡ (b * m + r) + (m * 2) * a
spread_out m a b r = omega arith

split_mod : (m q r : ℕ) → m * q + r ≡ (q % 2 * m + r) + (m * 2) * (q / 2)
split_mod m q r = ap (λ x. m * x + r) (halves q) ∙ spread_out m (q / 2) (q % 2) r

lin_few : (b m r : ℕ) → b < 2 → r < m → b * m + r < m * 2
lin_few zero m r h l = omega (arith, l)
lin_few (suc zero) m r h l = omega (arith, l)
lin_few (suc (suc b)) m r h l = absurd (omega (arith, h))

mod_double : (v m : ℕ) → 1 ≤ m → v % (m * 2) ≡ (v / m) % 2 * m + v % m
mod_double v m h =
    let q = v / m in
    let r = v % m in
    let whole : v ≡ (q % 2 * m + r) + (m * 2) * (q / 2) = sym (div-add-mod v m) ∙ split_mod m q r in
    let few : q % 2 * m + r < m * 2 = lin_few (q % 2) m r (omega arith) (mod-lt v h) in
    ap (λ x. x % (m * 2)) whole
    ∙ add-mul-mod_self_left (q % 2 * m + r) (m * 2) (q / 2)
    ∙ mod-eq_of_lt few

double_pow : (n : ℕ) → 2 ^ suc n ≡ 2 * 2 ^ n
double_pow n = omega arith

double_pow_right : (n : ℕ) → 2 ^ suc n ≡ 2 ^ n * 2
double_pow_right n = omega arith

sum_lin : (p acc b r : ℕ) → (acc * 2 + b) * p + r ≡ acc * (p * 2) + (b * p + r)
sum_lin p acc b r = omega arith

sum_up : (n acc b r : ℕ) → (acc * 2 + b) * 2 ^ n + r ≡ acc * 2 ^ suc n + (b * 2 ^ n + r)
sum_up n acc b r =
    sum_lin (2 ^ n) acc b r ∙ ap (λ x. acc * x + (b * 2 ^ n + r)) (sym (double_pow_right n))

pub read_number-bits_of :
    (n acc v : ℕ) (rest : List ℕ)
    → read_number n acc (bits_of n v ++ rest) ≡ (acc * 2 ^ n + v % 2 ^ n, rest)
unfolding bits_of
read_number-bits_of zero acc v rest = ap (λ x. (x, rest)) (omega arith)
read_number-bits_of (suc n) acc v rest =
    read_number-bits_of n (acc * 2 + (v / 2 ^ n) % 2) v rest
    ∙ ap (λ x. (x, rest))
        (sum_up n acc ((v / 2 ^ n) % 2) (v % 2 ^ n)
          ∙ ap (λ x. acc * 2 ^ suc n + x)
              (sym (mod_double v (2 ^ n) (pow_pos n)) ∙ ap (λ x. v % x) (sym (double_pow_right n))))

high_bit : (n v b : ℕ) → b < 2 → (v * 2 + b) / 2 ^ suc n % 2 ≡ v / 2 ^ n % 2
high_bit n v b h =
    ap (λ x. x % 2)
      (ap (λ x. (v * 2 + b) / x) (double_pow n)
        ∙ sym (div-div-eq-div-mul (v * 2 + b) 2 (2 ^ n))
        ∙ ap (λ x. x / 2 ^ n) (omega (arith, h)))

bits_of-snoc : (n v b : ℕ) → b < 2 → bits_of (suc n) (v * 2 + b) ≡ bits_of n v ++ b ∷ []
unfolding bits_of
bits_of-snoc zero v b h = ap (λ (x : ℕ). x ∷ []) omega (arith, h)
bits_of-snoc (suc n) v b h =
    ap₂ (λ (x : ℕ) (xs : List ℕ). x ∷ xs) (high_bit n v b h) (bits_of-snoc n v b h)

pub append-snoc : (xs : List ℕ) (b : ℕ) (ys : List ℕ) → (xs ++ b ∷ []) ++ ys ≡ xs ++ b ∷ ys
append-snoc [] b ys = refl
append-snoc (x ∷ xs) b ys = ap (λ (zs : List ℕ). x ∷ zs) (append-snoc xs b ys)

pub append-none : (xs : List ℕ) → xs ++ [] ≡ xs
append-none [] = refl
append-none (x ∷ xs) = ap (λ (zs : List ℕ). x ∷ zs) (append-none xs)

bits_of-next :
    (n v b : ℕ) (bits : List ℕ)
    → b < 2
    → bits_of (suc n) (v * 2 + b) ++ bits ≡ bits_of n v ++ b ∷ bits
bits_of-next n v b bits h =
    ap (λ (xs : List ℕ). xs ++ bits) (bits_of-snoc n v b h) ∙ append-snoc (bits_of n v) b bits

-- Words of eight bits, and the bits of the words.
pub bits_of_bytes-words_from :
    (n value : ℕ) (bits : List ℕ)
    → n < 8
    → (n + length bits) % 8 ≡ 0
    → All (λ b. b < 2) bits
    → bits_of_bytes (words_from n value bits) ≡ bits_of n value ++ bits
unfolding words_from bits_of_bytes
bits_of_bytes-words_from n value [] l e h = elim (Bool-cases (n == 0)) [
  | inl q ↦ let none_yet : n ≡ 0 = ground arith in rw (none_yet, bits_of) refl
  | inr q ↦ absurd (ground arith)
]
bits_of_bytes-words_from n value (bit ∷ bits) l e h = elim (Bool-cases (n == 7)) [
  | inl q ↦
      let seven : n ≡ 7 = ground arith in
      rw (q, words_from)
        (ap (λ (xs : List ℕ). bits_of 8 (value * 2 + bit) ++ xs)
            (bits_of_bytes-words_from 0 0 bits (omega arith) (ground arith) h.1)
          ∙ bits_of-next 7 value bit bits h.0
          ∙ ap (λ k. bits_of k value ++ bit ∷ bits) (sym seven))
  | inr q ↦
      rw (q, words_from)
        (ap (λ (k : ℕ). bits_of_bytes (words_from k (value * 2 + bit) bits)) (omega arith)
          ∙ bits_of_bytes-words_from (suc n) (value * 2 + bit) bits (ground arith) (ground arith)
              h.1
          ∙ bits_of-next n value bit bits h.0)
]
