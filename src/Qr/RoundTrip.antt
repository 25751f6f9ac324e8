-- ===== src/Qr/RoundTrip.antt =====
-- The codewords of `dataCodewords` of apps/web/qr.js: how many there are, and what they say.
use native.Mathlib.Nat.{mod-eq_of_lt}
use nuvrion.Common.{
  ℕ, ◌+◌, ◌-◌, ◌*◌, ◌%◌, ◌^◌, ◌≤◌, ◌<◌, ◌≡◌, refl, sym, ap, subst, ◌∙◌, arith, true, some, List,
  ◌++◌, length, length-append, All, All-append, ltb, Bool-cases, inl, inr,
}
use nuvrion.Common.Results.{ok}
use nuvrion.Qr.Codewords.{
  bits_of, bits_of_bytes, words_from, terminate, align, pads, header_and_bytes, data_codewords,
  data_capacity, count_bits, choose_version, fits,
}
use nuvrion.Qr.Version.{IsChoice, choose_version-IsChoice}
use nuvrion.Qr.Bits.{read_number, read_number-bits_of, bits_of_bytes-words_from}
use nuvrion.Qr.Reading.{
  IsByte, IsBit, IsBegun, IsPadded, read_bytes, read_bits, read_text, append_assoc,
  bits_of_bytes-append, length-bits_of, length-bits_of_bytes, bits_of-IsBit, bits_of_bytes-IsBit,
  read_bytes-bits_of_bytes, terminate-IsPadded, length-terminate-le, align-IsPadded,
  length-align-le, align-whole, length-pads,
}

no_more : (p x : ℕ) → 0 * p + x ≡ x
no_more p x = omega arith

count-lt : (version n : ℕ) → n ≤ 213 → n < 2 ^ count_bits version
unfolding count_bits
count-lt version n h = elim (Bool-cases (ltb version 10)) [
  | inl q ↦ rw q (omega (arith, h))
  | inr q ↦ rw q (omega (arith, h))
]

module _ (bytes : List ℕ) (version : ℕ) where
  abbrev head_bits : List ℕ
  head_bits = header_and_bytes bytes version

  abbrev all_bits : List ℕ
  all_bits = align 7 (terminate 4 (8 * data_capacity version) (header_and_bytes bytes version))

  length-head_bits :
      length (header_and_bytes bytes version) ≡ 4 + (count_bits version + 8 * length bytes)
  unfolding header_and_bytes
  length-head_bits = omega (
    arith,
    length-append (bits_of 4 4)
        (bits_of (count_bits version) (length bytes) ++ bits_of_bytes bytes),
    length-append (bits_of (count_bits version) (length bytes)) (bits_of_bytes bytes),
    length-bits_of 4 4,
    length-bits_of (count_bits version) (length bytes),
    length-bits_of_bytes bytes,
  )

  head_bits-IsBit : All IsBit (header_and_bytes bytes version)
  unfolding header_and_bytes
  head_bits-IsBit = All-append IsBit (bits_of 4 4) _ (bits_of-IsBit 4 4) (
      All-append IsBit (bits_of (count_bits version) (length bytes)) (bits_of_bytes bytes)
        (bits_of-IsBit (count_bits version) (length bytes)) (bits_of_bytes-IsBit bytes))

  -- The bits of the words are those of the header and the bytes, then more.
  all_bits-IsPadded : IsPadded head_bits all_bits
  all_bits-IsPadded =
      let t = terminate-IsPadded 4 (8 * data_capacity version) head_bits in
      let a = align-IsPadded 7 (terminate 4 (8 * data_capacity version) head_bits) in
      record {
        more = t.more ++ a.more;
        whole =
            a.whole
            ∙ ap (λ (l : List ℕ). l ++ a.more) t.whole
            ∙ append_assoc head_bits t.more a.more;
        zero_bits = All-append IsBit t.more a.more t.zero_bits a.zero_bits;
      }

  all_bits-IsBit : All IsBit all_bits
  all_bits-IsBit =
      let p = all_bits-IsPadded in
      subst (All IsBit) (sym p.whole)
        (All-append IsBit head_bits p.more head_bits-IsBit p.zero_bits)

  words-bits : bits_of_bytes (words_from 0 0 all_bits) ≡ all_bits
  unfolding bits_of
  words-bits =
      bits_of_bytes-words_from 0 0 all_bits (omega arith)
        (omega
          (arith, align-whole 7 (terminate 4 (8 * data_capacity version) head_bits) (omega arith)))
        all_bits-IsBit

  module _ (fit : fits (length bytes) version ≡ true) where
    length-words-le : length (words_from 0 0 all_bits) ≤ data_capacity version
    unfolding fits
    length-words-le = ground (
      arith,
      length-bits_of_bytes (words_from 0 0 all_bits),
      ap length words-bits,
      length-align-le 7 (data_capacity version) (terminate 4 (8 * data_capacity version) head_bits)
          (length-terminate-le 4 (8 * data_capacity version) head_bits
            (ground (arith, length-head_bits))),
    )

    length-data_codewords : length (data_codewords bytes version) ≡ data_capacity version
    unfolding data_codewords
    length-data_codewords = omega (
      arith,
      length-words-le,
      length-append (words_from 0 0 all_bits)
          (pads (data_capacity version - length (words_from 0 0 all_bits)) 0xec),
      length-pads (data_capacity version - length (words_from 0 0 all_bits)) 0xec,
    )

  -- The bits of the codewords begin with those of the header and the bytes.
  data_codewords-begin : IsBegun head_bits (bits_of_bytes (data_codewords bytes version))
  unfolding data_codewords
  data_codewords-begin =
      let filler = pads (data_capacity version - length (words_from 0 0 all_bits)) 0xec in
      let p = all_bits-IsPadded in
      (
        p.more ++ bits_of_bytes filler,
        bits_of_bytes-append (words_from 0 0 all_bits) filler
            ∙ ap (λ (l : List ℕ). l ++ bits_of_bytes filler) (words-bits ∙ p.whole)
            ∙ append_assoc head_bits p.more (bits_of_bytes filler),
      )

  read_parts :
      (bits after_mode rest : List ℕ) (n : ℕ)
      → read_number 4 0 bits ≡ (4, after_mode)
      → read_number (count_bits version) 0 after_mode ≡ (n, rest)
      → read_bits version bits ≡ some (read_bytes n rest)
  unfolding read_bits
  read_parts bits after_mode rest n m c = rw (m, c) refl

  read_head :
      (rest : List ℕ)
      → length bytes < 2 ^ count_bits version
      → All IsByte bytes
      → read_bits version (header_and_bytes bytes version ++ rest) ≡ some bytes
  unfolding header_and_bytes
  read_head rest few h =
      let n = length bytes in
      let c = count_bits version in
      let after = bits_of_bytes bytes ++ rest in
      let split : header_and_bytes bytes version ++ rest ≡ bits_of 4 4 ++ (bits_of c n ++ after) =
        append_assoc (bits_of 4 4) (bits_of c n ++ bits_of_bytes bytes) rest
        ∙ ap (λ (l : List ℕ). bits_of 4 4 ++ l)
            (append_assoc (bits_of c n) (bits_of_bytes bytes) rest) in
      let mode = read_number-bits_of 4 0 4 (bits_of c n ++ after) in
      let count : read_number c 0 (bits_of c n ++ after) ≡ (n, after) =
        read_number-bits_of c 0 n after
        ∙ ap (λ x. (x, after)) (no_more (2 ^ c) (n % 2 ^ c) ∙ mod-eq_of_lt few) in
      ap (read_bits version) split
      ∙ read_parts (bits_of 4 4 ++ (bits_of c n ++ after)) (bits_of c n ++ after) after n mode count
      ∙ ap some (read_bytes-bits_of_bytes bytes rest h)

-- The codewords of a text of bytes for which `choose_version` finds a version fill its capacity exactly, and a
-- reader of byte mode reads the text back from them.
pub read_text-data_codewords :
    (bytes : List ℕ) (version : ℕ)
    → All IsByte bytes
    → choose_version (length bytes) ≡ ok version
    → (length (data_codewords bytes version) ≡ data_capacity version)
      × (read_text version (data_codewords bytes version) ≡ some bytes)
unfolding read_text
read_text-data_codewords bytes version h v =
    let choice : IsChoice (length bytes) (ok version) =
      subst (IsChoice (length bytes)) v (choose_version-IsChoice (length bytes)) in
    let (rest, whole) = data_codewords-begin bytes version in
    (
      length-data_codewords bytes version choice.3,
      ap (read_bits version) whole
          ∙ read_head bytes version rest (count-lt version (length bytes) choice.2) h,
    )
