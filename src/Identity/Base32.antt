-- ===== src/Identity/Base32.antt =====
-- `base32Encode` and `base32Decode` of modules/identity/src/totp.js. A text is its list of code
-- points; a 32-bit integer is its unsigned value, with the wrap-around of `<<` written out.
use nuvrion.Common.{
  ℕ, zero, suc, ◌+◌, ◌-◌, ◌*◌, ◌/◌, ◌%◌, ◌^◌, Bool, ◌&&◌, ◌||◌, not, Option, none, some, List, [],
  ◌∷◌, ◌++◌, map, ltb, leb, ◌==◌, every, filter_by, if◌then◌else◌,
}

abbrev pub word : ℕ
word = 2 ^ 32

-- ALPHABET[digit]: A to Z, then 2 to 7
unfoldable pub letter : ℕ → ℕ
letter digit = if ltb digit 26 then digit + b'A' else digit + 24

-- ALPHABET.indexOf(char), for a character of the alphabet
unfoldable pub digit_of : ℕ → ℕ
digit_of c = if leb b'A' c then c - b'A' else c - 24

-- `while (bits >= 5) { out += ...; bits -= 5; }`: the digits and the bits left, for as many rounds as
-- the first argument allows.
unfoldable pub drain : ℕ → ℕ → ℕ → List ℕ × ℕ
drain zero bits value = ([], bits)
drain (suc fuel) bits value =
    let (rest, left) = drain fuel (bits - 5) value in
    if leb 5 bits then ((value / 2 ^ (bits - 5)) % 32 ∷ rest, left) else ([], bits)

-- The loop of base32Encode: the digits of the text. As many rounds as bits are enough.
unfoldable pub encode_digits : ℕ → ℕ → List ℕ → List ℕ
unfolding drain
encode_digits bits value [] = if ltb 0 bits then (value * 2 ^ (5 - bits)) % 32 ∷ [] else []
encode_digits bits value (byte ∷ bytes) =
    let value' = (value * 256 + byte) % word in
    let (digits, left) = drain (bits + 8) (bits + 8) value' in
    digits ++ encode_digits left value' bytes

unfoldable pub base32_encode : List ℕ → List ℕ
base32_encode bytes = map letter (encode_digits 0 0 bytes)

-- The loop of base32Decode: the bytes of the digits.
unfoldable pub decode_digits : ℕ → ℕ → List ℕ → List ℕ
decode_digits bits value [] = []
decode_digits bits value (digit ∷ digits) =
    let value' = (value * 32 + digit) % word in
    let more = decode_digits (bits + 5) value' digits in
    let byte = (value' / 2 ^ (bits + 5 - 8)) % 256 ∷ decode_digits (bits + 5 - 8) value' digits in
    if leb 8 (bits + 5) then byte else more

-- [\s=-], that is white space, = and -
unfoldable pub is_filler : ℕ → Bool
is_filler c =
    (leb 9 c && leb c 13)
    || (c == 32
        || (c == 0xa0
            || (c == 0x1680
                || ((leb 0x2000 c && leb c 0x200a)
                    || (c == 0x2028
                        || (c == 0x2029
                            || (c == 0x202f
                                || (c == 0x205f
                                    || (c == 0x3000
                                        || (c == 0xfeff || (c == b'=' || c == b'-')))))))))))

-- [A-Z2-7]
unfoldable pub is_base32 : ℕ → Bool
is_base32 c = (leb b'A' c && leb c b'Z') || (leb b'2' c && leb c b'7')

-- base32Decode(text), where `none` is the error NUV_TOTP_SECRET_INVALID and `upper` is toUpperCase.
unfoldable pub base32_decode : (List ℕ → List ℕ) → List ℕ → Option (List ℕ)
base32_decode upper text =
    let clean = filter_by (λ c. not (is_filler c)) (upper text) in
    if every is_base32 clean then some (decode_digits 0 0 (map digit_of clean)) else none
