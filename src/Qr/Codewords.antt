-- ===== src/Qr/Codewords.antt =====
-- The codewords of a text, of apps/web/qr.js.
use Prim.Native.Nat.{bit_xor}
use nuvrion.Common.{
  ℕ, zero, suc, ◌+◌, ◌-◌, ◌*◌, ◌/◌, ◌%◌, ◌^◌, Bool, none, some, List, [], ◌∷◌, ◌++◌, length, take,
  get_elem?, or_else, ltb, leb, ◌==◌, if◌then◌else◌,
}
use nuvrion.Common.Results.{Result, ok, err}
use nuvrion.Qr.Field.{reed_solomon}

-- BLOCKS: error correction per block, then how many blocks of which size
abbrev pub block_table : List (ℕ × List (ℕ × ℕ))
block_table =
    (0, [])
    ∷ (10, (1, 16) ∷ [])
    ∷ (16, (1, 28) ∷ [])
    ∷ (26, (1, 44) ∷ [])
    ∷ (18, (2, 32) ∷ [])
    ∷ (24, (2, 43) ∷ [])
    ∷ (16, (4, 27) ∷ [])
    ∷ (18, (4, 31) ∷ [])
    ∷ (22, (2, 38) ∷ (2, 39) ∷ [])
    ∷ (22, (3, 36) ∷ (2, 37) ∷ [])
    ∷ (26, (4, 43) ∷ (1, 44) ∷ [])
    ∷ []

-- BLOCKS[version], for a version from 1 to 10
unfoldable pub blocks_of : ℕ → ℕ × List (ℕ × ℕ)
blocks_of version = or_else (get_elem? block_table version) (0, [])

abbrev pub max_version : ℕ
max_version = 10

unfoldable pub total_size : List (ℕ × ℕ) → ℕ
total_size [] = 0
total_size ((count, size) ∷ groups) = count * size + total_size groups

-- dataCapacity(version)
unfoldable pub data_capacity : ℕ → ℕ
unfolding total_size blocks_of
data_capacity version = total_size (blocks_of version).1

-- countBits(version)
unfoldable pub count_bits : ℕ → ℕ
count_bits version = if ltb version 10 then 8 else 16

-- NUV_QR_TOO_LONG
pub data QrError : Type 0 where
  too_long : QrError

unfoldable pub fits : ℕ → ℕ → Bool
unfolding data_capacity count_bits
fits byte_length version =
    leb (4 + count_bits version + 8 * byte_length) (8 * data_capacity version)

unfoldable pub version_from : ℕ → ℕ → ℕ → Result QrError ℕ
unfolding fits
version_from zero version byte_length = err too_long
version_from (suc n) version byte_length =
    if fits byte_length version then ok version else version_from n (version + 1) byte_length

-- chooseVersion(byteLength)
unfoldable pub choose_version : ℕ → Result QrError ℕ
unfolding version_from
choose_version byte_length = version_from max_version 1 byte_length

-- push(value, length): the bits that are pushed
unfoldable pub bits_of : ℕ → ℕ → List ℕ
bits_of zero value = []
bits_of (suc n) value = (value / 2 ^ n) % 2 ∷ bits_of n value

unfoldable pub bits_of_bytes : List ℕ → List ℕ
unfolding bits_of
bits_of_bytes [] = []
bits_of_bytes (byte ∷ bytes) = bits_of 8 byte ++ bits_of_bytes bytes

-- for (let i = 0; i < 4 && bits.length < capacity; i++) bits.push(0)
unfoldable pub terminate : ℕ → ℕ → List ℕ → List ℕ
terminate zero capacity bits = bits
terminate (suc n) capacity bits =
    let more = terminate n capacity (bits ++ 0 ∷ []) in
    if ltb (length bits) capacity then more else bits

-- while (bits.length % 8) bits.push(0); seven rounds are enough
unfoldable pub align : ℕ → List ℕ → List ℕ
align zero bits = bits
align (suc n) bits =
    let more = align n (bits ++ 0 ∷ []) in if length bits % 8 == 0 then bits else more

-- The words of eight bits, with the bits of the current word so far.
unfoldable pub words_from : ℕ → ℕ → List ℕ → List ℕ
words_from n value [] = if n == 0 then [] else value ∷ []
words_from n value (bit ∷ bits) =
    let closed = words_from 0 0 bits in
    let open_word = words_from (n + 1) (value * 2 + bit) bits in
    if n == 7 then (value * 2 + bit) ∷ closed else open_word

-- pad ^= 0xec ^ 0x11
unfoldable pub pads : ℕ → ℕ → List ℕ
pads zero pad = []
pads (suc n) pad = pad ∷ pads n (bit_xor pad (bit_xor 0xec 0x11))

-- The bits of dataCodewords before they are padded.
unfoldable pub header_and_bytes : List ℕ → ℕ → List ℕ
unfolding bits_of bits_of_bytes count_bits
header_and_bytes bytes version =
    bits_of 4 4 ++ bits_of (count_bits version) (length bytes) ++ bits_of_bytes bytes

-- dataCodewords(bytes, version)
unfoldable pub data_codewords : List ℕ → ℕ → List ℕ
unfolding header_and_bytes terminate align words_from pads data_capacity
data_codewords bytes version =
    let bits = align 7 (terminate 4 (8 * data_capacity version) (header_and_bytes bytes version)) in
    let words = words_from 0 0 bits in words ++ pads (data_capacity version - length words) 0xec

-- words.slice(at) after so many words
unfoldable pub drop_words : ℕ → List ℕ → List ℕ
drop_words zero words = words
drop_words (suc n) [] = []
drop_words (suc n) (w ∷ words) = drop_words n words

pub record Block : Type 0 where
  pub codewords : List ℕ
  pub ec : List ℕ

unfoldable pub blocks_from : ℕ → ℕ → ℕ → List ℕ → List Block × List ℕ
unfolding drop_words reed_solomon
blocks_from ec_per_block zero size words = ([], words)
blocks_from ec_per_block (suc count) size words =
    let (later, left) = blocks_from ec_per_block count size (drop_words size words) in
    (
      record { codewords = take size words; ec = reed_solomon (take size words) ec_per_block }
          ∷ later,
      left,
    )

unfoldable pub split_blocks : ℕ → List (ℕ × ℕ) → List ℕ → List Block
unfolding blocks_from
split_blocks ec_per_block [] words = []
split_blocks ec_per_block ((count, size) ∷ groups) words =
    let (blocks, left) = blocks_from ec_per_block count size words in
    blocks ++ split_blocks ec_per_block groups left

unfoldable pub longest : List Block → ℕ
longest [] = 0
longest (b ∷ bs) =
    let m = longest bs in if leb m (length b.codewords) then length b.codewords else m

-- The i-th word of each list that has one.
unfoldable pub column : ℕ → List (List ℕ) → List ℕ
column i [] = []
column i (ws ∷ rest) = elim (get_elem? ws i) [ none ↦ column i rest | some w ↦ w ∷ column i rest ]

unfoldable pub columns_from : ℕ → ℕ → List (List ℕ) → List ℕ
unfolding column
columns_from zero i lists = []
columns_from (suc n) i lists = column i lists ++ columns_from n (i + 1) lists

unfoldable pub all_codewords : List Block → List (List ℕ)
all_codewords [] = []
all_codewords (b ∷ bs) = b.codewords ∷ all_codewords bs

unfoldable pub all_ec : List Block → List (List ℕ)
all_ec [] = []
all_ec (b ∷ bs) = b.ec ∷ all_ec bs

-- interleave(words, version)
unfoldable pub interleave : List ℕ → ℕ → List ℕ
unfolding split_blocks longest columns_from all_codewords all_ec blocks_of
interleave words version =
    let blocks = split_blocks (blocks_of version).0 (blocks_of version).1 words in
    columns_from (longest blocks) 0 (all_codewords blocks)
    ++ columns_from (blocks_of version).0 0 (all_ec blocks)
