-- ===== src/Webhooks/Blocks.antt =====
-- Which IPv4 addresses a webhook may use, by the address blocks of the Internet's registries.
use nuvrion.Common.{
  ℕ, ◌+◌, ◌*◌, ◌-◌, ◌^◌, ◌<◌, ◌≡◌, refl, arith, Bool, true, false, ◌&&◌, ◌||◌, not, Option, none,
  some, subst, Option-cases, List, [], ◌∷◌, any, ltb, leb, ◌==◌, inl, inr,
}
use nuvrion.Webhooks.Addresses.{
  Net, Parts, ipv4_parts, byte_of, all_bytes, four_bytes, class_of_ipv4, plain, classify_address,
  Policy, Admission, this_machine, not_usable, private_blocked, admitted, admit,
  check_address_allowed,
}

-- A block of addresses: its first one, and how many addresses it has.
pub record Block : Type 0 where
  pub base : ℕ
  pub size : ℕ

unfoldable pub is_within : ℕ → Block → Bool
is_within n block = leb block.base n && ltb n (block.base + block.size)

unfoldable pub address_of : Parts → ℕ
address_of p = p.a * 2 ^ 24 + p.b * 2 ^ 16 + p.c * 2 ^ 8 + p.d

abbrev block_of : ℕ → ℕ → ℕ → Block
block_of a b bits = record { base = a * 2 ^ 24 + b * 2 ^ 16; size = 2 ^ (32 - bits) }

-- 127.0.0.0/8
abbrev pub loopback_blocks : List Block
loopback_blocks = block_of 127 0 8 ∷ []

-- 0.0.0.0/8, 169.254.0.0/16, 224.0.0.0/4, 240.0.0.0/4
abbrev pub forbidden_blocks : List Block
forbidden_blocks = block_of 0 0 8 ∷ block_of 169 254 16 ∷ block_of 224 0 4 ∷ block_of 240 0 4 ∷ []

-- 10.0.0.0/8, 172.16.0.0/12, 192.168.0.0/16, 100.64.0.0/10
abbrev pub private_blocks : List Block
private_blocks =
    block_of 10 0 8 ∷ block_of 172 16 12 ∷ block_of 192 168 16 ∷ block_of 100 64 10 ∷ []

unfoldable pub is_admitted : Admission → Bool
is_admitted this_machine = false
is_admitted not_usable = false
is_admitted private_blocked = false
is_admitted (admitted c) = true

-- The blocks in terms of the first two bytes.
module _ (p : Parts) (ha : p.a < 256) (hb : p.b < 256) (hc : p.c < 256) (hd : p.d < 256) where
  within_8 : (k : ℕ) → is_within (address_of p) (block_of k 0 8) ≡ (p.a == k)
  unfolding is_within address_of
  within_8 k = ground arith

  within_16 :
      (k l : ℕ) → l < 256 → is_within (address_of p) (block_of k l 16) ≡ (p.a == k && p.b == l)
  unfolding is_within address_of
  within_16 k l h = ground arith

  within_multicast : is_within (address_of p) (block_of 224 0 4) ≡ (leb 224 p.a && leb p.a 239)
  unfolding is_within address_of
  within_multicast = ground arith

  within_reserved : is_within (address_of p) (block_of 240 0 4) ≡ leb 240 p.a
  unfolding is_within address_of
  within_reserved = ground arith

  within_172 :
      is_within (address_of p) (block_of 172 16 12) ≡ (p.a == 172 && (leb 16 p.b && leb p.b 31))
  unfolding is_within address_of
  within_172 = ground arith

  within_100 :
      is_within (address_of p) (block_of 100 64 10) ≡ (p.a == 100 && (leb 64 p.b && leb p.b 127))
  unfolding is_within address_of
  within_100 = ground arith

  admit-blocks :
      (policy : Policy)
      → is_admitted (admit policy (class_of_ipv4 p.a p.b))
        ≡ not (
            any (is_within (address_of p)) forbidden_blocks
            || ((not policy.allow_loopback && any (is_within (address_of p)) loopback_blocks)
                || (policy.block_private && any (is_within (address_of p)) private_blocks)))
  unfolding admit class_of_ipv4 is_admitted
  admit-blocks policy =
      rw
        (
          within_8 0,
          within_8 127,
          within_8 10,
          within_16 169 254 (omega arith),
          within_16 192 168 (omega arith),
          within_multicast,
          within_reserved,
          within_172,
          within_100,
        )
        (ground arith)

-- The four parts are bytes.
abbrev AreBytes : Parts → Type 0
AreBytes p = (p.a < 256) × (p.b < 256) × (p.c < 256) × (p.d < 256)

module _ (net : Net) where
  byte_of-lt : (text : List ℕ) (n : ℕ) → byte_of net text ≡ some n → n < 256
  unfolding byte_of
  byte_of-lt text n e = elim (Option-cases (net.number text)) [
    | inl q ↦ absurd (ground arith)
    | inr (m, q) ↦ ground arith
  ]

  all_bytes-AreBytes :
      (w x y z : Option ℕ) (p : Parts)
      → ((n : ℕ) → w ≡ some n → n < 256)
      → ((n : ℕ) → x ≡ some n → n < 256)
      → ((n : ℕ) → y ≡ some n → n < 256)
      → ((n : ℕ) → z ≡ some n → n < 256)
      → all_bytes net w x y z ≡ some p
      → AreBytes p
  unfolding all_bytes
  all_bytes-AreBytes (some a) (some b) (some c) (some d) p ha hb hc hd e =
      let q : record { a = a; b = b; c = c; d = d } ≡ p = cc in
      subst AreBytes q (ha a refl, hb b refl, hc c refl, hd d refl)
  all_bytes-AreBytes none x y z p ha hb hc hd e = absurd (ground arith)
  all_bytes-AreBytes (some a) none y z p ha hb hc hd e = absurd (ground arith)
  all_bytes-AreBytes (some a) (some b) none z p ha hb hc hd e = absurd (ground arith)
  all_bytes-AreBytes (some a) (some b) (some c) none p ha hb hc hd e = absurd (ground arith)

  four_bytes-AreBytes :
      (t : List ℕ) (ts : List (List ℕ)) (p : Parts) → four_bytes net t ts ≡ some p → AreBytes p
  unfolding four_bytes
  four_bytes-AreBytes t [] p e = absurd (ground arith)
  four_bytes-AreBytes t (u ∷ []) p e = absurd (ground arith)
  four_bytes-AreBytes t (u ∷ v ∷ []) p e = absurd (ground arith)
  four_bytes-AreBytes t (u ∷ v ∷ w ∷ []) p e =
      all_bytes-AreBytes _ _ _ _ p (byte_of-lt t) (byte_of-lt u) (byte_of-lt v) (byte_of-lt w) e
  four_bytes-AreBytes t (u ∷ v ∷ w ∷ x ∷ rest) p e = absurd (ground arith)

-- An IPv4 address, as it is or mapped into IPv6 in dotted form, is admitted exactly when it lies in none of
-- the blocks for unspecified, link-local, multicast and reserved addresses, nor in the loopback block
-- unless the policy allows it, nor in a private block if the policy blocks these.
pub check_address_allowed-blocks :
    (net : Net) (address : List ℕ) (policy : Policy) (p : Parts)
    → net.is_ip (plain net address) ≡ 4
    → ipv4_parts net (plain net address) ≡ some p
    → is_admitted (check_address_allowed net address policy)
      ≡ not (
          any (is_within (address_of p)) forbidden_blocks
          || ((not policy.allow_loopback && any (is_within (address_of p)) loopback_blocks)
              || (policy.block_private && any (is_within (address_of p)) private_blocks)))
unfolding check_address_allowed classify_address ipv4_parts
check_address_allowed-blocks net address policy p v e =
    let (ha, hb, hc, hd) = four_bytes-AreBytes net _ _ p e in
    rw (v, e, classify_address) (admit-blocks p ha hb hc hd policy)
