-- ===== src/Webhooks/Addresses.antt =====
-- `classifyAddress` and `checkAddressAllowed` of modules/notifications/src/webhook-rules.js. A text is its
-- list of UTF-16 code units.
use nuvrion.Common.{
  ℕ, ◌/◌, ◌%◌, ◌^◌, Bool, true, false, ◌&&◌, ◌||◌, Option, none, some, List, [], ◌∷◌, every, leb,
  ◌==◌, if◌then◌else◌,
}

-- The functions of JavaScript and node:net that are called: String.prototype.trim and toLowerCase, isIP,
-- Number, where `none` is a number that is no integer from 0 on, and parseInt to base 16.
pub record Net : Type 0 where
  pub trim : List ℕ → List ℕ
  pub lower : List ℕ → List ℕ
  pub is_ip : List ℕ → ℕ
  pub number : List ℕ → Option ℕ
  pub parse_hex : List ℕ → ℕ

unfoldable pub text_eq : List ℕ → List ℕ → Bool
text_eq [] [] = true
text_eq [] (y ∷ ys) = false
text_eq (x ∷ xs) [] = false
text_eq (x ∷ xs) (y ∷ ys) = x == y && text_eq xs ys

-- text.split(separator), for one code unit: the first part, and the others.
unfoldable pub split_at : ℕ → List ℕ → List ℕ × List (List ℕ)
split_at c [] = ([], [])
split_at c (x ∷ xs) =
    let (part, parts) = split_at c xs in if x == c then ([], part ∷ parts) else (x ∷ part, parts)

-- text.startsWith('[') && text.endsWith(']') ? text.slice(1, -1) : text
unfoldable pub without_last : List ℕ → Option (List ℕ)
without_last [] = none
without_last (x ∷ []) = if x == b']' then some [] else none
without_last (x ∷ y ∷ xs) = elim (without_last (y ∷ xs)) [
  | none ↦ none
  | some rest ↦ some (x ∷ rest)
]

unfoldable pub unbracketed : List ℕ → List ℕ
unfolding without_last
unbracketed [] = []
unbracketed (x ∷ xs) =
    if x == b'[' then elim (without_last xs) [ none ↦ x ∷ xs | some inner ↦ inner ] else x ∷ xs

unfoldable pub is_digits : List ℕ → Bool
is_digits [] = false
is_digits (x ∷ xs) = every (λ c. leb b'0' c && leb c b'9') (x ∷ xs)

-- \d+\.\d+\.\d+\.\d+
unfoldable pub is_dotted : List ℕ → Bool
unfolding split_at is_digits
is_dotted text = elim (split_at b'.' text).1 [
  | [] ↦ false
  | p ∷ ps ↦ elim ps [
    | [] ↦ false
    | q ∷ qs ↦ elim qs [
      | [] ↦ false
      | r ∷ rs ↦ elim rs [
        | [] ↦ is_digits (split_at b'.' text).0 && (is_digits p && (is_digits q && is_digits r))
        | s ∷ ss ↦ false
      ]
    ]
  ]
]

-- What follows `::ffff:`, if that is how the text begins.
unfoldable pub after_prefix : List ℕ → List ℕ → Option (List ℕ)
after_prefix [] text = some text
after_prefix (p ∷ ps) [] = none
after_prefix (p ∷ ps) (x ∷ xs) = if p == x then after_prefix ps xs else none

abbrev mapped_prefix : List ℕ
mapped_prefix = b':' ∷ b':' ∷ b'f' ∷ b'f' ∷ b'f' ∷ b'f' ∷ b':' ∷ []

unfoldable pub unmapped : List ℕ → List ℕ
unfolding after_prefix is_dotted
unmapped text = elim (after_prefix mapped_prefix text) [
  | none ↦ text
  | some rest ↦ if is_dotted rest then rest else text
]

pub record Parts : Type 0 where
  pub a : ℕ
  pub b : ℕ
  pub c : ℕ
  pub d : ℕ

-- ipv4Parts(address)
module _ (net : Net) where
  unfoldable pub byte_of : List ℕ → Option ℕ
  byte_of text = elim (net.number text) [
    | none ↦ none
    | some n ↦ if leb n 255 then some n else none
  ]

  unfoldable pub all_bytes : Option ℕ → Option ℕ → Option ℕ → Option ℕ → Option Parts
  all_bytes (some a) (some b) (some c) (some d) = some (record { a = a; b = b; c = c; d = d })
  all_bytes _ _ _ _ = none

  unfoldable pub four_bytes : List ℕ → List (List ℕ) → Option Parts
  unfolding byte_of all_bytes
  four_bytes p [] = none
  four_bytes p (q ∷ []) = none
  four_bytes p (q ∷ r ∷ []) = none
  four_bytes p (q ∷ r ∷ s ∷ []) = all_bytes (byte_of p) (byte_of q) (byte_of r) (byte_of s)
  four_bytes p (q ∷ r ∷ s ∷ t ∷ rest) = none

  unfoldable pub ipv4_parts : List ℕ → Option Parts
  unfolding split_at four_bytes
  ipv4_parts address = let (first, rest) = split_at b'.' address in four_bytes first rest

pub data Class : Type 0 where
  loopback unspecified link_local multicast reserved private_network public_network : Class

unfoldable pub class_of_ipv4 : ℕ → ℕ → Class
class_of_ipv4 a b =
    if a == 127
    then loopback
    else if a == 0
    then unspecified
    else if a == 169 && b == 254
    then link_local
    else if leb 224 a && leb a 239
    then multicast
    else if leb 240 a
    then reserved
    else if a == 10
        || ((a == 172 && (leb 16 b && leb b 31))
            || ((a == 192 && b == 168) || (a == 100 && (leb 64 b && leb b 127))))
    then private_network
    else public_network

unfoldable pub class_of_ipv6 : ℕ → Class
class_of_ipv6 first =
    if (first / 2 ^ 6) % 2 ^ 10 == 0xfe80 / 2 ^ 6
    then link_local
    else if (first / 2 ^ 8) % 2 ^ 8 == 0xff
    then multicast
    else if (first / 2 ^ 9) % 2 ^ 7 == 0xfc00 / 2 ^ 9
    then private_network
    else public_network

-- The first group, or '0' where it is empty.
unfoldable pub first_group : List ℕ → List ℕ
unfolding split_at
first_group text = elim (split_at b':' text).0 [ [] ↦ b'0' ∷ [] | x ∷ xs ↦ x ∷ xs ]

module _ (net : Net) where
  unfoldable pub plain : List ℕ → List ℕ
  unfolding unbracketed unmapped
  plain address = unmapped (unbracketed (net.lower (net.trim address)))

  -- classifyAddress(address)
  unfoldable pub classify_address : List ℕ → Class
  unfolding ipv4_parts class_of_ipv4 class_of_ipv6 first_group text_eq plain
  classify_address address =
      let text = plain address in
      if net.is_ip text == 4
      then elim (ipv4_parts net text) [
        | none ↦ reserved
        | some parts ↦ class_of_ipv4 parts.a parts.b
      ]
      else if net.is_ip text == 6
      then if text_eq text (b':' ∷ b':' ∷ b'1' ∷ [])
        then loopback
        else if text_eq text (b':' ∷ b':' ∷ [])
        then unspecified
        else class_of_ipv6 (net.parse_hex (first_group text))
      else reserved

-- The policy: { allowLoopback, blockPrivate }.
pub record Policy : Type 0 where
  pub allow_loopback : Bool
  pub block_private : Bool

pub data Admission : Type 0 where
  this_machine not_usable private_blocked : Admission
  admitted : Class → Admission

unfoldable pub admit : Policy → Class → Admission
admit policy loopback = if policy.allow_loopback then admitted loopback else this_machine
admit policy unspecified = not_usable
admit policy link_local = not_usable
admit policy multicast = not_usable
admit policy reserved = not_usable
admit policy private_network =
    if policy.block_private then private_blocked else admitted private_network
admit policy public_network = admitted public_network

-- checkAddressAllowed(address, policy), with its three errors
unfoldable pub check_address_allowed : Net → List ℕ → Policy → Admission
unfolding admit classify_address
check_address_allowed net address policy = admit policy (classify_address net address)
