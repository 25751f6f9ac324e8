-- ===== src/Webhooks/AddressTests.antt =====
-- The theorem on addresses at a link-local IPv4 address that is mapped into IPv6, and the class of a
-- loopback address that is mapped so in hexadecimal.
use nuvrion.Common.{ℕ, ◌+◌, ◌*◌, ◌-◌, ◌≡◌, refl, false, some, List, [], ◌∷◌, if◌then◌else◌}
use nuvrion.Webhooks.Addresses.{
  Net, Policy, Parts, text_eq, split_at, unbracketed, is_digits, is_dotted, after_prefix, unmapped,
  byte_of, all_bytes, four_bytes, ipv4_parts, plain, class_of_ipv6, first_group, classify_address,
  public_network, check_address_allowed,
}
use nuvrion.Webhooks.Blocks.{is_within, address_of, is_admitted, check_address_allowed-blocks}

-- Decimal digits, read onto a number.
unfoldable pub decimal : ℕ → List ℕ → ℕ
decimal n [] = n
decimal n (c ∷ cs) = decimal (n * 10 + (c - b'0')) cs

-- What the functions of the platform do on the texts below: four decimal numbers are an IPv4 address, and
-- other texts IPv6 addresses that begin with the group 0.
abbrev pub sample_net : Net
sample_net = record {
  trim = λ t. t;
  lower = λ t. t;
  is_ip = λ t. if is_dotted t then 4 else 6;
  number = λ t. some (decimal 0 t);
  parse_hex = λ t. 0;
}

abbrev strict : Policy
strict = record { allow_loopback = false; block_private = false }

-- ::ffff:169.254.0.9
abbrev metadata : List ℕ
metadata =
    b':' ∷ b':' ∷ b'f' ∷ b'f' ∷ b'f' ∷ b'f' ∷ b':' ∷ b'1' ∷ b'6' ∷ b'9' ∷ b'.' ∷ b'2' ∷ b'5' ∷ b'4'
    ∷ b'.' ∷ b'0' ∷ b'.' ∷ b'9' ∷ []

abbrev metadata_parts : Parts
metadata_parts = record { a = 169; b = 254; c = 0; d = 9 }

check_address_allowed-blocks_example :
    is_admitted (check_address_allowed sample_net metadata strict) ≡ false
unfolding plain unbracketed unmapped after_prefix is_dotted is_digits split_at ipv4_parts four_bytes
    all_bytes byte_of decimal is_within address_of
check_address_allowed-blocks_example =
    check_address_allowed-blocks sample_net metadata strict metadata_parts refl refl

-- ::ffff:7f00:1, which is ::ffff:127.0.0.1 as URL writes it
abbrev mapped_loopback : List ℕ
mapped_loopback =
    b':' ∷ b':' ∷ b'f' ∷ b'f' ∷ b'f' ∷ b'f' ∷ b':' ∷ b'7' ∷ b'f' ∷ b'0' ∷ b'0' ∷ b':' ∷ b'1' ∷ []

classify_address-mapped_loopback : classify_address sample_net mapped_loopback ≡ public_network
unfolding classify_address plain unbracketed unmapped after_prefix is_dotted is_digits split_at
    text_eq first_group class_of_ipv6
classify_address-mapped_loopback = refl
