-- ===== src/Webhooks/EditTests.antt =====
-- Requests for webhooks, and the editing of a destination.
use nuvrion.Common.{
  ℕ, String, Bool, true, false, Option, none, some, List, [], ◌∷◌, ◌≡◌, refl, ap, any, ◌⊎◌, inl,
  inr, str_eq, ◌==◌, if◌then◌else◌,
}
use Prim.Native.Char.{code}
use nuvrion.Common.Results.{ok, err}
use nuvrion.Common.Json.{Json, text, object, field, end}
use nuvrion.Webhooks.Rules.{Destination, warning}
use nuvrion.Webhooks.Queue.{Service}
use nuvrion.Webhooks.Requests.{
  Address, Means, Change, no_name, parse_webhook_url, parse_destination, parse_change, event_keys,
}
use nuvrion.Webhooks.Destinations.{
  Secrets, Cipher, context, update_destination, secrets_of, delete_destination,
}
use nuvrion.Webhooks.Addresses.{Parts}
use nuvrion.Webhooks.Blocks.{is_within, address_of, forbidden_blocks, loopback_blocks}
use nuvrion.Webhooks.AddressTests.{sample_net}
use nuvrion.Webhooks.Sealing.{
  Reads, secrets_given, parse_webhook_url-unblocked, secrets_of-update_destination,
}

abbrev address : Address
address = record {
  protocol = "https:";
  username = "";
  password = "";
  hostname = "hooks.example.com";
  host = "hooks.example.com";
  href = "https://hooks.example.com/t";
}

abbrev means : Means
means = record {
  platform = record { lower = λ s. s; shown = λ v. "" };
  net = record {
    trim = λ t. t;
    lower = λ t. t;
    is_ip = λ t. 0;
    number = λ t. none;
    parse_hex = λ t. 0;
  };
  url = λ s. some address;
  policy = record { allow_loopback = false; block_private = false };
  allow_http = false;
}

abbrev old_secrets : Secrets
old_secrets = record { url = "https://old.example.com/"; signing_secret = some "swordfish" }

-- A cipher that puts a letter u before each letter of the address, and another letter before the signing secret.
abbrev letters : String → String → String
letters String.[] rest = rest
letters (String.◌∷◌ c s) rest = String.◌∷◌ "u" (String.◌∷◌ c (letters s rest))

abbrev sealed_secret : Option String → String
sealed_secret none = ""
sealed_secret (some s) = String.◌∷◌ "s" s

abbrev read_back : String → Secrets
read_back String.[] = record { url = ""; signing_secret = none }
read_back (String.◌∷◌ m String.[]) = record { url = ""; signing_secret = some "" }
read_back (String.◌∷◌ m (String.◌∷◌ c s)) =
    let rest = read_back s in
    if code m == b'u'
    then record { url = String.◌∷◌ c rest.url; signing_secret = rest.signing_secret }
    else record { url = ""; signing_secret = some (String.◌∷◌ c s) }

abbrev cipher : Cipher
cipher = record {
  encrypt = λ x c. letters x.url (sealed_secret x.signing_secret);
  decrypt = λ t c. some (read_back t);
}

read_back-sealed :
    (url : String) (secret : Option String)
    → read_back (letters url (sealed_secret secret)) ≡ record { url = url; signing_secret = secret }
read_back-sealed String.[] none = refl
read_back-sealed String.[] (some String.[]) = refl
read_back-sealed String.[] (some (String.◌∷◌ c s)) = refl
read_back-sealed (String.◌∷◌ c url) secret =
    ap (λ (x : Secrets). record { url = String.◌∷◌ c x.url; signing_secret = x.signing_secret })
      (read_back-sealed url secret)

cipher-Reads : (x : Secrets) → Reads cipher "d1" x
cipher-Reads x = ap some (read_back-sealed x.url x.signing_secret)

abbrev chat : Destination
chat = record {
  id = "d1";
  name = "chat";
  events = event_keys;
  min_severity = warning;
  enabled = true;
  active_since = 0;
  consecutive_failures = 0;
  last_attempt_at = none;
  last_success_at = none;
  last_error = none;
  format = text "json";
  url_hint = "https://old.example.com/…";
  secret = cipher.encrypt old_secrets (context "d1");
  has_signing_secret = true;
  row_version = 1;
  created_by = none;
  created_at = 0;
  updated_at = 0;
}

abbrev service : Service
service = record {
  destinations = ("d1", chat) ∷ [];
  deliveries = [];
  has_file = false;
  disk = none;
  drawn = 0;
}

abbrev patch : Json
patch = object (field "signingSecret" (text "bluemarlin") (field "enabled" (Json.bool false) end))

abbrev change : Change
change = record {
  name = none;
  url = none;
  format = none;
  events = none;
  min_severity = none;
  enabled = some false;
  signing_secret = some (some "bluemarlin");
}

abbrev quiet : Destination
quiet = record chat {
  secret =
      cipher.encrypt
        (record { url = "https://old.example.com/"; signing_secret = some "bluemarlin" })
        (context "d1");
  enabled = false;
  row_version = 2;
  updated_at = 9;
}

parse_patch : parse_change means (some patch) ≡ ok change
unfolding parse_change nuvrion.Common.get
parse_patch = refl

update_chat :
    update_destination means cipher "d1" (some patch) 1 9 service
    ≡ ok (some (record service { destinations = ("d1", quiet) ∷ [] }, quiet))
unfolding update_destination nuvrion.Common.get nuvrion.Common.put
update_chat = refl

nameless :
    parse_destination means (some (object (field "url" (text "https://hooks.example.com/t") end)))
    ≡ err no_name
unfolding parse_destination nuvrion.Common.get
nameless = refl

delete_chat : delete_destination "d1" service ≡ some (record service { destinations = [] })
unfolding delete_destination nuvrion.Common.get nuvrion.Common.remove
delete_chat = refl

-- 93.184.216.34
abbrev numbered : Address
numbered = record address { hostname = "93.184.216.34"; host = "93.184.216.34" }

abbrev numbered_parts : Parts
numbered_parts = record { a = 93; b = 184; c = 216; d = 34 }

abbrev numbered_means : Means
numbered_means = record means { net = sample_net; url = λ s. some numbered }

numbered_accepted :
    parse_webhook_url numbered_means (some (text "https://93.184.216.34/t")) ≡ ok numbered
unfolding parse_webhook_url nuvrion.Webhooks.AddressTests.decimal
numbered_accepted = refl

parse_webhook_url-unblocked_example :
    (any (is_within (address_of numbered_parts)) forbidden_blocks ≡ false)
    × (any (is_within (address_of numbered_parts)) loopback_blocks ≡ false)
    × (false ≡ false)
    × ((true ≡ true) ⊎ (false ≡ true))
unfolding parse_webhook_url nuvrion.Webhooks.AddressTests.decimal
parse_webhook_url-unblocked_example =
    parse_webhook_url-unblocked numbered_means (some (text "https://93.184.216.34/t")) numbered
      numbered_parts numbered_accepted refl refl refl

secrets_of-update_destination_example :
    secrets_of means cipher "d1" (record service { destinations = ("d1", quiet) ∷ [] })
    ≡ some (some (secrets_given change old_secrets))
unfolding nuvrion.Common.get
secrets_of-update_destination_example =
    secrets_of-update_destination means cipher "d1" (some patch) 1 9 service
      (record service { destinations = ("d1", quiet) ∷ [] }) chat quiet change old_secrets
      cipher-Reads refl update_chat parse_patch refl
