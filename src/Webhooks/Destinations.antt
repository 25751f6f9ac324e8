-- ===== src/Webhooks/Destinations.antt =====
-- The editing of destinations in modules/notifications/src/destination-service.js. The cipher that seals an
-- address and its signing secret is a parameter; the sealed text holds its parts.
use nuvrion.Common.{
  ℕ, suc, ◌+◌, String, text_append, Bool, false, ◌&&◌, ◌||◌, not, Option, none, some, List, any,
  filter_by, length, is_some, str_eq, leb, ◌==◌, get, put, remove, values, Assoc, or_else, truthy,
  sort_by, map, if◌then◌else◌,
}
use nuvrion.Common.Results.{Result, ok, err, ◌>>=◌, ◌>>◌, refuse_if}
use nuvrion.Common.Json.{Json}
use nuvrion.Webhooks.Rules.{Destination}
use nuvrion.Webhooks.Queue.{Service, is_pending, persist}
use nuvrion.Webhooks.Requests.{
  Address, Means, WebhookError, not_an_address, Wanted, Change, parse_destination, parse_change,
}

pub record Secrets : Type 0 where
  pub url : String
  pub signing_secret : Option String

-- encrypt and decrypt under a context; `none` is what decrypt throws at.
pub record Cipher : Type 0 where
  pub encrypt : Secrets → String → String
  pub decrypt : String → String → Option Secrets

pub data Refusal : Type 0 where
  invalid : WebhookError → Refusal
  name_exists : String → Refusal
  destination_limit version_conflict sealed_wrongly : Refusal

-- LIMITS.destinations
abbrev pub destinations_limit : ℕ
destinations_limit = 20

-- context(id)
unfoldable pub context : String → String
context id = text_append "nuvrion:webhook-destination:" id

-- #public(item): the item without its secret, and how many deliveries wait
unfoldable pub public_of : Service → Destination → Destination × ℕ
unfolding is_pending
public_of s item = (
  record item { secret = "" },
  length (filter_by (λ d. str_eq d.destination_id item.id && is_pending d.status) s.deliveries),
)

unfoldable pub read_ok {ℓ} : {A : Type ℓ} → Result WebhookError A → Result Refusal A
read_ok (err e) = err (invalid e)
read_ok (ok a) = ok a

-- urlHint(url)
unfoldable pub url_hint : Address → String
url_hint url = text_append url.protocol (text_append "//" (text_append url.host "/…"))

module _ (means : Means) (cipher : Cipher) where
  -- #checkName(name, exceptId): whether another destination has the name
  unfoldable pub name_taken : String → Option String → Assoc Destination → Bool
  name_taken name except_id destinations =
      any
        (λ item.
          not (elim except_id [ none ↦ false | some id ↦ str_eq item.id id ])
          && str_eq (means.platform.lower item.name) (means.platform.lower name))
        (values destinations)

  -- urlHint(new URL(href))
  unfoldable pub hint_of : String → Result Refusal String
  unfolding url_hint
  hint_of href = elim (means.url href) [
    | none ↦ err (invalid not_an_address)
    | some url ↦ ok (url_hint url)
  ]

  unfoldable pub new_destination : String → Wanted → String → Option String → ℕ → Destination
  unfolding context
  new_destination id w hint user_id now = record {
    id = id;
    name = w.name;
    format = w.format;
    events = w.events;
    min_severity = w.min_severity;
    enabled = w.enabled;
    active_since = now;
    url_hint = hint;
    secret =
        cipher.encrypt (record { url = w.url; signing_secret = w.signing_secret }) (context id);
    has_signing_secret = truthy w.signing_secret;
    consecutive_failures = 0;
    last_attempt_at = none;
    last_success_at = none;
    last_error = none;
    row_version = 1;
    created_by = user_id;
    created_at = now;
    updated_at = now;
  }

  -- createDestination(input, userId, now)
  unfoldable pub create_destination :
      (ℕ → String) → Option Json → Option String → ℕ → Service → Result Refusal (Service × String)
  unfolding parse_destination name_taken hint_of new_destination persist read_ok
  create_destination uuid input user_id now s = do
    fields ← read_ok (parse_destination means input)
    refuse_if (leb destinations_limit (length s.destinations)) destination_limit
    refuse_if (name_taken fields.name none s.destinations) (name_exists fields.name)
    let id = uuid s.drawn
    hint ← hint_of fields.url
    let item = new_destination id fields hint user_id now
    ok (persist (record s { destinations = put id item s.destinations; drawn = suc s.drawn }), id)

  -- secretsOf(id): none if there is no such destination
  unfoldable pub secrets_of : String → Service → Option (Option Secrets)
  unfolding context
  secrets_of id s = elim (get id s.destinations) [
    | none ↦ none
    | some item ↦ some (cipher.decrypt item.secret (context id))
  ]

  -- The secrets after a change.
  unfoldable pub changed_secrets : Change → Secrets → Secrets
  changed_secrets change old = record {
    url = or_else change.url old.url;
    signing_secret = or_else change.signing_secret old.signing_secret;
  }

  unfoldable pub changed_hint : Option String → String → Result Refusal String
  unfolding hint_of
  changed_hint none old = ok old
  changed_hint (some href) old = hint_of href

  -- The destination after a change, which seals its secrets again if they change.
  unfoldable pub changed : String → Change → Secrets → String → ℕ → Destination → Destination
  unfolding context changed_secrets
  changed id change secrets hint now item = record item {
    url_hint = hint;
    has_signing_secret = elim change.signing_secret [
      | none ↦ item.has_signing_secret
      | some secret ↦ truthy secret
    ];
    secret =
        if is_some change.url || is_some change.signing_secret
        then cipher.encrypt (changed_secrets change secrets) (context id)
        else item.secret;
    name = or_else change.name item.name;
    format = or_else change.format item.format;
    events = or_else change.events item.events;
    min_severity = or_else change.min_severity item.min_severity;
    active_since =
        if or_else change.enabled false && not item.enabled then now else item.active_since;
    enabled = or_else change.enabled item.enabled;
    row_version = item.row_version + 1;
    updated_at = now;
  }

  unfoldable pub unsealed : Option Secrets → Result Refusal Secrets
  unsealed none = err sealed_wrongly
  unsealed (some secrets) = ok secrets

  unfoldable pub update_item :
      String → Option Json → ℕ → ℕ → Service → Destination → Result Refusal (Service × Destination)
  unfolding parse_change name_taken changed_hint changed unsealed persist context read_ok
  update_item id patch expected_version now s item = do
    refuse_if (not (item.row_version == expected_version)) version_conflict
    change ← read_ok (parse_change means patch)
    refuse_if
        (elim change.name [ none ↦ false | some name ↦ name_taken name (some id) s.destinations ])
        (name_exists (or_else change.name ""))
    secrets ← unsealed (cipher.decrypt item.secret (context id))
    hint ← changed_hint change.url item.url_hint
    let item' = changed id change secrets hint now item
    ok (persist (record s { destinations = put id item' s.destinations }), item')

  -- updateDestination(id, patch, expectedVersion, now)
  unfoldable pub update_destination :
      String → Option Json → ℕ → ℕ → Service → Result Refusal (Option (Service × Destination))
  unfolding update_item
  update_destination id patch expected_version now s = elim (get id s.destinations) [
    | none ↦ ok none
    | some item ↦ update_item id patch expected_version now s item >>= λ r. ok (some r)
  ]

-- deleteDestination(id): none if there is no such destination
unfoldable pub delete_destination : String → Service → Option Service
unfolding persist
delete_destination id s =
    if is_some (get id s.destinations)
    then some (
        persist (record s {
          destinations = remove id s.destinations;
          deliveries = filter_by (λ d. not (str_eq d.destination_id id)) s.deliveries;
        }))
    else none

-- listDestinations(); `after` is localeCompare being above 0
unfoldable pub list_destinations : (String → String → Bool) → Service → List (Destination × ℕ)
unfolding public_of sort_by
list_destinations after s =
    map (public_of s) (sort_by (λ a b. after a.name b.name) (values s.destinations))
