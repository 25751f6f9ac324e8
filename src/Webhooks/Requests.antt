-- ===== src/Webhooks/Requests.antt =====
-- The requests of modules/notifications/src/webhook-rules.js: parseWebhookUrl, parseDestination and parseChange.
-- The reader of addresses (URL) is a parameter.
use nuvrion.Common.{
  ℕ, String, Bool, true, false, ◌&&◌, ◌||◌, not, Option, none, some, List, [], ◌∷◌, any, str_eq,
  length, ltb, ◌==◌, get, Assoc, if◌then◌else◌,
}
use nuvrion.Common.Results.{Result, ok, err, ◌>>=◌, ◌>>◌, refuse_if}
use nuvrion.Common.Text.{codes, units, trim, has_control, is_control, is_space}
use nuvrion.Common.Json.{
  Json, null, bool, text, object, field, end, Platform, object_of, array_of, named_unknown_field,
  to_text, or_value,
}
use nuvrion.Inventory.TagRequest.{distinct}
use nuvrion.Webhooks.Rules.{Severity, warning, critical}
use nuvrion.Webhooks.Addresses.{Net, Policy, Admission, admitted, check_address_allowed}

-- What URL reads of an address.
pub record Address : Type 0 where
  pub protocol : String
  pub username : String
  pub password : String
  pub hostname : String
  pub host : String
  pub href : String

-- The platform, and whether the installation allows http.
pub record Means : Type 0 where
  pub platform : Platform
  pub net : Net
  pub url : String → Option Address
  pub policy : Policy
  pub allow_http : Bool

-- The reasons of a WebhookError.
pub data WebhookError : Type 0 where
  no_address long_address spaces not_an_address not_https credentials no_host : WebhookError
  refused : Admission → WebhookError
  no_name long_name name_characters : WebhookError
  not_object nothing_to_change bad_format bad_events bad_severity bad_enabled : WebhookError
  unknown_field_named : String → WebhookError
  secret_length secret_characters : WebhookError

-- LIMITS
abbrev pub url_max : ℕ
url_max = 2048

abbrev pub name_max : ℕ
name_max = 100

abbrev pub secret_max : ℕ
secret_max = 200

-- EVENT_KEYS
abbrev pub event_keys : List String
event_keys =
    "alert.fired" ∷ "alert.resolved" ∷ "connection.down" ∷ "connection.recovered"
    ∷ "schedule.problem" ∷ []

-- The keys of FORMATS.
abbrev pub format_keys : List String
format_keys = "json" ∷ "text" ∷ "discord" ∷ []

abbrev pub editable : List String
editable = "name" ∷ "url" ∷ "format" ∷ "events" ∷ "minSeverity" ∷ "signingSecret" ∷ "enabled" ∷ []

-- [\p{Cc}\p{Cf}]
unfoldable pub is_hidden : ℕ → Bool
unfolding is_control
is_hidden c = is_control c && not (c == 0x2028 || c == 0x2029)

-- hostname.startsWith('[') ? hostname.slice(1, -1) : hostname
unfoldable pub dropped_last : List ℕ → List ℕ
dropped_last [] = []
dropped_last (c ∷ []) = []
dropped_last (c ∷ d ∷ cs) = c ∷ dropped_last (d ∷ cs)

unfoldable pub host_of : List ℕ → List ℕ
unfolding dropped_last
host_of [] = []
host_of (c ∷ cs) = if c == b'[' then dropped_last cs else c ∷ cs

unfoldable pub is_admitted : Admission → Bool
is_admitted (admitted c) = true
is_admitted _ = false

-- plainName, on the trimmed text
unfoldable pub check_name : String → Result WebhookError String
unfolding units has_control
check_name s = do
  refuse_if (str_eq s "") no_name
  refuse_if (ltb name_max (units s)) long_name
  refuse_if (has_control s) name_characters
  ok s

-- A key of SEVERITY_RANK, as Object.hasOwn reads a value.
unfoldable pub severity_named : String → Result WebhookError Severity
severity_named s =
    if str_eq s "warning"
    then ok warning
    else if str_eq s "critical"
    then ok critical
    else err bad_severity

-- The texts of a list, if all are kinds of events.
unfoldable pub events_named : List Json → Result WebhookError (List String)
events_named [] = ok []
events_named (text s ∷ rest) =
    let others = events_named rest in
    if any (str_eq s) event_keys then (others >>= λ es. ok (s ∷ es)) else err bad_events
events_named (v ∷ rest) = err bad_events

unfoldable pub events_in : Option Json → Result WebhookError (List String)
unfolding events_named distinct
events_in v = elim (array_of v) [
  | none ↦ err bad_events
  | some vs ↦ refuse_if (length vs == 0) bad_events >> (events_named vs >>= λ es. ok (distinct es))
]

unfoldable pub events_of : Option Json → Result WebhookError (List String)
unfolding events_in
events_of none = ok event_keys
events_of (some v) = events_in (some v)

unfoldable pub switch_of : Json → Result WebhookError Bool
switch_of (bool b) = ok b
switch_of _ = err bad_enabled

unfoldable pub enabled_of : Option Json → Result WebhookError Bool
unfolding switch_of
enabled_of none = ok true
enabled_of (some v) = switch_of v

-- What parseDestination returns.
pub record Wanted : Type 0 where
  pub name : String
  pub url : String
  pub format : Json
  pub events : List String
  pub min_severity : Severity
  pub signing_secret : Option String
  pub enabled : Bool

-- What parseChange returns: the fields that change.
pub record Change : Type 0 where
  pub name : Option String
  pub url : Option String
  pub format : Option Json
  pub events : Option (List String)
  pub min_severity : Option Severity
  pub enabled : Option Bool
  pub signing_secret : Option (Option String)

-- A field of a change, if it is given.
abbrev pub if_given :
    {A : Type 0} → (Json → Result WebhookError A) → Option Json → Result WebhookError (Option A)
if_given parse none = ok none
if_given parse (some v) = parse v >>= λ a. ok (some a)

module _ (means : Means) where
  -- The checks of an address that was read.
  unfoldable pub check_address : Address → Result WebhookError Address
  unfolding host_of is_admitted check_address_allowed
  check_address url = do
    refuse_if
        (not (str_eq url.protocol "https:")
          && not (str_eq url.protocol "http:" && means.allow_http))
        not_https
    refuse_if (not (str_eq url.username "") || not (str_eq url.password "")) credentials
    refuse_if (str_eq url.hostname "") no_host
    let host = host_of (codes url.hostname)
    let admission = check_address_allowed means.net host means.policy
    refuse_if (not (means.net.is_ip host == 0) && not (is_admitted admission)) (refused admission)
    ok url

  unfoldable pub check_text : String → Result WebhookError Address
  unfolding units is_hidden is_space check_address
  check_text s = do
    refuse_if (str_eq s "") no_address
    refuse_if (ltb url_max (units s)) long_address
    refuse_if (any (λ c. is_hidden c || is_space c) (codes s)) spaces
    elim (means.url s) [ none ↦ err not_an_address | some url ↦ check_address url ]

  -- parseWebhookUrl(raw, policy)
  unfoldable pub parse_webhook_url : Option Json → Result WebhookError Address
  unfolding check_text to_text trim
  parse_webhook_url raw = check_text (trim (to_text means.platform raw))

  -- plainName(raw)
  unfoldable pub plain_name : Option Json → Result WebhookError String
  unfolding check_name to_text trim
  plain_name raw = check_name (trim (to_text means.platform raw))

  -- A value that names a format, as Object.hasOwn reads it; the value is kept.
  unfoldable pub format_of : Json → Result WebhookError Json
  unfolding to_text
  format_of v =
      if any (str_eq (to_text means.platform (some v))) format_keys then ok v else err bad_format

  unfoldable pub severity_of : Json → Result WebhookError Severity
  unfolding severity_named to_text
  severity_of v = severity_named (to_text means.platform (some v))

  unfoldable pub check_secret : String → Result WebhookError String
  unfolding units is_hidden
  check_secret s = do
    refuse_if (ltb (units s) 8 || ltb secret_max (units s)) secret_length
    refuse_if (any is_hidden (codes s)) secret_characters
    ok s

  -- undefined, null and '' are no secret
  unfoldable pub secret_of : Option Json → Result WebhookError (Option String)
  unfolding check_secret to_text
  secret_of none = ok none
  secret_of (some null) = ok none
  secret_of (some v) =
      let s = to_text means.platform (some v) in
      if is_empty_text v then ok none else (check_secret s >>= λ secret. ok (some secret))
    where
      is_empty_text : Json → Bool
      is_empty_text (text t) = str_eq t ""
      is_empty_text _ = false

  unfoldable pub request_fields : Option Json → Result WebhookError (Assoc Json)
  unfolding named_unknown_field
  request_fields body = elim (object_of body) [
    | none ↦ err not_object
    | some fields ↦ elim (named_unknown_field editable fields) [
      | some name ↦ err (unknown_field_named name)
      | none ↦ ok fields
    ]
  ]

  unfoldable pub wanted_of : Assoc Json → Result WebhookError Wanted
  unfolding parse_webhook_url format_of events_of severity_of enabled_of secret_of plain_name
  wanted_of fields = do
    url ← parse_webhook_url (get "url" fields)
    format ← format_of (or_value (get "format" fields) (text "json"))
    events ← events_of (get "events" fields)
    min_severity ← severity_of (or_value (get "minSeverity" fields) (text "warning"))
    enabled ← enabled_of (get "enabled" fields)
    signing_secret ← secret_of (get "signingSecret" fields)
    name ← plain_name (get "name" fields)
    ok (record {
      name = name;
      url = url.href;
      format = format;
      events = events;
      min_severity = min_severity;
      signing_secret = signing_secret;
      enabled = enabled;
    })

  -- parseDestination(body, policy)
  unfoldable pub parse_destination : Option Json → Result WebhookError Wanted
  unfolding request_fields wanted_of
  parse_destination body = request_fields body >>= wanted_of

  -- The secret of a change: '' and null remove it, another is read as that of a destination.
  unfoldable pub changed_secret : Json → Result WebhookError (Option String)
  unfolding parse_destination
  changed_secret null = ok none
  changed_secret (text s) =
      if str_eq s ""
      then ok none
      else (parse_destination (
            some (
              object (
                field "name" (text "x") (
                  field "url" (text "https://example.com/") (field "signingSecret" (text s) end)))))
          >>= λ w. ok w.signing_secret)
  changed_secret v =
      parse_destination (
        some (
          object (
            field "name" (text "x")
              (field "url" (text "https://example.com/") (field "signingSecret" v end)))))
      >>= λ w. ok w.signing_secret

  unfoldable pub change_of : Assoc Json → Result WebhookError Change
  unfolding plain_name parse_webhook_url format_of events_in severity_of switch_of changed_secret
  change_of fields = do
    name ← if_given (λ v. plain_name (some v)) (get "name" fields)
    url ← if_given (λ v. parse_webhook_url (some v) >>= λ u. ok u.href) (get "url" fields)
    format ← if_given format_of (get "format" fields)
    events ← if_given (λ v. events_in (some v)) (get "events" fields)
    min_severity ← if_given severity_of (get "minSeverity" fields)
    enabled ← if_given switch_of (get "enabled" fields)
    signing_secret ← if_given changed_secret (get "signingSecret" fields)
    ok (record {
      name = name;
      url = url;
      format = format;
      events = events;
      min_severity = min_severity;
      enabled = enabled;
      signing_secret = signing_secret;
    })

  -- parseChange(patch, policy)
  unfoldable pub parse_change : Option Json → Result WebhookError Change
  unfolding request_fields change_of
  parse_change patch = request_fields patch >>= λ fields.
      refuse_if (length fields == 0) nothing_to_change >> change_of fields
