-- ===== src/Webhooks/Payload.antt =====
-- What is posted to a destination: describeEvent, buildPayload and buildHeaders of
-- modules/notifications/src/webhook-rules.js. Texts of an event are lists of UTF-16 code units.
use nuvrion.Common.{
  ℕ, ◌/◌, String, text_append, Option, none, some, List, [], ◌∷◌, ◌++◌, take, or_else, str_eq, get,
  Bool, false, Assoc, truthy, if◌then◌else◌,
}
use nuvrion.Common.Json.{Json, text}
use nuvrion.Common.Text.{codes}
use nuvrion.Webhooks.Rules.{Severity, warning, critical, Event, Destination}

-- VERB
abbrev verbs : Assoc String
verbs =
    ("alert.fired", "alert raised")
    ∷ ("alert.resolved", "alert resolved")
    ∷ ("connection.down", "connection problem")
    ∷ ("connection.recovered", "connection recovered")
    ∷ ("schedule.problem", "schedule problem")
    ∷ ("test", "test")
    ∷ []

unfoldable pub upper_severity : Severity → String
upper_severity warning = "WARNING"
upper_severity critical = "CRITICAL"

-- event.detail ? ` — ${event.detail}` : ''
unfoldable pub detail_part : List ℕ → List ℕ
detail_part [] = []
detail_part (c ∷ cs) = codes " — " ++ c ∷ cs

-- describeEvent(event)
unfoldable pub describe_event : Event → List ℕ
unfolding upper_severity detail_part
describe_event e =
    codes "["
    ++ codes (upper_severity e.severity)
    ++ codes "] "
    ++ e.title
    ++ detail_part e.detail
    ++ codes " ("
    ++ codes (or_else (get e.type verbs) e.type)
    ++ codes ")"

-- The object that buildPayload makes a text of.
pub data Body : Type 0 where
  text_body content_body : List ℕ → Body
  event_body : (event : Event) (delivery_id version : String) (told : List ℕ) → Body

-- format === s
unfoldable pub is_format : Json → String → Bool
is_format (text f) s = str_eq f s
is_format _ s = false

unfoldable pub body_of : Destination → Event → String → String → Body
unfolding is_format describe_event
body_of d e version delivery_id =
    if is_format d.format "text"
    then text_body (describe_event e)
    else if is_format d.format "discord"
    then content_body (take 2000 (describe_event e))
    else event_body e delivery_id version (describe_event e)

-- What JavaScript gives: JSON.stringify of a body, the text of a number, the bytes of a text in UTF-8, and the
-- HMAC-SHA256 of a text, in hexadecimal, under a secret.
pub record Texts : Type 0 where
  pub stringify : Body → String
  pub shown : ℕ → String
  pub byte_length : String → ℕ
  pub hmac : String → String → String

module _ (texts : Texts) where
  -- buildPayload(destination, event, { version, deliveryId })
  unfoldable pub build_payload : Destination → Event → String → String → String
  unfolding body_of
  build_payload d e version delivery_id = texts.stringify (body_of d e version delivery_id)

  -- The headers that sign a body, when there is a secret.
  unfoldable pub signature_headers : Option String → String → ℕ → Assoc String
  signature_headers none body now = []
  signature_headers (some secret) body now =
      let timestamp = texts.shown (now / 1000) in
      if truthy (some secret)
      then ("x-nuvrion-timestamp", timestamp)
        ∷ (
          "x-nuvrion-signature",
          text_append "sha256=" (texts.hmac secret (text_append timestamp (text_append "." body))),
        )
        ∷ []
      else []

  -- buildHeaders({ body, event, deliveryId, version, signingSecret, now })
  unfoldable pub build_headers : String → Event → String → String → Option String → ℕ → Assoc String
  unfolding signature_headers
  build_headers body e delivery_id version signing_secret now =
      ("content-type", "application/json")
      ∷ ("user-agent", text_append "Nuvrion/" (if str_eq version "" then "unknown" else version))
      ∷ ("x-nuvrion-event", e.type)
      ∷ ("x-nuvrion-delivery", delivery_id)
      ∷ ("content-length", texts.shown (texts.byte_length body))
      ∷ signature_headers signing_secret body now
