-- ===== src/Webhooks/PayloadTests.antt =====
-- The bodies and headers of an alert.
use nuvrion.Common.{true, false, none, some, [], ◌∷◌, ◌≡◌, refl, get}
use nuvrion.Common.Json.{Json, text, array, nil, cons}
use nuvrion.Common.Text.{codes}
use nuvrion.Webhooks.Rules.{warning, critical, Event, Destination}
use nuvrion.Webhooks.Payload.{Texts, text_body, event_body, describe_event, body_of, build_headers}

abbrev texts : Texts
texts = record {
  stringify = λ b. "{}";
  shown = λ n. "7";
  byte_length = λ s. 2;
  hmac = λ secret s. s;
}

abbrev alert : Event
alert = record {
  id = "e1";
  type = "alert.fired";
  at = 500;
  severity = critical;
  title = codes "CPU";
  detail = codes "90%";
}

abbrev target : Json → Destination
target format = record {
  id = "d1";
  name = "chat";
  events = "alert.fired" ∷ [];
  min_severity = warning;
  enabled = true;
  active_since = 0;
  consecutive_failures = 0;
  last_attempt_at = none;
  last_success_at = none;
  last_error = none;
  format = format;
  url_hint = "";
  secret = "";
  has_signing_secret = false;
  row_version = 1;
  created_by = none;
  created_at = 0;
  updated_at = 0;
}

told : describe_event alert ≡ codes "[CRITICAL] CPU — 90% (alert raised)"
unfolding describe_event get
told = refl

told_other :
    describe_event (record alert { detail = []; type = "other" }) ≡ codes "[CRITICAL] CPU (other)"
unfolding describe_event get
told_other = refl

body_text : body_of (target (text "text")) alert "1" "x" ≡ text_body (describe_event alert)
unfolding body_of
body_text = refl

-- A format that is a list of one is neither.
body_listed :
    body_of (target (array (cons (text "text") nil))) alert "1" "x"
    ≡ event_body alert "x" "1" (describe_event alert)
unfolding body_of
body_listed = refl

signed :
    get "x-nuvrion-signature" (build_headers texts "{}" alert "x" "" (some "key") 7999)
    ≡ some "sha256=7.{}"
unfolding build_headers get
signed = refl

unsigned : get "x-nuvrion-signature" (build_headers texts "{}" alert "x" "" (some "") 7999) ≡ none
unfolding build_headers get
unsigned = refl
