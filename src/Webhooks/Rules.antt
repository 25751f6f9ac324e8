-- ===== src/Webhooks/Rules.antt =====
-- `wants` and `judge` of modules/notifications/src/webhook-rules.js.
use nuvrion.Common.{
  ℕ, ◌-◌, String, Bool, true, ◌&&◌, ◌||◌, not, Option, none, some, List, [], ◌∷◌, any, str_eq,
  get_elem?, length, ltb, leb, ◌==◌, if◌then◌else◌,
}
use nuvrion.Common.Json.{Json}

pub data Severity : Type 0 where
  warning critical : Severity

-- SEVERITY_RANK
unfoldable pub rank : Severity → ℕ
rank warning = 1
rank critical = 2

-- An event; its texts are lists of UTF-16 code units.
pub record Event : Type 0 where
  pub id : String
  pub type : String
  pub at : ℕ
  pub severity : Severity
  pub title : List ℕ
  pub detail : List ℕ

-- A destination as it is kept; its secret is sealed, and its format is kept as it was sent.
pub record Destination : Type 0 where
  pub id : String
  pub name : String
  pub events : List String
  pub min_severity : Severity
  pub enabled : Bool
  pub active_since : ℕ
  pub consecutive_failures : ℕ
  pub last_attempt_at : Option ℕ
  pub last_success_at : Option ℕ
  pub last_error : Option String
  pub format : Json
  pub url_hint : String
  pub secret : String
  pub has_signing_secret : Bool
  pub row_version : ℕ
  pub created_by : Option String
  pub created_at : ℕ
  pub updated_at : ℕ

-- wants(destination, event)
unfoldable pub wants : Destination → Event → Bool
unfolding rank
wants d e =
    (d.enabled && any (str_eq e.type) d.events)
    && (not (ltb (rank e.severity) (rank d.min_severity)) && leb d.active_since e.at)

-- What a post came to: { ok, status?, error?, durationMs? }.
pub record PostResult : Type 0 where
  pub ok : Bool
  pub status : Option ℕ
  pub error : Option String
  pub duration_ms : Option ℕ

-- LIMITS.maxAttempts
abbrev pub max_attempts : ℕ
max_attempts = 6

-- BACKOFF_MS
abbrev backoff_ms : List ℕ
backoff_ms = 60000 ∷ 300000 ∷ 900000 ∷ 3600000 ∷ 10800000 ∷ []

-- BACKOFF_MS[Math.min(attempts, BACKOFF_MS.length) - 1], where `none` is undefined
unfoldable pub backoff : ℕ → Option ℕ
backoff attempts =
    if attempts == 0
    then none
    else get_elem? backoff_ms
        ((if leb attempts (length backoff_ms) then attempts else length backoff_ms) - 1)

unfoldable pub is_retryable : Option ℕ → Bool
is_retryable none = true
is_retryable (some status) = status == 408 || (status == 425 || (status == 429 || leb 500 status))

pub data Verdict : Type 0 where
  is_sent is_failed : Verdict
  again_after : Option ℕ → Verdict

-- judge(result, attempts)
unfoldable pub judge : PostResult → ℕ → Verdict
unfolding is_retryable backoff
judge r attempts =
    if r.ok
    then is_sent
    else if not (is_retryable r.status) || leb max_attempts attempts
    then is_failed
    else again_after (backoff attempts)
