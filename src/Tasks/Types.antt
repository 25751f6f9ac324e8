-- ===== src/Tasks/Types.antt =====
-- The objects of modules/tasks/src/task-store.js. A time is a number of milliseconds; a field that
-- is null or not yet there is `none`.
use nuvrion.Common.{ℕ, String, Bool, true, false, Option, List, Assoc}

pub data Status : Type 0 where
  queued running completed failed cancelled verification_required : Status

-- ['cancelled','completed','failed'].includes(status)
unfoldable pub is_final : Status → Bool
is_final completed = true
is_final failed = true
is_final cancelled = true
is_final queued = false
is_final running = false
is_final verification_required = false

-- ['queued','running'].includes(status)
unfoldable pub is_live : Status → Bool
is_live queued = true
is_live running = true
is_live completed = false
is_live failed = false
is_live cancelled = false
is_live verification_required = false

unfoldable pub is_queued : Status → Bool
is_queued queued = true
is_queued running = false
is_queued completed = false
is_queued failed = false
is_queued cancelled = false
is_queued verification_required = false

unfoldable pub is_running : Status → Bool
is_running running = true
is_running queued = false
is_running completed = false
is_running failed = false
is_running cancelled = false
is_running verification_required = false

unfoldable pub is_failed : Status → Bool
is_failed failed = true
is_failed queued = false
is_failed running = false
is_failed completed = false
is_failed cancelled = false
is_failed verification_required = false

unfoldable pub is_completed : Status → Bool
is_completed completed = true
is_completed queued = false
is_completed running = false
is_completed failed = false
is_completed cancelled = false
is_completed verification_required = false

pub record Actor : Type 0 where
  pub id : String
  pub username : Option String

pub record TaskError : Type 0 where
  pub code : String
  pub detail : String
  pub retryable : Bool

pub record TaskResult : Type 0 where
  pub code : String
  pub summary : String

pub record Progress : Type 0 where
  pub current : ℕ
  pub total : ℕ
  pub message_code : String

pub record Lease : Type 0 where
  pub worker_id : String
  pub token : String
  pub expires_at : ℕ

pub record Target : Type 0 where
  pub id : String
  pub kind : String

pub record Task : Type 0 where
  pub id : String
  pub operation : String
  pub status : Status
  pub target : Target
  pub provider_native_id : Option String
  pub connection_id : Option String
  pub requested_by : Option Actor
  pub correlation_id : String
  pub queued_at : ℕ
  pub started_at : Option ℕ
  pub completed_at : Option ℕ
  pub progress : Progress
  pub result : Option TaskResult
  pub error : Option TaskError
  pub retry_at : Option ℕ
  pub provider_reference : Option String
  pub lease : Option Lease
  pub cancelled_by : Option Actor
  pub superseded_by : Option String
  pub manual_retry_by : Option Actor

-- The arguments of `create`.
pub record Request : Type 0 where
  pub operation : String
  pub target_id : String
  pub target_type : String
  pub provider_native_id : Option String
  pub connection_id : Option String
  pub requested_by : Option Actor
  pub correlation_id : String
  pub idempotency_key : String

pub record Message : Type 0 where
  pub id : String
  pub topic : String
  pub key : String
  pub task_id : String
  pub occurred_at : ℕ
  pub published_at : Option ℕ
  pub attempts : ℕ

-- A value of an audit event's detail.
pub data Detail : Type 0 where
  text : Option String → Detail
  time : Option ℕ → Detail

pub record AuditEvent : Type 0 where
  pub id : String
  pub occurred_at : ℕ
  pub actor_type : String
  pub actor_id : Option String
  pub actor_name : Option String
  pub action : String
  pub outcome : String
  pub target_type : String
  pub target_id : String
  pub task_id : Option String
  pub correlation_id : String
  pub detail : List (String × Detail)

pub record Attempt : Type 0 where
  pub id : String
  pub task_id : String
  pub attempt_no : ℕ
  pub worker_id : String
  pub started_at : ℕ
  pub completed_at : Option ℕ
  pub outcome : Option String

-- The three lists that grow beside the tasks, and how many identifiers have been drawn.
pub record Journal : Type 0 where
  pub outbox : List Message
  pub audit : List AuditEvent
  pub attempts : List Attempt
  pub drawn : ℕ

-- What `#persist` writes and the constructor reads.
pub record Snapshot : Type 0 where
  pub tasks : Assoc Task
  pub keys : Assoc String
  pub outbox : List Message
  pub audit : List AuditEvent
  pub attempts : List Attempt

pub record TaskStore : Type 0 where
  pub tasks : Assoc Task
  pub keys : Assoc String
  pub journal : Journal
  pub open journal use *
  pub has_file : Bool
  pub disk : Option Snapshot

-- node:crypto as the store uses it: the n-th identifier that randomUUID() gives, and the SHA-256 of
-- a text in hexadecimal.
pub record Crypto : Type 0 where
  pub uuid : ℕ → String
  pub sha256 : String → String
