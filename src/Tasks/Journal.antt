-- ===== src/Tasks/Journal.antt =====
-- The private helpers of modules/tasks/src/task-store.js: `#auditEvent`, the outbox message that
-- announces a task, the attempt that a result settles, and `#persist`.
use nuvrion.Common.{
  length, length-append, ◌≡◌, ℕ, ◌+◌, String, Bool, true, ◌&&◌, not, Option, none, some, List, [],
  ◌∷◌, ◌++◌, str_eq, is_some, any, if◌then◌else◌,
}
use nuvrion.Tasks.Types.{
  Task, Actor, Message, AuditEvent, Attempt, Detail, Journal, Snapshot, TaskStore, Crypto,
}

abbrev pub actor_type_of : Option Actor → String
actor_type_of none = "system"
actor_type_of (some a) = "user"

abbrev pub actor_id_of : Option Actor → Option String
actor_id_of none = none
actor_id_of (some a) = some a.id

abbrev pub actor_name_of : Option Actor → Option String
actor_name_of none = none
actor_name_of (some a) = a.username

-- x.taskId===id&&!x.completedAt
unfoldable pub is_open_attempt : String → Attempt → Bool
is_open_attempt id a = str_eq a.task_id id && not (is_some a.completed_at)

-- [...this.#attempts].reverse().find(...): the last open attempt of the task gets its outcome.
unfoldable pub settle_attempt : String → ℕ → String → List Attempt → List Attempt
unfolding is_open_attempt
settle_attempt id at outcome [] = []
settle_attempt id at outcome (a ∷ rest) =
    let settled = settle_attempt id at outcome rest in
    if any (is_open_attempt id) rest
    then a ∷ settled
    else if is_open_attempt id a
    then record a { completed_at = some at; outcome = some outcome } ∷ rest
    else a ∷ rest

unfoldable pub settle : String → ℕ → String → Journal → Journal
settle id at outcome j = record j { attempts = settle_attempt id at outcome j.attempts }

-- The object that `#persist` serialises.
unfoldable pub snapshot_of : TaskStore → Snapshot
snapshot_of s = record {
  tasks = s.tasks;
  keys = s.keys;
  outbox = s.outbox;
  audit = s.audit;
  attempts = s.attempts;
}

-- this.#persist(): the whole state is written, if there is a file.
unfoldable pub persist : TaskStore → TaskStore
unfolding snapshot_of
persist s = record s { disk = if s.has_file then some (snapshot_of s) else s.disk }

-- new TaskStore({file}): what is in the file, or nothing. Identifiers go on from `drawn`.
unfoldable pub open_store : Bool → Option Snapshot → ℕ → TaskStore
open_store true (some d) drawn = record {
  tasks = d.tasks;
  keys = d.keys;
  journal = record { outbox = d.outbox; audit = d.audit; attempts = d.attempts; drawn = drawn };
  has_file = true;
  disk = some d;
}
open_store has_file disk drawn = record {
  tasks = [];
  keys = [];
  journal = record { outbox = []; audit = []; attempts = []; drawn = drawn };
  has_file = has_file;
  disk = disk;
}

module _ (crypto : Crypto) where
  -- this.#auditEvent(action,outcome,task,detail)
  unfoldable pub audit_event :
      String → String → Task → List (String × Detail) → ℕ → Journal → Journal
  audit_event action outcome task detail clock j = record j {
    audit = j.audit ++ event ∷ [];
    drawn = j.drawn + 1;
  }
    where
      event : AuditEvent
      event = record {
        id = crypto.uuid j.drawn;
        occurred_at = clock;
        actor_type = actor_type_of task.requested_by;
        actor_id = actor_id_of task.requested_by;
        actor_name = actor_name_of task.requested_by;
        action = action;
        outcome = outcome;
        target_type = task.target.kind;
        target_id = task.target.id;
        task_id = some task.id;
        correlation_id = task.correlation_id;
        detail = detail;
      }

  -- this.#outbox.push({id:randomUUID(),topic:'task.queued',...})
  unfoldable pub announce : String → ℕ → Journal → Journal
  announce task_id at j = record j { outbox = j.outbox ++ message ∷ []; drawn = j.drawn + 1 }
    where
      message : Message
      message = record {
        id = crypto.uuid j.drawn;
        topic = "task.queued";
        key = task_id;
        task_id = task_id;
        occurred_at = at;
        published_at = none;
        attempts = 0;
      }

  pub length-announce :
      (task_id : String) (at : ℕ) (j : Journal)
      → length (announce task_id at j).outbox ≡ length j.outbox + 1
  unfolding announce
  length-announce task_id at j = length-append j.outbox _
