-- ===== src/Tasks/Control.antt =====
-- The operations of modules/tasks/src/task-store.js that a person or the outbox relay makes:
-- cancel, supersede and manual retry, the lease's heartbeat, and the outbox.
use nuvrion.Common.{
  ℕ, ◌+◌, String, Bool, true, false, ◌&&◌, not, Option, none, some, List, [], ◌∷◌, ◌++◌, str_eq,
  is_some, leb, length, take, filter_by, text_append, get, values, if◌then◌else◌,
}
use nuvrion.Tasks.Types.{
  Status, queued, cancelled, is_live, is_queued, is_running, is_failed, is_completed, Actor, Task,
  Message, AuditEvent, text, TaskStore, Crypto,
}
use nuvrion.Tasks.Journal.{actor_id_of, settle, persist, audit_event, announce}
use nuvrion.Tasks.Store.{write_task, progress_of}

-- {ok:true,task} or {ok:false,code}, the latter with the status that its detail text names.
pub data Reply : Type 0 where
  accepted : Task → Reply
  refused : String → Option Status → Reply

-- heartbeat(id,leaseMs): nothing is written to the file.
unfoldable pub heartbeat : String → ℕ → ℕ → TaskStore → Bool × TaskStore
unfolding write_task
heartbeat id lease_ms clock s = elim (get id s.tasks) [
  | none ↦ (false, s)
  | some t ↦ elim t.lease [
    | none ↦ (false, s)
    | some l ↦
        if is_running t.status
        then (
          true,
          write_task id (record t { lease = some (record l { expires_at = clock + lease_ms }) }) s,
        )
        else (false, s)
  ]
]

-- !value.publishedAt&&Date.parse(value.occurredAt)<=Date.now()
unfoldable pub is_pending : ℕ → Message → Bool
is_pending clock m = not (is_some m.published_at) && leb m.occurred_at clock

-- pendingOutbox(limit)
unfoldable pub pending_outbox : ℕ → ℕ → TaskStore → List Message
unfolding is_pending
pending_outbox limit clock s = take limit (filter_by (is_pending clock) s.outbox)

-- The first message of that id is published.
unfoldable pub publish_first : String → ℕ → List Message → List Message
publish_first id clock [] = []
publish_first id clock (m ∷ rest) =
    if str_eq m.id id
    then record m { published_at = some clock; attempts = m.attempts + 1 } ∷ rest
    else m ∷ publish_first id clock rest

has_message : String → List Message → Bool
has_message id [] = false
has_message id (m ∷ rest) = if str_eq m.id id then true else has_message id rest

-- markOutboxPublished(id)
unfoldable pub mark_outbox_published : String → ℕ → TaskStore → TaskStore
unfolding publish_first has_message persist
mark_outbox_published id clock s =
    if has_message id s.outbox
    then persist
        (record s { journal = record s.journal { outbox = publish_first id clock s.outbox } })
    else s

pub record Metrics : Type 0 where
  pub tasks_total : ℕ
  pub tasks_queued : ℕ
  pub tasks_running : ℕ
  pub tasks_completed : ℕ
  pub tasks_failed : ℕ
  pub audit_events : ℕ
  pub outbox_unpublished : ℕ

unfoldable pub metrics : TaskStore → Metrics
unfolding is_completed
metrics s = record {
  tasks_total = length tasks;
  tasks_queued = length (filter_by (λ t. is_queued t.status) tasks);
  tasks_running = length (filter_by (λ t. is_running t.status) tasks);
  tasks_completed = length (filter_by (λ t. is_completed t.status) tasks);
  tasks_failed = length (filter_by (λ t. is_failed t.status) tasks);
  audit_events = length s.audit;
  outbox_unpublished = length (filter_by (λ m. not (is_some m.published_at)) s.outbox);
}
  where
    tasks : List Task
    tasks = values s.tasks

abbrev superseded_by_text : String → String
superseded_by_text replacement = text_append (text_append "Superseded by " replacement) "."

module _ (crypto : Crypto) where
  cancel_task : String → Option Actor → ℕ → Task → TaskStore → Reply × TaskStore
  unfolding write_task audit_event persist
  cancel_task id by clock t s =
      let t' = record t {
        status = cancelled;
        completed_at = some clock;
        progress = progress_of 0 "NUV_TASK_CANCELLED";
        cancelled_by = by;
      } in
      (
        accepted t',
        persist (record (write_task id t' s) {
          journal =
              audit_event crypto "task.cancel" "succeeded" t'
                (("cancelledBy", text (actor_id_of by)) ∷ []) clock s.journal;
        }),
      )

  unfoldable pub cancel : String → Option Actor → ℕ → TaskStore → Reply × TaskStore
  unfolding cancel_task
  cancel id by clock s = elim (get id s.tasks) [
    | none ↦ (refused "NUV_TASK_NOT_FOUND" none, s)
    | some t ↦
        if is_queued t.status
        then cancel_task id by clock t s
        else (refused "NUV_TASK_CANCELLATION_UNSAFE" (some t.status), s)
  ]

  supersede_task : String → String → Option Actor → ℕ → Task → TaskStore → Reply × TaskStore
  unfolding write_task settle audit_event persist
  supersede_task id replacement by clock t s =
      let t' = record t {
        status = cancelled;
        completed_at = some clock;
        progress = progress_of 1 "NUV_TASK_SUPERSEDED";
        error = some (record {
          code = "NUV_TASK_SUPERSEDED";
          detail = superseded_by_text replacement;
          retryable = false;
        });
        cancelled_by = by;
        superseded_by = some replacement;
        lease = none;
      } in
      (
        accepted t',
        persist (record (write_task id t' s) {
          journal =
              audit_event crypto "task.supersede" "succeeded" t'
                (("replacementOperation", text (some replacement))
                  ∷ ("requestedBy", text (actor_id_of by))
                  ∷ [])
                clock (settle id clock "cancelled" s.journal);
        }),
      )

  unfoldable pub supersede : String → String → Option Actor → ℕ → TaskStore → Reply × TaskStore
  unfolding supersede_task
  supersede id replacement by clock s = elim (get id s.tasks) [
    | none ↦ (refused "NUV_TASK_NOT_FOUND" none, s)
    | some t ↦
        if is_live t.status
        then supersede_task id replacement by clock t s
        else (refused "NUV_TASK_SUPERSEDE_UNSAFE" (some t.status), s)
  ]

  requeue_task : String → Option Actor → ℕ → Task → TaskStore → Reply × TaskStore
  unfolding write_task announce audit_event persist
  requeue_task id by clock t s =
      let t' = record t {
        status = queued;
        completed_at = none;
        started_at = none;
        retry_at = none;
        error = none;
        progress = progress_of 0 "NUV_TASK_MANUAL_RETRY";
        manual_retry_by = by;
      } in
      (
        accepted t',
        persist (record (write_task id t' s) {
          journal =
              audit_event crypto "task.retry" "requested" t'
                (("requestedBy", text (actor_id_of by)) ∷ []) clock
                (announce crypto t.id clock s.journal);
        }),
      )

  unfoldable pub manual_retry : String → Option Actor → ℕ → TaskStore → Reply × TaskStore
  unfolding requeue_task
  manual_retry id by clock s = elim (get id s.tasks) [
    | none ↦ (refused "NUV_TASK_NOT_FOUND" none, s)
    | some t ↦
        if is_failed t.status
        then requeue_task id by clock t s
        else (refused "NUV_TASK_RETRY_UNSAFE" (some t.status), s)
  ]

  -- recordAudit(event): the caller's event, under a fresh identifier and the time.
  unfoldable pub record_audit : AuditEvent → ℕ → TaskStore → TaskStore
  unfolding persist
  record_audit event clock s = persist (record s {
    journal = record s.journal {
      audit =
          s.audit
          ++ record event { id = crypto.uuid s.drawn; occurred_at = clock; task_id = none } ∷ [];
      drawn = s.drawn + 1;
    };
  })
