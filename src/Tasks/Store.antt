-- ===== src/Tasks/Store.antt =====
-- The operations of modules/tasks/src/task-store.js on one task. `clock` is the time that the
-- operation reads; each operation takes the store last and returns the new one.
use nuvrion.Common.{
  ℕ, ◌+◌, String, Bool, true, false, ◌&&◌, ◌||◌, Option, none, some, List, [], ◌∷◌, ◌++◌, str_eq,
  leb, length, filter_by, find_by, get, put, values, if◌then◌else◌,
}
use nuvrion.Tasks.Types.{
  queued, running, completed, failed, verification_required, is_final, is_live, is_queued,
  TaskError, TaskResult, Progress, Task, Request, Attempt, text, time, Detail, TaskStore, Crypto,
}
use nuvrion.Tasks.Journal.{settle, persist, audit_event, announce}

abbrev pub lease_ms : ℕ
lease_ms = 30000

unfoldable pub get_task : String → TaskStore → Option Task
get_task id s = get id s.tasks

-- The task under `id` after a method has changed its fields.
unfoldable pub write_task : String → Task → TaskStore → TaskStore
write_task id t s = record s { tasks = put id t s.tasks }

abbrev pub progress_of : ℕ → String → Progress
progress_of current code = record { current = current; total = 1; message_code = code }

-- x.retryAt is not set, or has come.
unfoldable pub retry_due : ℕ → Option ℕ → Bool
retry_due clock none = true
retry_due clock (some at) = leb at clock

-- !taskId||x.id===taskId
unfoldable pub is_wanted : Option String → String → Bool
is_wanted none id = true
is_wanted (some wanted) id = str_eq wanted "" || str_eq id wanted

unfoldable pub new_task : String → Request → ℕ → Task
new_task id r clock = record {
  id = id;
  operation = r.operation;
  status = queued;
  target = record { id = r.target_id; kind = r.target_type };
  provider_native_id = r.provider_native_id;
  connection_id = r.connection_id;
  requested_by = r.requested_by;
  correlation_id = r.correlation_id;
  queued_at = clock;
  started_at = none;
  completed_at = none;
  progress = progress_of 0 "NUV_TASK_QUEUED";
  result = none;
  error = none;
  retry_at = none;
  provider_reference = none;
  lease = none;
  cancelled_by = none;
  superseded_by = none;
  manual_retry_by = none;
}

-- activeForTarget(targetId)
unfoldable pub active_for_target : String → TaskStore → Option Task
active_for_target target_id s =
    find_by (λ t. str_eq t.target.id target_id && is_live t.status) (values s.tasks)

unfoldable pub is_claimable : Option String → ℕ → Task → Bool
unfolding is_wanted retry_due is_queued
is_claimable wanted clock t =
    is_queued t.status && (is_wanted wanted t.id && retry_due clock t.retry_at)

-- running(id, providerReference)
unfoldable pub set_running : String → Option String → TaskStore → TaskStore
unfolding write_task persist
set_running id reference s = elim (get id s.tasks) [
  | none ↦ s
  | some t ↦ persist (
      write_task id
        (record t {
          provider_reference = reference;
          progress = progress_of 0 "NUV_PROVIDER_ACCEPTED";
        })
        s)
]

module _ (crypto : Crypto) where
  insert_task : Request → ℕ → TaskStore → TaskStore
  unfolding new_task announce audit_event persist
  insert_task r clock s =
      let id = crypto.uuid s.drawn in
      let task = new_task id r clock in
      let started = record s.journal { drawn = s.drawn + 1 } in
      let announced = announce crypto id clock started in
      let detail : List (String × Detail) =
        ("operation", text (some r.operation)) ∷ ("targetId", text (some r.target_id)) ∷ [] in
      persist (record s {
        tasks = put id task s.tasks;
        keys = put (crypto.sha256 r.idempotency_key) id s.keys;
        journal = audit_event crypto "task.create" "succeeded" task detail clock announced;
      })

  -- create(...): the task under the idempotency key, or a new one. The flag is `created`.
  unfoldable pub create : Request → ℕ → TaskStore → (Option Task × Bool) × TaskStore
  unfolding insert_task new_task get_task
  create r clock s = elim (get (crypto.sha256 r.idempotency_key) s.keys) [
    | some existing ↦ ((get_task existing s, false), s)
    | none ↦ ((some (new_task (crypto.uuid s.drawn) r clock), true), insert_task r clock s)
  ]

  unfoldable pub get_by_idempotency_key : String → TaskStore → Option Task
  unfolding get_task
  get_by_idempotency_key key s = elim (get (crypto.sha256 key) s.keys) [
    | none ↦ none
    | some id ↦ get_task id s
  ]

  start_attempt : String → ℕ → Task → TaskStore → TaskStore
  unfolding write_task persist
  start_attempt worker_id clock t s = persist (record (write_task t.id t s) {
    journal = record s.journal { attempts = s.attempts ++ attempt ∷ []; drawn = s.drawn + 2 };
  })
    where
      attempt : Attempt
      attempt = record {
        id = crypto.uuid (s.drawn + 1);
        task_id = t.id;
        attempt_no = length (filter_by (λ x. str_eq x.task_id t.id) s.attempts) + 1;
        worker_id = worker_id;
        started_at = clock;
        completed_at = none;
        outcome = none;
      }

  unfoldable pub claimed : String → ℕ → TaskStore → Task → Task
  claimed worker_id clock s t = record t {
    status = running;
    retry_at = none;
    provider_reference = none;
    started_at = some clock;
    lease = some (record {
      worker_id = worker_id;
      token = crypto.uuid s.drawn;
      expires_at = clock + lease_ms;
    });
  }

  -- claim(workerId,taskId): the first queued task that is due gets a lease and an attempt.
  unfoldable pub claim : String → Option String → ℕ → TaskStore → Option Task × TaskStore
  unfolding is_claimable start_attempt claimed
  claim worker_id wanted clock s = elim (find_by (is_claimable wanted clock) (values s.tasks)) [
    | none ↦ (none, s)
    | some t ↦ let t' = claimed worker_id clock s t in (some t', start_attempt worker_id clock t' s)
  ]

  complete_task : String → TaskResult → ℕ → Task → TaskStore → TaskStore
  unfolding write_task settle audit_event persist
  complete_task id r clock t s =
      let t' = record t {
        status = completed;
        completed_at = some clock;
        progress = progress_of 1 "NUV_TASK_COMPLETED";
        result = some r;
        lease = none;
      } in
      persist (record (write_task id t' s) {
        journal =
            audit_event crypto "task.complete" "succeeded" t'
              (("resultCode", text (some r.code)) ∷ []) clock
              (settle id clock "completed" s.journal);
      })

  unfoldable pub complete : String → TaskResult → ℕ → TaskStore → TaskStore
  unfolding complete_task
  complete id r clock s = elim (get id s.tasks) [
    | none ↦ s
    | some t ↦ if is_final t.status then s else complete_task id r clock t s
  ]

  fail_task : String → TaskError → ℕ → Task → TaskStore → TaskStore
  unfolding write_task settle audit_event persist
  fail_task id e clock t s =
      let t' = record t {
        status = failed;
        completed_at = some clock;
        error = some e;
        lease = none;
      } in
      persist (record (write_task id t' s) {
        journal =
            audit_event crypto "task.complete" "failed" t' (("errorCode", text (some e.code)) ∷ [])
              clock (settle id clock "failed" s.journal);
      })

  unfoldable pub fail : String → TaskError → ℕ → TaskStore → TaskStore
  unfolding fail_task
  fail id e clock s = elim (get id s.tasks) [
    | none ↦ s
    | some t ↦ if is_final t.status then s else fail_task id e clock t s
  ]

  retry_task : String → TaskError → ℕ → ℕ → Task → TaskStore → TaskStore
  unfolding write_task settle announce audit_event persist
  retry_task id e delay clock t s =
      let due = clock + delay in
      let t' = record t {
        status = queued;
        retry_at = some due;
        error = some e;
        progress = progress_of 0 "NUV_TASK_RETRY_SCHEDULED";
        lease = none;
      } in
      persist (record (write_task id t' s) {
        journal =
            audit_event crypto "task.retry" "scheduled" t'
              (("errorCode", text (some e.code)) ∷ ("retryAt", time (some due)) ∷ []) clock
              (announce crypto t.id due (settle id clock "retry" s.journal));
      })

  unfoldable pub retry : String → TaskError → ℕ → ℕ → TaskStore → TaskStore
  unfolding retry_task
  retry id e delay clock s = elim (get id s.tasks) [
    | none ↦ s
    | some t ↦ if is_final t.status then s else retry_task id e delay clock t s
  ]

  require_task : String → TaskError → ℕ → Task → TaskStore → TaskStore
  unfolding write_task settle audit_event persist
  require_task id e clock t s =
      let t' = record t {
        status = verification_required;
        completed_at = some clock;
        error = some e;
        progress = progress_of 0 "NUV_TASK_VERIFICATION_REQUIRED";
        lease = none;
      } in
      persist (record (write_task id t' s) {
        journal =
            audit_event crypto "task.verification_required" "warning" t'
              (("errorCode", text (some e.code)) ∷ []) clock
              (settle id clock "verification_required" s.journal);
      })

  -- verificationRequired(id,error)
  unfoldable pub require_verification : String → TaskError → ℕ → TaskStore → TaskStore
  unfolding require_task
  require_verification id e clock s = elim (get id s.tasks) [
    | none ↦ s
    | some t ↦ if is_final t.status then s else require_task id e clock t s
  ]
