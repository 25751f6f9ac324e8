-- ===== src/Tasks/Sweep.antt =====
-- The sweeps of modules/tasks/src/task-store.js over all tasks: leases that have run out, and queued
-- tasks that no message announces.
use nuvrion.Common.{
  ℕ, ◌+◌, Bool, false, ◌&&◌, ◌||◌, not, none, some, List, [], ◌∷◌, str_eq, is_some, truthy, or_else,
  ltb, leb, any, values, Assoc, if◌then◌else◌,
}
use nuvrion.Tasks.Types.{
  queued, verification_required, is_queued, is_running, TaskError, Task, Message, text, Journal,
  TaskStore, Crypto,
}
use nuvrion.Tasks.Journal.{settle, persist, audit_event, announce}
use nuvrion.Tasks.Store.{progress_of, retry_due}

-- t.status==='running', with a lease that has expired by `now`
unfoldable pub lease_expired : ℕ → Task → Bool
lease_expired now t = elim t.lease [
  | none ↦ false
  | some l ↦ is_running t.status && leb l.expires_at now
]

abbrev pub lease_expired_error : TaskError
lease_expired_error = record {
  code = "NUV_TASK_LEASE_EXPIRED";
  detail =
      "The worker stopped after the provider accepted the operation; the provider state is checked before anything is run again.";
  retryable = false;
}

-- What a pass over the tasks has done.
pub record Recovery : Type 0 where
  pub tasks : Assoc Task
  pub journal : Journal
  pub requeued : ℕ
  pub verifying : ℕ

-- The task with its lease taken away, checked first if the provider had accepted it.
unfoldable pub recovered : ℕ → Task → Task
recovered clock t =
    if truthy t.provider_reference
    then record t {
      status = verification_required;
      completed_at = some clock;
      error = some lease_expired_error;
      progress = progress_of 0 "NUV_TASK_VERIFICATION_REQUIRED";
      lease = none;
    }
    else record t { status = queued; progress = progress_of 0 "NUV_TASK_RECOVERED"; lease = none }

-- m.topic==='task.queued'&&(!m.publishedAt||Date.parse(m.occurredAt)>now-olderThanMs)
unfoldable pub is_recent : ℕ → ℕ → Message → Bool
is_recent older_than now m =
    str_eq m.topic "task.queued"
    && (not (is_some m.published_at) || ltb now (m.occurred_at + older_than))

-- Queued, due, waiting for longer than `olderThanMs`, and not announced in that time.
unfoldable pub is_stale : ℕ → ℕ → List Message → Task → Bool
unfolding is_recent is_queued retry_due
is_stale older_than now outbox t =
    is_queued t.status
    && (not (any (λ m. is_recent older_than now m && str_eq m.key t.id) outbox)
        && (retry_due now t.retry_at && ltb (or_else t.retry_at t.queued_at + older_than) now))

-- Stable insertion by the time of queueing, as Array.prototype.sort does.
insert_by_time : Task → List Task → List Task
insert_by_time t [] = t ∷ []
insert_by_time t (u ∷ us) =
    if leb t.queued_at u.queued_at then t ∷ u ∷ us else u ∷ insert_by_time t us

unfoldable pub sort_by_time : List Task → List Task
unfolding insert_by_time
sort_by_time [] = []
sort_by_time (t ∷ ts) = insert_by_time t (sort_by_time ts)

module _ (crypto : Crypto) where
  unfoldable pub recovered_journal : ℕ → Task → Journal → Journal
  unfolding recovered settle announce audit_event
  recovered_journal clock t j =
      let settled = settle t.id clock "lease_expired" j in
      if truthy t.provider_reference
      then audit_event crypto "task.verification_required" "warning" (recovered clock t)
          (("errorCode", text (some lease_expired_error.code)) ∷ []) clock settled
      else announce crypto t.id clock settled

  -- The loop of recoverExpiredDetailed over the tasks, in their order.
  unfoldable pub recover_tasks : ℕ → ℕ → Assoc Task → Journal → Recovery
  unfolding lease_expired recovered recovered_journal
  recover_tasks now clock [] j = record { tasks = []; journal = j; requeued = 0; verifying = 0 }
  recover_tasks now clock ((id, t) ∷ m) j =
      let expired = lease_expired now t in
      let rest = recover_tasks now clock m (if expired then recovered_journal clock t j else j) in
      record {
        tasks = (id, (if expired then recovered clock t else t)) ∷ rest.tasks;
        journal = rest.journal;
        requeued = rest.requeued + (if expired && not (truthy t.provider_reference) then 1 else 0);
        verifying = rest.verifying + (if expired && truthy t.provider_reference then 1 else 0);
      }

  -- recoverExpiredDetailed(now): the store, with the tasks queued again and those to be verified.
  unfoldable pub recover_expired : ℕ → ℕ → TaskStore → (ℕ × ℕ) × TaskStore
  unfolding persist
  recover_expired now clock s =
      let r = recover_tasks now clock s.tasks s.journal in
      let s' = record s { tasks = r.tasks; journal = r.journal } in
      (
        (r.requeued, r.verifying),
        (if leb 1 r.requeued || leb 1 r.verifying then persist s' else s'),
      )

  -- The loop of reannounceStale; `stale` is its chain of `continue` tests.
  unfoldable pub announce_stale : (Task → Bool) → ℕ → ℕ → List Task → ℕ → Journal → ℕ × Journal
  announce_stale stale limit clock [] count j = (count, j)
  announce_stale stale limit clock (t ∷ ts) count j =
      let rest =
        announce_stale stale limit clock ts (if stale t then count + 1 else count)
          (if stale t then announce crypto t.id clock j else j) in
      if leb limit count then (count, j) else rest

  -- reannounceStale({olderThanMs,limit,now})
  unfoldable pub reannounce_stale : ℕ → ℕ → ℕ → ℕ → TaskStore → ℕ × TaskStore
  unfolding persist
  reannounce_stale older_than limit now clock s =
      let r =
        announce_stale (is_stale older_than now s.outbox) limit clock
          (sort_by_time (values s.tasks)) 0 s.journal in
      let s' = record s { journal = r.1 } in (r.0, (if leb 1 r.0 then persist s' else s'))

  -- recoverStranded({reannounceAfterMs,now})
  unfoldable pub recover_stranded : ℕ → ℕ → ℕ → TaskStore → (ℕ × ℕ × ℕ) × TaskStore
  recover_stranded reannounce_after now clock s =
      let (counts, s₁) = recover_expired now clock s in
      let (announced, s₂) = reannounce_stale reannounce_after 100 now clock s₁ in
      ((counts.0, counts.1, announced), s₂)
