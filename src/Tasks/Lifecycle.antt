-- ===== src/Tasks/Lifecycle.antt =====
-- Each operation of the task store makes a move of the state machine of Tasks/Moves.
use nuvrion.Common.{
  ℕ, ◌+◌, String, refl, inl, inr, Option, arith, Bool-cases, Option-cases, find_by, find_by-holds,
  Keyed, Keyed-put, get-find_by, get, values, get-put, str_eq, eq_iff,
}
use nuvrion.Tasks.Types.{
  is_final, is_queued, is_live, is_running, is_failed, Task, TaskStore, Crypto, Actor, TaskError,
  TaskResult, Request,
}
use nuvrion.Tasks.Store.{
  new_task, is_claimable, create, claim, set_running, complete, fail, retry, require_verification,
}
use nuvrion.Tasks.Control.{heartbeat, cancel, supersede, manual_retry}
use nuvrion.Tasks.Moves.{id_of, same, added, Follows, Follows-refl, write-Follows}
use nuvrion.Tasks.Steps.{
  complete-Move, fail-Move, retry-Move, require-Move, cancel-Move, supersede-Move, requeue-Move,
  beat-Move, claim-Move, accept-Move, new_task-IsSound, claimable-queued,
}

module _ (crypto : Crypto) where
  pub complete-Follows :
      (id : String) (r : TaskResult) (clock : ℕ) (s : TaskStore)
      → Follows crypto s (complete crypto id r clock s)
  unfolding complete
  complete-Follows id r clock s = elim (Option-cases (get id s.tasks)) [
    | inl e ↦ rw (e, complete) (Follows-refl crypto s)
    | inr (t, e) ↦ elim (Bool-cases (is_final t.status)) [
      | inl f ↦ rw (e, complete, f) (Follows-refl crypto s)
      | inr f ↦
          rw (e, complete, f)
            (write-Follows crypto id t _ s _ e (omega arith) refl (complete-Move t r clock _ f))
    ]
  ]

  pub fail-Follows :
      (id : String) (err : TaskError) (clock : ℕ) (s : TaskStore)
      → Follows crypto s (fail crypto id err clock s)
  unfolding fail
  fail-Follows id err clock s = elim (Option-cases (get id s.tasks)) [
    | inl e ↦ rw (e, fail) (Follows-refl crypto s)
    | inr (t, e) ↦ elim (Bool-cases (is_final t.status)) [
      | inl f ↦ rw (e, fail, f) (Follows-refl crypto s)
      | inr f ↦
          rw (e, fail, f)
            (write-Follows crypto id t _ s _ e (omega arith) refl (fail-Move t err clock f))
    ]
  ]

  pub retry-Follows :
      (id : String) (err : TaskError) (delay clock : ℕ) (s : TaskStore)
      → Follows crypto s (retry crypto id err delay clock s)
  unfolding retry
  retry-Follows id err delay clock s = elim (Option-cases (get id s.tasks)) [
    | inl e ↦ rw (e, retry) (Follows-refl crypto s)
    | inr (t, e) ↦ elim (Bool-cases (is_final t.status)) [
      | inl f ↦ rw (e, retry, f) (Follows-refl crypto s)
      | inr f ↦
          rw (e, retry, f)
            (write-Follows crypto id t _ s _ e (omega arith) refl
              (retry-Move t err (clock + delay) _ f))
    ]
  ]

  pub require_verification-Follows :
      (id : String) (err : TaskError) (clock : ℕ) (s : TaskStore)
      → Follows crypto s (require_verification crypto id err clock s)
  unfolding require_verification
  require_verification-Follows id err clock s = elim (Option-cases (get id s.tasks)) [
    | inl e ↦ rw (e, require_verification) (Follows-refl crypto s)
    | inr (t, e) ↦ elim (Bool-cases (is_final t.status)) [
      | inl f ↦ rw (e, require_verification, f) (Follows-refl crypto s)
      | inr f ↦
          rw (e, require_verification, f)
            (write-Follows crypto id t _ s _ e (omega arith) refl (require-Move t err clock _ f))
    ]
  ]

  pub cancel-Follows :
      (id : String) (by : Option Actor) (clock : ℕ) (s : TaskStore)
      → Follows crypto s (cancel crypto id by clock s).1
  unfolding cancel
  cancel-Follows id by clock s = elim (Option-cases (get id s.tasks)) [
    | inl e ↦ rw (e, cancel) (Follows-refl crypto s)
    | inr (t, e) ↦ elim (Bool-cases (is_queued t.status)) [
      | inl f ↦
          rw (e, cancel, f)
            (write-Follows crypto id t _ s _ e (omega arith) refl (cancel-Move t by clock _ f))
      | inr f ↦ rw (e, cancel, f) (Follows-refl crypto s)
    ]
  ]

  pub supersede-Follows :
      (id other : String) (by : Option Actor) (clock : ℕ) (s : TaskStore)
      → Follows crypto s (supersede crypto id other by clock s).1
  unfolding supersede
  supersede-Follows id other by clock s = elim (Option-cases (get id s.tasks)) [
    | inl e ↦ rw (e, supersede) (Follows-refl crypto s)
    | inr (t, e) ↦ elim (Bool-cases (is_live t.status)) [
      | inl f ↦
          rw (e, supersede, f)
            (write-Follows crypto id t _ s _ e (omega arith) refl
              (supersede-Move t _ by other clock _ f))
      | inr f ↦ rw (e, supersede, f) (Follows-refl crypto s)
    ]
  ]

  pub manual_retry-Follows :
      (id : String) (by : Option Actor) (clock : ℕ) (s : TaskStore)
      → Follows crypto s (manual_retry crypto id by clock s).1
  unfolding manual_retry
  manual_retry-Follows id by clock s = elim (Option-cases (get id s.tasks)) [
    | inl e ↦ rw (e, manual_retry) (Follows-refl crypto s)
    | inr (t, e) ↦ elim (Bool-cases (is_failed t.status)) [
      | inl f ↦
          rw (e, manual_retry, f)
            (write-Follows crypto id t _ s _ e (omega arith) refl (requeue-Move t by _ f))
      | inr f ↦ rw (e, manual_retry, f) (Follows-refl crypto s)
    ]
  ]

  pub set_running-Follows :
      (id : String) (reference : Option String) (s : TaskStore)
      → Follows crypto s (set_running id reference s)
  unfolding set_running
  set_running-Follows id reference s = elim (Option-cases (get id s.tasks)) [
    | inl e ↦ rw (e, set_running) (Follows-refl crypto s)
    | inr (t, e) ↦
        rw (e, set_running)
          (write-Follows crypto id t _ s _ e (omega arith) refl (accept-Move t reference _))
  ]

  pub heartbeat-Follows :
      (id : String) (lease_ms clock : ℕ) (s : TaskStore)
      → Follows crypto s (heartbeat id lease_ms clock s).1
  unfolding heartbeat
  heartbeat-Follows id lease_ms clock s = elim (Option-cases (get id s.tasks)) [
    | inl e ↦ rw (e, heartbeat) (Follows-refl crypto s)
    | inr (t, e) ↦ elim (Option-cases t.lease) [
      | inl n ↦ rw (e, heartbeat, n) (Follows-refl crypto s)
      | inr (l, n) ↦ elim (Bool-cases (is_running t.status)) [
        | inl f ↦
            rw (e, heartbeat, n, f)
              (write-Follows crypto id t _ s _ e (omega arith) refl (beat-Move t _ f))
        | inr f ↦ rw (e, heartbeat, n, f) (Follows-refl crypto s)
      ]
    ]
  ]

  -- A new task under the next identifier.
  pub create-Follows :
      (r : Request) (clock : ℕ) (s : TaskStore) → Follows crypto s (create crypto r clock s).1
  unfolding create
  create-Follows r clock s = elim (Option-cases (get (crypto.sha256 r.idempotency_key) s.keys)) [
    | inr (k, e) ↦ rw (e, create) (Follows-refl crypto s)
    | inl e ↦
        rw (e, create)
          (record {
            draws = omega arith;
            keyed = λ h. Keyed-put id_of (crypto.uuid s.drawn) task s.tasks refl h;
            at = λ j. elim (Bool-cases (str_eq (crypto.uuid s.drawn) j)) [
              | inl eq ↦
                  added task (ground (arith, eq_iff (crypto.uuid s.drawn) j)) (omega arith)
                    (rw (get-put, eq)) refl (new_task-IsSound (crypto.uuid s.drawn) r clock)
              | inr ne ↦ same (rw (get-put, ne))
            ];
          })
  ]
    where
      task : Task
      task = new_task (crypto.uuid s.drawn) r clock

  -- The task found is the one under its own identifier, so the maps must be keyed.
  pub claim-Follows :
      (worker : String) (wanted : Option String) (clock : ℕ) (s : TaskStore)
      → Keyed id_of s.tasks
      → Follows crypto s (claim crypto worker wanted clock s).1
  unfolding claim
  claim-Follows worker wanted clock s v =
      elim (Option-cases (find_by (is_claimable wanted clock) (values s.tasks))) [
        | inl e ↦ rw (e, claim) (Follows-refl crypto s)
        | inr (t, e) ↦
            rw (e, claim)
              (write-Follows crypto t.id t _ s _ (get-find_by id_of _ s.tasks t v e) (omega arith)
                refl
                (claim-Move t _ clock
                  (claimable-queued wanted clock t (find_by-holds _ (values s.tasks) t e))))
      ]
