-- ===== src/Tasks/Steps.antt =====
-- What the operations of the task store make of one task.
use nuvrion.Common.{ℕ, String, ◌≡◌, refl, true, false, Option, none, some, arith}
use nuvrion.Tasks.Types.{
  is_final, is_queued, is_live, is_running, is_failed, is_completed, queued, running, completed,
  failed, cancelled, verification_required, Progress, Lease, Task, Actor, TaskError, TaskResult,
  Request,
}
use nuvrion.Tasks.Store.{new_task, is_claimable}
use nuvrion.Tasks.Moves.{may_follow, is_settled, IsSound, Move}

-- The changes that the operations make of a task, as moves.
module _ (t : Task) where
  pub complete-Move :
      (r : TaskResult) (clock : ℕ) (p : Progress)
      → is_final t.status ≡ false
      → Move t (record t {
        status = completed;
        completed_at = some clock;
        progress = p;
        result = some r;
        lease = none;
      })
  unfolding is_final is_settled may_follow is_running is_queued is_live is_failed is_completed
  complete-Move r clock p h = record {
    same_id = refl;
    legal = ground arith;
    sound = λ v. ground arith;
    kept_status = ground arith;
    kept_result = ground arith;
  }

  pub fail-Move :
      (e : TaskError) (clock : ℕ)
      → is_final t.status ≡ false
      → Move t
          (record t { status = failed; completed_at = some clock; error = some e; lease = none })
  unfolding is_final is_settled may_follow is_running is_queued is_live is_failed is_completed
  fail-Move e clock h = record {
    same_id = refl;
    legal = ground arith;
    sound = λ v. ground arith;
    kept_status = ground arith;
    kept_result = ground arith;
  }

  pub retry-Move :
      (e : TaskError) (due : ℕ) (p : Progress)
      → is_final t.status ≡ false
      → Move t (record t {
        status = queued;
        retry_at = some due;
        error = some e;
        progress = p;
        lease = none;
      })
  unfolding is_final is_settled may_follow is_running is_queued is_live is_failed is_completed
  retry-Move e due p h = record {
    same_id = refl;
    legal = ground arith;
    sound = λ v. ground arith;
    kept_status = ground arith;
    kept_result = ground arith;
  }

  pub require-Move :
      (e : TaskError) (clock : ℕ) (p : Progress)
      → is_final t.status ≡ false
      → Move t (record t {
        status = verification_required;
        completed_at = some clock;
        error = some e;
        progress = p;
        lease = none;
      })
  unfolding is_final is_settled may_follow is_running is_queued is_live is_failed is_completed
  require-Move e clock p h = record {
    same_id = refl;
    legal = ground arith;
    sound = λ v. ground arith;
    kept_status = ground arith;
    kept_result = ground arith;
  }

  pub cancel-Move :
      (by : Option Actor) (clock : ℕ) (p : Progress)
      → is_queued t.status ≡ true
      → Move t (record t {
        status = cancelled;
        completed_at = some clock;
        progress = p;
        cancelled_by = by;
      })
  unfolding is_final is_settled may_follow is_running is_queued is_live is_failed is_completed
  cancel-Move by clock p h = record {
    same_id = refl;
    legal = ground arith;
    sound = λ v. ground arith;
    kept_status = ground arith;
    kept_result = ground arith;
  }

  pub supersede-Move :
      (e : TaskError) (by : Option Actor) (o : String) (clock : ℕ) (p : Progress)
      → is_live t.status ≡ true
      → Move t (record t {
        status = cancelled;
        completed_at = some clock;
        progress = p;
        error = some e;
        cancelled_by = by;
        superseded_by = some o;
        lease = none;
      })
  unfolding is_final is_settled may_follow is_running is_queued is_live is_failed is_completed
  supersede-Move e by o clock p h = record {
    same_id = refl;
    legal = ground arith;
    sound = λ v. ground arith;
    kept_status = ground arith;
    kept_result = ground arith;
  }

  pub requeue-Move :
      (by : Option Actor) (p : Progress)
      → is_failed t.status ≡ true
      → Move t (record t {
        status = queued;
        completed_at = none;
        started_at = none;
        retry_at = none;
        error = none;
        progress = p;
        manual_retry_by = by;
      })
  unfolding is_final is_settled may_follow is_running is_queued is_live is_failed is_completed
  requeue-Move by p h = record {
    same_id = refl;
    legal = ground arith;
    sound = λ v. ground arith;
    kept_status = ground arith;
    kept_result = ground arith;
  }

  pub beat-Move : (l : Lease) → is_running t.status ≡ true → Move t (record t { lease = some l })
  unfolding is_final is_settled may_follow is_running is_queued is_live is_failed is_completed
  beat-Move l h = record {
    same_id = refl;
    legal = ground arith;
    sound = λ v. ground arith;
    kept_status = ground arith;
    kept_result = ground arith;
  }

  pub claim-Move :
      (l : Lease) (clock : ℕ)
      → is_queued t.status ≡ true
      → Move t (record t {
        status = running;
        retry_at = none;
        provider_reference = none;
        started_at = some clock;
        lease = some l;
      })
  unfolding is_final is_settled may_follow is_running is_queued is_live is_failed is_completed
  claim-Move l clock h = record {
    same_id = refl;
    legal = ground arith;
    sound = λ v. ground arith;
    kept_status = ground arith;
    kept_result = ground arith;
  }

  pub accept-Move :
      (reference : Option String) (p : Progress)
      → Move t (record t { provider_reference = reference; progress = p })
  unfolding is_final is_settled may_follow is_running is_queued is_live is_failed is_completed
  accept-Move reference p = record {
    same_id = refl;
    legal = ground arith;
    sound = λ v. ground arith;
    kept_status = ground arith;
    kept_result = ground arith;
  }

pub new_task-IsSound : (id : String) (r : Request) (clock : ℕ) → IsSound (new_task id r clock)
unfolding new_task is_final is_running is_completed is_failed
new_task-IsSound id r clock = ground arith

pub claimable-queued :
    (wanted : Option String) (clock : ℕ) (t : Task)
    → is_claimable wanted clock t ≡ true
    → is_queued t.status ≡ true
unfolding is_claimable
claimable-queued wanted clock t h = ground arith
