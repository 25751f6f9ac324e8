-- ===== src/Tasks/Calls.antt =====
-- Any call that the rest of the program makes of the task store, as one value with the time at which
-- it is made, and a history of such calls.
use nuvrion.Common.{ℕ, String, Option, List, [], ◌∷◌}
use nuvrion.Tasks.Types.{Request, Actor, TaskError, TaskResult, AuditEvent, TaskStore, Crypto}
use nuvrion.Tasks.Store.{create, claim, set_running, complete, fail, retry, require_verification}
use nuvrion.Tasks.Control.{
  heartbeat, mark_outbox_published, cancel, supersede, manual_retry, record_audit,
}
use nuvrion.Tasks.Sweep.{recover_expired, reannounce_stale, recover_stranded}

pub data Call : Type 0 where
  creates : Request → Call
  claims : String → Option String → Call
  accepts : String → Option String → Call
  completes : String → TaskResult → Call
  fails : String → TaskError → Call
  retries : String → TaskError → ℕ → Call
  verifies : String → TaskError → Call
  cancels : String → Option Actor → Call
  supersedes : String → String → Option Actor → Call
  requeues : String → Option Actor → Call
  beats : String → ℕ → Call
  publishes : String → Call
  audits : AuditEvent → Call
  recovers : ℕ → Call
  reannounces : ℕ → ℕ → ℕ → Call
  rescues : ℕ → ℕ → Call

module _ (crypto : Crypto) where
  -- The store after the call.
  unfoldable pub step : Call → ℕ → TaskStore → TaskStore
  step (creates r) clock s = (create crypto r clock s).1
  step (claims worker wanted) clock s = (claim crypto worker wanted clock s).1
  step (accepts id reference) clock s = set_running id reference s
  step (completes id r) clock s = complete crypto id r clock s
  step (fails id e) clock s = fail crypto id e clock s
  step (retries id e delay) clock s = retry crypto id e delay clock s
  step (verifies id e) clock s = require_verification crypto id e clock s
  step (cancels id by) clock s = (cancel crypto id by clock s).1
  step (supersedes id operation by) clock s = (supersede crypto id operation by clock s).1
  step (requeues id by) clock s = (manual_retry crypto id by clock s).1
  step (beats id lease_ms) clock s = (heartbeat id lease_ms clock s).1
  step (publishes id) clock s = mark_outbox_published id clock s
  step (audits event) clock s = record_audit crypto event clock s
  step (recovers now) clock s = (recover_expired crypto now clock s).1
  step (reannounces older limit now) clock s = (reannounce_stale crypto older limit now clock s).1
  step (rescues after now) clock s = (recover_stranded crypto after now clock s).1

  -- A history: each call with its time.
  unfoldable pub run : List (ℕ × Call) → TaskStore → TaskStore
  unfolding step
  run [] s = s
  run ((clock, c) ∷ cs) s = run cs (step c clock s)
