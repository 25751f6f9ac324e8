-- ===== src/Tasks/Guarantees.antt =====
-- What the task store guarantees through any history of calls.
use nuvrion.Common.{
  ℕ, ◌≤◌, ◌<◌, String, ◌≡◌, refl, ◌∙◌, Bool, true, false, none, some, List, [], ◌∷◌, arith, get,
  Keyed, sym,
}
use nuvrion.Tasks.Types.{Task, TaskStore, Crypto}
use nuvrion.Tasks.Journal.{open_store}
use nuvrion.Tasks.Control.{mark_outbox_published, record_audit}
use nuvrion.Tasks.Calls.{
  Call, creates, claims, accepts, completes, fails, retries, verifies, cancels, supersedes,
  requeues, beats, publishes, audits, recovers, reannounces, rescues, step, run,
}
use nuvrion.Tasks.Moves.{is_settled, id_of, IsSound, At, same, moved, added, Follows, Follows-tasks}
use nuvrion.Tasks.Lifecycle.{
  create-Follows, claim-Follows, set_running-Follows, complete-Follows, fail-Follows, retry-Follows,
  require_verification-Follows, cancel-Follows, supersede-Follows, manual_retry-Follows,
  heartbeat-Follows,
}
use nuvrion.Tasks.Recovery.{
  recover_expired-Follows, reannounce_stale-Follows, recover_stranded-Follows,
}

module _ (crypto : Crypto) where
  publish-Follows :
      (id : String) (clock : ℕ) (s : TaskStore)
      → Follows crypto s (mark_outbox_published id clock s)
  unfolding mark_outbox_published
  publish-Follows id clock s = Follows-tasks crypto s _ (ground arith) (ground arith)

  -- Whatever the call, each task stays as it is, or makes one legal move of the state machine, or is
  -- the call's new task, queued, under the next identifier; and the maps stay keyed. The store's
  -- tasks must be keyed by their identifiers before the call.
  pub step-Follows :
      (c : Call) (clock : ℕ) (s : TaskStore)
      → Keyed id_of s.tasks
      → Follows crypto s (step crypto c clock s)
  unfolding step
  step-Follows (creates r) clock s v = create-Follows crypto r clock s
  step-Follows (claims worker wanted) clock s v = claim-Follows crypto worker wanted clock s v
  step-Follows (accepts id reference) clock s v = set_running-Follows crypto id reference s
  step-Follows (completes id r) clock s v = complete-Follows crypto id r clock s
  step-Follows (fails id e) clock s v = fail-Follows crypto id e clock s
  step-Follows (retries id e delay) clock s v = retry-Follows crypto id e delay clock s
  step-Follows (verifies id e) clock s v = require_verification-Follows crypto id e clock s
  step-Follows (cancels id by) clock s v = cancel-Follows crypto id by clock s
  step-Follows (supersedes id other by) clock s v = supersede-Follows crypto id other by clock s
  step-Follows (requeues id by) clock s v = manual_retry-Follows crypto id by clock s
  step-Follows (beats id lease_ms) clock s v = heartbeat-Follows crypto id lease_ms clock s
  step-Follows (publishes id) clock s v = publish-Follows id clock s
  step-Follows (audits event) clock s v =
      unfold record_audit in Follows-tasks crypto s _ (omega arith) refl
  step-Follows (recovers now) clock s v = recover_expired-Follows crypto now clock s
  step-Follows (reannounces older limit now) clock s v =
      reannounce_stale-Follows crypto older limit now clock s
  step-Follows (rescues after now) clock s v = recover_stranded-Follows crypto after now clock s

-- Every task is sound and its identifier has been drawn; no identifier is there twice.
pub record IsValid (crypto : Crypto) (s : TaskStore) : Type 0 where
  pub keyed : Keyed id_of s.tasks
  pub sound : (id : String) (t : Task) → get id s.tasks ≡ some t → IsSound t
  pub known :
      (id : String) (t : Task)
      → get id s.tasks ≡ some t
      → (n : ℕ) × (n < s.drawn) × (id ≡ crypto.uuid n)

module _ (crypto : Crypto) where
  Follows-IsSound :
      (s u : TaskStore)
      → IsValid crypto s
      → (id : String) (t : Task) → At crypto s u id
      → get id u.tasks ≡ some t
      → IsSound t
  Follows-IsSound s u v id t (same q) e = v.sound id t (sym q ∙ e)
  Follows-IsSound s u v id t (moved a b p q m) e = ground (arith, m.sound (v.sound id a p))
  Follows-IsSound s u v id t (added b p d q st so) e = ground arith

  Follows-known :
      (s u : TaskStore)
      → IsValid crypto s
      → s.drawn ≤ u.drawn
      → (id : String) (t : Task) → At crypto s u id
      → get id u.tasks ≡ some t
      → (n : ℕ) × (n < u.drawn) × (id ≡ crypto.uuid n)
  Follows-known s u v h id t (same q) e =
      let (n, lt, eq) = v.known id t (sym q ∙ e) in (n, omega arith, eq)
  Follows-known s u v h id t (moved a b p q m) e =
      let (n, lt, eq) = v.known id a p in (n, omega arith, eq)
  Follows-known s u v h id t (added b p d q st so) e = (s.drawn, d, p)

  Follows-IsValid : (s u : TaskStore) → IsValid crypto s → Follows crypto s u → IsValid crypto u
  Follows-IsValid s u v f = record {
    keyed = f.keyed v.keyed;
    sound = λ id t. Follows-IsSound s u v id t (f.at id);
    known = λ id t. Follows-known s u v f.draws id t (f.at id);
  }

  pub step-IsValid :
      (c : Call) (clock : ℕ) (s : TaskStore)
      → IsValid crypto s
      → IsValid crypto (step crypto c clock s)
  step-IsValid c clock s v = Follows-IsValid s _ v (step-Follows crypto c clock s v.keyed)

  -- Any history of calls from a valid store ends in a valid one: a lease is held by running tasks
  -- and by no others, a final task has its time, a completed one its result, a failed one its error.
  pub run-IsValid :
      (cs : List (ℕ × Call)) (s : TaskStore) → IsValid crypto s → IsValid crypto (run crypto cs s)
  unfolding run
  run-IsValid [] s v = v
  run-IsValid ((clock, c) ∷ cs) s v =
      run-IsValid cs (step crypto c clock s) (step-IsValid c clock s v)

  -- A new store is valid.
  pub open_store-IsValid :
      (has_file : Bool) (drawn : ℕ) → IsValid crypto (open_store has_file none drawn)
  unfolding open_store get
  open_store-IsValid true drawn = record {
    keyed = tt;
    sound = λ id t e. cc;
    known = λ id t e. absurd (cc);
  }
  open_store-IsValid false drawn = record {
    keyed = tt;
    sound = λ id t e. cc;
    known = λ id t e. absurd (cc);
  }

-- The task under `id` has that end.
pub record Ended (id : String) (t : Task) (s : TaskStore) : Type 0 where
  pub now : Task
  pub there : get id s.tasks ≡ some now
  pub status : now.status ≡ t.status
  pub result : now.result ≡ t.result

module _ (crypto : Crypto) (unrepeating : (m n : ℕ) → crypto.uuid m ≡ crypto.uuid n → m ≡ n) where
  Follows-Ended :
      (id : String) (t : Task) (s u : TaskStore)
      → IsValid crypto s
      → is_settled t.status ≡ true
      → At crypto s u id
      → Ended id t s
      → Ended id t u
  Follows-Ended id t s u v h (same q) w = record {
    now = w.now;
    there = q ∙ w.there;
    status = w.status;
    result = w.result;
  }
  Follows-Ended id t s u v h (moved a b p q m) w = record {
    now = b;
    there = q;
    status = ground (arith, w.there, w.status, m.kept_status);
    result = ground (arith, w.there, w.status, w.result, m.kept_result);
  }
  Follows-Ended id t s u v h (added b p d q st so) w =
      let (n, lt, eq) = v.known id w.now w.there in
      absurd (omega (arith, unrepeating n s.drawn (sym eq ∙ p)))

  run-Ended :
      (cs : List (ℕ × Call)) (id : String) (t : Task) (s : TaskStore)
      → IsValid crypto s
      → is_settled t.status ≡ true
      → Ended id t s
      → Ended id t (run crypto cs s)
  unfolding run
  run-Ended [] id t s v h w = w
  run-Ended ((clock, c) ∷ cs) id t s v h w =
      run-Ended cs id t (step crypto c clock s) (step-IsValid crypto c clock s v) h
        (Follows-Ended id t s _ v h ((step-Follows crypto c clock s v.keyed).at id) w)

  -- A completed or cancelled task of a valid store is for ever: after any history it is still there
  -- under its identifier, with the same status and the same result. Identifiers do not repeat.
  pub run-settled :
      (cs : List (ℕ × Call)) (id : String) (t : Task) (s : TaskStore)
      → IsValid crypto s
      → get id s.tasks ≡ some t
      → is_settled t.status ≡ true
      → Ended id t (run crypto cs s)
  run-settled cs id t s v e h =
      run-Ended cs id t s v h (record { now = t; there = e; status = refl; result = refl })
