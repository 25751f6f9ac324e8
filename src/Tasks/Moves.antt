-- ===== src/Tasks/Moves.antt =====
-- How one call may change a task: the state machine of the task engine, described without the code.
use nuvrion.Common.{
  ◌≤◌, ◌<◌, String, ◌≡◌, refl, ◌∙◌, ◌⊎◌, Keyed, Keyed-put, key_of-get, Bool, true, false, inl, inr,
  some, arith, if◌then◌else◌, str_eq, eq_iff, is_some, implies, Bool-cases, get, put, get-put,
}
use nuvrion.Tasks.Types.{
  Status, queued, running, completed, failed, cancelled, verification_required, is_final,
  is_running, is_completed, is_failed, Task, TaskStore, Crypto,
}

-- A completed task and a cancelled one stay so; a failed one can only be queued again; a task leaves
-- `running` and `verification_required` in any way but the latter's cancellation, and `queued` too.
unfoldable pub may_follow : Status → Status → Bool
may_follow completed completed = true
may_follow completed _ = false
may_follow cancelled cancelled = true
may_follow cancelled _ = false
may_follow failed failed = true
may_follow failed queued = true
may_follow failed _ = false
may_follow verification_required running = false
may_follow verification_required cancelled = false
may_follow verification_required _ = true
may_follow queued _ = true
may_follow running _ = true

unfoldable pub is_settled : Status → Bool
is_settled completed = true
is_settled cancelled = true
is_settled failed = false
is_settled queued = false
is_settled running = false
is_settled verification_required = false

-- A lease belongs to a running task and to no other; a final task has its time, a completed one its
-- result, a failed one its error.
pub record IsSound (t : Task) : Type 0 where
  pub leased : is_some t.lease ≡ is_running t.status
  pub timed : implies (is_final t.status) (is_some t.completed_at) ≡ true
  pub answered : implies (is_completed t.status) (is_some t.result) ≡ true
  pub explained : implies (is_failed t.status) (is_some t.error) ≡ true

pub record Move (t u : Task) : Type 0 where
  pub same_id : u.id ≡ t.id
  pub legal : may_follow t.status u.status ≡ true
  pub sound : IsSound t → IsSound u
  pub kept_status : (if is_settled t.status then u.status else t.status) ≡ t.status
  pub kept_result : (if is_settled t.status then u.result else t.result) ≡ t.result

abbrev pub id_of : Task → String
id_of t = t.id

-- What a call does to the task under `id`: nothing, a move, or it is the call's new task.
pub data At (crypto : Crypto) (s u : TaskStore) (id : String) : Type 0 where
  same : get id u.tasks ≡ get id s.tasks → At crypto s u id
  moved :
      (t t' : Task)
      → get id s.tasks ≡ some t
      → get id u.tasks ≡ some t'
      → Move t t'
      → At crypto s u id
  added :
      (t : Task)
      → id ≡ crypto.uuid s.drawn
      → s.drawn < u.drawn
      → get id u.tasks ≡ some t
      → t.status ≡ queued
      → IsSound t
      → At crypto s u id

pub record Follows (crypto : Crypto) (s u : TaskStore) : Type 0 where
  pub draws : s.drawn ≤ u.drawn
  pub keyed : Keyed id_of s.tasks → Keyed id_of u.tasks
  pub at : (id : String) → At crypto s u id

module _ (crypto : Crypto) where
  pub Follows-refl : (s : TaskStore) → Follows crypto s s
  Follows-refl s = record { draws = omega arith; keyed = λ h. h; at = λ id. same refl }

  pub Follows-tasks : (s u : TaskStore) → s.drawn ≤ u.drawn → u.tasks ≡ s.tasks → Follows crypto s u
  Follows-tasks s u h e = record { draws = h; keyed = λ v. rw e v; at = λ id. same (rw e) }

  -- A call that leaves the tasks alone after one that follows.
  pub Follows-then :
      (s u v : TaskStore)
      → Follows crypto s u
      → u.drawn ≤ v.drawn
      → v.tasks ≡ u.tasks
      → Follows crypto s v
  Follows-then s u v f h e = record {
    draws = omega (arith, f.draws);
    keyed = λ k. rw e (f.keyed k);
    at = λ id. at_key id (f.at id);
  }
    where
      at_key : (id : String) → At crypto s u id → At crypto s v id
      at_key id (same q) = same (rw e q)
      at_key id (moved t t' p q m) = moved t t' p (rw e q) m
      at_key id (added t p d q st so) = added t p (omega (arith, h)) (rw e q) st so

  -- A write to one task that is there.
  pub write-Follows :
      (id : String) (t t' : Task) (s u : TaskStore)
      → get id s.tasks ≡ some t
      → s.drawn ≤ u.drawn
      → u.tasks ≡ put id t' s.tasks
      → Move t t'
      → Follows crypto s u
  write-Follows id t t' s u e h w m = record {
    draws = h;
    keyed =
        λ v. rw w (Keyed-put id_of id t' s.tasks (m.same_id ∙ key_of-get id_of id s.tasks t v e) v);
    at = λ j. at_key j (Bool-cases (str_eq id j));
  }
    where
      at_key : (j : String) → (str_eq id j ≡ true) ⊎ (str_eq id j ≡ false) → At crypto s u j
      at_key j (inl eq) = moved t t' (ground (arith, eq_iff id j)) (rw (w, get-put, eq)) m
      at_key j (inr ne) = same (rw (w, get-put, ne))
