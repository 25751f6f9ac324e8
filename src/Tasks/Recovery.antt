-- ===== src/Tasks/Recovery.antt =====
-- What the sweeps of Tasks/Sweep do to each task.
use nuvrion.Common.{
  values, ℕ, ◌+◌, ◌≤◌, String, ◌≡◌, refl, ap, ◌∙◌, Bool, true, inl, inr, List, [], ◌∷◌, arith,
  Bool-cases, Option-cases, get, str_eq, Assoc, Keyed, if◌then◌else◌,
}
use mathlib.Core.Option
use nuvrion.Tasks.Types.{
  is_final, is_running, is_completed, is_failed, Task, Journal, TaskStore, Crypto,
}
use nuvrion.Tasks.Journal.{announce}
use nuvrion.Tasks.Sweep.{
  is_stale, sort_by_time, lease_expired, recovered, recovered_journal, recover_tasks,
  recover_expired, announce_stale, reannounce_stale, recover_stranded,
}
use nuvrion.Tasks.Moves.{
  may_follow, is_settled, id_of, Move, same, moved, Follows, Follows-tasks, Follows-then,
}

-- What a sweep at `now` leaves of a task.
unfoldable pub swept : ℕ → ℕ → Task → Task
swept now clock t = if lease_expired now t then recovered clock t else t

pub swept-Move :
    (now clock : ℕ) (t : Task) → lease_expired now t ≡ true → Move t (recovered clock t)
unfolding lease_expired recovered is_running is_final is_settled may_follow is_completed is_failed
swept-Move now clock t h = record {
  same_id = ground arith;
  legal = ground arith;
  sound = λ v. ground arith;
  kept_status = ground arith;
  kept_result = ground arith;
}

id-swept : (now clock : ℕ) (t : Task) → id_of (swept now clock t) ≡ t.id
unfolding swept recovered
id-swept now clock t = ground arith

module _ (crypto : Crypto) (now clock : ℕ) where
  -- A task is found after the sweep where it was before, swept.
  pub get-recover_tasks :
      (id : String) (m : Assoc Task) (j : Journal)
      → get id (recover_tasks crypto now clock m j).tasks ≡ Option.map (swept now clock) (get id m)
  unfolding get swept recover_tasks
  get-recover_tasks id [] j = refl
  get-recover_tasks id ((k, t) ∷ m) j = elim (Bool-cases (str_eq k id)) [
    | inl e ↦ rw (e, get) refl
    | inr e ↦ rw (e, get) (get-recover_tasks id m _)
  ]

  pub Keyed-recover_tasks :
      (m : Assoc Task) (j : Journal)
      → Keyed id_of m
      → Keyed id_of (recover_tasks crypto now clock m j).tasks
  unfolding recover_tasks swept
  Keyed-recover_tasks [] j v = tt
  Keyed-recover_tasks ((k, t) ∷ m) j v = (
    id-swept now clock t ∙ v.0,
    get-recover_tasks k m _ ∙ ap (Option.map (swept now clock)) v.1,
    Keyed-recover_tasks m _ v.2,
  )

  drawn-recover_tasks :
      (m : Assoc Task) (j : Journal) → j.drawn ≤ (recover_tasks crypto now clock m j).journal.drawn
  unfolding recover_tasks
  drawn-recover_tasks [] j = omega arith
  drawn-recover_tasks ((k, t) ∷ m) j = ground (
    arith,
    drawn-recover_tasks m (if lease_expired now t then recovered_journal crypto clock t j else j),
  )

  pub tasks-recover_expired :
      (s : TaskStore)
      → (recover_expired crypto now clock s).1.tasks
        ≡ (recover_tasks crypto now clock s.tasks s.journal).tasks
  unfolding recover_expired
  tasks-recover_expired s = ground arith

  drawn-recover_expired : (s : TaskStore) → s.drawn ≤ (recover_expired crypto now clock s).1.drawn
  unfolding recover_expired
  drawn-recover_expired s = ground (arith, drawn-recover_tasks s.tasks s.journal)

  -- After the sweep each task is found swept.
  pub get-recover_expired :
      (id : String) (s : TaskStore)
      → get id (recover_expired crypto now clock s).1.tasks
        ≡ Option.map (swept now clock) (get id s.tasks)
  get-recover_expired id s = rw (tasks-recover_expired s) (get-recover_tasks id s.tasks s.journal)

  pub recover_expired-Follows :
      (s : TaskStore) → Follows crypto s (recover_expired crypto now clock s).1
  unfolding swept
  recover_expired-Follows s = record {
    draws = drawn-recover_expired s;
    keyed = λ v. rw (tasks-recover_expired s) (Keyed-recover_tasks s.tasks s.journal v);
    at = λ id. elim (Option-cases (get id s.tasks)) [
      | inl e ↦ same (rw (get-recover_expired id s, e))
      | inr (t, e) ↦ elim (Bool-cases (lease_expired now t)) [
        | inl f ↦
            moved t (recovered clock t) e (rw (get-recover_expired id s, e, f) refl)
              (swept-Move now clock t f)
        | inr f ↦ same (rw (get-recover_expired id s, e, swept, f) refl)
      ]
    ];
  }

module _ (crypto : Crypto) where
  drawn-announce_stale :
      (stale : Task → Bool) (limit clock : ℕ) (ts : List Task) (count : ℕ) (j : Journal)
      → j.drawn ≤ (announce_stale crypto stale limit clock ts count j).1.drawn
  unfolding announce_stale announce
  drawn-announce_stale stale limit clock [] count j = omega arith
  drawn-announce_stale stale limit clock (t ∷ ts) count j = ground (
    arith,
    drawn-announce_stale stale limit clock ts (if stale t then count + 1 else count)
        (if stale t then announce crypto t.id clock j else j),
  )

  drawn-reannounce_stale :
      (older limit now clock : ℕ) (s : TaskStore)
      → s.drawn ≤ (reannounce_stale crypto older limit now clock s).1.drawn
  unfolding reannounce_stale
  drawn-reannounce_stale older limit now clock s = ground (
    arith,
    drawn-announce_stale (is_stale older now s.outbox) limit clock (sort_by_time (values s.tasks)) 0
        s.journal,
  )

  tasks-reannounce_stale :
      (older limit now clock : ℕ) (s : TaskStore)
      → (reannounce_stale crypto older limit now clock s).1.tasks ≡ s.tasks
  unfolding reannounce_stale
  tasks-reannounce_stale older limit now clock s = ground arith

  pub reannounce_stale-Follows :
      (older limit now clock : ℕ) (s : TaskStore)
      → Follows crypto s (reannounce_stale crypto older limit now clock s).1
  reannounce_stale-Follows older limit now clock s =
      Follows-tasks crypto s _ (drawn-reannounce_stale older limit now clock s)
        (tasks-reannounce_stale older limit now clock s)

  pub recover_stranded-Follows :
      (after now clock : ℕ) (s : TaskStore)
      → Follows crypto s (recover_stranded crypto after now clock s).1
  unfolding recover_stranded
  recover_stranded-Follows after now clock s =
      Follows-then crypto s _ _ (recover_expired-Follows crypto now clock s)
        (drawn-reannounce_stale after 100 now clock _)
        (tasks-reannounce_stale after 100 now clock _)
