-- ===== src/Tasks/Durability.antt =====
-- What the file holds after each call: a store that is opened again goes on where it stopped.
use nuvrion.Common.{
  ℕ, ◌+◌, ◌≤◌, not, every, Assoc, Bool-cases, inl, inr, values, ◌≡◌, refl, Bool, true, false, some,
  List, [], ◌∷◌, arith,
}
use nuvrion.Tasks.Types.{Task, Journal, TaskStore, Crypto}
use nuvrion.Tasks.Journal.{announce, snapshot_of, open_store}
use nuvrion.Tasks.Store.{create, claim, set_running, complete, fail, retry, require_verification}
use nuvrion.Tasks.Control.{mark_outbox_published, cancel, supersede, manual_retry, record_audit}
use nuvrion.Tasks.Sweep.{
  lease_expired, recover_tasks, announce_stale, is_stale, sort_by_time, recover_expired,
  reannounce_stale, recover_stranded,
}
use nuvrion.Tasks.Calls.{Call, beats, recovers, reannounces, rescues, step, run}

-- There is a file, and it holds the state in memory.
pub record IsSynced (s : TaskStore) : Type 0 where
  pub filed : s.has_file ≡ true
  pub saved : s.disk ≡ some (snapshot_of s)

abbrev pub is_beat : Call → Bool
is_beat (beats id lease_ms) = true
is_beat _ = false

module _ (crypto : Crypto) where
  -- A sweep that counts nothing changes nothing.
  recover_nothing :
      (now clock : ℕ) (m : Assoc Task) (j : Journal)
      → (recover_tasks crypto now clock m j).requeued ≡ 0
      → (recover_tasks crypto now clock m j).verifying ≡ 0
      → ((recover_tasks crypto now clock m j).tasks ≡ m)
        × ((recover_tasks crypto now clock m j).journal ≡ j)
  unfolding recover_tasks
  recover_nothing now clock [] j p q = (refl, refl)
  recover_nothing now clock ((id, t) ∷ m) j p q = elim (Bool-cases (lease_expired now t)) [
    | inl e ↦ absurd (ground arith)
    | inr e ↦ ground (arith, recover_nothing now clock m j)
  ]

  recover_expired-IsSynced :
      (now clock : ℕ) (s : TaskStore) → IsSynced s → IsSynced (recover_expired crypto now clock s).1
  unfolding recover_expired snapshot_of
  recover_expired-IsSynced now clock s v =
      ground (arith, recover_nothing now clock s.tasks s.journal)

  announce_nothing :
      (stale : Task → Bool) (limit clock : ℕ) (ts : List Task) (count : ℕ) (j : Journal)
      → (count ≤ (announce_stale crypto stale limit clock ts count j).0)
        × ((announce_stale crypto stale limit clock ts count j).0 ≡ count
            → (announce_stale crypto stale limit clock ts count j).1 ≡ j)
  unfolding announce_stale announce
  announce_nothing stale limit clock [] count j = (omega arith, λ e. refl)
  announce_nothing stale limit clock (t ∷ ts) count j = elim (Bool-cases (stale t)) [
    | inl e ↦
        ground
          (arith, announce_nothing stale limit clock ts (count + 1) (announce crypto t.id clock j))
    | inr e ↦ ground (arith, announce_nothing stale limit clock ts count j)
  ]

  reannounce_stale-IsSynced :
      (older limit now clock : ℕ) (s : TaskStore)
      → IsSynced s
      → IsSynced (reannounce_stale crypto older limit now clock s).1
  unfolding reannounce_stale snapshot_of
  reannounce_stale-IsSynced older limit now clock s v = ground (
    arith,
    announce_nothing (is_stale older now s.outbox) limit clock (sort_by_time (values s.tasks)) 0
        s.journal,
  )

  step-IsSynced :
      (c : Call) (clock : ℕ) (s : TaskStore)
      → is_beat c ≡ false
      → IsSynced s
      → IsSynced (step crypto c clock s)
  unfolding step create claim set_running complete fail retry require_verification
      mark_outbox_published cancel supersede manual_retry record_audit recover_stranded
  step-IsSynced (recovers now) clock s n v = recover_expired-IsSynced now clock s v
  step-IsSynced (reannounces older limit now) clock s n v =
      reannounce_stale-IsSynced older limit now clock s v
  step-IsSynced (rescues after now) clock s n v =
      reannounce_stale-IsSynced after 100 now clock _ (recover_expired-IsSynced now clock s v)
  step-IsSynced _ clock s n v = ground arith

  run-IsSynced :
      (cs : List (ℕ × Call)) (s : TaskStore)
      → every (λ c. not (is_beat c.1)) cs ≡ true
      → IsSynced s
      → IsSynced (run crypto cs s)
  unfolding run
  run-IsSynced [] s n v = v
  run-IsSynced ((clock, c) ∷ cs) s n v =
      run-IsSynced cs (step crypto c clock s) (ground arith)
        (step-IsSynced c clock s (ground arith) v)

  -- A store whose file holds its state, after any history without a heartbeat, is the store that is
  -- opened from the file: a restart loses nothing. (A heartbeat extends a lease in memory only.)
  pub reopen-run :
      (cs : List (ℕ × Call)) (s : TaskStore)
      → IsSynced s
      → every (λ c. not (is_beat c.1)) cs ≡ true
      → open_store true (run crypto cs s).disk (run crypto cs s).drawn ≡ run crypto cs s
  unfolding open_store snapshot_of
  reopen-run cs s v n = let w = run-IsSynced cs s n v in ground (arith, w.saved, w.filed)
