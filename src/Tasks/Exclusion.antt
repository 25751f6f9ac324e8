-- ===== src/Tasks/Exclusion.antt =====
-- What is done once: a request under one idempotency key, a claim of one task, and the recovery of
-- an operation that the provider has accepted.
use mathlib.Core.Path.{subst}
use nuvrion.Common.{
  if◌then◌else◌, ℕ, ◌+◌, ◌≤◌, String, ◌≡◌, ◌≢◌, refl, ◌∙◌, ap, Bool, false, inl, inr, Option, none,
  some, List, [], ◌∷◌, arith, eq_iff, eq_refl, truthy, get, put, values, get-put, get-put_self,
  find_by, find_by-holds, get-find_by, length, Keyed, Option-cases, Bool-cases,
}
use nuvrion.Tasks.Types.{
  queued, verification_required, is_queued, Task, Request, Journal, TaskStore, Crypto,
}
use nuvrion.Tasks.Journal.{announce, length-announce}
use nuvrion.Tasks.Store.{claimed, create, get_task, claim, is_claimable}
use nuvrion.Tasks.Sweep.{
  lease_expired, recovered, recover_expired, announce_stale, reannounce_stale, is_stale,
  sort_by_time,
}
use nuvrion.Tasks.Moves.{id_of}
use nuvrion.Tasks.Lifecycle.{claim-Follows}
use nuvrion.Tasks.Recovery.{swept, get-recover_expired}

module _ (crypto : Crypto) where
  create-found :
      (r : Request) (clock : ℕ) (s : TaskStore) (k : String)
      → get (crypto.sha256 r.idempotency_key) s.keys ≡ some k
      → create crypto r clock s ≡ ((get_task k s, false), s)
  unfolding create
  create-found r clock s k e = rw (e, create) refl

  -- After a request its key leads to the task that it returned.
  create-known :
      (r : Request) (clock : ℕ) (s : TaskStore)
      → (k : String) × (get (crypto.sha256 r.idempotency_key) (create crypto r clock s).1.keys
          ≡ some k)
        × (get_task k (create crypto r clock s).1 ≡ (create crypto r clock s).0.0)
  unfolding create
  create-known r clock s = elim (Option-cases (get (crypto.sha256 r.idempotency_key) s.keys)) [
    | inl n ↦ (
      crypto.uuid s.drawn,
      rw (n, create) (simp (get-put, eq_refl)),
      rw (n, create) (simp (get-put, eq_refl)),
    )
    | inr (k, n) ↦ (k, rw (n, create) n, rw (n, create) refl)
  ]

  -- A second request under the same idempotency key, whatever else it asks for and whenever it comes,
  -- changes nothing, creates nothing, and returns the task that the first one returned.
  pub create-create :
      (r again : Request) (clock later : ℕ) (s : TaskStore)
      → again.idempotency_key ≡ r.idempotency_key
      → create crypto again later (create crypto r clock s).1
        ≡ (((create crypto r clock s).0.0, false), (create crypto r clock s).1)
  create-create r again clock later s e =
      let (k, known, same) = create-known r clock s in
      create-found again later (create crypto r clock s).1 k
        (ap (λ key. get (crypto.sha256 key) (create crypto r clock s).1.keys) e ∙ known)
      ∙ ap (λ (t : Option Task). ((t, false), (create crypto r clock s).1)) same

  claim-taken :
      (worker : String) (wanted : Option String) (clock : ℕ) (s : TaskStore) (t : Task)
      → (claim crypto worker wanted clock s).0 ≡ some t
      → (get t.id (claim crypto worker wanted clock s).1.tasks ≡ some t)
        × (is_queued t.status ≡ false)
  unfolding claim is_queued
  claim-taken worker wanted clock s t e =
      elim (Option-cases (find_by (is_claimable wanted clock) (values s.tasks))) [
        | inl n ↦ absurd (ground arith)
        | inr (u, n) ↦
            let h : claimed crypto worker clock s u ≡ t = cc (rw (n, claim) at e) in
            rw (n, claim)
              (subst
                (λ (x : Task).
                  (get x.id (put u.id (claimed crypto worker clock s u) s.tasks) ≡ some x)
                  × (is_queued x.status ≡ false))
                h (get-put_self u.id (claimed crypto worker clock s u) s.tasks, refl))
      ]

  claim_busy :
      (other : String) (later : ℕ) (s : TaskStore) (t : Task)
      → Keyed id_of s.tasks
      → get t.id s.tasks ≡ some t
      → is_queued t.status ≡ false
      → t.id ≢ ""
      → (claim crypto other (some t.id) later s).0 ≡ none
  unfolding claim is_claimable
  claim_busy other later s t v there busy h =
      elim (Option-cases (find_by (is_claimable (some t.id) later) (values s.tasks))) [
        | inl n ↦ rw (n, claim) refl
        | inr (u, n) ↦ absurd (
            ground (
              arith,
              find_by-holds (is_claimable (some t.id) later) (values s.tasks) u n,
              get-find_by id_of (is_claimable (some t.id) later) s.tasks u v n,
              eq_iff u.id t.id,
              eq_iff t.id "",
            ))
      ]

  -- A claimed task cannot be claimed again, by any worker and at any time, from the store that the
  -- claim leaves. The tasks are keyed by their identifiers and the task's is not empty.
  pub claim-claim :
      (worker other : String) (wanted : Option String) (clock later : ℕ) (s : TaskStore) (t : Task)
      → Keyed id_of s.tasks
      → (claim crypto worker wanted clock s).0 ≡ some t
      → t.id ≢ ""
      → (claim crypto other (some t.id) later (claim crypto worker wanted clock s).1).0 ≡ none
  claim-claim worker other wanted clock later s t v e h =
      let (there, busy) = claim-taken worker wanted clock s t e in
      claim_busy other later (claim crypto worker wanted clock s).1 t
        ((claim-Follows crypto worker wanted clock s v).keyed v) there busy h

-- The sweep by the state machine's words: a task whose lease had not expired is as it was; else it
-- has no lease and waits for verification if the provider had accepted it, and is queued if not.
abbrev pub SweptTo : ℕ → Task → Task → Type 0
SweptTo now t u =
    ((if lease_expired now t then t else u) ≡ t)
    × (u.id ≡ t.id)
    × (u.operation ≡ t.operation)
    × (u.provider_reference ≡ t.provider_reference)
    × (u.lease ≡ (if lease_expired now t then none else t.lease))
    × (u.status ≡ (
        if lease_expired now t
        then (if truthy t.provider_reference then verification_required else queued)
        else t.status))
    × (lease_expired now u ≡ false)

swept-SweptTo : (now clock : ℕ) (t : Task) → SweptTo now t (swept now clock t)
unfolding swept recovered lease_expired
swept-SweptTo now clock t = ground arith

module _ (crypto : Crypto) where
  -- After the recovery sweep at `now` every task is found where it was. One whose lease had not
  -- expired is unchanged. Of the others, one that the provider had accepted waits for verification
  -- (it is not queued, so not run a second time), one that it had not is queued; no lease is left
  -- that has expired.
  pub recover_expired-SweptTo :
      (now clock : ℕ) (id : String) (s : TaskStore) (t : Task)
      → get id s.tasks ≡ some t
      → (u : Task) × (get id (recover_expired crypto now clock s).1.tasks ≡ some u)
        × SweptTo now t u
  recover_expired-SweptTo now clock id s t e = (
    swept now clock t,
    rw (get-recover_expired crypto now clock id s, e) refl,
    swept-SweptTo now clock t,
  )

  announce_stale_bounds :
      (stale : Task → Bool) (limit clock : ℕ) (ts : List Task) (count : ℕ) (j : Journal)
      → count ≤ limit
      → let r = announce_stale crypto stale limit clock ts count j in
        (r.0 ≤ limit) × (length r.1.outbox + count ≡ length j.outbox + r.0)
  unfolding announce_stale
  announce_stale_bounds stale limit clock [] count j h = omega arith
  announce_stale_bounds stale limit clock (t ∷ ts) count j h = elim (Bool-cases (stale t)) [
    | inl e ↦ rw e (
        ground (
          arith,
          announce_stale_bounds stale limit clock ts (count + 1) (announce crypto t.id clock j),
          length-announce crypto t.id clock j,
        ))
    | inr e ↦ ground (arith, announce_stale_bounds stale limit clock ts count j h)
  ]

  -- One sweep announces at most `limit` stale tasks, and puts exactly as many messages in the outbox
  -- as it reports.
  pub reannounce_stale_bounds :
      (older limit now clock : ℕ) (s : TaskStore)
      → let r = reannounce_stale crypto older limit now clock s in
        (r.0 ≤ limit) × (length r.1.outbox ≡ length s.outbox + r.0)
  unfolding reannounce_stale
  reannounce_stale_bounds older limit now clock s = ground (
    arith,
    announce_stale_bounds (is_stale older now s.outbox) limit clock (sort_by_time (values s.tasks))
        0 s.journal,
  )
