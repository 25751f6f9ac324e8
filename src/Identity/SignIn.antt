-- ===== src/Identity/SignIn.antt =====
-- What the limiter of login-rate-limiter.js answers after a history of sign-ins.
use nuvrion.Common.{
  ℕ, ◌+◌, ◌*◌, ◌≤◌, ◌<◌, ◌≡◌, refl, ◌∙◌, String, true, some, List, [], ◌∷◌, ◌++◌, arith, length,
  length-filter_by-le, or_else, ltb, get, put, remove, get-put, get-remove, str_eq, eq_refl, eq_iff,
  if◌then◌else◌, Bool-cases, inl, inr,
}
use nuvrion.Identity.RateLimiter.{
  Limiter, recent, wait_seconds, judge_recent, check, record_failure, reset,
}
use nuvrion.Identity.History.{
  Event, apply, after, failures_of, UpTo, within, within-within, within-snoc, UpTo-le,
  after-window_ms, after-limit, kept, checked, failed, was_reset,
}

check-kept :
    (k key : String) (t : ℕ) (l : Limiter)
    → kept key (check k t l).1
      ≡ (if str_eq k key then within l.window_ms t (kept key l) else kept key l)
unfolding check recent
check-kept k key t l = by_found (recent l k t) refl
  where
    by_found :
        (found : List ℕ)
        → within l.window_ms t (kept k l) ≡ found
        → or_else
            (get key (elim found [ [] ↦ remove k l.failures | v ∷ vs ↦ put k (v ∷ vs) l.failures ]))
            []
          ≡ (if str_eq k key then within l.window_ms t (kept key l) else kept key l)
    by_found [] e = elim (Bool-cases (str_eq k key)) [
      | inl same ↦ ground (arith, eq_iff k key, get-remove k key l.failures)
      | inr other ↦ ground (arith, get-remove k key l.failures)
    ]
    by_found (v ∷ vs) e = elim (Bool-cases (str_eq k key)) [
      | inl same ↦ ground (arith, eq_iff k key, get-put k key (v ∷ vs) l.failures)
      | inr other ↦ ground (arith, get-put k key (v ∷ vs) l.failures)
    ]

record_failure-kept :
    (k key : String) (t : ℕ) (l : Limiter)
    → kept key (record_failure k t l)
      ≡ (if str_eq k key then within l.window_ms t (kept key l) ++ t ∷ [] else kept key l)
unfolding record_failure recent
record_failure-kept k key t l = elim (Bool-cases (str_eq k key)) [
  | inl same ↦
      ground
        (arith, eq_iff k key, get-put k key (within l.window_ms t (kept k l) ++ t ∷ []) l.failures)
  | inr other ↦ rw (get-put, other)
]

reset-kept :
    (k key : String) (l : Limiter)
    → kept key (reset k l) ≡ (if str_eq k key then [] else kept key l)
unfolding reset
reset-kept k key l = elim (Bool-cases (str_eq k key)) [
  | inl same ↦ rw (get-remove, same)
  | inr other ↦ rw (get-remove, other)
]

-- After any history in the order of time the limiter holds, of each key, the failures since its last
-- reset that are in the window.
recent-after :
    (limit window_ms now : ℕ) (es : List Event) (key : String)
    → UpTo now es
    → within window_ms now (kept key (after limit window_ms es))
      ≡ within window_ms now (failures_of key es)
unfolding after apply failures_of UpTo get
recent-after limit window_ms now [] key u = refl
recent-after limit window_ms now (checked k t ∷ es) key u =
    let l = after limit window_ms es in
    elim (Bool-cases (str_eq k key)) [
      | inl same ↦
          rw (check-kept k key t l, same, after-window_ms limit window_ms es)
            (within-within window_ms t now (kept key l) u.0
              ∙ recent-after limit window_ms now es key (UpTo-le t now es u.0 u.1))
      | inr other ↦
          rw (check-kept k key t l, other)
            (recent-after limit window_ms now es key (UpTo-le t now es u.0 u.1))
    ]
recent-after limit window_ms now (failed k t ∷ es) key u =
    let l = after limit window_ms es in
    elim (Bool-cases (str_eq k key)) [
      | inl same ↦
          rw
            (
              record_failure-kept k key t l,
              same,
              after-window_ms limit window_ms es,
              recent-after limit window_ms t es key u.1,
            )
            (within-snoc window_ms t now t (failures_of key es) u.0)
      | inr other ↦
          rw (record_failure-kept k key t l, other)
            (recent-after limit window_ms now es key (UpTo-le t now es u.0 u.1))
    ]
recent-after limit window_ms now (was_reset k t ∷ es) key u =
    let l = after limit window_ms es in
    elim (Bool-cases (str_eq k key)) [
      | inl same ↦ rw (reset-kept k key l, same) refl
      | inr other ↦
          rw (reset-kept k key l, other)
            (recent-after limit window_ms now es key (UpTo-le t now es u.0 u.1))
    ]

judge_recent-allowed :
    (limit window_ms now : ℕ) (ts : List ℕ)
    → (judge_recent limit window_ms now ts).allowed ≡ ltb (length ts) limit
unfolding judge_recent
judge_recent-allowed limit window_ms now [] = refl
judge_recent-allowed limit window_ms now (t ∷ ts) = refl

-- After any checks, failures and resets in the order of time, a sign-in under a key is allowed exactly
-- when fewer than `limit` of the failures under that key since its last reset are in the window.
pub check-after :
    (limit window_ms now : ℕ) (es : List Event) (key : String)
    → UpTo now es
    → (check key now (after limit window_ms es)).0.allowed
      ≡ ltb (length (within window_ms now (failures_of key es))) limit
unfolding check recent
check-after limit window_ms now es key u =
    rw
      (
        judge_recent-allowed,
        after-limit,
        after-window_ms,
        recent-after limit window_ms now es key u,
      )
      refl

-- When the wait is over, the earliest of the failures has left the window.
wait_seconds-enough :
    (window_ms now first seconds : ℕ)
    → wait_seconds window_ms now first ≡ seconds
    → first + window_ms ≤ now + seconds * 1000
unfolding wait_seconds
wait_seconds-enough window_ms now first seconds e = grind arith

retry-below :
    (limit window_ms now seconds : ℕ) (ts : List ℕ)
    → 0 < limit
    → length ts ≡ limit
    → (judge_recent limit window_ms now ts).retry_after_seconds ≡ some seconds
    → ltb (length (within window_ms (now + seconds * 1000) ts)) limit ≡ true
unfolding judge_recent
retry-below limit window_ms now seconds [] h n e = ground arith
retry-below limit window_ms now seconds (t ∷ ts) h n e =
    let gone = wait_seconds-enough window_ms now t seconds (ground arith) in
    let rest = length-filter_by-le (λ x. ltb (now + seconds * 1000) (x + window_ms)) ts in
    ground arith

-- Who is refused with exactly `limit` failures in the window is told how long to wait: after these
-- seconds, with no further failure, the sign-in is allowed.
pub check-retry :
    (key : String) (now seconds : ℕ) (l : Limiter)
    → 0 < l.limit
    → length (recent l key now) ≡ l.limit
    → (check key now l).0.retry_after_seconds ≡ some seconds
    → (check key (now + seconds * 1000) (check key now l).1).0.allowed ≡ true
unfolding check recent
check-retry key now seconds l h n e =
    rw (judge_recent-allowed, check-kept key key now l, eq_refl key)
      (retry-below l.limit l.window_ms now seconds (within l.window_ms now (kept key l)) h n e)
