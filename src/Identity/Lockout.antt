-- ===== src/Identity/Lockout.antt =====
-- How many wrong codes a person may give.
use nuvrion.Common.{
  if◌then◌else◌, ℕ, ◌+◌, ◌≤◌, ◌<◌, ◌≡◌, refl, none, some, List, [], ◌∷◌, ◌++◌, arith, length, leb,
  All, Bool-cases, inl, inr,
}
use nuvrion.Identity.Mfa.{
  user_failures, window_ms, lock_ms, Failures, locked_for, is_fresh, after_failure, after_success,
}

-- Wrong codes at these times, one after another.
unfoldable pub after_failures : Failures → List ℕ → Failures
after_failures r [] = r
after_failures r (t ∷ ts) = after_failures (after_failure r t) ts

abbrev pub InWindow : ℕ → ℕ → Type 0
InWindow since t = t ≤ since + window_ms

-- Within the window a wrong code counts one more, from the same first time.
after_failure-kept :
    (since : ℕ) (r : Failures) (t : ℕ)
    → 0 < since
    → r.failed_since ≡ some since
    → InWindow since t
    → ((after_failure r t).failed_count ≡ r.failed_count + 1)
      × ((after_failure r t).failed_since ≡ some since)
unfolding after_failure
after_failure-kept since r t h e w = ground arith

-- Below the limit a wrong code locks nobody out.
after_failure-unlocked :
    (since : ℕ) (r : Failures) (t : ℕ)
    → 0 < since
    → r.failed_since ≡ some since
    → r.locked_until ≡ none
    → InWindow since t
    → r.failed_count + 1 < user_failures
    → (after_failure r t).locked_until ≡ none
unfolding after_failure
after_failure-unlocked since r t h e n w c = ground arith

after_failure-locked :
    (since : ℕ) (r : Failures) (t : ℕ)
    → 0 < since
    → r.failed_since ≡ some since
    → InWindow since t
    → user_failures ≤ r.failed_count + 1
    → (after_failure r t).locked_until ≡ some (t + lock_ms)
unfolding after_failure
after_failure-locked since r t h e w c = ground arith

after_failures-count :
    (since : ℕ) (r : Failures) (ts : List ℕ)
    → 0 < since
    → r.failed_since ≡ some since
    → All (InWindow since) ts
    → ((after_failures r ts).failed_count ≡ r.failed_count + length ts)
      × ((after_failures r ts).failed_since ≡ some since)
unfolding after_failures
after_failures-count since r [] h e w = (omega arith, e)
after_failures-count since r (t ∷ ts) h e w =
    let (count, from) = after_failure-kept since r t h e w.0 in
    let (total, kept) = after_failures-count since (after_failure r t) ts h from w.1 in
    (omega arith, kept)

after_failures-append :
    (r : Failures) (ts us : List ℕ)
    → after_failures r (ts ++ us) ≡ after_failures (after_failures r ts) us
unfolding after_failures
after_failures-append r [] us = refl
after_failures-append r (t ∷ ts) us = after_failures-append (after_failure r t) ts us

after_failures-unlocked :
    (since : ℕ) (r : Failures) (ts : List ℕ)
    → 0 < since
    → r.failed_since ≡ some since
    → r.locked_until ≡ none
    → All (InWindow since) ts
    → r.failed_count + length ts < user_failures
    → (after_failures r ts).locked_until ≡ none
unfolding after_failures
after_failures-unlocked since r [] h e n w c = n
after_failures-unlocked since r (t ∷ ts) h e n w c =
    let (count, from) = after_failure-kept since r t h e w.0 in
    after_failures-unlocked since (after_failure r t) ts h from
      (after_failure-unlocked since r t h e n w.0 (omega arith)) w.1 (omega arith)

first_failure :
    (since : ℕ)
    → ((after_failure after_success since).failed_count ≡ 1)
      × ((after_failure after_success since).failed_since ≡ some since)
      × ((after_failure after_success since).locked_until ≡ none)
unfolding after_failure after_success is_fresh
first_failure since = (refl, refl, refl)

locked_for-lock :
    (r : Failures) (t : ℕ) → r.locked_until ≡ some (t + lock_ms) → locked_for r t ≡ 900
unfolding locked_for
locked_for-lock r t e = ground arith

locked_for-none : (r : Failures) (t : ℕ) → r.locked_until ≡ none → locked_for r t ≡ 0
unfolding locked_for
locked_for-none r t e = rw e

-- The last failure, of those that follow the first.
last_failure :
    (since : ℕ) (r : Failures) (ts : List ℕ) (t : ℕ)
    → 0 < since
    → r.failed_since ≡ some since
    → r.locked_until ≡ none
    → r.failed_count ≡ 1
    → All (InWindow since) ts
    → InWindow since t
    → locked_for (after_failure (after_failures r ts) t) t ≡ (if leb 8 (length ts) then 900 else 0)
last_failure since r ts t h e n one w v =
    let (count, from) = after_failures-count since r ts h e w in
    elim (Bool-cases (leb 8 (length ts))) [
      | inl many ↦
          rw many (locked_for-lock _ t (after_failure-locked since _ t h from v (ground arith)))
      | inr few ↦ rw few (
          locked_for-none _ t (
            after_failure-unlocked since _ t h from
              (after_failures-unlocked since r ts h e n w (ground arith)) v (ground arith)))
    ]

-- Wrong codes at `since`, at the times `ts` and at last at `t`, all within a quarter of an hour of the
-- first: at the time of the last one the person is locked out for 900 seconds if these are ten or
-- more, and not at all if they are fewer. No wrong code was counted before.
pub after_failures-lock :
    (since : ℕ) (ts : List ℕ) (t : ℕ)
    → 0 < since
    → All (InWindow since) ts
    → InWindow since t
    → locked_for (after_failures after_success (since ∷ ts ++ t ∷ [])) t
      ≡ (if leb 8 (length ts) then 900 else 0)
unfolding after_failures
after_failures-lock since ts t h w v =
    let (one, from, free) = first_failure since in
    rw (after_failures-append (after_failure after_success since) ts (t ∷ []))
      (last_failure since (after_failure after_success since) ts t h from free one w v)
