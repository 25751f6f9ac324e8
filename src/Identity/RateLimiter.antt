-- ===== src/Identity/RateLimiter.antt =====
-- modules/identity/src/login-rate-limiter.js: failed sign-ins under each key, the keyed hash of a client
-- and a user name, which is a parameter of the source's methods here.
use nuvrion.Common.{
  ℕ, ◌+◌, ◌-◌, ◌/◌, String, Bool, Option, none, some, List, [], ◌∷◌, ◌++◌, length, filter_by,
  or_else, ltb, get, put, remove, Assoc, if◌then◌else◌,
}

pub record Limiter : Type 0 where
  pub failures : Assoc (List ℕ)
  pub limit : ℕ
  pub window_ms : ℕ

-- (this.#failures.get(key)??[]).filter(value=>value>now-this.windowMs)
unfoldable pub recent : Limiter → String → ℕ → List ℕ
recent l key now =
    filter_by (λ value. ltb now (value + l.window_ms)) (or_else (get key l.failures) [])

-- Math.max(1,Math.ceil((first+windowMs-now)/1000))
unfoldable pub wait_seconds : ℕ → ℕ → ℕ → ℕ
wait_seconds window_ms now first =
    let seconds = (first + window_ms - now + 999) / 1000 in if ltb 1 seconds then seconds else 1

pub record Check : Type 0 where
  pub allowed : Bool
  -- `none` stands for NaN
  pub retry_after_seconds : Option ℕ

unfoldable pub judge_recent : ℕ → ℕ → ℕ → List ℕ → Check
unfolding wait_seconds
judge_recent limit window_ms now [] = record {
  allowed = ltb 0 limit;
  retry_after_seconds = if ltb 0 limit then some 0 else none;
}
judge_recent limit window_ms now (first ∷ rest) =
    let allowed = ltb (length (first ∷ rest)) limit in
    record {
      allowed = allowed;
      retry_after_seconds = some (if allowed then 0 else wait_seconds window_ms now first);
    }

-- check(client,username)
unfoldable pub check : String → ℕ → Limiter → Check × Limiter
unfolding recent judge_recent
check key now l =
    let left = recent l key now in
    (
      judge_recent l.limit l.window_ms now left,
      record l {
        failures = elim left [ [] ↦ remove key l.failures | v ∷ vs ↦ put key (v ∷ vs) l.failures ];
      },
    )

-- recordFailure(client,username)
unfoldable pub record_failure : String → ℕ → Limiter → Limiter
unfolding recent
record_failure key now l = record l { failures = put key (recent l key now ++ now ∷ []) l.failures }

-- reset(client,username)
unfoldable pub reset : String → Limiter → Limiter
reset key l = record l { failures = remove key l.failures }
