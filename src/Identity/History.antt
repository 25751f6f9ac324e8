-- ===== src/Identity/History.antt =====
-- Histories of sign-ins, and what the limiter of login-rate-limiter.js holds after one.
use nuvrion.Common.{
  ℕ, ◌+◌, ◌≤◌, ◌≡◌, refl, String, List, [], ◌∷◌, ◌++◌, arith, filter_by, or_else, ltb, get, str_eq,
  if◌then◌else◌,
}
use nuvrion.Identity.RateLimiter.{Limiter, check, record_failure, reset}

-- What happened under a key, and when.
pub data Event : Type 0 where
  checked failed was_reset : String → ℕ → Event

abbrev pub time_of : Event → ℕ
time_of (checked k t) = t
time_of (failed k t) = t
time_of (was_reset k t) = t

unfoldable pub apply : Event → Limiter → Limiter
apply (checked k t) l = (check k t l).1
apply (failed k t) l = record_failure k t l
apply (was_reset k t) l = reset k l

-- The limiter after these events, the latest first.
unfoldable pub after : ℕ → ℕ → List Event → Limiter
after limit window_ms [] = record { failures = []; limit = limit; window_ms = window_ms }
after limit window_ms (e ∷ es) = apply e (after limit window_ms es)

-- The times of all failures under a key since its last reset, the earliest first.
unfoldable pub failures_of : String → List Event → List ℕ
failures_of key [] = []
failures_of key (checked k t ∷ es) = failures_of key es
failures_of key (failed k t ∷ es) =
    let rest = failures_of key es in if str_eq k key then rest ++ t ∷ [] else rest
failures_of key (was_reset k t ∷ es) =
    let rest = failures_of key es in if str_eq k key then [] else rest

-- The events stand in the order of their times, none after `now`.
unfoldable pub UpTo : ℕ → List Event → Type 0
UpTo now [] = Unit
UpTo now (e ∷ es) = (time_of e ≤ now) × UpTo (time_of e) es

-- Those of the times that a window that ends at `now` holds.
abbrev pub within : ℕ → ℕ → List ℕ → List ℕ
within window_ms now = filter_by (λ t. ltb now (t + window_ms))

pub within-within :
    (window_ms m now : ℕ) (ts : List ℕ)
    → m ≤ now
    → within window_ms now (within window_ms m ts) ≡ within window_ms now ts
within-within window_ms m now [] h = refl
within-within window_ms m now (t ∷ ts) h = ground (arith, within-within window_ms m now ts h)

pub within-snoc :
    (window_ms m now t : ℕ) (ts : List ℕ)
    → m ≤ now
    → within window_ms now (within window_ms m ts ++ t ∷ []) ≡ within window_ms now (ts ++ t ∷ [])
within-snoc window_ms m now t [] h = refl
within-snoc window_ms m now t (x ∷ ts) h = ground (arith, within-snoc window_ms m now t ts h)

pub UpTo-le : (m now : ℕ) (es : List Event) → m ≤ now → UpTo m es → UpTo now es
unfolding UpTo
UpTo-le m now [] h u = tt
UpTo-le m now (e ∷ es) h u = (omega (arith, u.0), u.1)

pub after-window_ms :
    (limit window_ms : ℕ) (es : List Event) → (after limit window_ms es).window_ms ≡ window_ms
unfolding after apply check record_failure reset
after-window_ms limit window_ms [] = refl
after-window_ms limit window_ms (checked k t ∷ es) = after-window_ms limit window_ms es
after-window_ms limit window_ms (failed k t ∷ es) = after-window_ms limit window_ms es
after-window_ms limit window_ms (was_reset k t ∷ es) = after-window_ms limit window_ms es

pub after-limit : (limit window_ms : ℕ) (es : List Event) → (after limit window_ms es).limit ≡ limit
unfolding after apply check record_failure reset
after-limit limit window_ms [] = refl
after-limit limit window_ms (checked k t ∷ es) = after-limit limit window_ms es
after-limit limit window_ms (failed k t ∷ es) = after-limit limit window_ms es
after-limit limit window_ms (was_reset k t ∷ es) = after-limit limit window_ms es

-- What the limiter holds under a key.
abbrev pub kept : String → Limiter → List ℕ
kept key l = or_else (get key l.failures) []
