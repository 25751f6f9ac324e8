-- ===== src/Identity/Codes.antt =====
-- What an accepted one-time password is worth.
use nuvrion.Common.{
  ℕ, zero, suc, ◌+◌, ◌-◌, ◌*◌, ◌≤◌, ◌<◌, ◌≡◌, refl, true, ◌&&◌, not, inl, inr, Option, none, some,
  List, [], ◌∷◌, arith, is_some, ltb, Option-cases, if◌then◌else◌,
}
use nuvrion.Identity.Base32.{base32_decode}
use nuvrion.Identity.Totp.{
  Platform, hotp, code_digits, time_step, same_text, normalise_code, match_steps, rejected,
  accepted, judge_step, verify_totp,
}

same_text-eq : (a b : List ℕ) → same_text a b ≡ true → a ≡ b
unfolding same_text
same_text-eq [] [] h = refl
same_text-eq [] (b ∷ bs) h = cc
same_text-eq (a ∷ as') [] h = cc
same_text-eq (a ∷ as') (b ∷ bs) h = ground (arith, same_text-eq as' bs)

-- A step that may be accepted: later than 0, at most `window` steps from now, with the wanted code.
pub record Matches (code_at : ℕ → List ℕ) (wanted : List ℕ) (now window step : ℕ) : Type 0 where
  pub after_zero : 0 < step
  pub not_early : now ≤ step + window
  pub not_late : step ≤ now + window
  pub same : code_at step ≡ wanted

match_steps-Matches :
    (code_at : ℕ → List ℕ) (wanted : List ℕ) (now window n k step : ℕ) (matched : Option ℕ)
    → k + n ≤ 2 * window + 1
    → ((s : ℕ) → matched ≡ some s → Matches code_at wanted now window s)
    → match_steps code_at wanted now window n k matched ≡ some step
    → Matches code_at wanted now window step
unfolding match_steps
match_steps-Matches code_at wanted now window zero k step matched h m e = m step e
match_steps-Matches code_at wanted now window (suc n) k step matched h m e =
    match_steps-Matches code_at wanted now window n (k + 1) step _ (omega arith) next e
  where
    next :
        (s : ℕ)
        → (if ltb window (now + k)
              && (same_text (code_at (now + k - window)) wanted && not (is_some matched))
            then some (now + k - window)
            else matched)
          ≡ some s
        → Matches code_at wanted now window s
    next s q = ground (arith, same_text-eq (code_at (now + k - window)) wanted, m s)

-- An accepted code is the code of the accepted step, which is later than the last one used and at most
-- `window` steps from the current one.
pub verify_totp-accepted :
    (platform : Platform) (secret code : List ℕ) (time_ms last_step window step : ℕ)
    → verify_totp platform secret code time_ms last_step window ≡ accepted step
    → (bytes wanted : List ℕ) × (base32_decode platform.upper secret ≡ some bytes)
      × (normalise_code code ≡ some wanted)
      × (last_step < step)
      × Matches (λ s. hotp platform bytes s code_digits) wanted (time_step time_ms) window step
unfolding verify_totp judge_step
verify_totp-accepted platform secret code time_ms last_step window step e =
    elim (Option-cases (normalise_code code)) [
      | inl n ↦ absurd (ground arith)
      | inr (wanted, n) ↦ elim (Option-cases (base32_decode platform.upper secret)) [
        | inl b ↦ absurd (ground arith)
        | inr (bytes, b) ↦
            elim (Option-cases (
              match_steps (λ s. hotp platform bytes s code_digits) wanted (time_step time_ms) window
                (2 * window + 1) 0 none)) [
                  | inl f ↦ absurd (ground arith)
                  | inr (found, f) ↦ (
                    bytes,
                    wanted,
                    b,
                    n,
                    ground arith,
                    match_steps-Matches (λ s. hotp platform bytes s code_digits) wanted
                        (time_step time_ms) window (2 * window + 1) 0 step none (omega arith)
                        (λ s q. cc) (ground arith),
                  )
                ]
      ]
    ]

-- A code works once: when the accepted step is kept as the last one used, the same code is rejected at
-- the same time, also after a later step has been used.
pub verify_totp-again :
    (platform : Platform) (secret code : List ℕ) (time_ms last_step window step later : ℕ)
    → verify_totp platform secret code time_ms last_step window ≡ accepted step
    → step ≤ later
    → verify_totp platform secret code time_ms later window ≡ rejected
unfolding verify_totp judge_step
verify_totp-again platform secret code time_ms last_step window step later e h = ground arith
