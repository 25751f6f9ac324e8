-- ===== src/Identity/Accounts/Verify.antt =====
-- Proving a second factor in modules/identity/src/identity-service.js, and giving it up.
use nuvrion.Common.{
  ℕ, ◌+◌, String, Bool, false, Option, none, some, List, [], get, length, is_some, if◌then◌else◌,
}
use nuvrion.Common.Results.{Result, ok, err, ◌>>=◌, ◌>>◌}
use nuvrion.Identity.Mfa.{
  Field, Body, object, bad_request, code, backup_code, check_input, Answer, request_invalid,
  secret_unreadable, wrong, totp, backup, evaluate, after_success,
}
use nuvrion.Identity.Accounts.State.{
  Factor, User, Session, Service, Means, AccountError, user_not_found, code_invalid, not_enrolled,
  required_for_account, request_refused, secret_refused, Outcome, after, keep_user, keep_session,
  revoke_sessions, session_of,
}
use nuvrion.Identity.Accounts.Factors.{
  enabled_factor, set_factor, fail_code, unlocked, spent, hash_codes, secret_of, drawn_codes,
}

module _ (means : Means) where
  unfoldable pub verified_by : User → Session → Factor → Answer → ℕ → Service → Service
  unfolding spent keep_user keep_session set_factor
  verified_by u session f answer now s =
      keep_session (record session { mfa_verified_at = some now; mfa_failures = 0 })
        (keep_user (set_factor (some (spent answer f)) u) s)

  -- What an answer does to a person and a session.
  unfoldable pub conclude : User → Session → Factor → Answer → ℕ → Service → Outcome ℕ
  unfolding verified_by fail_code spent
  conclude u session f request_invalid now s = (err request_refused, s)
  conclude u session f secret_unreadable now s = (err secret_refused, s)
  conclude u session f wrong now s =
      let (reason, s') = fail_code u f (some session) now s in (err reason, s')
  conclude u session f (totp step) now s =
      (ok (length (spent (totp step) f).backup_hashes), verified_by u session f (totp step) now s)
  conclude u session f (backup hash) now s = (
    ok (length (spent (backup hash) f).backup_hashes),
    verified_by u session f (backup hash) now s,
  )

  -- checkInput(input), whose error is thrown
  unfoldable pub checked_body : Body → Result AccountError (Unit {0})
  unfolding check_input
  checked_body body = elim (check_input body) [
    | bad_request ↦ err request_refused
    | code t ↦ ok tt
    | backup_code t ↦ ok tt
  ]

  -- The checks of mfaVerify: the factor and its secret.
  unfoldable pub ready_to_verify : User → Body → ℕ → Result AccountError (Factor × List ℕ)
  unfolding enabled_factor checked_body unlocked secret_of
  ready_to_verify u body now = elim (enabled_factor u) [
    | none ↦ err not_enrolled
    | some f ↦ do checked_body body; unlocked f now; secret ← secret_of means u f; ok (f, secret)
  ]

  unfoldable pub answer_for : Factor → List ℕ → Body → ℕ → Answer
  unfolding evaluate
  answer_for f secret body now = evaluate means.otp secret f.last_step f.backup_hashes body now

  -- mfaVerify(userId, sessionId, input): how many backup codes are left
  unfoldable pub mfa_verify : String → String → Body → ℕ → Service → Outcome ℕ
  unfolding session_of ready_to_verify answer_for conclude
  mfa_verify id session_id body now s = elim (get id s.users) [
    | none ↦ (err user_not_found, s)
    | some u ↦ elim (session_of id session_id s) [
      | none ↦ (err user_not_found, s)
      | some session ↦
          after s (ready_to_verify u body now)
            λ (r : Factor × List ℕ). conclude u session r.0 (answer_for r.0 r.1 body now) now s
    ]
  ]

  -- What the answer of #proveFactor leaves: the person.
  unfoldable pub prove : User → Factor → Answer → ℕ → Service → Outcome (User × Factor)
  unfolding fail_code spent keep_user set_factor
  prove u f request_invalid now s = (err request_refused, s)
  prove u f secret_unreadable now s = (err secret_refused, s)
  prove u f wrong now s = let (reason, s') = fail_code u f none now s in (err reason, s')
  prove u f (totp step) now s =
      let f' : Factor = record f { last_step = step; failures = after_success } in
      (ok (set_factor (some f') u, f'), keep_user (set_factor (some f') u) s)
  -- a code alone has no such answer
  prove u f (backup hash) now s = (err code_invalid, s)

  -- #proveFactor(userId, code)
  unfoldable pub prove_factor : String → Option Field → ℕ → Service → Outcome (User × Factor)
  unfolding ready_to_verify prove evaluate
  prove_factor id field now s = elim (get id s.users) [
    | none ↦ (err user_not_found, s)
    | some u ↦ after s (ready_to_verify u (object field none) now) λ (r : Factor × List ℕ).
        prove u r.0 (evaluate means.otp r.1 r.0.last_step [] (object field none) now) now s
  ]

  unfoldable pub with_new_codes : User → Factor → Service → Outcome (List (List ℕ))
  unfolding drawn_codes hash_codes keep_user set_factor
  with_new_codes u f s = (
    ok (drawn_codes means s),
    record (keep_user
        (set_factor (some (record f { backup_hashes = hash_codes means (drawn_codes means s) })) u)
        s) { drawn = s.drawn + 1 },
  )

  -- mfaRegenerateBackupCodes(userId, code)
  unfoldable pub mfa_regenerate_backup_codes :
      String → Option Field → ℕ → Service → Outcome (List (List ℕ))
  unfolding prove_factor with_new_codes
  mfa_regenerate_backup_codes id field now s =
      let (r, s') = prove_factor id field now s in
      after s' r λ (p : User × Factor). with_new_codes p.0 p.1 s'

  -- mfaDisable(userId, code)
  unfoldable pub mfa_disable : String → Option Field → ℕ → Service → Outcome (Unit {0})
  unfolding prove_factor keep_user set_factor
  mfa_disable id field now s =
      let (r, s') = prove_factor id field now s in
      after s' r λ (p : User × Factor).
        if p.0.mfa_required
        then (err required_for_account, s')
        else (ok tt, keep_user (set_factor none p.0) s')

-- mfaReset(userId): whether there was a factor
unfoldable pub mfa_reset : String → Service → Option Bool × Service
unfolding keep_user revoke_sessions set_factor
mfa_reset id s = elim (get id s.users) [
  | none ↦ (none, s)
  | some u ↦ (some (is_some u.mfa), (revoke_sessions id (keep_user (set_factor none u) s)).1)
]

-- mfaTurnOff(userId): whether there was a factor, and whether it was required
unfoldable pub mfa_turn_off : String → Service → Option (Bool × Bool) × Service
unfolding keep_user
mfa_turn_off id s = elim (get id s.users) [
  | none ↦ (none, s)
  | some u ↦ (
    some (is_some u.mfa, u.mfa_required),
    keep_user
        (record u {
          mfa = none;
          mfa_required = false;
          row_version = if u.mfa_required then u.row_version + 1 else u.row_version;
        })
        s,
  )
]
