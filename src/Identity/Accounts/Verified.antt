-- ===== src/Identity/Accounts/Verified.antt =====
-- Which calls of modules/identity/src/identity-service.js verify a session.
use nuvrion.Common.{ℕ, String, List, [], ◌∷◌, ◌⊎◌, inl, inr}
use nuvrion.Identity.Accounts.State.{Service, Means}
use nuvrion.Identity.Accounts.Guarantees.{
  Call, creates_user, updates_user, signs_in, asks_session, logs_out, ends_sessions, ends_session,
  rotates_code, resets_password, changes_password, sets_password, starts_factor, resets_factor,
  turns_off_factor, confirms_factor, verifies_factor, renews_codes, disables_factor, creates_role,
  updates_role, deletes_role, step, run,
}
use nuvrion.Identity.Accounts.Waiting.{
  Waits, revoke_sessions-Waits, revoke_session-Waits, authenticate-Waits, session_at-Waits,
  logout-Waits,
}
use nuvrion.Identity.Accounts.Steady.{
  mfa_reset-Waits, mfa_turn_off-Waits, delete_role-Waits, update_user-Waits,
  rotate_recovery_code-Waits, reset_password-Waits, change_password-Waits, set_password-Waits,
  create_user-Waits, mfa_start_enrollment-Waits, mfa_regenerate_backup_codes-Waits,
  mfa_disable-Waits, create_role-Waits, update_role-Waits,
}
use nuvrion.Identity.Accounts.Proven.{Proves, mfa_verify-Waits, mfa_confirm_enrollment-Waits}

module _ (means : Means) (k : String) where
  step-Waits :
      (call : Call) (now : ℕ) (s : Service)
      → Waits k s
      → Waits k (step means call now s) ⊎ Proves means k call now s
  unfolding step
  step-Waits (creates_user request) now s h = inl (create_user-Waits k means request now s h)
  step-Waits (updates_user id status roles required expected) now s h =
      inl (update_user-Waits k id status roles required expected s h)
  step-Waits (signs_in username password) now s h =
      inl (authenticate-Waits k means username password now s h)
  step-Waits (asks_session token) now s h = inl (session_at-Waits k means token now s h)
  step-Waits (logs_out token) now s h = inl (logout-Waits k means token s h)
  step-Waits (ends_sessions id) now s h = inl (revoke_sessions-Waits k id s h)
  step-Waits (ends_session id session_id) now s h = inl (revoke_session-Waits k id session_id s h)
  step-Waits (rotates_code id) now s h = inl (rotate_recovery_code-Waits k means id s h)
  step-Waits (resets_password username code password) now s h =
      inl (reset_password-Waits k means username code password s h)
  step-Waits (changes_password id session_id current password) now s h =
      inl (change_password-Waits k means id session_id current password s h)
  step-Waits (sets_password id password must_change) now s h =
      inl (set_password-Waits k means id password must_change s h)
  step-Waits (starts_factor id) now s h = inl (mfa_start_enrollment-Waits k means id s h)
  step-Waits (resets_factor id) now s h = inl (mfa_reset-Waits k id s h)
  step-Waits (turns_off_factor id) now s h = inl (mfa_turn_off-Waits k id s h)
  step-Waits (confirms_factor id session_id code) now s h =
      mfa_confirm_enrollment-Waits means k id session_id code now s h
  step-Waits (verifies_factor id session_id body) now s h =
      mfa_verify-Waits means k id session_id body now s h
  step-Waits (renews_codes id code) now s h =
      inl (mfa_regenerate_backup_codes-Waits k means id code now s h)
  step-Waits (disables_factor id code) now s h = inl (mfa_disable-Waits k means id code now s h)
  step-Waits (creates_role body) now s h = inl (create_role-Waits k means body s h)
  step-Waits (updates_role name body expected) now s h =
      inl (update_role-Waits k means name body expected s h)
  step-Waits (deletes_role name) now s h = inl (delete_role-Waits k name s h)

  -- One of the calls proves a factor, at its time.
  abbrev pub SomeProves : List (Call × ℕ) → Service → Type 0
  SomeProves [] s = ⊥
  SomeProves ((call, now) ∷ calls) s =
      Proves means k call now s ⊎ SomeProves calls (step means call now s)

  -- After any calls, with times and in whatever order, whether they return or throw: each session is kept under its
  -- identifier, and the one under this identifier is not verified, if that was so before; or one of the calls gave,
  -- for the session with this identifier, a right one-time or backup code of the person whose session it is, or the
  -- right first code of a factor that a person had started, while codes of the person were not locked.
  pub run-Waits :
      (calls : List (Call × ℕ)) (s : Service)
      → Waits k s
      → Waits k (run means calls s) ⊎ SomeProves calls s
  unfolding run
  run-Waits [] s h = inl h
  run-Waits ((call, now) ∷ calls) s h = elim (step-Waits call now s h) [
    | inr proof ↦ inr (inl proof)
    | inl still ↦ elim (run-Waits calls (step means call now s) still) [
      | inl end ↦ inl end
      | inr later ↦ inr (inr later)
    ]
  ]
