-- ===== src/Identity/Accounts/Guarantees.antt =====
-- Any history of calls of modules/identity/src/identity-service.js, from its constructor on.
use nuvrion.Common.{ℕ, ◌+◌, ◌≡◌, String, Bool, Option, none, List, [], ◌∷◌, get}
use nuvrion.Common.Json.{Json}
use nuvrion.Common.Results.{ok}
use nuvrion.Identity.Mfa.{Field, Body}
use nuvrion.Identity.Accounts.State.{Service, Means, PublicUser, revoke_sessions}
use nuvrion.Identity.Accounts.Users.{NewUser, create_user, update_user, new_service}
use nuvrion.Identity.Accounts.Sessions.{authenticate, session_at, logout, revoke_session}
use nuvrion.Identity.Accounts.Passwords.{
  rotate_recovery_code, reset_password, change_password, set_password,
}
use nuvrion.Identity.Accounts.Factors.{mfa_start_enrollment, mfa_confirm_enrollment}
use nuvrion.Identity.Accounts.Verify.{
  mfa_verify, mfa_regenerate_backup_codes, mfa_disable, mfa_reset, mfa_turn_off,
}
use nuvrion.Identity.Accounts.RoleAdmin.{create_role, update_role, delete_role}
use nuvrion.Identity.Accounts.Standing.{Sound}
use nuvrion.Identity.Accounts.Keeping.{
  authenticate-Sound, session_at-Sound, logout-Sound, revoke_sessions-Sound,
}
use nuvrion.Identity.Accounts.Securing.{
  revoke_session-Sound, rotate_recovery_code-Sound, change_password-Sound, set_password-Sound,
  reset_password-Sound,
}
use nuvrion.Identity.Accounts.Proving.{
  mfa_start_enrollment-Sound, mfa_confirm_enrollment-Sound, mfa_verify-Sound,
}
use nuvrion.Identity.Accounts.Resetting.{
  mfa_regenerate_backup_codes-Sound, mfa_disable-Sound, mfa_reset-Sound, mfa_turn_off-Sound,
}
use nuvrion.Identity.Accounts.Managing.{create_user-Sound}
use nuvrion.Identity.Accounts.Founding.{new_service-Sound}
use nuvrion.Identity.Accounts.Changing.{
  update_user-Sound, create_role-Sound, update_role-Sound, delete_role-Sound,
}

-- The calls that change the state.
pub data Call : Type 0 where
  creates_user : NewUser → Call
  updates_user : (id : String) (status roles required : Option Json) (expected : ℕ) → Call
  signs_in : (username password : String) → Call
  asks_session logs_out : Option String → Call
  ends_sessions : (id : String) → Call
  ends_session : (id session_id : String) → Call
  rotates_code : (id : String) → Call
  resets_password : (username : String) (code password : Option Json) → Call
  changes_password : (id session_id : String) (current password : Option Json) → Call
  sets_password : (id : String) (password : Option Json) (must_change : Bool) → Call
  starts_factor resets_factor turns_off_factor : (id : String) → Call
  confirms_factor : (id session_id : String) (code : Option Field) → Call
  verifies_factor : (id session_id : String) (body : Body) → Call
  renews_codes disables_factor : (id : String) (code : Option Field) → Call
  creates_role : (body : Option Json) → Call
  updates_role : (name : String) (body : Option Json) (expected : ℕ) → Call
  deletes_role : (name : String) → Call

module _ (means : Means) where
  -- The state after a call at a time, whether it returns or throws.
  unfoldable pub step : Call → ℕ → Service → Service
  step (creates_user request) now s = (create_user means request now s).1
  step (updates_user id status roles required expected) now s =
      (update_user id status roles required expected s).1
  step (signs_in username password) now s = (authenticate means username password now s).1
  step (asks_session token) now s = (session_at means token now s).1
  step (logs_out token) now s = logout means token s
  step (ends_sessions id) now s = (revoke_sessions id s).1
  step (ends_session id session_id) now s = (revoke_session id session_id s).1
  step (rotates_code id) now s = (rotate_recovery_code means id s).1
  step (resets_password username code password) now s =
      (reset_password means username code password s).1
  step (changes_password id session_id current password) now s =
      (change_password means id session_id current password s).1
  step (sets_password id password must_change) now s =
      (set_password means id password must_change s).1
  step (starts_factor id) now s = (mfa_start_enrollment means id s).1
  step (resets_factor id) now s = (mfa_reset id s).1
  step (turns_off_factor id) now s = (mfa_turn_off id s).1
  step (confirms_factor id session_id code) now s =
      (mfa_confirm_enrollment means id session_id code now s).1
  step (verifies_factor id session_id body) now s = (mfa_verify means id session_id body now s).1
  step (renews_codes id code) now s = (mfa_regenerate_backup_codes means id code now s).1
  step (disables_factor id code) now s = (mfa_disable means id code now s).1
  step (creates_role body) now s = (create_role means body s).1
  step (updates_role name body expected) now s = (update_role means name body expected s).1
  step (deletes_role name) now s = (delete_role name s).1

  -- Calls, each with the time that its clock shows.
  unfoldable pub run : List (Call × ℕ) → Service → Service
  unfolding step
  run [] s = s
  run ((call, now) ∷ calls) s = run calls (step call now s)

  -- A new person would get an identifier that nobody has.
  abbrev pub IsNew : Call → Service → Type 0
  IsNew (creates_user request) s = get (means.uuid (s.drawn + 1)) s.users ≡ none
  IsNew _ s = Unit

  abbrev pub AllNew : List (Call × ℕ) → Service → Type 0
  AllNew [] s = Unit
  AllNew ((call, now) ∷ calls) s = IsNew call s × AllNew calls (step call now s)

  step-Sound :
      (call : Call) (now : ℕ) (s : Service) → IsNew call s → Sound s → Sound (step call now s)
  unfolding step
  step-Sound (creates_user request) now s n h = create_user-Sound means request now s n h
  step-Sound (updates_user id status roles required expected) now s n h =
      update_user-Sound id status roles required expected s h
  step-Sound (signs_in username password) now s n h =
      authenticate-Sound means username password now s h
  step-Sound (asks_session token) now s n h = session_at-Sound means token now s h
  step-Sound (logs_out token) now s n h = logout-Sound means token s h
  step-Sound (ends_sessions id) now s n h = revoke_sessions-Sound id s h
  step-Sound (ends_session id session_id) now s n h = revoke_session-Sound id session_id s h
  step-Sound (rotates_code id) now s n h = rotate_recovery_code-Sound means id s h
  step-Sound (resets_password username code password) now s n h =
      reset_password-Sound means username code password s h
  step-Sound (changes_password id session_id current password) now s n h =
      change_password-Sound means id session_id current password s h
  step-Sound (sets_password id password must_change) now s n h =
      set_password-Sound means id password must_change s h
  step-Sound (starts_factor id) now s n h = mfa_start_enrollment-Sound means id s h
  step-Sound (resets_factor id) now s n h = mfa_reset-Sound id s h
  step-Sound (turns_off_factor id) now s n h = mfa_turn_off-Sound id s h
  step-Sound (confirms_factor id session_id code) now s n h =
      mfa_confirm_enrollment-Sound means id session_id code now s h
  step-Sound (verifies_factor id session_id body) now s n h =
      mfa_verify-Sound means id session_id body now s h
  step-Sound (renews_codes id code) now s n h =
      mfa_regenerate_backup_codes-Sound means id code now s h
  step-Sound (disables_factor id code) now s n h = mfa_disable-Sound means id code now s h
  step-Sound (creates_role body) now s n h = create_role-Sound means body s h
  step-Sound (updates_role name body expected) now s n h =
      update_role-Sound means name body expected s h
  step-Sound (deletes_role name) now s n h = delete_role-Sound name s h

  run_from-Sound :
      (calls : List (Call × ℕ)) (s : Service) → AllNew calls s → Sound s → Sound (run calls s)
  unfolding run
  run_from-Sound [] s n h = h
  run_from-Sound ((call, now) ∷ calls) s n h =
      run_from-Sound calls (step call now s) n.1 (step-Sound call now s n.0 h)

  -- After any calls to a service that was just made, with times and in whatever order, whether they return or throw:
  -- people are kept under their identifiers, each has only roles that there are, every session is of somebody who is
  -- there and active, and somebody active is a platform administrator; if a new person never gets an identifier that
  -- another has.
  pub run-Sound :
      (password : String) (idle absolute now : ℕ) (first : PublicUser × String)
      (calls : List (Call × ℕ))
      → (new_service means password idle absolute now).0 ≡ ok first
      → AllNew calls (new_service means password idle absolute now).1
      → Sound (run calls (new_service means password idle absolute now).1)
  run-Sound password idle absolute now first calls e n =
      run_from-Sound calls (new_service means password idle absolute now).1 n
        (new_service-Sound means password idle absolute now first e)
