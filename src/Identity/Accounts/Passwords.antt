-- ===== src/Identity/Accounts/Passwords.antt =====
-- Passwords and recovery codes, of modules/identity/src/identity-service.js.
use nuvrion.Common.{
  ℕ, ◌+◌, String, Bool, false, ◌&&◌, not, Option, none, some, str_eq, get, if◌then◌else◌,
}
use nuvrion.Common.Text.{trim}
use nuvrion.Common.Json.{Json, text}
use nuvrion.Common.Results.{Result, ok, err, refuse_if, ◌>>=◌, ◌>>◌}
use nuvrion.Identity.Accounts.State.{
  User, Service, Means, AccountError, user_not_found, password_incorrect, password_unchanged,
  Outcome, after, keep_user, revoke_where, revoke_sessions,
}
use nuvrion.Identity.Accounts.Users.{password_of, find_user}

module _ (means : Means) where
  -- Another recovery code for a person.
  unfoldable pub rotated : User → Service → String × Service
  unfolding keep_user
  rotated u s = (
    means.token s.drawn,
    record (keep_user (record u { recovery_code_hash = means.sha256 (means.token s.drawn) }) s) {
      drawn = s.drawn + 1;
    },
  )

  -- rotateRecoveryCode(userId)
  unfoldable pub rotate_recovery_code : String → Service → Outcome String
  unfolding rotated
  rotate_recovery_code id s = elim (get id s.users) [
    | none ↦ (err user_not_found, s)
    | some u ↦ (ok (rotated u s).0, (rotated u s).1)
  ]

  -- The given recovery code, trimmed; another value counts as none.
  unfoldable pub recovery_text : Option Json → String
  unfolding trim
  recovery_text (some (text code)) = trim code
  recovery_text _ = ""

  -- resetPassword, for a person whose recovery code was given
  unfoldable pub reset_for : User → Option Json → Service → Outcome (Option String)
  unfolding password_of keep_user revoke_sessions rotated
  reset_for u new_password s = after s (password_of new_password) λ password.
      let u' : User = record u { password_hash = means.hash_password password s.drawn } in
      let kept : Service = record (keep_user u' s) { drawn = s.drawn + 1 } in
      let done = rotated u' (revoke_sessions u.id kept).1 in (ok (some done.0), done.1)

  -- resetPassword(username, recoveryCode, newPassword): a new recovery code
  unfoldable pub reset_password :
      String → Option Json → Option Json → Service → Outcome (Option String)
  unfolding find_user recovery_text reset_for
  reset_password username code new_password s = elim (find_user means username s) [
    | none ↦ (ok none, s)
    | some u ↦
        if not (str_eq (recovery_text code) "")
          && str_eq (means.sha256 (recovery_text code)) u.recovery_code_hash
        then reset_for u new_password s
        else (ok none, s)
  ]

  -- The checks of changePassword: the new password.
  unfoldable pub checked_password : User → Option Json → Option Json → Result AccountError String
  unfolding password_of
  checked_password u (some (text current)) new_password = do
    refuse_if (not (means.password_matches current u.password_hash)) password_incorrect
    password ← password_of new_password
    refuse_if (str_eq password current) password_unchanged
    ok password
  checked_password u _ new_password = err password_incorrect

  -- A person with another password, which they must change or not.
  unfoldable pub with_password : User → String → Bool → Service → Service
  unfolding keep_user
  with_password u password must_change s =
      record (keep_user
        (record u {
          password_hash = means.hash_password password s.drawn;
          must_change_password = must_change;
          row_version = u.row_version + 1;
        })
        s) { drawn = s.drawn + 1 }

  -- changePassword(userId, sessionId, currentPassword, newPassword): how many other sessions ended
  unfoldable pub change_password : String → String → Option Json → Option Json → Service → Outcome ℕ
  unfolding checked_password with_password revoke_where
  change_password id session_id current new_password s = elim (get id s.users) [
    | none ↦ (err user_not_found, s)
    | some u ↦ after s (checked_password u current new_password) λ password.
        let (n, s') =
          revoke_where (λ e. str_eq e.1.user_id id && not (str_eq e.0 session_id))
            (with_password u password false s) in
        (ok n, s')
  ]

  -- setPassword(userId, newPassword, { mustChange }): how many sessions ended
  unfoldable pub set_password : String → Option Json → Bool → Service → Outcome (Option ℕ)
  unfolding password_of with_password revoke_sessions
  set_password id new_password must_change s = elim (get id s.users) [
    | none ↦ (ok none, s)
    | some u ↦ after s (password_of new_password) λ password.
        let (n, s') = revoke_sessions id (with_password u password must_change s) in
        (ok (some n), s')
  ]
