-- ===== src/Identity/Accounts/Steady.antt =====
-- Methods of modules/identity/src/identity-service.js on people, passwords, factors and roles, which verify no session.
use nuvrion.Common.{ℕ, String, Bool, Option, none, get}
use nuvrion.Common.Json.{Json}
use nuvrion.Identity.Mfa.{
  Field, object, Answer, request_invalid, secret_unreadable, wrong, totp, backup,
}
use nuvrion.Identity.Accounts.State.{
  Factor, User, Service, Means, is_enrolled, keep_user, revoke_where, revoke_sessions,
}
use nuvrion.Identity.Accounts.Users.{
  NewUser, find_user, is_status_active, create_user, update_user, checked_user, checked_update,
}
use nuvrion.Identity.Accounts.Passwords.{
  rotated, rotate_recovery_code, reset_for, reset_password, checked_password, with_password,
  change_password, set_password,
}
use nuvrion.Identity.Accounts.Users.{password_of}
use nuvrion.Identity.Accounts.Factors.{mfa_start_enrollment}
use nuvrion.Identity.Accounts.Verify.{
  ready_to_verify, prove, prove_factor, with_new_codes, mfa_regenerate_backup_codes, mfa_disable,
  mfa_reset, mfa_turn_off,
}
use nuvrion.Identity.Accounts.RoleAdmin.{
  create_role, update_role, delete_role, checked_role, checked_change, checked_deletion,
}
use nuvrion.Identity.Accounts.Cases.{after-each, Option-each, if-each, if-either}
use nuvrion.Identity.Accounts.Waiting.{Waits, fewer, fail_code-Waits}

module _ (k : String) where
  pub mfa_reset-Waits : (id : String) (s : Service) → Waits k s → Waits k (mfa_reset id s).1
  unfolding mfa_reset keep_user revoke_sessions revoke_where
  mfa_reset-Waits id s h = Option-each (Waits k) (get id s.users) _ _ h (λ u e. fewer k _ s h)

  pub mfa_turn_off-Waits : (id : String) (s : Service) → Waits k s → Waits k (mfa_turn_off id s).1
  unfolding mfa_turn_off keep_user
  mfa_turn_off-Waits id s h = Option-each (Waits k) (get id s.users) _ _ h (λ u e. h)

  pub delete_role-Waits : (name : String) (s : Service) → Waits k s → Waits k (delete_role name s).1
  unfolding delete_role
  delete_role-Waits name s h =
      Option-each (Waits k) (get name s.roles) _ _ h
        (λ role e. after-each (Waits k) s (checked_deletion name role s) _ h (λ done q. h))

  pub update_user-Waits :
      (id : String) (status roles required : Option Json) (expected : ℕ) (s : Service)
      → Waits k s
      → Waits k (update_user id status roles required expected s).1
  unfolding update_user keep_user revoke_sessions revoke_where
  update_user-Waits id status roles required expected s h =
      Option-each (Waits k) (get id s.users) _ _ h (λ u e.
        after-each (Waits k) s (checked_update id u status roles required expected s) _ h
          (λ update q. if-either (Waits k) (is_status_active update.status) _ _ h (fewer k _ s h)))

  module _ (means : Means) where
    pub rotate_recovery_code-Waits :
        (id : String) (s : Service) → Waits k s → Waits k (rotate_recovery_code means id s).1
    unfolding rotate_recovery_code rotated keep_user
    rotate_recovery_code-Waits id s h = Option-each (Waits k) (get id s.users) _ _ h (λ u e. h)

    pub reset_password-Waits :
        (username : String) (code password : Option Json) (s : Service)
        → Waits k s
        → Waits k (reset_password means username code password s).1
    unfolding reset_password reset_for rotated keep_user revoke_sessions revoke_where
    reset_password-Waits username code password s h =
        Option-each (Waits k) (find_user means username s) _ _ h (λ u e.
          if-each (Waits k) _ _ _
            (after-each (Waits k) s (password_of password) _ h (λ p q. fewer k _ s h)) h)

    pub change_password-Waits :
        (id session_id : String) (current password : Option Json) (s : Service)
        → Waits k s
        → Waits k (change_password means id session_id current password s).1
    unfolding change_password with_password keep_user revoke_where
    change_password-Waits id session_id current password s h =
        Option-each (Waits k) (get id s.users) _ _ h (λ u e.
          after-each (Waits k) s (checked_password means u current password) _ h
            (λ p q. fewer k _ s h))

    pub set_password-Waits :
        (id : String) (password : Option Json) (must_change : Bool) (s : Service)
        → Waits k s
        → Waits k (set_password means id password must_change s).1
    unfolding set_password with_password keep_user revoke_sessions revoke_where
    set_password-Waits id password must_change s h =
        Option-each (Waits k) (get id s.users) _ _ h
          (λ u e. after-each (Waits k) s (password_of password) _ h (λ p q. fewer k _ s h))

    pub create_user-Waits :
        (request : NewUser) (now : ℕ) (s : Service)
        → Waits k s
        → Waits k (create_user means request now s).1
    unfolding create_user keep_user
    create_user-Waits request now s h =
        after-each (Waits k) s (checked_user means request now s) _ h (λ u q. h)

    pub mfa_start_enrollment-Waits :
        (id : String) (s : Service) → Waits k s → Waits k (mfa_start_enrollment means id s).1
    unfolding mfa_start_enrollment keep_user
    mfa_start_enrollment-Waits id s h =
        Option-each (Waits k) (get id s.users) _ _ h
          (λ u e. if-each (Waits k) (is_enrolled u) _ _ h h)

    prove_factor-Waits :
        (id : String) (field : Option Field) (now : ℕ) (s : Service)
        → Waits k s
        → Waits k (prove_factor means id field now s).1
    unfolding prove_factor prove keep_user
    prove_factor-Waits id field now s h = Option-each (Waits k) (get id s.users) _ _ h (λ u e.
        after-each (Waits k) s (ready_to_verify means u (object field none) now) _ h
          (λ r q. proved u r.0 _))
      where
        proved :
            (u : User) (f : Factor) (answer : Answer) → Waits k (prove means u f answer now s).1
        proved u f request_invalid = h
        proved u f secret_unreadable = h
        proved u f (backup hash) = h
        proved u f wrong = fail_code-Waits k u f none now s (λ e q. absurd (cc)) h
        proved u f (totp step) = h

    pub mfa_regenerate_backup_codes-Waits :
        (id : String) (field : Option Field) (now : ℕ) (s : Service)
        → Waits k s
        → Waits k (mfa_regenerate_backup_codes means id field now s).1
    unfolding mfa_regenerate_backup_codes with_new_codes keep_user
    mfa_regenerate_backup_codes-Waits id field now s h =
        let still = prove_factor-Waits id field now s h in
        after-each (Waits k) _ (prove_factor means id field now s).0 _ still (λ p q. still)

    pub mfa_disable-Waits :
        (id : String) (field : Option Field) (now : ℕ) (s : Service)
        → Waits k s
        → Waits k (mfa_disable means id field now s).1
    unfolding mfa_disable keep_user
    mfa_disable-Waits id field now s h =
        let still = prove_factor-Waits id field now s h in
        after-each (Waits k) _ (prove_factor means id field now s).0 _ still
          (λ p q. if-each (Waits k) p.0.mfa_required _ _ still still)

    pub create_role-Waits :
        (body : Option Json) (s : Service) → Waits k s → Waits k (create_role means body s).1
    unfolding create_role
    create_role-Waits body s h =
        after-each (Waits k) s (checked_role means body s) _ h (λ role q. h)

    pub update_role-Waits :
        (name : String) (body : Option Json) (expected : ℕ) (s : Service)
        → Waits k s
        → Waits k (update_role means name body expected s).1
    unfolding update_role
    update_role-Waits name body expected s h =
        Option-each (Waits k) (get name s.roles) _ _ h (λ role e.
          after-each (Waits k) s (checked_change means role body expected) _ h (λ request q. h))
