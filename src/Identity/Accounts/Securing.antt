-- ===== src/Identity/Accounts/Securing.antt =====
-- Passwords and second factors of modules/identity/src/identity-service.js keep everybody's standing.
use nuvrion.Common.{
  ◌≡◌, refl, String, Bool, false, ◌+◌, ◌&&◌, not, Option, none, some, str_eq, get, get-find_by,
  get-put_self, Bool-cases, Option-cases, inl, inr,
}
use nuvrion.Common.Json.{Json}
use nuvrion.Identity.Accounts.State.{User, Service, Means, keep_user, revoke_where, revoke_sessions}
use nuvrion.Identity.Accounts.Users.{find_user, password_of}
use nuvrion.Identity.Accounts.Sessions.{revoke_session}
use nuvrion.Identity.Accounts.Passwords.{
  rotated, rotate_recovery_code, reset_for, reset_password, checked_password, with_password,
  change_password, set_password, recovery_text,
}
use nuvrion.Identity.Accounts.Standing.{Sound, after-Sound}
use nuvrion.Identity.Accounts.Keeping.{
  found, keep_user-Sound, revoke_where-Sound, revoke_sessions-Sound, remove_session-Sound,
}

pub revoke_session-Sound :
    (id session_id : String) (s : Service) → Sound s → Sound (revoke_session id session_id s).1
unfolding revoke_session
revoke_session-Sound id session_id s h = elim (Option-cases (get session_id s.sessions)) [
  | inl e ↦ rw (e, revoke_session) h
  | inr (session, e) ↦ elim (Bool-cases (str_eq session.user_id id)) [
    | inl q ↦ rw (e, revoke_session, q) (remove_session-Sound session_id s h)
    | inr q ↦ rw (e, revoke_session, q) h
  ]
]

-- A method that does nothing without the person.
pub with_user :
    {A : Type 0} (id : String) (s : Service) (absent : A × Service) (next : User → A × Service)
    → Sound absent.1
    → ((u : User) → get u.id s.users ≡ some u → Sound (next u).1)
    → Sound s
    → Sound (elim (get id s.users) as (λ _. A × Service) [ none ↦ absent | some u ↦ next u ]).1
with_user id s absent next a f h = elim (Option-cases (get id s.users)) [
  | inl e ↦ rw e a
  | inr (u, e) ↦ rw e (f u (found id s u h e))
]

module _ (means : Means) where
  rotated-Sound :
      (u : User) (s : Service) → get u.id s.users ≡ some u → Sound s → Sound (rotated means u s).1
  unfolding rotated
  rotated-Sound u s e h =
      keep_user-Sound u _ s (record { same_id = refl; same_status = refl; same_roles = refl }) e h

  pub rotate_recovery_code-Sound :
      (id : String) (s : Service) → Sound s → Sound (rotate_recovery_code means id s).1
  unfolding rotate_recovery_code
  rotate_recovery_code-Sound id s h = with_user id s _ _ h (λ u e. rotated-Sound u s e h) h

  with_password-Sound :
      (u : User) (password : String) (must : Bool) (s : Service)
      → get u.id s.users ≡ some u
      → Sound s
      → Sound (with_password means u password must s)
  unfolding with_password
  with_password-Sound u password must s e h =
      keep_user-Sound u _ s (record { same_id = refl; same_status = refl; same_roles = refl }) e h

  pub change_password-Sound :
      (id session_id : String) (current new_password : Option Json) (s : Service)
      → Sound s
      → Sound (change_password means id session_id current new_password s).1
  unfolding change_password
  change_password-Sound id session_id current new_password s h =
      with_user id s _ _ h
        (λ u e. after-Sound s (checked_password means u current new_password) _ h (λ password q.
          revoke_where-Sound _ (with_password means u password false s)
            (with_password-Sound u password false s e h)))
        h

  pub set_password-Sound :
      (id : String) (new_password : Option Json) (must : Bool) (s : Service)
      → Sound s
      → Sound (set_password means id new_password must s).1
  unfolding set_password
  set_password-Sound id new_password must s h =
      with_user id s _ _ h
        (λ u e. after-Sound s (password_of new_password) _ h (λ password q.
          revoke_sessions-Sound id (with_password means u password must s)
            (with_password-Sound u password must s e h)))
        h

  reset_for-Sound :
      (u : User) (new_password : Option Json) (s : Service)
      → get u.id s.users ≡ some u
      → Sound s
      → Sound (reset_for means u new_password s).1
  unfolding reset_for keep_user revoke_where revoke_sessions
  reset_for-Sound u new_password s e h = after-Sound s (password_of new_password) _ h (λ password q.
      let u' : User = record u { password_hash = means.hash_password password s.drawn } in
      let kept : Service = record (keep_user u' s) { drawn = s.drawn + 1 } in
      rotated-Sound u' (revoke_sessions u.id kept).1 (get-put_self u.id u' s.users) (
        revoke_sessions-Sound u.id kept (
          keep_user-Sound u u' s (record { same_id = refl; same_status = refl; same_roles = refl })
            e h)))

  pub reset_password-Sound :
      (username : String) (code new_password : Option Json) (s : Service)
      → Sound s
      → Sound (reset_password means username code new_password s).1
  unfolding reset_password find_user
  reset_password-Sound username code new_password s h =
      elim (Option-cases (find_user means username s)) [
        | inl e ↦ rw (e, reset_password) h
        | inr (u, e) ↦
            elim (Bool-cases (
              not (str_eq (recovery_text means code) "")
              && str_eq (means.sha256 (recovery_text means code)) u.recovery_code_hash)) [
                | inl q ↦
                    rw (e, reset_password, q)
                      (reset_for-Sound u new_password s
                        (get-find_by (λ w. w.id) _ s.users u h.keyed e) h)
                | inr q ↦ rw (e, reset_password, q) h
              ]
      ]
