-- ===== src/Identity/Accounts/Proving.antt =====
-- Second factors of modules/identity/src/identity-service.js keep everybody's standing.
use nuvrion.Common.{
  ℕ, ◌+◌, ◌≡◌, refl, ◌∙◌, subst, arith, String, Option, none, some, [], ◌∷◌, map, str_eq, get,
  values, leb, Assoc, All, All-get, Bool-cases, Option-cases, inl, inr, if◌then◌else◌,
}
use nuvrion.Identity.Totp.{Verdict, rejected, secret_invalid, accepted}
use nuvrion.Identity.Mfa.{
  Field, Body, after_failure, Answer, request_invalid, secret_unreadable, wrong, totp, backup,
}
use nuvrion.Identity.Accounts.State.{
  Factor, User, Session, Service, Means, is_enrolled, keep_user, session_of,
}
use nuvrion.Identity.Accounts.Factors.{
  set_factor, fail_code, session_failures, verify_only, mfa_start_enrollment, ready_to_confirm,
  confirm, confirmed, drawn_codes, mfa_confirm_enrollment, spent,
}
use nuvrion.Identity.Accounts.Verify.{verified_by, conclude, ready_to_verify, mfa_verify}
use nuvrion.Identity.Accounts.Standing.{
  is_active_at-put, OfActive, Sound, IsVersion, after-Sound, sessions-IsSound,
}
use nuvrion.Identity.Accounts.Keeping.{keep_user-Sound, keep_session-Sound, remove_session-Sound}
use nuvrion.Identity.Accounts.Securing.{with_user}

factor-IsVersion : (mfa : Option Factor) (u : User) → IsVersion u (set_factor mfa u)
unfolding set_factor
factor-IsVersion mfa u = record { same_id = refl; same_status = refl; same_roles = refl }

pub factor-Sound :
    (mfa : Option Factor) (u : User) (s : Service)
    → get u.id s.users ≡ some u
    → Sound s
    → Sound (keep_user (set_factor mfa u) s)
factor-Sound mfa u s e h = keep_user-Sound u (set_factor mfa u) s (factor-IsVersion mfa u) e h

-- A session is of somebody active still when another factor is kept.
factor-OfActive :
    (mfa : Option Factor) (u : User) (s : Service) (session : Session)
    → get u.id s.users ≡ some u
    → OfActive s.users session
    → OfActive (keep_user (set_factor mfa u) s).users session
unfolding keep_user
factor-OfActive mfa u s session e a =
    is_active_at-put u (set_factor mfa u) s.users session.user_id (factor-IsVersion mfa u) e ∙ a

pub fail_code-Sound :
    (u : User) (f : Factor) (session : Option Session) (now : ℕ) (s : Service)
    → get u.id s.users ≡ some u
    → ((e : Session) → session ≡ some e → OfActive s.users e)
    → Sound s
    → Sound (fail_code u f session now s).1
unfolding fail_code
fail_code-Sound u f none now s e a h = factor-Sound _ u s e h
fail_code-Sound u f (some session) now s e a h =
    let failed : Option Factor = some (record f { failures = after_failure f.failures now }) in
    let s' = keep_user (set_factor failed u) s in
    elim (Bool-cases (leb session_failures (session.mfa_failures + 1))) [
      | inl q ↦
          rw (q, fail_code) (remove_session-Sound session.id_hash s' (factor-Sound failed u s e h))
      | inr q ↦
          rw (q, fail_code)
            (keep_session-Sound (record session { mfa_failures = session.mfa_failures + 1 }) s'
              (factor-OfActive failed u s session e (a session refl)) (factor-Sound failed u s e h))
    ]

verify_only-Sound :
    (id session_id : String) (now : ℕ) (s : Service)
    → Sound s
    → Sound (verify_only id session_id now s)
unfolding verify_only values
verify_only-Sound id session_id now s h =
    sessions-IsSound s.users s.sessions _ s.roles (marked s.sessions h.signed_in) h
  where
    marked :
        (m : Assoc Session)
        → All (OfActive s.users) (values m)
        → All (OfActive s.users) (
            values (
              map {B = String × Session}
                (λ e. (
                  e.0,
                  if str_eq e.1.user_id id
                      then record e.1 {
                        mfa_verified_at = if str_eq e.0 session_id then some now else none;
                      }
                      else e.1,
                ))
                m))
    marked [] a = tt
    marked ((k, e) ∷ m) a = elim (Bool-cases (str_eq e.user_id id)) [
      | inl q ↦ rw q (a.0, marked m a.1)
      | inr q ↦ rw q (a.0, marked m a.1)
    ]

module _ (means : Means) where
  pub mfa_start_enrollment-Sound :
      (id : String) (s : Service) → Sound s → Sound (mfa_start_enrollment means id s).1
  unfolding mfa_start_enrollment
  mfa_start_enrollment-Sound id s h =
      with_user id s _ _ h
        (λ u e. elim (Bool-cases (is_enrolled u)) [
          | inl q ↦ rw q h
          | inr q ↦ rw q (factor-Sound _ u s e h)
        ])
        h

  confirm-Sound :
      (u : User) (session_id : String) (f : Factor) (v : Verdict) (now : ℕ) (s : Service)
      → get u.id s.users ≡ some u
      → Sound s
      → Sound (confirm means u session_id f v now s).1
  unfolding confirm
  confirm-Sound u session_id f secret_invalid now s e h = h
  confirm-Sound u session_id f rejected now s e h =
      fail_code-Sound u f none now s e (λ session q. cc) h
  confirm-Sound u session_id f (accepted step) now s e h =
      let s' =
        keep_user (set_factor (some (confirmed means f step (drawn_codes means s) now)) u) s in
      verify_only-Sound u.id session_id now (record s' { drawn = s.drawn + 1 })
        (factor-Sound _ u s e h)

  pub mfa_confirm_enrollment-Sound :
      (id session_id : String) (field : Option Field) (now : ℕ) (s : Service)
      → Sound s
      → Sound (mfa_confirm_enrollment means id session_id field now s).1
  unfolding mfa_confirm_enrollment
  mfa_confirm_enrollment-Sound id session_id field now s h =
      with_user id s _ _ h
        (λ u e.
          after-Sound s (ready_to_confirm means u field now) _ h
            (λ r q. confirm-Sound u session_id r.0 _ now s e h))
        h

  verified_by-Sound :
      (u : User) (session : Session) (f : Factor) (answer : Answer) (now : ℕ) (s : Service)
      → get u.id s.users ≡ some u
      → OfActive s.users session
      → Sound s
      → Sound (verified_by means u session f answer now s)
  unfolding verified_by
  verified_by-Sound u session f answer now s e a h =
      keep_session-Sound (record session { mfa_verified_at = some now; mfa_failures = 0 })
        (keep_user (set_factor (some (spent answer f)) u) s) (factor-OfActive _ u s session e a)
        (factor-Sound _ u s e h)

  conclude-Sound :
      (u : User) (session : Session) (f : Factor) (answer : Answer) (now : ℕ) (s : Service)
      → get u.id s.users ≡ some u
      → OfActive s.users session
      → Sound s
      → Sound (conclude means u session f answer now s).1
  unfolding conclude
  conclude-Sound u session f request_invalid now s e a h = h
  conclude-Sound u session f secret_unreadable now s e a h = h
  conclude-Sound u session f wrong now s e a h =
      fail_code-Sound u f (some session) now s e
        (λ other q. let same : session ≡ other = cc in subst (OfActive s.users) same a) h
  conclude-Sound u session f (totp step) now s e a h =
      verified_by-Sound u session f (totp step) now s e a h
  conclude-Sound u session f (backup hash) now s e a h =
      verified_by-Sound u session f (backup hash) now s e a h

  pub session_of-OfActive :
      (id session_id : String) (s : Service) (session : Session)
      → Sound s
      → session_of id session_id s ≡ some session
      → OfActive s.users session
  unfolding session_of
  session_of-OfActive id session_id s session h e =
      All-get (OfActive s.users) session_id s.sessions session h.signed_in (ground arith)

  pub mfa_verify-Sound :
      (id session_id : String) (body : Body) (now : ℕ) (s : Service)
      → Sound s
      → Sound (mfa_verify means id session_id body now s).1
  unfolding mfa_verify
  mfa_verify-Sound id session_id body now s h =
      with_user id s _ _ h
        (λ u e. elim (Option-cases (session_of id session_id s)) [
          | inl q ↦ rw q h
          | inr (session, q) ↦ rw q (
              after-Sound s (ready_to_verify means u body now) _ h (λ r k.
                conclude-Sound u session r.0 _ now s e
                  (session_of-OfActive id session_id s session h q) h))
        ])
        h
