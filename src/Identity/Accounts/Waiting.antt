-- ===== src/Identity/Accounts/Waiting.antt =====
-- Methods of modules/identity/src/identity-service.js that verify no session.
use nuvrion.Common.{
  ℕ, ◌≡◌, refl, ap, ◌∙◌, arith, String, Bool, false, ◌&&◌, Option, none, some, str_eq, get, remove,
  truthy, filter_by, All, All-filter_by, Bool-cases, inl, inr,
}
use nuvrion.Identity.Accounts.State.{
  Factor, User, Session, Service, Means, is_verified, keep_user, keep_session, revoke_where,
  revoke_sessions,
}
use nuvrion.Identity.Accounts.Users.{find_user}
use nuvrion.Identity.Accounts.Sessions.{
  rehash, new_session, sign_in, authenticate, touched, seen, session_by_hash, session_at, logout,
  is_over, revoke_session,
}
use nuvrion.Identity.Accounts.Factors.{fail_code}
use nuvrion.Identity.Accounts.Cases.{
  Option-each, if-each, if-either, All-put, All-remove, All-get_entry,
}

-- A session is kept under its identifier, and if that is this one it is not verified.
abbrev pub IsWaiting : String → String × Session → Type 0
IsWaiting k e = (e.1.id_hash ≡ e.0) × ((str_eq e.0 k && is_verified e.1) ≡ false)

abbrev pub Waits : String → Service → Type 0
Waits k s = All (IsWaiting k) s.sessions

module _ (k : String) where
  pub fewer :
      (p : String × Session → Bool) (s : Service)
      → Waits k s
      → All (IsWaiting k) (filter_by p s.sessions)
  fewer p s h = All-filter_by (IsWaiting k) p s.sessions h

  pub revoke_sessions-Waits :
      (id : String) (s : Service) → Waits k s → Waits k (revoke_sessions id s).1
  unfolding revoke_sessions revoke_where
  revoke_sessions-Waits id s h = fewer _ s h

  keep_session-Waits :
      (session : Session) (s : Service)
      → IsWaiting k (session.id_hash, session)
      → Waits k s
      → Waits k (keep_session session s)
  unfolding keep_session
  keep_session-Waits session s a h = All-put (IsWaiting k) session.id_hash session s.sessions a h

  pub own :
      (j : String) (session : Session)
      → IsWaiting k (j, session)
      → IsWaiting k (session.id_hash, session)
  own j session (same, waiting) = (refl, ap (λ i. str_eq i k && is_verified session) same ∙ waiting)

  remove_session-Waits :
      (j : String) (s : Service) → Waits k s → Waits k (record s { sessions = remove j s.sessions })
  remove_session-Waits j s h = All-remove (IsWaiting k) j s.sessions h

  pub revoke_session-Waits :
      (id session_id : String) (s : Service)
      → Waits k s
      → Waits k (revoke_session id session_id s).1
  unfolding revoke_session
  revoke_session-Waits id session_id s h =
      Option-each (Waits k) (get session_id s.sessions) _ _ h
        (λ session e. if-each (Waits k) _ _ _ (remove_session-Waits session_id s h) h)

  -- A wrong code ends the session or leaves it as it was.
  pub fail_code-Waits :
      (u : User) (f : Factor) (session : Option Session) (now : ℕ) (s : Service)
      → ((e : Session) → session ≡ some e → IsWaiting k (e.id_hash, e))
      → Waits k s
      → Waits k (fail_code u f session now s).1
  unfolding fail_code keep_user is_verified
  fail_code-Waits u f none now s a h = h
  fail_code-Waits u f (some session) now s a h =
      if-each (Waits k) _ _ _ (All-remove (IsWaiting k) session.id_hash s.sessions h)
        (All-put (IsWaiting k) session.id_hash _ s.sessions (a session refl) h)

  module _ (means : Means) where
    sign_in-Waits :
        (u : User) (password : String) (now : ℕ) (s : Service)
        → Waits k s
        → Waits k (sign_in means u password now s).1
    unfolding sign_in rehash new_session is_verified keep_user keep_session
    sign_in-Waits u password now s h = elim (Bool-cases (means.needs_rehash u.password_hash)) [
      | inl q ↦ rw q (All-put (IsWaiting k) _ _ s.sessions (refl, ground arith) h)
      | inr q ↦ rw q (All-put (IsWaiting k) _ _ s.sessions (refl, ground arith) h)
    ]

    pub authenticate-Waits :
        (username password : String) (now : ℕ) (s : Service)
        → Waits k s
        → Waits k (authenticate means username password now s).1
    unfolding authenticate
    authenticate-Waits username password now s h =
        Option-each (Waits k) (find_user means username s) _ _ h
          (λ u e. if-each (Waits k) _ _ _ (sign_in-Waits u password now s h) h)

    pub session_at-Waits :
        (token : Option String) (now : ℕ) (s : Service)
        → Waits k s
        → Waits k (session_at means token now s).1
    unfolding session_at session_by_hash seen touched is_verified
    session_at-Waits none now s h = h
    session_at-Waits (some token) now s h =
        if-each (Waits k) (truthy (some token)) _ _
          (Option-each (Waits k) (get (means.sha256 token) s.sessions) _ _ h (λ session e.
            if-each (Waits k) (is_over means session now) _ _ (remove_session-Waits _ s h) (
              keep_session-Waits (touched means session now s) s
                (own _ session (All-get_entry (IsWaiting k) _ s.sessions session h e)) h)))
          h

    pub logout-Waits :
        (token : Option String) (s : Service) → Waits k s → Waits k (logout means token s)
    unfolding logout
    logout-Waits none s h = h
    logout-Waits (some token) s h =
        if-either (Waits k) (truthy (some token)) _ _ (remove_session-Waits _ s h) h
