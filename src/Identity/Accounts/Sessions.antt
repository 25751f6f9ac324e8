-- ===== src/Identity/Accounts/Sessions.antt =====
-- Signing in and sessions, of modules/identity/src/identity-service.js.
use nuvrion.Common.{
  ℕ, ◌+◌, String, Bool, false, ◌&&◌, ◌||◌, Option, none, some, List, map, filter_by, str_eq, get,
  values, remove, ltb, truthy, sort_by, if◌then◌else◌,
}
use nuvrion.Identity.Mfa.{State}
use nuvrion.Identity.Accounts.State.{
  User, Session, Service, Means, PublicUser, public_user, mfa_state, keep_user, keep_session,
}
use nuvrion.Identity.Accounts.Users.{is_active, find_user}

-- What authenticate returns.
pub record SignedIn : Type 0 where
  pub token : String
  pub csrf : String
  pub user : PublicUser
  pub state : State
  pub expires_at : ℕ

-- What session returns.
pub record Current : Type 0 where
  pub session : Session
  pub user : PublicUser
  pub state : State

-- What listSessions says of a session.
pub record Listed : Type 0 where
  pub id : String
  pub created_at : ℕ
  pub last_seen_at : ℕ
  pub idle_expires_at : ℕ
  pub absolute_expires_at : ℕ
  pub is_current : Bool

-- Math.min(a, b)
unfoldable pub least : ℕ → ℕ → ℕ
least a b = if ltb b a then b else a

module _ (means : Means) where
  -- The session of a token and a secret against forgery drawn as the n-th and the next.
  unfoldable pub new_session : String → ℕ → ℕ → Service → Session
  new_session user_id n now s = record {
    id_hash = means.sha256 (means.token n);
    user_id = user_id;
    csrf = means.token (n + 1);
    created_at = now;
    last_seen_at = now;
    idle_expires_at = now + s.idle_timeout;
    absolute_expires_at = now + s.absolute_timeout;
    mfa_verified_at = none;
    mfa_failures = 0;
  }

  -- if (needsPasswordRehash(user.passwordHash)) user.passwordHash = hashPassword(password)
  unfoldable pub rehash : User → String → Service → User × Service
  unfolding keep_user
  rehash u password s =
      let u' : User = record u { password_hash = means.hash_password password s.drawn } in
      if means.needs_rehash u.password_hash
      then (u', record (keep_user u' s) { drawn = s.drawn + 1 })
      else (u, s)

  -- Signing in, with the right password.
  unfoldable pub sign_in : User → String → ℕ → Service → Option SignedIn × Service
  unfolding rehash new_session keep_session public_user mfa_state
  sign_in user password now s =
      let (u, s') = rehash user password s in
      let session = new_session u.id s'.drawn now s' in
      (
        some (record {
          token = means.token s'.drawn;
          csrf = session.csrf;
          user = public_user s' u;
          state = mfa_state u session;
          expires_at = session.idle_expires_at;
        }),
        record (keep_session session s') { drawn = s'.drawn + 2 },
      )

  -- authenticate(username, password)
  unfoldable pub authenticate : String → String → ℕ → Service → Option SignedIn × Service
  unfolding find_user is_active sign_in
  authenticate username password now s = elim (find_user means username s) [
    | none ↦ (none, s)
    | some u ↦
        if is_active u && means.password_matches password u.password_hash
        then sign_in u password now s
        else (none, s)
  ]

  unfoldable pub touched : Session → ℕ → Service → Session
  unfolding least
  touched session now s = record session {
    last_seen_at = now;
    idle_expires_at = least (now + s.idle_timeout) session.absolute_expires_at;
  }

  -- now > session.idleExpiresAt || now > session.absoluteExpiresAt
  unfoldable pub is_over : Session → ℕ → Bool
  is_over session now = ltb session.idle_expires_at now || ltb session.absolute_expires_at now

  -- The session of a hash, seen now.
  unfoldable pub seen : Session → ℕ → Service → Option Current × Service
  unfolding touched keep_session public_user mfa_state
  seen session now s =
      let session' = touched session now s in
      let s' = keep_session session' s in
      (
        elim (get session.user_id s.users) [
          | none ↦ none
          | some u ↦
              some (record {
                session = session';
                user = public_user s' u;
                state = mfa_state u session';
              })
        ],
        s',
      )

  unfoldable pub session_by_hash : String → ℕ → Service → Option Current × Service
  unfolding is_over seen
  session_by_hash hash now s = elim (get hash s.sessions) [
    | none ↦ (none, s)
    | some session ↦
        if is_over session now
        then (none, record s { sessions = remove hash s.sessions })
        else seen session now s
  ]

  -- session(token)
  unfoldable pub session_at : Option String → ℕ → Service → Option Current × Service
  unfolding session_by_hash
  session_at none now s = (none, s)
  session_at (some token) now s =
      if truthy (some token) then session_by_hash (means.sha256 token) now s else (none, s)

  -- logout(token)
  unfoldable pub logout : Option String → Service → Service
  logout none s = s
  logout (some token) s =
      if truthy (some token)
      then record s { sessions = remove (means.sha256 token) s.sessions }
      else s

  -- listSessions(userId, currentToken), the last seen first
  unfoldable pub list_sessions : String → Option String → ℕ → Service → List Listed
  unfolding values sort_by
  list_sessions user_id current now s =
      let hash =
        if truthy current
        then (elim current [ none ↦ none | some token ↦ some (means.sha256 token) ])
        else none in
      sort_by (λ a b. ltb a.last_seen_at b.last_seen_at)
        (map
          (λ session. record {
            id = session.id_hash;
            created_at = session.created_at;
            last_seen_at = session.last_seen_at;
            idle_expires_at = session.idle_expires_at;
            absolute_expires_at = session.absolute_expires_at;
            is_current = elim hash [ none ↦ false | some h ↦ str_eq session.id_hash h ];
          })
          (filter_by
            (λ session.
              str_eq session.user_id user_id
              && (ltb now session.idle_expires_at && ltb now session.absolute_expires_at))
            (values s.sessions)))

-- revokeSession(userId, sessionId)
unfoldable pub revoke_session : String → String → Service → ℕ × Service
revoke_session user_id session_id s = elim (get session_id s.sessions) [
  | none ↦ (0, s)
  | some session ↦
      if str_eq session.user_id user_id
      then (1, record s { sessions = remove session_id s.sessions })
      else (0, s)
]
