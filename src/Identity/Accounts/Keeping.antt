-- ===== src/Identity/Accounts/Keeping.antt =====
-- Sessions, passwords and second factors of modules/identity/src/identity-service.js keep everybody's standing.
use nuvrion.Common.{
  ℕ, ◌≡◌, refl, sym, ap, ◌∙◌, subst, arith, String, Bool, true, ◌&&◌, Option, none, some, get,
  remove, get-find_by, key_of-get, get-put_self, truthy, Assoc, All-get, All-values-put,
  All-values-remove, Bool-cases, Option-cases, inl, inr,
}
use nuvrion.Identity.Accounts.State.{
  User, Session, Service, Means, keep_user, keep_session, revoke_where, revoke_sessions,
}
use nuvrion.Identity.Accounts.Users.{is_active, find_user}
use nuvrion.Identity.Accounts.Sessions.{
  rehash, new_session, sign_in, authenticate, touched, seen, session_by_hash, session_at, logout,
  is_over,
}
use nuvrion.Identity.Accounts.Standing.{
  is_active_at, OfActive, Sound, IsVersion, put-IsSound, sessions-IsSound, All-values-filter_by,
}

-- Somebody found under a key is under their identifier.
pub found :
    (id : String) (s : Service) (u : User)
    → Sound s
    → get id s.users ≡ some u
    → get u.id s.users ≡ some u
found id s u h e =
    subst (λ k. get k s.users ≡ some u) (sym (key_of-get (λ w. w.id) id s.users u h.keyed e)) e

pub keep_user-Sound :
    (u u' : User) (s : Service)
    → IsVersion u u'
    → get u.id s.users ≡ some u
    → Sound s
    → Sound (keep_user u' s)
unfolding keep_user
keep_user-Sound u u' s v e h = put-IsSound u u' s.users s.sessions s.roles v e h

pub revoke_where-Sound :
    (p : String × Session → Bool) (s : Service) → Sound s → Sound (revoke_where p s).1
unfolding revoke_where
revoke_where-Sound p s h =
    sessions-IsSound s.users s.sessions _ s.roles
      (All-values-filter_by (OfActive s.users) _ s.sessions h.signed_in) h

pub revoke_sessions-Sound : (id : String) (s : Service) → Sound s → Sound (revoke_sessions id s).1
unfolding revoke_sessions
revoke_sessions-Sound id s h = revoke_where-Sound _ s h

pub keep_session-Sound :
    (session : Session) (s : Service)
    → OfActive s.users session
    → Sound s
    → Sound (keep_session session s)
unfolding keep_session
keep_session-Sound session s a h =
    sessions-IsSound s.users s.sessions _ s.roles
      (All-values-put (OfActive s.users) session.id_hash session s.sessions a h.signed_in) h

pub remove_session-Sound :
    (k : String) (s : Service) → Sound s → Sound (record s { sessions = remove k s.sessions })
remove_session-Sound k s h =
    sessions-IsSound s.users s.sessions _ s.roles
      (All-values-remove (OfActive s.users) k s.sessions h.signed_in) h

module _ (means : Means) where
  rehash-Sound :
      (u : User) (password : String) (s : Service)
      → Sound s
      → get u.id s.users ≡ some u
      → Sound (rehash means u password s).1
        × (get u.id (rehash means u password s).1.users ≡ some (rehash means u password s).0)
        × ((rehash means u password s).0.id ≡ u.id)
        × ((rehash means u password s).0.status ≡ u.status)
  unfolding rehash keep_user
  rehash-Sound u password s h e = elim (Bool-cases (means.needs_rehash u.password_hash)) [
    | inl n ↦ rw n (
      keep_user-Sound u _ s (record { same_id = refl; same_status = refl; same_roles = refl }) e h,
      get-put_self u.id _ s.users,
      refl,
      refl,
    )
    | inr n ↦ rw n (h, e, refl, refl)
  ]

  active_at :
      (u : User) (users : Assoc User)
      → get u.id users ≡ some u
      → is_active u ≡ true
      → is_active_at users u.id ≡ true
  active_at u users e a = rw (e, is_active_at) a

  sign_in-Sound :
      (u : User) (password : String) (now : ℕ) (s : Service)
      → Sound s
      → get u.id s.users ≡ some u
      → is_active u ≡ true
      → Sound (sign_in means u password now s).1
  unfolding sign_in new_session is_active
  sign_in-Sound u password now s h e a =
      let (sound, kept, same, status) = rehash-Sound u password s h e in
      let (u', s') = rehash means u password s in
      keep_session-Sound (new_session means u'.id s'.drawn now s') s'
        (active_at u' s'.users (ap (λ k. get k s'.users) same ∙ kept) (ground arith)) sound

  pub authenticate-Sound :
      (username password : String) (now : ℕ) (s : Service)
      → Sound s
      → Sound (authenticate means username password now s).1
  unfolding authenticate find_user
  authenticate-Sound username password now s h = elim (Option-cases (find_user means username s)) [
    | inl e ↦ rw (e, authenticate) h
    | inr (u, e) ↦
        elim (Bool-cases (is_active u && means.password_matches password u.password_hash)) [
          | inl q ↦
              rw (e, authenticate, q)
                (sign_in-Sound u password now s h (get-find_by (λ w. w.id) _ s.users u h.keyed e)
                  (ground arith))
          | inr q ↦ rw (e, authenticate, q) h
        ]
  ]

  seen-Sound :
      (session : Session) (now : ℕ) (s : Service)
      → OfActive s.users session
      → Sound s
      → Sound (seen means session now s).1
  unfolding seen touched
  seen-Sound session now s a h = keep_session-Sound (touched means session now s) s a h

  session_by_hash-Sound :
      (hash : String) (now : ℕ) (s : Service) → Sound s → Sound (session_by_hash means hash now s).1
  unfolding session_by_hash
  session_by_hash-Sound hash now s h = elim (Option-cases (get hash s.sessions)) [
    | inl e ↦ rw (e, session_by_hash) h
    | inr (session, e) ↦ elim (Bool-cases (is_over means session now)) [
      | inl q ↦ rw (e, session_by_hash, q) (remove_session-Sound hash s h)
      | inr q ↦
          rw (e, session_by_hash, q)
            (seen-Sound session now s
              (All-get (OfActive s.users) hash s.sessions session h.signed_in e) h)
    ]
  ]

  pub session_at-Sound :
      (token : Option String) (now : ℕ) (s : Service)
      → Sound s
      → Sound (session_at means token now s).1
  unfolding session_at
  session_at-Sound none now s h = h
  session_at-Sound (some token) now s h = elim (Bool-cases (truthy (some token))) [
    | inl q ↦ rw q (session_by_hash-Sound (means.sha256 token) now s h)
    | inr q ↦ rw q h
  ]

  pub logout-Sound : (token : Option String) (s : Service) → Sound s → Sound (logout means token s)
  unfolding logout
  logout-Sound none s h = h
  logout-Sound (some token) s h = elim (Bool-cases (truthy (some token))) [
    | inl q ↦ rw q (remove_session-Sound (means.sha256 token) s h)
    | inr q ↦ rw q h
  ]
