-- ===== src/Identity/Accounts/Changing.antt =====
-- Changing people and roles of modules/identity/src/identity-service.js keeps everybody's standing.
use nuvrion.Common.{
  ℕ, ◌≡◌, refl, sym, ◌∙◌, subst, arith, String, true, false, not, Option, some, List, [], ◌∷◌, any,
  str_eq, eq_iff, get, put, remove, values, get-put, get-remove, Assoc, length, filter_by, All,
  All-mono, All-values-put, Keyed-put, key_of-get, Bool-cases, Option-cases, ◌⊎◌, inl, inr,
  if◌then◌else◌,
}
use nuvrion.Common.Json.{Json}
use nuvrion.Common.Results.{ok, >>=-eq-ok, refuse_if-eq-ok}
use nuvrion.Identity.Accounts.State.{
  User, Session, Role, Service, Means, version_conflict, user_invalid, last_admin, keep_user,
  revoke_sessions, revoke_where,
}
use nuvrion.Identity.Accounts.Users.{
  is_active, is_active_admin, is_status_active, named_status, roles_of, Update, updated,
  has_other_admin, takes_last_admin, checked_update, update_user, settable_status, required_of,
}
use nuvrion.Identity.Accounts.RoleAdmin.{
  holders, checked_role, create_role, checked_change, update_role, checked_deletion, delete_role,
}
use nuvrion.Identity.Accounts.Standing.{
  is_known, is_active_at, HasKnown, OfActive, IsSound, Sound, after-Sound, any-values-put,
  any-values-put_holds, any-values-put_other,
}
use nuvrion.Identity.Accounts.Keeping.{found}
use nuvrion.Identity.Accounts.Managing.{
  any-distinct, roles_of-known, distinct-HasKnown, ok-injective,
}

-- Who is not an administrator any more was none, or another one is there.
updated-admin :
    (id : String) (u : User) (update : Update) (s : Service)
    → takes_last_admin id u update s ≡ false
    → is_active_admin (updated update u) ≡ false
    → (is_active_admin u ≡ false) ⊎ (has_other_admin id s ≡ true)
unfolding takes_last_admin is_active_admin updated is_active
updated-admin id u update s t e = elim (Bool-cases (is_active_admin u)) [
  | inr q ↦ inl q
  | inl q ↦ elim (Bool-cases (has_other_admin id s)) [
    | inl o ↦ inr o
    | inr o ↦ inl (ground (arith, any-distinct "platform_admin" update.roles))
  ]
]

module _ (id : String) (u u' : User) (users : Assoc User) (same : u'.id ≡ id) where
  active_at-put :
      is_active u' ≡ true
      → (k : String) → is_active_at users k ≡ true
      → is_active_at (put id u' users) k ≡ true
  active_at-put a k h = ground (arith, get-put id k u' users, eq_iff id k)

  -- The sessions of others.
  others-OfActive :
      (m : Assoc Session)
      → All (OfActive users) (values m)
      → All (OfActive (put id u' users)) (values (filter_by (λ e. not (str_eq e.1.user_id id)) m))
  unfolding values
  others-OfActive [] h = tt
  others-OfActive ((k, e) ∷ m) h = elim (Bool-cases (str_eq e.user_id id)) [
    | inl q ↦ rw q (others-OfActive m h.1)
    | inr q ↦ rw q (
      ground (arith, get-put id e.user_id u' users, eq_iff id e.user_id, eq_iff e.user_id id),
      others-OfActive m h.1,
    )
  ]

-- A person after updateUser, with the sessions that are left.
updated-IsSound :
    (id : String) (u : User) (update : Update) (s : Service) (sessions : Assoc Session)
    → get id s.users ≡ some u
    → u.id ≡ id
    → takes_last_admin id u update s ≡ false
    → All (λ r. is_known s.roles r ≡ true) update.roles
    → All (OfActive (put id (updated update u) s.users)) (values sessions)
    → Sound s
    → IsSound (put id (updated update u) s.users) sessions s.roles
unfolding updated has_other_admin
updated-IsSound id u update s sessions e same t k a h = record {
  keyed = Keyed-put (λ w. w.id) id (updated update u) s.users same h.keyed;
  known =
      All-values-put (HasKnown s.roles) id (updated update u) s.users
        (distinct-HasKnown s.roles (updated update u) update.roles refl k) h.known;
  signed_in = a;
  admin = elim (Bool-cases (is_active_admin (updated update u))) [
    | inl q ↦ any-values-put_holds is_active_admin id (updated update u) s.users q
    | inr q ↦ elim (updated-admin id u update s t q) [
      | inl n ↦
          any-values-put is_active_admin id (updated update u) s.users u e (q ∙ sym n) ∙ h.admin
      | inr o ↦ any-values-put_other is_active_admin id (updated update u) s.users h.keyed o
    ]
  ];
}

checked_update-ok :
    (id : String) (u : User) (status roles required : Option Json) (expected : ℕ) (s : Service)
    (update : Update)
    → checked_update id u status roles required expected s ≡ ok update
    → (takes_last_admin id u update s ≡ false) × All (λ r. is_known s.roles r ≡ true) update.roles
unfolding checked_update
checked_update-ok id u status roles required expected s update e =
    let (a, e1) = refuse_if-eq-ok _ version_conflict _ e in
    let (named, b, e2) = >>=-eq-ok (named_status status) _ e1 in
    let (wanted, c, e3) = >>=-eq-ok (settable_status named) _ e2 in
    let (names, d, e4) = >>=-eq-ok (roles_of s.roles roles) _ e3 in
    let (f, e5) = refuse_if-eq-ok _ user_invalid _ e4 in
    let (req, g, e6) = >>=-eq-ok (required_of required) _ e5 in
    let made : Update = record { status = wanted; roles = names; mfa_required = req } in
    let (t, e7) = refuse_if-eq-ok (takes_last_admin id u made s) last_admin _ e6 in
    subst (λ w. (takes_last_admin id u w s ≡ false) × All (λ r. is_known s.roles r ≡ true) w.roles)
      (ok-injective made update e7) (t, roles_of-known s.roles roles names d)

changed-Sound :
    (u : User) (update : Update) (s : Service)
    → get u.id s.users ≡ some u
    → takes_last_admin u.id u update s ≡ false
    → All (λ r. is_known s.roles r ≡ true) update.roles
    → Sound s
    → Sound (
        if is_status_active update.status
        then keep_user (updated update u) s
        else (revoke_sessions u.id (keep_user (updated update u) s)).1)
unfolding keep_user revoke_sessions revoke_where updated is_active
changed-Sound u update s e t k h = elim (Bool-cases (is_status_active update.status)) [
  | inl a ↦ rw a (
      updated-IsSound u.id u update s s.sessions e refl t k
        (All-mono _ _ (values s.sessions)
          (λ session q. active_at-put u.id u (updated update u) s.users refl a session.user_id q)
          h.signed_in)
        h)
  | inr a ↦ rw a (
      updated-IsSound u.id u update s _ e refl t k
        (others-OfActive u.id u (updated update u) s.users refl s.sessions h.signed_in) h)
]

update_at-Sound :
    (u : User) (status roles required : Option Json) (expected : ℕ) (s : Service)
    → get u.id s.users ≡ some u
    → Sound s
    → Sound (update_user u.id status roles required expected s).1
unfolding update_user
update_at-Sound u status roles required expected s e h =
    rw (e, update_user)
      (after-Sound s (checked_update u.id u status roles required expected s) _ h λ update q.
        let (t, k) = checked_update-ok u.id u status roles required expected s update q in
        changed-Sound u update s e t k h)

pub update_user-Sound :
    (id : String) (status roles required : Option Json) (expected : ℕ) (s : Service)
    → Sound s
    → Sound (update_user id status roles required expected s).1
unfolding update_user
update_user-Sound id status roles required expected s h = elim (Option-cases (get id s.users)) [
  | inl e ↦ rw (e, update_user) h
  | inr (u, e) ↦
      subst (λ k. Sound (update_user k status roles required expected s).1)
        (key_of-get (λ w. w.id) id s.users u h.keyed e)
        (update_at-Sound u status roles required expected s (found id s u h e) h)
]

-- Roles that are there are there still.
known-put :
    (k : String) (role : Role) (roles : Assoc Role) (us : List User)
    → All (HasKnown roles) us
    → All (HasKnown (put k role roles)) us
known-put k role roles us h =
    All-mono _ _ us (λ u. All-mono _ _ u.roles (λ r q. ground (arith, get-put k r role roles))) h

roles-Sound :
    (roles : Assoc Role) (s : Service)
    → All (HasKnown roles) (values s.users)
    → Sound s
    → IsSound s.users s.sessions roles
roles-Sound roles s k h = record {
  keyed = h.keyed;
  known = k;
  signed_in = h.signed_in;
  admin = h.admin;
}

pub create_role-Sound :
    (means : Means) (body : Option Json) (s : Service)
    → Sound s
    → Sound (create_role means body s).1
unfolding create_role
create_role-Sound means body s h =
    after-Sound s (checked_role means body s) _ h
      (λ role q. roles-Sound _ s (known-put role.name role s.roles (values s.users) h.known) h)

pub update_role-Sound :
    (means : Means) (name : String) (body : Option Json) (expected : ℕ) (s : Service)
    → Sound s
    → Sound (update_role means name body expected s).1
unfolding update_role
update_role-Sound means name body expected s h = elim (Option-cases (get name s.roles)) [
  | inl e ↦ rw (e, update_role) h
  | inr (role, e) ↦
      rw (e, update_role)
        (after-Sound s (checked_change means role body expected) _ h
          (λ request q. roles-Sound _ s (known-put name _ s.roles (values s.users) h.known) h))
]

-- A role that nobody has is no role of anybody.
known-remove :
    (name : String) (roles : Assoc Role) (us : List User)
    → length (filter_by (λ (u : User). any (str_eq name) u.roles) us) ≡ 0
    → All (HasKnown roles) us
    → All (HasKnown (remove name roles)) us
known-remove name roles [] e h = tt
known-remove name roles (u ∷ us) e h = elim (Bool-cases (any (str_eq name) u.roles)) [
  | inl q ↦ absurd (ground arith)
  | inr q ↦ (others u.roles q h.0, known-remove name roles us (ground arith) h.1)
]
  where
    others :
        (rs : List String)
        → any (str_eq name) rs ≡ false
        → All (λ r. is_known roles r ≡ true) rs
        → All (λ r. is_known (remove name roles) r ≡ true) rs
    others [] q h = tt
    others (r ∷ rs) q h = (ground (arith, get-remove name r roles), others rs (ground arith) h.1)

pub delete_role-Sound : (name : String) (s : Service) → Sound s → Sound (delete_role name s).1
unfolding delete_role checked_deletion holders
delete_role-Sound name s h = elim (Option-cases (get name s.roles)) [
  | inl e ↦ rw (e, delete_role) h
  | inr (role, e) ↦
      rw (e, delete_role)
        (after-Sound s (checked_deletion name role s) _ h (λ done q.
          roles-Sound _ s (known-remove name s.roles (values s.users) (ground arith) h.known) h))
]
