-- ===== src/Identity/Accounts/Standing.antt =====
-- Who may be signed in to modules/identity/src/identity-service.js, and what changes of people and sessions keep.
use nuvrion.Common.{
  ◌≡◌, refl, sym, ap, ◌∙◌, subst, arith, String, Bool, true, false, ◌&&◌, not, none, some, List, [],
  ◌∷◌, any, filter_by, is_some, str_eq, eq_iff, Assoc, get, put, values, get-put, All, All-mono,
  All-get, All-values-put, Keyed, Keyed-put, Bool-cases, inl, inr,
}
use nuvrion.Common.Results.{Result, ok, err}
use nuvrion.Identity.Accounts.State.{User, Session, Role, Service, AccountError, Outcome, after}
use nuvrion.Identity.Accounts.Users.{is_active, is_active_admin}

abbrev pub is_known : Assoc Role → String → Bool
is_known roles name = is_some (get name roles)

-- A person is there, and active.
abbrev pub is_active_at : Assoc User → String → Bool
is_active_at users id = elim (get id users) [ none ↦ false | some u ↦ is_active u ]

abbrev pub HasKnown : Assoc Role → User → Type 0
HasKnown roles u = All (λ r. is_known roles r ≡ true) u.roles

abbrev pub OfActive : Assoc User → Session → Type 0
OfActive users session = is_active_at users session.user_id ≡ true

-- People are kept under their identifiers and have roles that there are, every session is of somebody who is active,
-- and somebody active is an administrator.
pub record IsSound (users : Assoc User) (sessions : Assoc Session) (roles : Assoc Role)
    : Type 0 where
  pub keyed : Keyed (λ u. u.id) users
  pub known : All (HasKnown roles) (values users)
  pub signed_in : All (OfActive users) (values sessions)
  pub admin : any is_active_admin (values users) ≡ true

abbrev pub Sound : Service → Type 0
Sound s = IsSound s.users s.sessions s.roles

pub after-Sound :
    {B A : Type 0} (s : Service) (r : Result AccountError B) (next : B → Outcome A)
    → Sound s
    → ((b : B) → r ≡ ok b → Sound (next b).1)
    → Sound (after s r next).1
after-Sound s (err e) next h f = h
after-Sound s (ok b) next h f = f b refl

module _ (p : User → Bool) (k : String) (u' : User) where
  -- A value that counts as the one before does not change whether there is one that counts.
  pub any-values-put :
      (m : Assoc User) (u : User)
      → get k m ≡ some u
      → p u' ≡ p u
      → any p (values (put k u' m)) ≡ any p (values m)
  unfolding get put values
  any-values-put [] u e q = cc
  any-values-put ((j, w) ∷ m) u e q = ground (arith, eq_iff j k, any-values-put m u)

  pub any-values-put_new :
      (m : Assoc User)
      → get k m ≡ none
      → any p (values m) ≡ true
      → any p (values (put k u' m)) ≡ true
  unfolding get put values
  any-values-put_new [] e q = cc
  any-values-put_new ((j, w) ∷ m) e q = ground (arith, eq_iff j k, any-values-put_new m)

  pub any-values-put_holds : (m : Assoc User) → p u' ≡ true → any p (values (put k u' m)) ≡ true
  unfolding put values
  any-values-put_holds [] q = ground arith
  any-values-put_holds ((j, w) ∷ m) q = ground (arith, eq_iff j k, any-values-put_holds m)

  any-narrower :
      (q : User → Bool) (us : List User)
      → any (λ item. q item && p item) us ≡ true
      → any p us ≡ true
  any-narrower q [] h = cc
  any-narrower q (u ∷ us) h = ground (arith, any-narrower q us)

  -- One that counts under another key is still there.
  pub any-values-put_other :
      (m : Assoc User)
      → Keyed (λ u. u.id) m
      → any (λ item. not (str_eq item.id k) && p item) (values m) ≡ true
      → any p (values (put k u' m)) ≡ true
  unfolding put values
  any-values-put_other [] h q = cc
  any-values-put_other ((j, w) ∷ m) h q = elim (Bool-cases (str_eq j k)) [
    | inl e ↦
        rw (e, put)
          (ground (
            arith,
            eq_iff j k,
            eq_iff w.id k,
            any-narrower (λ (u : User). not (str_eq u.id k)) (values m),
          ))
    | inr e ↦ rw (e, put) (ground (arith, any-values-put_other m h.2))
  ]

-- Another version of somebody, with the same identifier, status and roles.
pub record IsVersion (u u' : User) : Type 0 where
  pub same_id : u'.id ≡ u.id
  pub same_status : u'.status ≡ u.status
  pub same_roles : u'.roles ≡ u.roles

-- The same people are active.
pub is_active_at-put :
    (u u' : User) (m : Assoc User) (id : String)
    → IsVersion u u'
    → get u.id m ≡ some u
    → is_active_at (put u'.id u' m) id ≡ is_active_at m id
unfolding is_active
is_active_at-put u u' m id v e =
    ground (arith, get-put u'.id id u' m, eq_iff u'.id id, v.same_id, v.same_status, e)

is_active_admin-version : (u u' : User) → IsVersion u u' → is_active_admin u' ≡ is_active_admin u
unfolding is_active_admin
is_active_admin-version u u' v = ground (arith, v.same_status, v.same_roles)

pub put-IsSound :
    (u u' : User) (users : Assoc User) (sessions : Assoc Session) (roles : Assoc Role)
    → IsVersion u u'
    → get u.id users ≡ some u
    → IsSound users sessions roles
    → IsSound (put u'.id u' users) sessions roles
put-IsSound u u' users sessions roles v e h = record {
  keyed = Keyed-put (λ w. w.id) u'.id u' users refl h.keyed;
  known =
      All-values-put (HasKnown roles) u'.id u' users
        (subst (All (λ r. is_known roles r ≡ true)) (sym v.same_roles)
          (All-get (HasKnown roles) u.id users u h.known e))
        h.known;
  signed_in =
      All-mono _ _ (values sessions)
        (λ session q. is_active_at-put u u' users session.user_id v e ∙ q) h.signed_in;
  admin =
      any-values-put is_active_admin u'.id u' users u (ap (λ k. get k users) v.same_id ∙ e)
        (is_active_admin-version u u' v)
      ∙ h.admin;
}

-- Fewer sessions, or others of people who are active.
pub sessions-IsSound :
    (users : Assoc User) (sessions sessions' : Assoc Session) (roles : Assoc Role)
    → All (OfActive users) (values sessions')
    → IsSound users sessions roles
    → IsSound users sessions' roles
sessions-IsSound users sessions sessions' roles a h = record {
  keyed = h.keyed;
  known = h.known;
  signed_in = a;
  admin = h.admin;
}

pub All-values-filter_by :
    {V : Type 0} (P : V → Type 0) (p : String × V → Bool) (m : Assoc V)
    → All P (values m)
    → All P (values (filter_by p m))
unfolding values
All-values-filter_by P p [] h = tt
All-values-filter_by P p (e ∷ m) h = elim (Bool-cases (p e)) [
  | inl q ↦ rw q (h.0, All-values-filter_by P p m h.1)
  | inr q ↦ rw q (All-values-filter_by P p m h.1)
]
