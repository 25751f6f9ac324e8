-- ===== src/Identity/Accounts/Managing.antt =====
-- Making and changing people and roles of modules/identity/src/identity-service.js keeps everybody's standing.
use nuvrion.Common.{
  ℕ, ◌+◌, ◌≡◌, refl, sym, ap, ◌∙◌, subst, arith, String, Bool, true, ◌||◌, Option, none, some, List,
  [], ◌∷◌, ◌++◌, any, is_some, str_eq, eq_iff, get, put, values, get-put, Assoc, All, All-snoc,
  All-mono, All-values-put, Keyed-put, Bool-cases, Option-cases, inl, inr,
}
use nuvrion.Common.Json.{Json, text, array_of}
use nuvrion.Common.Results.{Result, ok, >>=-eq-ok, refuse_if-eq-ok}
use nuvrion.Inventory.TagRequest.{distinct, distinct_onto, includes}
use nuvrion.Identity.Accounts.State.{
  Status, User, Session, Role, Service, Means, AccountError, username_exists, keep_user,
}
use nuvrion.Identity.Accounts.Users.{
  NewUser, is_active_admin, role_names, roles_of, wanted_status, wanted_roles, password_of,
  clean_user_identity, new_user, checked_user, create_user,
}
use nuvrion.Identity.Accounts.Standing.{
  is_known, HasKnown, IsSound, Sound, after-Sound, any-values-put_new,
}

module _ (P : String → Type 0) where
  All-distinct_onto :
      (seen xs : List String) → All P seen → All P xs → All P (distinct_onto seen xs)
  unfolding distinct_onto
  All-distinct_onto seen [] hs h = hs
  All-distinct_onto seen (x ∷ xs) hs h = elim (Bool-cases (includes seen x)) [
    | inl e ↦ rw e (All-distinct_onto seen xs hs h.1)
    | inr e ↦ rw e (All-distinct_onto (seen ++ x ∷ []) xs (All-snoc P seen x hs h.0) h.1)
  ]

  All-distinct : (xs : List String) → All P xs → All P (distinct xs)
  unfolding distinct
  All-distinct xs h = All-distinct_onto [] xs tt h

any-snoc :
    {A : Type 0} (p : A → Bool) (xs : List A) (x : A) → any p (xs ++ x ∷ []) ≡ (any p xs || p x)
any-snoc p [] x = ground arith
any-snoc p (y ∷ xs) x = ground (arith, any-snoc p xs x)

includes-any :
    (k x : String) (seen : List String)
    → includes seen x ≡ true
    → str_eq k x ≡ true
    → any (str_eq k) seen ≡ true
includes-any k x seen e q =
    let same : k ≡ x = (eq_iff k x).0 q in subst (λ z. any (str_eq z) seen ≡ true) (sym same) e

any-distinct_onto :
    (k : String) (seen xs : List String)
    → (any (str_eq k) seen || any (str_eq k) xs) ≡ true
    → any (str_eq k) (distinct_onto seen xs) ≡ true
unfolding distinct_onto
any-distinct_onto k seen [] h = ground arith
any-distinct_onto k seen (x ∷ xs) h = elim (Bool-cases (includes seen x)) [
  | inl e ↦ rw e (any-distinct_onto k seen xs (ground (arith, includes-any k x seen)))
  | inr e ↦
      rw e (any-distinct_onto k (seen ++ x ∷ []) xs (ground (arith, any-snoc (str_eq k) seen x)))
]

pub any-distinct :
    (k : String) (xs : List String) → any (str_eq k) xs ≡ true → any (str_eq k) (distinct xs) ≡ true
unfolding distinct
any-distinct k xs h = any-distinct_onto k [] xs (ground arith)

role_names-known :
    (roles : Assoc Role) (vs : List Json) (rs : List String)
    → role_names roles vs ≡ ok rs
    → All (λ r. is_known roles r ≡ true) rs
unfolding role_names
role_names-known roles [] rs e =
    let none_named : List String = [] in
    let same : none_named ≡ rs = cc in subst (All (λ r. is_known roles r ≡ true)) same tt
role_names-known roles (text r ∷ rest) rs e = elim (Bool-cases (is_some (get r roles))) [
  | inl q ↦
      let (part, first, second) =
        >>=-eq-ok (role_names roles rest) (λ ns. ok (r ∷ ns)) (rw (q, role_names) at e) in
      let same : r ∷ part ≡ rs = cc in
      subst (All (λ n. is_known roles n ≡ true)) same (q, role_names-known roles rest part first)
  | inr q ↦ absurd (ground arith)
]
role_names-known roles (v ∷ rest) rs e = absurd (ground arith)

pub roles_of-known :
    (roles : Assoc Role) (v : Option Json) (rs : List String)
    → roles_of roles v ≡ ok rs
    → All (λ r. is_known roles r ≡ true) rs
unfolding roles_of
roles_of-known roles v rs e = elim (Option-cases (array_of v)) [
  | inl q ↦ absurd (ground arith)
  | inr (vs, q) ↦ role_names-known roles vs rs (rw (q, roles_of) at e)
]

pub ok-injective :
    {A : Type 0} (a b : A) → (let r : Result AccountError A = ok a in r) ≡ ok b → a ≡ b
ok-injective a b h = cc

wanted_roles-known :
    (roles : Assoc Role) (v : Option Json) (rs : List String)
    → wanted_roles roles v ≡ ok rs
    → All (λ r. is_known roles r ≡ true) rs
unfolding wanted_roles
wanted_roles-known roles none rs e = role_names-known roles (text "operator" ∷ []) rs e
wanted_roles-known roles (some v) rs e = roles_of-known roles (some v) rs e

pub distinct-HasKnown :
    (roles : Assoc Role) (u : User) (rs : List String)
    → u.roles ≡ distinct rs
    → All (λ r. is_known roles r ≡ true) rs
    → HasKnown roles u
distinct-HasKnown roles u rs e h =
    subst (All (λ r. is_known roles r ≡ true)) (sym e) (All-distinct _ rs h)

-- What createUser makes of a request that passes its checks.
pub record IsMade (means : Means) (request : NewUser) (s : Service) (u : User) : Type 0 where
  pub drawn_id : u.id ≡ means.uuid (s.drawn + 1)
  pub status : Status
  pub asked_status : wanted_status request.status ≡ ok status
  pub has_status : u.status ≡ status
  pub names : List String
  pub asked_names : wanted_roles s.roles request.roles ≡ ok names
  pub has_names : u.roles ≡ distinct names

pub checked_user-IsMade :
    (means : Means) (request : NewUser) (now : ℕ) (s : Service) (u : User)
    → checked_user means request now s ≡ ok u
    → IsMade means request s u
unfolding checked_user new_user
checked_user-IsMade means request now s u e =
    let (name, e1, k1) =
      >>=-eq-ok (clean_user_identity means request.username request.display_name) _ e in
    let (status, e2, k2) = >>=-eq-ok (wanted_status request.status) _ k1 in
    let (roles, e3, k3) = >>=-eq-ok (wanted_roles s.roles request.roles) _ k2 in
    let (password, e4, k4) = >>=-eq-ok (password_of request.password) _ k3 in
    let (free, made) = refuse_if-eq-ok _ username_exists _ k4 in
    subst (IsMade means request s)
      (ok-injective (new_user means request name status roles password now s) u made)
      (record {
        drawn_id = refl;
        status = status;
        asked_status = e2;
        has_status = refl;
        names = roles;
        asked_names = e3;
        has_names = refl;
      })

pub made-HasKnown :
    (means : Means) (request : NewUser) (s : Service) (u : User)
    → IsMade means request s u
    → HasKnown s.roles u
made-HasKnown means request s u m =
    distinct-HasKnown s.roles u m.names m.has_names
      (wanted_roles-known s.roles request.roles m.names m.asked_names)

-- A new person under an identifier that nobody has.
new-IsSound :
    (u : User) (users : Assoc User) (sessions : Assoc Session) (roles : Assoc Role)
    → get u.id users ≡ none
    → HasKnown roles u
    → IsSound users sessions roles
    → IsSound (put u.id u users) sessions roles
new-IsSound u users sessions roles e k h = record {
  keyed = Keyed-put (λ w. w.id) u.id u users refl h.keyed;
  known = All-values-put (HasKnown roles) u.id u users k h.known;
  signed_in =
      All-mono _ _ (values sessions)
        (λ session q.
          ground (arith, get-put u.id session.user_id u users, eq_iff u.id session.user_id))
        h.signed_in;
  admin = any-values-put_new is_active_admin u.id u users e h.admin;
}

pub create_user-Sound :
    (means : Means) (request : NewUser) (now : ℕ) (s : Service)
    → get (means.uuid (s.drawn + 1)) s.users ≡ none
    → Sound s
    → Sound (create_user means request now s).1
unfolding create_user keep_user
create_user-Sound means request now s new h =
    after-Sound s (checked_user means request now s) _ h λ u e.
      let made = checked_user-IsMade means request now s u e in
      new-IsSound u s.users s.sessions s.roles (ap (λ k. get k s.users) made.drawn_id ∙ new)
        (made-HasKnown means request s u made) h
