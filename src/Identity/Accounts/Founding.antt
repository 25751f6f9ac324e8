-- ===== src/Identity/Accounts/Founding.antt =====
-- The constructor of modules/identity/src/identity-service.js makes an administrator.
use nuvrion.Common.{
  ℕ, ◌≡◌, refl, sym, subst, arith, String, true, List, [], ◌∷◌, any, str_eq, get, put, values,
}
use nuvrion.Common.Results.{Result, ok, err}
use nuvrion.Identity.Accounts.State.{
  Status, active, User, Service, Means, AccountError, PublicUser, after, keep_user,
}
use nuvrion.Identity.Accounts.Users.{
  NewUser, is_active, is_active_admin, is_status_active, wanted_status, wanted_roles, checked_user,
  create_user, first_user, empty_service, new_service,
}
use nuvrion.Identity.Accounts.Standing.{Sound}
use nuvrion.Identity.Accounts.Managing.{
  any-distinct, ok-injective, IsMade, checked_user-IsMade, made-HasKnown,
}

-- A person who was made passed the checks.
create_user-checked :
    (means : Means) (request : NewUser) (now : ℕ) (s : Service) (first : PublicUser × String)
    → (create_user means request now s).0 ≡ ok first
    → (u : User) × (checked_user means request now s ≡ ok u)
unfolding create_user
create_user-checked means request now s first e = by_result (checked_user means request now s) refl
  where
    by_result :
        (r : Result AccountError User)
        → checked_user means request now s ≡ r
        → (u : User) × (checked_user means request now s ≡ ok u)
    by_result (ok u) q = (u, q)
    by_result (err reason) q = absurd (cc (rw (q, create_user, after) at e))

first_names :
    (means : Means) (password : String) (idle absolute : ℕ) (names : List String)
    → wanted_roles (empty_service means idle absolute).roles (first_user password).roles ≡ ok names
    → any (str_eq "platform_admin") names ≡ true
unfolding empty_service first_user wanted_roles get
first_names means password idle absolute names e =
    let only : List String = "platform_admin" ∷ [] in
    subst (λ ns. any (str_eq "platform_admin") ns ≡ true) (ok-injective only names e) refl

first_status :
    (password : String) (status : Status)
    → wanted_status (first_user password).status ≡ ok status
    → is_status_active status ≡ true
unfolding first_user wanted_status is_status_active
first_status password status e =
    subst (λ t. is_status_active t ≡ true) (ok-injective active status e) refl

first-Sound :
    (means : Means) (password : String) (idle absolute : ℕ) (u : User)
    → IsMade means (first_user password) (empty_service means idle absolute) u
    → Sound (keep_user u (empty_service means idle absolute))
unfolding keep_user empty_service put get values is_active_admin is_active
first-Sound means password idle absolute u made =
    let named : any (str_eq "platform_admin") u.roles ≡ true =
      subst (λ rs. any (str_eq "platform_admin") rs ≡ true) (sym made.has_names)
        (any-distinct "platform_admin" made.names
          (first_names means password idle absolute made.names made.asked_names)) in
    let on : is_status_active u.status ≡ true =
      subst (λ t. is_status_active t ≡ true) (sym made.has_status)
        (first_status password made.status made.asked_status) in
    record {
      keyed = (refl, refl, tt);
      known = (
        made-HasKnown means (first_user password) (empty_service means idle absolute) u made,
        tt,
      );
      signed_in = tt;
      admin = ground (arith, on, named);
    }

-- The constructor makes an active administrator.
pub new_service-Sound :
    (means : Means) (password : String) (idle absolute now : ℕ) (first : PublicUser × String)
    → (new_service means password idle absolute now).0 ≡ ok first
    → Sound (new_service means password idle absolute now).1
unfolding new_service
new_service-Sound means password idle absolute now first e =
    let s = empty_service means idle absolute in
    let (u, q) = create_user-checked means (first_user password) now s first e in
    rw (q, new_service, create_user, after)
      (first-Sound means password idle absolute u
        (checked_user-IsMade means (first_user password) now s u q))
