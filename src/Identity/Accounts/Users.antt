-- ===== src/Identity/Accounts/Users.antt =====
-- The people of modules/identity/src/identity-service.js, and the checks of modules/identity/src/user-input.js.
use nuvrion.Common.{
  ℕ, ◌+◌, String, Bool, true, false, ◌&&◌, ◌||◌, not, Option, none, some, List, [], ◌∷◌, map, any,
  every, find_by, is_some, length, str_eq, Assoc, get, values, leb, ltb, ◌==◌, sort_by,
  if◌then◌else◌,
}
use nuvrion.Common.Text.{codes, units, trim, is_lower, is_digit}
use nuvrion.Common.Json.{Json, Items, text, bool, array_of, is_truthy}
use nuvrion.Common.Results.{Result, ok, err, refuse_if, ◌>>=◌, ◌>>◌}
use nuvrion.Identity.RoleRequests.{system_roles, role_display_name, SystemRole}
use nuvrion.Identity.Accounts.State.{
  Status, active, pending, locked, disabled, User, Role, Service, Means, AccountError, user_invalid,
  password_too_short, username_exists, version_conflict, last_admin, Outcome, after, PublicUser,
  public_user, keep_user, revoke_sessions,
}
use nuvrion.Inventory.TagRequest.{distinct}

-- MINIMUM_PASSWORD_LENGTH
abbrev pub minimum_password_length : ℕ
minimum_password_length = 12

-- DISPLAY_NAME_MAX_LENGTH
abbrev pub display_name_max_length : ℕ
display_name_max_length = 200

-- [a-z0-9._-]
unfoldable pub is_username_part : ℕ → Bool
unfolding is_lower is_digit
is_username_part c = is_lower c || (is_digit c || (c == b'.' || (c == b'_' || c == b'-')))

-- USERNAME_PATTERN.test(normalized)
unfoldable pub is_username : List ℕ → Bool
unfolding is_username_part
is_username cs = (leb 3 (length cs) && leb (length cs) 128) && every is_username_part cs

pub record Name : Type 0 where
  pub username : String
  pub normalized : String
  pub display_name : String

-- The request of a new person; a field that is not given is `none`.
pub record NewUser : Type 0 where
  pub username : Option Json
  pub display_name : Option Json
  pub password : Option Json
  pub roles : Option Json
  pub status : Option Json
  pub must_change_password : Option Json
  pub mfa_required : Option Json

unfoldable pub status_named : String → Option Status
status_named s =
    if str_eq s "active"
    then some active
    else if str_eq s "pending"
    then some pending
    else if str_eq s "locked"
    then some locked
    else if str_eq s "disabled"
    then some disabled
    else none

unfoldable pub is_status_active : Status → Bool
is_status_active active = true
is_status_active pending = false
is_status_active locked = false
is_status_active disabled = false

unfoldable pub is_active : User → Bool
unfolding is_status_active
is_active u = is_status_active u.status

-- A value of the list status, or an error.
unfoldable pub status_of : Json → Result AccountError Status
unfolding status_named
status_of (text s) = elim (status_named s) [ none ↦ err user_invalid | some status ↦ ok status ]
status_of v = err user_invalid

-- The texts of a list, if each is the name of a role.
unfoldable pub role_names : Assoc Role → List Json → Result AccountError (List String)
role_names roles [] = ok []
role_names roles (text r ∷ rest) =
    let others = role_names roles rest in
    if is_some (get r roles) then (others >>= λ rs. ok (r ∷ rs)) else err user_invalid
role_names roles (v ∷ rest) = err user_invalid

unfoldable pub roles_of : Assoc Role → Option Json → Result AccountError (List String)
unfolding role_names
roles_of roles v = elim (array_of v) [ none ↦ err user_invalid | some vs ↦ role_names roles vs ]

-- status = 'active', and roles = ['operator'], where they are not given
unfoldable pub wanted_status : Option Json → Result AccountError Status
unfolding status_of
wanted_status none = ok active
wanted_status (some v) = status_of v

unfoldable pub wanted_roles : Assoc Role → Option Json → Result AccountError (List String)
unfolding roles_of
wanted_roles roles none = role_names roles (text "operator" ∷ [])
wanted_roles roles (some v) = roles_of roles (some v)

-- passwordAcceptable(password), with the password
unfoldable pub password_of : Option Json → Result AccountError String
unfolding units
password_of (some (text s)) =
    if leb minimum_password_length (units s) then ok s else err password_too_short
password_of _ = err password_too_short

-- #roles at first: the built-in ones
unfoldable pub first_roles : (ℕ → String) → ℕ → Assoc SystemRole → Assoc Role
unfolding role_display_name
first_roles uuid n [] = []
first_roles uuid n ((name, role) ∷ rest) =
    (
      name,
      record {
        id = uuid n;
        name = name;
        display_name = role_display_name name;
        description = role.description;
        system = true;
        permissions = role.permissions;
        row_version = 1;
      },
    )
    ∷ first_roles uuid (n + 1) rest

-- user.status === 'active' && user.roles.includes('platform_admin')
unfoldable pub is_active_admin : User → Bool
unfolding is_active
is_active_admin u = is_active u && any (str_eq "platform_admin") u.roles

-- The person that the constructor makes.
unfoldable pub first_user : String → NewUser
first_user password = record {
  username = some (text "admin");
  display_name = some (text "Platform Administrator");
  password = some (text password);
  roles = some (Json.array (Items.cons (text "platform_admin") Items.nil));
  status = none;
  must_change_password = none;
  mfa_required = none;
}

module _ (means : Means) where
  -- cleanUserIdentity, on texts
  unfoldable pub clean_name : String → String → Result AccountError Name
  unfolding is_username trim units
  clean_name username display_name =
      let normalized = means.texts.lower (trim username) in
      let shown_as = trim display_name in
      do
        refuse_if
            (not (is_username (codes normalized))
              || (str_eq shown_as "" || ltb display_name_max_length (units shown_as)))
            user_invalid
        ok (record { username = trim username; normalized = normalized; display_name = shown_as })

  -- cleanUserIdentity({ username, displayName })
  unfoldable pub clean_user_identity : Option Json → Option Json → Result AccountError Name
  unfolding clean_name
  clean_user_identity (some (text u)) (some (text d)) = clean_name u d
  clean_user_identity _ _ = err user_invalid

  -- findUser(username)
  unfoldable pub find_user : String → Service → Option User
  unfolding trim values
  find_user username s =
      find_by (λ u. str_eq u.normalized_username (means.texts.lower (trim username)))
        (values s.users)

  -- What createUser keeps.
  unfoldable pub new_user : NewUser → Name → Status → List String → String → ℕ → Service → User
  unfolding distinct is_truthy
  new_user request name status roles password now s = record {
    id = means.uuid (s.drawn + 1);
    username = name.username;
    normalized_username = name.normalized;
    display_name = name.display_name;
    status = status;
    roles = distinct roles;
    must_change_password = is_truthy request.must_change_password;
    mfa_required = is_truthy request.mfa_required;
    row_version = 1;
    password_hash = means.hash_password password (s.drawn + 2);
    recovery_code_hash = means.sha256 (means.token s.drawn);
    created_at = now;
    mfa = none;
  }

  -- The checks of createUser.
  unfoldable pub checked_user : NewUser → ℕ → Service → Result AccountError User
  unfolding clean_user_identity wanted_status wanted_roles password_of find_user new_user
  checked_user request now s = do
    name ← clean_user_identity request.username request.display_name
    status ← wanted_status request.status
    roles ← wanted_roles s.roles request.roles
    password ← password_of request.password
    refuse_if (is_some (find_user name.normalized s)) username_exists
    ok (new_user request name status roles password now s)

  -- createUser(request): the person, and the recovery code
  unfoldable pub create_user : NewUser → ℕ → Service → Outcome (PublicUser × String)
  unfolding checked_user keep_user public_user
  create_user request now s = after s (checked_user request now s) λ u.
      (ok (public_user s u, means.token s.drawn), record (keep_user u s) { drawn = s.drawn + 3 })

  -- What the constructor starts from.
  unfoldable pub empty_service : ℕ → ℕ → Service
  unfolding first_roles system_roles
  empty_service idle absolute = record {
    users = [];
    sessions = [];
    roles = first_roles means.uuid 0 system_roles;
    idle_timeout = idle;
    absolute_timeout = absolute;
    drawn = length system_roles;
  }

  -- new IdentityService({ bootstrapPassword, idleTimeoutMs, absoluteTimeoutMs })
  unfoldable pub new_service : String → ℕ → ℕ → ℕ → Outcome (PublicUser × String)
  unfolding create_user empty_service first_user
  new_service password idle absolute now =
      create_user (first_user password) now (empty_service idle absolute)

  -- listUsers(), in the order of the comparison of names
  unfoldable pub list_users : (String → String → Bool) → Service → List PublicUser
  unfolding public_user values sort_by
  list_users comes_after s =
      sort_by (λ a b. comes_after a.username b.username) (map (public_user s) (values s.users))

-- What updateUser changes.
pub record Update : Type 0 where
  pub status : Status
  pub roles : List String
  pub mfa_required : Option Bool

unfoldable pub required_of : Option Json → Result AccountError (Option Bool)
required_of none = ok none
required_of (some (bool b)) = ok (some b)
required_of _ = err user_invalid

-- The statuses that updateUser sets.
unfoldable pub settable_status : Status → Result AccountError Status
settable_status pending = err user_invalid
settable_status active = ok active
settable_status locked = ok locked
settable_status disabled = ok disabled

-- Another active administrator is there.
unfoldable pub has_other_admin : String → Service → Bool
unfolding is_active_admin values
has_other_admin user_id s =
    any (λ item. not (str_eq item.id user_id) && is_active_admin item) (values s.users)

-- removesActiveAdmin, and no other
unfoldable pub takes_last_admin : String → User → Update → Service → Bool
unfolding is_active_admin has_other_admin is_status_active
takes_last_admin id u update s =
    (is_active_admin u
      && (not (is_status_active update.status) || not (any (str_eq "platform_admin") update.roles)))
    && not (has_other_admin id s)

unfoldable pub updated : Update → User → User
unfolding distinct
updated update u = record u {
  status = update.status;
  roles = distinct update.roles;
  mfa_required = elim update.mfa_required [ none ↦ u.mfa_required | some b ↦ b ];
  row_version = u.row_version + 1;
}

-- The status that a change names.
unfoldable pub named_status : Option Json → Result AccountError Status
unfolding status_of
named_status none = err user_invalid
named_status (some v) = status_of v

-- The checks of updateUser on the person found.
unfoldable pub checked_update :
    String
    → User
    → Option Json
    → Option Json
    → Option Json
    → ℕ
    → Service
    → Result AccountError Update
unfolding named_status settable_status roles_of required_of takes_last_admin
checked_update id u status roles mfa_required expected s = do
  refuse_if (not (u.row_version == expected)) version_conflict
  named ← named_status status
  wanted ← settable_status named
  names ← roles_of s.roles roles
  refuse_if (length names == 0) user_invalid
  required ← required_of mfa_required
  let update : Update = record { status = wanted; roles = names; mfa_required = required }
  refuse_if (takes_last_admin id u update s) last_admin
  ok update

-- updateUser(userId, { status, roles, mfaRequired }, expectedVersion)
unfoldable pub update_user :
    String → Option Json → Option Json → Option Json → ℕ → Service → Outcome (Option PublicUser)
unfolding checked_update updated keep_user revoke_sessions public_user is_status_active
update_user id status roles mfa_required expected s = elim (get id s.users) [
  | none ↦ (ok none, s)
  | some u ↦ after s (checked_update id u status roles mfa_required expected s) λ update.
      let kept = keep_user (updated update u) s in
      (
        ok (some (public_user s (updated update u))),
        if is_status_active update.status then kept else (revoke_sessions id kept).1,
      )
]
