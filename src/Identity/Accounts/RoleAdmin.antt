-- ===== src/Identity/Accounts/RoleAdmin.antt =====
-- The roles that modules/identity/src/identity-service.js keeps.
use nuvrion.Common.{
  ℕ, ◌+◌, String, Bool, true, false, ◌&&◌, not, Option, none, some, List, map, any, filter_by,
  length, is_some, str_eq, get, put, remove, values, or_else, leb, ◌==◌, sort_by, if◌then◌else◌,
}
use nuvrion.Common.Json.{Json}
use nuvrion.Common.Results.{Result, ok, err, refuse_if, ◌>>=◌, ◌>>◌}
use nuvrion.Identity.RoleRequests.{
  role_exists, role_limit, system_changed, system_deleted, role_in_use, custom_roles,
  role_display_name, RoleRequest, parse_role_request,
}
use nuvrion.Identity.Accounts.State.{
  User, Role, Service, Means, PublicUser, AccountError, version_conflict, role_refused, Outcome,
  after,
}

pub record PublicRole : Type 0 where
  pub role : Role
  pub user_count : ℕ

-- The users who have a role.
unfoldable pub holders : String → Service → ℕ
unfolding values
holders name s = length (filter_by (λ (u : User). any (str_eq name) u.roles) (values s.users))

-- #publicRole(role)
unfoldable pub public_role : Service → Role → PublicRole
unfolding holders
public_role s role = record { role = role; user_count = holders role.name s }

-- Built-in roles come first, then by name.
unfoldable pub comes_later : (String → String → Bool) → PublicRole → PublicRole → Bool
comes_later comes_after a b =
    if a.role.system
    then b.role.system && comes_after a.role.name b.role.name
    else if b.role.system
    then true
    else comes_after a.role.name b.role.name

-- listRoles(), by the comparison of names
unfoldable pub list_roles : (String → String → Bool) → Service → List PublicRole
unfolding comes_later public_role values sort_by
list_roles comes_after s = sort_by (comes_later comes_after) (map (public_role s) (values s.roles))

-- parseRoleRequest, whose error is thrown
unfoldable pub request_of : Means → Bool → Option Json → Result AccountError RoleRequest
unfolding parse_role_request
request_of means with_name body = elim (parse_role_request means.texts with_name body) [
  | err reason ↦ err (role_refused reason)
  | ok request ↦ ok request
]

-- The role that a request makes.
unfoldable pub new_role : Means → String → RoleRequest → Service → Role
unfolding role_display_name
new_role means name request s = record {
  id = means.uuid s.drawn;
  name = name;
  display_name = role_display_name name;
  description = request.description;
  system = false;
  permissions = request.permissions;
  row_version = 1;
}

-- The checks of createRole: the new role.
unfoldable pub checked_role : Means → Option Json → Service → Result AccountError Role
unfolding request_of new_role values
checked_role means body s = do
  request ← request_of means true body
  let name : String = or_else request.name ""
  refuse_if (is_some (get name s.roles)) (role_refused (role_exists name))
  refuse_if (leb custom_roles (length (filter_by (λ (r : Role). not r.system) (values s.roles))))
      (role_refused role_limit)
  ok (new_role means name request s)

-- createRole(request)
unfoldable pub create_role : Means → Option Json → Service → Outcome PublicRole
unfolding checked_role public_role
create_role means body s = after s (checked_role means body s) λ role.
    let s' : Service = record s { roles = put role.name role s.roles; drawn = s.drawn + 1 } in
    (ok (public_role s' role), s')

-- The checks of updateRole on the role found.
unfoldable pub checked_change : Means → Role → Option Json → ℕ → Result AccountError RoleRequest
unfolding request_of
checked_change means role body expected = do
  refuse_if role.system (role_refused system_changed)
  refuse_if (not (role.row_version == expected)) version_conflict
  request_of means false body

-- updateRole(name, request, expectedVersion)
unfoldable pub update_role :
    Means → String → Option Json → ℕ → Service → Outcome (Option PublicRole)
unfolding checked_change public_role
update_role means name body expected s = elim (get name s.roles) [
  | none ↦ (ok none, s)
  | some role ↦ after s (checked_change means role body expected) λ request.
      let role' : Role = record role {
        description = request.description;
        permissions = request.permissions;
        row_version = role.row_version + 1;
      } in
      let s' : Service = record s { roles = put name role' s.roles } in
      (ok (some (public_role s' role')), s')
]

unfoldable pub checked_deletion : String → Role → Service → Result AccountError (Unit {0})
unfolding holders
checked_deletion name role s = do
  refuse_if role.system (role_refused system_deleted)
  refuse_if (leb 1 (holders name s)) (role_refused (role_in_use (holders name s)))
  ok tt

-- deleteRole(name)
unfoldable pub delete_role : String → Service → Outcome (Option ℕ)
unfolding checked_deletion
delete_role name s = elim (get name s.roles) [
  | none ↦ (ok none, s)
  | some role ↦
      after s (checked_deletion name role s)
        λ done. (ok (some 1), record s { roles = remove name s.roles })
]

-- authorize(principal, permission)
unfoldable pub authorize : Option PublicUser → String → Bool
authorize none permission = false
authorize (some user) permission = any (str_eq permission) user.permissions
