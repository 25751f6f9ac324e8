-- ===== src/Identity/RoleRequests.antt =====
-- Requests for roles, of modules/identity/src/roles.js: names, descriptions and the built-in roles.
use nuvrion.Common.{
  ℕ, String, Bool, true, false, ◌&&◌, ◌||◌, not, Option, none, some, List, [], ◌∷◌, map, any, every,
  str_eq, ltb, ◌==◌, Assoc, get, keys, if◌then◌else◌,
}
use Prim.Native.Char.{code}
use nuvrion.Common.Text.{codes, units, trim, is_space, is_lower, is_digit, has_control}
use nuvrion.Common.Json.{Json, text, Platform, object_of, array_of, to_text, named_unknown_field}
use nuvrion.Common.Results.{Result, ok, err, refuse_if, ◌>>=◌, ◌>>◌}
use nuvrion.Identity.Roles.{
  Value, key_text, other_value, Granted, granted, permission_keys, normalise_permissions,
}

pub record SystemRole : Type 0 where
  pub description : String
  pub permissions : List String

-- SYSTEM_ROLES
unfoldable pub system_roles : Assoc SystemRole
unfolding permission_keys
system_roles =
    (
      "platform_admin",
      record {
        description = "Everything, including users, roles and the platform itself.";
        permissions = permission_keys;
      },
    )
    ∷ (
      "operator",
      record {
        description = "Operate virtual machines and see connections; no administration.";
        permissions =
            "resource.view" ∷ "resource.operate" ∷ "resource.tag" ∷ "schedule.manage"
            ∷ "connection.view" ∷ [];
      },
    )
    ∷ (
      "auditor",
      record {
        description = "Read-only, including the audit history.";
        permissions = "resource.view" ∷ "connection.view" ∷ "audit.view" ∷ [];
      },
    )
    ∷ []

-- ROLE_LIMITS
abbrev pub name_min : ℕ
name_min = 2

abbrev pub name_max : ℕ
name_max = 40

abbrev pub description_max : ℕ
description_max = 200

abbrev pub custom_roles : ℕ
custom_roles = 50

-- RoleError, by what its message says.
pub data RoleError : Type 0 where
  name_length name_characters description_long description_characters no_request : RoleError
  name_reserved unknown : String → RoleError
  permissions_refused : Granted → RoleError
  role_exists : String → RoleError
  role_limit system_changed system_deleted : RoleError
  role_in_use : ℕ → RoleError

-- name.replace(/\s+/g, '_'), after a space or not
unfoldable pub underscored : Bool → String → String
unfolding is_space
underscored after String.[] = String.[]
underscored after (String.◌∷◌ c s) =
    let space = is_space (code c) in
    let rest = underscored space s in
    if space then (if after then rest else String.◌∷◌ "_" rest) else String.◌∷◌ c rest

-- [a-z0-9_-]
unfoldable pub is_name_part : ℕ → Bool
unfolding is_lower is_digit
is_name_part c = is_lower c || (is_digit c || (c == b'_' || c == b'-'))

-- NAME.test(name)
unfoldable pub is_role_name : List ℕ → Bool
unfolding is_lower is_name_part
is_role_name [] = false
is_role_name (c ∷ cs) = is_lower c && every is_name_part cs

-- roleDisplayName(name)
unfoldable pub role_display_name : String → String
role_display_name String.[] = String.[]
role_display_name (String.◌∷◌ c s) =
    let rest = role_display_name s in
    if code c == b'_' || code c == b'-' then String.◌∷◌ " " rest else String.◌∷◌ c rest

unfoldable pub check_role_name : String → Result RoleError String
unfolding is_role_name units system_roles
check_role_name name = do
  refuse_if (ltb (units name) name_min || ltb name_max (units name)) name_length
  refuse_if (not (is_role_name (codes name))) name_characters
  refuse_if (any (str_eq name) (keys system_roles)) (name_reserved name)
  ok name

unfoldable pub check_description : String → Result RoleError String
unfolding units has_control
check_description s = do
  refuse_if (ltb description_max (units s)) description_long
  refuse_if (has_control s) description_characters
  ok s

-- An element of a list of permissions.
unfoldable pub value_of : Json → Value
value_of (text s) = key_text s
value_of v = other_value

unfoldable pub permissions_of : Option Json → Result RoleError (List String)
unfolding value_of normalise_permissions
permissions_of v =
    elim (normalise_permissions
      (elim (array_of v) [ none ↦ none | some vs ↦ some (map value_of vs) ])) [
        | granted keys ↦ ok keys
        | refusal ↦ err (permissions_refused refusal)
      ]

-- What parseRoleRequest returns; the name of a new role only.
pub record RoleRequest : Type 0 where
  pub name : Option String
  pub description : String
  pub permissions : List String

module _ (platform : Platform) where
  -- normaliseRoleName(raw)
  unfoldable pub normalise_role_name : Option Json → Result RoleError String
  unfolding check_role_name underscored trim to_text
  normalise_role_name raw =
      check_role_name (underscored false (platform.lower (trim (to_text platform raw))))

  -- normaliseDescription(raw)
  unfoldable pub normalise_description : Option Json → Result RoleError String
  unfolding check_description trim to_text
  normalise_description raw = check_description (trim (to_text platform raw))

  -- ...(withName ? { name: normaliseRoleName(body.name) } : {})
  unfoldable pub name_if : Bool → Option Json → Result RoleError (Option String)
  unfolding normalise_role_name
  name_if true raw = do name ← normalise_role_name raw; ok (some name)
  name_if false raw = ok none

  -- parseRoleRequest(body, { name })
  unfoldable pub parse_role_request : Bool → Option Json → Result RoleError RoleRequest
  unfolding name_if normalise_description permissions_of named_unknown_field
  parse_role_request with_name body = elim (object_of body) [
    | none ↦ err no_request
    | some fields ↦
        elim (named_unknown_field
          (if with_name
            then "name" ∷ "description" ∷ "permissions" ∷ []
            else "description" ∷ "permissions" ∷ [])
          fields) [
            | some key ↦ err (unknown key)
            | none ↦ do
              name ← name_if with_name (get "name" fields)
              description ← normalise_description (get "description" fields)
              permissions ← permissions_of (get "permissions" fields)
              ok (record { name = name; description = description; permissions = permissions })
          ]
  ]
