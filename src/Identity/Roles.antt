-- ===== src/Identity/Roles.antt =====
-- The permissions of a role, of modules/identity/src/roles.js.
use nuvrion.Common.{
  String, Bool, not, Option, none, some, List, [], ◌∷◌, any, filter_by, find_by, str_eq, or_else,
  get, Assoc,
}

-- IMPLIES
abbrev pub implied_by : Assoc (List String)
implied_by =
    ("resource.operate", "resource.view" ∷ [])
    ∷ ("resource.tag", "resource.view" ∷ [])
    ∷ ("connection.manage", "connection.view" ∷ [])
    ∷ ("identity.manage", "resource.view" ∷ [])
    ∷ ("alert.manage", "resource.view" ∷ [])
    ∷ ("schedule.manage", "resource.view" ∷ "resource.operate" ∷ [])
    ∷ []

-- PERMISSION_KEYS, the keys of CATALOGUE
unfoldable pub permission_keys : List String
permission_keys =
    "resource.view" ∷ "resource.operate" ∷ "resource.tag" ∷ "schedule.manage" ∷ "connection.view"
    ∷ "connection.manage" ∷ "audit.view" ∷ "identity.manage" ∷ "alert.manage" ∷ "platform.manage"
    ∷ []

-- IMPLIES[key] ?? []
unfoldable pub needs : String → List String
needs key = or_else (get key implied_by) []

-- keys.includes(key)
abbrev pub includes : List String → String → Bool
includes keys key = any (str_eq key) keys

-- An element of the request's list: a text, or another value.
pub data Value : Type 0 where
  key_text : String → Value
  other_value : Value

pub data Granted : Type 0 where
  not_list not_key nothing_granted : Granted
  unknown_key : String → Granted
  needs_also : String → List String → Granted
  granted : List String → Granted

-- The texts of the list, if all its elements are texts.
unfoldable pub texts_of : List Value → Option (List String)
texts_of [] = some []
texts_of (other_value ∷ values) = none
texts_of (key_text k ∷ values) = elim (texts_of values) [ none ↦ none | some ks ↦ some (k ∷ ks) ]

unfoldable pub missing_of : List String → String → List String
missing_of keys key = filter_by (λ needed. not (includes keys needed)) (needs key)

-- The loop over the keys: the first key that misses another one, with what it misses.
unfoldable pub check_needs : List String → List String → Granted
unfolding missing_of
check_needs keys [] = granted keys
check_needs keys (key ∷ rest) =
    let later = check_needs keys rest in
    elim (missing_of keys key) [ [] ↦ later | m ∷ ms ↦ needs_also key (m ∷ ms) ]

unfoldable pub check_keys : List String → Granted
unfolding check_needs
check_keys [] = nothing_granted
check_keys (k ∷ ks) = check_needs (k ∷ ks) (k ∷ ks)

unfoldable pub check_texts : List String → Granted
unfolding check_keys permission_keys
check_texts raw = elim (find_by (λ key. not (includes permission_keys key)) raw) [
  | some key ↦ unknown_key key
  | none ↦ check_keys (filter_by (includes raw) permission_keys)
]

-- normalisePermissions(raw); `none` is a value that is no list.
unfoldable pub normalise_permissions : Option (List Value) → Granted
unfolding check_texts texts_of
normalise_permissions none = not_list
normalise_permissions (some values) = elim (texts_of values) [
  | none ↦ not_key
  | some raw ↦ check_texts raw
]

-- permissionsBeyond(held, wanted)
unfoldable pub permissions_beyond : List String → List String → List String
permissions_beyond held wanted = filter_by (λ key. not (includes held key)) wanted
