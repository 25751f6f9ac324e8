-- ===== src/Identity/Accounts/State.antt =====
-- The state of modules/identity/src/identity-service.js, and what its methods share. Tokens, identifiers, secrets and
-- salts are drawn one after the other, and `drawn` counts them.
use nuvrion.Common.{
  ℕ, String, Bool, false, not, Option, none, some, List, [], ◌∷◌, ◌++◌, filter_by, length, str_eq,
  Assoc, get, put, ◌==◌, if◌then◌else◌,
}
use nuvrion.Common.Json
use nuvrion.Common.Results.{Result, ok, err}
use nuvrion.Identity.Totp
use nuvrion.Identity.Mfa.{Failures, State, state_for}
use nuvrion.Identity.RoleRequests.{RoleError}
use nuvrion.Inventory.TagRequest.{distinct}

pub data Status : Type 0 where
  active pending locked disabled : Status

-- user.mfa, whose sealed secret is `secret` once it is enabled, and `pending` before; there is the other one never.
pub record Factor : Type 0 where
  pub enabled : Bool
  pub sealed : String
  pub failures : Failures
  pub backup_hashes : List (List ℕ)
  pub last_step : ℕ
  pub enrolled_at : Option ℕ

pub record User : Type 0 where
  pub id : String
  pub username : String
  pub normalized_username : String
  pub display_name : String
  pub status : Status
  pub roles : List String
  pub must_change_password : Bool
  pub mfa_required : Bool
  pub row_version : ℕ
  pub password_hash : String
  pub recovery_code_hash : String
  pub created_at : ℕ
  pub mfa : Option Factor

pub record Session : Type 0 where
  pub id_hash : String
  pub user_id : String
  pub csrf : String
  pub created_at : ℕ
  pub last_seen_at : ℕ
  pub idle_expires_at : ℕ
  pub absolute_expires_at : ℕ
  pub mfa_verified_at : Option ℕ
  pub mfa_failures : ℕ

pub record Role : Type 0 where
  pub id : String
  pub name : String
  pub display_name : String
  pub description : String
  pub system : Bool
  pub permissions : List String
  pub row_version : ℕ

pub record Service : Type 0 where
  pub users : Assoc User
  pub sessions : Assoc Session
  pub roles : Assoc Role
  pub idle_timeout : ℕ
  pub absolute_timeout : ℕ
  pub drawn : ℕ

-- What the service calls: texts, one-time passwords, the n-th identifier, token, bytes and letter of a backup code
-- drawn, SHA-256, the password hashes, and the cipher under a context. `none` is what decrypt throws at.
pub record Means : Type 0 where
  pub texts : Json.Platform
  pub otp : Totp.Platform
  pub uuid : ℕ → String
  pub token : ℕ → String
  pub bytes : ℕ → List ℕ
  pub letter_index : ℕ → ℕ → ℕ
  pub sha256 : String → String
  pub hash_password : String → ℕ → String
  pub password_matches : String → String → Bool
  pub needs_rehash : String → Bool
  pub encrypt : List ℕ → String → ℕ → String
  pub decrypt : String → String → Option (List ℕ)

-- The errors that the methods throw.
pub data AccountError : Type 0 where
  user_invalid password_too_short username_exists version_conflict last_admin user_not_found :
      AccountError
  password_incorrect password_unchanged : AccountError
  role_refused : RoleError → AccountError
  throttled : ℕ → AccountError
  code_invalid session_revoked already_enrolled not_started not_enrolled : AccountError
  required_for_account request_refused secret_refused : AccountError

-- What a method that throws leaves: its error or its result, and the state.
abbrev pub Outcome : Type 0 → Type 0
Outcome A = Result AccountError A × Service

-- The rest of a method after checks that change nothing.
abbrev pub after {ℓ} :
    {B : Type ℓ} {A : Type 0} → Service → Result AccountError B → (B → Outcome A) → Outcome A
after s (err e) next = (err e, s)
after s (ok b) next = next b

-- user.mfa?.enabled
unfoldable pub is_enrolled : User → Bool
is_enrolled u = elim u.mfa [ none ↦ false | some f ↦ f.enabled ]

-- Boolean(session.mfaVerifiedAt)
unfoldable pub is_verified : Session → Bool
is_verified session = elim session.mfa_verified_at [ none ↦ false | some at ↦ not (at == 0) ]

-- #mfaState(user, session)
unfoldable pub mfa_state : User → Session → State
unfolding state_for is_enrolled is_verified
mfa_state u session = state_for (is_enrolled u) (is_verified session) u.mfa_required

pub record PublicUser : Type 0 where
  pub id : String
  pub username : String
  pub display_name : String
  pub status : Status
  pub roles : List String
  pub permissions : List String
  pub mfa_enrolled : Bool
  pub mfa_required : Bool
  pub must_change_password : Bool
  pub row_version : ℕ

-- user.roles.flatMap(r => this.#roles.get(r)?.permissions ?? [])
unfoldable pub permissions_in : Assoc Role → List String → List String
permissions_in roles [] = []
permissions_in roles (r ∷ rs) =
    elim (get r roles) [ none ↦ [] | some role ↦ role.permissions ] ++ permissions_in roles rs

-- publicUser(user)
unfoldable pub public_user : Service → User → PublicUser
unfolding permissions_in is_enrolled distinct
public_user s u = record {
  id = u.id;
  username = u.username;
  display_name = u.display_name;
  status = u.status;
  roles = u.roles;
  permissions = distinct (permissions_in s.roles u.roles);
  mfa_enrolled = is_enrolled u;
  mfa_required = u.mfa_required;
  must_change_password = u.must_change_password;
  row_version = u.row_version;
}

-- this.#users.set(user.id, user), also where the source changes the user in place
unfoldable pub keep_user : User → Service → Service
keep_user u s = record s { users = put u.id u s.users }

unfoldable pub keep_session : Session → Service → Service
keep_session session s = record s { sessions = put session.id_hash session s.sessions }

-- Sessions that a test picks are deleted; how many there were.
unfoldable pub revoke_where : (String × Session → Bool) → Service → ℕ × Service
revoke_where p s =
    (length (filter_by p s.sessions), record s { sessions = filter_by (λ e. not (p e)) s.sessions })

-- revokeSessions(userId)
unfoldable pub revoke_sessions : String → Service → ℕ × Service
unfolding revoke_where
revoke_sessions user_id s = revoke_where (λ e. str_eq e.1.user_id user_id) s

-- #session(userId, sessionId)
unfoldable pub session_of : String → String → Service → Option Session
session_of user_id session_id s = elim (get session_id s.sessions) [
  | none ↦ none
  | some session ↦ if str_eq session.user_id user_id then some session else none
]
