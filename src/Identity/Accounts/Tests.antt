-- ===== src/Identity/Accounts/Tests.antt =====
-- The identity service of modules/identity/src/identity-service.js with plain functions for what it calls.
use nuvrion.Common.{
  ℕ, zero, suc, ◌+◌, ◌*◌, ◌≡◌, refl, String, text_append, Bool, true, false, Option, none, some,
  List, [], ◌∷◌, map, str_eq, get, values, length,
}
use nuvrion.Common.Json
use nuvrion.Common.Json.{Json, text, null, object, array, cons, nil, field, end, int}
use nuvrion.Common.Results.{ok, err}
use nuvrion.Identity.Totp
use nuvrion.Identity.Roles.{permission_keys}
use nuvrion.Identity.RoleRequests.{parse_role_request, unknown, system_deleted}
use nuvrion.Identity.Accounts.State.{
  active, User, Service, Means, PublicUser, last_admin, version_conflict, username_exists,
  password_too_short, role_refused,
}
use nuvrion.Identity.Accounts.Users.{NewUser, create_user, update_user, new_service}
use nuvrion.Identity.Accounts.Sessions.{authenticate, session_at}
use nuvrion.Identity.Accounts.RoleAdmin.{delete_role}
use nuvrion.Identity.Accounts.Standing.{Sound}
use nuvrion.Identity.Accounts.Guarantees.{
  AllNew, Call, creates_user, updates_user, signs_in, run, run-Sound,
}

-- A text that is longer for each number.
abbrev pub tally : String → ℕ → String
tally start zero = start
tally start (suc n) = text_append (tally start n) "i"

abbrev texts : Json.Platform
texts = record { lower = λ s. s; shown = λ v. "" }

abbrev pub otp : Totp.Platform
otp = record { hmac = λ k m. []; sha256 = λ t. t; upper = λ t. t; lower = λ t. t }

abbrev pub means : Means
means = record {
  texts = texts;
  otp = otp;
  uuid = tally "u";
  token = tally "t";
  bytes = λ n. [];
  letter_index = λ n i. 0;
  sha256 = λ s. s;
  hash_password = λ p n. p;
  password_matches = str_eq;
  needs_rehash = λ h. false;
  encrypt = λ secret context n. "sealed";
  decrypt = λ sealed context. some [];
}

abbrev pub secret_word : String
secret_word = "correct horse"

abbrev pub founded : Service
founded = (new_service means secret_word 1000 5000 1).1

abbrev bob : NewUser
bob = record {
  username = some (text " bob ");
  display_name = some (text "Bob");
  password = some (text "battery staple");
  roles = none;
  status = none;
  must_change_password = none;
  mfa_required = none;
}

abbrev names_of : Service → List String
names_of s = map (λ (u : User). u.username) (values s.users)

founded_names : names_of founded ≡ "admin" ∷ []
unfolding values new_service get nuvrion.Common.put
founded_names = refl

bob_joins : names_of (create_user means bob 2 founded).1 ≡ "admin" ∷ "bob" ∷ []
unfolding values create_user get new_service nuvrion.Common.put
bob_joins = refl

bob_twice : (create_user means bob 3 (create_user means bob 2 founded).1).0 ≡ err username_exists
unfolding create_user get new_service nuvrion.Common.put
bob_twice = refl

short_password :
    (create_user means (record bob { password = some (text "battery") }) 2 founded).0
    ≡ err password_too_short
unfolding create_user get new_service
short_password = refl

abbrev admins : Option Json
admins = some (array (cons (text "platform_admin") nil))

abbrev operators : Option Json
operators = some (array (cons (text "operator") nil))

abbrev pub admin_id : String
admin_id = tally "u" 4

-- The only administrator can neither be locked nor lose the role.
last_locked : (update_user admin_id (some (text "locked")) admins none 1 founded).0 ≡ err last_admin
unfolding update_user get new_service nuvrion.Common.put
last_locked = refl

last_demoted :
    (update_user admin_id (some (text "active")) operators none 1 founded).0 ≡ err last_admin
unfolding update_user get new_service nuvrion.Common.put
last_demoted = refl

old_version :
    (update_user admin_id (some (text "active")) admins none 7 founded).0 ≡ err version_conflict
unfolding update_user get new_service nuvrion.Common.put
old_version = refl

builtin_kept : (delete_role "auditor" founded).0 ≡ err (role_refused system_deleted)
unfolding delete_role get new_service
builtin_kept = refl

-- Signing in, and a session that is seen until it was idle too long.
signed_in : length (authenticate means "admin" secret_word 10 founded).1.sessions ≡ 1
unfolding authenticate new_service get nuvrion.Common.put
signed_in = refl

wrong_password : (authenticate means "admin" "guess" 10 founded).0 ≡ none
unfolding authenticate new_service get nuvrion.Common.put
wrong_password = refl

abbrev token_text : String
token_text = tally "t" 6

idle_too_long :
    length
      (session_at means
        (some token_text)
        2000
        (authenticate means "admin" secret_word 10 founded).1).1.sessions
    ≡ 0
unfolding session_at get authenticate new_service nuvrion.Common.put nuvrion.Common.remove
idle_too_long = refl

-- A field named "" hides those that follow it.
abbrev reader : Option Json
reader = some (array (cons (text "resource.view") nil))

hidden_field :
    parse_role_request texts false (
      some (
        object (
          field "" null (
            field "bogus" null
              (field "permissions" (array (cons (text "resource.view") nil)) end)))))
    ≡ ok (record { name = none; description = ""; permissions = "resource.view" ∷ [] })
unfolding parse_role_request get nuvrion.Identity.Roles.needs
hidden_field = refl

bogus_field :
    parse_role_request texts false (
      some (
        object
          (field "bogus" null (field "permissions" (array (cons (text "resource.view") nil)) end))))
    ≡ err (unknown "bogus")
unfolding parse_role_request
bogus_field = refl

abbrev day : List (Call × ℕ)
day =
    (creates_user bob, 2)
    ∷ (signs_in "bob" "battery staple", 3)
    ∷ (updates_user (tally "u" 7) (some (text "locked")) operators none 1, 4)
    ∷ (updates_user admin_id (some (text "locked")) admins none 1, 5)
    ∷ []

abbrev first : PublicUser
first = record {
  id = admin_id;
  username = "admin";
  display_name = "Platform Administrator";
  status = active;
  roles = "platform_admin" ∷ [];
  permissions = permission_keys;
  mfa_enrolled = false;
  mfa_required = false;
  must_change_password = false;
  row_version = 1;
}

founded_first : (new_service means secret_word 1000 5000 1).0 ≡ ok (first, tally "t" 3)
unfolding new_service get
founded_first = refl

day_new : AllNew means day founded
unfolding get new_service nuvrion.Common.put
day_new = (refl, (tt, (tt, (tt, tt))))

run-Sound_example : Sound (run means day founded)
run-Sound_example =
    run-Sound means secret_word 1000 5000 1 (first, tally "t" 3) day founded_first day_new
