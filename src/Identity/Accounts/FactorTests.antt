-- ===== src/Identity/Accounts/FactorTests.antt =====
-- Signing in with a second factor in modules/identity/src/identity-service.js.
use nuvrion.Common.{
  ℕ, ◌≡◌, refl, String, Bool, true, false, Option, none, some, List, [], ◌∷◌, get, ◌⊎◌, inl, inr,
}
use nuvrion.Identity.Mfa.{Field, text, object}
use nuvrion.Identity.Accounts.State.{Service, Means, is_verified}
use nuvrion.Identity.Accounts.Guarantees.{
  Call, signs_in, starts_factor, confirms_factor, verifies_factor, run,
}
use nuvrion.Identity.Accounts.Waiting.{Waits}
use nuvrion.Identity.Accounts.Verified.{SomeProves, run-Waits}
use nuvrion.Identity.Accounts.Tests.{means, otp, founded, secret_word, admin_id, tally}

-- Every code is 000007, and every secret AAAAAAAA.
abbrev sevens : Means
sevens = record means {
  otp = record otp { hmac = λ key message. 0 ∷ 0 ∷ 0 ∷ 7 ∷ 0 ∷ [] };
  bytes = λ n. 0 ∷ 0 ∷ 0 ∷ 0 ∷ 0 ∷ [];
  decrypt = λ sealed context. some (b'A' ∷ b'A' ∷ b'A' ∷ b'A' ∷ b'A' ∷ b'A' ∷ b'A' ∷ b'A' ∷ []);
}

abbrev code_of_seven : Field
code_of_seven = text (b'0' ∷ b'0' ∷ b'0' ∷ b'0' ∷ b'0' ∷ b'7' ∷ [])

-- The identifiers of the first two sessions.
abbrev first_id : String
first_id = tally "t" 6

abbrev second_id : String
second_id = tally "t" 11

abbrev enrolled : List (Call × ℕ)
enrolled =
    (signs_in "admin" secret_word, 60000)
    ∷ (starts_factor admin_id, 60001)
    ∷ (confirms_factor admin_id first_id (some code_of_seven), 60002)
    ∷ (signs_in "admin" secret_word, 60003)
    ∷ []

abbrev verified_at : String → Service → Option Bool
verified_at id s = elim (get id s.sessions) [
  | none ↦ none
  | some session ↦ some (is_verified session)
]

first_verified : verified_at first_id (run sevens enrolled founded) ≡ some true
unfolding run get nuvrion.Identity.Accounts.Sessions.authenticate
    nuvrion.Identity.Accounts.Factors.mfa_confirm_enrollment
    nuvrion.Identity.Accounts.Factors.mfa_start_enrollment
    nuvrion.Identity.Accounts.Users.new_service nuvrion.Common.put
    nuvrion.Identity.Totp.normalise_code nuvrion.Identity.Base32.is_filler
    nuvrion.Identity.Base32.base32_decode nuvrion.Identity.Base32.is_base32
    nuvrion.Identity.Totp.judge_step nuvrion.Identity.Totp.match_steps
    nuvrion.Identity.Totp.time_step nuvrion.Identity.Totp.same_text nuvrion.Identity.Totp.hotp
first_verified = refl

second_waits : verified_at second_id (run sevens enrolled founded) ≡ some false
unfolding run get nuvrion.Identity.Accounts.Sessions.authenticate
    nuvrion.Identity.Accounts.Factors.mfa_confirm_enrollment
    nuvrion.Identity.Accounts.Factors.mfa_start_enrollment
    nuvrion.Identity.Accounts.Users.new_service nuvrion.Common.put
    nuvrion.Identity.Totp.normalise_code nuvrion.Identity.Base32.is_filler
    nuvrion.Identity.Base32.base32_decode nuvrion.Identity.Base32.is_base32
    nuvrion.Identity.Totp.judge_step nuvrion.Identity.Totp.match_steps
    nuvrion.Identity.Totp.time_step nuvrion.Identity.Totp.same_text nuvrion.Identity.Totp.hotp
second_waits = refl

-- A code of the step that was used before is wrong, one of the next is right.
same_step :
    verified_at second_id (
      run sevens
        ((verifies_factor admin_id second_id (object (some code_of_seven) none), 60004) ∷ [])
        (run sevens enrolled founded))
    ≡ some false
unfolding run get nuvrion.Identity.Accounts.Verify.mfa_verify
    nuvrion.Identity.Accounts.Sessions.authenticate
    nuvrion.Identity.Accounts.Factors.mfa_confirm_enrollment
    nuvrion.Identity.Accounts.Factors.mfa_start_enrollment
    nuvrion.Identity.Accounts.Users.new_service nuvrion.Common.put
    nuvrion.Identity.Totp.normalise_code nuvrion.Identity.Base32.is_filler
    nuvrion.Identity.Base32.base32_decode nuvrion.Identity.Base32.is_base32
    nuvrion.Identity.Totp.judge_step nuvrion.Identity.Totp.match_steps
    nuvrion.Identity.Totp.time_step nuvrion.Identity.Totp.same_text nuvrion.Identity.Totp.hotp
same_step = refl

next_step :
    verified_at second_id (
      run sevens
        ((verifies_factor admin_id second_id (object (some code_of_seven) none), 90000) ∷ [])
        (run sevens enrolled founded))
    ≡ some true
unfolding run get nuvrion.Identity.Accounts.Verify.mfa_verify
    nuvrion.Identity.Accounts.Sessions.authenticate
    nuvrion.Identity.Accounts.Factors.mfa_confirm_enrollment
    nuvrion.Identity.Accounts.Factors.mfa_start_enrollment
    nuvrion.Identity.Accounts.Users.new_service nuvrion.Common.put
    nuvrion.Identity.Totp.normalise_code nuvrion.Identity.Base32.is_filler
    nuvrion.Identity.Base32.base32_decode nuvrion.Identity.Base32.is_base32
    nuvrion.Identity.Totp.judge_step nuvrion.Identity.Totp.match_steps
    nuvrion.Identity.Totp.time_step nuvrion.Identity.Totp.same_text nuvrion.Identity.Totp.hotp
next_step = refl

run-Waits_example :
    Waits second_id (run sevens enrolled founded) ⊎ SomeProves sevens second_id enrolled founded
unfolding nuvrion.Identity.Accounts.Users.new_service get
run-Waits_example = run-Waits sevens second_id enrolled founded tt
