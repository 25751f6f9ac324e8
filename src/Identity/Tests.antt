-- ===== src/Identity/Tests.antt =====
-- The theorems about codes at the secret "12345", with a digest that does not look at its input.
use nuvrion.Common.{
  ℕ, arith, get, ◌<◌, ◌≡◌, refl, true, false, none, some, List, [], ◌∷◌, ◌++◌, String, length, All,
  every,
}
use nuvrion.Identity.Roles.{
  includes, needs, check_texts, check_keys, check_needs, missing_of, permission_keys,
}
use nuvrion.Identity.Grants.{check_texts-granted}
use nuvrion.Identity.Base32.{
  encode_digits, letter, is_filler, is_base32, base32_encode, base32_decode,
}
use nuvrion.Identity.RoundTrip.{base32_decode-base32_encode}
use nuvrion.Identity.Totp.{
  Platform, hotp, accepted, time_step, verify_totp, normalise_code, code_digits, judge_step,
  match_steps, same_text,
}
use nuvrion.Identity.Codes.{Matches, verify_totp-accepted}
use nuvrion.Identity.Mfa.{
  Body, check_input, text, object, wrong, evaluate, locked_for, after_success,
}
use nuvrion.Identity.SingleUse.{Unused, spend, is_granted, evaluate-spend}
use nuvrion.Identity.Lockout.{after_failures, after_failures-lock}
use nuvrion.Identity.RateLimiter.{check}
use nuvrion.Identity.History.{checked, failed, was_reset, after, failures_of, UpTo, Event}
use nuvrion.Identity.SignIn.{check-after}

abbrev platform : Platform
platform = record {
  hmac = λ key message. 0 ∷ 0 ∷ 0 ∷ 7 ∷ 0 ∷ [];
  sha256 = λ t. t;
  upper = λ t. t;
  lower = λ t. t;
}

abbrev secret_bytes : List ℕ
secret_bytes = 49 ∷ 50 ∷ 51 ∷ 52 ∷ 53 ∷ []

abbrev secret : List ℕ
secret = b'G' ∷ b'E' ∷ b'Z' ∷ b'D' ∷ b'G' ∷ b'N' ∷ b'B' ∷ b'V' ∷ []

encoded : base32_encode secret_bytes ≡ secret
unfolding base32_encode encode_digits letter
encoded = refl

base32_decode-base32_encode_example :
    base32_decode (λ t. t) (base32_encode secret_bytes) ≡ some secret_bytes
base32_decode-base32_encode_example =
    base32_decode-base32_encode (λ t. t) secret_bytes (λ t h. refl)
      (omega arith, (omega arith, (omega arith, (omega arith, (omega arith, tt)))))

abbrev seven : List ℕ
seven = b'0' ∷ b'0' ∷ b'0' ∷ b'0' ∷ b'0' ∷ b'7' ∷ []

takes_seven : verify_totp platform secret seven 3000000 0 1 ≡ accepted 99
unfolding verify_totp normalise_code is_filler base32_decode is_base32 judge_step match_steps
    time_step same_text hotp
takes_seven = refl

verify_totp-accepted_example :
    (bytes wanted : List ℕ) × (base32_decode platform.upper secret ≡ some bytes)
    × (normalise_code seven ≡ some wanted)
    × (0 < 99)
    × Matches (λ s. hotp platform bytes s code_digits) wanted (time_step 3000000) 1 99
verify_totp-accepted_example = verify_totp-accepted platform secret seven 3000000 0 1 99 takes_seven

abbrev fresh : Unused
fresh = record { last_step = 0; hashes = [] }

abbrev given : Body
given = object (some (text seven)) none

evaluate-spend_example :
    evaluate platform secret
      (spend (evaluate platform secret 0 [] given 3000000) fresh).last_step
      (spend (evaluate platform secret 0 [] given 3000000) fresh).hashes
      given
      3000000
    ≡ wrong
unfolding evaluate check_input is_granted verify_totp normalise_code is_filler base32_decode
    is_base32 judge_step match_steps time_step same_text hotp
evaluate-spend_example = evaluate-spend platform secret fresh given 3000000 refl

-- Ten wrong codes in ten seconds.
after_failures-lock_example :
    locked_for
      (after_failures after_success
        (1000 ∷ (2000 ∷ 3000 ∷ 4000 ∷ 5000 ∷ 6000 ∷ 7000 ∷ 8000 ∷ 9000 ∷ []) ++ 10000 ∷ []))
      10000
    ≡ 900
after_failures-lock_example =
    after_failures-lock 1000 (2000 ∷ 3000 ∷ 4000 ∷ 5000 ∷ 6000 ∷ 7000 ∷ 8000 ∷ 9000 ∷ []) 10000
      (omega arith)
      (
        omega arith,
        (
          omega arith,
          (
            omega arith,
            (omega arith, (omega arith, (omega arith, (omega arith, (omega arith, tt))))),
          ),
        ),
      )
      (omega arith)

-- Two failures with a reset before them, under a limit of two.
abbrev evening : List Event
evening =
    failed "k" 3000 ∷ checked "k" 2500 ∷ failed "k" 2000 ∷ was_reset "k" 1500 ∷ failed "k" 1000 ∷ []

check-after_example : (check "k" 4000 (after 2 300000 evening)).0.allowed ≡ false
unfolding failures_of UpTo
check-after_example =
    check-after 2 300000 4000 evening "k"
      (omega arith, (omega arith, (omega arith, (omega arith, (omega arith, tt)))))

-- A request that names its permissions in another order.
abbrev wished : List String
wished = "resource.operate" ∷ "audit.view" ∷ "resource.view" ∷ []

abbrev given_keys : List String
given_keys = "resource.view" ∷ "resource.operate" ∷ "audit.view" ∷ []

check_texts-granted_example :
    (0 < length given_keys)
    × (includes given_keys "audit.view" ≡ includes wished "audit.view")
    × All (λ k. every (includes given_keys) (needs k) ≡ true) given_keys
unfolding check_texts check_keys check_needs missing_of permission_keys needs get
check_texts-granted_example = check_texts-granted wished given_keys "audit.view" refl
