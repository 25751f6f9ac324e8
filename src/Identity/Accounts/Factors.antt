-- ===== src/Identity/Accounts/Factors.antt =====
-- Two-step sign-in of modules/identity/src/identity-service.js, by the rules of mfa.js and totp.js.
use nuvrion.Common.{
  ℕ, ◌+◌, String, text_append, Bool, true, false, not, Option, none, some, List, [], map, str_eq,
  get, remove, length, leb, ◌==◌, if◌then◌else◌,
}
use nuvrion.Common.Results.{Result, ok, err, refuse_if, ◌>>=◌, ◌>>◌}
use nuvrion.Identity.Base32.{base32_encode}
use nuvrion.Identity.Totp.{Verdict, rejected, secret_invalid, accepted, verify_totp}
use nuvrion.Identity.BackupCodes.{generate_backup_codes, without_dash, hash_backup_code}
use nuvrion.Identity.Mfa.{
  Field, object, bad_request, code, backup_code, check_input, Answer, locked_for, after_failure,
  after_success,
}
use nuvrion.Identity.SingleUse.{spend}
use nuvrion.Identity.Accounts.State.{
  Factor, User, Session, Service, Means, AccountError, user_not_found, throttled, code_invalid,
  session_revoked, already_enrolled, not_started, request_refused, secret_refused, Outcome, after,
  is_enrolled, keep_user, keep_session,
}

-- MFA_LIMITS.sessionFailures
abbrev pub session_failures : ℕ
session_failures = 5

-- TOTP.backupCodes
abbrev pub backup_codes : ℕ
backup_codes = 10

-- What mfaStatus says.
pub record FactorStatus : Type 0 where
  pub enrolled : Bool
  pub enrolled_at : Option ℕ
  pub backup_codes_remaining : ℕ
  pub required : Bool

unfoldable pub status_of_factor : User → FactorStatus
unfolding is_enrolled
status_of_factor u = record {
  enrolled = is_enrolled u;
  enrolled_at = elim u.mfa [ none ↦ none | some f ↦ f.enrolled_at ];
  backup_codes_remaining =
      if is_enrolled u then (elim u.mfa [ none ↦ 0 | some f ↦ length f.backup_hashes ]) else 0;
  required = u.mfa_required;
}

-- mfaStatus(userId)
unfoldable pub mfa_status : String → Service → Result AccountError FactorStatus
unfolding status_of_factor
mfa_status id s = elim (get id s.users) [
  | none ↦ err user_not_found
  | some u ↦ ok (status_of_factor u)
]

-- user.mfa, if it is enabled
unfoldable pub enabled_factor : User → Option Factor
enabled_factor u = elim u.mfa [ none ↦ none | some f ↦ if f.enabled then some f else none ]

unfoldable pub set_factor : Option Factor → User → User
set_factor mfa u = record u { mfa = mfa }

-- #fail(user, session), with a session that counts the wrong code or none
unfoldable pub fail_code : User → Factor → Option Session → ℕ → Service → AccountError × Service
unfolding after_failure keep_user keep_session set_factor
fail_code u f session now s =
    let s' =
      keep_user (set_factor (some (record f { failures = after_failure f.failures now })) u) s in
    elim session [
      | none ↦ (code_invalid, s')
      | some e ↦
          if leb session_failures (e.mfa_failures + 1)
          then (session_revoked, record s' { sessions = remove e.id_hash s'.sessions })
          else (code_invalid, keep_session (record e { mfa_failures = e.mfa_failures + 1 }) s')
    ]

-- #guard(user)
unfoldable pub unlocked : Factor → ℕ → Result AccountError (Unit {0})
unfolding locked_for
unlocked f now =
    refuse_if (not (locked_for f.failures now == 0)) (throttled (locked_for f.failures now))

-- A factor after the right answer: what it used up is gone, and the failures are forgotten.
unfoldable pub spent : Answer → Factor → Factor
unfolding spend after_success
spent answer f =
    let left = spend answer (record { last_step = f.last_step; hashes = f.backup_hashes }) in
    record f { failures = after_success; backup_hashes = left.hashes; last_step = left.last_step }

-- A session is verified, or not any more; the others of the person are not.
unfoldable pub verify_only : String → String → ℕ → Service → Service
verify_only user_id session_id now s = record s {
  sessions =
      map {B = String × Session}
        (λ e. (
          e.0,
          if str_eq e.1.user_id user_id
              then record e.1 { mfa_verified_at = if str_eq e.0 session_id then some now else none }
              else e.1,
        ))
        s.sessions;
}

unfoldable pub hash_codes : Means → List (List ℕ) → List (List ℕ)
unfolding hash_backup_code without_dash
hash_codes means codes = map (λ item. hash_backup_code means.otp (without_dash item)) codes

module _ (means : Means) where
  -- `nuvrion:totp:${user.id}`
  unfoldable pub context : String → String
  context id = text_append "nuvrion:totp:" id

  -- #secretOf(user), in whichever field it is
  unfoldable pub secret_of : User → Factor → Result AccountError (List ℕ)
  unfolding context
  secret_of u f = elim (means.decrypt f.sealed (context u.id)) [
    | none ↦ err secret_refused
    | some secret ↦ ok secret
  ]

  -- The codes that generateBackupCodes draws.
  unfoldable pub drawn_codes : Service → List (List ℕ)
  unfolding generate_backup_codes
  drawn_codes s = generate_backup_codes (means.letter_index s.drawn) 0 backup_codes

  -- A factor that waits for its first code.
  unfoldable pub started : User → List ℕ → ℕ → Factor
  unfolding context
  started u secret n = record {
    enabled = false;
    sealed = means.encrypt secret (context u.id) n;
    failures = elim u.mfa [
      | none ↦ record { failed_count = 0; failed_since = none; locked_until = none }
      | some f ↦ f.failures
    ];
    backup_hashes = [];
    last_step = 0;
    enrolled_at = none;
  }

  -- mfaStartEnrollment(userId): the secret, without the address that names it
  unfoldable pub mfa_start_enrollment : String → Service → Outcome (List ℕ)
  unfolding is_enrolled base32_encode started keep_user set_factor
  mfa_start_enrollment id s = elim (get id s.users) [
    | none ↦ (err user_not_found, s)
    | some u ↦ if is_enrolled u then (err already_enrolled, s) else (
      ok (base32_encode (means.bytes s.drawn)),
      record (keep_user
          (set_factor (some (started u (base32_encode (means.bytes s.drawn)) (s.drawn + 1))) u) s) {
            drawn = s.drawn + 2;
          },
    )
  ]

  -- checkInput({ code }): the text
  unfoldable pub code_of : Option Field → Result AccountError (List ℕ)
  unfolding check_input
  code_of field = elim (check_input (object field none)) [
    | bad_request ↦ err request_refused
    | backup_code t ↦ err request_refused
    | code t ↦ ok t
  ]

  -- A factor that its first code confirmed.
  unfoldable pub confirmed : Factor → ℕ → List (List ℕ) → ℕ → Factor
  unfolding after_success hash_codes
  confirmed f step codes now = record {
    enabled = true;
    sealed = f.sealed;
    failures = after_success;
    backup_hashes = hash_codes means codes;
    last_step = step;
    enrolled_at = some now;
  }

  -- The checks of mfaConfirmEnrollment: the factor, the secret and the code.
  unfoldable pub ready_to_confirm :
      User → Option Field → ℕ → Result AccountError (Factor × List ℕ × List ℕ)
  unfolding code_of unlocked secret_of
  ready_to_confirm u field now = elim u.mfa [
    | none ↦ err not_started
    | some f ↦
        if f.enabled
        then err already_enrolled
        else do t ← code_of field; unlocked f now; secret ← secret_of u f; ok (f, secret, t)
  ]

  unfoldable pub confirm : User → String → Factor → Verdict → ℕ → Service → Outcome (List (List ℕ))
  unfolding fail_code drawn_codes confirmed keep_user verify_only set_factor
  confirm u session_id f secret_invalid now s = (err secret_refused, s)
  confirm u session_id f rejected now s =
      let (reason, s') = fail_code u f none now s in (err reason, s')
  confirm u session_id f (accepted step) now s = (
    ok (drawn_codes s),
    verify_only u.id session_id now
        (record (keep_user (set_factor (some (confirmed f step (drawn_codes s) now)) u) s) {
          drawn = s.drawn + 1;
        }),
  )

  -- mfaConfirmEnrollment(userId, sessionId, code): the backup codes
  unfoldable pub mfa_confirm_enrollment :
      String → String → Option Field → ℕ → Service → Outcome (List (List ℕ))
  unfolding ready_to_confirm confirm verify_totp
  mfa_confirm_enrollment id session_id field now s = elim (get id s.users) [
    | none ↦ (err user_not_found, s)
    | some u ↦ after s (ready_to_confirm u field now) λ (r : Factor × List ℕ × List ℕ).
        confirm u session_id r.0 (verify_totp means.otp r.1 r.2 now 0 1) now s
  ]
