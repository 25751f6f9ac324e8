-- ===== src/Identity/Mfa.antt =====
-- Two-factor rules of modules/identity/src/mfa.js: the state of a session, the count of wrong codes, and
-- what a given code is worth.
use nuvrion.Common.{
  ℕ, ◌+◌, ◌-◌, ◌/◌, Bool, true, ◌||◌, Option, none, some, List, any, ltb, leb, length,
  if◌then◌else◌,
}
use nuvrion.Identity.Totp.{
  Platform, Verdict, rejected, secret_invalid, accepted, same_text, verify_totp,
}
use nuvrion.Identity.BackupCodes.{normalise_backup_code, hash_backup_code}

-- MFA_LIMITS
abbrev pub user_failures : ℕ
user_failures = 10

abbrev pub window_ms : ℕ
window_ms = 900000

abbrev pub lock_ms : ℕ
lock_ms = 900000

pub data State : Type 0 where
  verified verification_required enrollment_required : State

-- stateFor({ enrolled, verified, required })
unfoldable pub state_for : Bool → Bool → Bool → State
state_for enrolled is_verified required =
    if enrolled
    then (if is_verified then verified else verification_required)
    else (if required then enrollment_required else verified)

pub record Failures : Type 0 where
  pub failed_count : ℕ
  pub failed_since : Option ℕ
  pub locked_until : Option ℕ

-- lockedFor(record, now): the seconds that are left, rounded up. A time of 0 counts as none.
unfoldable pub locked_for : Failures → ℕ → ℕ
locked_for r now = elim r.locked_until [
  | none ↦ 0
  | some until ↦ if ltb now until then (until - now + 999) / 1000 else 0
]

-- !record.failedSince || now - record.failedSince > windowMs
unfoldable pub is_fresh : Option ℕ → ℕ → Bool
is_fresh none now = true
is_fresh (some since) now = leb since 0 || ltb (since + window_ms) now

-- afterFailure(record, now)
unfoldable pub after_failure : Failures → ℕ → Failures
unfolding is_fresh
after_failure r now =
    let fresh = is_fresh r.failed_since now in
    let count = (if fresh then 0 else r.failed_count) + 1 in
    record {
      failed_count = count;
      failed_since = if fresh then some now else r.failed_since;
      locked_until = if leb user_failures count then some (now + lock_ms) else r.locked_until;
    }

-- afterSuccess()
unfoldable pub after_success : Failures
after_success = record { failed_count = 0; failed_since = none; locked_until = none }

-- A field of the request: a text, or another value.
pub data Field : Type 0 where
  text : List ℕ → Field
  other : Field

-- The request body: { code, backupCode }, each field given or not, or no object.
pub data Body : Type 0 where
  not_object : Body
  object : Option Field → Option Field → Body

pub data Input : Type 0 where
  bad_request : Input
  code backup_code : List ℕ → Input

-- input[given[0]].length > 64
unfoldable pub bounded : (List ℕ → Input) → List ℕ → Input
bounded kind t = if ltb 64 (length t) then bad_request else kind t

-- checkInput(input): which of the two was given, with its text; `bad_request` is the error.
unfoldable pub check_input : Body → Input
unfolding bounded
check_input not_object = bad_request
check_input (object none none) = bad_request
check_input (object (some (text t)) none) = bounded code t
check_input (object (some other) none) = bad_request
check_input (object none (some (text t))) = bounded backup_code t
check_input (object none (some other)) = bad_request
check_input (object (some c) (some b)) = bad_request

pub data Answer : Type 0 where
  request_invalid secret_unreadable wrong : Answer
  totp : ℕ → Answer
  backup : List ℕ → Answer

abbrev pub totp_answer : Verdict → Answer
totp_answer rejected = wrong
totp_answer secret_invalid = secret_unreadable
totp_answer (accepted step) = totp step

-- evaluate({ secret, lastStep, backupHashes }, input, now), with an invalid secret's error as an answer.
module _ (platform : Platform) where
  unfoldable pub evaluate_backup : List (List ℕ) → List ℕ → Answer
  evaluate_backup hashes given = elim (normalise_backup_code platform given) [
    | none ↦ wrong
    | some normalised ↦
        if any (same_text (hash_backup_code platform normalised)) hashes
        then backup (hash_backup_code platform normalised)
        else wrong
  ]

  unfoldable pub evaluate : List ℕ → ℕ → List (List ℕ) → Body → ℕ → Answer
  evaluate secret last_step hashes body now = elim (check_input body) [
    | bad_request ↦ request_invalid
    | backup_code t ↦ evaluate_backup hashes t
    | code t ↦ totp_answer (verify_totp platform secret t now last_step 1)
  ]
