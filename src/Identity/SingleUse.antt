-- ===== src/Identity/SingleUse.antt =====
-- A code of the two-factor rules (mfa.js) works once.
use nuvrion.Common.{
  ℕ, ◌≡◌, refl, Bool, true, false, not, some, List, [], ◌∷◌, arith, any, filter_by, inl, inr,
  Bool-cases, Option-cases,
}
use nuvrion.Identity.Totp.{
  Platform, Verdict, rejected, secret_invalid, accepted, same_text, verify_totp,
}
use nuvrion.Identity.BackupCodes.{normalise_backup_code, hash_backup_code}
use nuvrion.Identity.Codes.{verify_totp-again}
use nuvrion.Identity.Mfa.{
  Body, Input, bad_request, code, backup_code, check_input, Answer, request_invalid,
  secret_unreadable, wrong, totp_answer, totp, backup, evaluate, evaluate_backup,
}

-- What is left to try: the last step used, and the hashes of the backup codes not used yet.
pub record Unused : Type 0 where
  pub last_step : ℕ
  pub hashes : List (List ℕ)

-- The stores keep an accepted step as the last one, and drop the hash of a used backup code.
unfoldable pub spend : Answer → Unused → Unused
spend (totp step) u = record u { last_step = step }
spend (backup hash) u = record u { hashes = filter_by (λ h. not (same_text hash h)) u.hashes }
spend request_invalid u = u
spend secret_unreadable u = u
spend wrong u = u

any-filter_by :
    {A : Type 0} (p : A → Bool) (xs : List A) → any p (filter_by (λ x. not (p x)) xs) ≡ false
any-filter_by p [] = refl
any-filter_by p (x ∷ xs) = ground (arith, any-filter_by p xs)

evaluate_backup-used :
    (platform : Platform) (hashes : List (List ℕ)) (given hash : List ℕ)
    → evaluate_backup platform hashes given ≡ backup hash
    → evaluate_backup platform (filter_by (λ h. not (same_text hash h)) hashes) given ≡ wrong
unfolding evaluate_backup
evaluate_backup-used platform hashes given hash e =
    elim (Option-cases (normalise_backup_code platform given)) [
      | inl n ↦ absurd (ground arith)
      | inr (text, n) ↦
          elim (Bool-cases (any (same_text (hash_backup_code platform text)) hashes)) [
            | inl found ↦ by_text text n (ground arith)
            | inr not_found ↦ absurd (ground arith)
          ]
    ]
  where
    by_text :
        (text : List ℕ)
        → normalise_backup_code platform given ≡ some text
        → hash_backup_code platform text ≡ hash
        → evaluate_backup platform (filter_by (λ h. not (same_text hash h)) hashes) given ≡ wrong
    by_text text n q = rw (n, evaluate_backup, q, any-filter_by (same_text hash) hashes) refl

unfoldable pub is_granted : Answer → Bool
is_granted (totp step) = true
is_granted (backup hash) = true
is_granted request_invalid = false
is_granted secret_unreadable = false
is_granted wrong = false

totp_used :
    (platform : Platform) (secret t : List ℕ) (u : Unused) (now : ℕ) (verdict : Verdict)
    → verify_totp platform secret t now u.last_step 1 ≡ verdict
    → is_granted (totp_answer verdict) ≡ true
    → totp_answer (verify_totp platform secret t now (spend (totp_answer verdict) u).last_step 1)
      ≡ wrong
unfolding is_granted spend
totp_used platform secret t u now rejected e g = absurd (ground arith)
totp_used platform secret t u now secret_invalid e g = absurd (ground arith)
totp_used platform secret t u now (accepted step) e g =
    rw (verify_totp-again platform secret t now u.last_step 1 step step e (omega arith)) refl

evaluate_backup-totp :
    (platform : Platform) (hashes : List (List ℕ)) (given : List ℕ) (step : ℕ)
    → ¬ (evaluate_backup platform hashes given ≡ totp step)
unfolding evaluate_backup
evaluate_backup-totp platform hashes given step e =
    elim (Option-cases (normalise_backup_code platform given)) [
      | inl n ↦ absurd (ground arith)
      | inr (text, n) ↦
          elim (Bool-cases (any (same_text (hash_backup_code platform text)) hashes)) [
            | inl found ↦ absurd (ground arith)
            | inr not_found ↦ absurd (ground arith)
          ]
    ]

backup_used :
    (platform : Platform) (t : List ℕ) (u : Unused) (answer : Answer)
    → evaluate_backup platform u.hashes t ≡ answer
    → is_granted answer ≡ true
    → evaluate_backup platform (spend answer u).hashes t ≡ wrong
unfolding is_granted spend
backup_used platform t u (backup hash) e g = evaluate_backup-used platform u.hashes t hash e
backup_used platform t u (totp step) e g = absurd (evaluate_backup-totp platform u.hashes t step e)
backup_used platform t u request_invalid e g = absurd (ground arith)
backup_used platform t u secret_unreadable e g = absurd (ground arith)
backup_used platform t u wrong e g = absurd (ground arith)

-- The answer to a checked input, as `evaluate` gives it.
answer_to : Platform → List ℕ → ℕ → Input → Unused → Answer
answer_to platform secret now input u = elim input [
  | bad_request ↦ request_invalid
  | backup_code t ↦ evaluate_backup platform u.hashes t
  | code t ↦ totp_answer (verify_totp platform secret t now u.last_step 1)
]

answer_to-spend :
    (platform : Platform) (secret : List ℕ) (now : ℕ) (input : Input) (u : Unused)
    → is_granted (answer_to platform secret now input u) ≡ true
    → answer_to platform secret now input (spend (answer_to platform secret now input u) u) ≡ wrong
unfolding answer_to is_granted
answer_to-spend platform secret now bad_request u g = absurd (ground arith)
answer_to-spend platform secret now (code t) u g = totp_used platform secret t u now _ refl g
answer_to-spend platform secret now (backup_code t) u g = backup_used platform t u _ refl g

-- A code that was right, of either kind, is wrong when it is given again at the same time, once the
-- store has kept what the first answer used up.
pub evaluate-spend :
    (platform : Platform) (secret : List ℕ) (u : Unused) (body : Body) (now : ℕ)
    → is_granted (evaluate platform secret u.last_step u.hashes body now) ≡ true
    → (let v = spend (evaluate platform secret u.last_step u.hashes body now) u in
        evaluate platform secret v.last_step v.hashes body now)
      ≡ wrong
unfolding evaluate answer_to
evaluate-spend platform secret u body now g =
    answer_to-spend platform secret now (check_input body) u g
