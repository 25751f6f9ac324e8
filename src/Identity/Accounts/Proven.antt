-- ===== src/Identity/Accounts/Proven.antt =====
-- Calls of modules/identity/src/identity-service.js that prove a second factor for a session.
use nuvrion.Common.{
  ℕ, ◌+◌, ◌≡◌, refl, ap, sym, ◌∙◌, subst, map, Assoc, arith, String, Bool, true, false, Option,
  none, some, List, [], ◌∷◌, str_eq, eq_iff, get, All, Bool-cases, ◌⊎◌, inl, inr, if◌then◌else◌,
}
use nuvrion.Common.Results.{ok}
use nuvrion.Identity.Totp.{Verdict, rejected, secret_invalid, accepted, verify_totp}
use nuvrion.Identity.Mfa.{
  Field, Body, Answer, request_invalid, secret_unreadable, wrong, totp, backup,
}
use nuvrion.Identity.Accounts.State.{
  Factor, User, Session, Service, Means, is_verified, keep_user, keep_session, session_of,
}
use nuvrion.Identity.Accounts.Factors.{
  verify_only, set_factor, confirmed, drawn_codes, ready_to_confirm, confirm,
  mfa_confirm_enrollment,
}
use nuvrion.Identity.Accounts.Verify.{
  verified_by, conclude, ready_to_verify, answer_for, mfa_verify,
}
use nuvrion.Identity.Accounts.Guarantees.{Call, confirms_factor, verifies_factor, step}
use nuvrion.Identity.Accounts.Cases.{after-each, Option-each, All-put, All-get_entry}
use nuvrion.Identity.Accounts.Waiting.{own, IsWaiting, Waits, fail_code-Waits}

-- A one-time code, or a backup code, that is right.
abbrev pub is_right : Answer → Bool
is_right request_invalid = false
is_right secret_unreadable = false
is_right wrong = false
is_right (totp step) = true
is_right (backup hash) = true

module _ (means : Means) (k : String) where
  -- A call that may verify the session with the identifier: it gives a right code of the person for this session, or the
  -- first code of a factor that the person has started.
  pub data Proves (call : Call) (now : ℕ) (s : Service) : Type 0 where
    by_code :
        (id session_id : String) (body : Body) (u : User) (session : Session) (f : Factor)
        (secret : List ℕ)
        → call ≡ verifies_factor id session_id body
        → get id s.users ≡ some u
        → session_of id session_id s ≡ some session
        → session_id ≡ k
        → ready_to_verify means u body now ≡ ok (f, secret)
        → is_right (answer_for means f secret body now) ≡ true
        → Proves call now s
    by_first_code :
        (id session_id : String) (field : Option Field) (u : User) (f : Factor)
        (secret code : List ℕ) (at : ℕ)
        → call ≡ confirms_factor id session_id field
        → get id s.users ≡ some u
        → session_id ≡ k
        → ready_to_confirm means u field now ≡ ok (f, secret, code)
        → verify_totp means.otp secret code now 0 1 ≡ accepted at
        → Proves call now s

  session_of-IsWaiting :
      (id session_id : String) (s : Service) (session : Session)
      → Waits k s
      → session_of id session_id s ≡ some session
      → IsWaiting k (session_id, session)
  unfolding session_of
  session_of-IsWaiting id session_id s session h e =
      All-get_entry (IsWaiting k) session_id s.sessions session h (ground arith)

  verified_by-Waits :
      (u : User) (session : Session) (f : Factor) (answer : Answer) (now : ℕ) (s : Service)
      → Waits k s
      → Waits k (verified_by means u session f answer now s) ⊎ (session.id_hash ≡ k)
  unfolding verified_by keep_user keep_session
  verified_by-Waits u session f answer now s h = elim (Bool-cases (str_eq session.id_hash k)) [
    | inl e ↦ inr (ground (arith, eq_iff session.id_hash k))
    | inr e ↦ inl (All-put (IsWaiting k) session.id_hash _ s.sessions (refl, ground arith) h)
  ]

  conclude-Waits :
      (u : User) (session : Session) (f : Factor) (answer : Answer) (now : ℕ) (s : Service)
      → IsWaiting k (session.id_hash, session)
      → Waits k s
      → Waits k (conclude means u session f answer now s).1
        ⊎ ((session.id_hash ≡ k) × (is_right answer ≡ true))
  unfolding conclude
  conclude-Waits u session f request_invalid now s a h = inl h
  conclude-Waits u session f secret_unreadable now s a h = inl h
  conclude-Waits u session f wrong now s a h = inl (
      fail_code-Waits k u f (some session) now s
        (λ e q. let same : session ≡ e = cc in subst (λ w. IsWaiting k (w.id_hash, w)) same a) h)
  conclude-Waits u session f (totp at) now s a h =
      elim (verified_by-Waits u session f (totp at) now s h) [
        | inl w ↦ inl w
        | inr e ↦ inr (e, refl)
      ]
  conclude-Waits u session f (backup hash) now s a h =
      elim (verified_by-Waits u session f (backup hash) now s h) [
        | inl w ↦ inl w
        | inr e ↦ inr (e, refl)
      ]

  pub mfa_verify-Waits :
      (id session_id : String) (body : Body) (now : ℕ) (s : Service)
      → Waits k s
      → Waits k (mfa_verify means id session_id body now s).1
        ⊎ Proves (verifies_factor id session_id body) now s
  unfolding mfa_verify
  mfa_verify-Waits id session_id body now s h =
      let P : Service → Type 0 =
        λ s'. Waits k s' ⊎ Proves (verifies_factor id session_id body) now s in
      Option-each P (get id s.users) _ _ (inl h) (λ u e.
        Option-each P (session_of id session_id s) _ _ (inl h) (λ session q.
          after-each P s (ready_to_verify means u body now) _ (inl h) (λ r w.
            let waiting = session_of-IsWaiting id session_id s session h q in
            elim (conclude-Waits u session r.0 (answer_for means r.0 r.1 body now) now s
              (own k session_id session waiting) h) [
                | inl same ↦ inl same
                | inr (it, right) ↦ inr (
                    by_code id session_id body u session r.0 r.1 refl e q (sym waiting.0 ∙ it) w
                      right)
              ])))

  verify_only-Waits :
      (id session_id : String) (now : ℕ) (s : Service)
      → str_eq session_id k ≡ false
      → Waits k s
      → Waits k (verify_only id session_id now s)
  unfolding verify_only is_verified
  verify_only-Waits id session_id now s other h = marked s.sessions h
    where
      marked_one :
          (j : String) (e : Session)
          → IsWaiting k (j, e)
          → IsWaiting k (
            j,
            if str_eq e.user_id id
                then record e { mfa_verified_at = if str_eq j session_id then some now else none }
                else e,
          )
      marked_one j e (a, b) = elim (Bool-cases (str_eq e.user_id id)) [
        | inr p ↦ rw p (a, b)
        | inl p ↦ elim (Bool-cases (str_eq j session_id)) [
          | inl q ↦
              let away : str_eq j k ≡ false =
                ap (λ i. str_eq i k) ((eq_iff j session_id).0 q) ∙ other in
              rw (p, q, away) (a, refl)
          | inr q ↦ rw (p, q) (a, ground arith)
        ]
      ]

      marked :
          (m : Assoc Session)
          → All (IsWaiting k) m
          → All (IsWaiting k) (
              map {B = String × Session}
                (λ e. (
                  e.0,
                  if str_eq e.1.user_id id
                      then record e.1 {
                        mfa_verified_at = if str_eq e.0 session_id then some now else none;
                      }
                      else e.1,
                ))
                m)
      marked [] a = tt
      marked ((j, e) ∷ m) (a, b) = (marked_one j e a, marked m b)

  confirm-Waits :
      (u : User) (session_id : String) (f : Factor) (v : Verdict) (now : ℕ) (s : Service)
      → Waits k s
      → Waits k (confirm means u session_id f v now s).1
        ⊎ ((at : ℕ) × (v ≡ accepted at) × (session_id ≡ k))
  unfolding confirm keep_user
  confirm-Waits u session_id f secret_invalid now s h = inl h
  confirm-Waits u session_id f rejected now s h =
      inl (fail_code-Waits k u f none now s (λ e q. absurd (cc)) h)
  confirm-Waits u session_id f (accepted at) now s h = elim (Bool-cases (str_eq session_id k)) [
    | inl e ↦ inr (at, refl, ground (arith, eq_iff session_id k))
    | inr e ↦
        let s' =
          keep_user (set_factor (some (confirmed means f at (drawn_codes means s) now)) u) s in
        inl (verify_only-Waits u.id session_id now (record s' { drawn = s.drawn + 1 }) e h)
  ]

  pub mfa_confirm_enrollment-Waits :
      (id session_id : String) (field : Option Field) (now : ℕ) (s : Service)
      → Waits k s
      → Waits k (mfa_confirm_enrollment means id session_id field now s).1
        ⊎ Proves (confirms_factor id session_id field) now s
  unfolding mfa_confirm_enrollment
  mfa_confirm_enrollment-Waits id session_id field now s h =
      let P : Service → Type 0 =
        λ s'. Waits k s' ⊎ Proves (confirms_factor id session_id field) now s in
      Option-each P (get id s.users) _ _ (inl h) (λ u e.
        after-each P s (ready_to_confirm means u field now) _ (inl h) (λ r w.
          elim (confirm-Waits u session_id r.0 (verify_totp means.otp r.1 r.2 now 0 1) now s h) [
            | inl same ↦ inl same
            | inr (at, right, it) ↦
                inr (by_first_code id session_id field u r.0 r.1 r.2 at refl e it w right)
          ]))
