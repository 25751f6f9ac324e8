-- ===== src/Identity/Accounts/Resetting.antt =====
-- Giving up or renewing a second factor of modules/identity/src/identity-service.js keeps everybody's standing.
use nuvrion.Common.{
  ℕ, ◌≡◌, refl, subst, String, Bool, true, false, Option, none, some, get, put, get-put_self,
  Option-cases, inl, inr, if◌then◌else◌,
}
use nuvrion.Common.Results.{Result, ok, err}
use nuvrion.Identity.Mfa.{
  Field, object, after_success, Answer, request_invalid, secret_unreadable, wrong, totp, backup,
}
use nuvrion.Identity.Accounts.State.{
  Factor, User, Service, Means, Outcome, AccountError, after, keep_user,
}
use nuvrion.Identity.Accounts.Factors.{set_factor}
use nuvrion.Identity.Accounts.Verify.{
  ready_to_verify, prove, prove_factor, with_new_codes, mfa_regenerate_backup_codes, mfa_disable,
  mfa_reset, mfa_turn_off,
}
use nuvrion.Identity.Accounts.Standing.{Sound, after-Sound}
use nuvrion.Identity.Accounts.Keeping.{found, keep_user-Sound, revoke_sessions-Sound}
use nuvrion.Identity.Accounts.Securing.{with_user}
use nuvrion.Identity.Accounts.Proving.{factor-Sound, fail_code-Sound}

-- What #proveFactor leaves: everybody's standing, and the person it returns under their identifier.
abbrev pub Proved : Outcome (User × Factor) → Type 0
Proved o = Sound o.1 × ((p : User × Factor) → o.0 ≡ ok p → get p.0.id o.1.users ≡ some p.0)

after-Proved :
    {B : Type 0} (s : Service) (r : Result AccountError B) (next : B → Outcome (User × Factor))
    → Sound s
    → ((b : B) → Proved (next b))
    → Proved (after s r next)
after-Proved s (err e) next h f = (h, λ p q. cc)
after-Proved s (ok b) next h f = f b

if-Sound :
    {A : Type 0} (b : Bool) (x y : Outcome A) → Sound x.1 → Sound y.1 → Sound (if b then x else y).1
if-Sound true x y hx hy = hx
if-Sound false x y hx hy = hy

module _ (means : Means) where
  prove-Proved :
      (u : User) (f : Factor) (answer : Answer) (now : ℕ) (s : Service)
      → get u.id s.users ≡ some u
      → Sound s
      → Proved (prove means u f answer now s)
  unfolding prove keep_user
  prove-Proved u f request_invalid now s e h = (h, λ p q. cc)
  prove-Proved u f secret_unreadable now s e h = (h, λ p q. cc)
  prove-Proved u f (backup hash) now s e h = (h, λ p q. cc)
  prove-Proved u f wrong now s e h =
      (fail_code-Sound u f none now s e (λ session q. cc) h, λ p q. cc)
  prove-Proved u f (totp step) now s e h =
      let f' : Factor = record f { last_step = step; failures = after_success } in
      let u' : User = set_factor (some f') u in
      (
        factor-Sound (some f') u s e h,
        λ p q.
            let made : User × Factor = (u', f') in
            let same : made ≡ p = cc in
            subst (λ w. get w.0.id (put u'.id u' s.users) ≡ some w.0) same
              (get-put_self u'.id u' s.users),
      )

  prove_factor-Proved :
      (id : String) (field : Option Field) (now : ℕ) (s : Service)
      → Sound s
      → Proved (prove_factor means id field now s)
  unfolding prove_factor
  prove_factor-Proved id field now s h = elim (Option-cases (get id s.users)) [
    | inl e ↦ rw (e, prove_factor) (h, λ p q. cc)
    | inr (u, e) ↦
        rw (e, prove_factor)
          (after-Proved s (ready_to_verify means u (object field none) now) _ h
            (λ r. prove-Proved u r.0 _ now s (found id s u h e) h))
  ]

  pub mfa_regenerate_backup_codes-Sound :
      (id : String) (field : Option Field) (now : ℕ) (s : Service)
      → Sound s
      → Sound (mfa_regenerate_backup_codes means id field now s).1
  unfolding mfa_regenerate_backup_codes with_new_codes
  mfa_regenerate_backup_codes-Sound id field now s h =
      let (sound, kept) = prove_factor-Proved id field now s h in
      after-Sound (prove_factor means id field now s).1 (prove_factor means id field now s).0 _
        sound (λ p q. factor-Sound _ p.0 (prove_factor means id field now s).1 (kept p q) sound)

  pub mfa_disable-Sound :
      (id : String) (field : Option Field) (now : ℕ) (s : Service)
      → Sound s
      → Sound (mfa_disable means id field now s).1
  unfolding mfa_disable
  mfa_disable-Sound id field now s h =
      let (sound, kept) = prove_factor-Proved id field now s h in
      after-Sound (prove_factor means id field now s).1 (prove_factor means id field now s).0 _
        sound
        (λ p q.
          if-Sound p.0.mfa_required _ _ sound
            (factor-Sound none p.0 (prove_factor means id field now s).1 (kept p q) sound))

pub mfa_reset-Sound : (id : String) (s : Service) → Sound s → Sound (mfa_reset id s).1
unfolding mfa_reset
mfa_reset-Sound id s h =
    with_user id s _ _ h
      (λ u e.
        revoke_sessions-Sound id (keep_user (set_factor none u) s) (factor-Sound none u s e h))
      h

pub mfa_turn_off-Sound : (id : String) (s : Service) → Sound s → Sound (mfa_turn_off id s).1
unfolding mfa_turn_off
mfa_turn_off-Sound id s h =
    with_user id s _ _ h
      (λ u e.
        keep_user-Sound u _ s (record { same_id = refl; same_status = refl; same_roles = refl }) e
          h)
      h
