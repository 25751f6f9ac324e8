-- ===== src/Schedules/History.antt =====
-- The history of runs that modules/tasks/src/schedule-service.js keeps, and what the runner adds to it.
use nuvrion.Common.{
  ℕ, zero, suc, ◌+◌, ◌≤◌, ◌≡◌, ◌⊎◌, refl, sym, All, Among, subst, arith, String, false, List, [],
  ◌∷◌, map, length, leb, Bool-cases, inl, inr,
}
use nuvrion.Schedules.When.{Calendar}
use nuvrion.Schedules.Store.{
  Recorded, Claim, persist, history_key, count_key, keep_runs, runs_kept, record_run, claim_all,
  claim_due,
}
use nuvrion.Schedules.Runner.{
  Surroundings, Runner, record_and_audit, execute, run_claim, run_claims, run_due,
}
use nuvrion.Schedules.Owed.{told, Owed, claim_all-Owed, length-claim_all, run_claims-told}

-- A run is among the first of a history.
abbrev IsAmongFirst : ℕ → Recorded → List Recorded → Type 0
IsAmongFirst zero r rs = ⊥
IsAmongFirst (suc n) r [] = ⊥
IsAmongFirst (suc n) r (x ∷ xs) = (r ≡ x) ⊎ IsAmongFirst n r xs

count_key-length : (k : String) (seen : List String) → count_key k seen ≤ length seen
unfolding count_key
count_key-length k [] = omega arith
count_key-length k (j ∷ seen) = ground (arith, count_key-length k seen)

or_later : {A B C : Type 0} → A ⊎ B → (B → C) → A ⊎ C
or_later (inl a) f = inl a
or_later (inr b) f = inr (f b)

keep_runs-IsAmongFirst :
    (n : ℕ) (seen : List String) (r : Recorded) (rs : List Recorded)
    → n + length seen ≤ runs_kept
    → IsAmongFirst n r rs
    → IsAmongFirst n r (keep_runs seen rs)
unfolding keep_runs
keep_runs-IsAmongFirst zero seen r rs h i = i
keep_runs-IsAmongFirst (suc n) seen r [] h i = i
keep_runs-IsAmongFirst (suc n) seen r (x ∷ xs) h i =
    elim (Bool-cases (leb (count_key (history_key x) seen + 1) runs_kept)) [
      | inr gone ↦ absurd (ground (arith, count_key-length (history_key x) seen))
      | inl kept ↦
          rw kept
            (or_later i (keep_runs-IsAmongFirst n (history_key x ∷ seen) r xs (omega (arith, h))))
    ]

IsAmongFirst-Among : (n : ℕ) (r : Recorded) (rs : List Recorded) → IsAmongFirst n r rs → Among r rs
IsAmongFirst-Among (suc n) r (x ∷ xs) (inl e) = inl e
IsAmongFirst-Among (suc n) r (x ∷ xs) (inr h) = inr (IsAmongFirst-Among n r xs h)
IsAmongFirst-Among (suc n) r [] h = absurd h
IsAmongFirst-Among zero r rs h = absurd h

module _ (world : Surroundings) (now : ℕ) where
  run_claim-runs :
      (claim : Claim) (r : Runner)
      → (run_claim world now claim r).1.store.runs
        ≡ keep_runs [] ((run_claim world now claim r).0 ∷ r.store.runs)
  unfolding run_claim record_and_audit record_run persist execute
  run_claim-runs claim r = elim (Bool-cases claim.late) [ inl q ↦ rw q refl | inr q ↦ rw q refl ]

  -- A run that is among the first few stays in the history while fewer than 200 are recorded.
  run_claims-carries :
      (claims : List Claim) (r : Runner) (n : ℕ) (x : Recorded)
      → n + length claims ≤ runs_kept
      → IsAmongFirst n x r.store.runs
      → Among x (run_claims world now claims r).1.store.runs
  unfolding run_claims
  run_claims-carries [] r n x h i = IsAmongFirst-Among n x r.store.runs i
  run_claims-carries (claim ∷ claims) r n x h i =
      let (recorded, r') = run_claim world now claim r in
      run_claims-carries claims r' (suc n) x (omega (arith, h)) (
        subst (IsAmongFirst (suc n) x) (sym (run_claim-runs claim r)) (
          keep_runs-IsAmongFirst (suc n) [] x (recorded ∷ r.store.runs) (omega (arith, h)) (inr i)))

  run_claims-kept :
      (claims : List Claim) (r : Runner)
      → length claims ≤ runs_kept
      → All
          (λ x. Among x (run_claims world now claims r).1.store.runs)
          (run_claims world now claims r).0
  unfolding run_claims
  run_claims-kept [] r h = tt
  run_claims-kept (claim ∷ claims) r h =
      let (recorded, r') = run_claim world now claim r in
      (
        run_claims-carries claims r' 1 recorded (omega (arith, h)) (
            subst (IsAmongFirst 1 recorded) (sym (run_claim-runs claim r)) (
              keep_runs-IsAmongFirst 1 [] recorded (recorded ∷ r.store.runs) (omega arith)
                (inl refl))),
        run_claims-kept claims r' (omega (arith, h)),
      )

-- A runner that is not running already, with at most 200 schedules: it gives one run for each schedule that is switched
-- on and whose next run is not ahead, in their order, for the time of that run, and as missed exactly if it is more than
-- fifteen minutes late; and each is in the history of the store that it leaves.
pub run_due-Owed :
    (world : Surroundings) (calendar : Calendar) (now : ℕ) (r : Runner)
    → r.running ≡ false
    → length r.store.schedules ≤ runs_kept
    → Owed now r.store.schedules (map told (run_due world calendar now r).0)
      × All
          (λ x. Among x (run_due world calendar now r).1.store.runs)
          (run_due world calendar now r).0
unfolding run_due claim_due persist
run_due-Owed world calendar now r idle few =
    let (claims, left) = claim_all calendar now r.store.schedules in
    let started : Runner = record r {
      store = (claim_due calendar now r.store).1;
      running = false;
    } in
    rw idle (
      subst (Owed now r.store.schedules) (sym (run_claims-told world now claims started))
          (claim_all-Owed calendar now r.store.schedules),
      run_claims-kept world now claims started
          (omega (arith, few, length-claim_all calendar now r.store.schedules)),
    )
