-- ===== src/Agents/Flight.antt =====
-- Cycles of agent-auto-upgrade.js: what they stage, and that at most one upgrade is in flight.
use nuvrion.Common.{
  Among, All, ℕ, ◌≤◌, suc, String, Bool, ◌∙◌, if◌then◌else◌, true, false, Option, none, some, List,
  [], ◌∷◌, ◌≡◌, refl, subst, sym, ap, inl, inr, length, Bool-cases, Option-cases, get, put, Assoc,
  arith, values, filter_by, or_else,
}
use nuvrion.Common.Results.{Result, ok, err}
use nuvrion.Common.Json.{Json, text}
use nuvrion.Agents.Policies.{Kept, is_within_window, list_policies}
use nuvrion.Agents.Upgrades.{
  UpgradeError, Status, Release, Deployment, Upgrades, is_unfinished, new_deployment,
  list_unfinished, list_releases, list_deployments, report, cancel, reported, reportable, status_of,
  deployment_of,
}
use nuvrion.Agents.Cycle.{
  Agent, Cycle, Around, skip, consider_all, start, enabled_policies, newest_of, upgrade_newest,
  is_empty, online_agent, run_auto_upgrade_cycle,
}
use nuvrion.Agents.Newest.{
  IsNewestBuild, IsNoFailure, newest_of-IsNewestBuild, has_failed-IsNoFailure,
}
use nuvrion.Agents.Versions.{is_newer_agent_version}
use nuvrion.Agents.Stagings.{IsDue, upgraded, staging_on, Ends, idle, one, gone, consider_all-Ends}

-- What is left of a list by a test is in the list and passes the test.
module _ (p : Kept → Bool) (kept : Kept) where
  first_or_later :
      (k : Kept) (ks rest : List Kept)
      → p k ≡ true
      → (Among kept rest → Among kept ks × (p kept ≡ true))
      → Among kept (k ∷ rest)
      → Among kept (k ∷ ks) × (p kept ≡ true)
  first_or_later k ks rest e f (inl same) = (inl same, ap p same ∙ e)
  first_or_later k ks rest e f (inr l) = (inr (f l).0, (f l).1)

  Among-filter_by : (ks : List Kept) → Among kept (filter_by p ks) → Among kept ks × (p kept ≡ true)
  Among-filter_by [] l = absurd l
  Among-filter_by (k ∷ ks) l = elim (Bool-cases (p k)) [
    | inl e ↦
        first_or_later k ks (filter_by p ks) e (λ m. Among-filter_by ks m)
          (subst (λ b. Among kept (if b then k ∷ filter_by p ks else filter_by p ks)) e l)
    | inr e ↦
        let (m, h) =
          Among-filter_by ks
            (subst (λ b. Among kept (if b then k ∷ filter_by p ks else filter_by p ks)) e l) in
        (inr m, h)
  ]

module _ (around : Around) (now : ℕ) where
  -- The agent of a policy may have the newest build: it is online, its build is older, the window of the policy is
  -- open, and of its last 100 attempts none of this build has failed or was rolled back.
  pub record IsReady (u : Upgrades) (newest : Release) (kept : Kept) (agent : Agent) : Type 0 where
    pub automatic : kept.policy.auto_upgrade ≡ true
    pub found : around.agent_of kept.agent_id ≡ some agent
    pub online : agent.online ≡ true
    pub older : is_newer_agent_version around.platform newest.manifest.version agent.version ≡ true
    pub open_now : is_within_window around.zones kept.policy now ≡ true
    pub no_failure : All (IsNoFailure newest) (list_deployments u agent.id 100)

  if_online :
      (a agent : Agent)
      → (if a.online then some a else none) ≡ some agent
      → (a ≡ agent) × (agent.online ≡ true)
  if_online a agent h = elim (Bool-cases a.online) [
    | inl e ↦ let same : a ≡ agent = cc in (same, cc)
    | inr e ↦ absurd (cc)
  ]

  online_agent-online :
      (newest : Release) (id : String) (agent : Agent)
      → online_agent around now newest id ≡ some agent
      → (around.agent_of id ≡ some agent) × (agent.online ≡ true)
  unfolding online_agent
  online_agent-online newest id agent h = elim (Option-cases (around.agent_of id)) [
    | inl e ↦ absurd (cc)
    | inr (a, e) ↦ let (same, on) = if_online a agent cc in (e ∙ ap some same, on)
  ]

  IsDue-IsReady :
      (policies : Assoc Kept) (u : Upgrades) (newest : Release) (kept : Kept) (agent : Agent)
      → Among kept (enabled_policies around now policies)
      → IsDue around now newest u kept agent
      → IsReady u newest kept agent
  unfolding enabled_policies
  IsDue-IsReady policies u newest kept agent l due = record {
    automatic =
        (Among-filter_by (λ k. k.policy.auto_upgrade) kept (list_policies around.after policies)
          l).1;
    found = (online_agent-online newest kept.agent_id agent due.found).0;
    online = (online_agent-online newest kept.agent_id agent due.found).1;
    older = due.newer;
    open_now = due.open_now;
    no_failure = has_failed-IsNoFailure newest _ due.never_failed;
  }

  -- What a cycle may do: nothing, or one upgrade.
  pub data Careful (policies : Assoc Kept) (u : Upgrades) (c : Cycle) : Type 0 where
    nothing : c.upgrades ≡ u → c.stagings ≡ [] → Careful policies u c
    staged_one :
        (newest : Release) (kept : Kept) (agent : Agent)
        → list_unfinished u ≡ []
        → IsNewestBuild around (list_releases u 200) newest
        → Among kept (list_policies around.after policies)
        → IsReady u newest kept agent
        → c.upgrades ≡ upgraded around now newest u agent
        → c.stagings ≡ staging_on around now newest u agent ∷ []
        → Careful policies u c

  from_Ends :
      (policies : Assoc Kept) (u : Upgrades) (noticed : List String) (newest : Release) (c : Cycle)
      → list_unfinished u ≡ []
      → newest_of around now (list_releases u 200) none ≡ some newest
      → Ends around now newest (enabled_policies around now policies) (start around now u noticed) c
      → Careful policies u c
  unfolding start enabled_policies
  from_Ends policies u noticed newest c free best (idle (a, b, t) undue) = nothing a b
  from_Ends policies u noticed newest c free best (one kept agent l due a b t) =
      staged_one newest kept agent free
        (newest_of-IsNewestBuild around now (list_releases u 200) newest best)
        (Among-filter_by (λ k. k.policy.auto_upgrade) kept (list_policies around.after policies)
          l).0
        (IsDue-IsReady policies u newest kept agent l due) a b
  from_Ends policies u noticed newest c free best (gone g a b) = nothing a b

  is_empty-eq : {A : Type 0} (xs : List A) → is_empty around now xs ≡ true → xs ≡ []
  unfolding is_empty
  is_empty-eq [] h = refl
  is_empty-eq (x ∷ xs) h = cc

  pub run_auto_upgrade_cycle-upgrade_newest :
      (policies : Assoc Kept) (u : Upgrades) (noticed : List String) (newest : Release)
      → is_empty around now (enabled_policies around now policies) ≡ false
      → is_empty around now (list_unfinished u) ≡ true
      → newest_of around now (list_releases u 200) none ≡ some newest
      → run_auto_upgrade_cycle around now policies u noticed
        ≡ consider_all around now newest
            (enabled_policies around now policies)
            (start around now u noticed)
  unfolding run_auto_upgrade_cycle upgrade_newest start
  run_auto_upgrade_cycle-upgrade_newest policies u noticed newest e free best = ground arith

  -- A cycle stages nothing and changes no upgrade; or, when no upgrade is unfinished, it stages one, on the online agent
  -- of a policy with automatic upgrades, which has an older build, whose window is open, and none of whose last 100
  -- attempts at the release failed or was rolled back. The release is one of the last 200, its build is on the
  -- platform, and no other of them whose build is there has a newer version.
  pub run_auto_upgrade_cycle-Careful :
      (policies : Assoc Kept) (u : Upgrades) (noticed : List String)
      → Careful policies u (run_auto_upgrade_cycle around now policies u noticed)
  unfolding run_auto_upgrade_cycle upgrade_newest start skip
  run_auto_upgrade_cycle-Careful policies u noticed =
      elim (Bool-cases (is_empty around now (enabled_policies around now policies))) [
        | inl e ↦ nothing (ground arith) (ground arith)
        | inr e ↦ elim (Bool-cases (is_empty around now (list_unfinished u))) [
          | inr busy ↦ nothing (ground arith) (ground arith)
          | inl free ↦ elim (Option-cases (newest_of around now (list_releases u 200) none)) [
            | inl absent ↦ nothing (ground arith) (ground arith)
            | inr (newest, best) ↦
                subst (Careful policies u)
                  (sym
                    (run_auto_upgrade_cycle-upgrade_newest policies u noticed newest e free best))
                  (from_Ends policies u noticed newest _ (is_empty-eq _ free) best (
                    consider_all-Ends around now newest (enabled_policies around now policies)
                      (start around now u noticed)))
          ]
        ]
      ]

-- The unfinished deployments, after one is put: under a new identifier one more at most, and no more if
-- the one that was there is unfinished.
module _ (k : String) (d : Deployment) where
  length-unfinished-put :
      (m : Assoc Deployment)
      → length (filter_by is_unfinished (values (put k d m)))
        ≤ suc (length (filter_by is_unfinished (values m)))
  unfolding put values
  length-unfinished-put [] = ground arith
  length-unfinished-put ((j, w) ∷ m) = ground (arith, length-unfinished-put m)

  length-unfinished-put_same :
      (m : Assoc Deployment) (old : Deployment)
      → get k m ≡ some old
      → is_unfinished old ≡ true
      → length (filter_by is_unfinished (values (put k d m)))
        ≤ length (filter_by is_unfinished (values m))
  unfolding put values get
  length-unfinished-put_same [] old h u = absurd (cc)
  length-unfinished-put_same ((j, w) ∷ m) old h u = ground (arith, length-unfinished-put_same m old)

abbrev pub AtMostOne : Upgrades → Type 0
AtMostOne u = length (list_unfinished u) ≤ 1

-- The calls that the platform and the agents make.
pub data Call : Type 0 where
  cycles : Around → ℕ → Assoc Kept → List String → Call
  reports : String → String → Option Status → Option Json → Option Json → ℕ → Call
  cancels : String → String → Option Json → ℕ → Call

abbrev pub kept_if_ok : Upgrades → Result UpgradeError (Upgrades × Deployment) → Upgrades
kept_if_ok u (err e) = u
kept_if_ok u (ok (u', d)) = u'

abbrev pub step : Upgrades → Call → Upgrades
step u (cycles around now policies noticed) =
    (run_auto_upgrade_cycle around now policies u noticed).upgrades
step u (reports agent_id id status rollback_version detail clock) =
    kept_if_ok u (report u agent_id id status rollback_version detail clock)
step u (cancels agent_id id detail clock) = kept_if_ok u (cancel u agent_id id detail clock)

abbrev pub run : Upgrades → List Call → Upgrades
run u [] = u
run u (call ∷ calls) = run (step u call) calls

Careful-AtMostOne :
    (around : Around) (now : ℕ) (policies : Assoc Kept) (u : Upgrades) (c : Cycle)
    → Careful around now policies u c
    → AtMostOne u
    → AtMostOne c.upgrades
unfolding list_unfinished
Careful-AtMostOne around now policies u c (nothing e _) h = rw e h
Careful-AtMostOne around now policies u c (staged_one newest kept agent free best l due e _) h =
    rw e (
      omega (
        arith,
        ap length free,
        length-unfinished-put (around.signing.uuid u.drawn)
            (new_deployment around.signing u agent.id newest.manifest.release_id now) u.deployments,
      ))

report-AtMostOne :
    (u : Upgrades) (agent_id id : String) (status : Option Status)
    (rollback_version detail : Option Json) (clock : ℕ)
    → AtMostOne u
    → AtMostOne (kept_if_ok u (report u agent_id id status rollback_version detail clock))
unfolding report list_unfinished deployment_of status_of is_unfinished
report-AtMostOne u agent_id id status rollback_version detail clock h =
    elim (Option-cases (get id u.deployments)) [
      | inl e ↦ ground arith
      | inr (d, e) ↦ elim (Option-cases (reportable status)) [
        | inl f ↦ ground arith
        | inr (s, f) ↦ ground (
          arith,
          length-unfinished-put_same id (reported s rollback_version detail clock d) u.deployments
              d,
        )
      ]
    ]

step-AtMostOne : (u : Upgrades) (call : Call) → AtMostOne u → AtMostOne (step u call)
unfolding cancel
step-AtMostOne u (cycles around now policies noticed) h =
    Careful-AtMostOne around now policies u _
      (run_auto_upgrade_cycle-Careful around now policies u noticed) h
step-AtMostOne u (reports agent_id id status rollback_version detail clock) h =
    report-AtMostOne u agent_id id status rollback_version detail clock h
step-AtMostOne u (cancels agent_id id detail clock) h =
    report-AtMostOne u agent_id id (some Status.failed) none
      (some (or_else detail (text "Cancelled by an operator."))) clock h

-- Whatever cycles run and whatever agents report or people cancel, in any order: if at most one upgrade
-- was unfinished before, at most one is after.
pub run-AtMostOne : (u : Upgrades) (calls : List Call) → AtMostOne u → AtMostOne (run u calls)
run-AtMostOne u [] h = h
run-AtMostOne u (call ∷ calls) h = run-AtMostOne (step u call) calls (step-AtMostOne u call h)
