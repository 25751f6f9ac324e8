-- ===== src/Agents/Stagings.antt =====
-- What one cycle of agent-auto-upgrade.js stages, and when.
use nuvrion.Common.{
  Among, ℕ, suc, true, false, none, some, List, [], ◌∷◌, ◌≡◌, refl, subst, sym, ap, ap₂, ◌∙◌, ◌++◌,
  inl, inr, Bool-cases, Option-cases, get, put, arith,
}
use nuvrion.Agents.Versions.{is_newer_agent_version}
use nuvrion.Agents.Policies.{Kept, is_within_window}
use nuvrion.Agents.Upgrades.{Release, Upgrades, new_deployment, stage, list_deployments}
use nuvrion.Agents.Cycle.{
  Agent, Staging, Cycle, Around, carry_on, outside_window, previous_attempt_failed,
  agent_not_online, skip, notice, has_failed, then_on, stage_on, consider_agent, online_agent,
  consider, consider_all,
}

module _ (around : Around) (now : ℕ) (newest : Release) where
  -- The conditions under which the agent of a policy is upgraded, in a store.
  pub record IsDue (u : Upgrades) (kept : Kept) (agent : Agent) : Type 0 where
    pub found : online_agent around now newest kept.agent_id ≡ some agent
    pub newer : is_newer_agent_version around.platform newest.manifest.version agent.version ≡ true
    pub open_now : is_within_window around.zones kept.policy now ≡ true
    pub never_failed : has_failed newest (list_deployments u agent.id 100) ≡ false

  -- The cycle after a deployment of the newest release on an agent.
  abbrev pub upgraded : Upgrades → Agent → Upgrades
  upgraded u agent = record u {
    deployments =
        put (around.signing.uuid u.drawn)
          (new_deployment around.signing u agent.id newest.manifest.release_id now) u.deployments;
    drawn = suc u.drawn;
  }

  abbrev pub staging_on : Upgrades → Agent → Staging
  staging_on u agent = record {
    agent_id = agent.id;
    deployment_id = around.signing.uuid u.drawn;
    version = newest.manifest.version;
  }

  abbrev pub Untouched : Cycle → Cycle → Type 0
  Untouched c c' = (c'.upgrades ≡ c.upgrades) × (c'.stagings ≡ c.stagings) × (c'.thrown ≡ c.thrown)

  -- A policy is passed over, or its agent is upgraded.
  data Considered (kept : Kept) (c : Cycle) : Type 0 where
    passed :
        (c' : Cycle)
        → consider around now newest kept c ≡ carry_on c'
        → Untouched c c'
        → ((agent : Agent) → IsDue c.upgrades kept agent → ⊥)
        → Considered kept c
    taken :
        (agent : Agent)
        → IsDue c.upgrades kept agent
        → consider around now newest kept c ≡ stage_on around now newest agent c
        → Considered kept c

  notice-Untouched :
      (agent : Agent) (c : Cycle)
      → Untouched c (notice newest agent (skip (some agent.id) previous_attempt_failed c))
  unfolding notice skip
  notice-Untouched agent c = ground arith

  not_newer :
      {kept : Kept} {u : Upgrades} {a b : Agent}
      → online_agent around now newest kept.agent_id ≡ some a
      → is_newer_agent_version around.platform newest.manifest.version a.version ≡ false
      → IsDue u kept b
      → ⊥
  not_newer found e d = cc (d.found, d.newer)

  has_one :
      {kept : Kept} {u : Upgrades} {a b : Agent}
      → online_agent around now newest kept.agent_id ≡ some a
      → has_failed newest (list_deployments u a.id 100) ≡ true
      → IsDue u kept b
      → ⊥
  has_one found e d = cc (d.found, d.never_failed)

  not_online :
      {kept : Kept} {u : Upgrades} {b : Agent}
      → online_agent around now newest kept.agent_id ≡ none
      → IsDue u kept b
      → ⊥
  not_online e d = cc (d.found)

  consider_agent-Considered :
      (kept : Kept) (c : Cycle) (agent : Agent)
      → online_agent around now newest kept.agent_id ≡ some agent
      → Considered kept c
  unfolding consider consider_agent skip notice
  consider_agent-Considered kept c agent found =
      elim (Bool-cases
        (is_newer_agent_version around.platform newest.manifest.version agent.version)) [
          | inr e ↦ passed c (ground arith) (refl, refl, refl) (λ a d. not_newer found e d)
          | inl newer ↦ elim (Bool-cases (is_within_window around.zones kept.policy now)) [
            | inr e ↦
                passed (skip (some agent.id) outside_window c) (ground arith) (refl, refl, refl)
                  (λ a d. cc (d.open_now))
            | inl open_now ↦
                elim (Bool-cases (has_failed newest (list_deployments c.upgrades agent.id 100))) [
                  | inl e ↦
                      passed (notice newest agent (skip (some agent.id) previous_attempt_failed c))
                        (ground arith) (notice-Untouched agent c) (λ a d. has_one found e d)
                  | inr e ↦
                      taken agent
                        (record {
                          found = found;
                          newer = newer;
                          open_now = open_now;
                          never_failed = e;
                        })
                        (ground arith)
                ]
          ]
        ]

  consider-Considered : (kept : Kept) (c : Cycle) → Considered kept c
  unfolding consider skip
  consider-Considered kept c = elim (Option-cases (online_agent around now newest kept.agent_id)) [
    | inl e ↦
        passed (skip (some kept.agent_id) agent_not_online c) (ground arith) (refl, refl, refl)
          (λ a d. not_online e d)
    | inr (agent, e) ↦ consider_agent-Considered kept c agent e
  ]

  -- What one cycle comes to: no policy led to an upgrade, the first that is due did, or its release is gone.
  pub data Ends (policies : List Kept) (c c' : Cycle) : Type 0 where
    idle :
        Untouched c c'
        → ((kept : Kept) (agent : Agent) → Among kept policies → IsDue c.upgrades kept agent → ⊥)
        → Ends policies c c'
    one :
        (kept : Kept) (agent : Agent)
        → Among kept policies
        → IsDue c.upgrades kept agent
        → c'.upgrades ≡ upgraded c.upgrades agent
        → c'.stagings ≡ c.stagings ++ staging_on c.upgrades agent ∷ []
        → c'.thrown ≡ c.thrown
        → Ends policies c c'
    gone :
        get newest.manifest.release_id c.upgrades.releases ≡ none
        → c'.upgrades ≡ c.upgrades
        → c'.stagings ≡ c.stagings
        → Ends policies c c'

  stage_on-Ends :
      (kept : Kept) (policies : List Kept) (c : Cycle) (agent : Agent)
      → IsDue c.upgrades kept agent
      → (rest : Cycle → Cycle)
      → Ends
          (kept ∷ policies)
          c
          (then_on around now newest rest (stage_on around now newest agent c))
  unfolding stage_on stage new_deployment
  stage_on-Ends kept policies c agent due rest =
      elim (Option-cases (get newest.manifest.release_id c.upgrades.releases)) [
        | inl e ↦ gone e (ground arith) (ground arith)
        | inr (r, e) ↦ one kept agent (inl refl) due (ground arith) (ground arith) (ground arith)
      ]

  later-Ends :
      (kept : Kept) (policies : List Kept) (c m c' : Cycle)
      → Untouched c m
      → ((agent : Agent) → IsDue c.upgrades kept agent → ⊥)
      → Ends policies m c'
      → Ends (kept ∷ policies) c c'
  later-Ends kept policies c m c' (a, b, t) undue (idle (a', b', t') none_due) =
      idle (a' ∙ a, b' ∙ b, t' ∙ t) none_of
    where
      none_of :
          (k : Kept) (agent : Agent) → Among k (kept ∷ policies) → IsDue c.upgrades k agent → ⊥
      none_of k agent (inl e) due = undue agent (subst (λ x. IsDue c.upgrades x agent) e due)
      none_of k agent (inr l) due = none_due k agent l (subst (λ u. IsDue u k agent) (sym a) due)
  later-Ends kept policies c m c' (a, b, t) undue (one k agent l due a' b' t') =
      one k agent (inr l) (subst (λ u. IsDue u k agent) a due) (a' ∙ ap (λ u. upgraded u agent) a)
        (b' ∙ ap₂ (λ xs u. xs ++ staging_on u agent ∷ []) b a) (t' ∙ t)
  later-Ends kept policies c m c' (a, b, t) undue (gone g a' b') =
      gone (subst (λ (u : Upgrades). get newest.manifest.release_id u.releases ≡ none) a g) (a' ∙ a)
        (b' ∙ b)

  with_rest :
      (kept : Kept) (policies : List Kept) (c : Cycle)
      → ((m : Cycle) → Ends policies m (consider_all around now newest policies m))
      → Considered kept c
      → Ends (kept ∷ policies) c (consider_all around now newest (kept ∷ policies) c)
  unfolding consider_all
  with_rest kept policies c ih (passed m e same undue) =
      rw (e, then_on) (later-Ends kept policies c m _ same undue (ih m))
  with_rest kept policies c ih (taken agent due e) =
      rw e (stage_on-Ends kept policies c agent due (consider_all around now newest policies))

  pub consider_all-Ends :
      (policies : List Kept) (c : Cycle)
      → Ends policies c (consider_all around now newest policies c)
  unfolding consider_all
  consider_all-Ends [] c = idle (refl, refl, refl) (λ k a l d. l)
  consider_all-Ends (kept ∷ policies) c =
      with_rest kept policies c (consider_all-Ends policies) (consider-Considered kept c)
