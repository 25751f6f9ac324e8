-- ===== src/Agents/Progress.antt =====
-- A cycle of agent-auto-upgrade.js upgrades an agent that is due.
use nuvrion.Common.{
  Among, ℕ, String, false, Option, none, some, List, [], ◌∷◌, ◌≡◌, refl, subst, sym, inl, inr,
  Bool-cases, get, Assoc, All, All-take, All-sort_by, Keyed, All-values-get, get-put_self, values,
}
use nuvrion.Agents.Versions.{is_newer_agent_version}
use nuvrion.Agents.Policies.{Kept}
use nuvrion.Agents.Upgrades.{
  staged, Release, Deployment, Upgrades, new_deployment, list_unfinished, list_releases,
}
use nuvrion.Agents.Cycle.{
  Agent, Staging, Around, start, enabled_policies, newest_of, newer_on_platform, Cycle, is_empty,
  run_auto_upgrade_cycle,
}
use nuvrion.Agents.Stagings.{staging_on, IsDue, Ends, idle, one, gone, consider_all-Ends}
use nuvrion.Agents.Flight.{run_auto_upgrade_cycle-upgrade_newest}

module _ (around : Around) (now : ℕ) where
  abbrev IsSome {κ} : (Release → Type κ) → Option Release → Type κ
  IsSome P none = Unit
  IsSome P (some r) = P r

  newer_on_platform-holds {κ} :
      (P : Release → Type κ) (r : Release) (best : Option Release)
      → P r
      → IsSome P best
      → IsSome P (newer_on_platform around now r best)
  unfolding newer_on_platform
  newer_on_platform-holds P r none hr hb =
      elim (Bool-cases (around.has_artifact r.manifest.sha256)) [
        | inl e ↦ rw e hr
        | inr e ↦ rw e tt
      ]
  newer_on_platform-holds P r (some b) hr hb =
      elim (Bool-cases (around.has_artifact r.manifest.sha256)) [
        | inr e ↦ rw e hb
        | inl e ↦
            elim (Bool-cases
              (is_newer_agent_version around.platform r.manifest.version b.manifest.version)) [
                | inl f ↦ rw (e, f) hr
                | inr f ↦ rw (e, f) hb
              ]
      ]

  newest_of-holds {κ} :
      (P : Release → Type κ) (releases : List Release) (best : Option Release)
      → All P releases
      → IsSome P best
      → IsSome P (newest_of around now releases best)
  unfolding newest_of
  newest_of-holds P [] best h hb = hb
  newest_of-holds P (r ∷ releases) best h hb =
      newest_of-holds P releases (newer_on_platform around now r best) h.1
        (newer_on_platform-holds P r best h.0 hb)

  -- The newest build is one of the releases.
  newest_of-get :
      (u : Upgrades) (newest : Release)
      → Keyed (λ r. r.manifest.release_id) u.releases
      → newest_of around now (list_releases u 200) none ≡ some newest
      → get newest.manifest.release_id u.releases ≡ some newest
  unfolding list_releases
  newest_of-get u newest keyed best = subst (IsSome P) best (
      newest_of-holds P (list_releases u 200) none
        (All-take P 200 _ (All-sort_by P _ (values u.releases) (All-values-get _ u.releases keyed)))
        tt)
    where
      P : Release → Type 0
      P r = get r.manifest.release_id u.releases ≡ some r

  is_empty-Among : {A : Type 0} (x : A) (xs : List A) → Among x xs → is_empty around now xs ≡ false
  unfolding is_empty
  is_empty-Among x [] l = absurd l
  is_empty-Among x (y ∷ xs) l = refl

  stages_one :
      (u : Upgrades) (policies : List Kept) (newest : Release) (noticed : List String) (c : Cycle)
      (kept : Kept) (agent : Agent)
      → get newest.manifest.release_id u.releases ≡ some newest
      → Among kept policies
      → IsDue around now newest u kept agent
      → Ends around now newest policies (start around now u noticed) c
      → (s : Staging) × (c.stagings ≡ s ∷ [])
        × (s.version ≡ newest.manifest.version)
        × (d : Deployment) × (get s.deployment_id c.upgrades.deployments ≡ some d)
        × (d.agent_id ≡ s.agent_id)
        × (d.release_id ≡ newest.manifest.release_id)
        × (d.status ≡ staged)
  unfolding start new_deployment
  stages_one u policies newest noticed c kept agent known l due (idle same none_due) =
      absurd (none_due kept agent l due)
  stages_one u policies newest noticed c kept agent known l due (one k a l' due' left told t) = (
    staging_on around now newest u a,
    told,
    refl,
    new_deployment around.signing u a.id newest.manifest.release_id now,
    rw left (get-put_self _ _ u.deployments),
    refl,
    refl,
    refl,
  )
  stages_one u policies newest noticed c kept agent known l due (gone g a b) = absurd (cc)

  -- When no upgrade is unfinished and the agent of some policy that is switched on is due for the newest
  -- build on the platform, the cycle stages one upgrade to that build, and its deployment is kept as staged.
  pub run_auto_upgrade_cycle-stagings :
      (policies : Assoc Kept) (u : Upgrades) (noticed : List String) (newest : Release)
      (kept : Kept) (agent : Agent)
      → Keyed (λ r. r.manifest.release_id) u.releases
      → list_unfinished u ≡ []
      → newest_of around now (list_releases u 200) none ≡ some newest
      → Among kept (enabled_policies around now policies)
      → IsDue around now newest u kept agent
      → let c = run_auto_upgrade_cycle around now policies u noticed in
        (s : Staging) × (c.stagings ≡ s ∷ [])
        × (s.version ≡ newest.manifest.version)
        × (d : Deployment) × (get s.deployment_id c.upgrades.deployments ≡ some d)
        × (d.agent_id ≡ s.agent_id)
        × (d.release_id ≡ newest.manifest.release_id)
        × (d.status ≡ staged)
  unfolding is_empty
  run_auto_upgrade_cycle-stagings policies u noticed newest kept agent keyed free best l due =
      stages_one u (enabled_policies around now policies) newest noticed _ kept agent
        (newest_of-get u newest keyed best) l due
        (subst
          (Ends around now newest (enabled_policies around now policies)
            (start around now u noticed))
          (sym (
            run_auto_upgrade_cycle-upgrade_newest around now policies u noticed newest
              (is_empty-Among kept _ l) (rw free refl) best))
          (consider_all-Ends around now newest (enabled_policies around now policies)
            (start around now u noticed)))
