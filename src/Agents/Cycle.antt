-- ===== src/Agents/Cycle.antt =====
-- runAutoUpgradeCycle of modules/agents/src/agent-auto-upgrade.js, over the upgrades and the policies in
-- memory. The agents, the artifacts on the platform and the time zones are parameters; the clock shows one time.
use nuvrion.Common.{
  ℕ, String, text_append, Bool, true, false, ◌&&◌, not, Option, none, some, List, [], ◌∷◌, ◌++◌,
  any, filter_by, str_eq, Assoc, if◌then◌else◌,
}
use nuvrion.Common.Results.{ok, err}
use nuvrion.Common.Json.{Json, Platform}
use nuvrion.Agents.Versions.{is_newer_agent_version}
use nuvrion.Agents.Policies.{Policy, Kept, Zones, is_within_window, list_policies}
use nuvrion.Agents.Upgrades.{
  UpgradeError, Status, staged, downloading, ready, installed, failed, rolled_back, Release,
  Deployment, Upgrades, Signing, stage, list_unfinished, list_releases, list_deployments,
}

pub record Agent : Type 0 where
  pub id : String
  pub online : Bool
  pub version : Option Json

pub data Reason : Type 0 where
  another_upgrade_in_progress agent_not_online outside_window previous_attempt_failed : Reason

pub record Skip : Type 0 where
  pub agent_id : Option String
  pub reason : Reason

pub data Entry : Type 0 where
  auto_blocked : String → Option Json → Entry
  auto_staged : String → Deployment → Option Json → Option Json → Entry

pub record Staging : Type 0 where
  pub agent_id : String
  pub deployment_id : String
  pub version : Option Json

-- What a cycle leaves: its result, what it recorded and noticed, and what `stage` threw, if it did.
pub record Cycle : Type 0 where
  pub upgrades : Upgrades
  pub stagings : List Staging
  pub skipped : List Skip
  pub entries : List Entry
  pub noticed : List String
  pub thrown : Option UpgradeError

-- What the platform knows besides.
pub record Around : Type 0 where
  pub platform : Platform
  pub zones : Zones
  pub signing : Signing
  pub agent_of : String → Option Agent
  pub has_artifact : String → Bool
  pub after : String → String → Bool

-- `continue`, or `break`
pub data Next : Type 0 where
  carry_on stop : Cycle → Next

unfoldable pub skip : Option String → Reason → Cycle → Cycle
skip agent_id reason c = record c {
  skipped = c.skipped ++ record { agent_id = agent_id; reason = reason } ∷ [];
}

unfoldable pub is_failure : Status → Bool
is_failure staged = false
is_failure downloading = false
is_failure ready = false
is_failure installed = false
is_failure failed = true
is_failure rolled_back = true

-- An earlier deployment of this release that failed or was rolled back.
unfoldable pub has_failed : Release → List Deployment → Bool
unfolding is_failure
has_failed newest history =
    any (λ d. str_eq d.release_id newest.manifest.release_id && is_failure d.status) history

unfoldable pub notice : Release → Agent → Cycle → Cycle
notice newest agent c =
    let key = text_append agent.id (text_append ":" newest.manifest.release_id) in
    if any (str_eq key) c.noticed then c else record c {
      noticed = c.noticed ++ key ∷ [];
      entries = c.entries ++ auto_blocked agent.id newest.manifest.version ∷ [];
    }

module _ (around : Around) (now : ℕ) where
  unfoldable pub newer_on_platform : Release → Option Release → Option Release
  unfolding is_newer_agent_version
  newer_on_platform release best =
      if not (around.has_artifact release.manifest.sha256) then best else elim best [
        | none ↦ some release
        | some r ↦
            if is_newer_agent_version around.platform release.manifest.version r.manifest.version
            then some release
            else some r
      ]

  -- The newest build that is on the platform.
  unfoldable pub newest_of : List Release → Option Release → Option Release
  unfolding newer_on_platform
  newest_of [] best = best
  newest_of (release ∷ releases) best = newest_of releases (newer_on_platform release best)

  module _ (newest : Release) where
    unfoldable pub stage_on : Agent → Cycle → Next
    unfolding stage
    stage_on agent c =
        elim (stage around.signing c.upgrades agent.id newest.manifest.release_id now) [
          | err e ↦ stop (record c { thrown = some e })
          | ok (upgrades, d) ↦ stop (record c {
            upgrades = upgrades;
            stagings =
                c.stagings
                ++ record {
                  agent_id = agent.id;
                  deployment_id = d.deployment_id;
                  version = newest.manifest.version;
                }
                  ∷ [];
            entries =
                c.entries ++ auto_staged agent.id d newest.manifest.version agent.version ∷ [];
          })
        ]

    unfoldable pub consider_agent : Policy → Agent → Cycle → Next
    unfolding is_newer_agent_version is_within_window has_failed list_deployments skip notice
    consider_agent policy agent c =
        if not (is_newer_agent_version around.platform newest.manifest.version agent.version)
        then carry_on c
        else if not (is_within_window around.zones policy now)
        then carry_on (skip (some agent.id) outside_window c)
        else if has_failed newest (list_deployments c.upgrades agent.id 100)
        then carry_on (notice newest agent (skip (some agent.id) previous_attempt_failed c))
        else stage_on agent c

    -- The agent of a policy, if it is there and online.
    unfoldable pub online_agent : String → Option Agent
    online_agent agent_id = elim (around.agent_of agent_id) [
      | none ↦ none
      | some agent ↦ if agent.online then some agent else none
    ]

    unfoldable pub consider : Kept → Cycle → Next
    unfolding consider_agent online_agent skip
    consider kept c = elim (online_agent kept.agent_id) [
      | none ↦ carry_on (skip (some kept.agent_id) agent_not_online c)
      | some agent ↦ consider_agent kept.policy agent c
    ]

    abbrev pub then_on : (Cycle → Cycle) → Next → Cycle
    then_on rest (carry_on c) = rest c
    then_on rest (stop c) = c

    -- The loop over the policies.
    unfoldable pub consider_all : List Kept → Cycle → Cycle
    unfolding consider
    consider_all [] c = c
    consider_all (kept ∷ policies) c = then_on (consider_all policies) (consider kept c)

  unfoldable pub start : Upgrades → List String → Cycle
  start upgrades noticed = record {
    upgrades = upgrades;
    stagings = [];
    skipped = [];
    entries = [];
    noticed = noticed;
    thrown = none;
  }

  unfoldable pub enabled_policies : Assoc Kept → List Kept
  unfolding list_policies
  enabled_policies policies =
      filter_by (λ k. k.policy.auto_upgrade) (list_policies around.after policies)

  unfoldable pub upgrade_newest : List Kept → Cycle → Cycle
  unfolding newest_of consider_all list_releases
  upgrade_newest enabled c = elim (newest_of (list_releases c.upgrades 200) none) [
    | none ↦ c
    | some newest ↦ consider_all newest enabled c
  ]

  unfoldable pub is_empty : {A : Type 0} → List A → Bool
  is_empty [] = true
  is_empty (x ∷ xs) = false

  -- runAutoUpgradeCycle(...)
  unfoldable pub run_auto_upgrade_cycle : Assoc Kept → Upgrades → List String → Cycle
  unfolding enabled_policies upgrade_newest start is_empty list_unfinished skip
  run_auto_upgrade_cycle policies upgrades noticed =
      let enabled = enabled_policies policies in
      let c = start upgrades noticed in
      if is_empty enabled
      then c
      else if is_empty (list_unfinished upgrades)
      then upgrade_newest enabled c
      else skip none another_upgrade_in_progress c
