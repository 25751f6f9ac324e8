-- ===== src/Agents/Upgrades.antt =====
-- modules/agents/src/agent-upgrade-service.js: the releases and their deployments, in memory. Times are
-- milliseconds, which sort as their texts do. The signature and the key's identifier are parameters;
-- verifyUpgradeArtifact is not modelled.
use nuvrion.Common.{
  ℕ, suc, String, Bool, true, false, ◌&&◌, ◌||◌, not, Option, none, some, List, ◌∷◌, map, filter_by,
  take, str_eq, ltb, ◌==◌, get, put, values, Assoc, or_else, sort_by, if◌then◌else◌,
}
use nuvrion.Common.Results.{Result, ok, err, ◌>>=◌, ◌>>◌, refuse_if}
use nuvrion.Common.Text.{codes, run_of, is_hex, at_end}
use nuvrion.Common.Json.{Json, text}

pub data UpgradeError : Type 0 where
  url_invalid digest_invalid release_not_found deployment_not_found : UpgradeError
  status_invalid terminal : UpgradeError

pub data Status : Type 0 where
  staged downloading ready installed failed rolled_back : Status

pub record Manifest : Type 0 where
  pub release_id : String
  pub version : Option Json
  pub artifact_url : String
  pub sha256 : String
  pub size_bytes : ℕ
  pub signing_key_id : String
  pub created_at : ℕ

pub record Release : Type 0 where
  pub manifest : Manifest
  pub signature : String

pub record Deployment : Type 0 where
  pub deployment_id : String
  pub agent_id : String
  pub release_id : String
  pub status : Status
  pub staged_at : ℕ
  pub completed_at : Option ℕ
  pub rollback_version : Option Json
  pub detail : Option Json

-- The two maps, and how many identifiers were drawn.
pub record Upgrades : Type 0 where
  pub releases : Assoc Release
  pub deployments : Assoc Deployment
  pub drawn : ℕ

-- A build to register; a size that is no safe integer is `none`.
pub record Build : Type 0 where
  pub version : Option Json
  pub artifact_url : String
  pub sha256 : String
  pub size_bytes : Option ℕ

pub record Signing : Type 0 where
  pub key_id : String
  pub sign : Manifest → String
  pub lower : String → String
  pub uuid : ℕ → String

-- /^https:\/\//
unfoldable pub is_https : List ℕ → Bool
is_https (h ∷ t ∷ t' ∷ p ∷ s ∷ c ∷ a ∷ b ∷ rest) =
    (h == b'h' && (t == b't' && (t' == b't' && p == b'p')))
    && (s == b's' && (c == b':' && (a == b'/' && b == b'/')))
is_https _ = false

-- /^[a-f0-9]{64}$/i
unfoldable pub is_sha256 : String → Bool
unfolding run_of is_hex
is_sha256 s = run_of 64 is_hex (codes s) at_end

unfoldable pub is_terminal : Status → Bool
is_terminal staged = false
is_terminal downloading = false
is_terminal ready = false
is_terminal installed = true
is_terminal failed = true
is_terminal rolled_back = true

-- ['staged','downloading','ready'].includes(item.status)
unfoldable pub is_unfinished : Deployment → Bool
unfolding is_terminal
is_unfinished d = not (is_terminal d.status)

-- The statuses that an agent may report.
unfoldable pub reportable : Option Status → Option Status
reportable (some staged) = none
reportable s = s

module _ (signing : Signing) (u : Upgrades) where
  -- registerRelease(build)
  unfoldable pub register_release : Build → ℕ → Result UpgradeError (Upgrades × Release)
  unfolding is_https is_sha256
  register_release build clock = do
    refuse_if (not (is_https (codes build.artifact_url))) url_invalid
    refuse_if (not (is_sha256 build.sha256) || or_else build.size_bytes 0 == 0) digest_invalid
    let manifest : Manifest = record {
      release_id = signing.uuid u.drawn;
      version = build.version;
      artifact_url = build.artifact_url;
      sha256 = signing.lower build.sha256;
      size_bytes = or_else build.size_bytes 0;
      signing_key_id = signing.key_id;
      created_at = clock;
    }
    let release : Release = record { manifest = manifest; signature = signing.sign manifest }
    ok (
      record u { releases = put manifest.release_id release u.releases; drawn = suc u.drawn },
      release,
    )

  -- The deployment that stage makes.
  unfoldable pub new_deployment : String → String → ℕ → Deployment
  new_deployment agent_id release_id clock = record {
    deployment_id = signing.uuid u.drawn;
    agent_id = agent_id;
    release_id = release_id;
    status = staged;
    staged_at = clock;
    completed_at = none;
    rollback_version = none;
    detail = none;
  }

  -- stage(agentId, releaseId)
  unfoldable pub stage : String → String → ℕ → Result UpgradeError (Upgrades × Deployment)
  unfolding new_deployment
  stage agent_id release_id clock = elim (get release_id u.releases) [
    | none ↦ err release_not_found
    | some release ↦
        let d = new_deployment agent_id release_id clock in
        ok (record u { deployments = put d.deployment_id d u.deployments; drawn = suc u.drawn }, d)
  ]

unfoldable pub reported : Status → Option Json → Option Json → ℕ → Deployment → Deployment
unfolding is_terminal
reported status rollback_version detail clock d = record d {
  status = status;
  rollback_version = rollback_version;
  detail = detail;
  completed_at = if is_terminal status then some clock else d.completed_at;
}

unfoldable pub deployment_of : String → Option Deployment → Result UpgradeError Deployment
deployment_of agent_id none = err deployment_not_found
deployment_of agent_id (some d) =
    if str_eq d.agent_id agent_id then ok d else err deployment_not_found

unfoldable pub status_of : Option Status → Result UpgradeError Status
unfolding reportable
status_of status = elim (reportable status) [ none ↦ err status_invalid | some s ↦ ok s ]

module _ (u : Upgrades) where
  -- report(agentId, deploymentId, { status, rollbackVersion, detail })
  unfoldable pub report :
      String
      → String
      → Option Status
      → Option Json
      → Option Json
      → ℕ
      → Result UpgradeError (Upgrades × Deployment)
  unfolding reported deployment_of status_of is_terminal
  report agent_id deployment_id status rollback_version detail clock = do
    d ← deployment_of agent_id (get deployment_id u.deployments)
    s ← status_of status
    refuse_if (is_terminal d.status) terminal
    let d' = reported s rollback_version detail clock d
    ok (record u { deployments = put deployment_id d' u.deployments }, d')

  -- cancel(agentId, deploymentId, { detail })
  unfoldable pub cancel :
      String → String → Option Json → ℕ → Result UpgradeError (Upgrades × Deployment)
  unfolding report
  cancel agent_id deployment_id detail clock =
      report agent_id deployment_id (some failed) none
        (some (or_else detail (text "Cancelled by an operator."))) clock

  -- pending(agentId), each with its release
  unfoldable pub pending : String → List (Deployment × Option Release)
  unfolding is_unfinished
  pending agent_id =
      map (λ d. (d, get d.release_id u.releases))
        (filter_by (λ d. str_eq d.agent_id agent_id && is_unfinished d) (values u.deployments))

  -- listUnfinished()
  unfoldable pub list_unfinished : List Deployment
  unfolding is_unfinished
  list_unfinished = filter_by is_unfinished (values u.deployments)

  -- listReleases({ limit }), for a limit from 1 to 200
  unfoldable pub list_releases : ℕ → List Release
  unfolding sort_by
  list_releases limit =
      take limit
        (sort_by (λ a b. ltb a.manifest.created_at b.manifest.created_at) (values u.releases))

  -- listDeployments(agentId, { limit }), for a limit from 1 to 100
  unfoldable pub list_deployments : String → ℕ → List Deployment
  unfolding sort_by
  list_deployments agent_id limit = take limit (
      sort_by (λ a b. ltb a.staged_at b.staged_at)
        (filter_by (λ d. str_eq d.agent_id agent_id) (values u.deployments)))
