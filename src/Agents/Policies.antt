-- ===== src/Agents/Policies.antt =====
-- modules/agents/src/agent-upgrade-policies.js. What Intl.DateTimeFormat knows of time zones is a
-- parameter: which names are zones, and the minute of the day that a zone's clocks show.
use nuvrion.Common.{
  ℕ, String, Bool, true, false, ◌&&◌, ◌||◌, not, Option, none, some, List, str_eq, ltb, leb, ◌==◌,
  get, put, values, Assoc, sort_by, if◌then◌else◌,
}
use nuvrion.Common.Results.{Result, ok, err, ◌>>=◌, ◌>>◌, refuse_if}
use nuvrion.Common.Text.{codes, is_time, minute_of}
use nuvrion.Common.Json.{is_truthy, Json, Platform, object_of, to_text, null, bool, text}

pub data PolicyError : Type 0 where
  no_switch one_end bad_time bad_zone : PolicyError

pub record Zones : Type 0 where
  pub is_zone : String → Bool
  pub minute_at : String → ℕ → ℕ

-- A window's ends are kept as they were sent.
pub record Policy : Type 0 where
  pub auto_upgrade : Bool
  pub window_start : Option Json
  pub window_end : Option Json
  pub window_timezone : String

-- value ?? null
unfoldable pub or_null : Option Json → Option Json
or_null (some null) = none
or_null v = v

unfoldable pub is_given : Option Json → Bool
is_given none = false
is_given (some v) = true

unfoldable pub differ : Bool → Bool → Bool
differ true b = not b
differ false b = b

unfoldable pub is_time_text : Platform → Option Json → Bool
unfolding is_time to_text
is_time_text platform v = is_time (codes (to_text platform v))

unfoldable pub zone_of : Zones → Option Json → Result PolicyError String
zone_of zones none = ok "UTC"
zone_of zones (some null) = ok "UTC"
zone_of zones (some (text s)) = if zones.is_zone s then ok s else err bad_zone
zone_of zones (some _) = err bad_zone

unfoldable pub switch_of : Option Json → Result PolicyError Bool
switch_of (some (bool b)) = ok b
switch_of _ = err no_switch

unfoldable pub check_window : Platform → Option Json → Option Json → Result PolicyError (Unit {0})
unfolding is_given differ is_time_text
check_window platform start end = do
  refuse_if (differ (is_given start) (is_given end)) one_end
  refuse_if (is_given start && not (is_time_text platform start && is_time_text platform end))
      bad_time

unfoldable pub policy_of :
    Platform → Zones → Option Json → Option Json → Assoc Json → Result PolicyError Policy
unfolding check_window zone_of switch_of
policy_of platform zones start end fields = do
  auto_upgrade ← switch_of (get "autoUpgrade" fields)
  check_window platform start end
  zone ← zone_of zones (get "windowTimezone" fields)
  ok (record {
    auto_upgrade = auto_upgrade;
    window_start = start;
    window_end = end;
    window_timezone = zone;
  })

unfoldable pub normalize_fields : Platform → Zones → Assoc Json → Result PolicyError Policy
unfolding or_null policy_of
normalize_fields platform zones fields =
    policy_of platform zones (or_null (get "windowStart" fields)) (or_null (get "windowEnd" fields))
      fields

-- normalizePolicy(input)
unfoldable pub normalize_policy : Platform → Zones → Option Json → Result PolicyError Policy
unfolding normalize_fields
normalize_policy platform zones input = elim (object_of input) [
  | none ↦ err no_switch
  | some fields ↦ normalize_fields platform zones fields
]

-- at(value), for the values that normalizePolicy lets through; `none` is NaN, which a list of one time gives.
unfoldable pub minute_in : Option Json → Option ℕ
minute_in (some (text s)) = some (minute_of (codes s))
minute_in _ = none

unfoldable pub in_window : Option ℕ → Option ℕ → ℕ → Bool
in_window (some start) (some end) minutes =
    if start == end
    then true
    else if ltb start end
    then leb start minutes && ltb minutes end
    else leb start minutes || ltb minutes end
in_window (some start) none minutes = leb start minutes
in_window none (some end) minutes = ltb minutes end
in_window none none minutes = false

-- windowTimezone || 'UTC'
unfoldable pub zone_or_utc : String → String
zone_or_utc zone = if str_eq zone "" then "UTC" else zone

-- isWithinWindow(policy, date)
unfoldable pub is_within_window : Zones → Policy → ℕ → Bool
unfolding is_truthy minute_in in_window zone_or_utc
is_within_window zones policy now =
    if not (is_truthy policy.window_start) || not (is_truthy policy.window_end)
    then true
    else in_window (minute_in policy.window_start) (minute_in policy.window_end)
        (zones.minute_at (zone_or_utc policy.window_timezone) now)

-- A policy as AgentUpgradePolicies keeps it.
pub record Kept : Type 0 where
  pub agent_id : String
  pub policy : Policy
  pub updated_at : ℕ
  pub updated_by : Option String

-- set(agentId, input, { by })
unfoldable pub set_policy :
    Platform
    → Zones
    → String
    → Option Json
    → Option String
    → ℕ
    → Assoc Kept
    → Result PolicyError (Assoc Kept × Kept)
unfolding normalize_policy
set_policy platform zones agent_id input by clock policies =
    normalize_policy platform zones input >>= λ policy.
    let kept : Kept = record {
      agent_id = agent_id;
      policy = policy;
      updated_at = clock;
      updated_by = by;
    } in
    ok (put agent_id kept policies, kept)

-- list(); `after` is localeCompare being above 0.
unfoldable pub list_policies : (String → String → Bool) → Assoc Kept → List Kept
list_policies after policies = sort_by (λ a b. after a.agent_id b.agent_id) (values policies)
