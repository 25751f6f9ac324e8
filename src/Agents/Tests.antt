-- ===== src/Agents/Tests.antt =====
-- Agents, releases and policies for the tests of agent upgrades.
use nuvrion.Common.{
  Among, ℕ, ◌≤◌, ◌<◌, ◌==◌, ◌||◌, ◌%◌, ◌+◌, ◌-◌, String, Bool, true, false, Option, none, some,
  List, [], ◌∷◌, ◌≡◌, refl, inl, inr, arith, get, Assoc, str_eq, if◌then◌else◌, ltb, length,
}
use nuvrion.Common.Text.{codes, minute_of}
use nuvrion.Common.Json.{text, bool, array, object, field, end, cons, nil, Platform}
use nuvrion.Common.Results.{ok}
use nuvrion.Agents.Versions.{is_newer_agent_version}
use nuvrion.Agents.Policies.{Policy, Kept, Zones, normalize_policy, is_within_window, zone_or_utc}
use nuvrion.Agents.Upgrades.{
  Status, staged, failed, Manifest, Release, Deployment, Upgrades, Signing, list_unfinished,
  list_releases, register_release,
}
use nuvrion.Agents.Cycle.{
  Agent, Staging, Around, enabled_policies, newest_of, run_auto_upgrade_cycle,
}
use nuvrion.Agents.Stagings.{IsDue}
use nuvrion.Agents.Windows.{is_within_window-around}
use nuvrion.Agents.Flight.{
  Careful, run_auto_upgrade_cycle-Careful, AtMostOne, cycles, reports, run, run-AtMostOne,
}
use nuvrion.Agents.Progress.{run_auto_upgrade_cycle-stagings}

abbrev platform : Platform
platform = record { lower = λ s. s; shown = λ v. "" }

abbrev zones : Zones
zones = record { is_zone = λ z. str_eq z "UTC"; minute_at = λ z now. now }

abbrev release : String → String → Release
release id version = record {
  manifest = record {
    release_id = id;
    version = some (text version);
    artifact_url = "https://x";
    sha256 = id;
    size_bytes = 1;
    signing_key_id = "k";
    created_at = 1;
  };
  signature = "s";
}

abbrev signing : Signing
signing = record { key_id = "k"; sign = λ m. "s"; lower = λ s. s; uuid = λ n. "d" }

abbrev agent : Agent
agent = record { id = "a"; online = true; version = some (text "0.9.9") }

abbrev around : Around
around = record {
  platform = platform;
  zones = zones;
  signing = signing;
  agent_of = λ id. if str_eq id "a" then some agent else none;
  has_artifact = λ sha. true;
  after = λ a b. false;
}

abbrev night : Policy
night = record {
  auto_upgrade = true;
  window_start = some (text "22:00");
  window_end = some (text "06:00");
  window_timezone = "UTC";
}

abbrev kept : Kept
kept = record { agent_id = "a"; policy = night; updated_at = 1; updated_by = none }

abbrev policies : Assoc Kept
policies = ("a", kept) ∷ []

abbrev releases : Upgrades
releases = record {
  releases = ("r1", release "r1" "0.9.12-beta.1") ∷ ("r2", release "r2" "0.9.10") ∷ [];
  deployments = [];
  drawn = 0;
}

-- Parts are compared as numbers: 0.9.10 is newer than 0.9.9.
newer_as_numbers :
    is_newer_agent_version platform (some (text "0.9.10")) (some (text " 0.9.9-rc1 ")) ≡ true
unfolding is_newer_agent_version nuvrion.Common.Text.trim
newer_as_numbers = refl

suffix_ignored :
    is_newer_agent_version platform (some (text "1.0.0-b")) (some (text "1.0.0")) ≡ false
unfolding is_newer_agent_version nuvrion.Common.Text.trim
suffix_ignored = refl

newest_example :
    newest_of around 60 (list_releases releases 200) none ≡ some (release "r1" "0.9.12-beta.1")
unfolding newest_of list_releases nuvrion.Common.values nuvrion.Common.Text.trim
newest_example = refl

-- A deployment that failed is not tried again.
no_second_try :
    (run_auto_upgrade_cycle around 60 policies
      (record releases {
        deployments =
            (
              "d0",
              record {
                deployment_id = "d0";
                agent_id = "a";
                release_id = "r1";
                status = failed;
                staged_at = 1;
                completed_at = some 2;
                rollback_version = none;
                detail = none;
              },
            )
            ∷ [];
      })
      []).stagings
    ≡ []
unfolding run_auto_upgrade_cycle nuvrion.Common.values nuvrion.Common.Text.trim minute_of
no_second_try = refl

-- A list of one time, which String shows as the time, passes normalizePolicy; the window of 06:00 to 22:00
-- that it starts then admits 02:00.
abbrev shows_times : Platform
shows_times = record { lower = λ s. s; shown = λ v. "06:00" }

abbrev listed_start : Policy
listed_start = record {
  auto_upgrade = true;
  window_start = some (array (cons (text "06:00") nil));
  window_end = some (text "22:00");
  window_timezone = "UTC";
}

normalize_policy-listed_start :
    normalize_policy shows_times zones (
      some (
        object (
          field "autoUpgrade" (bool true) (
            field "windowStart"
              (array (cons (text "06:00") nil))
              (field "windowEnd" (text "22:00") end)))))
    ≡ ok listed_start
unfolding normalize_policy get
normalize_policy-listed_start = refl

is_within_window-listed_start : is_within_window zones listed_start 120 ≡ true
unfolding is_within_window minute_of
is_within_window-listed_start = refl

is_within_window-around_example : is_within_window zones night 60 ≡ (
    minute_of (codes "22:00") == minute_of (codes "06:00")
    || ltb
        ((zones.minute_at (zone_or_utc night.window_timezone) 60 + 1440 - minute_of (codes "22:00"))
          % 1440)
        ((minute_of (codes "06:00") + 1440 - minute_of (codes "22:00")) % 1440))
unfolding normalize_policy get
is_within_window-around_example =
    is_within_window-around platform zones
      (some (
        object (
          field "autoUpgrade" (bool true)
            (field "windowStart" (text "22:00") (field "windowEnd" (text "06:00") end)))))
      night "22:00" "06:00" 60 refl refl refl (omega arith)

due : IsDue around 60 (release "r1" "0.9.12-beta.1") releases kept agent
unfolding nuvrion.Agents.Cycle.online_agent is_newer_agent_version nuvrion.Common.Text.trim
    is_within_window minute_of nuvrion.Agents.Cycle.has_failed
    nuvrion.Agents.Upgrades.list_deployments nuvrion.Common.values
due = record { found = refl; newer = refl; open_now = refl; never_failed = refl }

run_auto_upgrade_cycle-Careful_example :
    Careful around 60 policies releases (run_auto_upgrade_cycle around 60 policies releases [])
run_auto_upgrade_cycle-Careful_example =
    run_auto_upgrade_cycle-Careful around 60 policies releases []

run_auto_upgrade_cycle-stagings_example :
    let c = run_auto_upgrade_cycle around 60 policies releases [] in
    (s : Staging) × (c.stagings ≡ s ∷ [])
    × (s.version ≡ some (text "0.9.12-beta.1"))
    × (d : Deployment) × (get s.deployment_id c.upgrades.deployments ≡ some d)
    × (d.agent_id ≡ s.agent_id)
    × (d.release_id ≡ "r1")
    × (d.status ≡ staged)
unfolding get list_unfinished nuvrion.Common.values newest_of list_releases nuvrion.Common.Text.trim
    enabled_policies
run_auto_upgrade_cycle-stagings_example =
    run_auto_upgrade_cycle-stagings around 60 policies releases [] (release "r1" "0.9.12-beta.1")
      kept agent (refl, refl, (refl, refl, tt)) refl refl (inl refl) due

run-AtMostOne_example :
    AtMostOne (
      run releases (cycles around 60 policies [] ∷ reports "a" "d" (some failed) none none 70 ∷ []))
unfolding list_unfinished nuvrion.Common.values
run-AtMostOne_example =
    run-AtMostOne releases
      (cycles around 60 policies [] ∷ reports "a" "d" (some failed) none none 70 ∷ []) (omega arith)
