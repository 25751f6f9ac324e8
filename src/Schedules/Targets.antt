-- ===== src/Schedules/Targets.antt =====
-- `resolveTargets` of modules/tasks/src/schedule-rules.js: the machines that a schedule is about.
use nuvrion.Common.{
  String, Bool, true, ◌&&◌, ◌||◌, not, Option, none, some, List, [], any, filter_by, str_eq,
  or_else,
}
use nuvrion.Common.Results.{Result, ok, ◌>>=◌}
use nuvrion.Common.Json.{text, Platform}
use nuvrion.Inventory.TagRules.{TagError, Tag, parse_tag_filter, matches_tag_filter}

pub record Resource : Type 0 where
  pub id : String
  pub name : String
  pub resource_type : Option String
  pub lifecycle_state : String
  pub connection_id : String

-- The listed machines, or a tag and perhaps a connection.
pub data Wanted : Type 0 where
  listed : List String → Wanted
  tagged : String → Option String → Wanted

pub record Found : Type 0 where
  pub machines : List Resource
  pub gone : List String

-- resource.resourceType is missing, empty or 'virtual_machine', and the machine is active
unfoldable pub is_active : Resource → Bool
is_active r =
    (str_eq (or_else r.resource_type "") ""
      || str_eq (or_else r.resource_type "") "virtual_machine")
    && str_eq r.lifecycle_state "active"

-- A value of connectionId that is given, and not empty.
unfoldable pub narrows : Option String → Resource → Bool
narrows none r = true
narrows (some c) r = str_eq c "" || str_eq r.connection_id c

module _ (platform : Platform) (tags_of : Resource → List Tag) where
  -- resolveTargets(schedule, resources, tagsOf)
  unfoldable pub resolve_targets : Wanted → List Resource → Result TagError Found
  unfolding is_active narrows
  resolve_targets (listed vm_ids) resources =
      let found = filter_by (λ r. any (str_eq r.id) vm_ids) (filter_by is_active resources) in
      ok (record {
        machines = found;
        gone = filter_by (λ id. not (any (λ r. str_eq r.id id) found)) vm_ids;
      })
  resolve_targets (tagged tag connection) resources =
      parse_tag_filter platform (some (text tag)) >>= λ filter. ok (record {
        machines =
            filter_by (λ r. narrows connection r && matches_tag_filter platform (tags_of r) filter)
              (filter_by is_active resources);
        gone = [];
      })
