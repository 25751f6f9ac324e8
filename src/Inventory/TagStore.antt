-- ===== src/Inventory/TagStore.antt =====
-- modules/inventory/src/tag-service.js: the tags of each resource, in a file.
use nuvrion.Common.{
  ℕ, ◌+◌, String, Bool, Option, none, some, List, [], ◌∷◌, any, is_some, or_else, leb, get, put,
  remove, Assoc, if◌then◌else◌,
}
use nuvrion.Common.Results.{Result, ok, ◌>>=◌}
use nuvrion.Common.Json.{Json, Platform}
use nuvrion.Inventory.TagRules.{TagError, Tag}
use nuvrion.Inventory.TagRequest.{Operation, parse_tag_operation}
use nuvrion.Inventory.TagPlan.{Entry, is_empty, sort_by_key, tags_of, plan_tag_changes}

pub record TagService : Type 0 where
  pub tags : Assoc (Assoc String)
  pub has_file : Bool
  pub disk : Option (Assoc (Assoc String))

-- #persist()
unfoldable pub persist : TagService → TagService
persist s = record s { disk = if s.has_file then some s.tags else s.disk }

-- new TagService({ file }): what is in the file, or nothing
unfoldable pub open_service : Bool → Option (Assoc (Assoc String)) → TagService
open_service has_file disk = record {
  tags = if has_file then or_else disk [] else [];
  has_file = has_file;
  disk = disk;
}

-- new Map(entry.after.map(({ key, value }) => [key, value]))
unfoldable pub map_of : List Tag → Assoc String → Assoc String
map_of [] m = m
map_of (t ∷ ts) m = map_of ts (put t.key t.value m)

-- The loop of apply over the plan.
unfoldable pub apply_entry : Entry → Assoc (Assoc String) → Assoc (Assoc String)
unfolding map_of
apply_entry entry tags =
    if entry.changed_anything
    then (if is_empty entry.after
        then remove entry.resource_id tags
        else put entry.resource_id (map_of entry.after []) tags)
    else tags

unfoldable pub apply_plan : List Entry → Assoc (Assoc String) → Assoc (Assoc String)
apply_plan [] tags = tags
apply_plan (entry ∷ plan) tags = apply_plan plan (apply_entry entry tags)

unfoldable pub apply_operation : Operation → TagService → Result TagError (List Entry × TagService)
unfolding plan_tag_changes apply_plan persist
apply_operation op s = do
  plan ← plan_tag_changes s.tags op
  let s' : TagService = record s { tags = apply_plan plan s.tags }
  ok (plan, (if any (λ entry. entry.changed_anything) plan then persist s' else s'))

-- apply(body)
unfoldable pub apply :
    Platform → Option Json → TagService → Result TagError (List Entry × TagService)
unfolding apply_operation
apply platform body s = do op ← parse_tag_operation platform body; apply_operation op s

-- The loop of forResources, with what it has so far.
unfoldable pub resources_onto : List String → TagService → Assoc (List Tag) → Assoc (List Tag)
resources_onto [] s found = found
resources_onto (id ∷ ids) s found = resources_onto ids s (elim (get id s.tags) [
  | none ↦ found
  | some m ↦ if is_empty m then found else put id (tags_of (sort_by_key m)) found
])

-- forResources(resourceIds)
unfoldable pub for_resources : List String → TagService → Assoc (List Tag)
unfolding resources_onto
for_resources ids s = resources_onto ids s []

-- forget(resourceIds): how many had tags, and what is left.
unfoldable pub forget_all : List String → Assoc (Assoc String) → ℕ × Assoc (Assoc String)
forget_all [] tags = (0, tags)
forget_all (id ∷ ids) tags =
    let (n, left) = forget_all ids (remove id tags) in
    ((if is_some (get id tags) then n + 1 else n), left)

unfoldable pub forget : List String → TagService → ℕ × TagService
unfolding forget_all persist
forget ids s =
    let (n, left) = forget_all ids s.tags in
    let s' : TagService = record s { tags = left } in (n, (if leb 1 n then persist s' else s'))
