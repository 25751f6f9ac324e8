-- ===== src/Inventory/TagTests.antt =====
-- Runs of the tag rules and of the tag service, and applications of their theorems.
use nuvrion.Common.{
  ◌≡◌, refl, String, Bool, true, false, Option, none, some, List, [], ◌∷◌, Assoc, All, values,
  arith, if◌then◌else◌,
}
use nuvrion.Common.Results.{ok, err}
use nuvrion.Common.Json.{Json, text, array, object, nil, cons, end, field, Platform}
use nuvrion.Inventory.TagRules.{TagError, parse_tag_filter, matches_tag_filter, set_and_removed}
use nuvrion.Inventory.TagRequest.{Operation, includes, parse_tag_operation}
use nuvrion.Inventory.TagPlan.{Entry, Progress, tag_of}
use nuvrion.Inventory.TagStore.{TagService, apply, apply_plan, forget, for_resources, open_service}
use nuvrion.Inventory.TagEffects.{IsTidy, value_at, wanted_value}
use nuvrion.Inventory.TagApply.{apply-value_at, apply-IsTidy}
use nuvrion.Inventory.TagTyping.{IsWellFormed, parse_tag_operation-IsWellFormed}

abbrev platform : Platform
platform = record { lower = λ s. s; shown = λ v. "" }

abbrev web : String
web = "0b0f6a52-5c2f-4f4c-9a5e-2f6c1d1f7a01"

abbrev setting : Json
setting = object (field "key" (text "env") (field "value" (text " prod ") end))

abbrev request : Option Json
request = some (
    object (
      field "resourceIds" (array (cons (text web) nil)) (
        field "set" (array (cons setting nil))
          (field "remove" (array (cons (text "old") nil)) end))))

abbrev both : Option Json
both = some (
    object (
      field "resourceIds" (array (cons (text web) nil)) (
        field "set" (array (cons setting nil))
          (field "remove" (array (cons (text "env") nil)) end))))

abbrev service : TagService
service = record { tags = (web, ("old", "1") ∷ []) ∷ []; has_file = true; disk = none }

abbrev operation : Operation
operation = record {
  resource_ids = web ∷ [];
  settings = ("env", "prod") ∷ [];
  removals = "old" ∷ [];
}

abbrev entry : Entry
entry = record {
  resource_id = web;
  added = tag_of "env" "prod" ∷ [];
  changed = [];
  removed = tag_of "old" "1" ∷ [];
  after = tag_of "env" "prod" ∷ [];
  changed_anything = true;
}

abbrev stored : Assoc (Assoc String)
stored = (web, ("env", "prod") ∷ []) ∷ []

parsed : parse_tag_operation platform request ≡ ok operation
unfolding parse_tag_operation nuvrion.Common.get nuvrion.Inventory.TagRules.normalise_key
    nuvrion.Inventory.TagRules.normalise_value nuvrion.Common.put
parsed = refl

refused : parse_tag_operation platform both ≡ err (set_and_removed "env")
unfolding parse_tag_operation nuvrion.Common.get nuvrion.Inventory.TagRules.normalise_key
    nuvrion.Inventory.TagRules.normalise_value nuvrion.Common.put
refused = refl

applied :
    apply platform request service
    ≡ ok (entry ∷ [], record { tags = stored; has_file = true; disk = some stored })
unfolding apply parse_tag_operation nuvrion.Common.get nuvrion.Inventory.TagRules.normalise_key
    nuvrion.Inventory.TagRules.normalise_value nuvrion.Common.put
    nuvrion.Inventory.TagPlan.progress_of nuvrion.Common.remove
    nuvrion.Inventory.TagPlan.insert_by_key nuvrion.Inventory.TagStore.apply_entry
applied = refl

forgotten : forget (web ∷ []) service ≡ (1, record { tags = []; has_file = true; disk = some [] })
unfolding forget nuvrion.Common.get nuvrion.Common.remove
forgotten = refl

shown : for_resources (web ∷ "none" ∷ []) service ≡ (web, tag_of "old" "1" ∷ []) ∷ []
unfolding for_resources nuvrion.Common.get nuvrion.Common.put nuvrion.Inventory.TagPlan.tags_of
    nuvrion.Inventory.TagPlan.sort_by_key nuvrion.Inventory.TagPlan.insert_by_key
shown = refl

filtered :
    parse_tag_filter platform (some (text " env = prod"))
    ≡ ok (record { key = "env"; value = some "prod" })
unfolding parse_tag_filter
filtered = refl

matched :
    matches_tag_filter platform
      (tag_of "env" "prod" ∷ [])
      (record { key = "env"; value = some "dev" })
    ≡ false
unfolding matches_tag_filter
matched = refl

tidy : All IsTidy (values service.tags)
unfolding values nuvrion.Common.get
tidy = (record { distinct = (refl, tt); few = omega arith; some_tag = refl }, tt)

apply-value_at_example : value_at web "old" stored ≡ (
    if includes (web ∷ []) web
    then wanted_value service.tags operation web "old"
    else value_at web "old" service.tags)
apply-value_at_example =
    apply-value_at platform request service
      (record { tags = stored; has_file = true; disk = some stored }) (entry ∷ []) operation web
      "old" tidy parsed applied

apply-IsTidy_example : All IsTidy (values stored)
apply-IsTidy_example =
    apply-IsTidy platform request service
      (record { tags = stored; has_file = true; disk = some stored }) (entry ∷ []) tidy applied

parse_tag_operation-IsWellFormed_example : IsWellFormed operation
parse_tag_operation-IsWellFormed_example =
    parse_tag_operation-IsWellFormed platform request operation parsed
