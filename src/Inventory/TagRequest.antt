-- ===== src/Inventory/TagRequest.antt =====
-- `parseTagOperation` of modules/inventory/src/tag-rules.js.
use nuvrion.Common.{
  String, Bool, ◌&&◌, ◌||◌, Option, none, some, List, [], ◌∷◌, ◌++◌, map, any, str_eq, length, ltb,
  ◌==◌, get, put, Assoc, if◌then◌else◌,
}
use nuvrion.Common.Results.{Result, ok, err, ◌>>=◌, ◌>>◌, refuse_if}
use nuvrion.Common.Text.{is_uuid}
use nuvrion.Common.Json.{Json, text, Platform, object_of, array_of, unknown_field}
use nuvrion.Inventory.TagRules.{
  TagError, not_object, no_resources, too_many_resources, bad_resource_id, not_lists,
  nothing_to_change, too_many_changes, bad_setting, bad_removal, unknown_field_named, set_twice,
  set_and_removed, resources_per_request, changes_per_request, normalise_key, normalise_value,
}

abbrev pub includes : List String → String → Bool
includes keys key = any (str_eq key) keys

-- new Set(list), in the order of first occurrence
unfoldable pub distinct_onto : List String → List String → List String
distinct_onto seen [] = seen
distinct_onto seen (x ∷ xs) = distinct_onto (if includes seen x then seen else seen ++ x ∷ []) xs

unfoldable pub distinct : List String → List String
unfolding distinct_onto
distinct xs = distinct_onto [] xs

pub record Operation : Type 0 where
  pub resource_ids : List String
  pub settings : Assoc String
  pub removals : List String

-- The identifiers of the list, if all are texts of their form.
unfoldable pub resource_ids_of : List Json → Result TagError (List String)
unfolding is_uuid
resource_ids_of [] = ok []
resource_ids_of (text id ∷ rest) =
    if is_uuid id then (resource_ids_of rest >>= λ ids. ok (id ∷ ids)) else err bad_resource_id
resource_ids_of (v ∷ rest) = err bad_resource_id

-- set = [], remove = []: a field that is not given is the empty list.
unfoldable pub list_or_empty : Option Json → Result TagError (List Json)
list_or_empty none = ok []
list_or_empty (some v) = elim (array_of (some v)) [ none ↦ err not_lists | some vs ↦ ok vs ]

module _ (platform : Platform) where
  -- The loop over `set`.
  unfoldable pub settings_of : List Json → Assoc String → Result TagError (Assoc String)
  settings_of [] settings = ok settings
  settings_of (item ∷ items) settings = elim (object_of (some item)) [
    | none ↦ err bad_setting
    | some fields ↦ normalise_key platform (get "key" fields) >>= λ key. elim (get key settings) [
      | some earlier ↦ err (set_twice key)
      | none ↦ normalise_value platform (get "value" fields) >>= λ value.
          settings_of items (put key value settings)
    ]
  ]

  -- The loop over `remove`.
  unfoldable pub removals_of :
      Assoc String → List Json → List String → Result TagError (List String)
  removals_of settings [] removals = ok removals
  removals_of settings (text raw ∷ items) removals =
      normalise_key platform (some (text raw)) >>= λ key. elim (get key settings) [
        | some value ↦ err (set_and_removed key)
        | none ↦
            removals_of settings items
              (if includes removals key then removals else removals ++ key ∷ [])
      ]
  removals_of settings (v ∷ items) removals = err bad_removal

  unfoldable pub parse_changes : List Json → List Json → List String → Result TagError Operation
  unfolding settings_of removals_of distinct
  parse_changes set remove ids = do
    settings ← settings_of set []
    removals ← removals_of settings remove []
    ok (record {
      resource_ids = distinct (map platform.lower ids);
      settings = settings;
      removals = removals;
    })

  unfoldable pub parse_fields : Assoc Json → Result TagError Operation
  unfolding parse_changes resource_ids_of list_or_empty
  parse_fields fields = do
    given ← elim (array_of (get "resourceIds" fields)) [ none ↦ err no_resources | some vs ↦ ok vs ]
    refuse_if (length given == 0) no_resources
    refuse_if (ltb resources_per_request (length given)) too_many_resources
    ids ← resource_ids_of given
    set ← list_or_empty (get "set" fields)
    remove ← list_or_empty (get "remove" fields)
    refuse_if (length set == 0 && length remove == 0) nothing_to_change
    refuse_if (ltb changes_per_request (length set) || ltb changes_per_request (length remove))
        too_many_changes
    parse_changes set remove ids

  -- parseTagOperation(body)
  unfoldable pub parse_tag_operation : Option Json → Result TagError Operation
  unfolding parse_fields unknown_field
  parse_tag_operation body = elim (object_of body) [
    | none ↦ err not_object
    | some fields ↦ elim (unknown_field ("resourceIds" ∷ "set" ∷ "remove" ∷ []) fields) [
      | some name ↦ err (unknown_field_named name)
      | none ↦ parse_fields fields
    ]
  ]
