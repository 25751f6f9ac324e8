-- ===== src/Inventory/ViewRequests.antt =====
-- The requests of modules/inventory/src/view-rules.js, and a view in words.
use nuvrion.Common.{
  ℕ, String, text_append, Bool, true, false, ◌&&◌, ◌||◌, not, Option, none, some, List, [], ◌∷◌,
  is_some, str_eq, ltb, get, Assoc, or_else, if◌then◌else◌, ◌++◌,
}
use nuvrion.Common.Results.{Result, ok, err, ◌>>=◌, ◌>>◌, refuse_if}
use nuvrion.Common.Json.{Json, int, Platform, object_of, named_unknown_field}
use nuvrion.Inventory.ViewRules.{
  ViewError, not_object, nothing_to_change, unknown_field_named, bad_count, bad_columns, View,
  parse_name, parse_view,
}

-- The fields of a request that has none but these.
unfoldable pub request_fields : List String → Option Json → Result ViewError (Assoc Json)
unfolding named_unknown_field
request_fields known body = elim (object_of body) [
  | none ↦ err not_object
  | some fields ↦ elim (named_unknown_field known fields) [
    | some name ↦ err (unknown_field_named name)
    | none ↦ ok fields
  ]
]

pub record Created : Type 0 where
  pub name : String
  pub view : View

pub record Changed : Type 0 where
  pub name : Option String
  pub view : Option View

pub record ExportNote : Type 0 where
  pub count : ℕ
  pub columns : Option ℕ
  pub view : Option View

-- A field that is parsed if it is given.
unfoldable pub if_given :
    {A : Type 0} → (Option Json → Result ViewError A) → Option Json → Result ViewError (Option A)
if_given parse none = ok none
if_given parse (some v) = parse (some v) >>= λ a. ok (some a)

unfoldable pub count_of : Option Json → Result ViewError ℕ
count_of (some (int n)) = if ltb 1000000 n then err bad_count else ok n
count_of _ = err bad_count

unfoldable pub columns_of : Option Json → Result ViewError (Option ℕ)
columns_of none = ok none
columns_of (some Json.null) = ok none
columns_of (some (int n)) = if ltb n 1 || ltb 100 n then err bad_columns else ok (some n)
columns_of (some _) = err bad_columns

module _ (platform : Platform) where
  -- parseCreate(body)
  unfoldable pub parse_create : Option Json → Result ViewError Created
  unfolding request_fields parse_name parse_view
  parse_create body = do
    fields ← request_fields ("name" ∷ "view" ∷ []) body
    name ← parse_name platform (get "name" fields)
    view ← parse_view platform (get "view" fields)
    ok (record { name = name; view = view })

  -- parseChange(body)
  unfoldable pub parse_change : Option Json → Result ViewError Changed
  unfolding request_fields if_given parse_name parse_view
  parse_change body = do
    fields ← request_fields ("name" ∷ "view" ∷ []) body
    refuse_if (not (is_some (get "name" fields)) && not (is_some (get "view" fields)))
        nothing_to_change
    name ← if_given (parse_name platform) (get "name" fields)
    view ← if_given (parse_view platform) (get "view" fields)
    ok (record { name = name; view = view })

  -- parseExportNote(body)
  unfoldable pub parse_export_note : Option Json → Result ViewError ExportNote
  unfolding request_fields if_given count_of columns_of parse_view
  parse_export_note body = do
    fields ← request_fields ("count" ∷ "columns" ∷ "view" ∷ []) body
    count ← count_of (get "count" fields)
    columns ← columns_of (get "columns" fields)
    view ← if_given (parse_view platform) (get "view" fields)
    ok (record { count = count; columns = columns; view = view })

-- parts.join(', ')
unfoldable pub join_commas : List String → String
join_commas [] = ""
join_commas (part ∷ []) = part
join_commas (part ∷ next ∷ parts) = text_append part (text_append ", " (join_commas (next ∷ parts)))

-- A part of the description, if there is a text for it.
unfoldable pub part_of : (String → String) → String → List String
part_of say value = if str_eq value "" then [] else say value ∷ []

-- describeView(view, { platformLabel })
unfoldable pub describe_view : (String → String) → View → String
unfolding join_commas part_of
describe_view platform_label view =
    let parts =
      part_of (λ s. s) (or_else view.power "")
      ++ part_of (λ s. s) (or_else view.health "")
      ++ part_of platform_label view.platform
      ++ part_of (text_append "tag ") (or_else view.tag "")
      ++ part_of (λ s. text_append "search “" (text_append s "”")) view.search
      ++ part_of
          (λ s. text_append "sorted by " (
            text_append s
              (if str_eq view.sort_direction "desc" then " (descending)" else " (ascending)")))
          (or_else view.sort_key "") in
    if length_is_none parts then "everything, unsorted" else join_commas parts
  where
    length_is_none : List String → Bool
    length_is_none [] = true
    length_is_none (p ∷ ps) = false
