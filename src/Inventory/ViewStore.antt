-- ===== src/Inventory/ViewStore.antt =====
-- modules/inventory/src/view-service.js: the views of each person, in a file.
use nuvrion.Common.{
  ℕ, ◌+◌, String, Bool, false, ◌&&◌, not, Option, none, some, List, [], ◌∷◌, any, filter_by, map,
  length, str_eq, leb, ◌==◌, get, put, remove, values, Assoc, or_else, if◌then◌else◌,
}
use nuvrion.Common.Results.{Result, ok, ◌>>=◌, ◌>>◌, refuse_if}
use nuvrion.Common.Json.{Json, Platform}
use nuvrion.Inventory.ViewRules.{
  ViewError, view_limit, version_conflict, view_exists, View, per_person,
}
use nuvrion.Inventory.ViewRequests.{Changed, parse_create, parse_change}

-- A view as it is kept; the scope is always 'inventory'.
pub record Item : Type 0 where
  pub id : String
  pub user_id : String
  pub name : String
  pub view : View
  pub row_version : ℕ
  pub created_at : ℕ
  pub updated_at : ℕ

-- publicView: without the person
pub record PublicView : Type 0 where
  pub id : String
  pub name : String
  pub view : View
  pub row_version : ℕ
  pub created_at : ℕ
  pub updated_at : ℕ

unfoldable pub public_view : Item → PublicView
public_view item = record {
  id = item.id;
  name = item.name;
  view = item.view;
  row_version = item.row_version;
  created_at = item.created_at;
  updated_at = item.updated_at;
}

pub record ViewService : Type 0 where
  pub views : Assoc Item
  pub has_file : Bool
  pub disk : Option (List Item)

-- #persist()
unfoldable pub persist : ViewService → ViewService
persist s = record s { disk = if s.has_file then some (values s.views) else s.disk }

unfoldable pub load : List Item → Assoc Item → Assoc Item
load [] views = views
load (item ∷ items) views = load items (put item.id item views)

-- new ViewService({ file }); a file that cannot be read is `none`
unfoldable pub open_service : Bool → Option (List Item) → ViewService
unfolding load
open_service has_file disk = record {
  views = if has_file then load (or_else disk []) [] else [];
  has_file = has_file;
  disk = disk;
}

-- #mine(userId)
unfoldable pub mine : String → Assoc Item → List Item
mine user_id views = filter_by (λ item. str_eq item.user_id user_id) (values views)

module _ (not_after : String → String → Bool) where
  -- sort((a, b) => a.name.localeCompare(b.name)): `not_after a b` is a.localeCompare(b) <= 0
  unfoldable pub insert_by_name : Item → List Item → List Item
  insert_by_name x [] = x ∷ []
  insert_by_name x (y ∷ ys) =
      let rest = insert_by_name x ys in if not_after x.name y.name then x ∷ y ∷ ys else y ∷ rest

  unfoldable pub sort_by_name : List Item → List Item
  sort_by_name [] = []
  sort_by_name (x ∷ xs) = insert_by_name x (sort_by_name xs)

  -- listViews(userId)
  unfoldable pub list_views : String → ViewService → List PublicView
  unfolding sort_by_name mine public_view
  list_views user_id s = map public_view (sort_by_name (mine user_id s.views))

-- The view of this identifier, if it is this person's.
unfoldable pub own : String → String → ViewService → Option Item
own user_id id s = elim (get id s.views) [
  | none ↦ none
  | some item ↦ if str_eq item.user_id user_id then some item else none
]

-- getView(userId, id)
unfoldable pub get_view : String → String → ViewService → Option PublicView
unfolding own public_view
get_view user_id id s = elim (own user_id id s) [
  | none ↦ none
  | some item ↦ some (public_view item)
]

module _ (platform : Platform) where
  -- #checkName(userId, name, exceptId): whether the name is taken
  unfoldable pub name_taken : String → String → Option String → Assoc Item → Bool
  unfolding mine
  name_taken user_id name except_id views =
      any
        (λ item.
          not (elim except_id [ none ↦ false | some id ↦ str_eq item.id id ])
          && str_eq (platform.lower item.name) (platform.lower name))
        (mine user_id views)

  -- createView(userId, input, now), with the identifier that is drawn
  unfoldable pub create_view :
      String → Option Json → ℕ → String → ViewService → Result ViewError (PublicView × ViewService)
  unfolding parse_create mine name_taken public_view persist
  create_view user_id input now id s = do
    made ← parse_create platform input
    refuse_if (leb per_person (length (mine user_id s.views))) view_limit
    refuse_if (name_taken user_id made.name none s.views) (view_exists made.name)
    let item : Item = record {
      id = id;
      user_id = user_id;
      name = made.name;
      view = made.view;
      row_version = 1;
      created_at = now;
      updated_at = now;
    }
    ok (public_view item, persist (record s { views = put id item s.views }))

  -- Object.assign(item, change, { rowVersion, updatedAt })
  unfoldable pub assigned : Item → Changed → ℕ → Item
  assigned item change now = record item {
    name = or_else change.name item.name;
    view = or_else change.view item.view;
    row_version = item.row_version + 1;
    updated_at = now;
  }

  -- updateView(userId, id, patch, expectedVersion, now)
  unfoldable pub update_view :
      String
      → String
      → Option Json
      → ℕ
      → ℕ
      → ViewService
      → Result ViewError (Option PublicView × ViewService)
  unfolding own parse_change name_taken assigned public_view persist
  update_view user_id id patch expected now s = elim (own user_id id s) [
    | none ↦ ok (none, s)
    | some item ↦ do
      refuse_if (not (item.row_version == expected)) version_conflict
      change ← parse_change platform patch
      refuse_if
          (elim change.name [
            | none ↦ false
            | some name ↦ name_taken user_id name (some id) s.views
          ])
          (view_exists (or_else change.name ""))
      let item' = assigned item change now
      ok (some (public_view item'), persist (record s { views = put id item' s.views }))
  ]

-- deleteView(userId, id): how many were deleted, or nothing
unfoldable pub delete_view : String → String → ViewService → Option ℕ × ViewService
unfolding own persist
delete_view user_id id s = elim (own user_id id s) [
  | none ↦ (none, s)
  | some item ↦ (some 1, persist (record s { views = remove id s.views }))
]
