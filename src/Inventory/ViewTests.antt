-- ===== src/Inventory/ViewTests.antt =====
-- Runs of the rules and the service of saved views, and applications of their theorems.
use nuvrion.Common.{
  ◌≡◌, refl, String, Bool, true, false, Option, none, some, List, [], ◌∷◌, leb, arith,
  if◌then◌else◌,
}
use nuvrion.Common.Results.{ok, err}
use nuvrion.Common.Json.{Json, int, text, object, end, field, Platform}
use nuvrion.Inventory.ViewRules.{
  not_a_word, power_word, version_conflict, view_exists, View, parse_view,
}
use nuvrion.Inventory.ViewRequests.{parse_export_note, describe_view}
use nuvrion.Inventory.ViewStore.{
  Item, PublicView, ViewService, mine, list_views, create_view, update_view,
}
use nuvrion.Inventory.ViewLaws.{
  create_call, update_call, delete_call, IsOrderly, run, step, run-IsOrderly,
}
use nuvrion.Inventory.ViewPrivacy.{step-mine, update_view-update_view}

abbrev platform : Platform
platform = record { lower = λ s. s; shown = λ v. "" }

abbrev view_body : Json
view_body = object (
    field "power" (text "running")
      (field "search" (text " web ") (field "sortKey" (text "cpu") end)))

abbrev web_view : View
web_view = record {
  search = "web";
  platform = "";
  power = some "running";
  health = none;
  tag = none;
  sort_key = some "cpu";
  sort_direction = "asc";
}

parsed : parse_view platform (some view_body) ≡ ok web_view
unfolding parse_view nuvrion.Common.get
parsed = refl

bad_power :
    parse_view platform (some (object (field "power" (text "On!") end)))
    ≡ err (not_a_word power_word)
unfolding parse_view nuvrion.Common.get
bad_power = refl

described : describe_view (λ p. p) web_view ≡ "running, search “web”, sorted by cpu (ascending)"
unfolding describe_view
described = refl

noted_export :
    parse_export_note platform (some (object (field "count" (int 12) end)))
    ≡ ok (record { count = 12; columns = none; view = none })
unfolding parse_export_note nuvrion.Common.get
noted_export = refl

abbrev created_body : Option Json
created_body = some (object (field "name" (text "Web") (field "view" view_body end)))

abbrev start : ViewService
start = record { views = []; has_file = true; disk = none }

abbrev item : Item
item = record {
  id = "a";
  user_id = "ann";
  name = "Web";
  view = web_view;
  row_version = 1;
  created_at = 5;
  updated_at = 5;
}

abbrev one : ViewService
one = record { views = ("a", item) ∷ []; has_file = true; disk = some (item ∷ []) }

abbrev shown_view : PublicView
shown_view = record {
  id = "a";
  name = "Web";
  view = web_view;
  row_version = 1;
  created_at = 5;
  updated_at = 5;
}

made : create_view platform "ann" created_body 5 "a" start ≡ ok (shown_view, one)
unfolding create_view nuvrion.Common.get nuvrion.Common.values nuvrion.Common.put
made = refl

listed : list_views (λ a b. true) "ann" one ≡ shown_view ∷ []
unfolding list_views nuvrion.Common.values nuvrion.Inventory.ViewStore.insert_by_name
listed = refl

twice : create_view platform "ann" created_body 6 "b" one ≡ err (view_exists "Web")
unfolding create_view nuvrion.Common.get nuvrion.Common.values
twice = refl

abbrev renamed_body : Option Json
renamed_body = some (object (field "name" (text "Servers") end))

abbrev renamed : Item
renamed = record item { name = "Servers"; row_version = 2; updated_at = 7 }

abbrev two : ViewService
two = record { views = ("a", renamed) ∷ []; has_file = true; disk = some (renamed ∷ []) }

abbrev shown_renamed : PublicView
shown_renamed = record shown_view { name = "Servers"; row_version = 2; updated_at = 7 }

changed : update_view platform "ann" "a" renamed_body 1 7 one ≡ ok (some shown_renamed, two)
unfolding update_view nuvrion.Common.get nuvrion.Common.values nuvrion.Common.put
changed = refl

start-IsOrderly : IsOrderly platform "ann" start
unfolding mine nuvrion.Common.values
start-IsOrderly = record { keyed = tt; few = omega arith; apart = tt }

run-IsOrderly_example : IsOrderly platform "ann" (
    run platform
      (create_call "ann" created_body 5 "a"
        ∷ update_call "ann" "a" renamed_body 1 7
        ∷ delete_call "bob" "a"
        ∷ [])
      start)
run-IsOrderly_example =
    run-IsOrderly platform "ann"
      (create_call "ann" created_body 5 "a"
        ∷ update_call "ann" "a" renamed_body 1 7
        ∷ delete_call "bob" "a"
        ∷ [])
      start start-IsOrderly

step-mine_example :
    mine "ann" (step platform (create_call "bob" created_body 9 "b") one).views
    ≡ mine "ann" one.views
unfolding nuvrion.Common.get
step-mine_example =
    step-mine platform "ann" (create_call "bob" created_body 9 "b") one (refl, refl, tt) refl refl

update_view-update_view_example :
    update_view platform "ann" "a" created_body 1 8 two ≡ err version_conflict
update_view-update_view_example =
    update_view-update_view platform "ann" "a" renamed_body created_body 1 7 8 shown_renamed one two
      changed
