-- ===== src/Inventory/TagPlan.antt =====
-- `planTagChanges` of modules/inventory/src/tag-rules.js.
use Prim.Native.String.{compare}
use package.text.Mathlib.Text.{is_lt}
use nuvrion.Common.{
  String, Bool, true, false, ◌||◌, not, none, some, List, [], ◌∷◌, ◌++◌, is_some, str_eq, or_else,
  length, ltb, get, put, remove, Assoc, if◌then◌else◌,
}
use nuvrion.Common.Results.{Result, ok, ◌>>=◌, ◌>>◌, refuse_if}
use nuvrion.Inventory.TagRules.{TagError, limit_exceeded, Tag, per_resource}
use nuvrion.Inventory.TagRequest.{Operation}

pub record Change : Type 0 where
  pub key : String
  pub from : String
  pub value : String

pub record Entry : Type 0 where
  pub resource_id : String
  pub added : List Tag
  pub changed : List Change
  pub removed : List Tag
  pub after : List Tag
  pub changed_anything : Bool

-- What the two loops of planTagChanges have gathered.
pub record Progress : Type 0 where
  pub added : List Tag
  pub changed : List Change
  pub removed : List Tag
  pub after : Assoc String

abbrev pub tag_of : String → String → Tag
tag_of key value = record { key = key; value = value }

-- The body of the first loop.
unfoldable pub set_tag : Assoc String → String → String → Progress → Progress
set_tag before key value p = record p {
  added = if is_some (get key before) then p.added else p.added ++ tag_of key value ∷ [];
  changed = elim (get key before) [
    | none ↦ p.changed
    | some old ↦
        if str_eq old value
        then p.changed
        else p.changed ++ record { key = key; from = old; value = value } ∷ []
  ];
  after = put key value p.after;
}

unfoldable pub set_tags : Assoc String → Assoc String → Progress → Progress
unfolding set_tag
set_tags before [] p = p
set_tags before ((key, value) ∷ rest) p = set_tags before rest (set_tag before key value p)

-- The body of the second loop.
unfoldable pub remove_tag : Assoc String → String → Progress → Progress
remove_tag before key p = elim (get key before) [
  | none ↦ p
  | some old ↦ record p { removed = p.removed ++ tag_of key old ∷ []; after = remove key p.after }
]

unfoldable pub remove_tags : Assoc String → List String → Progress → Progress
unfolding remove_tag
remove_tags before [] p = p
remove_tags before (key ∷ rest) p = remove_tags before rest (remove_tag before key p)

-- sort(([a], [b]) => a < b ? -1 : 1), for keys without repeats. Keys are ASCII, so the order of code
-- points is that of UTF-16 units.
unfoldable pub insert_by_key : String → String → Assoc String → Assoc String
insert_by_key k v [] = (k, v) ∷ []
insert_by_key k v ((j, w) ∷ m) =
    let rest = insert_by_key k v m in
    if is_lt (compare j k) then (j, w) ∷ rest else (k, v) ∷ (j, w) ∷ m

unfoldable pub sort_by_key : Assoc String → Assoc String
sort_by_key [] = []
sort_by_key ((k, v) ∷ m) = insert_by_key k v (sort_by_key m)

unfoldable pub tags_of : Assoc String → List Tag
tags_of [] = []
tags_of ((k, v) ∷ m) = tag_of k v ∷ tags_of m

abbrev pub is_empty {ℓ} : {A : Type ℓ} → List A → Bool
is_empty [] = true
is_empty (x ∷ xs) = false

-- What the loops make of the tags of one resource.
unfoldable pub progress_of : Assoc String → Operation → Progress
unfolding set_tags remove_tags
progress_of before op = remove_tags before op.removals (
    set_tags before op.settings (record { added = []; changed = []; removed = []; after = before }))

unfoldable pub entry_of : String → Progress → Entry
unfolding sort_by_key tags_of
entry_of id p = record {
  resource_id = id;
  added = p.added;
  changed = p.changed;
  removed = p.removed;
  after = tags_of (sort_by_key p.after);
  changed_anything =
      not (is_empty p.added) || (not (is_empty p.changed) || not (is_empty p.removed));
}

unfoldable pub plan_resources :
    Assoc (Assoc String) → Operation → List String → Result TagError (List Entry)
unfolding entry_of
plan_resources existing op [] = ok []
plan_resources existing op (id ∷ ids) =
    let p = progress_of (or_else (get id existing) []) op in
    let later = plan_resources existing op ids in
    do
      refuse_if (ltb per_resource (length p.after)) (limit_exceeded (length p.after))
      entries ← later
      ok (entry_of id p ∷ entries)

-- planTagChanges(existing, operation)
unfoldable pub plan_tag_changes : Assoc (Assoc String) → Operation → Result TagError (List Entry)
unfolding plan_resources
plan_tag_changes existing op = plan_resources existing op op.resource_ids
