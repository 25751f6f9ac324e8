-- ===== src/Inventory/ViewRules.antt =====
-- modules/inventory/src/view-rules.js: what a saved view may contain.
use nuvrion.Common.{
  ℕ, String, Bool, true, false, ◌&&◌, ◌||◌, Option, none, some, List, [], ◌∷◌, any, every, is_some,
  str_eq, length, ltb, leb, ◌==◌, get, Assoc, or_else, if◌then◌else◌,
}
use nuvrion.Common.Results.{Result, ok, err, ◌>>=◌, ◌>>◌, refuse_if}
use nuvrion.Common.Text.{codes, units, trim, has_control, is_lower, is_digit}
use nuvrion.Common.Json.{
  Json, null, bool, int, other_number, text, array, object, Platform, object_of,
  named_unknown_field, to_text,
}

-- The texts that a view's error may name.
pub data Label : Type 0 where
  view_name search_text tag_text platform_word power_word health_word : Label

-- The reasons of a ViewError, and the service's VERSION_CONFLICT.
pub data ViewError : Type 0 where
  needed too_long characters not_a_word : Label → ViewError
  view_not_object bad_sort_key bad_sort_direction not_object nothing_to_change : ViewError
  unknown_in_view unknown_field_named : String → ViewError
  bad_count bad_columns : ViewError
  view_limit version_conflict : ViewError
  view_exists : String → ViewError

-- LIMITS
abbrev pub per_person : ℕ
per_person = 20

abbrev pub name_max : ℕ
name_max = 60

abbrev pub search_max : ℕ
search_max = 100

abbrev pub tag_max : ℕ
tag_max = 200

abbrev pub sort_keys : List String
sort_keys =
    "name" ∷ "status" ∷ "guestOs" ∷ "hostname" ∷ "power" ∷ "ip" ∷ "cpu" ∷ "memory" ∷ "storage" ∷ []

-- The characters of TOKEN after the first.
unfoldable pub is_word_part : ℕ → Bool
unfolding is_lower is_digit
is_word_part c = is_lower c || (is_digit c || (c == b'_' || c == b'-'))

-- TOKEN: /^[a-z][a-z0-9_-]{0,31}$/
unfoldable pub is_word : List ℕ → Bool
unfolding is_word_part is_lower
is_word [] = false
is_word (c ∷ cs) = is_lower c && (every is_word_part cs && leb (length cs) 31)

-- plainText, on the trimmed text.
unfoldable pub check_text : Label → ℕ → Bool → String → Result ViewError String
unfolding units has_control
check_text label max required s = do
  refuse_if (required && str_eq s "") (needed label)
  refuse_if (ltb max (units s)) (too_long label)
  refuse_if (has_control s) (characters label)
  ok s

module _ (platform : Platform) where
  -- plainText(raw, label, max, { required })
  unfoldable pub plain_text : Label → ℕ → Bool → Option Json → Result ViewError String
  unfolding check_text to_text trim
  plain_text label max required raw = check_text label max required (trim (to_text platform raw))

  -- parseName(raw)
  unfoldable pub parse_name : Option Json → Result ViewError String
  unfolding plain_text
  parse_name raw = plain_text view_name name_max true raw

pub record View : Type 0 where
  pub search : String
  pub platform : String
  pub power : Option String
  pub health : Option String
  pub tag : Option String
  pub sort_key : Option String
  pub sort_direction : String

-- undefined, null and '' are no value
unfoldable pub given : Option Json → Option Json
given none = none
given (some null) = none
given (some (text s)) = if str_eq s "" then none else some (text s)
given (some other_number) = some other_number
given (some (bool b)) = some (bool b)
given (some (int n)) = some (int n)
given (some (array vs)) = some (array vs)
given (some (object fs)) = some (object fs)

-- token(value, label)
unfoldable pub token : Label → Option Json → Result ViewError (Option String)
unfolding given is_word
token label value = by_kind (given value)
  where
    by_kind : Option Json → Result ViewError (Option String)
    by_kind none = ok none
    by_kind (some (text s)) = if is_word (codes s) then ok (some s) else err (not_a_word label)
    by_kind (some _) = err (not_a_word label)

unfoldable pub sort_key_of : Option Json → Result ViewError (Option String)
unfolding given
sort_key_of value = by_kind (given value)
  where
    by_kind : Option Json → Result ViewError (Option String)
    by_kind none = ok none
    by_kind (some (text s)) = if any (str_eq s) sort_keys then ok (some s) else err bad_sort_key
    by_kind (some _) = err bad_sort_key

unfoldable pub sort_direction_of : Option Json → Result ViewError String
sort_direction_of none = ok "asc"
sort_direction_of (some null) = ok "asc"
sort_direction_of (some (text s)) =
    if str_eq s "asc" || str_eq s "desc" then ok s else err bad_sort_direction
sort_direction_of (some _) = err bad_sort_direction

module _ (platform : Platform) where
  unfoldable pub parse_view_fields : Assoc Json → Result ViewError View
  unfolding plain_text token sort_key_of sort_direction_of
  parse_view_fields fields = do
    key ← sort_key_of (get "sortKey" fields)
    direction ← sort_direction_of (get "sortDirection" fields)
    tag ← plain_text platform tag_text tag_max false (get "tag" fields)
    search ← plain_text platform search_text search_max false (get "search" fields)
    on_platform ← token platform_word (get "platform" fields)
    power ← token power_word (get "power" fields)
    health ← token health_word (get "health" fields)
    ok (record {
      search = search;
      platform = or_else on_platform "";
      power = power;
      health = health;
      tag = if str_eq tag "" then none else some tag;
      sort_key = key;
      sort_direction = if is_some key then direction else "asc";
    })

  -- parseView(raw)
  unfoldable pub parse_view : Option Json → Result ViewError View
  unfolding parse_view_fields named_unknown_field
  parse_view raw = elim (object_of raw) [
    | none ↦ err view_not_object
    | some fields ↦
        elim (named_unknown_field
          ("search" ∷ "platform" ∷ "power" ∷ "health" ∷ "tag" ∷ "sortKey" ∷ "sortDirection" ∷ [])
          fields) [ some name ↦ err (unknown_in_view name) | none ↦ parse_view_fields fields ]
  ]
