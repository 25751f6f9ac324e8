-- ===== src/Inventory/TagRules.antt =====
-- Keys, values and filters of tags, of modules/inventory/src/tag-rules.js.
use nuvrion.Common.{
  ℕ, String, Bool, true, false, ◌&&◌, ◌||◌, not, Option, none, some, List, [], ◌∷◌, any, every,
  find_by, str_eq, ltb, ◌==◌, if◌then◌else◌,
}
use nuvrion.Common.Results.{Result, ok, err, ◌>>◌, refuse_if}
use nuvrion.Common.Text.{codes, units, trim, has_control, is_lower, is_digit}
use nuvrion.Common.Json.{Json, Platform, to_text}

-- The reasons of a TagError.
pub data TagError : Type 0 where
  no_key key_too_long key_characters value_too_long value_characters : TagError
  reserved_key : String → TagError
  not_object no_resources too_many_resources bad_resource_id not_lists nothing_to_change : TagError
  too_many_changes bad_setting bad_removal : TagError
  unknown_field_named set_twice set_and_removed : String → TagError
  limit_exceeded : ℕ → TagError
  no_filter_key : TagError

-- TAG_LIMITS
abbrev pub key_length : ℕ
key_length = 64

abbrev pub value_length : ℕ
value_length = 128

abbrev pub per_resource : ℕ
per_resource = 50

abbrev pub resources_per_request : ℕ
resources_per_request = 200

abbrev pub changes_per_request : ℕ
changes_per_request = 20

-- RESERVED_PREFIXES
abbrev pub reserved_prefixes : List String
reserved_prefixes = "nuvrion:" ∷ "aws:" ∷ "azure:" ∷ "vmware:" ∷ "microsoft:" ∷ []

-- text.startsWith(prefix), on code points
unfoldable pub begins_with : List ℕ → List ℕ → Bool
begins_with [] text = true
begins_with (p ∷ ps) [] = false
begins_with (p ∷ ps) (c ∷ cs) = p == c && begins_with ps cs

-- /^[a-z0-9][a-z0-9._:/-]*$/
unfoldable pub is_key_start : ℕ → Bool
unfolding is_lower is_digit
is_key_start c = is_lower c || is_digit c

unfoldable pub is_key_part : ℕ → Bool
is_key_part c =
    is_key_start c || (c == b'.' || (c == b'_' || (c == b':' || (c == b'/' || c == b'-'))))

unfoldable pub is_key : List ℕ → Bool
unfolding is_key_start is_key_part
is_key [] = false
is_key (c ∷ cs) = is_key_start c && every is_key_part cs

-- The checks of normaliseKey, on the trimmed key in lower case.
unfoldable pub check_key : String → Result TagError String
unfolding is_key begins_with units
check_key key = do
  refuse_if (str_eq key "") no_key
  refuse_if (ltb key_length (units key)) key_too_long
  refuse_if (not (is_key (codes key))) key_characters
  elim (find_by (λ prefix. begins_with (codes prefix) (codes key)) reserved_prefixes) [
    | some prefix ↦ err (reserved_key prefix)
    | none ↦ ok key
  ]

-- normaliseKey(raw)
unfoldable pub normalise_key : Platform → Option Json → Result TagError String
unfolding check_key to_text trim
normalise_key platform raw = check_key (platform.lower (trim (to_text platform raw)))

unfoldable pub check_value : String → Result TagError String
unfolding has_control units
check_value value = do
  refuse_if (ltb value_length (units value)) value_too_long
  refuse_if (has_control value) value_characters
  ok value

-- normaliseValue(raw)
unfoldable pub normalise_value : Platform → Option Json → Result TagError String
unfolding check_value to_text trim
normalise_value platform raw = check_value (trim (to_text platform raw))

pub record Tag : Type 0 where
  pub key : String
  pub value : String

pub record Filter : Type 0 where
  pub key : String
  pub value : Option String

-- The text before the first '=', and what follows it.
unfoldable pub split_at_equals : String → String × Option String
split_at_equals String.[] = (String.[], none)
split_at_equals (String.◌∷◌ c s) =
    let (key, value) = split_at_equals s in
    if str_eq (String.◌∷◌ c String.[]) "=" then (String.[], some s) else (String.◌∷◌ c key, value)

-- parseTagFilter(text)
unfoldable pub parse_tag_filter : Platform → Option Json → Result TagError Filter
unfolding split_at_equals to_text trim
parse_tag_filter platform raw = do
  let parts = split_at_equals (to_text platform raw)
  let key = platform.lower (trim parts.0)
  refuse_if (str_eq key "") no_filter_key
  ok (record { key = key; value = elim parts.1 [ none ↦ none | some v ↦ some (trim v) ] })

-- matchesTagFilter(tags, filter)
unfoldable pub matches_tag_filter : Platform → List Tag → Filter → Bool
matches_tag_filter platform tags f =
    any
      (λ tag.
        str_eq (platform.lower tag.key) f.key
        && (elim f.value [ none ↦ true | some v ↦ str_eq tag.value v ]))
      tags
