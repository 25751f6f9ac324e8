-- ===== src/Common/Json.antt =====
-- Values of a request: JSON, where a number is a whole one from 0 on, or another.
use Prim.Native.Nat.{ℕ}
use Prim.Native.String.{String}
use mathlib.Core.Bool.{Bool, true, false, not}
use mathlib.Core.Option.{Option, none, some}
use mathlib.Core.List.{List, [], ◌∷◌}
use package.text.Mathlib.Text.{◌==◌ as str_eq}
use nuvrion.Common.Lists.{any, find_by, length}
use nuvrion.Common.Tests.{◌==◌, ltb, if◌then◌else◌}
use nuvrion.Common.Dict.{Assoc, keys, get, put}
use nuvrion.Common.Text.{units}

mutual
  pub data Json : Type 0 where
    null other_number : Json
    bool : Bool → Json
    int : ℕ → Json
    text : String → Json
    array : Items → Json
    object : Fields → Json

  pub data Items : Type 0 where
    nil : Items
    cons : Json → Items → Items

  pub data Fields : Type 0 where
    end : Fields
    field : String → Json → Fields → Fields

abbrev pub items_of : Items → List Json
items_of nil = []
items_of (cons v vs) = v ∷ items_of vs

abbrev pub fields_of : Fields → Assoc Json
fields_of end = []
fields_of (field k v fs) = (k, v) ∷ fields_of fs

-- The fields of an object; `none` is any other value, null and lists included.
abbrev pub object_of : Option Json → Option (Assoc Json)
object_of (some (object fs)) = some (fields_of fs)
object_of _ = none

abbrev pub array_of : Option Json → Option (List Json)
array_of (some (array vs)) = some (items_of vs)
array_of _ = none

abbrev pub text_of : Option Json → Option String
text_of (some (text s)) = some s
text_of _ = none

-- An object's field that is not one of these.
unfoldable pub unknown_field : List String → Assoc Json → Option String
unknown_field known fields = find_by (λ k. not (any (str_eq k) known)) (keys fields)

-- The first of them, as `if (unknown)` reads it: the name "" counts as none.
unfoldable pub named_unknown_field : List String → Assoc Json → Option String
unfolding unknown_field
named_unknown_field known fields = elim (unknown_field known fields) [
  | none ↦ none
  | some k ↦ if str_eq k "" then none else some k
]

-- The platform's functions on texts and values: toLowerCase, and String on a value that is no text.
pub record Platform : Type 0 where
  pub lower : String → String
  pub shown : Json → String

-- String(value ?? '')
unfoldable pub to_text : Platform → Option Json → String
to_text platform none = ""
to_text platform (some null) = ""
to_text platform (some (text s)) = s
to_text platform (some other_number) = platform.shown other_number
to_text platform (some (bool b)) = platform.shown (bool b)
to_text platform (some (int n)) = platform.shown (int n)
to_text platform (some (array vs)) = platform.shown (array vs)
to_text platform (some (object fs)) = platform.shown (object fs)

-- A value as a condition reads it.
unfoldable pub is_truthy : Option Json → Bool
is_truthy none = false
is_truthy (some null) = false
is_truthy (some (bool b)) = b
is_truthy (some (int n)) = not (n == 0)
is_truthy (some (text s)) = not (str_eq s "")
is_truthy (some other_number) = true
is_truthy (some (array vs)) = true
is_truthy (some (object fs)) = true

-- value?.length, read as a condition
unfoldable pub has_length : Option Json → Bool
unfolding units is_truthy
has_length (some (array vs)) = ltb 0 (length (items_of vs))
has_length (some (text s)) = ltb 0 (units s)
has_length (some (object fs)) = is_truthy (get "length" (fields_of fs))
has_length _ = false

-- value ?? default, where null is no value
abbrev pub or_value : Option Json → Json → Json
or_value none d = d
or_value (some null) d = d
or_value (some v) d = v

-- JSON of a list
abbrev pub items : List Json → Items
items [] = nil
items (v ∷ vs) = cons v (items vs)

-- { ...fields, ...patch }
unfoldable pub spread : Assoc Json → Assoc Json → Assoc Json
spread [] fields = fields
spread ((k, v) ∷ patch) fields = spread patch (put k v fields)
