-- ===== src/Gates/Expressions.antt =====
-- Licence expressions, of modules/platform/src/license-policy.js: parseExpression, acceptable and
-- identifiers. The recursive descent takes fuel, one for each call.
use Prim.Native.Char.{code}
use nuvrion.Common.{
  ℕ, zero, suc, ◌+◌, ◌*◌, String, Bool, true, false, ◌&&◌, ◌||◌, not, Option, none, some, List, [],
  ◌∷◌, ◌++◌, filter_by, length, str_eq, text_append, ◌==◌, if◌then◌else◌,
}
use nuvrion.Common.Text.{is_space}

-- { id }, { all } and { any }
mutual
  pub data Tree : Type 0 where
    ident : String → Tree
    all any_of : Trees → Tree

  pub data Trees : Type 0 where
    nil : Trees
    cons : Tree → Trees → Trees

abbrev pub is_paren : ℕ → Bool
is_paren c = c == b'(' || c == b')'

-- The text in pieces between spaces, with every parenthesis a piece; some pieces are empty.
unfoldable pub pieces : String → List String
unfolding is_space
pieces String.[] = "" ∷ []
pieces (String.◌∷◌ c s) = elim (pieces s) [
  | [] ↦ []
  | p ∷ ps ↦
      if is_paren (code c)
      then "" ∷ String.◌∷◌ c String.[] ∷ p ∷ ps
      else if is_space (code c)
      then "" ∷ p ∷ ps
      else String.◌∷◌ c p ∷ ps
]

unfoldable pub words : String → List String
unfolding pieces
words s = filter_by (λ p. not (str_eq p "")) (pieces s)

-- An ASCII letter, as a small one.
abbrev pub small : ℕ → ℕ
small c =
    if c == b'A'
      || c == b'N'
      || c == b'D'
      || c == b'O'
      || c == b'R'
      || c == b'W'
      || c == b'I'
      || c == b'T'
      || c == b'H'
    then c + 32
    else c

-- /^AND$/i and so on, for a word in small letters
unfoldable pub is_word : String → String → Bool
is_word String.[] String.[] = true
is_word (String.◌∷◌ a s) (String.◌∷◌ b t) = small (code a) == code b && is_word s t
is_word _ _ = false

-- part.replace(/\+$/, '')
unfoldable pub drop_plus : String → String
drop_plus String.[] = String.[]
drop_plus (String.◌∷◌ c String.[]) = if code c == b'+' then String.[] else String.◌∷◌ c String.[]
drop_plus (String.◌∷◌ c (String.◌∷◌ d s)) = String.◌∷◌ c (drop_plus (String.◌∷◌ d s))

-- What reading leaves: what was read and the words after it, an error that is caught, or no fuel.
pub data Parse (A : Type 0) : Type 0 where
  parsed : A → List String → Parse A
  unreadable exhausted : Parse A

abbrev pub then_read : {A B : Type 0} → Parse A → (A → List String → Parse B) → Parse B
then_read (parsed a rest) next = next a rest
then_read unreadable next = unreadable
then_read exhausted next = exhausted

abbrev pub close : Tree → List String → Parse Tree
close t [] = unreadable
close t (w ∷ ws) = if str_eq w ")" then parsed t ws else unreadable

-- A licence, and its exception if WITH follows; at the end of the text there is no exception to take.
abbrev pub with_exception : String → List String → Parse Tree
with_exception id (w ∷ exception ∷ ws) =
    if is_word w "with"
    then parsed (ident (text_append id (text_append " WITH " exception))) ws
    else parsed (ident id) (w ∷ exception ∷ ws)
with_exception id (w ∷ []) = if is_word w "with" then unreadable else parsed (ident id) (w ∷ [])
with_exception id [] = parsed (ident id) []

unfoldable pub is_reserved : String → Bool
unfolding is_word
is_reserved w = str_eq w ")" || (is_word w "and" || (is_word w "or" || is_word w "with"))

-- parts.length === 1 ? parts[0] : { all: parts }
abbrev pub all_or_one : Trees → Tree
all_or_one (cons t nil) = t
all_or_one ts = all ts

abbrev pub any_or_one : Trees → Tree
any_or_one (cons t nil) = t
any_or_one ts = any_of ts

-- One more part if the keyword follows.
abbrev pub more_parts : String → (List String → Parse Trees) → Tree → List String → Parse Trees
more_parts keyword next t [] = parsed (cons t nil) []
more_parts keyword next t (w ∷ ws) =
    if is_word w keyword
    then then_read (next ws) (λ ts rest. parsed (cons t ts) rest)
    else parsed (cons t nil) (w ∷ ws)

unfoldable mutual
  unfolding is_word is_reserved drop_plus

  pub atom : ℕ → List String → Parse Tree
  atom zero ws = exhausted
  atom (suc fuel) [] = unreadable
  atom (suc fuel) (w ∷ ws) =
      let inner = then_read (or_parts fuel ws) (λ ts rest. close (any_or_one ts) rest) in
      if str_eq w "("
      then inner
      else if is_reserved w
      then unreadable
      else with_exception (drop_plus w) ws

  pub and_parts : ℕ → List String → Parse Trees
  and_parts zero ws = exhausted
  and_parts (suc fuel) ws =
      then_read (atom fuel ws) (λ t rest. more_parts "and" (and_parts fuel) t rest)

  pub or_parts : ℕ → List String → Parse Trees
  or_parts zero ws = exhausted
  or_parts (suc fuel) ws =
      then_read (and_parts fuel ws)
        (λ ts rest. more_parts "or" (or_parts fuel) (all_or_one ts) rest)

-- The fuel for so many words.
abbrev pub fuel_for : List String → ℕ
fuel_for ws = 3 * length ws + 3

-- Everything was read.
abbrev pub whole : Parse Trees → Option Tree
whole (parsed ts []) = some (any_or_one ts)
whole _ = none

-- parseExpression(text)
unfoldable pub parse_expression : String → Option Tree
unfolding words or_parts
parse_expression s = let ws = words s in whole (or_parts (fuel_for ws) ws)

-- acceptable(tree, accepts)
unfoldable mutual
  pub acceptable : (String → Bool) → Tree → Bool
  acceptable accepts (ident id) = accepts id
  acceptable accepts (any_of ts) = some_acceptable accepts ts
  acceptable accepts (all ts) = every_acceptable accepts ts

  pub some_acceptable : (String → Bool) → Trees → Bool
  some_acceptable accepts nil = false
  some_acceptable accepts (cons t ts) = acceptable accepts t || some_acceptable accepts ts

  pub every_acceptable : (String → Bool) → Trees → Bool
  every_acceptable accepts nil = true
  every_acceptable accepts (cons t ts) = acceptable accepts t && every_acceptable accepts ts

-- identifiers(tree)
unfoldable mutual
  pub identifiers : Tree → List String
  identifiers (ident id) = id ∷ []
  identifiers (any_of ts) = all_identifiers ts
  identifiers (all ts) = all_identifiers ts

  pub all_identifiers : Trees → List String
  all_identifiers nil = []
  all_identifiers (cons t ts) = identifiers t ++ all_identifiers ts
