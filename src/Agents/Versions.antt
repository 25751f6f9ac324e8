-- ===== src/Agents/Versions.antt =====
-- modules/agents/src/agent-versions.js. The parts of a version are taken to be below 2 ^ 53, where
-- JavaScript's numbers are exact.
use nuvrion.Common.{
  ℕ, ◌+◌, ◌-◌, ◌*◌, Bool, true, false, ◌&&◌, ◌||◌, Option, none, some, List, [], ◌∷◌, every, ltb,
  ◌==◌, if◌then◌else◌,
}
use nuvrion.Common.Text.{codes, between, is_digit, trim}
use nuvrion.Common.Json.{Json, Platform, to_text}

-- \d+, as the number and what follows
unfoldable pub digits_from : ℕ → List ℕ → ℕ × List ℕ
unfolding is_digit
digits_from n [] = (n, [])
digits_from n (c ∷ cs) =
    let rest = digits_from (n * 10 + (c - b'0')) cs in if is_digit c then rest else (n, c ∷ cs)

unfoldable pub number : List ℕ → Option (ℕ × List ℕ)
unfolding digits_from is_digit
number [] = none
number (c ∷ cs) = if is_digit c then some (digits_from 0 (c ∷ cs)) else none

-- \.
unfoldable pub dot : List ℕ → Option (List ℕ)
dot [] = none
dot (c ∷ cs) = if c == b'.' then some cs else none

-- [0-9A-Za-z.-]
unfoldable pub is_suffix_part : ℕ → Bool
unfolding is_digit
is_suffix_part c =
    is_digit c || (between b'A' b'Z' c || (between b'a' b'z' c || (c == b'.' || c == b'-')))

-- (?:-[0-9A-Za-z.-]+)?$
unfoldable pub is_suffix : List ℕ → Bool
unfolding is_suffix_part
is_suffix [] = true
is_suffix (c ∷ []) = false
is_suffix (c ∷ d ∷ cs) = c == b'-' && every is_suffix_part (d ∷ cs)

infixl 5 ◌>>=◌
abbrev pub ◌>>=◌ : {A B : Type 0} → Option A → (A → Option B) → Option B
none >>= f = none
some a >>= f = f a

unfoldable pub version_of : List ℕ → Option (List ℕ)
unfolding number dot is_suffix
version_of cs = do
  (major, a) ← number cs
  b ← dot a
  (minor, c) ← number b
  d ← dot c
  (patch, e) ← number d
  if is_suffix e then some (major ∷ minor ∷ patch ∷ []) else none

-- parseAgentVersion(value)
unfoldable pub parse_agent_version : Platform → Option Json → Option (List ℕ)
unfolding version_of to_text
parse_agent_version platform value = version_of (codes (trim (to_text platform value)))

-- The loop over the parts.
unfoldable pub later_parts : List ℕ → List ℕ → Bool
later_parts (x ∷ xs) (y ∷ ys) = let rest = later_parts xs ys in if x == y then rest else ltb y x
later_parts _ _ = false

unfoldable pub later : Option (List ℕ) → Option (List ℕ) → Bool
unfolding later_parts
later (some a) (some b) = later_parts a b
later _ _ = false

-- isNewerAgentVersion(candidate, current)
unfoldable pub is_newer_agent_version : Platform → Option Json → Option Json → Bool
unfolding parse_agent_version later
is_newer_agent_version platform candidate current =
    later (parse_agent_version platform candidate) (parse_agent_version platform current)
