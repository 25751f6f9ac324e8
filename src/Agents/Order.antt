-- ===== src/Agents/Order.antt =====
-- Which of two versions isNewerAgentVersion of modules/agents/src/agent-versions.js takes for the newer.
use nuvrion.Common.{
  ℕ, Bool, true, false, Option, none, some, List, [], ◌∷◌, ◌≡◌, refl, subst, arith, if◌then◌else◌,
}
use nuvrion.Common.Text.{codes, trim}
use nuvrion.Common.Json.{Json, Platform, to_text}
use nuvrion.Agents.Versions.{
  ◌>>=◌, number, version_of, parse_agent_version, later_parts, later, is_newer_agent_version, dot,
  is_suffix,
}

-- A version has three parts.
data IsTriple : List ℕ → Type 0 where
  triple : (x y z : ℕ) → IsTriple (x ∷ y ∷ z ∷ [])

if_then-IsTriple :
    (b : Bool) (x y z : ℕ) (v : List ℕ)
    → (if b then some (x ∷ y ∷ z ∷ []) else none) ≡ some v
    → IsTriple v
if_then-IsTriple true x y z v h =
    let same : x ∷ y ∷ z ∷ [] ≡ v = cc in subst IsTriple same (triple x y z)
if_then-IsTriple false x y z v h = absurd (cc)

>>=-eq-some :
    {A B : Type 0} (o : Option A) (f : A → Option B) {v : B}
    → (o >>= f) ≡ some v
    → (a : A) × (f a ≡ some v)
>>=-eq-some none f h = absurd (cc)
>>=-eq-some (some a) f h = (a, h)

version_of-IsTriple : (cs v : List ℕ) → version_of cs ≡ some v → IsTriple v
unfolding version_of
version_of-IsTriple cs v h =
    let ((major, a), h1) = >>=-eq-some (number cs) _ h in
    let (b, h2) = >>=-eq-some (dot a) _ h1 in
    let ((minor, c), h3) = >>=-eq-some (number b) _ h2 in
    let (d, h4) = >>=-eq-some (dot c) _ h3 in
    let ((patch, e), h5) = >>=-eq-some (number d) _ h4 in
    if_then-IsTriple (is_suffix e) major minor patch v h5

-- What is not later than a version is not later than a later one.
later_parts-chain :
    (q b r : List ℕ)
    → IsTriple q
    → IsTriple b
    → IsTriple r
    → later_parts q b ≡ false
    → later_parts r b ≡ true
    → later_parts q r ≡ false
unfolding later_parts
later_parts-chain _ _ _ (triple a b c) (triple d e f) (triple g h i) x y = ground arith

later_parts_self : (b : List ℕ) → later_parts b b ≡ false
unfolding later_parts
later_parts_self [] = refl
later_parts_self (x ∷ xs) = ground (arith, later_parts_self xs)

later_self : (b : Option (List ℕ)) → later b b ≡ false
unfolding later
later_self none = refl
later_self (some b) = later_parts_self b

later-chain :
    (u v w : Option (List ℕ))
    → ((t : List ℕ) → u ≡ some t → IsTriple t)
    → ((t : List ℕ) → v ≡ some t → IsTriple t)
    → ((t : List ℕ) → w ≡ some t → IsTriple t)
    → later u v ≡ false
    → later w v ≡ true
    → later u w ≡ false
unfolding later
later-chain none v w tu tv tw e f = refl
later-chain (some u) v none tu tv tw e f = refl
later-chain (some u) none (some w) tu tv tw e f = absurd (cc)
later-chain (some u) (some v) (some w) tu tv tw e f =
    later_parts-chain u v w (tu u refl) (tv v refl) (tw w refl) e f

module _ (platform : Platform) where
  parse_agent_version-IsTriple :
      (q : Option Json) (t : List ℕ) → parse_agent_version platform q ≡ some t → IsTriple t
  unfolding parse_agent_version
  parse_agent_version-IsTriple q t h = version_of-IsTriple (codes (trim (to_text platform q))) t h

  pub chain :
      (q b r : Option Json)
      → is_newer_agent_version platform q b ≡ false
      → is_newer_agent_version platform r b ≡ true
      → is_newer_agent_version platform q r ≡ false
  unfolding is_newer_agent_version
  chain q b r x y =
      later-chain (parse_agent_version platform q) (parse_agent_version platform b)
        (parse_agent_version platform r) (parse_agent_version-IsTriple q)
        (parse_agent_version-IsTriple b) (parse_agent_version-IsTriple r) x y

  pub newer_self : (b : Option Json) → is_newer_agent_version platform b b ≡ false
  unfolding is_newer_agent_version
  newer_self b = later_self (parse_agent_version platform b)
