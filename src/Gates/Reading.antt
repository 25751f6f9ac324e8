-- ===== src/Gates/Reading.antt =====
-- The reading of licence expressions ends: the fuel of parse_expression is enough.
use nuvrion.Common.{
  ℕ, zero, suc, ◌+◌, ◌*◌, ◌≤◌, ◌<◌, String, List, [], ◌∷◌, inl, inr, length, Bool-cases, str_eq,
  arith,
}
use nuvrion.Gates.Expressions.{
  Tree, Trees, Parse, parsed, unreadable, exhausted, then_read, close, with_exception, is_word,
  is_reserved, drop_plus, any_or_one, all_or_one, more_parts, atom, and_parts, or_parts, fuel_for,
}

-- A word at least was read, of fewer than so many, or the text is refused; the fuel did not run out.
abbrev pub Reads : {A : Type 0} → ℕ → Parse A → Type 0
Reads n (parsed a rest) = length rest < n
Reads n unreadable = Unit
Reads n exhausted = ⊥

then_read-Reads :
    {A B : Type 0} (n : ℕ) (m : Parse A) (next : A → List String → Parse B)
    → Reads n m
    → ((a : A) (rest : List String) → length rest < n → Reads n (next a rest))
    → Reads n (then_read m next)
then_read-Reads n (parsed a rest) next h k = k a rest h
then_read-Reads n unreadable next h k = tt
then_read-Reads n exhausted next h k = h

Reads-mono : {A : Type 0} (n k : ℕ) (m : Parse A) → n ≤ k → Reads n m → Reads k m
Reads-mono n k (parsed a rest) h r = omega arith
Reads-mono n k unreadable h r = tt
Reads-mono n k exhausted h r = r

close-Reads : (n : ℕ) (t : Tree) (ws : List String) → length ws < n → Reads n (close t ws)
close-Reads n t [] h = tt
close-Reads n t (w ∷ ws) h = elim (Bool-cases (str_eq w ")")) [
  | inl e ↦ rw e (omega arith)
  | inr e ↦ rw e tt
]

with_exception-Reads :
    (id : String) (ws : List String) → Reads (suc (length ws)) (with_exception id ws)
with_exception-Reads id [] = omega arith
with_exception-Reads id (w ∷ []) = elim (Bool-cases (is_word w "with")) [
  | inl e ↦ rw e tt
  | inr e ↦ rw e (omega arith)
]
with_exception-Reads id (w ∷ x ∷ ws) = elim (Bool-cases (is_word w "with")) [
  | inl e ↦ rw e (omega arith)
  | inr e ↦ rw e (omega arith)
]

more_parts-Reads :
    (n : ℕ) (keyword : String) (next : List String → Parse Trees) (t : Tree) (ws : List String)
    → length ws < n
    → ((rest : List String) → length rest < length ws → Reads (length rest) (next rest))
    → Reads n (more_parts keyword next t ws)
more_parts-Reads n keyword next t [] h k = h
more_parts-Reads n keyword next t (w ∷ ws) h k = elim (Bool-cases (is_word w keyword)) [
  | inr e ↦ rw e h
  | inl e ↦ rw e (
      then_read-Reads n (next ws) _
        (Reads-mono (length ws) n (next ws) (omega arith) (k ws (omega arith))) (λ ts rest r. r))
]

abbrev Readers : ℕ → List String → Type 0
Readers fuel ws =
    (3 * length ws + 1 ≤ fuel → Reads (length ws) (atom fuel ws))
    × (3 * length ws + 2 ≤ fuel → Reads (length ws) (and_parts fuel ws))
    × (3 * length ws + 3 ≤ fuel → Reads (length ws) (or_parts fuel ws))

atom-Reads :
    (fuel : ℕ) (w : String) (ws : List String)
    → Reads (length ws) (or_parts fuel ws)
    → Reads (suc (length ws)) (atom (suc fuel) (w ∷ ws))
unfolding atom
atom-Reads fuel w ws h = elim (Bool-cases (str_eq w "(")) [
  | inl e ↦ rw e (
      then_read-Reads _ (or_parts fuel ws) _
        (Reads-mono (length ws) (suc (length ws)) (or_parts fuel ws) (omega arith) h)
        (λ ts rest r. close-Reads _ (any_or_one ts) rest r))
  | inr e ↦ elim (Bool-cases (is_reserved w)) [
    | inl f ↦ rw (e, f) tt
    | inr f ↦ rw (e, f) (with_exception-Reads (drop_plus w) ws)
  ]
]

all-Readers : (fuel : ℕ) (ws : List String) → Readers fuel ws
unfolding atom
all-Readers zero ws =
    (λ h. absurd (omega arith), λ h. absurd (omega arith), λ h. absurd (omega arith))
all-Readers (suc fuel) ws = (
  reads_atom ws (all-Readers fuel),
  λ h.
      then_read-Reads (length ws) (atom fuel ws) _ ((all-Readers fuel ws).0 (omega arith))
        (λ t rest r.
          more_parts-Reads (length ws) "and" (and_parts fuel) t rest r
            (λ rest' r'. (all-Readers fuel rest').1 (omega arith))),
  λ h.
      then_read-Reads (length ws) (and_parts fuel ws) _ ((all-Readers fuel ws).1 (omega arith))
        (λ ts rest r.
          more_parts-Reads (length ws) "or" (or_parts fuel) (all_or_one ts) rest r
            (λ rest' r'. (all-Readers fuel rest').2 (omega arith))),
)
  where
    reads_atom :
        (ws : List String)
        → ((vs : List String) → Readers fuel vs)
        → 3 * length ws + 1 ≤ suc fuel
        → Reads (length ws) (atom (suc fuel) ws)
    reads_atom [] k h = tt
    reads_atom (w ∷ vs) k h = atom-Reads fuel w vs ((k vs).2 (omega arith))

-- With fuel of three for each word and three more, the reading of any words does not run out of fuel: it
-- refuses them, or reads a part and leaves fewer words.
pub or_parts-Reads :
    (fuel : ℕ) (ws : List String) → fuel_for ws ≤ fuel → Reads (length ws) (or_parts fuel ws)
or_parts-Reads fuel ws h = (all-Readers fuel ws).2 h
