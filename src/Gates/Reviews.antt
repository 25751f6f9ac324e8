-- ===== src/Gates/Reviews.antt =====
-- What a review of licences that passes has found (modules/platform/src/license-policy.js).
use nuvrion.Common.{
  ℕ, suc, ◌+◌, String, Bool, true, ◌&&◌, ◌||◌, not, Option, none, some, List, [], ◌∷◌, ◌++◌, Assoc,
  find_by, find_by-holds, any, length, length-append, ◌≡◌, refl, subst, inl, inr, Bool-cases,
  Option-cases, arith, str_eq,
}
use nuvrion.Gates.Expressions.{
  Tree, Trees, ident, all, any_of, nil, cons, parse_expression, acceptable, some_acceptable,
  every_acceptable, identifiers,
}
use nuvrion.Gates.Licences.{
  Package, Exemption, Policy, Platform, allowed, reviewed, excepted, blocked, Finding, Row, Tally,
  expression_of, concerns, in_force, is_denied, is_allowed, is_reviewed, verdict, row_of, add_row,
  judge_tree, judge_read, judge_text, judge, judge_all, no_tally, Review, review_of,
  evaluate_licenses,
}

-- A tree of which enough identifiers have a property: one part of a choice, every part of a conjunction.
mutual
  pub data Permitted (P : String → Type 0) : Tree → Type 0 where
    one : {id : String} → P id → Permitted P (ident id)
    choice : {ts : Trees} → SomePermitted P ts → Permitted P (any_of ts)
    both : {ts : Trees} → EveryPermitted P ts → Permitted P (all ts)

  pub data SomePermitted (P : String → Type 0) : Trees → Type 0 where
    here : {t : Tree} {ts : Trees} → Permitted P t → SomePermitted P (cons t ts)
    there : {t : Tree} {ts : Trees} → SomePermitted P ts → SomePermitted P (cons t ts)

  pub data EveryPermitted (P : String → Type 0) : Trees → Type 0 where
    done : EveryPermitted P nil
    next :
        {t : Tree} {ts : Trees} → Permitted P t → EveryPermitted P ts → EveryPermitted P (cons t ts)

mutual
  unfolding acceptable

  acceptable-Permitted :
      (accepts : String → Bool) (t : Tree)
      → acceptable accepts t ≡ true
      → Permitted (λ id. accepts id ≡ true) t
  acceptable-Permitted accepts (ident id) h = one h
  acceptable-Permitted accepts (any_of ts) h = choice (some_acceptable-SomePermitted accepts ts h)
  acceptable-Permitted accepts (all ts) h = both (every_acceptable-EveryPermitted accepts ts h)

  some_acceptable-SomePermitted :
      (accepts : String → Bool) (ts : Trees)
      → some_acceptable accepts ts ≡ true
      → SomePermitted (λ id. accepts id ≡ true) ts
  some_acceptable-SomePermitted accepts nil h = absurd (cc)
  some_acceptable-SomePermitted accepts (cons t ts) h = elim (Bool-cases (acceptable accepts t)) [
    | inl e ↦ here (acceptable-Permitted accepts t e)
    | inr e ↦ there (some_acceptable-SomePermitted accepts ts (ground arith))
  ]

  every_acceptable-EveryPermitted :
      (accepts : String → Bool) (ts : Trees)
      → every_acceptable accepts ts ≡ true
      → EveryPermitted (λ id. accepts id ≡ true) ts
  every_acceptable-EveryPermitted accepts nil h = done
  every_acceptable-EveryPermitted accepts (cons t ts) h =
      next (acceptable-Permitted accepts t (ground arith))
        (every_acceptable-EveryPermitted accepts ts (ground arith))

module _ (platform : Platform) (policy : Policy) (now : ℕ) where
  -- An identifier that the policy does not deny, and allows.
  abbrev pub is_free : String → Bool
  is_free id = not (is_denied platform policy now id) && is_allowed platform policy now id

  -- One that it does not deny, and allows or reviewed for this package.
  abbrev pub is_free_for : Package → String → Bool
  is_free_for item id =
      not (is_denied platform policy now id)
      && (is_allowed platform policy now id || is_reviewed platform policy now item id)

  -- The grounds on which a row is accepted.
  pub data Accepted (item : Package) (row : Row) : Type 0 where
    by_allowance :
        (expression : String) (tree : Tree)
        → expression_of platform policy now item ≡ some expression
        → parse_expression expression ≡ some tree
        → Permitted (λ id. is_free id ≡ true) tree
        → row.status ≡ allowed
        → row.name ≡ item.name
        → Accepted item row
    by_review :
        (expression : String) (tree : Tree)
        → expression_of platform policy now item ≡ some expression
        → parse_expression expression ≡ some tree
        → Permitted (λ id. is_free_for item id ≡ true) tree
        → row.status ≡ reviewed
        → row.name ≡ item.name
        → Accepted item row
    by_exception :
        (expression : String) (x : Exemption)
        → expression_of platform policy now item ≡ some expression
        → (concerns platform policy now item expression x && in_force platform policy now x) ≡ true
        → row.status ≡ excepted
        → row.name ≡ item.name
        → Accepted item row

  abbrev sum_of : Tally → ℕ
  sum_of t = t.allowed + t.reviewed + t.excepted + length t.findings

  -- The step of the loop: one row more, which is accepted or has its finding.
  data Judged (item : Package) (t t' : Tally) : Type 0 where
    accepted :
        (row : Row)
        → Accepted item row
        → t'.rows ≡ t.rows ++ row ∷ []
        → t'.findings ≡ t.findings
        → sum_of t' ≡ suc (sum_of t)
        → Judged item t t'
    refused :
        (row : Row) (f : Finding)
        → t'.rows ≡ t.rows ++ row ∷ []
        → t'.findings ≡ t.findings ++ f ∷ []
        → sum_of t' ≡ suc (sum_of t)
        → Judged item t t'

  add_row-refused :
      (item : Package) (row : Row) (f : Finding) (t : Tally)
      → row.status ≡ blocked
      → Judged item t (add_row row (f ∷ []) t)
  unfolding add_row
  add_row-refused item row f t e =
      refused row f (ground arith) (ground arith)
        (ground (arith, length-append t.findings (f ∷ [])))

  add_row-accepted :
      (item : Package) (row : Row) (found : List Finding) (t : Tally)
      → Accepted item row
      → Judged item t (add_row row found t)
  unfolding add_row
  add_row-accepted item row found t (by_allowance ex tr a b c e n) =
      accepted row (by_allowance ex tr a b c e n) (ground arith) (ground arith) (ground arith)
  add_row-accepted item row found t (by_review ex tr a b c e n) =
      accepted row (by_review ex tr a b c e n) (ground arith) (ground arith) (ground arith)
  add_row-accepted item row found t (by_exception ex x a b e n) =
      accepted row (by_exception ex x a b e n) (ground arith) (ground arith) (ground arith)

  recounted :
      (item : Package) (t t' : Tally) (counts : Assoc ℕ)
      → Judged item (record t { per_license = counts }) t'
      → Judged item t t'
  recounted item t t' counts (accepted row a b c d) = accepted row a b c d
  recounted item t t' counts (refused row f a b c) = refused row f a b c

  -- The row that the verdict on a package leads to.
  abbrev row_for : Package → Tree → String → Row
  row_for item tree expression =
      row_of platform policy now item (verdict platform policy now item tree expression)

  data Decided (item : Package) (row : Row) : Type 0 where
    for_it : Accepted item row → Decided item row
    against : row.status ≡ blocked → Decided item row

  row_for-Decided :
      (item : Package) (tree : Tree) (expression : String)
      → expression_of platform policy now item ≡ some expression
      → parse_expression expression ≡ some tree
      → Decided item (row_for item tree expression)
  unfolding verdict row_of
  row_for-Decided item tree expression e p = elim (Bool-cases (acceptable is_free tree)) [
    | inl a ↦
        for_it (
          by_allowance expression tree e p (acceptable-Permitted is_free tree a) (ground arith)
            refl)
    | inr a ↦ elim (Bool-cases (acceptable (is_free_for item) tree)) [
      | inl b ↦ for_it (
          by_review expression tree e p (acceptable-Permitted (is_free_for item) tree b)
            (ground arith) refl)
      | inr b ↦
          elim (Option-cases (
            find_by
              (λ x.
                concerns platform policy now item expression x && in_force platform policy now x)
              policy.exceptions)) [
                | inl c ↦ against (ground arith)
                | inr (x, c) ↦ for_it (
                    by_exception expression x e (find_by-holds _ policy.exceptions x c)
                      (ground arith) refl)
              ]
    ]
  ]

  add_row-Judged :
      (item : Package) (row : Row) (f : Finding) (t : Tally)
      → Decided item row
      → Judged item t (add_row row (f ∷ []) t)
  add_row-Judged item row f t (for_it a) = add_row-accepted item row (f ∷ []) t a
  add_row-Judged item row f t (against b) = add_row-refused item row f t b

  judge_tree-Judged :
      (item : Package) (tree : Tree) (expression : String) (t : Tally)
      → expression_of platform policy now item ≡ some expression
      → parse_expression expression ≡ some tree
      → Judged item t (judge_tree platform policy now item expression tree t)
  unfolding judge_tree
  judge_tree-Judged item tree expression t e p =
      recounted item t _ _ (add_row-Judged item _ _ _ (row_for-Decided item tree expression e p))

  abbrev JudgedIf : Package → Tally → Option Tally → Type 0
  JudgedIf item t none = Unit
  JudgedIf item t (some t') = Judged item t t'

  judge_read-JudgedIf :
      (item : Package) (expression : String) (tree : Option Tree) (t : Tally)
      → expression_of platform policy now item ≡ some expression
      → parse_expression expression ≡ tree
      → JudgedIf item t (judge_read platform policy now item expression tree t)
  unfolding judge_read row_of
  judge_read-JudgedIf item expression none t e p = add_row-refused item _ _ t refl
  judge_read-JudgedIf item expression (some tree) t e p =
      elim (Bool-cases (any (str_eq "") (identifiers tree))) [
        | inl b ↦ rw b tt
        | inr b ↦ rw b (judge_tree-Judged item tree expression t e p)
      ]

  judge_text-JudgedIf :
      (item : Package) (text : Option String) (t : Tally)
      → expression_of platform policy now item ≡ text
      → JudgedIf item t (judge_text platform policy now item text t)
  unfolding judge_text row_of
  judge_text-JudgedIf item none t e = add_row-refused item _ _ t refl
  judge_text-JudgedIf item (some expression) t e =
      judge_read-JudgedIf item expression (parse_expression expression) t e refl

  judge-Judged :
      (item : Package) (t t' : Tally)
      → judge platform policy now item t ≡ some t'
      → Judged item t t'
  unfolding judge
  judge-Judged item t t' h =
      subst (JudgedIf item t) h
        (judge_text-JudgedIf item (expression_of platform policy now item) t refl)

  -- Each package has its row, which is accepted.
  abbrev pub EachAccepted : List Package → List Row → Type 0
  EachAccepted [] [] = Unit
  EachAccepted (item ∷ items) (row ∷ rows) = Accepted item row × EachAccepted items rows
  EachAccepted _ _ = ⊥

  sum_of-Judged : (item : Package) (t m : Tally) → Judged item t m → sum_of m ≡ suc (sum_of t)
  sum_of-Judged item t m (accepted row a r f n) = n
  sum_of-Judged item t m (refused row f r g n) = n

  judge_all-sum :
      (items : List Package) (t t' : Tally)
      → judge_all platform policy now items t ≡ some t'
      → sum_of t' ≡ length items + sum_of t
  unfolding judge_all
  judge_all-sum [] t t' h = ground arith
  judge_all-sum (item ∷ items) t t' h = elim (Option-cases (judge platform policy now item t)) [
    | inl e ↦ absurd (cc)
    | inr (m, e) ↦ omega (
      arith,
      sum_of-Judged item t m (judge-Judged item t m e),
      judge_all-sum items m t' (ground arith),
    )
  ]

  -- Each package is counted once: as allowed, reviewed, excepted or a finding.
  pub evaluate_licenses-sum :
      (packages : List Package) (r : Review)
      → evaluate_licenses platform policy now packages ≡ some r
      → r.tally.allowed + r.tally.reviewed + r.tally.excepted + length r.tally.findings
        ≡ length packages
  unfolding evaluate_licenses review_of
  evaluate_licenses-sum packages r h =
      elim (Option-cases (judge_all platform policy now packages no_tally)) [
        | inl e ↦ absurd (cc)
        | inr (t, e) ↦
            let made : review_of platform policy now t ≡ r = cc in
            subst
              (λ x.
                x.tally.allowed + x.tally.reviewed + x.tally.excepted + length x.tally.findings
                ≡ length packages)
              made (omega (arith, judge_all-sum packages no_tally t e))
      ]
