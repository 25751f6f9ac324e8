-- ===== src/Gates/Licences.antt =====
-- evaluateLicenses of modules/platform/src/license-policy.js. A policy's texts that are not given are `none`;
-- toUpperCase and Date.parse, of times from 1970 on, are
-- parameters. A licence "+" is read as a tree with an empty identifier, at
-- which `identifiers` throws; the evaluation is then `none`.
use Prim.Native.Char.{code}
use nuvrion.Common.{
  ℕ, ◌+◌, ◌*◌, String, Bool, true, false, ◌&&◌, ◌||◌, not, Option, none, some, List, [], ◌∷◌, ◌++◌,
  map, filter_by, find_by, any, each, length, str_eq, ltb, ◌==◌, get, put, Assoc, or_else, truthy,
  sort_by, if◌then◌else◌,
}
use nuvrion.Gates.Expressions.{Tree, parse_expression, acceptable, identifiers}

pub record Package : Type 0 where
  pub name : String
  pub version : Option String
  pub license : Option String
  pub scope : Option String

-- The code throws on a review that has no licence at all; an empty one is not given.
pub record Reviewed : Type 0 where
  pub license : String
  pub packages : Option (List String)
  pub reason : Option String

pub record Declared : Type 0 where
  pub package_name : Option String
  pub version : Option String
  pub license : Option String
  pub source : Option String

pub record Exemption : Type 0 where
  pub package_name : Option String
  pub license : Option String
  pub reason : Option String
  pub expires : Option String
  pub reviewed_at : Option String

-- A list that is not given is empty, except that of the denied patterns.
pub record Policy : Type 0 where
  pub allowed : List String
  pub reviewed : List Reviewed
  pub declared : List Declared
  pub exceptions : List Exemption
  pub denied : Option (List String)

-- Date.parse gives `none` for NaN.
pub record Platform : Type 0 where
  pub upper : String → String
  pub date : String → Option ℕ

abbrev pub denied_default : List String
denied_default =
    "GPL-*" ∷ "AGPL-*" ∷ "LGPL-*" ∷ "SSPL-*" ∷ "BUSL-*" ∷ "CC-BY-NC*" ∷ "CC-BY-SA*" ∷ "EUPL-*"
    ∷ "OSL-*" ∷ "UNLICENSED" ∷ "SEE LICENSE*" ∷ "PROPRIETARY" ∷ []

abbrev pub exception_days : ℕ
exception_days = 120

pub data Problem : Type 0 where
  bad_exception too_long : Exemption → Problem
  bad_review : Reviewed → Problem
  bad_declaration : Declared → Problem

pub data Why : Type 0 where
  no_licence cannot_be_read by_name : Why
  excepted_for : Option String → Why
  denied_licence : List String → Why
  expired_on : Option String → Why
  not_accepted : String → Why

pub data Status : Type 0 where
  allowed reviewed excepted blocked : Status

pub record Finding : Type 0 where
  pub package_name : String
  pub scope : String
  pub license : Option String
  pub reason : Why

pub record Row : Type 0 where
  pub name : String
  pub version : Option String
  pub scope : String
  pub license : Option String
  pub status : Status
  pub why : Option Why
  pub license_source : Option (Option String)

-- What the loop over the packages adds to.
pub record Tally : Type 0 where
  pub findings : List Finding
  pub allowed : ℕ
  pub reviewed : ℕ
  pub excepted : ℕ
  pub per_license : Assoc ℕ
  pub rows : List Row

-- pattern.endsWith('*') and pattern.slice(0, -1): the pattern without its star
unfoldable pub star_prefix : String → Option String
star_prefix String.[] = none
star_prefix (String.◌∷◌ c String.[]) = if code c == b'*' then some String.[] else none
star_prefix (String.◌∷◌ c (String.◌∷◌ d s)) = elim (star_prefix (String.◌∷◌ d s)) [
  | none ↦ none
  | some p ↦ some (String.◌∷◌ c p)
]

unfoldable pub starts_with : String → String → Bool
starts_with String.[] s = true
starts_with (String.◌∷◌ c p) String.[] = false
starts_with (String.◌∷◌ c p) (String.◌∷◌ d s) = code c == code d && starts_with p s

-- o?.text === s
unfoldable pub is_text : Option String → String → Bool
is_text none s = false
is_text (some t) s = str_eq t s

-- a === b, for two texts that may be missing
unfoldable pub same_text : Option String → Option String → Bool
same_text none none = true
same_text (some s) (some t) = str_eq s t
same_text _ _ = false

-- a.toString(), for a text that is not there
unfoldable pub shown : Option String → String
shown o = or_else o "undefined"

abbrev pub no_tally : Tally
no_tally = record {
  findings = [];
  allowed = 0;
  reviewed = 0;
  excepted = 0;
  per_license = [];
  rows = [];
}

unfoldable pub is_empty : {A : Type 0} → List A → Bool
is_empty [] = true
is_empty (x ∷ xs) = false

unfoldable pub gather : {A : Type 0} → (A → List Problem) → List A → List Problem
gather f [] = []
gather f (x ∷ xs) = f x ++ gather f xs

-- The row of a package, with the finding if it is blocked, in the counts.
unfoldable pub add_row : Row → List Finding → Tally → Tally
add_row row found t = elim row.status [
  | allowed ↦ record t { allowed = t.allowed + 1; rows = t.rows ++ row ∷ [] }
  | reviewed ↦ record t { reviewed = t.reviewed + 1; rows = t.rows ++ row ∷ [] }
  | excepted ↦ record t { excepted = t.excepted + 1; rows = t.rows ++ row ∷ [] }
  | blocked ↦ record t { findings = t.findings ++ found; rows = t.rows ++ row ∷ [] }
]

unfoldable pub count_licence : String → Assoc ℕ → Assoc ℕ
count_licence id counts = put id (or_else (get id counts) 0 + 1) counts

unfoldable pub count_scope : Row → Assoc ℕ → Assoc ℕ
unfolding count_licence
count_scope row counts = count_licence row.scope counts

-- What evaluateLicenses returns.
pub record Review : Type 0 where
  pub passed : Bool
  pub packages : ℕ
  pub by_scope : Assoc ℕ
  pub tally : Tally
  pub licenses : Assoc ℕ
  pub policy_problems : List Problem

module _ (platform : Platform) where
  -- matches(pattern, id)
  unfoldable pub matches : String → String → Bool
  unfolding star_prefix starts_with
  matches pattern id = elim (star_prefix pattern) [
    | some p ↦ starts_with (platform.upper p) (platform.upper id)
    | none ↦ str_eq (platform.upper id) (platform.upper pattern)
  ]

  -- Date.parse(text ?? '')
  unfoldable pub date_of : Option String → Option ℕ
  date_of o = platform.date (or_else o "")

  -- expires - Date.parse(reviewedAt) > days, where NaN makes the test false
  unfoldable pub runs_too_long : ℕ → Exemption → Bool
  runs_too_long expires item =
      truthy item.reviewed_at && elim (platform.date (or_else item.reviewed_at "")) [
        | none ↦ false
        | some start ↦ ltb (start + exception_days * 86400000) expires
      ]

  unfoldable pub exception_problems : Exemption → List Problem
  unfolding date_of runs_too_long
  exception_problems item = elim (date_of item.expires) [
    | none ↦ bad_exception item ∷ []
    | some expires ↦
        if not (truthy item.package_name) || not (truthy item.reason)
        then bad_exception item ∷ []
        else if runs_too_long expires item
        then too_long item ∷ []
        else []
  ]

  unfoldable pub review_problems : Reviewed → List Problem
  review_problems item =
      if str_eq item.license ""
        || (not (truthy item.reason) || length (or_else item.packages []) == 0)
      then bad_review item ∷ []
      else []

  unfoldable pub declaration_problems : Declared → List Problem
  declaration_problems item =
      if not (
        truthy item.package_name
        && (truthy item.version && (truthy item.license && truthy item.source)))
      then bad_declaration item ∷ []
      else []

  unfoldable pub problems_of : Policy → List Problem
  unfolding exception_problems review_problems declaration_problems gather
  problems_of policy =
      gather exception_problems policy.exceptions
      ++ (gather review_problems policy.reviewed ++ gather declaration_problems policy.declared)

  module _ (policy : Policy) (now : ℕ) where
    -- The determination recorded for a package that has no licence.
    unfoldable pub declared_for : Package → Option Declared
    unfolding is_text same_text
    declared_for item =
        if truthy item.license
        then none
        else find_by (λ d. is_text d.package_name item.name && same_text d.version item.version)
            policy.declared

    -- expression, where '' counts as none
    unfoldable pub expression_of : Package → Option String
    unfolding shown declared_for
    expression_of item = if truthy item.license then item.license else elim (declared_for item) [
      | none ↦ none
      | some d ↦ if str_eq (shown d.license) "" then none else some (shown d.license)
    ]

    unfoldable pub concerns : Package → String → Exemption → Bool
    unfolding is_text
    concerns item expression e =
        is_text e.package_name item.name && (not (truthy e.license) || is_text e.license expression)

    unfoldable pub in_force : Exemption → Bool
    unfolding date_of
    in_force e = elim (date_of e.expires) [ none ↦ false | some expires ↦ ltb now expires ]

    unfoldable pub is_denied : String → Bool
    unfolding matches
    is_denied id = any (λ pattern. matches pattern id) (or_else policy.denied denied_default)

    unfoldable pub is_allowed : String → Bool
    is_allowed id = any (str_eq (platform.upper id)) (map platform.upper policy.allowed)

    unfoldable pub is_reviewed : Package → String → Bool
    unfolding matches
    is_reviewed item id =
        any
          (λ entry. matches entry.license id && any (str_eq item.name) (or_else entry.packages []))
          policy.reviewed

    unfoldable pub why_blocked : Package → Tree → String → Why
    unfolding is_denied concerns in_force
    why_blocked item tree expression =
        let denied = filter_by is_denied (identifiers tree) in
        elim denied [
          | d ∷ ds ↦ denied_licence (d ∷ ds)
          | [] ↦
              elim (find_by (λ e. concerns item expression e && not (in_force e))
                policy.exceptions) [
                  | some e ↦ expired_on e.expires
                  | none ↦ not_accepted expression
                ]
        ]

    -- What is decided of a package whose expression was read.
    unfoldable pub verdict : Package → Tree → String → Status × Option Why
    unfolding why_blocked is_denied is_allowed is_reviewed concerns in_force acceptable
    verdict item tree expression =
        if acceptable (λ id. not (is_denied id) && is_allowed id) tree
        then (allowed, none)
        else if acceptable (λ id. not (is_denied id) && (is_allowed id || is_reviewed item id)) tree
        then (reviewed, some by_name)
        else elim (find_by (λ e. concerns item expression e && in_force e) policy.exceptions) [
          | some e ↦ (excepted, some (excepted_for e.reason))
          | none ↦ (blocked, some (why_blocked item tree expression))
        ]

    unfoldable pub row_of : Package → Status × Option Why → Row
    unfolding declared_for expression_of
    row_of item (status, why) = record {
      name = item.name;
      version = item.version;
      scope = or_else item.scope "runtime";
      license = expression_of item;
      status = status;
      why = why;
      license_source = elim (declared_for item) [ none ↦ none | some d ↦ some d.source ];
    }

    unfoldable pub finding_of : Package → Option String → Why → Finding
    finding_of item expression reason = record {
      package_name = item.name;
      scope = or_else item.scope "runtime";
      license = expression;
      reason = reason;
    }

    unfoldable pub judge_tree : Package → String → Tree → Tally → Tally
    unfolding verdict row_of add_row count_licence finding_of
    judge_tree item expression tree t =
        let (status, why) = verdict item tree expression in
        add_row (row_of item (status, why))
          (finding_of item (some expression) (or_else why no_licence) ∷ [])
          (record t { per_license = each count_licence (identifiers tree) t.per_license })

    unfoldable pub judge_read : Package → String → Option Tree → Tally → Option Tally
    unfolding judge_tree row_of add_row finding_of
    judge_read item expression none t = some (
        add_row (row_of item (blocked, some cannot_be_read))
          (finding_of item (some expression) cannot_be_read ∷ []) t)
    judge_read item expression (some tree) t =
        if any (str_eq "") (identifiers tree)
        then none
        else some (judge_tree item expression tree t)

    unfoldable pub judge_text : Package → Option String → Tally → Option Tally
    unfolding judge_read row_of add_row finding_of
    judge_text item none t =
        some (
          add_row (row_of item (blocked, some no_licence)) (finding_of item none no_licence ∷ []) t)
    judge_text item (some expression) t = judge_read item expression (parse_expression expression) t

    unfoldable pub judge : Package → Tally → Option Tally
    unfolding judge_text expression_of
    judge item t = judge_text item (expression_of item) t

    unfoldable pub judge_all : List Package → Tally → Option Tally
    unfolding judge
    judge_all [] t = some t
    judge_all (item ∷ items) t = elim (judge item t) [ none ↦ none | some t' ↦ judge_all items t' ]

    unfoldable pub review_of : Tally → Review
    unfolding problems_of is_empty count_scope
    review_of t = record {
      passed = is_empty t.findings && is_empty (problems_of policy);
      packages = length t.rows;
      by_scope = each count_scope t.rows [];
      tally = t;
      licenses = sort_by (λ a b. ltb a.1 b.1) t.per_license;
      policy_problems = problems_of policy;
    }

    -- evaluateLicenses(packages, policy, { now })
    unfoldable pub evaluate_licenses : List Package → Option Review
    unfolding judge_all review_of
    evaluate_licenses packages = elim (judge_all packages no_tally) [
      | none ↦ none
      | some t ↦ some (review_of t)
    ]
