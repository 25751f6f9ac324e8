-- ===== src/Gates/Tests.antt =====
-- Packages and policies for the tests of the gates.
use nuvrion.Common.{
  ℕ, ◌+◌, ◌≤◌, String, Bool, true, false, Option, none, some, List, [], ◌∷◌, ◌≡◌, refl, length,
  arith, str_eq,
}
use nuvrion.Gates.Expressions.{
  Tree, ident, all, any_of, nil, cons, words, or_parts, fuel_for, parse_expression,
}
use nuvrion.Gates.Licences.{
  Package, Policy, Platform, Review, Row, Status, allowed, reviewed, Why, by_name,
  evaluate_licenses,
}
use nuvrion.Gates.Scans.{Vulnerability, Report, Entry, Options, evaluate_image_scan, bad_entry}
use nuvrion.Gates.Passes.{EachShown, evaluate_image_scan-EachShown}
use nuvrion.Gates.Reading.{Reads, or_parts-Reads}
use nuvrion.Gates.Reviews.{evaluate_licenses-sum}

parse_choice :
    parse_expression "(MIT OR Apache-2.0+) and GPL-2.0 WITH Classpath"
    ≡ some (
        all (
          cons
            (any_of (cons (ident "MIT") (cons (ident "Apache-2.0") nil)))
            (cons (ident "GPL-2.0 WITH Classpath") nil)))
unfolding parse_expression
parse_choice = refl

parse_unclosed : parse_expression "(MIT" ≡ none
unfolding parse_expression
parse_unclosed = refl

parse_no_exception : parse_expression "MIT WITH" ≡ none
unfolding parse_expression
parse_no_exception = refl

or_parts-Reads_example : Reads 3 (or_parts 12 ("MIT" ∷ "OR" ∷ "ISC" ∷ []))
or_parts-Reads_example = or_parts-Reads 12 ("MIT" ∷ "OR" ∷ "ISC" ∷ []) (omega arith)

abbrev platform : Platform
platform = record { upper = λ s. s; date = λ s. none }

abbrev policy : Policy
policy = record {
  allowed = "MIT" ∷ "ISC" ∷ [];
  reviewed =
      record { license = "MPL-*"; packages = some ("left" ∷ []); reason = some "unmodified" } ∷ [];
  declared = [];
  exceptions = [];
  denied = none;
}

abbrev licensed : String → String → Package
licensed name licence = record {
  name = name;
  version = some "1";
  license = some licence;
  scope = none;
}

abbrev packages : List Package
packages = licensed "left" "MPL-2.0" ∷ licensed "right" "(GPL-3.0 OR MIT)" ∷ []

abbrev row : String → String → Status → Option Why → Row
row name licence status why = record {
  name = name;
  version = some "1";
  scope = "runtime";
  license = some licence;
  status = status;
  why = why;
  license_source = none;
}

abbrev outcome : Review
outcome = record {
  passed = true;
  packages = 2;
  by_scope = ("runtime", 2) ∷ [];
  tally = record {
    findings = [];
    allowed = 1;
    reviewed = 1;
    excepted = 0;
    per_license = ("MPL-2.0", 1) ∷ ("GPL-3.0", 1) ∷ ("MIT", 1) ∷ [];
    rows =
        row "left" "MPL-2.0" reviewed (some by_name)
        ∷ row "right" "(GPL-3.0 OR MIT)" allowed none
        ∷ [];
  };
  licenses = ("MPL-2.0", 1) ∷ ("GPL-3.0", 1) ∷ ("MIT", 1) ∷ [];
  policy_problems = [];
}

reviewed_packages : evaluate_licenses platform policy 0 packages ≡ some outcome
unfolding evaluate_licenses parse_expression nuvrion.Gates.Expressions.identifiers
    nuvrion.Common.put nuvrion.Common.sort_by nuvrion.Common.get
reviewed_packages = refl

evaluate_licenses-sum_example :
    outcome.tally.allowed
      + outcome.tally.reviewed
      + outcome.tally.excepted
      + length outcome.tally.findings
    ≡ length packages
evaluate_licenses-sum_example =
    evaluate_licenses-sum platform policy 0 packages outcome reviewed_packages

-- A licence "+" makes the evaluation throw.
plus_throws : evaluate_licenses platform policy 0 (licensed "odd" "+" ∷ []) ≡ none
unfolding evaluate_licenses parse_expression nuvrion.Gates.Expressions.identifiers
plus_throws = refl

abbrev scans : Platform
scans = record { upper = λ s. s; date = λ s. some 100 }

abbrev vulnerability : Vulnerability
vulnerability = record {
  id = "CVE-2024-1";
  package_name = "zlib";
  installed = "1";
  severity = some "HIGH";
  fixed_version = some "2";
}

abbrev exception : String → Entry
exception reason = record {
  id = some "CVE-2024-1";
  reason = some reason;
  expires = some "2024-01-01";
  packages = some ("zlib" ∷ []);
}

abbrev report : Report
report = record {
  created_at = none;
  results =
      record { name = "a"; vulnerabilities = vulnerability ∷ [] }
      ∷ record { name = "b"; vulnerabilities = vulnerability ∷ [] }
      ∷ [];
}

abbrev options : Options
options = record { max_exception_days = 45; max_report_age = none }

short_reason :
    (evaluate_image_scan scans 50 (some report) (exception "later" ∷ []) options).problems
    ≡ bad_entry (some "CVE-2024-1") ∷ []
unfolding evaluate_image_scan
short_reason = refl

expired_blocks :
    (evaluate_image_scan scans 101
      (some report)
      (exception "no build of it for this image" ∷ [])
      options).passed
    ≡ false
unfolding evaluate_image_scan nuvrion.Common.get nuvrion.Common.put
expired_blocks = refl

evaluate_image_scan-EachShown_example :
    ((evaluate_image_scan scans 50
        (some report)
        (exception "no build of it for this image" ∷ [])
        options).problems
      ≡ [])
    × EachShown scans 50 options
        (exception "no build of it for this image" ∷ [])
        report.results
        report.results
unfolding evaluate_image_scan nuvrion.Common.get nuvrion.Common.put
evaluate_image_scan-EachShown_example =
    evaluate_image_scan-EachShown scans 50 options (exception "no build of it for this image" ∷ [])
      report refl
