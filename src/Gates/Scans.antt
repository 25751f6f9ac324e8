-- ===== src/Gates/Scans.antt =====
-- evaluateImageScan of modules/platform/src/image-scan-gate.js. toUpperCase and Date.parse, of times from 1970
-- on, are parameters; the identifiers and texts of a report are texts.
use Prim.Native.Char.{code}
use nuvrion.Common.{
  ℕ, ◌+◌, ◌*◌, String, Bool, true, false, ◌&&◌, ◌||◌, not, Option, none, some, List, [], ◌∷◌, ◌++◌,
  filter_by, any, every, str_eq, text_append, ltb, leb, ◌==◌, get, put, Assoc, or_else, truthy,
  if◌then◌else◌,
}
use nuvrion.Common.Text.{codes, units, between, is_digit, trim}
use nuvrion.Gates.Licences.{Platform, is_empty}

pub record Vulnerability : Type 0 where
  pub id : String
  pub package_name : String
  pub installed : String
  pub severity : Option String
  pub fixed_version : Option String

-- One of a report's Results; a list of vulnerabilities that is not given is empty.
pub record Target : Type 0 where
  pub name : String
  pub vulnerabilities : List Vulnerability

-- A report with a list of Results.
pub record Report : Type 0 where
  pub created_at : Option String
  pub results : List Target

pub record Entry : Type 0 where
  pub id : Option String
  pub reason : Option String
  pub expires : Option String
  pub packages : Option (List String)

-- An entry that may be used.
pub record Valid : Type 0 where
  pub reason : String
  pub packages : Option (List String)
  pub expires_at : ℕ
  pub expired : Bool
  pub used : Bool

pub record Options : Type 0 where
  pub max_exception_days : ℕ
  pub max_report_age : Option ℕ

pub data Problem : Type 0 where
  not_a_report stale_report : Problem
  bad_entry too_far : Option String → Problem

pub record Found : Type 0 where
  pub vulnerability : Vulnerability
  pub severity : String
  pub target : String

pub record Scan : Type 0 where
  pub seen : List String
  pub counts : Assoc ℕ
  pub blockers : List (Found × Option ℕ)
  pub accepted : List (Found × Valid)
  pub valid : Assoc Valid

pub record Outcome : Type 0 where
  pub passed : Bool
  pub problems : List Problem
  pub counts : Assoc ℕ
  pub blockers : List (Found × Option ℕ)
  pub accepted : List (Found × Valid)
  pub stale : List (String × Valid)

abbrev pub day : ℕ
day = 86400000

-- [0-9A-Za-z-]
unfoldable pub is_id_part : ℕ → Bool
unfolding is_digit
is_id_part c = is_digit c || (between b'A' b'Z' c || (between b'a' b'z' c || c == b'-'))

unfoldable pub after_text : String → String → Option String
after_text String.[] s = some s
after_text (String.◌∷◌ c p) String.[] = none
after_text (String.◌∷◌ c p) (String.◌∷◌ d s) = if code c == code d then after_text p s else none

unfoldable pub are_id_parts : Option String → Bool
unfolding is_id_part
are_id_parts none = false
are_id_parts (some s) = not (str_eq s "") && every is_id_part (codes s)

-- /^(CVE|GHSA)-[0-9A-Za-z-]+$/
unfoldable pub is_finding_id : String → Bool
unfolding after_text are_id_parts
is_finding_id s = are_id_parts (after_text "CVE-" s) || are_id_parts (after_text "GHSA-" s)

module _ (platform : Platform) (now : ℕ) where
  -- The creation time is missing, too old or in the future.
  unfoldable pub is_stale : ℕ → Option String → Bool
  is_stale max_age created_at = elim (platform.date (or_else created_at "")) [
    | none ↦ true
    | some created ↦ ltb (created + max_age) now || ltb (now + 300000) created
  ]

  unfoldable pub report_problems : Options → Report → List Problem
  unfolding is_stale
  report_problems options report = elim options.max_report_age [
    | none ↦ []
    | some max_age ↦ if is_stale max_age report.created_at then stale_report ∷ [] else []
  ]

  unfoldable pub has_reason : Option String → Bool
  unfolding units trim
  has_reason none = false
  has_reason (some reason) = leb 20 (units (trim reason))

  -- The end of the day on which an entry expires, if the entry is well formed.
  unfoldable pub expiry_of : Entry → Option ℕ
  unfolding is_finding_id has_reason
  expiry_of entry =
      if is_finding_id (or_else entry.id "") && has_reason entry.reason
      then platform.date (text_append (or_else entry.expires "") "T23:59:59Z")
      else none

  unfoldable pub valid_entry : Entry → ℕ → Valid
  valid_entry entry expires = record {
    reason = or_else entry.reason "";
    packages = entry.packages;
    expires_at = expires;
    expired = ltb expires now;
    used = false;
  }

  unfoldable pub read_entry :
      Options → Entry → List Problem × Assoc Valid → List Problem × Assoc Valid
  unfolding expiry_of valid_entry
  read_entry options entry (problems, valid) = elim (expiry_of entry) [
    | none ↦ (problems ++ bad_entry entry.id ∷ [], valid)
    | some expires ↦
        if ltb (now + options.max_exception_days * day) expires
        then (problems ++ too_far entry.id ∷ [], valid)
        else (problems, put (or_else entry.id "") (valid_entry entry expires) valid)
  ]

  -- The loop over the exceptions.
  unfoldable pub read_entries :
      Options → List Entry → List Problem × Assoc Valid → List Problem × Assoc Valid
  unfolding read_entry
  read_entries options [] read = read
  read_entries options (entry ∷ entries) read =
      read_entries options entries (read_entry options entry read)

  unfoldable pub severity_of : Vulnerability → String
  severity_of v = platform.upper (or_else v.severity "UNKNOWN")

  -- blocking.includes(severity) && fixed
  unfoldable pub is_blocking : Vulnerability → Bool
  unfolding severity_of
  is_blocking v =
      (str_eq (severity_of v) "HIGH" || str_eq (severity_of v) "CRITICAL") && truthy v.fixed_version

  unfoldable pub identity_of : Vulnerability → String
  identity_of v =
      text_append v.id (text_append "|" (text_append v.package_name (text_append "|" v.installed)))

  unfoldable pub count_key : Vulnerability → String
  unfolding severity_of
  count_key v =
      text_append (severity_of v) (if truthy v.fixed_version then ".fixed" else ".unfixed")

  -- An exception that is not expired and names the package, or no packages.
  unfoldable pub covers : Valid → Vulnerability → Bool
  covers e v =
      not e.expired
      && elim e.packages [ none ↦ true | some packages ↦ any (str_eq v.package_name) packages ]

  unfoldable pub found_in : String → Vulnerability → Found
  unfolding severity_of
  found_in target v = record { vulnerability = v; severity = severity_of v; target = target }

  unfoldable pub block : String → Vulnerability → Option ℕ → Scan → Scan
  unfolding found_in
  block target v note s = record s { blockers = s.blockers ++ (found_in target v, note) ∷ [] }

  unfoldable pub accept : String → Vulnerability → Valid → Scan → Scan
  unfolding found_in
  accept target v e s = record s {
    accepted = s.accepted ++ (found_in target v, e) ∷ [];
    valid = put v.id (record e { used = true }) s.valid;
  }

  unfoldable pub decide : String → Vulnerability → Option Valid → Scan → Scan
  unfolding block accept covers
  decide target v none s = block target v none s
  decide target v (some e) s =
      if covers e v
      then accept target v e s
      else block target v (if e.expired then some e.expires_at else none) s

  unfoldable pub counted : Vulnerability → Scan → Scan
  unfolding identity_of count_key
  counted v s = record s {
    seen = identity_of v ∷ s.seen;
    counts = put (count_key v) (or_else (get (count_key v) s.counts) 0 + 1) s.counts;
  }

  unfoldable pub visit : String → Vulnerability → Scan → Scan
  unfolding identity_of counted is_blocking decide
  visit target v s =
      if any (str_eq (identity_of v)) s.seen
      then s
      else if is_blocking v
      then decide target v (get v.id s.valid) (counted v s)
      else counted v s

  unfoldable pub visit_all : String → List Vulnerability → Scan → Scan
  unfolding visit
  visit_all target [] s = s
  visit_all target (v ∷ vs) s = visit_all target vs (visit target v s)

  unfoldable pub visit_targets : List Target → Scan → Scan
  unfolding visit_all
  visit_targets [] s = s
  visit_targets (t ∷ ts) s = visit_targets ts (visit_all t.name t.vulnerabilities s)

  unfoldable pub unused : Assoc Valid → List (String × Valid)
  unused valid = filter_by (λ e. not e.1.used) valid

  unfoldable pub scanned : Assoc Valid → Scan
  scanned valid = record { seen = []; counts = []; blockers = []; accepted = []; valid = valid }

  unfoldable pub outcome_of : List Problem → Scan → Outcome
  unfolding is_empty unused
  outcome_of problems s = record {
    passed = is_empty s.blockers && is_empty problems;
    problems = problems;
    counts = s.counts;
    blockers = s.blockers;
    accepted = s.accepted;
    stale = unused s.valid;
  }

  -- evaluateImageScan(report, { exceptions, now, maxExceptionDays, maxReportAgeMs })
  unfoldable pub evaluate_image_scan : Option Report → List Entry → Options → Outcome
  unfolding report_problems read_entries visit_targets scanned outcome_of
  evaluate_image_scan none exceptions options = record {
    passed = false;
    problems = not_a_report ∷ [];
    counts = [];
    blockers = [];
    accepted = [];
    stale = [];
  }
  evaluate_image_scan (some report) exceptions options =
      let (problems, valid) =
        read_entries options exceptions (report_problems options report, []) in
      outcome_of problems (visit_targets report.results (scanned valid))

  -- assertImageScanPassed(report, options): the outcome, or the error that carries it
  unfoldable pub assert_image_scan_passed : Option Report → List Entry → Options → Option Outcome
  unfolding evaluate_image_scan
  assert_image_scan_passed report exceptions options =
      let outcome = evaluate_image_scan report exceptions options in
      if outcome.passed then some outcome else none
