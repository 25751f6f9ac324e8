-- ===== src/Alerts/Kept.antt =====
-- Fields of an alert rule that parseRule of modules/monitoring/src/alert-rules.js reads a second time.
use nuvrion.Common.{
  ℕ, String, Bool, true, false, ◌&&◌, Option, none, some, str_eq, ltb, ◌≡◌, sym, ap, ◌∙◌, subst,
  Assoc, arith, if◌then◌else◌,
}
use nuvrion.Common.Results.{Result, ok, err, refuse_if-eq-ok, ok_eq}
use nuvrion.Common.Text.{units, trim, has_control, is_uuid}
use nuvrion.Common.Trimming.{trim-trim}
use nuvrion.Common.Json.{
  Json, bool, int, text, object, Fields, fields_of, Platform, to_text, named_unknown_field,
}
use nuvrion.Alerts.Rules.{Comparison, Severity, above, below, warning, critical}
use nuvrion.Alerts.Requests.{
  Label, AlertError, too_long, characters, needed, bad_connection, unknown_field_named, editable,
  check_text, comparison_of, severity_of, duration_of, enabled_of, request_fields, connection_of,
  plain_text, comparison_text, severity_text, text_or_null,
}

check_text-same :
    (label : Label) (max : ℕ) (required : Bool) (s t : String)
    → check_text label max required s ≡ ok t
    → t ≡ s
unfolding check_text
check_text-same label max required s t e =
    let (_, e1) = refuse_if-eq-ok (str_eq s "" && required) (needed label) _ e in
    let (_, e2) = refuse_if-eq-ok (ltb max (units s)) (too_long label) _ e1 in
    let (_, e3) = refuse_if-eq-ok (has_control s) (characters label) _ e2 in sym (ok_eq s t e3)

pub comparison_of-kept :
    (c : Comparison) {new : Comparison}
    → comparison_of (some (text (comparison_text c))) ≡ ok new
    → new ≡ c
unfolding comparison_of comparison_text
comparison_of-kept above {new} e = sym (ok_eq above new e)
comparison_of-kept below {new} e = sym (ok_eq below new e)

pub severity_of-kept :
    (s : Severity) {new : Severity} → severity_of (some (text (severity_text s))) ≡ ok new → new ≡ s
unfolding severity_of severity_text
severity_of-kept warning {new} e = sym (ok_eq warning new e)
severity_of-kept critical {new} e = sym (ok_eq critical new e)

pub duration_of-kept : (n : ℕ) {new : ℕ} → duration_of (int n) ≡ ok new → new ≡ n
unfolding duration_of
duration_of-kept n e = ground arith

pub enabled_of-kept : (b : Bool) {new : Bool} → enabled_of (some (bool b)) ≡ ok new → new ≡ b
unfolding enabled_of
enabled_of-kept b {new} e = sym (ok_eq b new e)

pub request_fields-same :
    (patch : Fields) (fields : Assoc Json)
    → request_fields (some (object patch)) ≡ ok fields
    → fields_of patch ≡ fields
unfolding request_fields
request_fields-same patch fields e = same (named_unknown_field editable (fields_of patch)) e
  where
    same :
        (found : Option String)
        → ◌≡◌ {A = Result AlertError (Assoc Json)}
            (elim found [
              | some name ↦ err (unknown_field_named name)
              | none ↦ ok (fields_of patch)
            ])
            (ok fields)
        → fields_of patch ≡ fields
    same none q = ok_eq (fields_of patch) fields q
    same (some name) q = absurd (cc)

module _ (platform : Platform) where
  pub plain_text-kept :
      (label : Label) (max : ℕ) (required : Bool) (given : Option Json) {old new : String}
      → plain_text platform label max required given ≡ ok old
      → plain_text platform label max required (some (text old)) ≡ ok new
      → new ≡ old
  unfolding plain_text to_text
  plain_text-kept label max required given {old} {new} e e' =
      let first = check_text-same label max required (trim (to_text platform given)) old e in
      check_text-same label max required (trim old) new e'
      ∙ ap trim first
      ∙ trim-trim (to_text platform given)
      ∙ sym first

  connection_of-text :
      (s : String) (c : Option String)
      → connection_of platform (some (text s)) ≡ ok c
      → c ≡ some (platform.lower s)
  unfolding connection_of
  connection_of-text s c e = go (is_uuid s) e
    where
      go :
          (b : Bool)
          → ◌≡◌ {A = Result AlertError (Option String)}
              (if b then ok (some (platform.lower s)) else err bad_connection)
              (ok c)
          → c ≡ some (platform.lower s)
      go true q = sym (ok_eq (some (platform.lower s)) c q)
      go false q = absurd (cc)

  module _ (lower_again : (s : String) → platform.lower (platform.lower s) ≡ platform.lower s) where
    connection_of-lower :
        (given : Option Json) (t : String)
        → connection_of platform given ≡ ok (some t)
        → platform.lower t ≡ t
    unfolding connection_of
    connection_of-lower (some (text s)) t e =
        let same = connection_of-text s (some t) e in
        subst (λ u. platform.lower u ≡ u) (cc) (lower_again s)
    connection_of-lower none t e = absurd (cc)
    connection_of-lower (some _) t e = absurd (cc)

    pub connection_of-kept :
        (given : Option Json) (old : Option String) {new : Option String}
        → connection_of platform given ≡ ok old
        → connection_of platform (some (text_or_null old)) ≡ ok new
        → new ≡ old
    unfolding text_or_null connection_of
    connection_of-kept given none {new} e e' = sym (ok_eq none new e')
    connection_of-kept given (some t) {new} e e' =
        connection_of-text t new e' ∙ ap some (connection_of-lower given t e)
