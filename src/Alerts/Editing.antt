-- ===== src/Alerts/Editing.antt =====
-- What mergeRule of modules/monitoring/src/alert-rules.js keeps of a rule, and what it takes from a request.
use nuvrion.Common.{
  ℕ, String, Bool, Option, none, some, [], ◌∷◌, str_eq, eq_iff, length, ◌==◌, ◌≡◌, refl, sym, ap,
  ◌∙◌, subst, inl, inr, Bool-cases, get, put, get-put, Assoc, arith,
}
use nuvrion.Common.Results.{Result, ok, >>=-eq-ok, refuse_if-eq-ok, ok_eq}
use nuvrion.Common.Json.{Json, object, Fields, fields_of, Platform, spread}
use nuvrion.Alerts.Requests.{
  AlertError, Parsed, nothing_to_change, comparison_of, severity_of, enabled_of, request_fields,
  connection_of, parse_rule, fields_of_rule, merge_rule,
}
use nuvrion.Alerts.Readings.{
  sent, minutes_of, name_of, description_of, Reads, IsBounded, parse_fields-Reads,
}
use nuvrion.Alerts.Kept.{
  comparison_of-kept, severity_of-kept, duration_of-kept, enabled_of-kept, request_fields-same,
  plain_text-kept, connection_of-kept,
}

-- No field is given twice.
abbrev pub NoRepeats : Assoc Json → Type 0
NoRepeats [] = Unit
NoRepeats ((k, v) ∷ fields) = (get k fields ≡ none) × NoRepeats fields

-- A value, or another in its place.
abbrev in_place : Option Json → Option Json → Option Json
in_place none old = old
in_place (some v) old = some v

get-spread :
    (j : String) (patch fields : Assoc Json)
    → NoRepeats patch
    → get j (spread patch fields) ≡ in_place (get j patch) (get j fields)
unfolding spread get
get-spread j [] fields h = refl
get-spread j ((k, v) ∷ patch) fields h = elim (Bool-cases (str_eq k j)) [
  | inl e ↦
      let missing : get j patch ≡ none = ground (arith, eq_iff k j) in
      rw (get-spread j patch (put k v fields) h.1, get-put k j v fields, e, missing) refl
  | inr e ↦ rw (get-spread j patch (put k v fields) h.1, get-put k j v fields, e) refl
]

-- A field of a rule after a change: what the request gives is read, and what it does not give is kept.
module _ {A : Type 0} (read : Option Json → Result AlertError A) where
  abbrev pub Edited : Option Json → A → A → Type 0
  Edited none old new = new ≡ old
  Edited (some v) old new = read (some v) ≡ ok new

  edited_given :
      (given before : Option Json) (old new : A)
      → (read before ≡ ok new → new ≡ old)
      → read (in_place given before) ≡ ok new
      → Edited given old new
  edited_given none before old new kept e = kept e
  edited_given (some v) before old new kept e = e

  edited :
      (k : String) (patch fields : Assoc Json) {old new : A}
      → NoRepeats patch
      → (read (get k fields) ≡ ok new → new ≡ old)
      → read (get k (spread patch fields)) ≡ ok new
      → Edited (get k patch) old new
  edited k patch fields {old} {new} h kept e =
      edited_given (get k patch) (get k fields) old new kept
        (ap read (sym (get-spread k patch fields h)) ∙ e)

module _ (platform : Platform) (fits : Option ℕ → Bool) where
  -- Each field of a rule after a change.
  pub record IsEdit (patch : Assoc Json) (old new : Parsed) : Type 0 where
    pub named : Edited (name_of platform fits) (get "name" patch) old.name new.name
    pub described :
        Edited
          (description_of platform fits)
          (get "description" patch)
          old.description
          new.description
    pub measured : Edited (sent platform fits) (get "metric" patch) old.metric new.metric
    pub compared : Edited comparison_of (get "comparison" patch) old.comparison new.comparison
    pub bounded : Edited (sent platform fits) (get "threshold" patch) old.threshold new.threshold
    pub lasting :
        Edited
          (minutes_of platform fits)
          (get "durationMinutes" patch)
          old.duration_minutes
          new.duration_minutes
    pub ranked : Edited severity_of (get "severity" patch) old.severity new.severity
    pub connected :
        Edited
          (connection_of platform)
          (get "connectionId" patch)
          old.connection_id
          new.connection_id
    pub switched : Edited enabled_of (get "enabled" patch) old.enabled new.enabled

  module _ (lower_again : (s : String) → platform.lower (platform.lower s) ≡ platform.lower s) where
    fields_of_rule-IsEdit :
        (patch fields : Assoc Json) (old new : Parsed)
        → NoRepeats patch
        → Reads platform fits fields old
        → Reads platform fits (spread patch (fields_of_rule old)) new
        → IsEdit patch old new
    unfolding fields_of_rule get
    fields_of_rule-IsEdit patch fields old new h was now = record {
      named =
          edited (name_of platform fits) "name" _ _ h (plain_text-kept platform _ _ _ _ was.named)
            now.named;
      described =
          edited (description_of platform fits) "description" _ _ h
            (plain_text-kept platform _ _ _ _ was.described) now.described;
      measured = edited (sent platform fits) "metric" _ _ h (λ e. sym (ok_eq _ _ e)) now.measured;
      compared = edited comparison_of "comparison" _ _ h (comparison_of-kept _) now.compared;
      bounded = edited (sent platform fits) "threshold" _ _ h (λ e. sym (ok_eq _ _ e)) now.bounded;
      lasting =
          edited (minutes_of platform fits) "durationMinutes" _ _ h (duration_of-kept _)
            now.lasting;
      ranked = edited severity_of "severity" _ _ h (severity_of-kept _) now.ranked;
      connected =
          edited (connection_of platform) "connectionId" _ _ h
            (connection_of-kept platform lower_again _ _ was.connected) now.connected;
      switched = edited enabled_of "enabled" _ _ h (enabled_of-kept _) now.switched;
    }

    -- A change of a rule that a request made, by an object that gives no field twice: each field that it gives
    -- is read into the changed rule, and each other field is as before; and the changed rule's threshold is a whole
    -- number that is at most the greatest of its metric, or another number that is one of its range, unless its metric
    -- is a name that every object inherits; if toLowerCase changes nothing the second time.
    pub merge_rule-IsEdit :
        (body : Option Json) (patch : Fields) (old new : Parsed)
        → NoRepeats (fields_of patch)
        → parse_rule platform fits body ≡ ok old
        → merge_rule platform fits old (some (object patch)) ≡ ok new
        → IsEdit (fields_of patch) old new × IsBounded platform fits new
    unfolding parse_rule merge_rule
    merge_rule-IsEdit body patch old new h made changed =
        let (fields, _, e) = >>=-eq-ok (request_fields body) _ made in
        let (patched, read, e1) = >>=-eq-ok (request_fields (some (object patch))) _ changed in
        let (_, e2) = refuse_if-eq-ok (length patched == 0) nothing_to_change _ e1 in
        let (was, _) = parse_fields-Reads platform fits fields old e in
        let (now, bounded) =
          parse_fields-Reads platform fits (spread patched (fields_of_rule old)) new e2 in
        let same = request_fields-same patch patched read in
        (
          fields_of_rule-IsEdit (fields_of patch) fields old new h was
              (subst (λ p. Reads platform fits (spread p (fields_of_rule old)) new) (sym same) now),
          bounded,
        )
