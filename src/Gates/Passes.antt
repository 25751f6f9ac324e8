-- ===== src/Gates/Passes.antt =====
-- What a scan that passes has found (modules/platform/src/image-scan-gate.js).
use nuvrion.Common.{
  Among, ℕ, ◌+◌, ◌*◌, ◌≤◌, String, Bool, true, false, Option, none, some, List, [], ◌∷◌, ◌++◌, any,
  ◌≡◌, refl, sym, subst, ap, ◌∙◌, inl, inr, Bool-cases, Option-cases, All, arith, str_eq, eq_iff,
  get, put, get-put, Assoc, ltb, or_else, if◌then◌else◌,
}
use nuvrion.Gates.Licences.{Platform, is_empty}
use nuvrion.Gates.Scans.{
  Vulnerability, Target, Report, Entry, Valid, Options, Problem, Found, Scan, day, report_problems,
  expiry_of, valid_entry, read_entry, read_entries, found_in, severity_of, is_blocking, identity_of,
  covers, block, accept, decide, counted, visit, visit_all, visit_targets, scanned, outcome_of,
  evaluate_image_scan,
}

not_empty : {A : Type 0} (xs : List A) (x : A) → xs ++ x ∷ [] ≡ [] → ⊥
not_empty [] x h = cc
not_empty (y ∷ ys) x h = cc

-- A finding of a report.
abbrev pub IsReported : List Target → Vulnerability → Type 0
IsReported targets v = (t : Target) × Among t targets × Among v t.vulnerabilities

module _ (platform : Platform) (now : ℕ) (options : Options) (exceptions : List Entry)
    (targets : List Target) where
  -- An entry that names the package of a finding, or no packages.
  abbrev pub names_package : Option (List String) → Vulnerability → Bool
  names_package none v = true
  names_package (some packages) v = any (str_eq v.package_name) packages

  -- A finding does not block: it is neither HIGH nor CRITICAL, or has no fix, or a well-formed entry for it and its package
  -- has not expired, and expires soon enough.
  pub data Cleared (v : Vulnerability) : Type 0 where
    not_severe :
        str_eq (platform.upper (or_else v.severity "UNKNOWN")) "HIGH" ≡ false
        → str_eq (platform.upper (or_else v.severity "UNKNOWN")) "CRITICAL" ≡ false
        → Cleared v
    no_fix : v.fixed_version ≡ none → Cleared v
    empty_fix : v.fixed_version ≡ some "" → Cleared v
    excused :
        (entry : Entry) (expires : ℕ)
        → Among entry exceptions
        → expiry_of platform now entry ≡ some expires
        → now ≤ expires
        → expires ≤ now + options.max_exception_days * day
        → or_else entry.id "" ≡ v.id
        → names_package entry.packages v ≡ true
        → Cleared v

  is_blocking-Cleared : (v : Vulnerability) → is_blocking platform now v ≡ false → Cleared v
  unfolding is_blocking severity_of
  is_blocking-Cleared v h = elim (Option-cases v.fixed_version) [
    | inl e ↦ no_fix e
    | inr (fix, e) ↦ elim (Bool-cases (str_eq fix "")) [
      | inl q ↦ empty_fix (e ∙ ap some ((eq_iff fix "").0 q))
      | inr q ↦ not_severe (ground arith) (ground arith)
    ]
  ]

  -- A finding of the report has this identity and does not block.
  abbrev pub IsShown : String → Type 0
  IsShown key =
      (w : Vulnerability) × IsReported targets w × (identity_of platform now w ≡ key) × Cleared w

  record IsGood (k : String) (e : Valid) : Type 0 where
    entry : Entry
    expires : ℕ
    listed : Among entry exceptions
    expiry : expiry_of platform now entry ≡ some expires
    soon : expires ≤ now + options.max_exception_days * day
    keyed : or_else entry.id "" ≡ k
    packages : e.packages ≡ entry.packages
    expired : e.expired ≡ ltb expires now

  abbrev AllGood : Assoc Valid → Type 0
  AllGood valid = (k : String) (e : Valid) → get k valid ≡ some e → IsGood k e

  put-AllGood :
      (k : String) (e : Valid) (valid : Assoc Valid)
      → IsGood k e
      → AllGood valid
      → AllGood (put k e valid)
  put-AllGood k e valid good all_good j f h = elim (Bool-cases (str_eq k j)) [
    | inl q ↦
        let same_key : k ≡ j = (eq_iff k j).0 q in
        let same : e ≡ f = ground (arith, get-put k j e valid) in
        subst (λ x. IsGood x f) same_key (subst (IsGood k) same good)
    | inr q ↦ all_good j f (ground (arith, get-put k j e valid))
  ]

  covers-names_package :
      (v : Vulnerability) (e : Valid) (entry : Entry)
      → e.packages ≡ entry.packages
      → covers platform now e v ≡ true
      → names_package entry.packages v ≡ true
  unfolding covers
  covers-names_package v e entry same h =
      subst (λ p. names_package p v ≡ true) same (named e.packages (ground arith))
    where
      named :
          (p : Option (List String))
          → elim p [ none ↦ true | some packages ↦ any (str_eq v.package_name) packages ] ≡ true
          → names_package p v ≡ true
      named none q = refl
      named (some packages) q = q

  covers-Cleared :
      (v : Vulnerability) (e : Valid) → IsGood v.id e → covers platform now e v ≡ true → Cleared v
  unfolding covers
  covers-Cleared v e good h =
      excused good.entry good.expires good.listed good.expiry (ground (arith, good.expired))
        good.soon good.keyed (covers-names_package v e good.entry good.packages h)

  -- What a visit does.
  data Visited (target : String) (v : Vulnerability) (s s' : Scan) : Type 0 where
    again : any (str_eq (identity_of platform now v)) s.seen ≡ true → s' ≡ s → Visited target v s s'
    passed_by :
        is_blocking platform now v ≡ false → s' ≡ counted platform now v s → Visited target v s s'
    accepted :
        (e : Valid)
        → get v.id s.valid ≡ some e
        → covers platform now e v ≡ true
        → s' ≡ accept platform now target v e (counted platform now v s)
        → Visited target v s s'
    blocked : (b : Found × Option ℕ) → s'.blockers ≡ s.blockers ++ b ∷ [] → Visited target v s s'

  decide-Visited :
      (target : String) (v : Vulnerability) (s : Scan) (found : Option Valid)
      → get v.id s.valid ≡ found
      → Visited target v s (decide platform now target v found (counted platform now v s))
  unfolding decide block counted
  decide-Visited target v s none h = blocked _ refl
  decide-Visited target v s (some e) h = elim (Bool-cases (covers platform now e v)) [
    | inl c ↦ accepted e h c (rw c refl)
    | inr c ↦
        blocked (found_in platform now target v, if e.expired then some e.expires_at else none)
          (ground arith)
  ]

  visit-Visited :
      (target : String) (v : Vulnerability) (s : Scan)
      → Visited target v s (visit platform now target v s)
  unfolding visit
  visit-Visited target v s = elim (Bool-cases (any (str_eq (identity_of platform now v)) s.seen)) [
    | inl a ↦ again a (rw a refl)
    | inr a ↦ elim (Bool-cases (is_blocking platform now v)) [
      | inr b ↦ passed_by b (rw (a, b) refl)
      | inl b ↦ rw (a, b) (decide-Visited target v s (get v.id s.valid) refl)
    ]
  ]

  record IsSound (s : Scan) : Type 0 where
    valid : AllGood s.valid
    seen : All IsShown s.seen

  seen-IsShown :
      (key : String) (seen : List String)
      → any (str_eq key) seen ≡ true
      → All IsShown seen
      → IsShown key
  seen-IsShown key [] h all_shown = absurd (cc)
  seen-IsShown key (k ∷ ks) h all_shown = elim (Bool-cases (str_eq key k)) [
    | inl e ↦ subst IsShown (sym ((eq_iff key k).0 e)) all_shown.0
    | inr e ↦ seen-IsShown key ks (ground arith) all_shown.1
  ]

  -- Where nothing blocks after a visit, nothing did before it, and the finding is shown not to block.
  abbrev Goes : Vulnerability → Scan → Scan → Type 0
  Goes v s s' = (s.blockers ≡ []) × IsSound s' × IsShown (identity_of platform now v)

  Visited-Goes :
      (target : String) (v : Vulnerability) (s s' : Scan)
      → IsReported targets v
      → Visited target v s s'
      → IsSound s
      → s'.blockers ≡ []
      → Goes v s s'
  unfolding counted accept
  Visited-Goes target v s s' it (again a e) sound h = (
    ap (λ x. x.blockers) (sym e) ∙ h,
    subst IsSound (sym e) sound,
    seen-IsShown _ s.seen a sound.seen,
  )
  Visited-Goes target v s s' it (passed_by b e) sound h =
      let shown : IsShown (identity_of platform now v) = (v, it, refl, is_blocking-Cleared v b) in
      (
        ap (λ x. x.blockers) (sym e) ∙ h,
        subst IsSound (sym e) (record { valid = sound.valid; seen = (shown, sound.seen) }),
        shown,
      )
  Visited-Goes target v s s' it (accepted e g c q) sound h =
      let good : IsGood v.id e = sound.valid v.id e g in
      let shown : IsShown (identity_of platform now v) = (v, it, refl, covers-Cleared v e good c) in
      (
        ap (λ x. x.blockers) (sym q) ∙ h,
        subst IsSound (sym q) (record {
          valid =
              put-AllGood v.id (record e { used = true }) s.valid
                (record {
                  entry = good.entry;
                  expires = good.expires;
                  listed = good.listed;
                  expiry = good.expiry;
                  soon = good.soon;
                  keyed = good.keyed;
                  packages = good.packages;
                  expired = good.expired;
                })
                sound.valid;
          seen = (shown, sound.seen);
        }),
        shown,
      )
  Visited-Goes target v s s' it (blocked b e) sound h = absurd (not_empty s.blockers b (sym e ∙ h))

  earlier :
      {target : String} {v : Vulnerability} {s s' : Scan}
      → Visited target v s s'
      → s'.blockers ≡ []
      → s.blockers ≡ []
  unfolding counted accept
  earlier (again a e) h = ap (λ x. x.blockers) (sym e) ∙ h
  earlier (passed_by b e) h = ap (λ x. x.blockers) (sym e) ∙ h
  earlier (accepted e g c q) h = ap (λ x. x.blockers) (sym q) ∙ h
  earlier {s = s} (blocked b e) h = absurd (not_empty s.blockers b (sym e ∙ h))

  visit_all-blockers :
      (target : String) (vs : List Vulnerability) (s : Scan)
      → (visit_all platform now target vs s).blockers ≡ []
      → s.blockers ≡ []
  unfolding visit_all
  visit_all-blockers target [] s h = h
  visit_all-blockers target (v ∷ vs) s h =
      earlier (visit-Visited target v s)
        (visit_all-blockers target vs (visit platform now target v s) h)

  visit_all-IsSound :
      (target : String) (vs : List Vulnerability) (s : Scan)
      → ((v : Vulnerability) → Among v vs → IsReported targets v)
      → (visit_all platform now target vs s).blockers ≡ []
      → IsSound s
      → IsSound (visit_all platform now target vs s)
        × All (λ v. IsShown (identity_of platform now v)) vs
  unfolding visit_all
  visit_all-IsSound target [] s its h sound = (sound, tt)
  visit_all-IsSound target (v ∷ vs) s its h sound =
      let s' = visit platform now target v s in
      let (_, sound', shown) =
        Visited-Goes target v s s' (its v (inl refl)) (visit-Visited target v s) sound
          (visit_all-blockers target vs s' h) in
      let (last, others) = visit_all-IsSound target vs s' (λ w l. its w (inr l)) h sound' in
      (last, (shown, others))

  visit_targets-blockers :
      (ts : List Target) (s : Scan)
      → (visit_targets platform now ts s).blockers ≡ []
      → s.blockers ≡ []
  unfolding visit_targets
  visit_targets-blockers [] s h = h
  visit_targets-blockers (t ∷ ts) s h =
      visit_all-blockers t.name t.vulnerabilities s (visit_targets-blockers ts _ h)

  abbrev pub EachShown : List Target → Type 0
  EachShown ts = All (λ t. All (λ v. IsShown (identity_of platform now v)) t.vulnerabilities) ts

  visit_targets-EachShown :
      (ts : List Target) (s : Scan)
      → ((t : Target) → Among t ts → Among t targets)
      → (visit_targets platform now ts s).blockers ≡ []
      → IsSound s
      → EachShown ts
  unfolding visit_targets
  visit_targets-EachShown [] s its h sound = tt
  visit_targets-EachShown (t ∷ ts) s its h sound =
      let s' = visit_all platform now t.name t.vulnerabilities s in
      let (sound', shown) =
        visit_all-IsSound t.name t.vulnerabilities s (λ v l. (t, its t (inl refl), l))
          (visit_targets-blockers ts s' h) sound in
      (shown, visit_targets-EachShown ts s' (λ u l. its u (inr l)) h sound')

  read_entry-AllGood :
      (entry : Entry) (problems : List Problem) (valid : Assoc Valid)
      → Among entry exceptions
      → AllGood valid
      → AllGood (read_entry platform now options entry (problems, valid)).1
  unfolding read_entry valid_entry
  read_entry-AllGood entry problems valid listed good =
      elim (Option-cases (expiry_of platform now entry)) [
        | inl e ↦ subst AllGood (ground arith) good
        | inr (expires, e) ↦
            elim (Bool-cases (ltb (now + options.max_exception_days * day) expires)) [
              | inl f ↦ subst AllGood (ground arith) good
              | inr f ↦ subst AllGood (ground arith) (
                  put-AllGood (or_else entry.id "") (valid_entry platform now entry expires) valid
                    (record {
                      entry = entry;
                      expires = expires;
                      listed = listed;
                      expiry = e;
                      soon = ground arith;
                      keyed = refl;
                      packages = refl;
                      expired = refl;
                    })
                    good)
            ]
      ]

  read_entries-AllGood :
      (entries : List Entry) (read : List Problem × Assoc Valid)
      → ((entry : Entry) → Among entry entries → Among entry exceptions)
      → AllGood read.1
      → AllGood (read_entries platform now options entries read).1
  unfolding read_entries
  read_entries-AllGood [] read listed good = good
  read_entries-AllGood (entry ∷ entries) (problems, valid) listed good =
      read_entries-AllGood entries (read_entry platform now options entry (problems, valid))
        (λ e l. listed e (inr l))
        (read_entry-AllGood entry problems valid (listed entry (inl refl)) good)

  is_empty-eq : {A : Type 0} (xs : List A) → is_empty xs ≡ true → xs ≡ []
  unfolding is_empty
  is_empty-eq [] h = refl
  is_empty-eq (x ∷ xs) h = cc

  both_empty :
      (problems : List Problem) (s : Scan)
      → (outcome_of platform now problems s).passed ≡ true
      → (s.blockers ≡ []) × (problems ≡ [])
  unfolding outcome_of
  both_empty problems s h = (is_empty-eq _ (ground arith), is_empty-eq _ (ground arith))

module _ (platform : Platform) (now : ℕ) (options : Options) (exceptions : List Entry) where
  -- When the scan of a report passes, there is no problem with the report or the exceptions, and of each
  -- finding in it, one in the report of the same identity does not block: it is neither HIGH nor CRITICAL, or it has no fix, or a
  -- well-formed exception for it and its package has not expired and expires within the days allowed.
  pub evaluate_image_scan-EachShown :
      (report : Report)
      → (evaluate_image_scan platform now (some report) exceptions options).passed ≡ true
      → ((evaluate_image_scan platform now (some report) exceptions options).problems ≡ [])
        × EachShown platform now options exceptions report.results report.results
  unfolding evaluate_image_scan outcome_of scanned get
  evaluate_image_scan-EachShown report h =
      let read =
        read_entries platform now options exceptions
          (report_problems platform now options report, []) in
      let (clear, fine) =
        both_empty platform now options exceptions report.results read.0
          (visit_targets platform now report.results (scanned platform now read.1)) h in
      (
        fine,
        visit_targets-EachShown platform now options exceptions report.results report.results
            (scanned platform now read.1) (λ t l. l) clear
            (record {
              valid =
                  read_entries-AllGood platform now options exceptions report.results exceptions _
                    (λ e l. l) (λ k e g. absurd (cc));
              seen = tt;
            }),
      )
