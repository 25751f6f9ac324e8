-- ===== src/Schedules/Shapes.antt =====
-- What parseSchedule and mergeSchedule of modules/tasks/src/schedule-rules.js let through.
use nuvrion.Common.{
  ℕ, suc, ◌+◌, ◌-◌, ◌*◌, ◌≤◌, ◌<◌, String, Bool, true, false, ◌&&◌, not, Option, none, some, List,
  [], ◌∷◌, ◌++◌, map, any, is_some, str_eq, length, length-append, ltb, leb, ◌==◌, ◌≡◌, refl, ap,
  ◌∙◌, subst, ◌⊎◌, inl, inr, Bool-cases, Option-cases, All, All-append, All-sort_by, length-sort_by,
  get, Assoc, arith, if◌then◌else◌,
}
use nuvrion.Common.Results.{ok, err, ◌>>=◌, ◌>>◌, refuse_if, >>=-eq-ok, refuse_if-eq-ok, ok_eq}
use nuvrion.Common.Text.{codes, units, has_control, is_digit, is_time, is_uuid}
use nuvrion.Common.Json.{Json, int, text, Platform, to_text, is_truthy, has_length}
use nuvrion.Inventory.TagRequest.{distinct, distinct_onto}
use nuvrion.Inventory.TagTyping.{length-distinct_onto}
use nuvrion.Schedules.When.{Day, Frequency, once, daily, weekly}
use nuvrion.Schedules.Requests.{
  Label, ScheduleError, Zones, Basics, Parsed, basics_of, narrowed_by, machines_limit, name_max,
  operation_keys, check_text, operation_of, target_of, frequency_of, time_of, zone_of, enabled_of,
  uuids_of, filled_list, tag_of, date_of, number_of, same_day, connection_of, days_of,
  distinct_days, sorted_days, is_date, plain_text, machines_of, weekdays_of, run_date_of,
  parse_fields, request_fields, parse_schedule, merge_schedule, bad_date, bad_machine, bad_days,
  no_machines, too_many_machines, tag_beside, machines_beside, days_beside, date_beside, name_label,
  description_label, description_max, connection_beside, nothing_to_change,
}

-- The machines of a schedule: from one to fifty are listed, or a tag is given.
pub data Machines (ids : List String) (tag : Option String) : Type 0 where
  listed : 0 < length ids → length ids ≤ machines_limit → tag ≡ none → Machines ids tag
  tagged : (t : String) → ids ≡ [] → tag ≡ some t → Machines ids tag

length-distinct :
    (xs : List String)
    → 0 < length xs
    → (0 < length (distinct xs)) × (length (distinct xs) ≤ length xs)
unfolding distinct distinct_onto
length-distinct [] h = absurd (omega arith)
length-distinct (x ∷ xs) h =
    let (a, b) = length-distinct_onto (x ∷ []) xs in (omega arith, omega arith)

length-map : {A B : Type 0} (f : A → B) (xs : List A) → length (map f xs) ≡ length xs
length-map f [] = refl
length-map f (x ∷ xs) = ap suc (length-map f xs)

length-uuids_of :
    (vs : List Json) (ids : List String) → uuids_of vs ≡ ok ids → length ids ≡ length vs
unfolding uuids_of
length-uuids_of [] ids h = ground arith
length-uuids_of (text id ∷ rest) ids h = elim (Bool-cases (is_uuid id)) [
  | inr e ↦ absurd (cc)
  | inl e ↦
      let (others, made, put_first) =
        >>=-eq-ok (uuids_of rest) (λ ids. ok (id ∷ ids))
          (subst
            (λ b.
              (if b then (uuids_of rest >>= λ ids. ok (id ∷ ids)) else err bad_machine) ≡ ok ids)
            e h) in
      ground (arith, length-uuids_of rest others made)
]
length-uuids_of (v ∷ rest) ids h = absurd (cc)

filled_list-holds :
    (reason : ScheduleError) (v : Option Json) (vs : List Json)
    → filled_list reason v ≡ ok vs
    → 0 < length vs
unfolding filled_list
filled_list-holds reason v vs h = ground arith

at_most : (n k : ℕ) → ltb machines_limit n ≡ false → k ≤ n → k ≤ machines_limit
at_most n k h le = ground arith

days_of-All :
    (vs : List Json) (days : List ℕ)
    → days_of vs ≡ ok days
    → All (λ d. d ≤ 6) days × (length days ≡ length vs)
unfolding days_of
days_of-All [] days h =
    let same : [] ≡ days = cc in subst (λ ds. All (λ d. d ≤ 6) ds × (length ds ≡ 0)) same (tt, refl)
days_of-All (int n ∷ rest) days h = elim (Bool-cases (leb n 6)) [
  | inr e ↦ absurd (cc)
  | inl e ↦
      let (others, made, put_first) =
        >>=-eq-ok (days_of rest) (λ ds. ok (n ∷ ds))
          (subst (λ b. (if b then (days_of rest >>= λ ds. ok (n ∷ ds)) else err bad_days) ≡ ok days)
            e h) in
      let (small, sized) = days_of-All rest others made in
      let same : n ∷ others ≡ days = cc in
      subst (λ ds. All (λ d. d ≤ 6) ds × (length ds ≡ suc (length rest))) same
        ((ground arith, small), ap suc sized)
]
days_of-All (v ∷ rest) days h = absurd (cc)

distinct_days-All :
    (seen days : List ℕ)
    → All (λ d. d ≤ 6) seen
    → All (λ d. d ≤ 6) days
    → All (λ d. d ≤ 6) (distinct_days seen days) × (length seen ≤ length (distinct_days seen days))
unfolding distinct_days
distinct_days-All seen [] hs hd = (hs, omega arith)
distinct_days-All seen (d ∷ ds) hs hd = elim (Bool-cases (any (λ x. x == d) seen)) [
  | inl e ↦ rw e (distinct_days-All seen ds hs hd.1)
  | inr e ↦ rw e (
      let (a, b) =
        distinct_days-All (seen ++ d ∷ []) ds (All-append _ seen (d ∷ []) hs (hd.0, tt)) hd.1 in
      (a, omega (arith, length-append seen (d ∷ []))))
]

sorted_days-All :
    (days : List ℕ)
    → All (λ d. d ≤ 6) days
    → 0 < length days
    → All (λ d. d ≤ 6) (sorted_days days) × (0 < length (sorted_days days))
unfolding sorted_days distinct_days
sorted_days-All [] h some_day = absurd (omega arith)
sorted_days-All (d ∷ ds) h some_day =
    let (a, b) = distinct_days-All (d ∷ []) ds (h.0, tt) h.1 in
    (
      All-sort_by _ _ (distinct_days (d ∷ []) ds) a,
      omega (arith, length-sort_by (λ x y. ltb y x) (distinct_days (d ∷ []) ds)),
    )

and_true : (b : Bool) → (b && true) ≡ false → b ≡ false
and_true true h = h
and_true false h = refl

-- A text YYYY-MM-DD, of decimal digits, and the day that it writes.
abbrev pub IsDecimal : ℕ → Type 0
IsDecimal c = (b'0' ≤ c) × (c ≤ b'9')

abbrev pub value_of : ℕ → ℕ
value_of c = c - b'0'

abbrev pub WritesDay : List ℕ → Day → Type 0
WritesDay (a ∷ b ∷ c ∷ d ∷ x ∷ e ∷ f ∷ y ∷ g ∷ h ∷ []) day =
    All IsDecimal (a ∷ b ∷ c ∷ d ∷ e ∷ f ∷ g ∷ h ∷ [])
    × (x ≡ b'-')
    × (y ≡ b'-')
    × (day.year ≡ value_of a * 1000 + value_of b * 100 + value_of c * 10 + value_of d)
    × (day.month ≡ value_of e * 10 + value_of f)
    × (day.day ≡ value_of g * 10 + value_of h)
WritesDay _ day = ⊥

is_digit-IsDecimal : (c : ℕ) → is_digit c ≡ true → IsDecimal c
unfolding is_digit
is_digit-IsDecimal c h = ground arith

if_then_some :
    {A : Type 0} (b : Bool) (u v : A) → (if b then some u else none) ≡ some v → (b ≡ true) × (u ≡ v)
if_then_some true u v h = (refl, cc)
if_then_some false u v h = absurd (cc)

both_hold : (p q : Bool) → (p && q) ≡ true → (p ≡ true) × (q ≡ true)
both_hold true true h = (refl, refl)
both_hold true false h = absurd (cc)
both_hold false q h = absurd (cc)

date_of-WritesDay : (cs : List ℕ) (day : Day) → date_of cs ≡ some day → WritesDay cs day
unfolding date_of number_of
date_of-WritesDay (a ∷ b ∷ c ∷ d ∷ x ∷ e ∷ f ∷ y ∷ g ∷ h ∷ []) day q =
    let (formed, same) = if_then_some _ _ day q in
    let (year, rest) = both_hold _ _ formed in
    let (da, bcd) = both_hold _ _ year in
    let (db, cd) = both_hold _ _ bcd in
    let (dc, dd) = both_hold _ _ cd in
    let (first, last) = both_hold _ _ rest in
    let (dash, ef) = both_hold _ _ first in
    let (de, df) = both_hold _ _ ef in
    let (dash', gh) = both_hold _ _ last in
    let (dg, dh) = both_hold _ _ gh in
    (
      (
        is_digit-IsDecimal a da,
        (
          is_digit-IsDecimal b db,
          (
            is_digit-IsDecimal c dc,
            (
              is_digit-IsDecimal d dd,
              (
                is_digit-IsDecimal e de,
                (is_digit-IsDecimal f df, (is_digit-IsDecimal g dg, (is_digit-IsDecimal h dh, tt))),
              ),
            ),
          ),
        ),
      ),
      ground arith,
      ground arith,
      subst
          (λ (u : Day).
            u.year ≡ value_of a * 1000 + value_of b * 100 + value_of c * 10 + value_of d)
          same (omega arith),
      subst (λ (u : Day). u.month ≡ value_of e * 10 + value_of f) same (omega arith),
      subst (λ (u : Day). u.day ≡ value_of g * 10 + value_of h) same (omega arith),
    )
date_of-WritesDay _ day q = absurd (cc)

module _ (platform : Platform) (zones : Zones) where
  machines_of-Machines :
      (by_tag : Bool) (fields : Assoc Json) (ids : List String) (tag : Option String)
      → machines_of platform zones by_tag fields ≡ ok (ids, tag)
      → Machines ids tag
  unfolding machines_of
  machines_of-Machines true fields ids tag h =
      let (t, _, k) = >>=-eq-ok (tag_of platform (get "tag" fields)) _ h in
      let (_, made) =
        refuse_if-eq-ok (has_length (get "vmIds" fields)) machines_beside (ok ([], some t)) k in
      tagged t (cc) (cc)
  machines_of-Machines false fields ids tag h =
      let (vms, filled, k) = >>=-eq-ok (filled_list no_machines (get "vmIds" fields)) _ h in
      let (few, k') = refuse_if-eq-ok (ltb machines_limit (length vms)) too_many_machines _ k in
      let (us, read, k'') = >>=-eq-ok (uuids_of vms) _ k' in
      let (_, made) =
        refuse_if-eq-ok (is_truthy (get "tag" fields)) tag_beside
          (ok (distinct (map platform.lower us), none)) k'' in
      let same : distinct (map platform.lower us) ≡ ids = cc in
      let sized : length (map platform.lower us) ≡ length vms =
        length-map platform.lower us ∙ length-uuids_of vms us read in
      let some_vm = filled_list-holds no_machines (get "vmIds" fields) vms filled in
      let (some_id, no_more) = length-distinct (map platform.lower us) (omega arith) in
      listed (subst (λ (xs : List String). 0 < length xs) same some_id)
        (subst (λ (xs : List String). length xs ≤ machines_limit) same
          (at_most (length vms) _ few (omega arith)))
        (cc)

  -- The calendar has the day: Date.UTC makes the same day of it.
  abbrev pub IsReal : Day → Type 0
  IsReal day =
      ((zones.utc_day day).year ≡ day.year)
      × ((zones.utc_day day).month ≡ day.month)
      × ((zones.utc_day day).day ≡ day.day)

  is_date-holds :
      (v : Option Json)
      → is_date platform zones v ≡ true
      → (day : Day) × WritesDay (codes (to_text platform v)) day × IsReal day
  unfolding is_date same_day
  is_date-holds v h = elim (Option-cases (date_of (codes (to_text platform v)))) [
    | inl e ↦ absurd (ground arith)
    | inr (day, e) ↦ (day, date_of-WritesDay _ day e, (ground arith, ground arith, ground arith))
  ]

  -- When a schedule runs: on a date, every day, or on days of the week.
  pub data Times (frequency : Frequency) (weekdays : List ℕ) (run_date : Option Json) : Type 0 where
    on_date :
        (day : Day)
        → frequency ≡ once
        → weekdays ≡ []
        → WritesDay (codes (to_text platform run_date)) day
        → IsReal day
        → Times frequency weekdays run_date
    each_day :
        frequency ≡ daily → weekdays ≡ [] → run_date ≡ none → Times frequency weekdays run_date
    on_days :
        frequency ≡ weekly
        → 0 < length weekdays
        → All (λ d. d ≤ 6) weekdays
        → run_date ≡ none
        → Times frequency weekdays run_date

  weekdays_of-none :
      (frequency : Frequency) (fields : Assoc Json) (days : List ℕ)
      → (refuse_if (has_length (get "weekdays" fields)) days_beside >> ok []) ≡ ok days
      → days ≡ []
  weekdays_of-none frequency fields days h =
      let (_, made) = refuse_if-eq-ok (has_length (get "weekdays" fields)) days_beside (ok []) h in
      cc

  run_date_of-none :
      (fields : Assoc Json) (date : Option Json)
      → (refuse_if (is_truthy (get "runDate" fields)) date_beside >> ok none) ≡ ok date
      → date ≡ none
  run_date_of-none fields date h =
      let (_, made) = refuse_if-eq-ok (is_truthy (get "runDate" fields)) date_beside (ok none) h in
      cc

  Times-parsed :
      (frequency : Frequency) (fields : Assoc Json) (days : List ℕ) (date : Option Json)
      → weekdays_of platform zones frequency fields ≡ ok days
      → run_date_of platform zones frequency fields ≡ ok date
      → Times frequency days date
  unfolding weekdays_of run_date_of
  Times-parsed once fields days date h k =
      let (day, written, real) = is_date-holds date (is_date-kept (get "runDate" fields) date k) in
      on_date day refl (weekdays_of-none once fields days h) written real
    where
      is_date-kept :
          (v date : Option Json)
          → (if is_date platform zones v then ok v else err bad_date) ≡ ok date
          → is_date platform zones date ≡ true
      is_date-kept v d q = elim (Bool-cases (is_date platform zones v)) [
        | inl e ↦
            let same : v ≡ d = ground arith in subst (λ x. is_date platform zones x ≡ true) same e
        | inr e ↦ absurd (cc)
      ]
  Times-parsed daily fields days date h k =
      each_day refl (weekdays_of-none daily fields days h) (run_date_of-none fields date k)
  Times-parsed weekly fields days date h k =
      let (vs, filled, m) = >>=-eq-ok (filled_list bad_days (get "weekdays" fields)) _ h in
      let (ds, read, made) = >>=-eq-ok (days_of vs) (λ x. ok (sorted_days x)) m in
      let (small, sized) = days_of-All vs ds read in
      let (small', some_day) =
        sorted_days-All ds small
          (omega (arith, filled_list-holds bad_days (get "weekdays" fields) vs filled)) in
      let same : sorted_days ds ≡ days = cc in
      on_days refl (subst (λ (x : List ℕ). 0 < length x) same some_day)
        (subst (All (λ d. d ≤ 6)) same small') (run_date_of-none fields date k)

  -- A text of a schedule: not too long, with no invisible characters.
  abbrev pub IsPlain : ℕ → String → Type 0
  IsPlain max s = (units s ≤ max) × (has_control s ≡ false)

  plain_text-IsPlain :
      (label : Label) (max : ℕ) (required : Bool) (raw : Option Json) (s : String)
      → plain_text platform zones label max required raw ≡ ok s
      → IsPlain max s × ((str_eq s "" && required) ≡ false)
  unfolding plain_text check_text
  plain_text-IsPlain label max required raw s h = ground arith

  time_of-is_time : (v : Option Json) (s : String) → time_of v ≡ ok s → is_time (codes s) ≡ true
  unfolding time_of
  time_of-is_time v s h = ground arith

  operation_of-known :
      (v : Option Json) (s : String) → operation_of v ≡ ok s → any (str_eq s) operation_keys ≡ true
  unfolding operation_of
  operation_of-known v s h = ground arith

  -- What an accepted schedule is like.
  pub record IsProper (s : Parsed) : Type 0 where
    pub operation : any (str_eq s.operation) operation_keys ≡ true
    pub time : is_time (codes s.time_of_day) ≡ true
    pub machines : Machines s.vm_ids s.tag
    pub times : Times s.frequency s.weekdays s.run_date
    pub connection : (is_some s.connection_id && not s.by_tag) ≡ false
    pub name : IsPlain name_max s.name
    pub named : str_eq s.name "" ≡ false
    pub description : IsPlain description_max s.description

  basics_of-holds :
      (fields : Assoc Json) (b : Basics)
      → basics_of platform zones fields ≡ ok b
      → (any (str_eq b.operation) operation_keys ≡ true) × (is_time (codes b.time_of_day) ≡ true)
  unfolding basics_of
  basics_of-holds fields b h =
      let (operation, e1, h1) = >>=-eq-ok (operation_of (get "operation" fields)) _ h in
      let (by_tag, _, h2) = >>=-eq-ok (target_of (get "targetKind" fields)) _ h1 in
      let (frequency, _, h3) = >>=-eq-ok (frequency_of (get "frequency" fields)) _ h2 in
      let (time_of_day, e4, h4) = >>=-eq-ok (time_of (get "timeOfDay" fields)) _ h3 in
      let (time_zone, _, h5) = >>=-eq-ok (zone_of zones (get "timeZone" fields)) _ h4 in
      let (enabled, _, h6) = >>=-eq-ok (enabled_of (get "enabled" fields)) _ h5 in
      let known = operation_of-known (get "operation" fields) operation e1 in
      let timed = time_of-is_time (get "timeOfDay" fields) time_of_day e4 in
      let same_operation : operation ≡ b.operation = cc in
      let same_time : time_of_day ≡ b.time_of_day = cc in
      (
        subst (λ o. any (str_eq o) operation_keys ≡ true) same_operation known,
        subst (λ t. is_time (codes t) ≡ true) same_time timed,
      )

  narrowed_by-holds :
      (by_tag : Bool) (fields : Assoc Json) (c : Option String)
      → narrowed_by platform zones by_tag fields ≡ ok c
      → (is_some c && not by_tag) ≡ false
  unfolding narrowed_by
  narrowed_by-holds by_tag fields c h =
      let (d, _, k) = >>=-eq-ok (connection_of platform (get "connectionId" fields)) _ h in
      let (e, made) = refuse_if-eq-ok (is_some d && not by_tag) connection_beside (ok d) k in
      let same : d ≡ c = cc in subst (λ x. (is_some x && not by_tag) ≡ false) same e

  parse_fields-IsProper :
      (fields : Assoc Json) (s : Parsed) → parse_fields platform zones fields ≡ ok s → IsProper s
  unfolding parse_fields
  parse_fields-IsProper fields s h =
      let (b, e1, h1) = >>=-eq-ok (basics_of platform zones fields) _ h in
      let (machines, e2, h2) = >>=-eq-ok (machines_of platform zones b.by_tag fields) _ h1 in
      let (connection, e3, h3) = >>=-eq-ok (narrowed_by platform zones b.by_tag fields) _ h2 in
      let (weekdays, e4, h4) = >>=-eq-ok (weekdays_of platform zones b.frequency fields) _ h3 in
      let (run_date, e5, h5) = >>=-eq-ok (run_date_of platform zones b.frequency fields) _ h4 in
      let (name, e6, h6) =
        >>=-eq-ok (plain_text platform zones name_label name_max true (get "name" fields)) _ h5 in
      let (description, e7, h7) =
        >>=-eq-ok
          (plain_text platform zones description_label description_max false
            (get "description" fields))
          _ h6 in
      let (known, timed) = basics_of-holds fields b e1 in
      let (plain_name, not_blank) =
        plain_text-IsPlain name_label name_max true (get "name" fields) name e6 in
      let (plain_description, _) =
        plain_text-IsPlain description_label description_max false (get "description" fields)
          description e7 in
      subst IsProper (ok_eq _ s h7) (record {
        operation = known;
        time = timed;
        machines = machines_of-Machines b.by_tag fields machines.0 machines.1 e2;
        times = Times-parsed b.frequency fields weekdays run_date e4 e5;
        connection = narrowed_by-holds b.by_tag fields connection e3;
        name = plain_name;
        named = and_true (str_eq name "") not_blank;
        description = plain_description;
      })

  -- A schedule that a request makes, or a change of another schedule, has a known operation, a time of day,
  -- from one to fifty machines or a tag, a connection only with a tag, a name and texts that are not too long and have no
  -- invisible characters; and it is for every day, for some days of the week, or for a date: a value whose text, as
  -- String makes it of any value, is YYYY-MM-DD and writes a day that the calendar has.
  pub parsed-IsProper :
      (existing : Parsed) (body : Option Json) (s : Parsed)
      → (parse_schedule platform zones body ≡ ok s)
        ⊎ (merge_schedule platform zones existing body ≡ ok s)
      → IsProper s
  unfolding parse_schedule merge_schedule
  parsed-IsProper existing body s (inl h) =
      let (fields, _, k) = >>=-eq-ok (request_fields platform zones body) _ h in
      parse_fields-IsProper fields s k
  parsed-IsProper existing body s (inr h) =
      let (fields, _, k) = >>=-eq-ok (request_fields platform zones body) _ h in
      let (_, l) = refuse_if-eq-ok (length fields == 0) nothing_to_change _ k in
      parse_fields-IsProper _ s l
