-- ===== src/Inventory/TagEffects.antt =====
-- What a request does to the tags of every resource.
use nuvrion.Common.{
  ◌≤◌, ◌≡◌, refl, sym, ap, subst, arith, ◌∙◌, ◌⊎◌, String, true, false, ◌&&◌, Option, none, List,
  [], ◌∷◌, length, or_else, str_eq, eq_iff, eq_refl, get, put, remove, values, get-put, get-remove,
  Assoc, All, All-get, Bool-cases, Option-cases, inl, inr, ltb, if◌then◌else◌,
}
use nuvrion.Common.Results.{ok, >>=-eq-ok, refuse_if-eq-ok}
use nuvrion.Inventory.TagRules.{per_resource}
use nuvrion.Inventory.TagRequest.{Operation, includes}
use nuvrion.Inventory.TagPlan.{
  Progress, Entry, progress_of, entry_of, is_empty, tags_of, sort_by_key, plan_resources,
}
use nuvrion.Inventory.TagStore.{map_of, apply_entry, apply_plan}
use nuvrion.Inventory.TagMaps.{Distinct, get-sort_by_key, Distinct-sort_by_key, get-map_of}
use nuvrion.Inventory.TagProgress.{
  expected_value, get-progress_of, Distinct-progress_of, expected_value-quiet,
}

-- The tags of a resource, and the value of one of them.
abbrev pub tags_at : String → Assoc (Assoc String) → Assoc String
tags_at id tags = or_else (get id tags) []

abbrev pub value_at : String → String → Assoc (Assoc String) → Option String
value_at id k tags = get k (tags_at id tags)

-- No key twice, no more tags than allowed, and no resource without tags.
pub record IsTidy (m : Assoc String) : Type 0 where
  pub distinct : Distinct m
  pub few : length m ≤ per_resource
  pub some_tag : is_empty m ≡ false

pub tags_at-Distinct :
    (id : String) (tags : Assoc (Assoc String))
    → All IsTidy (values tags)
    → Distinct (tags_at id tags)
tags_at-Distinct id tags h = elim (Option-cases (get id tags)) [
  | inl e ↦ rw e tt
  | inr (m, e) ↦ rw e (All-get IsTidy id tags m h e).distinct
]

-- The tags that a plan lists, read back.
listed :
    (k : String) (m : Assoc String)
    → Distinct m
    → get k (map_of (tags_of (sort_by_key m)) []) ≡ get k m
unfolding get
listed k m h =
    ground (arith, get-map_of k (sort_by_key m) [] (Distinct-sort_by_key m h), get-sort_by_key k m)

listed-none :
    (k : String) (m : Assoc String) → is_empty (tags_of (sort_by_key m)) ≡ true → get k m ≡ none
unfolding get tags_of
listed-none k m h = by_sorted (sort_by_key m) refl h
  where
    by_sorted :
        (n : Assoc String) → sort_by_key m ≡ n → is_empty (tags_of n) ≡ true → get k m ≡ none
    by_sorted [] e q = sym (get-sort_by_key k m) ∙ ap (get k) e
    by_sorted ((j, v) ∷ n) e q = cc

value_at-put :
    (id j k : String) (m : Assoc String) (tags : Assoc (Assoc String))
    → value_at j k (put id m tags) ≡ (if str_eq id j then get k m else value_at j k tags)
value_at-put id j k m tags = elim (Bool-cases (str_eq id j)) [
  | inl e ↦ rw (get-put id j m tags, e) refl
  | inr e ↦ rw (get-put id j m tags, e) refl
]

value_at-remove :
    (id j k : String) (tags : Assoc (Assoc String))
    → value_at j k (remove id tags) ≡ (if str_eq id j then none else value_at j k tags)
unfolding get
value_at-remove id j k tags = elim (Bool-cases (str_eq id j)) [
  | inl e ↦ rw (get-remove id j tags, e) refl
  | inr e ↦ rw (get-remove id j tags, e) refl
]

value_at-apply_entry :
    (id j k : String) (p : Progress) (cur : Assoc (Assoc String))
    → Distinct p.after
    → value_at j k (apply_entry (entry_of id p) cur) ≡ (
        if str_eq id j && (entry_of id p).changed_anything then get k p.after else value_at j k cur)
unfolding apply_entry entry_of
value_at-apply_entry id j k p cur h = elim (Bool-cases (entry_of id p).changed_anything) [
  | inr quiet ↦ elim (Bool-cases (str_eq id j)) [
    | inl e ↦ rw (quiet, apply_entry, e) refl
    | inr e ↦ rw (quiet, apply_entry, e) refl
  ]
  | inl loud ↦ elim (Bool-cases (is_empty (tags_of (sort_by_key p.after)))) [
    | inl q ↦
        rw (loud, apply_entry, q)
          (ground (arith, value_at-remove id j k cur, listed-none k p.after q))
    | inr q ↦
        rw (loud, apply_entry, q)
          (ground (
            arith,
            value_at-put id j k (map_of (tags_of (sort_by_key p.after)) []) cur,
            listed k p.after h,
          ))
  ]
]

-- The value that a resource's tag is expected to have, from what the tags were.
abbrev pub wanted_value : Assoc (Assoc String) → Operation → String → String → Option String
wanted_value tags op j k = expected_value (tags_at j tags) op k

-- A plan for one more resource: its tags are not too many, and the rest is planned.
pub plan_resources-ok :
    (orig : Assoc (Assoc String)) (op : Operation) (id : String) (ids : List String)
    (plan : List Entry)
    → plan_resources orig op (id ∷ ids) ≡ ok plan
    → (rest : List Entry) × (ltb per_resource (length (progress_of (tags_at id orig) op).after)
        ≡ false)
      × (plan_resources orig op ids ≡ ok rest)
      × (plan ≡ entry_of id (progress_of (tags_at id orig) op) ∷ rest)
unfolding plan_resources
plan_resources-ok orig op id ids plan e =
    let (few, chain) = refuse_if-eq-ok _ _ _ e in
    let (rest, later, whole) = >>=-eq-ok (plan_resources orig op ids) _ chain in
    (rest, few, later, cc)

module _ (orig : Assoc (Assoc String)) (op : Operation) (j k : String)
    (tidy : All IsTidy (values orig)) where
  value_at-entry_own :
      (cur : Assoc (Assoc String))
      → (value_at j k cur ≡ value_at j k orig) ⊎ (value_at j k cur ≡ wanted_value orig op j k)
      → value_at j k (apply_entry (entry_of j (progress_of (tags_at j orig) op)) cur)
        ≡ wanted_value orig op j k
  unfolding entry_of
  value_at-entry_own cur h =
      let p = progress_of (tags_at j orig) op in
      let distinct = Distinct-progress_of (tags_at j orig) op (tags_at-Distinct j orig tidy) in
      elim (Bool-cases (entry_of j p).changed_anything) [
        | inl loud ↦ ground (
          arith,
          value_at-apply_entry j j k p cur distinct,
          eq_refl j,
          get-progress_of (tags_at j orig) op k,
        )
        | inr quiet ↦ ground (
          arith,
          value_at-apply_entry j j k p cur distinct,
          expected_value-quiet (tags_at j orig) op k,
        )
      ]

  -- One resource: its own tag gets the wanted value, if it had that or what it was; others keep theirs.
  value_at-entry :
      (id : String) (cur : Assoc (Assoc String))
      → (value_at j k cur ≡ value_at j k orig) ⊎ (value_at j k cur ≡ wanted_value orig op j k)
      → value_at j k (apply_entry (entry_of id (progress_of (tags_at id orig) op)) cur)
        ≡ (if str_eq id j then wanted_value orig op j k else value_at j k cur)
  value_at-entry id cur h = elim (Bool-cases (str_eq id j)) [
    | inl e ↦
        let same : id ≡ j = (eq_iff id j).0 e in
        rw e (
          subst
            (λ i.
              value_at j k (apply_entry (entry_of i (progress_of (tags_at i orig) op)) cur)
              ≡ wanted_value orig op j k)
            (sym same) (value_at-entry_own cur h))
    | inr e ↦
        rw
          (
            value_at-apply_entry id j k (progress_of (tags_at id orig) op) cur
                (Distinct-progress_of (tags_at id orig) op (tags_at-Distinct id orig tidy)),
            e,
          )
          refl
  ]

  pub value_at-plan :
      (ids : List String) (plan : List Entry) (cur : Assoc (Assoc String))
      → plan_resources orig op ids ≡ ok plan
      → (value_at j k cur ≡ value_at j k orig) ⊎ (value_at j k cur ≡ wanted_value orig op j k)
      → value_at j k (apply_plan plan cur)
        ≡ (if includes ids j then wanted_value orig op j k else value_at j k cur)
  unfolding plan_resources apply_plan
  value_at-plan [] plan cur e h = let same : [] ≡ plan = cc in rw (← same) refl
  value_at-plan (id ∷ ids) plan cur e h =
      let (rest, few, later, whole) = plan_resources-ok orig op id ids plan e in
      let once = value_at-entry id cur h in
      let cur' = apply_entry (entry_of id (progress_of (tags_at id orig) op)) cur in
      elim (Bool-cases (str_eq id j)) [
        | inl q ↦
            let then_wanted : value_at j k cur' ≡ wanted_value orig op j k = once ∙ (rw q refl) in
            rw whole (
              ground (
                arith,
                eq_iff id j,
                eq_iff j id,
                value_at-plan ids rest cur' later (inr then_wanted),
              ))
        | inr q ↦
            let as_before : value_at j k cur' ≡ value_at j k cur = once ∙ (rw q refl) in
            rw whole (
              ground (
                arith,
                eq_iff id j,
                eq_iff j id,
                value_at-plan ids rest cur' later (rw as_before h),
              ))
      ]
