-- ===== src/Inventory/TagProgress.antt =====
-- What a request makes of the tags of one resource.
use nuvrion.Common.{
  ◌≡◌, refl, arith, String, true, false, ◌&&◌, Option, none, some, List, [], ◌∷◌, ◌++◌, is_some,
  str_eq, eq_iff, get, get-put, get-remove, Assoc, Bool-cases, Option-cases, inl, inr,
  if◌then◌else◌,
}
use nuvrion.Inventory.TagRequest.{Operation, includes}
use nuvrion.Inventory.TagPlan.{
  Progress, tag_of, set_tag, set_tags, remove_tag, remove_tags, progress_of, is_empty,
}
use nuvrion.Inventory.TagMaps.{Distinct, Distinct-put, Distinct-remove}

-- The value that a list of settings gives a key: that of its last setting.
unfoldable pub last_value : String → Assoc String → Option String
last_value k [] = none
last_value k ((j, v) ∷ rest) = elim (last_value k rest) [
  | some w ↦ some w
  | none ↦ if str_eq j k then some v else none
]

-- The value of a key after a request: none if it was there and is removed, else what it is set to, else
-- what it was.
unfoldable pub expected_value : Assoc String → Operation → String → Option String
expected_value before op k =
    if includes op.removals k && is_some (get k before)
    then none
    else elim (last_value k op.settings) [ none ↦ get k before | some v ↦ some v ]

is_empty-snoc {ℓ} : {A : Type ℓ} (xs : List A) (x : A) → is_empty (xs ++ x ∷ []) ≡ false
is_empty-snoc [] x = refl
is_empty-snoc (y ∷ ys) x = refl

module _ (before : Assoc String) where
  get-set_tags :
      (k : String) (settings : Assoc String) (p : Progress)
      → get k (set_tags before settings p).after
        ≡ (elim (last_value k settings) as (λ x. Option String) [
          | none ↦ get k p.after
          | some v ↦ some v
        ])
  unfolding set_tags set_tag last_value
  get-set_tags k [] p = refl
  get-set_tags k ((j, v) ∷ rest) p =
      ground (arith, get-set_tags k rest (set_tag before j v p), get-put j k v p.after)

  get-remove_tag :
      (k j : String) (p : Progress)
      → get k (remove_tag before j p).after
        ≡ (if str_eq j k && is_some (get j before) then none else get k p.after)
  unfolding remove_tag
  get-remove_tag k j p = ground (arith, get-remove j k p.after)

  get-remove_tags :
      (k : String) (keys : List String) (p : Progress)
      → get k (remove_tags before keys p).after
        ≡ (if includes keys k && is_some (get k before) then none else get k p.after)
  unfolding remove_tags
  get-remove_tags k [] p = refl
  get-remove_tags k (j ∷ keys) p = ground (
    arith,
    eq_iff j k,
    eq_iff k j,
    get-remove_tags k keys (remove_tag before j p),
    get-remove_tag k j p,
  )

  -- The loops leave each key with its expected value.
  pub get-progress_of :
      (op : Operation) (k : String)
      → get k (progress_of before op).after ≡ expected_value before op k
  unfolding progress_of expected_value
  get-progress_of op k = ground (
    arith,
    get-remove_tags k op.removals (
        set_tags before op.settings
          (record { added = []; changed = []; removed = []; after = before })),
    get-set_tags k op.settings (record { added = []; changed = []; removed = []; after = before }),
  )

  Distinct-set_tags :
      (settings : Assoc String) (p : Progress)
      → Distinct p.after
      → Distinct (set_tags before settings p).after
  unfolding set_tags set_tag
  Distinct-set_tags [] p h = h
  Distinct-set_tags ((j, v) ∷ rest) p h =
      Distinct-set_tags rest (set_tag before j v p) (Distinct-put j v p.after h)

  Distinct-remove_tag :
      (j : String) (p : Progress) → Distinct p.after → Distinct (remove_tag before j p).after
  unfolding remove_tag
  Distinct-remove_tag j p h = elim (Option-cases (get j before)) [
    | inl e ↦ rw (e, remove_tag) h
    | inr (v, e) ↦ rw (e, remove_tag) (Distinct-remove j p.after h)
  ]

  Distinct-remove_tags :
      (keys : List String) (p : Progress)
      → Distinct p.after
      → Distinct (remove_tags before keys p).after
  unfolding remove_tags
  Distinct-remove_tags [] p h = h
  Distinct-remove_tags (j ∷ keys) p h =
      Distinct-remove_tags keys (remove_tag before j p) (Distinct-remove_tag j p h)

  pub Distinct-progress_of :
      (op : Operation) → Distinct before → Distinct (progress_of before op).after
  unfolding progress_of
  Distinct-progress_of op h = Distinct-remove_tags op.removals _ (Distinct-set_tags op.settings _ h)

  set_tag-quiet :
      (j v : String) (p : Progress)
      → (is_empty (set_tag before j v p).added && is_empty (set_tag before j v p).changed) ≡ true
      → (is_empty p.added && is_empty p.changed ≡ true) × (get j before ≡ some v)
  unfolding set_tag
  set_tag-quiet j v p h = elim (Option-cases (get j before)) [
    | inl e ↦ absurd (ground (arith, is_empty-snoc p.added (tag_of j v)))
    | inr (old, e) ↦ elim (Bool-cases (str_eq old v)) [
      | inl q ↦ ground (arith, eq_iff old v)
      | inr q ↦
          absurd
            (ground (arith, is_empty-snoc p.changed (record { key = j; from = old; value = v })))
    ]
  ]

  -- Nothing is reported as added or changed only if every setting is what the resource had.
  set_tags-quiet :
      (k : String) (settings : Assoc String) (p : Progress)
      → (is_empty (set_tags before settings p).added
          && is_empty (set_tags before settings p).changed)
        ≡ true
      → (is_empty p.added && is_empty p.changed ≡ true)
        × ((elim (last_value k settings) as (λ x. Option String) [
          | none ↦ get k before
          | some v ↦ some v
        ])
            ≡ get k before)
  unfolding set_tags last_value
  set_tags-quiet k [] p h = (h, refl)
  set_tags-quiet k ((j, v) ∷ rest) p h =
      let (quiet, same) = set_tags-quiet k rest (set_tag before j v p) h in
      let (before_quiet, was) = set_tag-quiet j v p quiet in
      (before_quiet, ground (arith, eq_iff j k))

  -- Nothing is reported as removed only if the resource had none of the keys.
  remove_tags-quiet :
      (k : String) (keys : List String) (p : Progress)
      → is_empty (remove_tags before keys p).removed ≡ true
      → (is_empty p.removed ≡ true) × (includes keys k && is_some (get k before) ≡ false)
  unfolding remove_tags remove_tag
  remove_tags-quiet k [] p h = (h, refl)
  remove_tags-quiet k (j ∷ keys) p h =
      let (quiet, none_left) = remove_tags-quiet k keys (remove_tag before j p) h in
      elim (Option-cases (get j before)) [
        | inl e ↦ (ground arith, ground (arith, eq_iff k j))
        | inr (old, e) ↦ absurd (ground (arith, is_empty-snoc p.removed (tag_of j old)))
      ]

  remove_tags-others :
      (keys : List String) (p : Progress)
      → ((remove_tags before keys p).added ≡ p.added)
        × ((remove_tags before keys p).changed ≡ p.changed)
  unfolding remove_tags remove_tag
  remove_tags-others [] p = (refl, refl)
  remove_tags-others (j ∷ keys) p =
      let (a, c) = remove_tags-others keys (remove_tag before j p) in ground arith

  -- A request that reports no change of a resource leaves each of its tags as it was.
  pub expected_value-quiet :
      (op : Operation) (k : String)
      → (is_empty (progress_of before op).added && is_empty (progress_of before op).changed) ≡ true
      → is_empty (progress_of before op).removed ≡ true
      → expected_value before op k ≡ get k before
  unfolding progress_of expected_value
  expected_value-quiet op k h r =
      let start : Progress = record { added = []; changed = []; removed = []; after = before } in
      let (a, c) = remove_tags-others op.removals (set_tags before op.settings start) in
      let (quiet, none_left) =
        remove_tags-quiet k op.removals (set_tags before op.settings start) r in
      let (begun, same) = set_tags-quiet k op.settings start (rw (← a, ← c) h) in ground arith
