-- ===== src/Inventory/TagTyping.antt =====
-- What a request that parseTagOperation accepts is like (modules/inventory/src/tag-rules.js).
use nuvrion.Common.{
  ◌+◌, ◌≤◌, ◌≡◌, refl, sym, subst, arith, String, true, false, ◌&&◌, ◌||◌, Option, none, some, List,
  [], ◌∷◌, ◌++◌, map, length, str_eq, get, put, keys, Assoc, All, All-snoc, length-append,
  Bool-cases, Option-cases, inl, inr, ltb, ◌==◌,
}
use nuvrion.Common.Results.{ok, err, >>=-eq-ok, refuse_if-eq-ok}
use nuvrion.Common.Text.{trim, is_uuid}
use nuvrion.Common.Json.{
  Json, null, bool, int, other_number, array, object, text, Platform, to_text, object_of, array_of,
  unknown_field,
}
use nuvrion.Inventory.TagRules.{
  too_many_resources, nothing_to_change, too_many_changes, no_resources, not_object,
  bad_resource_id, unknown_field_named, bad_setting, set_twice, set_and_removed, check_key,
  normalise_key, normalise_value, resources_per_request, changes_per_request,
}
use nuvrion.Inventory.TagMaps.{length-put}
use nuvrion.Inventory.TagRequest.{
  Operation, includes, distinct_onto, distinct, resource_ids_of, list_or_empty, settings_of,
  removals_of, parse_changes, parse_fields, parse_tag_operation,
}

-- A key that normaliseKey lets through unchanged.
abbrev pub IsKey : String → Type 0
IsKey key = check_key key ≡ ok key

-- An operation within the limits: its keys are keys, and none is both set and removed.
pub record IsWellFormed (op : Operation) : Type 0 where
  pub some_resource : 1 ≤ length op.resource_ids
  pub few_resources : length op.resource_ids ≤ resources_per_request
  pub few_settings : length op.settings ≤ changes_per_request
  pub few_removals : length op.removals ≤ changes_per_request
  pub setting_keys : All IsKey (keys op.settings)
  pub removal_keys : All IsKey op.removals
  pub apart : All (λ key. get key op.settings ≡ none) op.removals

check_key-same : (key : String) (k : String) → check_key key ≡ ok k → k ≡ key
unfolding check_key
check_key-same key k e = ground arith

normalise_key-IsKey :
    (platform : Platform) (raw : Option Json) (k : String)
    → normalise_key platform raw ≡ ok k
    → IsKey k
unfolding normalise_key
normalise_key-IsKey platform raw k e =
    let same = check_key-same (platform.lower (trim (to_text platform raw))) k e in
    subst (λ t. check_key t ≡ ok k) (sym same) e

All-keys-put :
    (k v : String) (m : Assoc String) → IsKey k → All IsKey (keys m) → All IsKey (keys (put k v m))
unfolding put
All-keys-put k v [] p h = (p, tt)
All-keys-put k v ((j, w) ∷ m) p h = elim (Bool-cases (str_eq j k)) [
  | inl e ↦ rw (e, put) h
  | inr e ↦ rw (e, put) (h.0, All-keys-put k v m p h.1)
]

pub length-distinct_onto :
    (seen xs : List String)
    → (length seen ≤ length (distinct_onto seen xs))
      × (length (distinct_onto seen xs) ≤ length seen + length xs)
unfolding distinct_onto
length-distinct_onto seen [] = (omega arith, omega arith)
length-distinct_onto seen (x ∷ xs) = elim (Bool-cases (includes seen x)) [
  | inl e ↦
      let (a, b) = length-distinct_onto seen xs in rw (e, distinct_onto) (a, (omega (arith, b)))
  | inr e ↦
      let (a, b) = length-distinct_onto (seen ++ x ∷ []) xs in
      rw (e, distinct_onto)
        (
          (omega (arith, a, length-append seen (x ∷ []))),
          (omega (arith, b, length-append seen (x ∷ []))),
        )
]

length-map : (f : String → String) (xs : List String) → length (map f xs) ≡ length xs
length-map f [] = refl
length-map f (x ∷ xs) = omega (arith, length-map f xs)

length-distinct-some : (xs : List String) → ltb 0 (length xs) ≡ true → 1 ≤ length (distinct xs)
unfolding distinct distinct_onto
length-distinct-some [] h = ground arith
length-distinct-some (x ∷ xs) h = omega (arith, (length-distinct_onto (x ∷ []) xs).0)

length-resource_ids_of :
    (given : List Json) (ids : List String)
    → resource_ids_of given ≡ ok ids
    → length ids ≡ length given
unfolding resource_ids_of
length-resource_ids_of [] ids e = let same : [] ≡ ids = cc in rw (← same) refl
length-resource_ids_of (text id ∷ rest) ids e = elim (Bool-cases (is_uuid id)) [
  | inr q ↦ let no : err bad_resource_id ≡ ok ids = rw q at e in cc
  | inl q ↦
      let (others, later, whole) = >>=-eq-ok (resource_ids_of rest) _ (rw q at e) in
      let same : id ∷ others ≡ ids = cc in
      rw (← same) (omega (arith, length-resource_ids_of rest others later))
]
length-resource_ids_of (null ∷ rest) ids e = cc
length-resource_ids_of (other_number ∷ rest) ids e = cc
length-resource_ids_of (bool b ∷ rest) ids e = cc
length-resource_ids_of (int n ∷ rest) ids e = cc
length-resource_ids_of (array vs ∷ rest) ids e = cc
length-resource_ids_of (object fs ∷ rest) ids e = cc

module _ (platform : Platform) where
  settings_of-ok :
      (items : List Json) (settings final : Assoc String)
      → All IsKey (keys settings)
      → settings_of platform items settings ≡ ok final
      → All IsKey (keys final) × (length final ≤ length settings + length items)
  unfolding settings_of
  settings_of-ok [] settings final h e =
      let same : settings ≡ final = cc in rw (← same) (h, (omega arith))
  settings_of-ok (item ∷ items) settings final h e = elim (Option-cases (object_of (some item))) [
    | inl q ↦ let no : err bad_setting ≡ ok final = rw (q, settings_of) at e in cc
    | inr (fields, q) ↦
        let (key, known, e1) =
          >>=-eq-ok (normalise_key platform (get "key" fields)) _ (rw (q, settings_of) at e) in
        elim (Option-cases (get key settings)) [
          | inl free ↦
              let (value, good, e2) =
                >>=-eq-ok (normalise_value platform (get "value" fields)) _ (rw free at e1) in
              let (a, b) =
                settings_of-ok items (put key value settings) final
                  (All-keys-put key value settings (normalise_key-IsKey platform _ key known) h)
                  e2 in
              (a, (omega (arith, b, length-put key value settings)))
          | inr (earlier, taken) ↦ let no : err (set_twice key) ≡ ok final = rw taken at e1 in cc
        ]
  ]

  removals_of-ok :
      (settings : Assoc String) (items : List Json) (removals final : List String)
      → All IsKey removals
      → All (λ key. get key settings ≡ none) removals
      → removals_of platform settings items removals ≡ ok final
      → All IsKey final
        × All (λ key. get key settings ≡ none) final
        × (length final ≤ length removals + length items)
  unfolding removals_of
  removals_of-ok settings [] removals final h g e =
      let same : removals ≡ final = cc in rw (← same) (h, g, (omega arith))
  removals_of-ok settings (text raw ∷ items) removals final h g e =
      let (key, known, e1) = >>=-eq-ok (normalise_key platform (some (text raw))) _ e in
      let good = normalise_key-IsKey platform (some (text raw)) key known in
      elim (Option-cases (get key settings)) [
        | inr (value, taken) ↦ let no : err (set_and_removed key) ≡ ok final = rw taken at e1 in cc
        | inl free ↦ elim (Bool-cases (includes removals key)) [
          | inl there ↦
              let (a, b, c) =
                removals_of-ok settings items removals final h g (rw (free, there) at e1) in
              (a, b, (omega (arith, c)))
          | inr new ↦
              let (a, b, c) =
                removals_of-ok settings items (removals ++ key ∷ []) final
                  (All-snoc IsKey removals key h good)
                  (All-snoc (λ k. get k settings ≡ none) removals key g free)
                  (rw (free, new) at e1) in
              (a, b, (omega (arith, c, length-append removals (key ∷ []))))
        ]
      ]
  removals_of-ok settings (null ∷ items) removals final h g e = cc
  removals_of-ok settings (other_number ∷ items) removals final h g e = cc
  removals_of-ok settings (bool b ∷ items) removals final h g e = cc
  removals_of-ok settings (int n ∷ items) removals final h g e = cc
  removals_of-ok settings (array vs ∷ items) removals final h g e = cc
  removals_of-ok settings (object fs ∷ items) removals final h g e = cc

  parse_changes-ok :
      (set remove : List Json) (ids : List String) (op : Operation)
      → ltb 0 (length ids) ≡ true
      → ltb resources_per_request (length ids) ≡ false
      → ltb changes_per_request (length set) || ltb changes_per_request (length remove) ≡ false
      → parse_changes platform set remove ids ≡ ok op
      → IsWellFormed op
  unfolding parse_changes distinct
  parse_changes-ok set remove ids op some_id few_ids few e =
      let (settings, s_ok, e1) = >>=-eq-ok (settings_of platform set []) _ e in
      let (removals, r_ok, e2) = >>=-eq-ok (removals_of platform settings remove []) _ e1 in
      let (a, b) = settings_of-ok set [] settings tt s_ok in
      let (c, d, f) = removals_of-ok settings remove [] removals tt tt r_ok in
      let made : Operation = record {
        resource_ids = distinct (map platform.lower ids);
        settings = settings;
        removals = removals;
      } in
      let same : made ≡ op = cc in
      subst IsWellFormed same (record {
        some_resource =
            length-distinct-some (map platform.lower ids)
              (rw (length-map platform.lower ids) some_id);
        few_resources = ground (
          arith,
          length-map platform.lower ids,
          (length-distinct_onto [] (map platform.lower ids)).1,
        );
        few_settings = ground arith;
        few_removals = ground arith;
        setting_keys = a;
        removal_keys = c;
        apart = d;
      })

  parse_fields-ok :
      (fields : Assoc Json) (op : Operation)
      → parse_fields platform fields ≡ ok op
      → IsWellFormed op
  unfolding parse_fields
  parse_fields-ok fields op e =
      let (given, g, e1) =
        >>=-eq-ok
          (elim (array_of (get "resourceIds" fields)) [ none ↦ err no_resources | some vs ↦ ok vs ])
          _ e in
      let (some_given, e2) = refuse_if-eq-ok (length given == 0) no_resources _ e1 in
      let (few_given, e3) =
        refuse_if-eq-ok (ltb resources_per_request (length given)) too_many_resources _ e2 in
      let (ids, i, e4) = >>=-eq-ok (resource_ids_of given) _ e3 in
      let (set, s, e5) = >>=-eq-ok (list_or_empty (get "set" fields)) _ e4 in
      let (remove, r, e6) = >>=-eq-ok (list_or_empty (get "remove" fields)) _ e5 in
      let (some_change, e7) =
        refuse_if-eq-ok (length set == 0 && length remove == 0) nothing_to_change _ e6 in
      let (few_changes, e8) =
        refuse_if-eq-ok
          (ltb changes_per_request (length set) || ltb changes_per_request (length remove))
          too_many_changes _ e7 in
      let same = length-resource_ids_of given ids i in
      parse_changes-ok set remove ids op (ground arith) (rw same few_given) few_changes e8

-- A request that parseTagOperation accepts names at least one and at most 200 resources, sets and removes
-- at most 20 tags each, with keys of the form that normaliseKey asks for, and removes no key that it sets.
pub parse_tag_operation-IsWellFormed :
    (platform : Platform) (body : Option Json) (op : Operation)
    → parse_tag_operation platform body ≡ ok op
    → IsWellFormed op
unfolding parse_tag_operation
parse_tag_operation-IsWellFormed platform body op e = elim (Option-cases (object_of body)) [
  | inl q ↦ let no : err not_object ≡ ok op = rw (q, parse_tag_operation) at e in cc
  | inr (fields, q) ↦
      elim (Option-cases (unknown_field ("resourceIds" ∷ "set" ∷ "remove" ∷ []) fields)) [
        | inr (name, u) ↦
            let no : err (unknown_field_named name) ≡ ok op = rw (q, u, parse_tag_operation) at e in
            cc
        | inl u ↦ parse_fields-ok platform fields op (rw (q, u, parse_tag_operation) at e)
      ]
]
