-- ===== src/Inventory/TagApply.antt =====
-- `apply` of modules/inventory/src/tag-service.js, from the request to the stored tags.
use nuvrion.Common.{
  ◌≡◌, refl, ap, arith, ◌∙◌, String, Bool, true, false, Option, List, [], ◌∷◌, length, any, put,
  values, Assoc, All, All-values-put, All-values-remove, Bool-cases, inl, inr, ltb, if◌then◌else◌,
}
use nuvrion.Common.Results.{ok, >>=-eq-ok}
use nuvrion.Common.Json.{Json, Platform}
use nuvrion.Inventory.TagRules.{per_resource, Tag}
use nuvrion.Inventory.TagRequest.{Operation, includes, parse_tag_operation}
use nuvrion.Inventory.TagPlan.{
  Entry, progress_of, entry_of, is_empty, tags_of, sort_by_key, plan_resources, plan_tag_changes,
}
use nuvrion.Inventory.TagStore.{
  TagService, persist, map_of, apply_entry, apply_plan, apply_operation, apply,
}
use nuvrion.Inventory.TagMaps.{Distinct, length-sort_by_key, Distinct-map_of, length-map_of}
use nuvrion.Inventory.TagProgress.{Distinct-progress_of}
use nuvrion.Inventory.TagEffects.{
  tags_at, value_at, IsTidy, tags_at-Distinct, wanted_value, plan_resources-ok, value_at-plan,
}

persisted-tags : (b : Bool) (s : TagService) → (if b then persist s else s).tags ≡ s.tags
unfolding persist
persisted-tags true s = refl
persisted-tags false s = refl

-- What a request that succeeds went through.
apply-ok :
    (platform : Platform) (body : Option Json) (s s' : TagService) (plan : List Entry)
    (op : Operation)
    → parse_tag_operation platform body ≡ ok op
    → apply platform body s ≡ ok (plan, s')
    → (plan_resources s.tags op op.resource_ids ≡ ok plan) × (s'.tags ≡ apply_plan plan s.tags)
unfolding apply apply_operation plan_tag_changes
apply-ok platform body s s' plan op p e =
    let (op', parsed, run) = >>=-eq-ok (parse_tag_operation platform body) _ e in
    let same : op' ≡ op = cc in
    let (made, planned, rest) = >>=-eq-ok (plan_resources s.tags op' op'.resource_ids) _ run in
    let service : TagService = record s { tags = apply_plan made s.tags } in
    let after = if any (λ entry. entry.changed_anything) made then persist service else service in
    let stored : s' ≡ after = cc in
    let all : made ≡ plan = cc in
    (
      cc,
      ap (λ t. t.tags) stored
          ∙ (persisted-tags (any (λ entry. entry.changed_anything) made) service ∙ (rw all refl)),
    )

-- Of a service that keeps no empty and no repeated tags: after a request, a resource that it names has for
-- each key the value that the request gives it, or none if it had the key and the request removes it, or
-- what it had; every other resource keeps its tags.
pub apply-value_at :
    (platform : Platform) (body : Option Json) (s s' : TagService) (plan : List Entry)
    (op : Operation) (id k : String)
    → All IsTidy (values s.tags)
    → parse_tag_operation platform body ≡ ok op
    → apply platform body s ≡ ok (plan, s')
    → value_at id k s'.tags
      ≡ (if includes op.resource_ids id then wanted_value s.tags op id k else value_at id k s.tags)
apply-value_at platform body s s' plan op id k tidy p e =
    let (planned, stored) = apply-ok platform body s s' plan op p e in
    rw stored (value_at-plan s.tags op id k tidy op.resource_ids plan s.tags planned (inl refl))

put-kept : (k v : String) (m : Assoc String) → is_empty (put k v m) ≡ false
unfolding put
put-kept k v [] = refl
put-kept k v ((j, w) ∷ m) = ground arith

map_of-kept :
    (ts : List Tag) (m : Assoc String) → is_empty m ≡ false → is_empty (map_of ts m) ≡ false
unfolding map_of
map_of-kept [] m h = h
map_of-kept (t ∷ ts) m h = map_of-kept ts (put t.key t.value m) (put-kept t.key t.value m)

-- Tags without repeats, not too many and not none, are tidy when they are listed and read back.
listed-IsTidy :
    (m : Assoc String)
    → Distinct m
    → ltb per_resource (length m) ≡ false
    → is_empty (tags_of (sort_by_key m)) ≡ false
    → IsTidy (map_of (tags_of (sort_by_key m)) [])
unfolding Distinct map_of
listed-IsTidy m d few q = record {
  distinct = Distinct-map_of (sort_by_key m) [] tt;
  few = ground (arith, length-map_of (sort_by_key m) [], length-sort_by_key m);
  some_tag = by_tags (tags_of (sort_by_key m)) q;
}
  where
    by_tags : (ts : List Tag) → is_empty ts ≡ false → is_empty (map_of ts []) ≡ false
    by_tags [] e = cc
    by_tags (t ∷ ts) e = map_of-kept ts (put t.key t.value []) (put-kept t.key t.value [])

-- Every list of tags that a plan for tidy tags stores is tidy again.
apply_entry-IsTidy :
    (id : String) (orig : Assoc (Assoc String)) (op : Operation) (cur : Assoc (Assoc String))
    → All IsTidy (values orig)
    → All IsTidy (values cur)
    → ltb per_resource (length (progress_of (tags_at id orig) op).after) ≡ false
    → All IsTidy (values (apply_entry (entry_of id (progress_of (tags_at id orig) op)) cur))
unfolding apply_entry entry_of
apply_entry-IsTidy id orig op cur tidy h few =
    let p = progress_of (tags_at id orig) op in
    let distinct = Distinct-progress_of (tags_at id orig) op (tags_at-Distinct id orig tidy) in
    elim (Bool-cases (entry_of id p).changed_anything) [
      | inr quiet ↦ rw (quiet, apply_entry) h
      | inl loud ↦ elim (Bool-cases (is_empty (tags_of (sort_by_key p.after)))) [
        | inl q ↦ rw (loud, apply_entry, q) (All-values-remove IsTidy id cur h)
        | inr q ↦
            rw (loud, apply_entry, q)
              (All-values-put IsTidy id (map_of (tags_of (sort_by_key p.after)) []) cur
                (listed-IsTidy p.after distinct few q) h)
      ]
    ]

apply_plan-IsTidy :
    (orig : Assoc (Assoc String)) (op : Operation) (ids : List String) (plan : List Entry)
    (cur : Assoc (Assoc String))
    → All IsTidy (values orig)
    → All IsTidy (values cur)
    → plan_resources orig op ids ≡ ok plan
    → All IsTidy (values (apply_plan plan cur))
unfolding plan_resources apply_plan
apply_plan-IsTidy orig op [] plan cur tidy h e = let same : [] ≡ plan = cc in rw (← same) h
apply_plan-IsTidy orig op (id ∷ ids) plan cur tidy h e =
    let (rest, few, later, whole) = plan_resources-ok orig op id ids plan e in
    let cur' = apply_entry (entry_of id (progress_of (tags_at id orig) op)) cur in
    rw whole (
      apply_plan-IsTidy orig op ids rest cur' tidy (apply_entry-IsTidy id orig op cur tidy h few)
        later)

-- A request that succeeds leaves the tags of every resource without a repeated key, at most as many as are
-- allowed, and keeps no resource without tags, if that was so before.
pub apply-IsTidy :
    (platform : Platform) (body : Option Json) (s s' : TagService) (plan : List Entry)
    → All IsTidy (values s.tags)
    → apply platform body s ≡ ok (plan, s')
    → All IsTidy (values s'.tags)
unfolding apply
apply-IsTidy platform body s s' plan tidy e =
    let (op, parsed, run) = >>=-eq-ok (parse_tag_operation platform body) _ e in
    let (planned, stored) = apply-ok platform body s s' plan op parsed e in
    rw stored (apply_plan-IsTidy s.tags op op.resource_ids plan s.tags tidy tidy planned)
