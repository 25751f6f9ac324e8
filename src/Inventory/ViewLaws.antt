-- ===== src/Inventory/ViewLaws.antt =====
-- What holds of the views of modules/inventory/src/view-service.js after any calls.
use nuvrion.Common.{
  ℕ, ◌≤◌, ◌≡◌, refl, subst, arith, ◌∙◌, String, Bool, true, false, not, Option, none, some, List,
  [], ◌∷◌, length, str_eq, eq_iff, get, put, remove, values, or_else, ◌==◌, Keyed, Keyed-put,
  key_of-get, Bool-cases, Option-cases, inl, inr, leb,
}
use nuvrion.Common.Results.{Result, ok, err, >>=-eq-ok, refuse_if-eq-ok}
use nuvrion.Common.Json.{Json, Platform}
use nuvrion.Inventory.ViewRules.{ViewError, view_limit, view_exists, version_conflict, per_person}
use nuvrion.Inventory.ViewRequests.{Created, Changed, parse_create, parse_change}
use nuvrion.Inventory.ViewStore.{
  Item, PublicView, ViewService, persist, mine, own, name_taken, create_view, update_view,
  delete_view, assigned,
}
use nuvrion.Inventory.ViewNames.{
  length-mine-put, length-mine-own, length-mine-remove, Keyed-remove, Apart, is_clear, Apart-put,
  Apart-remove, not_taken-clear, never_taken-clear, own-clear,
}

-- The calls that change views: who calls, and what.
pub data Call : Type 0 where
  create_call : String → Option Json → ℕ → String → Call
  update_call : String → String → Option Json → ℕ → ℕ → Call
  delete_call : String → String → Call

-- What a call leaves; one that throws leaves the service as it was.
abbrev pub left {ℓ} :
    {E : Type 0} {A : Type ℓ} → ViewService → Result E (A × ViewService) → ViewService
left s (err e) = s
left s (ok r) = r.1

unfoldable pub step : Platform → Call → ViewService → ViewService
unfolding create_view update_view delete_view
step platform (create_call user input now id) s = left s (create_view platform user input now id s)
step platform (update_call user id patch expected now) s =
    left s (update_view platform user id patch expected now s)
step platform (delete_call user id) s = (delete_view user id s).1

unfoldable pub run : Platform → List Call → ViewService → ViewService
unfolding step
run platform [] s = s
run platform (call ∷ calls) s = run platform calls (step platform call s)

-- Each view is kept under its identifier, this person has at most 20 views, and no two views of one person
-- have the same name in lower case.
pub record IsOrderly (platform : Platform) (user : String) (s : ViewService) : Type 0 where
  pub keyed : Keyed (λ item. item.id) s.views
  pub few : length (mine user s.views) ≤ per_person
  pub apart : Apart platform (values s.views)

IsOrderly-persist :
    (platform : Platform) (user : String) (s : ViewService)
    → IsOrderly platform user s
    → IsOrderly platform user (persist s)
unfolding persist
IsOrderly-persist platform user s h = record { keyed = h.keyed; few = h.few; apart = h.apart }

pub own-some :
    (user id : String) (s : ViewService) (item : Item)
    → own user id s ≡ some item
    → (get id s.views ≡ some item) × (str_eq item.user_id user ≡ true)
unfolding own
own-some user id s item e = elim (Option-cases (get id s.views)) [
  | inl q ↦ let no : none ≡ some item = rw (q, own) at e in absurd (cc)
  | inr (found, q) ↦ elim (Bool-cases (str_eq found.user_id user)) [
    | inl r ↦
        let same : some found ≡ some item = rw (q, r, own) at e in
        let here : found ≡ item = cc in (q ∙ same, subst (λ i. str_eq i.user_id user ≡ true) here r)
    | inr r ↦ let no : none ≡ some item = rw (q, r, own) at e in absurd (cc)
  ]
]

-- The view that createView stores.
abbrev pub created : String → Created → ℕ → String → Item
created user made now id = record {
  id = id;
  user_id = user;
  name = made.name;
  view = made.view;
  row_version = 1;
  created_at = now;
  updated_at = now;
}

module _ (platform : Platform) (s s' : ViewService) where
  pub create_view-ok :
      (user : String) (input : Option Json) (now : ℕ) (id : String) (shown : PublicView)
      → create_view platform user input now id s ≡ ok (shown, s')
      → (made : Created) × (leb per_person (length (mine user s.views)) ≡ false)
        × (name_taken platform user made.name none s.views ≡ false)
        × (persist (record s { views = put id (created user made now id) s.views }) ≡ s')
  unfolding create_view
  create_view-ok user input now id shown e =
      let (made, parsed, e1) = >>=-eq-ok (parse_create platform input) _ e in
      let (few, e2) =
        refuse_if-eq-ok (leb per_person (length (mine user s.views))) view_limit _ e1 in
      let (free, e3) =
        refuse_if-eq-ok (name_taken platform user made.name none s.views) (view_exists made.name) _
          e2 in
      (made, few, free, cc)

  abbrev name_clash : String → String → Changed → Bool
  name_clash user id change = elim change.name [
    | none ↦ false
    | some name ↦ name_taken platform user name (some id) s.views
  ]

  pub update_view-ok :
      (user id : String) (patch : Option Json) (expected now : ℕ) (item : Item)
      (answer : Option PublicView)
      → own user id s ≡ some item
      → update_view platform user id patch expected now s ≡ ok (answer, s')
      → (change : Changed) × (item.row_version == expected ≡ true)
        × (name_clash user id change ≡ false)
        × (persist (record s { views = put id (assigned platform item change now) s.views }) ≡ s')
  unfolding update_view
  update_view-ok user id patch expected now item answer q e =
      let (same, e1) =
        refuse_if-eq-ok (not (item.row_version == expected)) version_conflict _
          (rw (q, update_view) at e) in
      let (change, parsed, e2) = >>=-eq-ok (parse_change platform patch) _ e1 in
      let (free, e3) =
        refuse_if-eq-ok (name_clash user id change) (view_exists (or_else change.name "")) _ e2 in
      (change, (ground arith), free, cc)

module _ (platform : Platform) (u : String) (s : ViewService) (valid : IsOrderly platform u s) where
  create-IsOrderly :
      (user : String) (input : Option Json) (now : ℕ) (id : String) (shown : PublicView)
      (s' : ViewService)
      → create_view platform user input now id s ≡ ok (shown, s')
      → IsOrderly platform u s'
  create-IsOrderly user input now id shown s' e =
      let (made, few, free, same) = create_view-ok platform s s' user input now id shown e in
      let item = created user made now id in
      let clear = never_taken-clear platform id user made.name s.views free in
      subst (IsOrderly platform u) same (
        IsOrderly-persist platform u (record s { views = put id item s.views })
          (record {
            keyed = Keyed-put (λ i. i.id) id item s.views refl valid.keyed;
            few = elim (Bool-cases (str_eq user u)) [
              | inl q ↦
                  let few' =
                    subst (λ x. leb per_person (length (mine x s.views)) ≡ false)
                      ((eq_iff user u).0 q) few in
                  ground (arith, length-mine-put u id item s.views, valid.few)
              | inr q ↦ ground (arith, length-mine-put u id item s.views, valid.few)
            ];
            apart = Apart-put platform id item s.views valid.keyed clear valid.apart;
          }))

  update-clear :
      (user id : String) (item : Item) (name : Option String)
      → get id s.views ≡ some item
      → item.user_id ≡ user
      → (elim name [ none ↦ false | some n ↦ name_taken platform user n (some id) s.views ]) ≡ false
      → is_clear platform id item.user_id (or_else name item.name) s.views ≡ true
  update-clear user id item none there theirs free =
      own-clear platform id item s.views valid.keyed there valid.apart
  update-clear user id item (some n) there theirs free =
      rw theirs (not_taken-clear platform id user n s.views valid.keyed free)

  update-IsOrderly :
      (user id : String) (patch : Option Json) (expected now : ℕ) (item : Item)
      (answer : Option PublicView) (s' : ViewService)
      → own user id s ≡ some item
      → update_view platform user id patch expected now s ≡ ok (answer, s')
      → IsOrderly platform u s'
  unfolding assigned
  update-IsOrderly user id patch expected now item answer s' q e =
      let (change, version, free, same) =
        update_view-ok platform s s' user id patch expected now item answer q e in
      let (there, theirs) = own-some user id s item q in
      let item' = assigned platform item change now in
      subst (IsOrderly platform u) same (
        IsOrderly-persist platform u (record s { views = put id item' s.views })
          (record {
            keyed =
                Keyed-put (λ i. i.id) id item' s.views
                  (key_of-get (λ i. i.id) id s.views item valid.keyed there) valid.keyed;
            few = rw (length-mine-own u id item' item s.views there refl) valid.few;
            apart =
                Apart-put platform id item' s.views valid.keyed
                  (update-clear user id item change.name there ((eq_iff item.user_id user).0 theirs)
                    free)
                  valid.apart;
          }))

  delete-IsOrderly : (user id : String) → IsOrderly platform u (delete_view user id s).1
  unfolding delete_view
  delete-IsOrderly user id = elim (Option-cases (own user id s)) [
    | inl q ↦ rw (q, delete_view) valid
    | inr (item, q) ↦
        rw (q, delete_view)
          (IsOrderly-persist platform u (record s { views = remove id s.views })
            (record {
              keyed = Keyed-remove id s.views valid.keyed;
              few = omega (arith, length-mine-remove u id s.views, valid.few);
              apart = Apart-remove platform id s.views valid.apart;
            }))
  ]

  update-missing :
      (user id : String) (patch : Option Json) (expected now : ℕ) (answer : Option PublicView)
      (s' : ViewService)
      → own user id s ≡ none
      → update_view platform user id patch expected now s ≡ ok (answer, s')
      → IsOrderly platform u s'
  unfolding update_view
  update-missing user id patch expected now answer s' p e =
      let r : ok (none, s) ≡ ok (answer, s') = rw (p, update_view) at e in
      let same : s ≡ s' = cc in subst (IsOrderly platform u) same valid

  step-IsOrderly : (call : Call) → IsOrderly platform u (step platform call s)
  unfolding step
  step-IsOrderly (create_call user input now id) =
      by_result (create_view platform user input now id s) refl
    where
      by_result :
          (r : Result ViewError (PublicView × ViewService))
          → create_view platform user input now id s ≡ r
          → IsOrderly platform u (left s r)
      by_result (err e) q = valid
      by_result (ok (shown, s')) q = create-IsOrderly user input now id shown s' q
  step-IsOrderly (update_call user id patch expected now) =
      by_result (update_view platform user id patch expected now s) refl
    where
      by_result :
          (r : Result ViewError (Option PublicView × ViewService))
          → update_view platform user id patch expected now s ≡ r
          → IsOrderly platform u (left s r)
      by_result (err e) q = valid
      by_result (ok (answer, s')) q = elim (Option-cases (own user id s)) [
        | inl p ↦ update-missing user id patch expected now answer s' p q
        | inr (item, p) ↦ update-IsOrderly user id patch expected now item answer s' p q
      ]
  step-IsOrderly (delete_call user id) = delete-IsOrderly user id

-- After any calls, by anyone and with any identifiers drawn: if each view is kept under its identifier, this
-- person has at most 20 views and no two views of one person have the same name in lower case, then it is
-- so again.
pub run-IsOrderly :
    (platform : Platform) (user : String) (calls : List Call) (s : ViewService)
    → IsOrderly platform user s
    → IsOrderly platform user (run platform calls s)
unfolding run
run-IsOrderly platform user [] s valid = valid
run-IsOrderly platform user (call ∷ calls) s valid =
    run-IsOrderly platform user calls (step platform call s)
      (step-IsOrderly platform user s valid call)
