-- ===== src/Inventory/ViewPrivacy.antt =====
-- Two people, or two tabs of one: what the calls of modules/inventory/src/view-service.js keep apart.
use nuvrion.Common.{
  ℕ, ◌≡◌, refl, ap, subst, arith, ◌∙◌, String, Bool, true, false, not, Option, none, some, [], ◌∷◌,
  is_some, str_eq, eq_iff, get, put, remove, values, get-put_self, ◌==◌, Assoc, Keyed, Bool-cases,
  Option-cases, inl, inr,
}
use nuvrion.Common.Results.{Result, ok, err}
use nuvrion.Common.Json.{Json, Platform}
use nuvrion.Inventory.ViewRules.{ViewError, version_conflict}
use nuvrion.Inventory.ViewRequests.{Changed}
use nuvrion.Inventory.ViewStore.{
  Item, PublicView, ViewService, persist, mine, own, create_view, update_view, delete_view,
  assigned,
}
use nuvrion.Inventory.ViewLaws.{
  Call, create_call, update_call, delete_call, left, step, own-some, created, create_view-ok,
  update_view-ok,
}

abbrev pub caller : Call → String
caller (create_call user input now id) = user
caller (update_call user id patch expected now) = user
caller (delete_call user id) = user

-- The identifier that a new view gets is not in use.
abbrev pub is_new : Call → ViewService → Bool
is_new (create_call user input now id) s = not (is_some (get id s.views))
is_new _ s = true

-- A view of nobody else than `v` is not among another's.
mine-put_new :
    (v k : String) (x : Item) (m : Assoc Item)
    → get k m ≡ none
    → str_eq x.user_id v ≡ false
    → mine v (put k x m) ≡ mine v m
unfolding mine put values get
mine-put_new v k x [] h e = rw e refl
mine-put_new v k x ((j, w) ∷ m) h e = elim (Bool-cases (str_eq j k)) [
  | inl q ↦ absurd (ground arith)
  | inr q ↦ let rest = mine-put_new v k x m (ground arith) e in rw (q, put) (ground arith)
]

mine-put_own :
    (v k : String) (x w : Item) (m : Assoc Item)
    → get k m ≡ some w
    → x.user_id ≡ w.user_id
    → str_eq w.user_id v ≡ false
    → mine v (put k x m) ≡ mine v m
unfolding mine put values get
mine-put_own v k x w [] h e d = absurd (cc)
mine-put_own v k x w ((j, y) ∷ m) h e d = elim (Bool-cases (str_eq j k)) [
  | inl q ↦
      let same : y ≡ w = ground arith in rw (q, put) (ground (arith, ap (λ i. i.user_id) same))
  | inr q ↦ let rest = mine-put_own v k x w m (ground arith) e d in rw (q, put) (ground arith)
]

mine-remove_absent :
    (v k : String) (m : Assoc Item) → get k m ≡ none → mine v (remove k m) ≡ mine v m
unfolding mine remove values get
mine-remove_absent v k [] h = refl
mine-remove_absent v k ((j, y) ∷ m) h = ground (arith, mine-remove_absent v k m)

mine-remove :
    (v k : String) (w : Item) (m : Assoc Item)
    → Keyed (λ i. i.id) m
    → get k m ≡ some w
    → str_eq w.user_id v ≡ false
    → mine v (remove k m) ≡ mine v m
unfolding mine remove values get
mine-remove v k w [] keyed h d = absurd (cc)
mine-remove v k w ((j, y) ∷ m) keyed h d = elim (Bool-cases (str_eq j k)) [
  | inl q ↦
      let same : y ≡ w = ground arith in
      let none_left : get k m ≡ none = subst (λ i. get i m ≡ none) ((eq_iff j k).0 q) keyed.1 in
      rw (q, remove) (ground (arith, ap (λ i. i.user_id) same, mine-remove_absent v k m none_left))
  | inr q ↦ let rest = mine-remove v k w m keyed.2 (ground arith) d in rw (q, remove) (ground arith)
]

mine-persist : (v : String) (s : ViewService) → mine v (persist s).views ≡ mine v s.views
unfolding persist
mine-persist v s = refl

module _ (platform : Platform) (v : String) (s : ViewService) where
  create-mine :
      (user : String) (input : Option Json) (now : ℕ) (id : String) (shown : PublicView)
      (s' : ViewService)
      → str_eq user v ≡ false
      → get id s.views ≡ none
      → create_view platform user input now id s ≡ ok (shown, s')
      → mine v s'.views ≡ mine v s.views
  create-mine user input now id shown s' other new e =
      let (made, few, free, same) = create_view-ok platform s s' user input now id shown e in
      rw (← same) (
        mine-persist v (record s { views = put id (created user made now id) s.views })
        ∙ mine-put_new v id (created user made now id) s.views new other)

  update-mine :
      (user id : String) (patch : Option Json) (expected now : ℕ) (answer : Option PublicView)
      (s' : ViewService)
      → str_eq user v ≡ false
      → update_view platform user id patch expected now s ≡ ok (answer, s')
      → mine v s'.views ≡ mine v s.views
  unfolding update_view assigned
  update-mine user id patch expected now answer s' other e = elim (Option-cases (own user id s)) [
    | inl p ↦
        let r : ok (none, s) ≡ ok (answer, s') = rw (p, update_view) at e in
        let same : s ≡ s' = cc in rw (← same) refl
    | inr (item, p) ↦
        let (change, version, free, same) =
          update_view-ok platform s s' user id patch expected now item answer p e in
        let (there, theirs) = own-some user id s item p in
        rw (← same) (
          mine-persist v (record s { views = put id (assigned platform item change now) s.views })
          ∙ mine-put_own v id (assigned platform item change now) item s.views there refl
              (rw ((eq_iff item.user_id user).0 theirs) other))
  ]

  delete-mine :
      (user id : String)
      → Keyed (λ i. i.id) s.views
      → str_eq user v ≡ false
      → mine v (delete_view user id s).1.views ≡ mine v s.views
  unfolding delete_view
  delete-mine user id keyed other = elim (Option-cases (own user id s)) [
    | inl p ↦ rw (p, delete_view) refl
    | inr (item, p) ↦
        let (there, theirs) = own-some user id s item p in
        rw (p, delete_view)
          (mine-persist v (record s { views = remove id s.views })
            ∙ mine-remove v id item s.views keyed there
                (rw ((eq_iff item.user_id user).0 theirs) other))
  ]

-- A call by somebody else leaves a person's views as they are, if views are kept under their identifiers and
-- a new view gets an identifier that is not in use.
pub step-mine :
    (platform : Platform) (v : String) (call : Call) (s : ViewService)
    → Keyed (λ item. item.id) s.views
    → is_new call s ≡ true
    → str_eq (caller call) v ≡ false
    → mine v (step platform call s).views ≡ mine v s.views
unfolding step
step-mine platform v (create_call user input now id) s keyed new other =
    by_result (create_view platform user input now id s) refl
  where
    by_result :
        (r : Result ViewError (PublicView × ViewService))
        → create_view platform user input now id s ≡ r
        → mine v (left s r).views ≡ mine v s.views
    by_result (err e) q = refl
    by_result (ok (shown, s')) q =
        create-mine platform v s user input now id shown s' other (ground arith) q
step-mine platform v (update_call user id patch expected now) s keyed new other =
    by_result (update_view platform user id patch expected now s) refl
  where
    by_result :
        (r : Result ViewError (Option PublicView × ViewService))
        → update_view platform user id patch expected now s ≡ r
        → mine v (left s r).views ≡ mine v s.views
    by_result (err e) q = refl
    by_result (ok (answer, s')) q =
        update-mine platform v s user id patch expected now answer s' other q
step-mine platform v (delete_call user id) s keyed new other =
    delete-mine platform v s user id keyed other

own-get :
    (user id : String) (x : Item) (s : ViewService)
    → get id s.views ≡ some x
    → str_eq x.user_id user ≡ true
    → own user id s ≡ some x
unfolding own
own-get user id x s h e = rw (h, own, e) refl

get-persist :
    (id : String) (x : Item) (s : ViewService)
    → get id (persist (record s { views = put id x s.views })).views ≡ some x
unfolding persist
get-persist id x s = get-put_self id x s.views

own-put :
    (user id : String) (x : Item) (s : ViewService)
    → str_eq x.user_id user ≡ true
    → own user id (persist (record s { views = put id x s.views })) ≡ some x
own-put user id x s e =
    own-get user id x (persist (record s { views = put id x s.views })) (get-persist id x s) e

module _ (platform : Platform) where
  stale :
      (user id : String) (patch : Option Json) (expected now : ℕ) (s : ViewService) (x : Item)
      → own user id s ≡ some x
      → x.row_version == expected ≡ false
      → update_view platform user id patch expected now s ≡ err version_conflict
  unfolding update_view
  stale user id patch expected now s x p e = rw (p, update_view, e) refl

  later :
      (expected now : ℕ) (x : Item) (change : Changed)
      → x.row_version == expected ≡ true
      → (assigned platform x change now).row_version == expected ≡ false
  unfolding assigned
  later expected now x change e = ground arith

-- When a view was changed, another change that was made from the same version of it is refused, whatever it
-- says and whenever it comes.
pub update_view-update_view :
    (platform : Platform) (user id : String) (patch patch' : Option Json) (expected now now' : ℕ)
    (shown : PublicView) (s s' : ViewService)
    → update_view platform user id patch expected now s ≡ ok (some shown, s')
    → update_view platform user id patch' expected now' s' ≡ err version_conflict
unfolding update_view
update_view-update_view platform user id patch patch' expected now now' shown s s' e =
    elim (Option-cases (own user id s)) [
      | inl p ↦ let r : ok (none, s) ≡ ok (some shown, s') = rw (p, update_view) at e in absurd (cc)
      | inr (item, p) ↦
          let (change, version, free, same) =
            update_view-ok platform s s' user id patch expected now item (some shown) p e in
          let (there, theirs) = own-some user id s item p in
          let s1 : ViewService = record s {
            views = put id (assigned platform item change now) s.views;
          } in
          subst (λ t. update_view platform user id patch' expected now' t ≡ err version_conflict)
            same
            (stale platform user id patch' expected now' (persist s1)
              (assigned platform item change now)
              (own-put user id (assigned platform item change now) s theirs)
              (later platform expected now item change version))
    ]
