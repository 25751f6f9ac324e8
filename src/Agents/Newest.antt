-- ===== src/Agents/Newest.antt =====
-- The newest build that a cycle of agent-auto-upgrade.js picks, and the attempts that it looks at.
use nuvrion.Common.{
  Among, ℕ, Bool, true, false, ◌&&◌, Option, none, some, List, [], ◌∷◌, ◌≡◌, refl, subst, sym, ap,
  ◌∙◌, ◌⊎◌, inl, inr, Bool-cases, All, str_eq, arith,
}
use nuvrion.Agents.Versions.{is_newer_agent_version}
use nuvrion.Agents.Upgrades.{
  Status, staged, downloading, ready, installed, failed, rolled_back, Release, Deployment,
}
use nuvrion.Agents.Cycle.{Around, newer_on_platform, newest_of, has_failed, is_failure}
use nuvrion.Agents.Order.{chain, newer_self}

-- A build that is on the platform.
abbrev is_built : Around → Release → Bool
is_built around r = around.has_artifact r.manifest.sha256

abbrev is_newer : Around → Release → Release → Bool
is_newer around r n = is_newer_agent_version around.platform r.manifest.version n.manifest.version

-- A release is one of the last 200, its build is on the platform, and no other of them whose build is there is newer.
pub record IsNewestBuild (around : Around) (releases : List Release) (newest : Release)
    : Type 0 where
  pub listed : Among newest releases
  pub built : around.has_artifact newest.manifest.sha256 ≡ true
  pub none_newer :
      All
        (λ r.
          (around.has_artifact r.manifest.sha256
            && is_newer_agent_version around.platform r.manifest.version newest.manifest.version)
          ≡ false)
        releases

module _ (around : Around) (now : ℕ) where
  -- What the look at one release does to the best one so far.
  data Look (r : Release) (best : Option Release) : Type 0 where
    unbuilt : is_built around r ≡ false → newer_on_platform around now r best ≡ best → Look r best
    first :
        is_built around r ≡ true
        → best ≡ none
        → newer_on_platform around now r best ≡ some r
        → Look r best
    better :
        (b : Release)
        → is_built around r ≡ true
        → best ≡ some b
        → is_newer around r b ≡ true
        → newer_on_platform around now r best ≡ some r
        → Look r best
    not_better :
        (b : Release)
        → is_built around r ≡ true
        → best ≡ some b
        → is_newer around r b ≡ false
        → newer_on_platform around now r best ≡ some b
        → Look r best

  newer_on_platform-Look : (r : Release) (best : Option Release) → Look r best
  unfolding newer_on_platform
  newer_on_platform-Look r none = elim (Bool-cases (is_built around r)) [
    | inr e ↦ unbuilt e (rw e refl)
    | inl e ↦ first e refl (rw e refl)
  ]
  newer_on_platform-Look r (some b) = elim (Bool-cases (is_built around r)) [
    | inr e ↦ unbuilt e (rw e refl)
    | inl e ↦ elim (Bool-cases (is_newer around r b)) [
      | inl q ↦ better b e refl q (rw (e, q) refl)
      | inr q ↦ not_better b e refl q (rw (e, q) refl)
    ]
  ]

  newest_of-listed :
      (rs : List Release) (best : Option Release) (n : Release)
      → newest_of around now rs best ≡ some n
      → (best ≡ some n) ⊎ (Among n rs × (is_built around n ≡ true))
  unfolding newest_of
  newest_of-listed [] best n h = inl h
  newest_of-listed (r ∷ rs) best n h =
      elim (newest_of-listed rs (newer_on_platform around now r best) n h) [
        | inr (l, b) ↦ inr (inr l, b)
        | inl e ↦ picked (newer_on_platform-Look r best) e
      ]
    where
      itself : is_built around r ≡ true → some r ≡ some n → (n ≡ r) × (is_built around n ≡ true)
      itself b e = let same : r ≡ n = cc in (sym same, subst (λ x. is_built around x ≡ true) same b)

      picked :
          Look r best
          → newer_on_platform around now r best ≡ some n
          → (best ≡ some n) ⊎ (((n ≡ r) ⊎ Among n rs) × (is_built around n ≡ true))
      picked (unbuilt b q) e = inl (sym q ∙ e)
      picked (first b o q) e = let (s, t) = itself b (sym q ∙ e) in inr (inl s, t)
      picked (better b' b o w q) e = let (s, t) = itself b (sym q ∙ e) in inr (inl s, t)
      picked (not_better b' b o w q) e = inl (o ∙ sym q ∙ e)

  -- What is not newer than the best one so far is not newer than the one that is picked.
  newest_of-keeps :
      (rs : List Release) (b n q : Release)
      → newest_of around now rs (some b) ≡ some n
      → is_newer around q b ≡ false
      → is_newer around q n ≡ false
  unfolding newest_of
  newest_of-keeps [] b n q h e =
      let same : b ≡ n = cc in subst (λ x. is_newer around q x ≡ false) same e
  newest_of-keeps (r ∷ rs) b n q h e = elim (newer_on_platform-Look r (some b)) [
    | unbuilt u w ↦ newest_of-keeps rs b n q (ap (newest_of around now rs) (sym w) ∙ h) e
    | first u o w ↦ absurd (cc)
    | better b' u o w p ↦ newest_of-keeps rs r n q (ap (newest_of around now rs) (sym p) ∙ h) (
        chain around.platform q.manifest.version b.manifest.version r.manifest.version e
          (let same : b ≡ b' = cc in subst (λ x. is_newer around r x ≡ true) (sym same) w))
    | not_better b' u o w p ↦
        newest_of-keeps rs b n q (ap (newest_of around now rs) (o ∙ sym p) ∙ h) e
  ]

  newest_of-none_newer :
      (rs : List Release) (best : Option Release) (n : Release)
      → newest_of around now rs best ≡ some n
      → All (λ r. (is_built around r && is_newer around r n) ≡ false) rs
  unfolding newest_of
  newest_of-none_newer [] best n h = tt
  newest_of-none_newer (r ∷ rs) best n h = (
    looked (newer_on_platform-Look r best),
    newest_of-none_newer rs (newer_on_platform around now r best) n h,
  )
    where
      refused : is_newer around r n ≡ false → (is_built around r && is_newer around r n) ≡ false
      refused e = ground arith

      looked : Look r best → (is_built around r && is_newer around r n) ≡ false
      looked (unbuilt u w) = ground arith
      looked (first u o w) = refused (
          newest_of-keeps rs r n r (ap (newest_of around now rs) (sym w) ∙ h)
            (newer_self around.platform r.manifest.version))
      looked (better b u o w p) = refused (
          newest_of-keeps rs r n r (ap (newest_of around now rs) (sym p) ∙ h)
            (newer_self around.platform r.manifest.version))
      looked (not_better b u o w p) =
          refused (newest_of-keeps rs b n r (ap (newest_of around now rs) (sym p) ∙ h) w)

  pub newest_of-IsNewestBuild :
      (rs : List Release) (n : Release)
      → newest_of around now rs none ≡ some n
      → IsNewestBuild around rs n
  newest_of-IsNewestBuild rs n h = elim (newest_of-listed rs none n h) [
    | inl e ↦ absurd (cc)
    | inr (l, b) ↦ record { listed = l; built = b; none_newer = newest_of-none_newer rs none n h }
  ]

-- An attempt is of another release, or under way, or it went well.
pub data IsNoFailure (newest : Release) (d : Deployment) : Type 0 where
  of_another : str_eq d.release_id newest.manifest.release_id ≡ false → IsNoFailure newest d
  is_staged : d.status ≡ staged → IsNoFailure newest d
  is_downloading : d.status ≡ downloading → IsNoFailure newest d
  is_ready : d.status ≡ ready → IsNoFailure newest d
  is_installed : d.status ≡ installed → IsNoFailure newest d

pub has_failed-IsNoFailure :
    (newest : Release) (ds : List Deployment)
    → has_failed newest ds ≡ false
    → All (IsNoFailure newest) ds
unfolding has_failed is_failure
has_failed-IsNoFailure newest [] h = tt
has_failed-IsNoFailure newest (d ∷ ds) h = (
  elim (Bool-cases (str_eq d.release_id newest.manifest.release_id)) [
    | inr e ↦ of_another e
    | inl e ↦ by_status d.status refl (ground arith)
  ],
  has_failed-IsNoFailure newest ds (ground arith),
)
  where
    by_status : (t : Status) → d.status ≡ t → is_failure t ≡ false → IsNoFailure newest d
    by_status staged e q = is_staged e
    by_status downloading e q = is_downloading e
    by_status ready e q = is_ready e
    by_status installed e q = is_installed e
    by_status failed e q = absurd (cc)
    by_status rolled_back e q = absurd (cc)
