-- ===== src/Alerts/Visits.antt =====
-- What an evaluation may plan, and the first loop: every alert that fires, is refreshed or is cleared
-- has its reason in the rules and in the latest measurements.
use nuvrion.Common.{
  ℕ, ◌+◌, ◌*◌, ◌≤◌, String, ◌≡◌, true, false, inl, inr, none, some, List, [], ◌∷◌, arith, or_else,
  ltb, leb, get, Assoc, All, All-snoc, leb→le, Bool-cases, Option-cases,
}
use nuvrion.Alerts.Rules.{kind_eq, Metric, metrics, Rule, Target, Alert, condition_holds}
use nuvrion.Alerts.Plan.{
  cleared, Firing, Refresh, Resolution, Plan, pending_key, in_scope, carry, plan_holding,
  plan_clear, plan_value, visit, visit_targets, visit_rules,
}

module _ (now stale_after : ℕ) where
  -- An enabled rule measures this value of this target, of its metric's kind and in its scope, and
  -- the measurement is not stale.
  pub record Measures (rule : Rule) (target : Target) (value : ℕ) : Type 0 where
    pub enabled : rule.enabled ≡ true
    pub metric : Metric
    pub known : get rule.metric metrics ≡ some metric
    pub kind : kind_eq target.kind metric.kind ≡ true
    pub scope : in_scope rule target ≡ true
    pub reported : get rule.metric target.values ≡ some value
    pub fresh : now ≤ target.observed_at + stale_after

module _ (openings : Assoc Alert) (pending : Assoc ℕ) (now stale_after : ℕ) where
  -- The condition holds now, and has held for the whole duration.
  pub record Holds (f : Firing) : Type 0 where
    pub measures : Measures now stale_after f.rule f.target f.value
    pub condition : condition_holds f.rule f.value ≡ true
    pub lasted :
        or_else (get (pending_key f.rule.id f.target.id) pending) now
          + f.rule.duration_minutes * 60000
        ≤ now

  pub record Fires (f : Firing) : Type 0 where
    pub holds : Holds f
    pub none_open : get (pending_key f.rule.id f.target.id) openings ≡ none

  pub record Refreshes (r : Refresh) : Type 0 where
    pub holds : Holds r.firing
    pub was_open : get (pending_key r.firing.rule.id r.firing.target.id) openings ≡ some r.alert

  -- An alert that clears has a fresh measurement at which its rule's condition does not hold.
  pub record Clears (a : Alert) : Type 0 where
    pub rule : Rule
    pub target : Target
    pub value : ℕ
    pub measures : Measures now stale_after rule target value
    pub condition : condition_holds rule value ≡ false
    pub was_open : get (pending_key rule.id target.id) openings ≡ some a

  abbrev pub Resolves : Resolution → Type 0
  Resolves r = elim r.reason [ cleared ↦ Clears r.alert | _ ↦ Unit ]

  pub record IsSound (plan : Plan) : Type 0 where
    pub fires : All Fires plan.fire
    pub refreshes : All Refreshes plan.refresh
    pub resolves : All Resolves plan.resolve

  carry-IsSound : (key : String) (plan : Plan) → IsSound plan → IsSound (carry key pending plan)
  unfolding carry
  carry-IsSound key plan v = elim (Option-cases (get key pending)) [
    | inl e ↦ rw (e, carry) v
    | inr (since, e) ↦
        rw (e, carry) (record { fires = v.fires; refreshes = v.refreshes; resolves = v.resolves })
  ]

  plan_holding-IsSound :
      (rule : Rule) (target : Target) (value : ℕ) (plan : Plan)
      → Measures now stale_after rule target value
      → condition_holds rule value ≡ true
      → IsSound plan
      → IsSound (
          plan_holding openings pending now stale_after rule target
            (pending_key rule.id target.id)
            value
            plan)
  unfolding plan_holding
  plan_holding-IsSound rule target value plan m c v =
      elim (Bool-cases (
        leb
          (or_else (get (pending_key rule.id target.id) pending) now
            + rule.duration_minutes * 60000)
          now)) [
            | inr e ↦
                rw (e, plan_holding)
                  (record { fires = v.fires; refreshes = v.refreshes; resolves = v.resolves })
            | inl e ↦ elim (Option-cases (get (pending_key rule.id target.id) openings)) [
              | inl n ↦
                  rw (e, plan_holding, n)
                    (record {
                      fires =
                          All-snoc Fires plan.fire _ v.fires
                            (record { holds = long e; none_open = n });
                      refreshes = v.refreshes;
                      resolves = v.resolves;
                    })
              | inr (a, n) ↦
                  rw (e, plan_holding, n)
                    (record {
                      fires = v.fires;
                      refreshes =
                          All-snoc Refreshes plan.refresh _ v.refreshes
                            (record { holds = long e; was_open = n });
                      resolves = v.resolves;
                    })
            ]
          ]
    where
      long :
          leb
              (or_else (get (pending_key rule.id target.id) pending) now
                + rule.duration_minutes * 60000)
              now
            ≡ true
          → Holds (record { rule = rule; target = target; value = value })
      long e = record { measures = m; condition = c; lasted = leb→le _ now e }

  plan_clear-IsSound :
      (rule : Rule) (target : Target) (value : ℕ) (plan : Plan)
      → Measures now stale_after rule target value
      → condition_holds rule value ≡ false
      → IsSound plan
      → IsSound (plan_clear openings pending now stale_after (pending_key rule.id target.id) plan)
  unfolding plan_clear
  plan_clear-IsSound rule target value plan m c v =
      elim (Option-cases (get (pending_key rule.id target.id) openings)) [
        | inl n ↦ rw (n, plan_clear) v
        | inr (a, n) ↦
            rw (n, plan_clear)
              (record {
                fires = v.fires;
                refreshes = v.refreshes;
                resolves = All-snoc Resolves plan.resolve _ v.resolves (record {
                  rule = rule;
                  target = target;
                  value = value;
                  measures = m;
                  condition = c;
                  was_open = n;
                });
              })
      ]

  plan_value-IsSound :
      (rule : Rule) (target : Target) (value : ℕ) (plan : Plan)
      → (now ≤ target.observed_at + stale_after → Measures now stale_after rule target value)
      → IsSound plan
      → IsSound (
          plan_value openings pending now stale_after rule target
            (pending_key rule.id target.id)
            value
            plan)
  unfolding plan_value
  plan_value-IsSound rule target value plan m v =
      elim (Bool-cases (ltb (target.observed_at + stale_after) now)) [
        | inl e ↦
            rw (e, plan_value)
              (carry-IsSound _ _
                (record { fires = v.fires; refreshes = v.refreshes; resolves = v.resolves }))
        | inr e ↦ elim (Bool-cases (condition_holds rule value)) [
          | inl c ↦
              rw (e, plan_value, c)
                (plan_holding-IsSound rule target value plan (m (ground arith)) c v)
          | inr c ↦
              rw (e, plan_value, c)
                (plan_clear-IsSound rule target value plan (m (ground arith)) c v)
        ]
      ]

  visit-IsSound :
      (rule : Rule) (metric : Metric) (target : Target) (plan : Plan)
      → rule.enabled ≡ true
      → get rule.metric metrics ≡ some metric
      → IsSound plan
      → IsSound (visit openings pending now stale_after rule metric target plan)
  unfolding visit
  visit-IsSound rule metric target plan on known v =
      elim (Bool-cases (kind_eq target.kind metric.kind)) [
        | inr k ↦ rw (k, visit) v
        | inl k ↦ elim (Bool-cases (in_scope rule target)) [
          | inr i ↦ rw (k, visit, i) v
          | inl i ↦ elim (Option-cases (get rule.metric target.values)) [
            | inl n ↦ rw (k, visit, i, n) (carry-IsSound _ _ marked)
            | inr (value, n) ↦
                rw (k, visit, i, n)
                  (plan_value-IsSound rule target value _
                    (λ fresh. record {
                      enabled = on;
                      metric = metric;
                      known = known;
                      kind = k;
                      scope = i;
                      reported = n;
                      fresh = fresh;
                    })
                    marked)
          ]
        ]
      ]
    where
      marked : IsSound (record plan { seen = pending_key rule.id target.id ∷ plan.seen })
      marked = record { fires = v.fires; refreshes = v.refreshes; resolves = v.resolves }

  visit_targets-IsSound :
      (rule : Rule) (metric : Metric) (targets : List Target) (plan : Plan)
      → rule.enabled ≡ true
      → get rule.metric metrics ≡ some metric
      → IsSound plan
      → IsSound (visit_targets openings pending now stale_after rule metric targets plan)
  unfolding visit_targets
  visit_targets-IsSound rule metric [] plan on known v = v
  visit_targets-IsSound rule metric (t ∷ ts) plan on known v =
      visit_targets-IsSound rule metric ts _ on known (visit-IsSound rule metric t plan on known v)

  pub visit_rules-IsSound :
      (targets : List Target) (rules : List Rule) (plan : Plan)
      → All (λ r. r.enabled ≡ true) rules
      → IsSound plan
      → IsSound (visit_rules openings pending now stale_after targets rules plan)
  unfolding visit_rules
  visit_rules-IsSound targets [] plan on v = v
  visit_rules-IsSound targets (r ∷ rs) plan on v = elim (Option-cases (get r.metric metrics)) [
    | inl n ↦ rw (n, visit_rules) (visit_rules-IsSound targets rs plan on.1 v)
    | inr (metric, n) ↦
        rw (n, visit_rules)
          (visit_rules-IsSound targets rs _ on.1
            (visit_targets-IsSound r metric targets plan on.0 n v))
  ]
