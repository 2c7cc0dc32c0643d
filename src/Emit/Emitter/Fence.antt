-- ===== src/Emit/Emitter/Fence.antt =====
-- The label fence: what a metric point of the emitter may carry.
pub mod Invariant
use shortfall.Prelude.{
  ℕ, ◌≡◌, refl, sym, ap, ◌∙◌, Bool, true, false, not, ◌||◌, =?_refl, =?_iff, ◌⊎◌, inl, inr, Option,
  Option-cases, none, some, List, [], ◌∷◌, ◌++◌, arith, Bytes, codes, ◌=?◌, leb, length, All,
  All-append, Bool-cases, Result, Result-cases, ok, err,
}
use shortfall.Prelude.Int.{ℤ}
use shortfall.Prelude.Maps.{IsUnique, Map, find, label, has_key}
use shortfall.Biz.Money.{Money, validate, bad_currency_test}
use shortfall.Biz.Validate.{outcome_validate}
use shortfall.Biz.Validate.Bounds.{outcome_validate-labels, validate-currency}
use shortfall.Emit.InFlight.Calls.{age_buckets}
use shortfall.Biz.Context.{success, failed, result_valid, kind_valid, Time, Outcome, ValueContext}
use shortfall.Engine.Realized.{member}
use shortfall.Registry.{stage_names, Registry, Flow, flow_of}
use shortfall.Emit.Emitter.{
  MetricPoint, Std, append_one, append_metrics, drop_one, unregistered, flow_stage_labels,
  segment_label, labels_with,
}
use shortfall.Emit.Emitter.Calls.{
  Ctx, RecordConfig, from_context, admit, record_valid, record_with, record_call, gauge_invalid,
  set_in_flight, provider_other, valid_provider_outcome, provider_pair_labels, call_invalid,
  record_provider_call, points_of, dedup_key, outcome_of, gauge_points, gauge_point, provider_point,
  txn_point, value_point,
}
use shortfall.Emit.Emitter.Flush.{Answers, flush, dropped_total}

-- A flow label and a stage label: none, the fallbacks, or a flow of the registry with one of its stages
-- or the fallback.
abbrev pub FlowFenced : Registry → Bytes → Bytes → Type 0
FlowFenced reg flow stage =
    ((flow ≡ []) × (stage ≡ []))
    ⊎ (((flow ≡ unregistered) × (stage ≡ unregistered))
        ⊎ ((f : Flow) × (flow_of reg flow ≡ some f)
            × ((stage ≡ unregistered) ⊎ (member stage (stage_names f.stages) ≡ true))))

-- the keys of the labels that a point may have
abbrev pub label_keys : List Bytes
label_keys =
    codes "flow"
    ∷ codes "stage"
    ∷ codes "outcome"
    ∷ codes "currency"
    ∷ codes "kind"
    ∷ codes "segment"
    ∷ codes "age_bucket"
    ∷ codes "provider"
    ∷ codes "op"
    ∷ []

-- an empty or missing label, or one that passes a test
abbrev pub Passes : (Bytes → Bool) → Bytes → MetricPoint → Type 0
Passes test key p = (label key p.labels ≡ []) ⊎ (test (label key p.labels) ≡ true)

-- a provider or an operation: bounded as the test says, or the fallback
abbrev pub provider_test : (Bytes → Bool) → Bytes → Bool
provider_test bounded v = v =? provider_other || bounded v

-- What a point may carry, under a registry and the test of provider labels.
pub record IsFenced (reg : Registry) (bounded : Bytes → Bool) (p : MetricPoint) : Type 0 where
  pub keys : All (λ e. member e.0 label_keys ≡ true) p.labels
  pub once : IsUnique p.labels
  pub outcome : Passes result_valid (codes "outcome") p
  pub currency : Passes (λ v. not (bad_currency_test v)) (codes "currency") p
  pub kind : Passes kind_valid (codes "kind") p
  pub age_bucket : Passes (λ v. member v age_buckets) (codes "age_bucket") p
  pub provider : Passes (provider_test bounded) (codes "provider") p
  pub op : Passes (provider_test bounded) (codes "op") p
  pub flow : FlowFenced reg (label (codes "flow") p.labels) (label (codes "stage") p.labels)
  pub segment :
      (label (codes "segment") p.labels ≡ [])
      ⊎ (member (label (codes "segment") p.labels) reg.segments ≡ true)
  pub no_entity : has_key (codes "entity") p.labels ≡ false
  pub no_customer : has_key (codes "customer") p.labels ≡ false
  pub no_drop : (p.name =? dropped_total) ≡ false

pub labels-FlowFenced :
    (reg : Registry) (flow stage : Bytes)
    → FlowFenced reg (flow_stage_labels reg flow stage).0 (flow_stage_labels reg flow stage).1
unfolding flow_stage_labels
labels-FlowFenced reg flow stage = go (flow_of reg flow) refl
  where
    go :
        (o : Option Flow)
        → flow_of reg flow ≡ o
        → FlowFenced reg (labels_with o flow stage).0 (labels_with o flow stage).1
    go none e = inr (inl (refl, refl))
    go (some f) e = elim (Bool-cases (member stage (stage_names f.stages))) [
      | inl known ↦ rw known (inr (inr (f, e, inr known)))
      | inr new ↦ rw new (inr (inr (f, e, inl refl)))
    ]

segment_label-fenced :
    (reg : Registry) (segment : Bytes)
    → (segment_label reg segment ≡ []) ⊎ (member (segment_label reg segment) reg.segments ≡ true)
unfolding segment_label
segment_label-fenced reg [] = inl refl
segment_label-fenced reg (c ∷ s) = elim (Bool-cases (member (c ∷ s) reg.segments)) [
  | inl known ↦ rw known (inr known)
  | inr new ↦ rw new (inl refl)
]

-- what the checks on a valid outcome leave for its points
abbrev pub IsLabelled : Outcome → Type 0
IsLabelled o =
    (result_valid o.result ≡ true)
    × (kind_valid o.vc.kind ≡ true)
    × (bad_currency_test o.vc.money.currency ≡ false)

outcome_validate-IsLabelled : (o : Outcome) → outcome_validate o ≡ ok tt → IsLabelled o
outcome_validate-IsLabelled o good =
    let (result, kind, money) = outcome_validate-labels o good in
    (result, kind, validate-currency o.vc.money money)

negated : (b : Bool) → b ≡ false → not b ≡ true
negated true h = cc
negated false h = refl

module _ (bounded : Bytes → Bool) where
  txn_point-IsFenced :
      (s : Std) (o : Outcome) → IsLabelled o → IsFenced s.reg bounded (txn_point s o)
  unfolding label find ◌=?◌ has_key member
  txn_point-IsFenced s o (result, kind, currency) = record {
    keys = (refl, (refl, (refl, (refl, (refl, tt)))));
    once = (refl, (refl, (refl, (refl, (refl, tt)))));
    outcome = inr result;
    currency = inr (negated _ currency);
    kind = inl refl;
    age_bucket = inl refl;
    provider = inl refl;
    op = inl refl;
    flow = labels-FlowFenced s.reg o.vc.flow o.stage;
    segment = segment_label-fenced s.reg o.vc.segment;
    no_entity = refl;
    no_customer = refl;
    no_drop = refl;
  }

  value_point-IsFenced :
      (s : Std) (o : Outcome) → IsLabelled o → IsFenced s.reg bounded (value_point s o)
  unfolding label find ◌=?◌ has_key member
  value_point-IsFenced s o (result, kind, currency) = record {
    keys = (refl, (refl, (refl, (refl, (refl, (refl, tt))))));
    once = (refl, (refl, (refl, (refl, (refl, (refl, tt))))));
    outcome = inr result;
    currency = inr (negated _ currency);
    kind = inr kind;
    age_bucket = inl refl;
    provider = inl refl;
    op = inl refl;
    flow = labels-FlowFenced s.reg o.vc.flow o.stage;
    segment = segment_label-fenced s.reg o.vc.segment;
    no_entity = refl;
    no_customer = refl;
    no_drop = refl;
  }

  pub points_of-IsFenced :
      (s : Std) (o : Outcome)
      → outcome_validate o ≡ ok tt
      → All (IsFenced s.reg bounded) (points_of s o)
  points_of-IsFenced s o good =
      let labelled = outcome_validate-IsLabelled o good in
      let txn = txn_point-IsFenced s o labelled in
      elim (Bool-cases o.vc.estimated) [
        | inl estimated ↦ rw estimated (txn, tt)
        | inr exact ↦ rw exact (value_point-IsFenced s o labelled, (txn, tt))
      ]

  gauge_point-IsFenced :
      (reg : Registry) (name flow stage bucket currency : Bytes) (value : ℤ) (now : Time)
      → (name =? dropped_total) ≡ false
      → member bucket age_buckets ≡ true
      → bad_currency_test currency ≡ false
      → IsFenced reg bounded
          (gauge_point name (flow_stage_labels reg flow stage) bucket currency value now)
  unfolding label find ◌=?◌ has_key member
  gauge_point-IsFenced reg name flow stage bucket currency value now named known spelled = record {
    keys = (refl, (refl, (refl, (refl, tt))));
    once = (refl, (refl, (refl, (refl, tt))));
    outcome = inl refl;
    currency = inr (negated _ spelled);
    kind = inl refl;
    age_bucket = inr known;
    provider = inl refl;
    op = inl refl;
    flow = labels-FlowFenced reg flow stage;
    segment = inl refl;
    no_entity = refl;
    no_customer = refl;
    no_drop = named;
  }

  gauge_valid :
      (bucket : Bytes) (money : Money) (count : ℤ)
      → gauge_invalid bucket money count ≡ false
      → (member bucket age_buckets ≡ true) × (bad_currency_test money.currency ≡ false)
  unfolding gauge_invalid
  gauge_valid bucket money count h = elim (Result-cases (validate money)) [
    | inl (_, good) ↦ (ground arith, validate-currency money good)
    | inr (_, bad) ↦ let h' = rw bad at h in ground arith
  ]

  pub gauge_points-IsFenced :
      (reg : Registry) (flow stage bucket : Bytes) (money : Money) (count : ℤ) (now : Time)
      → gauge_invalid bucket money count ≡ false
      → All
          (IsFenced reg bounded)
          (gauge_points (flow_stage_labels reg flow stage) bucket money count now)
  gauge_points-IsFenced reg flow stage bucket money count now h =
      let (known, spelled) = gauge_valid bucket money count h in
      (
        gauge_point-IsFenced reg (codes "biz_inflight_value") flow stage bucket money.currency
            money.amount now (unfold ◌=?◌ in refl) known spelled,
        (
          gauge_point-IsFenced reg (codes "biz_inflight_count") flow stage bucket money.currency
              count now (unfold ◌=?◌ in refl) known spelled,
          tt,
        ),
      )

  -- both labels of a pair pass
  abbrev pub PairPasses : Bytes × Bytes → Type 0
  PairPasses labels =
      (provider_test bounded labels.0 ≡ true) × (provider_test bounded labels.1 ≡ true)

  valid_provider_outcome-result_valid :
      (outcome : Bytes) → valid_provider_outcome outcome ≡ true → result_valid outcome ≡ true
  unfolding valid_provider_outcome member result_valid
  valid_provider_outcome-result_valid outcome h = ground (
    arith,
    =?_iff success outcome,
    =?_iff outcome success,
    =?_iff failed outcome,
    =?_iff outcome failed,
  )

  pub provider_point-IsFenced :
      (reg : Registry) (labels : Bytes × Bytes) (outcome : Bytes) (now : Time)
      → PairPasses labels
      → valid_provider_outcome outcome ≡ true
      → IsFenced reg bounded (provider_point labels outcome now)
  unfolding label find ◌=?◌ has_key member
  provider_point-IsFenced reg labels outcome now (provider, op) known = record {
    keys = (refl, (refl, (refl, tt)));
    once = (refl, (refl, (refl, tt)));
    outcome = inr (valid_provider_outcome-result_valid outcome known);
    currency = inl refl;
    kind = inl refl;
    age_bucket = inl refl;
    provider = inr provider;
    op = inr op;
    flow = inl (refl, refl);
    segment = inl refl;
    no_entity = refl;
    no_customer = refl;
    no_drop = refl;
  }

  pub provider_pair_labels-PairPasses :
      (provider op : Bytes) (s : Std)
      → bounded provider ≡ true
      → bounded op ≡ true
      → PairPasses (provider_pair_labels provider op s).1
  unfolding provider_pair_labels
  provider_pair_labels-PairPasses provider op s hp ho =
      let kept : PairPasses (provider, op) = (ground (arith, hp), ground (arith, ho)) in
      let other : PairPasses (provider_other, provider_other) =
        (ground (arith, =?_refl provider_other), ground (arith, =?_refl provider_other)) in
      elim (Bool-cases (member (provider ++ 0 ∷ op) s.provider_pairs)) [
        | inl known ↦ rw known kept
        | inr new ↦ elim (Bool-cases (leb s.provider_pair_cap (length s.provider_pairs))) [
          | inl full ↦ rw (new, full) other
          | inr free ↦ rw (new, free) kept
        ]
      ]
