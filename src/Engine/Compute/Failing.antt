-- ===== src/Engine/Compute/Failing.antt =====
-- The legs over a backend whose queries fail.
use shortfall.Prelude.{
  ℕ, ◌≡◌, refl, Bool, true, false, not, ◌&&◌, Option, List, [], ◌∷◌, Bytes, codes, if◌then◌else◌,
  Result, ok, err, ◌>>=◌,
}
use shortfall.Prelude.Int.{pos, ℤ}
use shortfall.Prelude.Maps.{Map}
use shortfall.Biz.Context.{success, failed, abandoned}
use shortfall.Query.{TimeRange, Querier, MetricQuery, EventQuery, EventAgg, QueryError}
use shortfall.Registry.{Registry}
use shortfall.Registry.Rules.{is_nil}
use shortfall.Engine.{Request, Leg, EngineError, wrapped, flow_filters, per_flow}
use shortfall.Engine.Realized.{
  realized_leg, realized_from_events, realized_from_metrics, success_loop, metrics_loop,
  failed_loop, empty_leg, metrics_caveat, success_query, value_query,
}
use shortfall.Engine.Deferred.{DeferredLeg, new_deferred_leg}
use shortfall.Engine.Deferred.Events.{
  age_cutoffs, deferred_from_events, terminal_loop, terminal_filters, cut_loop, entity_query,
  start_for, StageSets, terminal_outcomes,
}
use shortfall.Engine.Deferred.Gauge.{
  deferred_leg, deferred_from_gauge, value_loop, inflight_filters, flow_scopes, level_query,
  gauge_or_events,
}
use shortfall.Engine.Customers.{
  Account, CustomersLeg, no_events, leg_of, customers, customers_loop, customers_query,
}
use shortfall.Engine.Compute.{customers_or_failed}

abbrev pub Fails : {E : Type 0} {A : Type 0} → Result E A → Type 0
Fails {E} r = (e : E) × (r ≡ err e)

pub chain-Fails :
    {E : Type 0} {A : Type 0} {B : Type 0} (r : Result E A) (f : A → Result E B)
    → Fails r
    → Fails (r >>= f)
chain-Fails (ok a) f (e, h) = cc
chain-Fails (err d) f (e, h) = (d, refl)

-- a chain fails too where the call behind an answer does
then-Fails :
    {E : Type 0} {A : Type 0} {B : Type 0} (r : Result E A) (f : A → Result E B)
    → ((a : A) → Fails (f a))
    → Fails (r >>= f)
then-Fails (ok a) f h = h a
then-Fails (err d) f h = (d, refl)

pub either-Fails :
    {E : Type 0} {A : Type 0} (b : Bool) (r s : Result E A)
    → Fails r
    → Fails s
    → Fails (if b then r else s)
either-Fails true r s h k = h
either-Fails false r s h k = k

-- no customers, and a reason
abbrev pub IsUnanswered : CustomersLeg → Type 0
IsUnanswered leg =
    (is_nil leg.not_available_reason ≡ false)
    × (leg.distinct ≡ pos 0)
    × (leg.by_segment ≡ [])
    × (leg.top_n ≡ [])

either-IsUnanswered :
    (b : Bool) (r : Result EngineError CustomersLeg) (leg : CustomersLeg)
    → Fails r
    → IsUnanswered leg
    → IsUnanswered (customers_or_failed (if b then r else ok leg))
either-IsUnanswered true (ok a) leg (e, h) k = cc
either-IsUnanswered true (err d) leg h k = (refl, refl, refl, refl)
either-IsUnanswered false r leg h k = k

pub wrapped-Fails : {A : Type 0} (r : Result QueryError A) → Fails r → Fails (wrapped r)
unfolding wrapped
wrapped-Fails (ok a) (e, h) = cc
wrapped-Fails (err d) (e, h) = (EngineError.query_failed d, refl)

-- what there is at the head of a list
abbrev IsCons : {A : Type 0} → List A → Type 0
IsCons xs = is_nil xs ≡ false

filters-IsCons :
    (window : TimeRange) (scope : Map Bytes) (flows : List Bytes) (outcome : Bytes)
    → IsCons (flow_filters (record { window = window; scope = scope; flows = flows }) outcome)
unfolding flow_filters per_flow
filters-IsCons window scope [] outcome = refl
filters-IsCons window scope (f ∷ flows) outcome = refl

flow_filters-IsCons : (req : Request) (outcome : Bytes) → IsCons (flow_filters req outcome)
flow_filters-IsCons req outcome = filters-IsCons req.window req.scope req.flows outcome

scopes-IsCons :
    (window : TimeRange) (scope : Map Bytes) (flows : List Bytes)
    → IsCons (inflight_filters (record { window = window; scope = scope; flows = flows }))
unfolding inflight_filters flow_scopes
scopes-IsCons window scope [] = refl
scopes-IsCons window scope (f ∷ flows) = refl

inflight_filters-IsCons : (req : Request) → IsCons (inflight_filters req)
inflight_filters-IsCons req = scopes-IsCons req.window req.scope req.flows

-- every query of the backend fails
pub record IsDown {V : Type 0} (q : Querier V) : Type 0 where
  pub metrics : (m : MetricQuery) → Fails (q.query_metric m)
  pub events : (m : EventQuery) → Fails (q.query_events m)

module _ {V : Type 0} (q : Querier V) (req : Request) (down : IsDown q) where
  success_loop-Fails :
      (fs : List (Map Bytes)) (succeeded : List Bytes)
      → IsCons fs
      → Fails (success_loop q req fs succeeded)
  unfolding success_loop
  success_loop-Fails [] succeeded h = cc
  success_loop-Fails (f ∷ fs) succeeded h =
      chain-Fails _ _ (wrapped-Fails _ (down.events (success_query req f)))

  metrics_loop-Fails :
      (to_int64 : V → ℤ) (fs : List (Map Bytes)) (leg : Leg)
      → IsCons fs
      → Fails (metrics_loop q req to_int64 fs leg)
  unfolding metrics_loop
  metrics_loop-Fails to_int64 [] leg h = cc
  metrics_loop-Fails to_int64 (f ∷ fs) leg h =
      chain-Fails _ _ (wrapped-Fails _ (down.metrics (value_query q req f)))

  pub realized_leg-Fails : (to_int64 : V → ℤ) → Fails (realized_leg q req to_int64)
  unfolding realized_leg realized_from_events realized_from_metrics
  realized_leg-Fails to_int64 =
      let from_events =
        chain-Fails (success_loop q req (flow_filters req success) [])
          (λ succeeded. failed_loop q req succeeded (flow_filters req failed) (empty_leg []))
          (success_loop-Fails (flow_filters req success) [] (flow_filters-IsCons req success)) in
      let from_metrics =
        metrics_loop-Fails to_int64 (flow_filters req failed) (empty_leg (metrics_caveat ∷ []))
          (flow_filters-IsCons req failed) in
      either-Fails q.capabilities.events (realized_from_events q req) _ from_events (
        either-Fails q.capabilities.metrics (realized_from_metrics q req to_int64) _ from_metrics
          (EngineError.no_source, refl))

  customers_loop-Fails :
      (fs : List (Map Bytes)) (accts : Map Account)
      → IsCons fs
      → Fails (customers_loop q req fs accts)
  unfolding customers_loop
  customers_loop-Fails [] accts h = cc
  customers_loop-Fails (f ∷ fs) accts h =
      chain-Fails _ _ (wrapped-Fails _ (down.events (customers_query req f)))

  value_loop-Fails :
      (to_int64 : V → ℤ) (reg : Option Registry) (fs : List (Map Bytes)) (saw : Bool)
      (st : DeferredLeg × ℕ)
      → IsCons fs
      → Fails (value_loop to_int64 reg q req fs saw st)
  unfolding value_loop
  value_loop-Fails to_int64 reg [] saw st h = cc
  value_loop-Fails to_int64 reg (f ∷ fs) saw st h =
      chain-Fails _ _
        (wrapped-Fails _ (down.metrics (level_query req (codes "biz_inflight_value") f)))

  terminal_filters-Fails :
      (reg : Option Registry) (fs : List (Map Bytes)) (m : StageSets)
      → IsCons fs
      → Fails (terminal_filters reg q req fs m)
  unfolding terminal_filters
  terminal_filters-Fails reg [] m h = cc
  terminal_filters-Fails reg (f ∷ fs) m h = chain-Fails _ _ (
      wrapped-Fails _ (
        down.events (
          entity_query reg q req EventAgg.groups
            (record { from = start_for reg q req f; to = req.window.to }) f)))

  terminal_loop-Fails :
      (reg : Option Registry) (outcome : Bytes) (outcomes : List Bytes) (m : StageSets)
      → Fails (terminal_loop reg q req (outcome ∷ outcomes) m)
  unfolding terminal_loop
  terminal_loop-Fails reg outcome outcomes m =
      chain-Fails (terminal_filters reg q req (flow_filters req outcome) m) _
        (terminal_filters-Fails reg (flow_filters req outcome) m (flow_filters-IsCons req outcome))

  deferred_from_events-Fails : (reg : Option Registry) → Fails (deferred_from_events reg q req)
  unfolding deferred_from_events
  deferred_from_events-Fails reg = then-Fails (cut_loop reg q req age_cutoffs []) _ (λ inflight.
      chain-Fails (terminal_loop reg q req terminal_outcomes []) _
        (terminal_loop-Fails reg success (failed ∷ abandoned ∷ []) []))

  pub deferred_leg-Fails :
      (to_int64 : V → ℤ) (reg : Option Registry) → Fails (deferred_leg to_int64 reg q req)
  unfolding deferred_leg deferred_from_gauge
  deferred_leg-Fails to_int64 reg =
      let from_gauge =
        chain-Fails (deferred_from_gauge to_int64 reg q req) (gauge_or_events to_int64 reg q req) (
          chain-Fails
            (value_loop to_int64 reg q req (inflight_filters req) false (new_deferred_leg [], 0)) _
            (value_loop-Fails to_int64 reg (inflight_filters req) false _
              (inflight_filters-IsCons req))) in
      either-Fails (not q.capabilities.metrics && not q.capabilities.events)
        (err EngineError.no_source) _ (EngineError.no_source, refl)
        (either-Fails q.capabilities.metrics _ (deferred_from_events reg q req) from_gauge
          (deferred_from_events-Fails reg))

  pub customers-IsUnanswered :
      (top_n : ℤ) → IsUnanswered (customers_or_failed (customers q req top_n))
  unfolding customers
  customers-IsUnanswered top_n =
      let loop =
        chain-Fails (customers_loop q req (flow_filters req failed) [])
          (λ accts. ok (leg_of top_n accts))
          (customers_loop-Fails (flow_filters req failed) [] (flow_filters-IsCons req failed)) in
      either-IsUnanswered q.capabilities.events _ no_events loop (refl, refl, refl, refl)
