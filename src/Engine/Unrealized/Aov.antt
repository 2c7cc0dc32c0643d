-- ===== src/Engine/Unrealized/Aov.antt =====
-- The average order value of a currency, and the hint at a provider.
use shortfall.Prelude.{
  Bool, false, ◌&&◌, ◌||◌, Option, none, some, List, [], ◌∷◌, Bytes, codes, ◌=?◌, if◌then◌else◌,
  Result, ok, err,
}
use shortfall.Prelude.Int.{ℤ, pos, ltb_ℤ}
use shortfall.Prelude.Int64.{add64}
use shortfall.Prelude.Maps.{Map, put}
use shortfall.Biz.Money.{Money}
use shortfall.Query.{
  TimeRange, Agg, EventQuery, EventAgg, EventOrder, EventGroup, QueryError, Querier, SeriesSlice,
  Point,
}
use shortfall.Registry.{Flow, value_stage, estimate_money}
use shortfall.Registry.Rules.{is_nil}
use shortfall.Engine.{Request}
use shortfall.Engine.Floats.{Floats}
use shortfall.Engine.Baseline.{zero_of}
use shortfall.Engine.Unrealized.Values.{Note}

pub data AovSource : Type 0 where
  from_events from_metric from_estimator : AovSource

-- the loop that adds the amounts and the counts of the groups
unfoldable pub totals_of : List EventGroup → ℤ → ℤ → ℤ × ℤ
unfolding add64
totals_of [] sum count = (sum, count)
totals_of (g ∷ gs) sum count = totals_of gs (add64 sum g.sum_minor) (add64 count g.count)

-- the loop of `flowAllowsCurrency`
unfoldable pub is_listed : List Bytes → Bytes → Bool
unfolding ◌=?◌
is_listed [] currency = false
is_listed (c ∷ cs) currency = c =? currency || is_listed cs currency

abbrev pub flow_allows_currency : Flow → Bytes → Bool
flow_allows_currency f currency = is_nil f.currencies || is_listed f.currencies currency

abbrev pub with_stage : Bytes → Map Bytes → Map Bytes
with_stage stage filters = if is_nil stage then filters else put (codes "stage") stage filters

abbrev pub aov_filters : Bytes → Bytes → Flow → Map Bytes
aov_filters flow currency f =
    with_stage (value_stage f) (
      (codes "flow", flow) ∷ (codes "outcome", codes "success") ∷ (codes "currency", currency) ∷ [])

abbrev pub aov_query : Map Bytes → TimeRange → EventQuery
aov_query filters window = record {
  filters = filters;
  group_by = [];
  range = window;
  agg = EventAgg.groups;
  order_by = EventOrder.order_none;
  limit = pos 0;
}

abbrev pub from_estimate : Option Money → Bool → Option (ℤ × AovSource)
from_estimate none allowed = none
from_estimate (some m) allowed = if allowed then some (m.amount, AovSource.from_estimator) else none

module _ {F : Type 0} (fl : Floats F) where
  unfoldable pub total_points : List (Point F) → F → F
  total_points [] total = total
  total_points (p ∷ ps) total = total_points ps (fl.plus total p.value)

  unfoldable pub total_series : List (SeriesSlice F) → F → F
  unfolding total_points
  total_series [] total = total
  total_series (s ∷ series) total = total_series series (total_points s.points total)

  abbrev pub total_or_zero : Result QueryError (List (SeriesSlice F)) → F
  total_or_zero (ok series) = total_series series (zero_of fl)
  total_or_zero (err e) = zero_of fl

  -- `sumMetric(ctx, q, metric, filters, window)`
  unfoldable pub sum_metric : Querier F → Bytes → Map Bytes → TimeRange → F
  unfolding total_series
  sum_metric q metric filters window = total_or_zero (
      q.query_metric (record {
        metric = metric;
        agg = Agg.sum;
        filters = filters;
        group_by = [];
        range = window;
        step = pos 0;
      }))

  module _ (q : Querier F) (flow : Bytes) (currency : Bytes) (f : Flow) (window : TimeRange) where
    -- the counters' ratio, or the estimator
    unfoldable pub counter_or_estimate : Option (ℤ × AovSource)
    unfolding sum_metric is_listed value_stage estimate_money put
    counter_or_estimate =
        let value = sum_metric q (codes "biz_value_total") (aov_filters flow currency f) window in
        let count = sum_metric q (codes "biz_txn_total") (aov_filters flow currency f) window in
        if q.capabilities.metrics && (fl.less (zero_of fl) count && fl.less (zero_of fl) value)
        then some (fl.to_int64 (fl.round (fl.div value count)), AovSource.from_metric)
        else from_estimate (estimate_money f [] currency) (flow_allows_currency f currency)

    abbrev pub mean_or : ℤ × ℤ → Option (ℤ × AovSource)
    mean_or (sum, count) =
        if ltb_ℤ (pos 0) count
        then some (
          fl.to_int64 (fl.round (fl.div (fl.of_int sum) (fl.of_int count))),
          AovSource.from_events,
        )
        else counter_or_estimate

    abbrev pub from_answer :
        Result QueryError (List EventGroup) → Option Note × Option (ℤ × AovSource)
    from_answer (err e) = (some (Note.aov_query_failed flow currency e), counter_or_estimate)
    from_answer (ok groups) = (none, mean_or (totals_of groups (pos 0) (pos 0)))

    -- `aovMinor`: the disclosure, and the value with its source
    unfoldable pub aov_minor : Option Note × Option (ℤ × AovSource)
    unfolding counter_or_estimate totals_of value_stage put
    aov_minor =
        if q.capabilities.events
        then from_answer (q.query_events (aov_query (aov_filters flow currency f) window))
        else (none, counter_or_estimate)

  -- `upstreamAttribution(ctx, q, req)`
  unfoldable pub upstream_attribution : Querier F → Request → Option Note
  unfolding sum_metric
  upstream_attribution q req =
      let failed =
        sum_metric q (codes "biz_provider_calls_total") ((codes "outcome", codes "failed") ∷ [])
          req.window in
      if fl.at_most failed (zero_of fl) then none else some (Note.attribution (fl.to_int64 failed))
