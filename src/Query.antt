-- ===== src/Query.antt =====
-- query/query.go: the questions that the engine asks of a backend, and query/combine.go, which pairs
-- two backends. `V` is the type of a metric's values, a float64 in the source.
pub mod Memq
use shortfall.Prelude.{ℕ, ◌≡◌, refl, Bool, List, Bytes, Result}
use shortfall.Prelude.Int.{ℤ}
use shortfall.Prelude.Maps.{Map}
use shortfall.Biz.Context.{Time}

-- The half-open window [From, To).
pub record TimeRange : Type 0 where
  pub from : Time
  pub to : Time

-- `type Agg string`
pub data Agg : Type 0 where
  sum count : Agg
  other_agg : Bytes → Agg

pub record MetricQuery : Type 0 where
  pub metric : Bytes
  pub agg : Agg
  pub filters : Map Bytes
  pub group_by : List Bytes
  pub range : TimeRange
  pub step : ℤ

-- `type EventAgg string`, with a constructor for the texts that are no constant
pub data EventAgg : Type 0 where
  groups distinct_count max_per_group : EventAgg
  other_agg : Bytes → EventAgg

pub data EventOrder : Type 0 where
  order_none sum_desc count_desc : EventOrder
  other_order : Bytes → EventOrder

pub record EventQuery : Type 0 where
  pub filters : Map Bytes
  pub group_by : List Bytes
  pub range : TimeRange
  pub agg : EventAgg
  pub order_by : EventOrder
  pub limit : ℤ

pub record Point (V : Type 0) : Type 0 where
  pub at : Time
  pub value : V

pub record SeriesSlice (V : Type 0) : Type 0 where
  pub labels : Map Bytes
  pub points : List (Point V)

pub record EventGroup : Type 0 where
  pub key : Map Bytes
  pub count : ℤ
  pub sum_minor : ℤ
  pub max_minor : ℤ

pub record Caps : Type 0 where
  pub metrics : Bool
  pub events : Bool
  pub metric_history_weeks : ℕ
  pub event_history_weeks : ℕ

pub data QueryError : Type 0 where
  unsupported crosses_currencies unknown_order limit_without_order : QueryError
  backend : Bytes → QueryError

-- `type Querier interface`
pub record Querier (V : Type 0) : Type 0 where
  pub query_metric : MetricQuery → Result QueryError (List (SeriesSlice V))
  pub query_events : EventQuery → Result QueryError (List EventGroup)
  pub capabilities : Caps

-- `Combine(metrics, events)`, both present
unfoldable pub combine : {V : Type 0} → Querier V → Querier V → Querier V
combine metrics events = record {
  query_metric = metrics.query_metric;
  query_events = events.query_events;
  capabilities = record {
    metrics = metrics.capabilities.metrics;
    events = events.capabilities.events;
    metric_history_weeks = metrics.capabilities.metric_history_weeks;
    event_history_weeks = events.capabilities.event_history_weeks;
  };
}
