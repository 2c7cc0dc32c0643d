-- ===== src/Engine/Realized.antt =====
-- engine/realized.go: value that terminally failed, each entity once, net of what recovered.
use shortfall.Prelude.{
  Bool, false, ◌||◌, List, [], ◌∷◌, Bytes, codes, ◌=?◌, Result, ok, err, ◌>>=◌, if◌then◌else◌,
}
use shortfall.Prelude.Int.{ℤ, pos}
use shortfall.Prelude.Int64.{add64}
use shortfall.Prelude.Maps.{Map, label}
use shortfall.Biz.Context.{success, failed}
use shortfall.Query.{
  EventQuery, EventAgg, EventOrder, EventGroup, MetricQuery, Agg, Point, SeriesSlice, Querier,
}
use shortfall.Engine.{
  Request, Evidence, Leg, EngineError, no_source, wrapped, add_to, flow_filters, add_points,
}

abbrev pub entity_of : EventGroup → Bytes
entity_of g = label (codes "entity") g.key

abbrev pub currency_of : EventGroup → Bytes
currency_of g = label (codes "currency") g.key

-- a map of strings to true is the list of its keys
unfoldable pub member : Bytes → List Bytes → Bool
member k [] = false
member k (j ∷ ks) = j =? k || member k ks

-- the query of the success loop, and that of the failed loop
abbrev pub success_query : Request → Map Bytes → EventQuery
success_query req filters = record {
  filters = filters;
  group_by = codes "currency" ∷ codes "entity" ∷ [];
  range = req.window;
  agg = EventAgg.groups;
  order_by = EventOrder.order_none;
  limit = pos 0;
}

abbrev pub failed_query : Request → Map Bytes → EventQuery
failed_query req filters = record {
  filters = filters;
  group_by = codes "currency" ∷ codes "entity" ∷ [];
  range = req.window;
  agg = EventAgg.max_per_group;
  order_by = EventOrder.order_none;
  limit = pos 0;
}

-- `for _, g := range groups { succeeded[g.Key["entity"]] = true }`
unfoldable pub note_succeeded : List EventGroup → List Bytes → List Bytes
note_succeeded [] succeeded = succeeded
note_succeeded (g ∷ gs) succeeded = note_succeeded gs (entity_of g ∷ succeeded)

-- one round of the loop over the failed groups: skip what recovered, count the rest
unfoldable pub add_group : List Bytes → EventGroup → Leg → Leg
add_group succeeded g leg = if member (entity_of g) succeeded then leg else record leg {
  by_currency = add_to (currency_of g) g.max_minor leg.by_currency;
  count = add64 leg.count (pos 1);
}

unfoldable pub add_failed : List Bytes → List EventGroup → Leg → Leg
unfolding add_group
add_failed succeeded [] leg = leg
add_failed succeeded (g ∷ gs) leg = add_failed succeeded gs (add_group succeeded g leg)

abbrev pub empty_leg : List Bytes → Leg
empty_leg caveats = record {
  count = pos 0;
  by_currency = [];
  evidence = Evidence.deterministic;
  caveats = caveats;
  unavailable = false;
}

abbrev pub metrics_caveat : Bytes
metrics_caveat = codes "metrics-only: upper bound, not de-duped by entity"

module _ {V : Type 0} (q : Querier V) (req : Request) where
  unfoldable pub success_loop : List (Map Bytes) → List Bytes → Result EngineError (List Bytes)
  success_loop [] succeeded = ok succeeded
  success_loop (f ∷ fs) succeeded = do
    groups ← wrapped (q.query_events (success_query req f))
    success_loop fs (note_succeeded groups succeeded)

  unfoldable pub failed_loop : List Bytes → List (Map Bytes) → Leg → Result EngineError Leg
  failed_loop succeeded [] leg = ok leg
  failed_loop succeeded (f ∷ fs) leg = do
    groups ← wrapped (q.query_events (failed_query req f))
    failed_loop succeeded fs (add_failed succeeded groups leg)

  -- `realizedFromEvents`
  unfoldable pub realized_from_events : Result EngineError Leg
  realized_from_events = do
    succeeded ← success_loop (flow_filters req success) []
    failed_loop succeeded (flow_filters req failed) (empty_leg [])

  abbrev pub value_query : Map Bytes → MetricQuery
  value_query f = record {
    metric = codes "biz_value_total";
    agg = Agg.sum;
    filters = f;
    group_by = codes "currency" ∷ [];
    range = req.window;
    step = pos 0;
  }

  abbrev pub count_query : Map Bytes → MetricQuery
  count_query f = record {
    metric = codes "biz_txn_total";
    agg = Agg.sum;
    filters = f;
    group_by = [];
    range = req.window;
    step = pos 0;
  }

  module _ (to_int64 : V → ℤ) where
    -- the loops over the points of a series, and over the series
    unfoldable pub value_points : Bytes → List (Point V) → Map ℤ → Map ℤ
    unfolding add_to
    value_points cur [] m = m
    value_points cur (p ∷ ps) m = value_points cur ps (add_to cur (to_int64 p.value) m)

    unfoldable pub add_values : List (SeriesSlice V) → Leg → Leg
    unfolding value_points
    add_values [] leg = leg
    add_values (s ∷ ss) leg = add_values ss (record leg {
      by_currency = value_points (label (codes "currency") s.labels) s.points leg.by_currency;
    })

    unfoldable pub add_counts : List (SeriesSlice V) → Leg → Leg
    unfolding add_points
    add_counts [] leg = leg
    add_counts (s ∷ ss) leg =
        add_counts ss (record leg { count = add_points to_int64 s.points leg.count })

    unfoldable pub metrics_loop : List (Map Bytes) → Leg → Result EngineError Leg
    unfolding add_values add_counts
    metrics_loop [] leg = ok leg
    metrics_loop (f ∷ fs) leg = do
      value ← wrapped (q.query_metric (value_query f))
      count ← wrapped (q.query_metric (count_query f))
      metrics_loop fs (add_counts count (add_values value leg))

    -- `realizedFromMetrics`
    unfoldable pub realized_from_metrics : Result EngineError Leg
    unfolding metrics_loop
    realized_from_metrics = metrics_loop (flow_filters req failed) (empty_leg (metrics_caveat ∷ []))

    -- `RealizedLeg`
    unfoldable pub realized_leg : Result EngineError Leg
    realized_leg =
        if q.capabilities.events
        then realized_from_events
        else if q.capabilities.metrics
        then realized_from_metrics
        else err no_source
