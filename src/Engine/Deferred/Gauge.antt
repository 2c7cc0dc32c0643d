-- ===== src/Engine/Deferred/Gauge.antt =====
-- `deferredFromGauge`, the companion counts, and `Deferred`, which picks the source of the leg. A
-- metric's value is read as an int64 by the parameter `to_int64`.
use shortfall.Prelude.{
  ℕ, Bool, true, false, not, ◌&&◌, ◌||◌, Option, none, some, List, [], ◌∷◌, ◌++◌, Bytes, codes, ltb,
  ◌==◌, if◌then◌else◌, Result, ok, err, ◌>>=◌,
}
use shortfall.Prelude.Int.{ℤ, pos, negsuc}
use shortfall.Prelude.Int64.{add64}
use shortfall.Prelude.Maps.{Map, put, label}
use shortfall.Registry.{Registry}
use shortfall.Query.{MetricQuery, Agg, SeriesSlice, Querier}
use shortfall.Engine.{Request, EngineError, no_source, wrapped, add_to, add_points, copied}
use shortfall.Engine.Deferred.{
  DeferredLeg, new_deferred_leg, bucket_index, breached, breached_and_lost,
}
use shortfall.Engine.Deferred.Events.{add_in_bucket, with_oldest, deferred_from_events}

-- `inflightFilters(req)`
unfoldable pub flow_scopes : Map Bytes → List Bytes → List (Map Bytes)
flow_scopes scope [] = []
flow_scopes scope (f ∷ fs) = put (codes "flow") f (copied scope []) ∷ flow_scopes scope fs

unfoldable pub inflight_filters : Request → List (Map Bytes)
unfolding flow_scopes copied
inflight_filters req = elim req.flows [
  | [] ↦ copied req.scope [] ∷ []
  | f ∷ fs ↦ flow_scopes (copied req.scope []) (f ∷ fs)
]

abbrev pub is_zero : ℤ → Bool
is_zero (pos n) = n == 0
is_zero (negsuc n) = false

abbrev pub nonempty : {A : Type 0} → List A → Bool
nonempty [] = false
nonempty (_ ∷ _) = true

abbrev pub level_query : Request → Bytes → Map Bytes → MetricQuery
level_query req metric filters = record {
  metric = metric;
  agg = Agg.other_agg [];
  filters = filters;
  group_by = codes "flow" ∷ codes "stage" ∷ codes "age_bucket" ∷ codes "currency" ∷ [];
  range = req.window;
  step = pos 0;
}

-- the label of a series
abbrev series_label : {V : Type 0} → Bytes → SeriesSlice V → Bytes
series_label name s = label name s.labels

abbrev tests_true :
    {V : Type 0}
    → (Registry → Bytes → Bytes → Bytes → Bool)
    → Option Registry
    → SeriesSlice V
    → Bool
tests_true test none s = false
tests_true test (some r) s =
    test r (series_label (codes "flow") s) (series_label (codes "stage") s)
      (series_label (codes "age_bucket") s)

-- the caveat on counts, by its first words
unfoldable pub with_count_caveat : Bool × DeferredLeg → DeferredLeg
with_count_caveat (saw_count, leg) =
    if not saw_count && nonempty leg.by_age_bucket
    then record leg {
      leg = record leg.leg {
        caveats =
            leg.leg.caveats
            ++ codes "in-flight and SLA-breach transaction COUNTS are unavailable" ∷ [];
      };
    }
    else leg

module _ {V : Type 0} (to_int64 : V → ℤ) (reg : Option Registry) where
  -- `lastLevel(s)`
  unfoldable pub last_level : SeriesSlice V → ℤ
  unfolding add_points
  last_level s = add_points to_int64 s.points (pos 0)

  -- one round of the loop over the series of `biz_inflight_value`
  unfoldable pub add_series : SeriesSlice V → DeferredLeg × ℕ → DeferredLeg × ℕ
  unfolding last_level add_in_bucket add_to bucket_index breached_and_lost
  add_series s (leg, oldest) =
      let level = last_level s in
      let bucket = series_label (codes "age_bucket") s in
      let currency = series_label (codes "currency") s in
      if is_zero level then (leg, oldest) else (
        record leg {
          by_age_bucket = add_in_bucket bucket currency level leg.by_age_bucket;
          leg = record leg.leg { by_currency = add_to currency level leg.leg.by_currency };
          projected_lost_minor =
              if tests_true breached_and_lost reg s
              then add_to currency level leg.projected_lost_minor
              else leg.projected_lost_minor;
        },
        if ltb oldest (bucket_index bucket) then bucket_index bucket else oldest,
      )

  unfoldable pub add_levels : List (SeriesSlice V) → DeferredLeg × ℕ → DeferredLeg × ℕ
  unfolding add_series
  add_levels [] st = st
  add_levels (s ∷ ss) st = add_levels ss (add_series s st)

  -- one round of the loop over the series of `biz_inflight_count`: whether a count was seen, and the leg
  unfoldable pub add_count : SeriesSlice V → Bool × DeferredLeg → Bool × DeferredLeg
  unfolding last_level breached
  add_count s (saw_count, leg) =
      let count = last_level s in
      if is_zero count then (saw_count, leg) else (
        true,
        record leg {
          leg = record leg.leg { count = add64 leg.leg.count count };
          sla_breaches =
              if tests_true breached reg s then add64 leg.sla_breaches count else leg.sla_breaches;
        },
      )

  unfoldable pub add_level_counts : List (SeriesSlice V) → Bool × DeferredLeg → Bool × DeferredLeg
  unfolding add_count
  add_level_counts [] st = st
  add_level_counts (s ∷ ss) st = add_level_counts ss (add_count s st)

  module _ (q : Querier V) (req : Request) where
    unfoldable pub value_loop :
        List (Map Bytes) → Bool → DeferredLeg × ℕ → Result EngineError (Bool × (DeferredLeg × ℕ))
    value_loop [] saw_gauge st = ok (saw_gauge, st)
    value_loop (f ∷ fs) saw_gauge st = do
      series ← wrapped (q.query_metric (level_query req (codes "biz_inflight_value") f))
      value_loop fs (saw_gauge || nonempty series) (add_levels series st)

    unfoldable pub count_loop :
        List (Map Bytes) → Bool × DeferredLeg → Result EngineError (Bool × DeferredLeg)
    count_loop [] st = ok st
    count_loop (f ∷ fs) st = do
      series ← wrapped (q.query_metric (level_query req (codes "biz_inflight_count") f))
      count_loop fs (add_level_counts series st)

    -- `fillDeferredCounts`
    unfoldable pub fill_deferred_counts : DeferredLeg → Result EngineError DeferredLeg
    unfolding count_loop with_count_caveat inflight_filters
    fill_deferred_counts leg = do
      st ← count_loop (inflight_filters req) (false, leg)
      ok (with_count_caveat st)

    -- `deferredFromGauge`
    unfoldable pub deferred_from_gauge : Result EngineError (DeferredLeg × Bool)
    unfolding value_loop fill_deferred_counts inflight_filters with_oldest
    deferred_from_gauge = do
      found ← value_loop (inflight_filters req) false (new_deferred_leg [], 0)
      leg ← fill_deferred_counts (with_oldest found.1)
      ok (leg, found.0)

    -- `Deferred`
    abbrev pub gauge_or_events : DeferredLeg × Bool → Result EngineError DeferredLeg
    gauge_or_events (leg, saw_gauge) =
        if saw_gauge || not q.capabilities.events then ok leg else deferred_from_events reg q req

    unfoldable pub deferred_leg : Result EngineError DeferredLeg
    unfolding deferred_from_gauge
    deferred_leg =
        if not q.capabilities.metrics && not q.capabilities.events
        then err no_source
        else if q.capabilities.metrics
        then deferred_from_gauge >>= gauge_or_events
        else deferred_from_events reg q req
