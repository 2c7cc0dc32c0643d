-- ===== src/Query/Memq/Metrics.antt =====
-- query/memq/memq.go: the metric queries of the in-memory backend. The float64 operations are parameters.
pub mod Buckets
pub mod Latest
mod Tests
use shortfall.Prelude.{
  ℕ, zero, suc, Bool, true, false, not, ◌&&◌, ◌||◌, Option, none, some, List, [], ◌∷◌, ◌++◌, map,
  Bytes, codes, ◌=?◌, if◌then◌else◌, Result, ok, err, ◌>>◌, fail_if,
}
use shortfall.Prelude.Int.{ℤ, pos, ltb_ℤ, pos_part, ◌+ℤ◌, ◌-ℤ◌}
use shortfall.Prelude.Maps.{Map, find, put}
use shortfall.Prelude.Sort.{sort_by, ltb_bytes}
use shortfall.Biz.Context.{Time}
use shortfall.Query.{TimeRange, MetricQuery, Agg, Point, SeriesSlice, QueryError, Caps}
use shortfall.Emit.Emitter.{MetricPoint}
use shortfall.Query.Memq.{in_range, match_filters, group_key, canonical}

-- `gaugeFamilies`
unfoldable pub is_gauge : Bytes → Bool
unfolding ◌=?◌
is_gauge name = name =? codes "biz_inflight_value" || name =? codes "biz_inflight_count"

-- the tests of the loop over the points
unfoldable pub admits : MetricQuery → MetricPoint → Bool
unfolding is_gauge in_range match_filters ◌=?◌
admits qy p =
    p.name =? qy.metric
    && match_filters p.labels qy.filters
    && (if is_gauge qy.metric then ltb_ℤ p.at qy.range.to else in_range p.at qy.range)

-- `type bucketed struct`, with its canonical key in front
pub record Series : Type 0 where
  pub name : Bytes
  pub labels : Map Bytes
  pub points : List MetricPoint

-- one round: the point joins its series, or begins one
unfoldable pub join_series : Bytes → Map Bytes → MetricPoint → List Series → List Series
unfolding ◌=?◌
join_series ck key p [] = record { name = ck; labels = key; points = p ∷ [] } ∷ []
join_series ck key p (g ∷ gs) =
    let rest = join_series ck key p gs in
    if g.name =? ck then record g { points = g.points ++ p ∷ [] } ∷ gs else g ∷ rest

unfoldable pub series_of : MetricQuery → List MetricPoint → List Series → List Series
unfolding admits group_key canonical join_series
series_of qy [] gs = gs
series_of qy (p ∷ ps) gs =
    let key = group_key p.labels qy.group_by in
    series_of qy ps (if admits qy p then join_series (canonical key) key p gs else gs)

-- The boundaries of the buckets of a positive step. Each round begins later, so that the length of the
-- range, in nanoseconds, bounds the rounds.
abbrev pub end_of : Time → ℤ → Time → Time
end_of start step to = if ltb_ℤ to (start +ℤ step) then to else start +ℤ step

unfoldable pub bounds_from : ℕ → Time → ℤ → Time → List TimeRange
unfolding ◌+ℤ◌
bounds_from zero start step to = []
bounds_from (suc fuel) start step to =
    let rest = bounds_from fuel (start +ℤ step) step to in
    if ltb_ℤ start to then record { from = start; to = end_of start step to } ∷ rest else []

unfoldable pub bounds : TimeRange → ℤ → List TimeRange
unfolding bounds_from ◌-ℤ◌
bounds range step = bounds_from (pos_part (range.to -ℤ range.from)) range.from step range.to

-- `type level struct`
pub record Level : Type 0 where
  pub at : Time
  pub value : ℤ

abbrev pub is_newer : Option Level → MetricPoint → Bool
is_newer none p = true
is_newer (some cur) p = ltb_ℤ cur.at p.at

-- the loop that keeps the last level of each series before the boundary
unfoldable pub levels : Time → List MetricPoint → Map Level → Map Level
unfolding find put canonical
levels to [] last = last
levels to (p ∷ ps) last =
    let id = canonical p.labels in
    levels to ps (
      if ltb_ℤ p.at to && is_newer (find id last) p
      then put id (record { at = p.at; value = p.value }) last
      else last)

-- `float64(n)`, and the sum of float64
module _ {F : Type 0} (float64 : ℤ → F) (plus : F → F → F) where
  sum_levels : Map Level → F → F
  sum_levels [] sum = sum
  sum_levels ((_, l) ∷ m) sum = sum_levels m (plus sum (float64 l.value))

  count_levels : Map Level → F → F
  count_levels [] n = n
  count_levels (_ ∷ m) n = count_levels m (plus n (float64 (pos 1)))

  -- the levels as a value, none where there is no level
  unfoldable pub level_value : Agg → Map Level → Option F
  unfolding sum_levels count_levels
  level_value agg [] = none
  level_value Agg.count (e ∷ m) = some (count_levels (e ∷ m) (float64 (pos 0)))
  level_value _ (e ∷ m) = some (sum_levels (e ∷ m) (float64 (pos 0)))

  -- the loop over a counter's points: nothing so far, or the sum and the count
  unfoldable pub increase : TimeRange → List MetricPoint → Option (F × F) → Option (F × F)
  unfolding in_range
  increase range [] acc = acc
  increase range (p ∷ ps) none = increase range ps (
      if in_range p.at range
      then some (plus (float64 (pos 0)) (float64 p.value), plus (float64 (pos 0)) (float64 (pos 1)))
      else none)
  increase range (p ∷ ps) (some (sum, n)) = increase range ps (
      if in_range p.at range
      then some (plus sum (float64 p.value), plus n (float64 (pos 1)))
      else some (sum, n))

  unfoldable pub increase_value : Agg → Option (F × F) → Option F
  increase_value agg none = none
  increase_value Agg.count (some (sum, n)) = some n
  increase_value _ (some (sum, n)) = some sum

  -- `aggregate(points, from, to, agg, gauge)`
  unfoldable pub aggregate : List MetricPoint → TimeRange → Agg → Bool → Option F
  unfolding levels level_value increase increase_value
  aggregate points range agg true = level_value agg (levels range.to points [])
  aggregate points range agg false = increase_value agg (increase range points none)

  abbrev add_point : Time → Option F → List (Point F) → List (Point F)
  add_point at none ps = ps
  add_point at (some v) ps = record { at = at; value = v } ∷ ps

  -- the loop over the buckets
  unfoldable pub bucketed : List TimeRange → List MetricPoint → Agg → Bool → List (Point F)
  unfolding aggregate
  bucketed [] points agg gauge = []
  bucketed (b ∷ bs) points agg gauge =
      add_point b.from (aggregate points b agg gauge) (bucketed bs points agg gauge)

  -- `bucketPoints(points, qy, gauge)`
  unfoldable pub bucket_points : List MetricPoint → MetricQuery → Bool → List (Point F)
  unfolding bucketed bounds
  bucket_points points qy gauge =
      if ltb_ℤ (pos 0) qy.step
      then bucketed (bounds qy.range qy.step) points qy.agg gauge
      else bucketed (qy.range ∷ []) points qy.agg gauge

  abbrev to_slice : MetricQuery → Series → SeriesSlice F
  to_slice qy g = record {
    labels = g.labels;
    points = bucket_points g.points qy (is_gauge qy.metric);
  }

  -- `Querier.QueryMetric` over the capabilities and the points that the Querier holds
  unfoldable pub query_metric :
      Caps → List MetricPoint → MetricQuery → Result QueryError (List (SeriesSlice F))
  unfolding series_of bucket_points
  query_metric caps points qy = do
    fail_if (not caps.metrics) QueryError.unsupported
    ok (map (to_slice qy) (sort_by (λ a b. ltb_bytes a.name b.name) (series_of qy points [])))
