-- ===== src/Engine/Unrealized/Values.antt =====
-- The types of the counterfactual leg, the hours that it estimates over, and the value of an hour.
use shortfall.Prelude.{
  ℕ, zero, suc, ◌/◌, Bool, true, false, none, some, List, [], ◌∷◌, ◌++◌, Bytes, codes, ◌==◌,
  if◌then◌else◌, Result, ok, ◌>>=◌,
}
use shortfall.Prelude.Int.{ℤ, pos, negsuc, pos_part, ltb_ℤ, ◌+ℤ◌, ◌-ℤ◌}
use shortfall.Prelude.Maps.{Map, find, put, label}
use shortfall.Biz.Context.{Time}
use shortfall.Query.{TimeRange, MetricQuery, Agg, QueryError, Querier, SeriesSlice, Point}
use shortfall.Engine.{Evidence}
use shortfall.Engine.Floats.{Floats}
use shortfall.Engine.Baseline.{Sample, Expectation, hour, floor_div, floor_mod, zero_of}

-- the texts of the leg's notes, with their values
pub data Note : Type 0 where
  no_registry no_metrics no_hours no_flow : Note
  not_in_registry : Bytes → Note
  no_baseline : Bytes → Note
  retention_gap : Bytes → ℕ → ℤ → Note
  holidays_ignored : Bytes → Bytes → Note
  no_history : Bytes → ℤ → Note
  aov_query_failed : Bytes → Bytes → QueryError → Note
  no_aov : Bytes → Bytes → Note
  aov_understates : Bytes → Bytes → Note
  no_hour_history : Bytes → Bytes → Note
  net_of_recovery : Bytes → Note
  gross : Bytes → Note
  thin_history : Note
  attribution : ℤ → Note
  leg_failed : Note

-- `type EstLeg struct`
pub record EstLeg : Type 0 where
  pub low_minor : Map ℤ
  pub mid_minor : Map ℤ
  pub high_minor : Map ℤ
  pub evidence : Evidence
  pub notes : List Note
  pub unavailable : Bool

-- `t.Truncate(time.Hour)`
unfoldable pub truncate_hour : Time → Time
unfolding ◌-ℤ◌
truncate_hour t = t -ℤ pos (floor_mod t hour)

abbrev pub first_hour : Time → Time
first_hour from =
    if ltb_ℤ (truncate_hour from) from then truncate_hour from +ℤ pos hour else truncate_hour from

-- The loop over the hours. Each begins an hour later, so that one round more than the whole hours up to
-- the window's end is enough.
unfoldable pub instants_from : ℕ → Time → Time → List Time
unfolding ◌+ℤ◌
instants_from zero t to = []
instants_from (suc fuel) t to =
    let rest = instants_from fuel (t +ℤ pos hour) to in if ltb_ℤ t to then t ∷ rest else []

-- `hourlyInstants(w)`
unfoldable pub hourly_instants : TimeRange → List Time
unfolding instants_from truncate_hour ◌+ℤ◌ ◌-ℤ◌
hourly_instants w =
    instants_from (suc (pos_part (w.to -ℤ first_hour w.from) / hour)) (first_hour w.from) w.to

-- `hourKey(t)`: the number of the hour, for the second at which it begins
abbrev pub hour_key : Time → ℤ
hour_key t = floor_div t hour

abbrev pub same_hour : ℤ → ℤ → Bool
same_hour (pos a) (pos b) = a == b
same_hour (negsuc a) (negsuc b) = a == b
same_hour (pos a) (negsuc b) = false
same_hour (negsuc a) (pos b) = false

-- `m[k]` of a map to slices
unfoldable pub samples_of : {F : Type 0} → Bytes → Map (List (Sample F)) → List (Sample F)
unfolding find
samples_of k m = elim (find k m) [ none ↦ [] | some xs ↦ xs ]

-- `low`, `mid`, `high` and the marks of the loop over the hours
pub record HourSums (F : Type 0) : Type 0 where
  pub low : F
  pub mid : F
  pub high : F
  pub valued : Bool
  pub thin : Bool

module _ {F : Type 0} (fl : Floats F) where
  -- `hourMap(samples)`, a map that is 0 where it has no key
  unfoldable pub hour_map : List (Sample F) → (ℤ → F) → ℤ → F
  hour_map [] m = m
  hour_map (s ∷ samples) m =
      hour_map samples (λ k. if same_hour (hour_key s.at) k then fl.plus (m k) s.count else m k)

  -- `clampFraction(f)`
  unfoldable pub clamp_fraction : F → F
  clamp_fraction x =
      if fl.is_nan x
      then zero_of fl
      else if fl.less x (zero_of fl)
      then zero_of fl
      else if fl.less (fl.of_int (pos 1)) x
      then fl.of_int (pos 1)
      else x

  -- `shortfallValue(expected, observed, aovMinorUnits, recovery)`
  unfoldable pub shortfall_value : F → F → ℤ → F → F
  shortfall_value expected observed aov recovery =
      let short = fl.minus expected observed in
      if fl.at_most short (zero_of fl)
      then zero_of fl
      else fl.times (fl.times short (fl.of_int aov)) (fl.minus (fl.of_int (pos 1)) recovery)

  -- one round of the loop over the expectations
  unfoldable pub add_hour : F → ℤ → F → Expectation F → HourSums F → HourSums F
  unfolding shortfall_value
  add_hour o aov recovery e h = if e.n == 0 then record h { thin = true } else record {
    low = fl.plus h.low (shortfall_value e.lower o aov recovery);
    mid = fl.plus h.mid (shortfall_value e.expected o aov recovery);
    high = fl.plus h.high (shortfall_value e.upper o aov recovery);
    valued = true;
    thin = h.thin;
  }

  unfoldable pub add_hours :
      (ℤ → F) → ℤ → F → List (Expectation F) → List Time → HourSums F → HourSums F
  unfolding add_hour
  add_hours observed aov recovery [] ts h = h
  add_hours observed aov recovery (e ∷ es) [] h = h
  add_hours observed aov recovery (e ∷ es) (t ∷ ts) h =
      add_hours observed aov recovery es ts (add_hour (observed (hour_key t)) aov recovery e h)

  abbrev pub no_hours_yet : HourSums F
  no_hours_yet = record {
    low = zero_of fl;
    mid = zero_of fl;
    high = zero_of fl;
    valued = false;
    thin = false;
  }

  unfoldable pub hour_sums : List (Sample F) → ℤ → F → List (Expectation F) → List Time → HourSums F
  unfolding add_hours hour_map
  hour_sums observed aov recovery exp target =
      add_hours (hour_map observed (λ _. zero_of fl)) aov recovery exp target no_hours_yet

  -- the loops of `hourlyEntriesByCurrency` over the points of a series, and over the series
  unfoldable pub add_samples :
      Bytes → List (Point F) → Map (List (Sample F)) → Map (List (Sample F))
  unfolding put samples_of
  add_samples cur [] out = out
  add_samples cur (p ∷ ps) out =
      add_samples cur ps
        (put cur (samples_of cur out ++ record { at = p.at; count = p.value } ∷ []) out)

  unfoldable pub entries_of : List (SeriesSlice F) → Map (List (Sample F)) → Map (List (Sample F))
  unfolding add_samples label
  entries_of [] out = out
  entries_of (s ∷ series) out =
      entries_of series (add_samples (label (codes "currency") s.labels) s.points out)

  abbrev pub entries_query : Bytes → Bytes → TimeRange → MetricQuery
  entries_query flow entry_stage r = record {
    metric = codes "biz_txn_total";
    agg = Agg.sum;
    filters = (codes "flow", flow) ∷ (codes "stage", entry_stage) ∷ [];
    group_by = codes "currency" ∷ [];
    range = r;
    step = pos hour;
  }

  unfoldable pub hourly_entries :
      Querier F → Bytes → Bytes → TimeRange → Result QueryError (Map (List (Sample F)))
  unfolding entries_of
  hourly_entries q flow entry_stage r = do
    series ← q.query_metric (entries_query flow entry_stage r)
    ok (entries_of series [])
