-- ===== src/Engine/Coverage.antt =====
-- engine/coverage.go: the share of the ledger's value that the telemetry saw. The float64 operations and
-- the conversion of a metric's value to int64 are parameters.
pub mod Loop
pub mod Worst
pub mod Booked
mod Tests
use shortfall.Prelude.{
  ℕ, Bool, true, false, not, Option, none, some, List, [], ◌∷◌, ◌++◌, map, Bytes, codes, ◌=?◌,
  Result, ok, err, ◌>>=◌, ◌>>◌, fail_if, if◌then◌else◌,
}
use shortfall.Prelude.Int.{ℤ, pos, ltb_ℤ}
use shortfall.Prelude.Int64.{add64}
use shortfall.Prelude.Maps.{Map, find, put, label}
use shortfall.Biz.Context.{LedgerRow, success}
use shortfall.Query.{
  TimeRange, Querier, Agg, MetricQuery, EventQuery, EventAgg, EventOrder, EventGroup, SeriesSlice,
  Point, unsupported,
}
use shortfall.Registry.{Registry, Flow, flow_of, value_stage}
use shortfall.Registry.Rules.{is_nil}
use shortfall.Engine.{
  Request, Evidence, EngineError, no_source, unknown_flow, query_failed, wrapped, amount, add_to,
  add_points,
}
use shortfall.Engine.Realized.{currency_of}

-- `type CoverageSlice struct`
pub record CoverageSlice (F : Type 0) : Type 0 where
  pub flow : Bytes
  pub currency : Bytes
  pub exponent : ℤ
  pub telemetry_minor : ℤ
  pub ledger_minor : ℤ
  pub ratio : F

-- `type CoverageLeg struct`
pub record CoverageLeg (F : Type 0) : Type 0 where
  pub ratio : F
  pub window : TimeRange
  pub source : Bytes
  pub evidence : Evidence
  pub unavailable : Bytes

-- `type acc struct`
pub record LedgerSum : Type 0 where
  pub minor : ℤ
  pub exponent : ℤ

abbrev pub sum_or_new : Option LedgerSum → LedgerRow → LedgerSum
sum_or_new none r = record { minor = pos 0; exponent = r.money.exponent }
sum_or_new (some a) r = a

abbrev pub sums_or_new : Option (Map LedgerSum) → Map LedgerSum
sums_or_new none = []
sums_or_new (some m) = m

abbrev pub book_sum : LedgerRow → LedgerSum → LedgerSum
book_sum r a = record a { minor = add64 a.minor r.money.amount }

-- a success row of the ledger, into the sums of its flow
unfoldable pub book_in : LedgerRow → Map LedgerSum → Map LedgerSum
unfolding find put
book_in r m = put r.money.currency (book_sum r (sum_or_new (find r.money.currency m) r)) m

-- one round of the loop over the ledger
unfoldable pub book_row : LedgerRow → Map (Map LedgerSum) → Map (Map LedgerSum)
unfolding book_in find put ◌=?◌
book_row r m =
    if r.outcome =? success then put r.flow (book_in r (sums_or_new (find r.flow m))) m else m

unfoldable pub book_all : List LedgerRow → Map (Map LedgerSum) → Map (Map LedgerSum)
unfolding book_row
book_all [] m = m
book_all (r ∷ rs) m = book_all rs (book_row r m)

abbrev keys_of : Map (Map LedgerSum) → List Bytes
keys_of [] = []
keys_of ((k, _) ∷ m) = k ∷ keys_of m

-- the requested flows, or those of the ledger
abbrev flows_or : List Bytes → Map (Map LedgerSum) → List Bytes
flows_or [] ledger = keys_of ledger
flows_or (f ∷ fs) ledger = f ∷ fs

-- the stage at which the telemetry is read, the empty text without a registry
abbrev stage_of_flow : Option Flow → Bytes → Result EngineError Bytes
stage_of_flow none flow = err (unknown_flow flow)
stage_of_flow (some f) flow = ok (value_stage f)

unfoldable pub read_stage : Option Registry → Bytes → Result EngineError Bytes
unfolding flow_of value_stage
read_stage none flow = ok []
read_stage (some reg) flow = stage_of_flow (flow_of reg flow) flow

abbrev telemetry_filters : Bytes → Bytes → Map Bytes
telemetry_filters flow [] = (codes "flow", flow) ∷ (codes "outcome", success) ∷ []
telemetry_filters flow (c ∷ s) =
    (codes "flow", flow) ∷ (codes "outcome", success) ∷ (codes "stage", c ∷ s) ∷ []

-- `out[g.Key["currency"]] += g.SumMinor`
unfoldable pub add_groups : List EventGroup → Map ℤ → Map ℤ
unfolding add_to
add_groups [] out = out
add_groups (g ∷ gs) out = add_groups gs (add_to (currency_of g) g.sum_minor out)

abbrev captured_query : TimeRange → Map Bytes → EventQuery
captured_query window filters = record {
  filters = filters;
  group_by = codes "currency" ∷ [];
  range = window;
  agg = EventAgg.groups;
  order_by = EventOrder.order_none;
  limit = pos 0;
}

abbrev captured_value_query : TimeRange → Map Bytes → MetricQuery
captured_value_query window filters = record {
  metric = codes "biz_value_total";
  agg = Agg.sum;
  filters = filters;
  group_by = codes "currency" ∷ [];
  range = window;
  step = pos 0;
}

-- `out[s.Labels["currency"]] += int64(p.Value)`, over the points and over the series
module _ {V : Type 0} (to_int64 : V → ℤ) where
  add_values_of : Bytes → List (Point V) → Map ℤ → Map ℤ
  unfolding add_to
  add_values_of currency [] out = out
  add_values_of currency (p ∷ ps) out =
      add_values_of currency ps (add_to currency (to_int64 p.value) out)

  add_series : List (SeriesSlice V) → Map ℤ → Map ℤ
  unfolding add_values_of
  add_series [] out = out
  add_series (s ∷ ss) out =
      add_series ss (add_values_of (label (codes "currency") s.labels) s.points out)

  -- `telemetrySuccessValue(ctx, q, flow, valueStage, window)`
  unfoldable pub telemetry_success_value :
      Querier V → Bytes → Bytes → TimeRange → Result EngineError (Map ℤ)
  unfolding add_series add_groups wrapped
  telemetry_success_value q flow stage window =
      let filters = telemetry_filters flow stage in
      let metrics : Result EngineError (Map ℤ) =
        wrapped (q.query_metric (captured_value_query window filters)) >>= λ ss.
        ok (add_series ss []) in
      let events : Result EngineError (Map ℤ) =
        wrapped (q.query_events (captured_query window filters)) >>= λ gs. ok (add_groups gs []) in
      if q.capabilities.metrics
      then metrics
      else if q.capabilities.events
      then events
      else err (query_failed unsupported)

-- `float64(n)`, 1.0, the division, and `<` of float64
module _ {F : Type 0} (float64 : ℤ → F) (one : F) (div : F → F → F) (less : F → F → Bool) where
  -- the slices so far, and the worst ratio among them
  abbrev pub Progress : Type 0
  Progress = List (CoverageSlice F) × F

  abbrev pub clamp : F → F
  clamp ratio = if less one ratio then one else ratio

  abbrev pub slice_of : Bytes → Bytes → LedgerSum → ℤ → CoverageSlice F
  slice_of flow currency a seen = record {
    flow = flow;
    currency = currency;
    exponent = a.exponent;
    telemetry_minor = seen;
    ledger_minor = a.minor;
    ratio = clamp (div (float64 seen) (float64 a.minor));
  }

  abbrev pub add_slice : CoverageSlice F → Progress → Progress
  add_slice s (slices, worst) = (slices ++ s ∷ [], if less s.ratio worst then s.ratio else worst)

  -- the loop over the currencies of a flow; a sum that is not positive is skipped
  unfoldable pub add_slices : Bytes → Map ℤ → Map LedgerSum → Progress → Progress
  unfolding amount
  add_slices flow seen [] done = done
  add_slices flow seen ((currency, a) ∷ m) done =
      let skip = add_slices flow seen m done in
      let take =
        add_slices flow seen m (add_slice (slice_of flow currency a (amount currency seen)) done) in
      if ltb_ℤ (pos 0) a.minor then take else skip

  module _ {V : Type 0} (to_int64 : V → ℤ) (reg : Option Registry) (q : Querier V)
      (window : TimeRange) where
    -- a flow that the ledger has
    unfoldable pub cover_flow : Bytes → Map LedgerSum → Progress → Result EngineError Progress
    unfolding read_stage telemetry_success_value add_slices
    cover_flow flow sums done = do
      stage ← read_stage reg flow
      seen ← telemetry_success_value to_int64 q flow stage window
      ok (add_slices flow seen sums done)

    abbrev pub cover_known : Option (Map LedgerSum) → Bytes → Progress → Result EngineError Progress
    cover_known none flow done = ok done
    cover_known (some sums) flow done = cover_flow flow sums done

    -- the loop over the flows; one that the ledger lacks is skipped
    unfoldable pub cover_flows :
        Map (Map LedgerSum) → List Bytes → Progress → Result EngineError Progress
    unfolding cover_flow find
    cover_flows ledger [] done = ok done
    cover_flows ledger (flow ∷ flows) done = do
      done' ← cover_known (find flow ledger) flow done
      cover_flows ledger flows done'

  abbrev pub leg_with : TimeRange → Bytes → F → Bytes → CoverageLeg F
  leg_with window source ratio unavailable = record {
    ratio = ratio;
    window = window;
    source = source;
    evidence = Evidence.trust;
    unavailable = unavailable;
  }

  abbrev pub finished : TimeRange → Bytes → Progress → CoverageLeg F × List (CoverageSlice F)
  finished window source ([], worst) =
      (leg_with window source (float64 (pos 0)) (codes "no ledger slice with value"), [])
  finished window source (s ∷ slices, worst) = (leg_with window source worst [], s ∷ slices)

  -- `Coverage(ctx, reg, q, req, ledger, source)`
  unfoldable pub coverage :
      {V : Type 0}
      → (V → ℤ)
      → Option Registry
      → Querier V
      → Request
      → List LedgerRow
      → Bytes
      → Result EngineError (CoverageLeg F × List (CoverageSlice F))
  unfolding book_all cover_flows
  coverage to_int64 reg q req rows source =
      let none_booked : CoverageLeg F × List (CoverageSlice F) =
        (leg_with req.window source (float64 (pos 0)) (codes "no ledger success rows"), []) in
      let loop : Result EngineError (CoverageLeg F × List (CoverageSlice F)) =
        cover_flows to_int64 reg q req.window (book_all rows [])
          (flows_or req.flows (book_all rows [])) ([], one)
        >>= λ done. ok (finished req.window source done) in
      if is_nil (book_all rows []) then ok none_booked else loop
