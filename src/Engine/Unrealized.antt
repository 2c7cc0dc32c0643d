-- ===== src/Engine/Unrealized.antt =====
-- engine/unrealized.go: the counterfactual leg. A note is a constructor with the values that its text
-- shows, less the percentage of a recovery. The float64 operations are a parameter, and instants are read
-- in UTC.
pub mod Values
pub mod Aov
pub mod Grounded
pub mod Ordered
pub mod Hours
mod Tests
use shortfall.Prelude.{
  ℕ, Bool, true, false, not, ◌&&◌, ◌||◌, Option, none, some, List, [], ◌∷◌, ◌++◌, Bytes, codes, ltb,
  if◌then◌else◌, Result, ok, err, ◌>>=◌,
}
use shortfall.Prelude.Int.{ℤ, pos, ltb_ℤ, ◌+ℤ◌}
use shortfall.Prelude.Maps.{Map, find}
use shortfall.Biz.Context.{Time}
use shortfall.Query.{TimeRange, Querier}
use shortfall.Registry.{Registry, Flow, Stage, flow_of}
use shortfall.Registry.Rules.{is_nil}
use shortfall.Engine.{Request, Evidence, EngineError, wrapped, add_to}
use shortfall.Engine.Floats.{Floats}
use shortfall.Engine.Baseline.{
  Sample, Expectation, BaselineError, hour, weeks_before, zero_of, expected,
}
use shortfall.Engine.Unrealized.Values.{
  Note, EstLeg, HourSums, samples_of, hourly_instants, hourly_entries, hour_sums, clamp_fraction,
}
use shortfall.Engine.Unrealized.Aov.{AovSource, aov_minor, upstream_attribution}

-- what the loop over the flows carries
pub record Estimates : Type 0 where
  pub low_minor : Map ℤ
  pub mid_minor : Map ℤ
  pub high_minor : Map ℤ
  pub notes : List Note
  pub thin : Bool
  pub sized : Bool

unfoldable pub noted : Note → Estimates → Estimates
noted n st = record st { notes = st.notes ++ n ∷ [] }

abbrev pub noted_if : Bool → Note → Estimates → Estimates
noted_if b n st = if b then noted n st else st

abbrev pub noted_some : Option Note → Estimates → Estimates
noted_some none st = st
noted_some (some n) st = noted n st

abbrev pub unavailable_leg : Note → EstLeg
unavailable_leg n = record {
  low_minor = [];
  mid_minor = [];
  high_minor = [];
  evidence = Evidence.estimate;
  notes = n ∷ [];
  unavailable = true;
}

abbrev pub first_stage : List Stage → Bytes
first_stage [] = []
first_stage (st ∷ _) = st.name

abbrev pub last_of : Time → List Time → Time
last_of t [] = t
last_of t (u ∷ ts) = last_of u ts

-- `fmt.Errorf("engine: unrealized baseline: %w", err)`
abbrev pub from_baseline : {A : Type 0} → Result BaselineError A → Result EngineError A
from_baseline (ok a) = ok a
from_baseline (err (BaselineError.bad_lookback n)) = err (EngineError.bad_lookback n)

abbrev pub is_metric : AovSource → Bool
is_metric AovSource.from_metric = true
is_metric _ = false

abbrev pub nonempty : {A : Type 0} → Option A → Bool
nonempty none = false
nonempty (some _) = true

-- the retention test: a history of 0 weeks is not declared
abbrev pub has_gap : ℕ → ℤ → Bool
has_gap weeks lookback = ltb 0 weeks && ltb_ℤ (pos weeks) lookback

module _ {F : Type 0} (fl : Floats F) where
  -- the sums of a currency's hours, into the leg's maps
  unfoldable pub add_range : Bytes → Bytes → HourSums F → Estimates → Estimates
  unfolding add_to noted
  add_range name currency h st =
      let st' = record st { thin = st.thin || h.thin } in
      if not h.valued then noted (Note.no_hour_history name currency) st' else record st' {
        low_minor = add_to currency (fl.to_int64 (fl.round h.low)) st.low_minor;
        mid_minor = add_to currency (fl.to_int64 (fl.round h.mid)) st.mid_minor;
        high_minor = add_to currency (fl.to_int64 (fl.round h.high)) st.high_minor;
        sized = true;
      }

  abbrev pub recovery_of : Flow → F
  recovery_of f = clamp_fraction fl (fl.of_bits f.recovery.recovered_fraction)

  -- a currency with the hours' expectations and its average order value
  unfoldable pub value_currency :
      Flow
      → Bytes
      → Bytes
      → List (Expectation F)
      → List Time
      → List (Sample F)
      → Option Note × Option (ℤ × AovSource)
      → Estimates
      → Estimates
  unfolding noted add_range hour_sums clamp_fraction
  value_currency f name currency exp target observed (warn, none) st =
      noted (Note.no_aov name currency) (noted_some warn st)
  value_currency f name currency exp target observed (warn, some (aov, source)) st =
      add_range name currency (hour_sums fl observed aov (recovery_of f) exp target) (
        noted_if (is_metric source && nonempty f.estimator) (Note.aov_understates name currency)
          (noted_some warn st))

  unfoldable pub recovery_note : Flow → Bytes → Estimates → Estimates
  unfolding noted clamp_fraction
  recovery_note f name st =
      if fl.less (zero_of fl) (recovery_of f)
      then noted (Note.net_of_recovery name) st
      else noted_if (is_nil f.recovery.model) (Note.gross name) st

  module _ (q : Querier F) (req : Request) (t : Time) (ts : List Time) where
    -- the loop over the currencies of the history
    unfoldable pub currencies_loop :
        Flow
        → Bytes
        → Map (List (Sample F))
        → Map (List (Sample F))
        → Estimates
        → Result EngineError Estimates
    unfolding expected value_currency aov_minor samples_of
    currencies_loop f name [] obs st = ok st
    currencies_loop f name ((currency, samples) ∷ hist) obs st = do
      exp ← from_baseline (
          expected fl samples (t ∷ ts)
            (record { lookback_weeks = f.baseline.lookback_weeks; holiday = none }))
      currencies_loop f name hist obs (
          value_currency f name currency exp (t ∷ ts) (samples_of currency obs)
            (aov_minor fl q name currency f req.window) st)

    -- a flow with its history and what was observed
    unfoldable pub size_flow :
        Flow
        → Bytes
        → Map (List (Sample F))
        → Map (List (Sample F))
        → Estimates
        → Result EngineError Estimates
    unfolding currencies_loop recovery_note noted
    size_flow f name [] obs st = ok (noted (Note.no_history name f.baseline.lookback_weeks) st)
    size_flow f name (h ∷ hist) obs st = do
      st' ← currencies_loop f name (h ∷ hist) obs st
      ok (recovery_note f name st')

    abbrev pub history_range : Flow → TimeRange
    history_range f = record { from = weeks_before f.baseline.lookback_weeks t; to = t }

    abbrev pub aligned_window : TimeRange
    aligned_window = record { from = t; to = last_of t ts +ℤ pos hour }

    -- the two queries of a flow
    unfoldable pub measure_flow : Flow → Bytes → Estimates → Result EngineError Estimates
    unfolding size_flow hourly_entries weeks_before ◌+ℤ◌
    measure_flow f name st = do
      hist ← wrapped (hourly_entries fl q name (first_stage f.stages) (history_range f))
      obs ← wrapped (hourly_entries fl q name (first_stage f.stages) aligned_window)
      size_flow f name hist obs st

    -- one round of the loop over the flows
    unfoldable pub flow_round : Option Flow → Bytes → Estimates → Result EngineError Estimates
    unfolding measure_flow noted
    flow_round none name st = ok (noted (Note.not_in_registry name) st)
    flow_round (some f) name st =
        if is_nil f.stages
        then ok (noted (Note.not_in_registry name) st)
        else if ltb_ℤ f.baseline.lookback_weeks (pos 1)
        then ok (noted (Note.no_baseline name) st)
        else if has_gap q.capabilities.metric_history_weeks f.baseline.lookback_weeks
        then ok (
            noted
              (Note.retention_gap name q.capabilities.metric_history_weeks
                f.baseline.lookback_weeks)
              st)
        else measure_flow f name (
            noted_if (not (is_nil f.baseline.holidays))
              (Note.holidays_ignored name f.baseline.holidays) st)

    unfoldable pub flows_loop : Registry → List Bytes → Estimates → Result EngineError Estimates
    unfolding flow_round flow_of
    flows_loop reg [] st = ok st
    flows_loop reg (name ∷ names) st = do
      st' ← flow_round (flow_of reg name) name st
      flows_loop reg names st'

  abbrev pub no_estimates : Estimates
  no_estimates = record {
    low_minor = [];
    mid_minor = [];
    high_minor = [];
    notes = [];
    thin = false;
    sized = false;
  }

  -- the end of `Unrealized`: maps are cleared where no hour was valued
  unfoldable pub closed : Option Note → Estimates → EstLeg
  unfolding noted
  closed hint st = record {
    low_minor = if st.sized then st.low_minor else [];
    mid_minor = if st.sized then st.mid_minor else [];
    high_minor = if st.sized then st.high_minor else [];
    evidence = Evidence.estimate;
    notes = (noted_some hint (noted_if st.thin Note.thin_history st)).notes;
    unavailable = not st.sized;
  }

  module _ (q : Querier F) (req : Request) where
    -- the flows, over the targets
    unfoldable pub unrealized_over : Registry → List Time → List Bytes → Result EngineError EstLeg
    unfolding flows_loop closed upstream_attribution
    unrealized_over reg [] names = ok (unavailable_leg Note.no_hours)
    unrealized_over reg (t ∷ ts) [] = ok (unavailable_leg Note.no_flow)
    unrealized_over reg (t ∷ ts) (name ∷ names) = do
      st ← flows_loop q req t ts reg (name ∷ names) no_estimates
      ok (closed (upstream_attribution fl q req) st)

    -- `Unrealized(ctx, reg, q, req)`
    unfoldable pub unrealized : Option Registry → Result EngineError EstLeg
    unfolding unrealized_over hourly_instants
    unrealized none = ok (unavailable_leg Note.no_registry)
    unrealized (some reg) =
        if not q.capabilities.metrics
        then ok (unavailable_leg Note.no_metrics)
        else unrealized_over reg (hourly_instants req.window) req.flows
