-- ===== src/Registry.antt =====
-- registry/registry.go: the validated registry, its flows, and what the other layers read of a flow.
-- A copy of a value is the value. The durations are nanoseconds.
pub mod Host
pub mod Duration
pub mod Trim
pub mod Docs
pub mod Rules
pub mod Blocks
pub mod Build
use shortfall.Prelude.{
  ℕ, Bool, true, false, Option, none, some, List, [], ◌∷◌, Bytes, ◌=?◌, ◌||◌, if◌then◌else◌,
}
use shortfall.Prelude.Int.{ℤ}
use shortfall.Prelude.Maps.{Map, find, has_key}
use shortfall.Biz.Money.{Money}

pub record Stage : Type 0 where
  pub name : Bytes
  pub signals : List Bytes

pub data Breach : Type 0 where
  lost at_risk : Breach
  other_breach : Bytes → Breach

pub record Sla : Type 0 where
  pub deadline : ℤ
  pub on_breach : Breach

pub record Estimator : Type 0 where
  pub default_minor : ℤ
  pub exponent : ℤ
  pub by_segment : Map ℤ

pub record Baseline : Type 0 where
  pub seasonality : Bytes
  pub lookback_weeks : ℤ
  pub holidays : Bytes

-- the fraction, a float64, as its 64 bits
pub record Recovery : Type 0 where
  pub model : Bytes
  pub recovered_fraction : ℕ
  pub within : ℤ

pub record Reconcile : Type 0 where
  pub source : Bytes
  pub stage : Bytes

pub record Flow : Type 0 where
  pub name : Bytes
  pub kind : Bytes
  pub currencies : List Bytes
  pub stages : List Stage
  pub sla : Map Sla
  pub estimator : Option Estimator
  pub baseline : Baseline
  pub recovery : Recovery
  pub reconcile : Reconcile

pub record SeverityThreshold : Type 0 where
  pub sev : Bytes
  pub min_per_minute_minor : ℤ

pub record Registry : Type 0 where
  pub version : ℤ
  pub segments : List Bytes
  pub allow_hosts : List Bytes
  pub severity : List SeverityThreshold
  pub flows : Map Flow

-- the names of the stages
abbrev pub stage_names : List Stage → List Bytes
stage_names [] = []
stage_names (st ∷ sts) = st.name ∷ stage_names sts

-- `Registry.Flow(name)`
unfoldable pub flow_of : Registry → Bytes → Option Flow
unfolding find
flow_of r name = find name r.flows

unfoldable pub last_name : List Stage → Bytes
last_name [] = []
last_name (st ∷ []) = st.name
last_name (_ ∷ st ∷ sts) = last_name (st ∷ sts)

abbrev pub value_stage_of : Bytes → Flow → Bytes
value_stage_of [] f = last_name f.stages
value_stage_of (c ∷ s) f = c ∷ s

-- `Flow.ValueStage()`
unfoldable pub value_stage : Flow → Bytes
unfolding last_name
value_stage f = value_stage_of f.reconcile.stage f

abbrev pub segment_or : Option ℤ → ℤ → ℤ
segment_or none d = d
segment_or (some v) d = v

-- `Flow.EstimateMinor(segment)`
abbrev pub estimate_with : Option Estimator → Bytes → Option ℤ
estimate_with none segment = none
estimate_with (some e) segment = some (segment_or (find segment e.by_segment) e.default_minor)

unfoldable pub estimate_minor : Flow → Bytes → Option ℤ
unfolding find
estimate_minor f segment = estimate_with f.estimator segment

-- `Flow.EstimateMoney(segment, currency)`
abbrev money_with : Option Estimator → Bytes → Bytes → Option Money
money_with none segment currency = none
money_with (some e) segment currency = some (record {
  amount = segment_or (find segment e.by_segment) e.default_minor;
  currency = currency;
  exponent = e.exponent;
})

unfoldable pub estimate_money : Flow → Bytes → Bytes → Option Money
unfolding find
estimate_money f segment currency = money_with f.estimator segment currency
