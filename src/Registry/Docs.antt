-- ===== src/Registry/Docs.antt =====
-- registry/registry.go: the wire form of a registry file, and the errors. A float64 is its 64 bits. The
-- decoder of the file is a third-party package.
use shortfall.Prelude.{ℕ, Option, List, Bytes}
use shortfall.Prelude.Int.{ℤ}
use shortfall.Prelude.Maps.{Map}
use shortfall.Registry.{Baseline, Reconcile}

-- The wire form.
pub record SeverityDoc : Type 0 where
  pub sev : Bytes
  pub min_per_minute : ℤ

pub record StageDoc : Type 0 where
  pub name : Bytes
  pub signals : List Bytes

pub record SlaDoc : Type 0 where
  pub deadline : Bytes
  pub on_breach : Bytes

pub record EstimatorDoc : Type 0 where
  pub default_minor : ℤ
  pub exponent : Option ℤ
  pub by_segment : Map ℤ

pub record RecoveryDoc : Type 0 where
  pub model : Bytes
  pub recovered_fraction : ℕ
  pub within : Bytes

pub record FlowDoc : Type 0 where
  pub kind : Bytes
  pub currencies : List Bytes
  pub stages : List StageDoc
  pub sla : Map SlaDoc
  pub estimator : Option EstimatorDoc
  pub baseline : Option Baseline
  pub recovery : Option RecoveryDoc
  pub reconcile : Option Reconcile

pub record RegistryDoc : Type 0 where
  pub version : ℤ
  pub segments : List Bytes
  pub allow_hosts : List Bytes
  pub severity : List SeverityDoc
  pub flows : Map FlowDoc

pub data RegistryError : Type 0 where
  bad_version no_segments bad_token declared_twice bad_host bad_sev bad_floor unordered_floor
        no_flows bad_kind no_stages bad_code no_signals empty_signal unknown_stage bad_duration
        bad_breach bad_estimator unknown_segment bad_seasonality bad_lookback bad_model not_finite
        fraction_range no_within within_alone no_source bad_scheme :
      RegistryError
