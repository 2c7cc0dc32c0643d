-- ===== src/Registry/Build.antt =====
-- registry/registry.go: Parse, from the decoded document on, with buildFlow. A Go map is gone through in
-- the order of its list, so that of two errors the first in that order is the result.
pub mod Parts
pub mod Ladder
pub mod Stages
pub mod Blocks
pub mod Example
mod Tests
use shortfall.Prelude.{
  ℕ, suc, ◌+◌, ◌-◌, ◌*◌, ◌^◌, ◌/◌, ◌%◌, Bool, true, false, not, ◌&&◌, ◌||◌, Option, none, some,
  List, [], ◌∷◌, ◌++◌, Bytes, codes, ◌=?◌, ltb, leb, ◌==◌, length, Result, ok, err, ◌>>=◌, ◌>>◌,
  fail_if, if◌then◌else◌,
}
use shortfall.Prelude.Int.{ℤ, pos, negsuc, ltb_ℤ}
use shortfall.Prelude.Maps.{Map, put}
use shortfall.Biz.Money.{cut}
use shortfall.Biz.Context.{TokenError, kind_valid, lower_token}
use shortfall.Engine.Realized.{member}
use shortfall.Registry.{
  stage_names, Registry, Flow, Stage, Sla, Breach, Estimator, Baseline, Recovery, Reconcile,
  SeverityThreshold,
}
use shortfall.Registry.Duration.{parse_iso_duration}
use shortfall.Registry.Host.{cut_wild, valid_host_shape}
use shortfall.Registry.Docs.{
  SeverityDoc, StageDoc, SlaDoc, EstimatorDoc, RecoveryDoc, FlowDoc, RegistryDoc, RegistryError,
  bad_version, no_segments, no_flows, bad_kind, no_stages,
}
use shortfall.Registry.Rules.{
  is_nil, token, check_segments, check_hosts, build_severity, check_currencies, build_stages,
}
use shortfall.Registry.Blocks.{
  build_sla, build_estimator, build_baseline, build_recovery, build_reconcile,
}

-- `buildFlow(name, fd, segments)`
unfoldable pub build_flow : List Bytes → Bytes → FlowDoc → Result RegistryError Flow
unfolding lower_token kind_valid check_currencies build_stages build_sla build_estimator
    build_baseline build_recovery build_reconcile
build_flow segments name fd = do
  token name 64
  fail_if (not (kind_valid fd.kind)) bad_kind
  fail_if (is_nil fd.stages) no_stages
  check_currencies [] fd.currencies
  stages ← build_stages [] fd.stages
  sla ← build_sla (stage_names stages) fd.sla
  estimator ← build_estimator segments fd.estimator
  baseline ← build_baseline fd.baseline
  recovery ← build_recovery fd.recovery
  reconcile ← build_reconcile (stage_names stages) fd.reconcile
  ok (record {
    name = name;
    kind = fd.kind;
    currencies = fd.currencies;
    stages = stages;
    sla = sla;
    estimator = estimator;
    baseline = baseline;
    recovery = recovery;
    reconcile = reconcile;
  })

-- the loop over the flows
unfoldable pub build_flows : List Bytes → Map FlowDoc → Result RegistryError (Map Flow)
unfolding build_flow
build_flows segments [] = ok []
build_flows segments ((name, fd) ∷ m) = do
  f ← build_flow segments name fd
  rest ← build_flows segments m
  ok ((name, f) ∷ rest)

abbrev pub is_one : ℤ → Bool
is_one (pos n) = n == 1
is_one (negsuc _) = false

-- `Parse(b)`
unfoldable pub parse_doc : RegistryDoc → Result RegistryError Registry
unfolding check_segments check_hosts build_severity build_flows
parse_doc doc = do
  fail_if (not (is_one doc.version)) bad_version
  fail_if (is_nil doc.segments) no_segments
  check_segments [] doc.segments
  check_hosts doc.allow_hosts
  severity ← build_severity [] none doc.severity
  fail_if (is_nil doc.flows) no_flows
  flows ← build_flows doc.segments doc.flows
  ok (record {
    version = doc.version;
    segments = doc.segments;
    allow_hosts = doc.allow_hosts;
    severity = severity;
    flows = flows;
  })
