-- ===== src/Registry/Build/Example.antt =====
-- A document that Parse accepts, for the tests.
use shortfall.Prelude.{◌≡◌, refl, some, none, [], ◌∷◌, codes, ok}
use shortfall.Prelude.Int.{pos}
use shortfall.Biz.Money.{cut}
use shortfall.Biz.Context.{kind_valid, lower_token}
use shortfall.Engine.Realized.{member}
use shortfall.Registry.{Registry, Flow, Sla, Breach}
use shortfall.Registry.Duration.{
  parse_iso_duration, both_parts, parse_units, find_unit, add_seconds,
}
use shortfall.Registry.Host.{cut_wild, valid_host_shape}
use shortfall.Registry.Trim.{trim_space}
use shortfall.Registry.Docs.{StageDoc, FlowDoc, RegistryDoc}
use shortfall.Registry.Rules.{
  check_segments, check_hosts, build_severity, not_word, check_currencies, build_stages,
}
use shortfall.Registry.Blocks.{
  build_sla, build_estimator, check_by_segment, build_baseline, build_recovery, validate_reconcile,
  build_reconcile,
}
use shortfall.Registry.Build.{build_flow, build_flows, parse_doc}

abbrev capture : StageDoc
capture = record { name = codes "capture"; signals = codes "span:capture" ∷ [] }

abbrev settle : StageDoc
settle = record { name = codes "settle"; signals = codes "span:settle" ∷ [] }

abbrev checkout : FlowDoc
checkout = record {
  kind = codes "gmv";
  currencies = codes "USD" ∷ [];
  stages = capture ∷ settle ∷ [];
  sla = (codes "capture", record { deadline = codes "PT1H"; on_breach = codes "lost" }) ∷ [];
  estimator = some (record { default_minor = pos 4500; exponent = none; by_segment = [] });
  baseline = none;
  recovery = none;
  reconcile = some (record { source = codes "sql:ledger"; stage = codes "capture" });
}

abbrev pub doc : RegistryDoc
doc = record {
  version = pos 1;
  segments = codes "retail" ∷ [];
  allow_hosts = codes "*.shop.example" ∷ [];
  severity =
      record { sev = codes "SEV1"; min_per_minute = pos 100000 }
      ∷ record { sev = codes "SEV2"; min_per_minute = pos 5000 }
      ∷ [];
  flows = (codes "checkout", checkout) ∷ [];
}

abbrev pub hour : Sla
hour = record { deadline = pos 3600000000000; on_breach = Breach.lost }

abbrev pub flow : Flow
flow = record {
  name = codes "checkout";
  kind = codes "gmv";
  currencies = codes "USD" ∷ [];
  stages =
      record { name = codes "capture"; signals = codes "span:capture" ∷ [] }
      ∷ record { name = codes "settle"; signals = codes "span:settle" ∷ [] }
      ∷ [];
  sla = (codes "capture", hour) ∷ [];
  estimator = some (record { default_minor = pos 4500; exponent = pos 2; by_segment = [] });
  baseline = record { seasonality = []; lookback_weeks = pos 0; holidays = [] };
  recovery = record { model = []; recovered_fraction = 0; within = pos 0 };
  reconcile = record { source = codes "sql:ledger"; stage = codes "capture" };
}

abbrev pub reg : Registry
reg = record {
  version = pos 1;
  segments = codes "retail" ∷ [];
  allow_hosts = codes "*.shop.example" ∷ [];
  severity =
      record { sev = codes "SEV1"; min_per_minute_minor = pos 100000 }
      ∷ record { sev = codes "SEV2"; min_per_minute_minor = pos 5000 }
      ∷ [];
  flows = (codes "checkout", flow) ∷ [];
}

pub accepted : parse_doc doc ≡ ok reg
unfolding parse_doc check_segments check_hosts build_severity not_word check_currencies build_stages
    build_sla build_estimator check_by_segment build_baseline build_recovery validate_reconcile
    build_reconcile build_flow build_flows parse_iso_duration both_parts parse_units find_unit
    add_seconds cut_wild valid_host_shape trim_space member lower_token kind_valid cut
accepted = refl
