-- ===== src/Engine/Compute.antt =====
-- engine/engine.go: `Compute`, which joins the legs into the report. The caveat of a leg that failed is cut
-- to its first word, and the duration's minutes and the float64 operations are parameters.
pub mod Failing
pub mod Down
mod Tests
use shortfall.Prelude.{
  ℕ, Bool, true, false, Option, none, some, List, [], ◌∷◌, Bytes, codes, Result, ok, err,
}
use shortfall.Prelude.Int.{ℤ, pos, negsuc}
use shortfall.Biz.Context.{Time}
use shortfall.Query.{TimeRange, Querier}
use shortfall.Registry.{Registry}
use shortfall.Engine.{Request, Leg, Evidence, EngineError}
use shortfall.Engine.Floats.{Floats}
use shortfall.Engine.Baseline.{zero_of}
use shortfall.Engine.Realized.{realized_leg}
use shortfall.Engine.Deferred.{DeferredLeg, new_deferred_leg}
use shortfall.Engine.Deferred.Gauge.{deferred_leg}
use shortfall.Engine.Customers.{CustomersLeg, customers}
use shortfall.Engine.Coverage.{CoverageLeg}
use shortfall.Engine.Severity.{suggest_severity}
use shortfall.Engine.Unrealized.Values.{EstLeg, Note}
use shortfall.Engine.Unrealized.{unrealized, unavailable_leg}

-- `type Report struct`
pub record Report (F : Type 0) : Type 0 where
  pub request : Request
  pub generated_at : Time
  pub registry_version : ℤ
  pub library_version : Bytes
  pub realized : Leg
  pub deferred : DeferredLeg
  pub unrealized : EstLeg
  pub customers : CustomersLeg
  pub coverage : CoverageLeg F
  pub severity : Bytes

abbrev pub library_version : Bytes
library_version = codes "v0.2.0"

abbrev pub default_top_n : ℤ
default_top_n = pos 10

abbrev pub version_of : Option Registry → ℤ
version_of none = pos 0
version_of (some reg) = reg.version

abbrev pub failed_leg : Leg
failed_leg = record {
  count = pos 0;
  by_currency = [];
  evidence = Evidence.deterministic;
  caveats = codes "unavailable" ∷ [];
  unavailable = true;
}

abbrev pub leg_or_failed : Result EngineError Leg → Leg
leg_or_failed (ok leg) = leg
leg_or_failed (err e) = failed_leg

abbrev pub deferred_or_failed : Result EngineError DeferredLeg → DeferredLeg
deferred_or_failed (ok leg) = leg
deferred_or_failed (err e) = record (new_deferred_leg []) { leg = failed_leg }

abbrev pub customers_or_failed : Result EngineError CustomersLeg → CustomersLeg
customers_or_failed (ok leg) = leg
customers_or_failed (err e) = record {
  distinct = pos 0;
  by_segment = [];
  top_n = [];
  not_available_reason = codes "query failed";
}

abbrev pub estimate_or_failed : Result EngineError EstLeg → EstLeg
estimate_or_failed (ok leg) = leg
estimate_or_failed (err e) = unavailable_leg Note.leg_failed

-- the zero `time.Time`, the first of January of the year 1
abbrev pub zero_time : Time
zero_time = negsuc 62135596799999999999

module _ {F : Type 0} (fl : Floats F) (minutes : ℤ → F) where
  abbrev pub no_coverage : CoverageLeg F
  no_coverage = record {
    ratio = zero_of fl;
    window = record { from = zero_time; to = zero_time };
    source = [];
    evidence = Evidence.trust;
    unavailable =
        codes "coverage needs a provider ledger — run shortfall reconcile for the trust number";
  }

  module _ (reg : Option Registry) (q : Querier F) (req : Request) where
    abbrev pub realized_part : Leg
    realized_part = leg_or_failed (realized_leg q req fl.to_int64)

    abbrev pub deferred_part : DeferredLeg
    deferred_part = deferred_or_failed (deferred_leg fl.to_int64 reg q req)

    -- `Compute(ctx, reg, q, req)` at an instant; its error is always nil
    unfoldable pub compute : Time → Report F
    unfolding realized_leg deferred_leg customers unrealized suggest_severity
    compute now = record {
      request = req;
      generated_at = now;
      registry_version = version_of reg;
      library_version = library_version;
      realized = realized_part;
      deferred = deferred_part;
      unrealized = estimate_or_failed (unrealized fl q req reg);
      customers = customers_or_failed (customers q req default_top_n);
      coverage = no_coverage;
      severity =
          suggest_severity fl.of_int minutes fl.div (λ a b. fl.at_most b a) reg req.window
            realized_part deferred_part.leg;
    }
