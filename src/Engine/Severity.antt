-- ===== src/Engine/Severity.antt =====
-- engine/severity.go: SuggestSeverity. The float64 operations that it uses are parameters.
pub mod Highest
use shortfall.Prelude.{
  ℕ, zero, suc, ◌+◌, Bool, true, false, not, ◌&&◌, ◌||◌, Option, none, some, List, [], ◌∷◌, Bytes,
  ltb, ◌==◌, length, if◌then◌else◌,
}
use shortfall.Prelude.Int.{ℤ, pos, ltb_ℤ, ◌-ℤ◌}
use shortfall.Prelude.Maps.{Map, put, find}
use shortfall.Engine.{Leg, amount, add_to}
use shortfall.Query.{TimeRange}
use shortfall.Registry.{Registry, SeverityThreshold}
use shortfall.Registry.Rules.{is_nil}

-- `for cur, v := range m { atRisk[cur] += v }`
unfoldable pub add_legs : Map ℤ → Map ℤ → Map ℤ
unfolding add_to
add_legs [] at_risk = at_risk
add_legs ((currency, v) ∷ m) at_risk = add_legs m (add_to currency v at_risk)

abbrev pub at_risk_of : Leg → Leg → Map ℤ
at_risk_of realized deferred = add_legs deferred.by_currency (add_legs realized.by_currency [])

-- `reg.Severity[best].Sev`
unfoldable pub sev_at : ℕ → List SeverityThreshold → Bytes
sev_at n [] = []
sev_at zero (t ∷ ts) = t.sev
sev_at (suc n) (t ∷ ts) = sev_at n ts

-- `float64(n)`, `to.Sub(from).Minutes()` of a difference in nanoseconds, and the division and the order of
-- float64
module _ {F : Type 0} (float64 : ℤ → F) (minutes : ℤ → F) (div : F → F → F)
    (ge : F → F → Bool) where
  -- whether a currency's rate reaches a threshold
  abbrev pub reaches : F → ℤ → SeverityThreshold → Bool
  reaches mins v t = ge (div (float64 v) mins) (float64 t.min_per_minute_minor)

  -- the loop over the thresholds from the index `i` on, which stops at the first that is reached
  unfoldable pub best_of : F → ℤ → ℕ → ℕ → List SeverityThreshold → ℕ
  best_of mins v i best [] = best
  best_of mins v i best (t ∷ ts) =
      let rest = best_of mins v (suc i) best ts in
      let first = if ltb i best then i else best in if reaches mins v t then first else rest

  -- the loop over the currencies
  unfoldable pub best_all : F → List SeverityThreshold → ℕ → Map ℤ → ℕ
  unfolding best_of
  best_all mins ts best [] = best
  best_all mins ts best ((_, v) ∷ m) = best_all mins ts (best_of mins v 0 best ts) m

  -- the thresholds of a registry that there is
  unfoldable pub severity_of : F → List SeverityThreshold → Map ℤ → Bytes
  unfolding best_all sev_at
  severity_of mins ts at_risk =
      if best_all mins ts (length ts) at_risk == length ts
      then []
      else sev_at (best_all mins ts (length ts) at_risk) ts

  -- `SuggestSeverity(reg, r)`, of the window, the realized and the deferred leg of the report
  unfoldable pub suggest_severity : Option Registry → TimeRange → Leg → Leg → Bytes
  unfolding severity_of add_legs ◌-ℤ◌
  suggest_severity none window realized deferred = []
  suggest_severity (some reg) window realized deferred =
      if is_nil reg.severity || ge (float64 (pos 0)) (minutes (window.to -ℤ window.from))
      then []
      else severity_of (minutes (window.to -ℤ window.from)) reg.severity
          (at_risk_of realized deferred)
