-- ===== src/Engine/Severity/Highest/Tests.antt =====
-- A severity suggested from the ladder of an accepted document, with whole numbers for float64.
use shortfall.Prelude.{◌/◌, ◌≡◌, ◌=?◌, refl, Bool, not, some, [], ◌∷◌, codes, false}
use shortfall.Prelude.Int.{ℤ, pos, pos_part, ltb_ℤ, ◌-ℤ◌, ◌+ℤ◌}
use shortfall.Prelude.Int64.{add64}
use shortfall.Engine.{Leg, Evidence, add_to}
use shortfall.Query.{TimeRange}
use shortfall.Registry.Build.Example.{doc, reg, accepted}
use shortfall.Engine.Severity.{
  at_risk_of, suggest_severity, severity_of, best_all, best_of, sev_at, add_legs,
}
use shortfall.Engine.Severity.Highest.{reached_by, IsHighest, suggest_severity-IsHighest}

abbrev same : ℤ → ℤ
same v = v

abbrev whole_minutes : ℤ → ℤ
whole_minutes d = pos (pos_part d / 60000000000)

abbrev whole_div : ℤ → ℤ → ℤ
whole_div a b = pos (pos_part a / pos_part b)

abbrev at_least : ℤ → ℤ → Bool
at_least a b = not (ltb_ℤ a b)

abbrev ten_minutes : TimeRange
ten_minutes = record { from = pos 0; to = pos 600000000000 }

abbrev lost : Leg
lost = record {
  count = pos 3;
  by_currency = (codes "USD", pos 70000) ∷ [];
  evidence = Evidence.deterministic;
  caveats = [];
  unavailable = false;
}

minutes_pass : at_least (same (pos 0)) (whole_minutes (ten_minutes.to -ℤ ten_minutes.from)) ≡ false
unfolding ◌-ℤ◌
minutes_pass = refl

suggest_severity-IsHighest_example :
    IsHighest
      (reached_by same whole_minutes whole_div at_least
        (whole_minutes (ten_minutes.to -ℤ ten_minutes.from))
        (at_risk_of lost lost))
      reg.severity
      (suggest_severity same whole_minutes whole_div at_least (some reg) ten_minutes lost lost)
suggest_severity-IsHighest_example =
    suggest_severity-IsHighest same whole_minutes whole_div at_least doc reg ten_minutes lost lost
      accepted minutes_pass

suggested :
    suggest_severity same whole_minutes whole_div at_least (some reg) ten_minutes lost lost
    ≡ codes "SEV2"
unfolding suggest_severity severity_of best_all best_of sev_at add_legs add_to ◌-ℤ◌ ◌=?◌ add64 ◌+ℤ◌
suggested = refl
