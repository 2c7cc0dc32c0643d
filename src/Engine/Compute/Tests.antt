-- ===== src/Engine/Compute/Tests.antt =====
-- A report over a backend that declares to serve everything and fails.
use shortfall.Prelude.{ℕ, ◌/◌, refl, true, some, [], ◌∷◌, codes, err}
use shortfall.Prelude.Int.{pos, pos_part}
use shortfall.Query.{Querier, QueryError}
use shortfall.Engine.{Request}
use shortfall.Engine.Floats.Example.{whole}
use shortfall.Engine.Compute.{compute}
use shortfall.Engine.Compute.Failing.{IsDown}
use shortfall.Engine.Compute.Down.{IsUnmeasured, compute-IsUnmeasured}
use shortfall.Registry.Build.Example.{reg}

abbrev broken : Querier ℕ
broken = record {
  query_metric = λ _. err QueryError.unsupported;
  query_events = λ _. err QueryError.unsupported;
  capabilities = record {
    metrics = true;
    events = true;
    metric_history_weeks = 4;
    event_history_weeks = 4;
  };
}

broken-IsDown : IsDown broken
broken-IsDown = record {
  metrics = λ _. (QueryError.unsupported, refl);
  events = λ _. (QueryError.unsupported, refl);
}

abbrev req : Request
req = record {
  window = record { from = pos 0; to = pos 7200000000000 };
  scope = [];
  flows = codes "checkout" ∷ [];
}

compute-IsUnmeasured_example :
    IsUnmeasured whole
      (λ d. pos_part d / 60000000000)
      (compute whole (λ d. pos_part d / 60000000000) (some reg) broken req (pos 5))
compute-IsUnmeasured_example =
    compute-IsUnmeasured whole (λ d. pos_part d / 60000000000) (some reg) broken req (pos 5)
      broken-IsDown
