-- ===== src/Engine/Coverage/Tests.antt =====
-- The coverage of a flow by a backend that saw a part of it, with thousandths for float64.
use shortfall.Prelude.{
  ◌*◌, ◌/◌, ◌≡◌, refl, arith, ◌⊎◌, true, false, none, List, [], ◌∷◌, Bytes, codes, ◌=?◌, Result, ok,
  All,
}
use shortfall.Prelude.Int.{ℤ, pos, pos_part, ltb_ℤ, ◌+ℤ◌}
use shortfall.Prelude.Int64.{add64}
use shortfall.Prelude.Maps.{find, put, label}
use shortfall.Biz.Context.{LedgerRow, success, failed}
use shortfall.Query.{EventGroup, Querier, QueryError}
use shortfall.Registry.Rules.{is_nil}
use shortfall.Engine.{Request, Evidence, amount, add_to, wrapped}
use shortfall.Engine.Coverage.{
  CoverageLeg, CoverageSlice, book_in, book_row, book_all, read_stage, add_groups,
  telemetry_success_value, add_slices, cover_flow, cover_flows, coverage,
}
use shortfall.Engine.Coverage.Worst.{IsWorst, coverage-IsWorst}
use shortfall.Engine.Coverage.Booked.{IsBooked, coverage-IsBooked}

abbrev same : ℤ → ℤ
same v = v

abbrev one : ℤ
one = pos 1000

abbrev thousandths : ℤ → ℤ → ℤ
thousandths a b = pos (1000 * pos_part a / pos_part b)

ltb_ℤ-irrefl : (x : ℤ) → ltb_ℤ x x ≡ false
ltb_ℤ-irrefl x = ground arith

ltb_ℤ-trans : (x y z : ℤ) → ltb_ℤ x y ≡ true → ltb_ℤ y z ≡ true → ltb_ℤ x z ≡ true
ltb_ℤ-trans x y z h k = ground arith

abbrev row : Bytes → Bytes → ℤ → LedgerRow
row outcome currency minor = record {
  flow = codes "pay";
  outcome = outcome;
  money = record { amount = minor; currency = currency; exponent = pos 2 };
  count = pos 1;
}

abbrev rows : List LedgerRow
rows =
    row success (codes "USD") (pos 600)
    ∷ row failed (codes "USD") (pos 50)
    ∷ row success (codes "USD") (pos 400)
    ∷ row success (codes "EUR") (pos 100)
    ∷ []

abbrev group_of : Bytes → ℤ → EventGroup
group_of currency sum = record {
  key = (codes "currency", currency) ∷ [];
  count = pos 1;
  sum_minor = sum;
  max_minor = sum;
}

abbrev backend : Querier ℤ
backend = record {
  query_metric = λ _. Result.err QueryError.unsupported;
  query_events = λ _. ok (group_of (codes "USD") (pos 750) ∷ group_of (codes "EUR") (pos 120) ∷ []);
  capabilities = record {
    metrics = false;
    events = true;
    metric_history_weeks = 0;
    event_history_weeks = 4;
  };
}

abbrev req : Request
req = record { window = record { from = pos 0; to = pos 100 }; scope = []; flows = [] }

abbrev slice : Bytes → ℤ → ℤ → ℤ → CoverageSlice ℤ
slice currency seen minor ratio = record {
  flow = codes "pay";
  currency = currency;
  exponent = pos 2;
  telemetry_minor = seen;
  ledger_minor = minor;
  ratio = ratio;
}

abbrev slices : List (CoverageSlice ℤ)
slices =
    slice (codes "USD") (pos 750) (pos 1000) (pos 750)
    ∷ slice (codes "EUR") (pos 120) (pos 100) (pos 1000)
    ∷ []

abbrev leg : CoverageLeg ℤ
leg = record {
  ratio = pos 750;
  window = req.window;
  source = codes "stripe";
  evidence = Evidence.trust;
  unavailable = [];
}

covered :
    coverage same one thousandths ltb_ℤ same none backend req rows (codes "stripe")
    ≡ ok (leg, slices)
unfolding coverage book_all book_row book_in cover_flows cover_flow read_stage
    telemetry_success_value add_groups add_slices find put label amount add_to wrapped add64 ◌+ℤ◌
    ◌=?◌
covered = refl

coverage-IsWorst_example :
    ((slices ≡ []) × (is_nil leg.unavailable ≡ false))
    ⊎ (IsWorst same one thousandths ltb_ℤ ltb_ℤ-irrefl ltb_ℤ-trans (slices, leg.ratio)
        × (leg.unavailable ≡ [])
        × (is_nil slices ≡ false))
coverage-IsWorst_example =
    coverage-IsWorst same one thousandths ltb_ℤ ltb_ℤ-irrefl ltb_ℤ-trans same none backend req rows
      (codes "stripe") leg slices covered

coverage-IsBooked_example : All (IsBooked rows) slices
coverage-IsBooked_example =
    coverage-IsBooked same one thousandths ltb_ℤ rows same none backend req (codes "stripe") leg
      slices covered
