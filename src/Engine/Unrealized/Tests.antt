-- ===== src/Engine/Unrealized/Tests.antt =====
-- A flow over one hour: a week before it forty entries, in it ten, and a mean order of 100. Whole numbers
-- stand for float64.
use shortfall.Prelude.{
  ℕ, ◌≡◌, refl, true, false, not, ◌=?◌, none, some, List, [], ◌∷◌, map, codes, if◌then◌else◌, ok,
}
use shortfall.Prelude.Int.{pos, ltb_ℤ}
use shortfall.Biz.Context.{Time}
use shortfall.Query.{MetricQuery, SeriesSlice, Querier}
use shortfall.Registry.{Registry, Flow}
use shortfall.Engine.{Request, Evidence, wrapped}
use shortfall.Engine.Floats.Example.{whole, whole-Ieee}
use shortfall.Engine.Baseline.{Sample, Config, expected, expected_from, earliest_of}
use shortfall.Engine.Baseline.Direct.{direct, expected-direct}
use shortfall.Engine.Unrealized.Values.{EstLeg, Note, hourly_instants, hour_sums, clamp_fraction}
use shortfall.Engine.Unrealized.{unrealized}
use shortfall.Engine.Unrealized.Grounded.{IsGrounded, unrealized-IsGrounded}
use shortfall.Engine.Unrealized.Hours.{AreHours, hourly_instants-AreHours}
use shortfall.Engine.Unrealized.Ordered.{IsOrdered, hour_sums-IsOrdered}

abbrev target : Time
target = pos 6048000000000000

abbrev week_before : Time
week_before = pos 5443200000000000

abbrev history : List (Sample ℕ)
history = record { at = week_before; count = 40 } ∷ []

abbrev config : Config
config = record { lookback_weeks = pos 1; holiday = none }

expected-direct_example :
    expected whole history (target ∷ []) config
    ≡ ok (map (direct whole config history (earliest_of target [])) (target ∷ []))
expected-direct_example = expected-direct whole history target [] config refl

hour_sums-IsOrdered_example : IsOrdered whole (
    hour_sums whole
      (record { at = target; count = 10 } ∷ [])
      (pos 100)
      (clamp_fraction whole 0)
      (expected_from whole history (target ∷ []) config)
      (target ∷ []))
hour_sums-IsOrdered_example =
    hour_sums-IsOrdered whole whole-Ieee history (record { at = target; count = 10 } ∷ [])
      (target ∷ []) config 100 0 (refl, tt)

abbrev pay : Flow
pay = record {
  name = codes "pay";
  kind = codes "gmv";
  currencies = [];
  stages = record { name = codes "capture"; signals = [] } ∷ [];
  sla = [];
  estimator = none;
  baseline = record { seasonality = []; lookback_weeks = pos 1; holidays = [] };
  recovery = record { model = []; recovered_fraction = 0; within = pos 0 };
  reconcile = record { source = []; stage = [] };
}

abbrev registry : Registry
registry = record {
  version = pos 1;
  segments = [];
  allow_hosts = [];
  severity = [];
  flows = (codes "pay", pay) ∷ [];
}

abbrev in_dollars : Time → ℕ → List (SeriesSlice ℕ)
in_dollars at n =
    record {
      labels = (codes "currency", codes "USD") ∷ [];
      points = record { at = at; value = n } ∷ [];
    }
    ∷ []

abbrev answer : MetricQuery → List (SeriesSlice ℕ)
unfolding ◌=?◌
answer m =
    if m.metric =? codes "biz_value_total"
    then in_dollars target 5000
    else if not (m.metric =? codes "biz_txn_total")
    then []
    else if ltb_ℤ m.range.from target
    then in_dollars week_before 40
    else if ltb_ℤ (pos 0) m.step
    then in_dollars target 10
    else in_dollars target 50

abbrev backend : Querier ℕ
backend = record {
  query_metric = λ m. ok (answer m);
  query_events = λ _. ok [];
  capabilities = record {
    metrics = true;
    events = false;
    metric_history_weeks = 0;
    event_history_weeks = 0;
  };
}

abbrev req : Request
req = record {
  window = record { from = target; to = pos 6051600000000000 };
  scope = [];
  flows = codes "pay" ∷ [];
}

abbrev thirty : EstLeg
thirty = record {
  low_minor = (codes "USD", pos 3000) ∷ [];
  mid_minor = (codes "USD", pos 3000) ∷ [];
  high_minor = (codes "USD", pos 3000) ∷ [];
  evidence = Evidence.estimate;
  notes = Note.gross (codes "pay") ∷ [];
  unavailable = false;
}

estimated : unrealized whole backend req (some registry) ≡ ok thirty
unfolding unrealized wrapped
estimated = refl

unrealized-IsGrounded_example : IsGrounded whole thirty
unrealized-IsGrounded_example =
    unrealized-IsGrounded whole backend req (some registry) thirty estimated

-- from half past two to six
hourly_instants-AreHours_example :
    AreHours
      (record { from = pos 9000000000000; to = pos 21600000000000 })
      (hourly_instants (record { from = pos 9000000000000; to = pos 21600000000000 }))
hourly_instants-AreHours_example =
    hourly_instants-AreHours (record { from = pos 9000000000000; to = pos 21600000000000 })
