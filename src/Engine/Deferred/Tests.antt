-- ===== src/Engine/Deferred/Tests.antt =====
-- The deferred leg over a backend with one deferral, and over one with one gauge series.
use shortfall.Prelude.{
  ◌≡◌, refl, true, not, ◌&&◌, ◌||◌, none, some, List, [], ◌∷◌, arith, Bytes, codes, ◌=?◌,
  if◌then◌else◌, Result, ok,
}
use shortfall.Prelude.Int.{ℤ, pos, ◌≤ℤ◌, ◌+ℤ◌, ◌-ℤ◌}
use shortfall.Prelude.Maps.{Map, find, put, label}
use shortfall.Registry.{Registry, Flow, Sla, Breach, flow_of}
use shortfall.Query.{Caps, EventQuery, EventAgg, EventGroup, Querier, QueryError, SeriesSlice}
use shortfall.Engine.{Request, amount, wrapped, flow_filters, copied}
use shortfall.Emit.InFlight.Calls.{age_bucket_for}
use shortfall.Engine.Deferred.{DeferredLeg, past_deadline, breached, sla_of}
use shortfall.Engine.Deferred.Events.{
  Inflight, raise, note_item, note_groups, note_terminals, same_entity_stage, cut_end, cut_round,
  cut_filters, cut_loop, terminal_filters, terminal_loop, age_cutoffs, terminal_outcomes,
  events_lookback, later_deferred, deferred_from_events,
}
use shortfall.Engine.Deferred.Ages.{first_cut, first_cut-age_bucket_for, breached-sla_of}
use shortfall.Engine.Deferred.Booked.{
  open_sum, is_breached, is_projected, in_bucket, deferred_from_events-exact,
}
use shortfall.Engine.Deferred.Gauge.{deferred_leg, inflight_filters}
use shortfall.Engine.Deferred.Source.{any_series, all_levels, Answers, other, deferred_leg-source}

-- half an hour before the end of the window
first_cut-age_bucket_for_example :
    first_cut (pos 0) (pos 10000000000000) (pos 8200000000000) age_cutoffs
    ≡ some (age_bucket_for (pos 10000000000000 -ℤ pos 8200000000000))
first_cut-age_bucket_for_example =
    first_cut-age_bucket_for (pos 0) (pos 10000000000000) (pos 8200000000000) (omega arith) refl

abbrev half_hour : Sla
half_hour = record { deadline = pos 1800000000000; on_breach = Breach.lost }

abbrev pay : Flow
pay = record {
  name = codes "pay";
  kind = codes "gmv";
  currencies = [];
  stages = record { name = codes "capture"; signals = [] } ∷ [];
  sla = (codes "capture", half_hour) ∷ [];
  estimator = none;
  baseline = record { seasonality = []; lookback_weeks = pos 0; holidays = [] };
  recovery = record { model = []; recovered_fraction = 0; within = pos 0 };
  reconcile = record { source = []; stage = [] };
}

abbrev registry : Registry
registry = record {
  version = pos 1;
  segments = [];
  allow_hosts = [];
  severity = [];
  flows = (codes "pay", pay) ∷ [];
}

is_late :
    breached registry (codes "pay") (codes "capture") (age_bucket_for (pos 2000000000000)) ≡ true
unfolding breached past_deadline flow_of find age_bucket_for ◌=?◌
is_late = refl

breached-sla_of_example :
    (sla : Sla) × (sla_of (flow_of registry (codes "pay")) (codes "capture") ≡ some sla)
    × (sla.deadline ≤ℤ pos 2000000000000)
breached-sla_of_example =
    breached-sla_of registry (codes "pay") (codes "capture") (pos 2000000000000) (omega arith)
      is_late

abbrev req : Request
req = record {
  window = record { from = pos 0; to = pos 10000000000000 };
  scope = [];
  flows = codes "pay" ∷ [];
}

abbrev queued : EventGroup
queued = record {
  key =
      (codes "flow", codes "pay")
      ∷ (codes "stage", codes "capture")
      ∷ (codes "currency", codes "USD")
      ∷ (codes "entity", codes "inv-1")
      ∷ [];
  count = pos 1;
  sum_minor = pos 700;
  max_minor = pos 700;
}

abbrev caps : Caps
caps = record { metrics = true; events = true; metric_history_weeks = 0; event_history_weeks = 520 }

-- deferrals are asked for with the largest amount of each group, terminal outcomes without
abbrev answers : EventQuery → Result QueryError (List EventGroup)
answers qy = elim qy.agg [
  | EventAgg.max_per_group ↦ ok (queued ∷ [])
  | EventAgg.groups ↦ ok []
  | EventAgg.distinct_count ↦ ok []
  | EventAgg.other_agg _ ↦ ok []
]

abbrev backend : Querier ℤ
backend = record { query_metric = λ _. ok []; query_events = answers; capabilities = caps }

abbrev open_items : Inflight
open_items =
    (
      record {
        flow = codes "pay";
        stage = codes "capture";
        currency = codes "USD";
        entity = codes "inv-1";
      },
      record { bucket = codes "gt2h"; minor = pos 700 },
    )
    ∷ []

finds_items : cut_loop (some registry) backend req age_cutoffs [] ≡ ok open_items
unfolding cut_loop cut_filters cut_round cut_end events_lookback wrapped note_groups note_item raise
    same_entity_stage label find put flow_filters copied flow_of ◌=?◌ ◌+ℤ◌ ◌-ℤ◌
finds_items = refl

finds_no_terminals : terminal_loop (some registry) backend req terminal_outcomes [] ≡ ok []
unfolding terminal_loop terminal_filters wrapped note_terminals flow_filters copied put
finds_no_terminals = refl

deferred_from_events-exact_example :
    let total = open_sum (some registry) [] (later_deferred open_items) in
    (leg : DeferredLeg) × (deferred_from_events (some registry) backend req ≡ ok leg)
    × ((c : Bytes)
        → amount c leg.leg.by_currency
          ≡ total (λ k _. k.currency =? c) (λ item. item.minor) open_items (pos 0))
    × ((b c : Bytes)
        → in_bucket b c leg.by_age_bucket
          ≡ total
              (λ k item. item.bucket =? b && k.currency =? c)
              (λ item. item.minor)
              open_items
              (pos 0))
    × (leg.leg.count ≡ total (λ _ _. true) (λ _. pos 1) open_items (pos 0))
    × (leg.sla_breaches ≡ total (is_breached (some registry)) (λ _. pos 1) open_items (pos 0))
    × ((c : Bytes)
        → amount c leg.projected_lost_minor
          ≡ total
              (λ k item. is_projected (some registry) k item && k.currency =? c)
              (λ item. item.minor)
              open_items
              (pos 0))
deferred_from_events-exact_example =
    deferred_from_events-exact (some registry) backend req open_items [] finds_items
      finds_no_terminals

-- one series of 500 in dollars in the scope of the request
abbrev level : SeriesSlice ℤ
level = record {
  labels =
      (codes "flow", codes "pay")
      ∷ (codes "stage", codes "capture")
      ∷ (codes "age_bucket", codes "gt2h")
      ∷ (codes "currency", codes "USD")
      ∷ [];
  points = record { at = pos 9000000000000; value = pos 500 } ∷ [];
}

abbrev levels : Map Bytes → List (SeriesSlice ℤ)
levels _ = level ∷ []

abbrev gauged : Querier ℤ
gauged = record { query_metric = λ _. ok (level ∷ []); query_events = answers; capabilities = caps }

abbrev same : ℤ → ℤ
same v = v

answers_all :
    (metric : Bytes) → Answers same (some registry) gauged req metric levels (inflight_filters req)
unfolding inflight_filters
answers_all metric = (refl, tt)

deferred_leg-source_example :
    (leg : DeferredLeg) × ((events : EventQuery → Result QueryError (List EventGroup))
      → deferred_leg same (some registry) (other same (some registry) gauged events) req ≡ (
          if any_series levels (inflight_filters req) || not gauged.capabilities.events
          then ok leg
          else deferred_from_events (some registry) (other same (some registry) gauged events) req))
    × ((c : Bytes)
        → amount c leg.leg.by_currency ≡ all_levels same c levels (inflight_filters req) (pos 0))
deferred_leg-source_example =
    deferred_leg-source same (some registry) gauged req levels levels refl
      (answers_all (codes "biz_inflight_value")) (answers_all (codes "biz_inflight_count"))
