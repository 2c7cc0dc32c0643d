-- ===== src/Engine/Tests.antt =====
-- The realized leg over three events: one payment that failed twice with a redelivery, and one that
-- failed and then succeeded.
use shortfall.Prelude.{
  ◌≡◌, refl, inr, true, false, none, List, [], ◌∷◌, map, Bytes, codes, ◌=?◌, Result, ok,
}
use shortfall.Prelude.Int.{ℤ, pos, ◌+ℤ◌}
use shortfall.Prelude.Int64.{add64}
use shortfall.Prelude.Maps.{label, has_key}
use shortfall.Biz.Context.{Outcome, kind_gmv, success, failed}
use shortfall.Query.{Caps, QueryError, MetricQuery, EventQuery, EventGroup, SeriesSlice, Querier}
use shortfall.Query.Memq.{
  query_events, matched, grouped, collect, group_key, event_labels, in_range, match_filters,
  order_groups, limited, currency_pinned, add_event, add_to,
}
use shortfall.Query.Memq.Groups.{stats, stats-collect, tally}
use shortfall.Query.Memq.Redelivery.{IsPlain}
use shortfall.Engine.{Request, Leg, amount, wrapped, flow_filters}
use shortfall.Engine.Realized.{
  member, success_query, failed_query, realized_from_events, realized_leg, entity_of,
}
use shortfall.Engine.SameSeen.{in_memory, realized_leg-redelivery}
use shortfall.Engine.Exact.{fetch, counted, loss, number, realized_from_events-exact}

abbrev event : ℤ → Bytes → Bytes → ℤ → Outcome
event at entity result minor = record {
  at = at;
  vc = record {
    flow = codes "pay";
    entity_id = entity;
    customer_id = codes "h:1";
    segment = [];
    money = record { amount = minor; currency = codes "USD"; exponent = pos 2 };
    kind = kind_gmv;
    estimated = false;
    deadline = none;
  };
  stage = codes "capture";
  result = result;
  source = [];
  trace_id = [];
  err_text = [];
}

abbrev declined : Outcome
declined = event (pos 10) (codes "inv-1") failed (pos 500)

abbrev retried : Outcome
retried = event (pos 20) (codes "inv-1") failed (pos 400)

abbrev paid : Outcome
paid = event (pos 30) (codes "inv-2") success (pos 900)

abbrev caps : Caps
caps = record {
  metrics = false;
  events = true;
  metric_history_weeks = 0;
  event_history_weeks = 520;
}

abbrev req : Request
req = record {
  window = record { from = pos 0; to = pos 100 };
  scope = [];
  flows = codes "pay" ∷ [];
}

abbrev no_metrics : MetricQuery → Result QueryError (List (SeriesSlice ℤ))
no_metrics _ = Result.err QueryError.unsupported

abbrev backend : Querier ℤ
backend = in_memory no_metrics caps (declined ∷ retried ∷ paid ∷ [])

abbrev plain : EventQuery
plain = failed_query req []

plain-IsPlain : IsPlain plain
plain-IsPlain = record { money = inr refl; unordered = refl; unlimited = refl }

stats-collect_example :
    stats [] (collect plain.group_by (declined ∷ []) [])
    ≡ tally plain.group_by [] (declined ∷ []) none
stats-collect_example = stats-collect plain.group_by [] (declined ∷ [])

realized_leg-redelivery_example :
    realized_leg
      (in_memory no_metrics caps (declined ∷ retried ∷ declined ∷ paid ∷ []))
      req
      (λ v. v)
    ≡ realized_leg backend req (λ v. v)
unfolding in_memory
realized_leg-redelivery_example =
    realized_leg-redelivery (λ v. v) no_metrics caps req [] (retried ∷ []) (paid ∷ []) declined refl

abbrev group_of : Bytes → ℤ → ℤ → ℤ → EventGroup
group_of entity count sum max = record {
  key = (codes "currency", codes "USD") ∷ (codes "entity", entity) ∷ [];
  count = count;
  sum_minor = sum;
  max_minor = max;
}

fetch_won :
    fetch backend (success_query req) (flow_filters req success)
    ≡ ok (group_of (codes "inv-2") (pos 1) (pos 900) (pos 0) ∷ [])
unfolding fetch in_memory query_events flow_filters wrapped in_range match_filters matched grouped
    currency_pinned has_key collect add_event add_to group_key event_labels order_groups limited
    add64 ◌+ℤ◌ ◌=?◌
fetch_won = refl

fetch_lost :
    fetch backend (failed_query req) (flow_filters req failed)
    ≡ ok (group_of (codes "inv-1") (pos 2) (pos 900) (pos 500) ∷ [])
unfolding fetch in_memory query_events flow_filters wrapped in_range match_filters matched grouped
    currency_pinned has_key collect add_event add_to group_key event_labels order_groups limited
    add64 ◌+ℤ◌ ◌=?◌
fetch_lost = refl

abbrev won : List EventGroup
won = group_of (codes "inv-2") (pos 1) (pos 900) (pos 0) ∷ []

abbrev lost : List EventGroup
lost = group_of (codes "inv-1") (pos 2) (pos 900) (pos 500) ∷ []

realized_from_events-exact_example :
    (leg : Leg) × (realized_from_events backend req ≡ ok leg)
    × ((c : Bytes) → amount c leg.by_currency ≡ loss c (counted (map entity_of won) lost) (pos 0))
    × (leg.count ≡ number (counted (map entity_of won) lost) (pos 0))
realized_from_events-exact_example =
    realized_from_events-exact backend req won lost fetch_won fetch_lost

-- one loss, of the larger of the two failed amounts
loss_of_500 : loss (codes "USD") (counted (map entity_of won) lost) (pos 0) ≡ pos 500
unfolding loss counted member label ◌=?◌ add64 ◌+ℤ◌
loss_of_500 = refl
