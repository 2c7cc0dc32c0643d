-- ===== src/Engine/Customers/Tests.antt =====
-- The customers leg of three failed groups of two customers, of whom the harder hit is listed.
use shortfall.Prelude.{
  ◌≡◌, refl, true, false, List, [], ◌∷◌, codes, ◌=?◌, length, All, Bytes, Result, ok,
}
use shortfall.Prelude.Int.{ℤ, pos, ◌+ℤ◌}
use shortfall.Prelude.Int64.{add64}
use shortfall.Prelude.Maps.{find, put, label}
use shortfall.Prelude.Sort.{sort_by, ltb_bytes}
use shortfall.Biz.Context.{failed}
use shortfall.Query.{EventGroup, Querier, QueryError}
use shortfall.Engine.{Request, amount, add_to, flow_filters, wrapped}
use shortfall.Engine.Exact.{fetch}
use shortfall.Engine.Customers.{
  CustomersLeg, customers, customers_loop, customers_query, merge, add_account, credit, leg_of,
  count_segments, ranks_before, max_currency, impacts, cut_to,
}
use shortfall.Engine.Customers.Exact.{spent, new_ids, customers-exact}

abbrev group_of : Bytes → Bytes → ℤ → EventGroup
group_of currency customer sum = record {
  key =
      (codes "currency", currency)
      ∷ (codes "customer", customer)
      ∷ (codes "segment", codes "retail")
      ∷ [];
  count = pos 1;
  sum_minor = sum;
  max_minor = sum;
}

abbrev three : List EventGroup
three =
    group_of (codes "EUR") (codes "h:1") (pos 300)
    ∷ group_of (codes "EUR") (codes "h:2") (pos 700)
    ∷ group_of (codes "USD") (codes "h:1") (pos 500)
    ∷ []

abbrev backend : Querier ℤ
backend = record {
  query_metric = λ _. Result.err QueryError.unsupported;
  query_events = λ _. ok three;
  capabilities = record {
    metrics = false;
    events = true;
    metric_history_weeks = 0;
    event_history_weeks = 4;
  };
}

abbrev req : Request
req = record {
  window = record { from = pos 0; to = pos 100 };
  scope = [];
  flows = codes "pay" ∷ [];
}

abbrev hardest : CustomersLeg
hardest = record {
  distinct = pos 2;
  by_segment = (codes "retail", pos 2) ∷ [];
  top_n =
      record {
        customer_id = codes "h:2";
        segment = codes "retail";
        by_currency = (codes "EUR", pos 700) ∷ [];
      }
      ∷ [];
  not_available_reason = [];
}

fetched : fetch backend (customers_query req) (flow_filters req failed) ≡ ok three
unfolding fetch wrapped flow_filters
fetched = refl

returned : customers backend req (pos 1) ≡ ok hardest
unfolding customers customers_loop merge add_account credit leg_of count_segments ranks_before
    max_currency impacts cut_to sort_by ltb_bytes flow_filters wrapped find put label add_to amount
    add64 ◌+ℤ◌ ◌=?◌
returned = refl

customers-exact_example :
    (leg : CustomersLeg) × (customers backend req (pos 1) ≡ ok leg)
    × (leg.distinct ≡ pos (length (new_ids [] three)))
    × All
        (λ x. (c : Bytes) → amount c x.by_currency ≡ spent x.customer_id c three (pos 0))
        leg.top_n
customers-exact_example = customers-exact backend req (pos 1) three refl fetched
