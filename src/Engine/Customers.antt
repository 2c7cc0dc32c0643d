-- ===== src/Engine/Customers.antt =====
-- engine/customers.go: the accounts that were hit, by segment, and the hardest hit.
pub mod Exact
pub mod Segments
mod Tests
use shortfall.Prelude.{
  ℕ, ◌+◌, Bool, true, false, not, ◌&&◌, ◌||◌, Option, none, some, List, [], ◌∷◌, Bytes, codes, take,
  length, ltb, Result, ok, err, ◌>>=◌, if◌then◌else◌,
}
use shortfall.Prelude.Int.{ℤ, pos, pos_part, neg_part, ltb_ℤ}
use shortfall.Prelude.Maps.{Map, find, put, label}
use shortfall.Prelude.Sort.{sort_by, ltb_bytes}
use shortfall.Biz.Context.{failed}
use shortfall.Query.{EventQuery, EventAgg, EventOrder, EventGroup, Querier}
use shortfall.Engine.{Request, EngineError, wrapped, add_to, flow_filters}
use shortfall.Engine.Realized.{currency_of}

-- `type CustomerImpact struct`
pub record CustomerImpact : Type 0 where
  pub customer_id : Bytes
  pub segment : Bytes
  pub by_currency : Map ℤ

-- `type CustomersLeg struct`
pub record CustomersLeg : Type 0 where
  pub distinct : ℤ
  pub by_segment : Map ℤ
  pub top_n : List CustomerImpact
  pub not_available_reason : Bytes

-- `type acct struct`
pub record Account : Type 0 where
  pub segment : Bytes
  pub by_cur : Map ℤ

abbrev pub customer_of : EventGroup → Bytes
customer_of g = label (codes "customer") g.key

abbrev pub account_or_new : Option Account → EventGroup → Account
account_or_new none g = record { segment = label (codes "segment") g.key; by_cur = [] }
account_or_new (some a) g = a

-- `a.byCur[g.Key["currency"]] += g.SumMinor`
unfoldable pub credit : EventGroup → Account → Account
unfolding add_to
credit g a = record a { by_cur = add_to (currency_of g) g.sum_minor a.by_cur }

-- one round of the loop over the groups
unfoldable pub add_account : EventGroup → Map Account → Map Account
unfolding find put credit
add_account g accts =
    put (customer_of g) (credit g (account_or_new (find (customer_of g) accts) g)) accts

unfoldable pub merge : List EventGroup → Map Account → Map Account
unfolding add_account
merge [] accts = accts
merge (g ∷ gs) accts = merge gs (add_account g accts)

-- the loop that counts the accounts of each segment
unfoldable pub count_segments : Map Account → Map ℤ → Map ℤ
unfolding add_to
count_segments [] m = m
count_segments ((_, a) ∷ accts) m = count_segments accts (add_to a.segment (pos 1) m)

-- `maxCurrency(byCur)`, with `first` as no maximum so far
max_from : Option ℤ → Map ℤ → ℤ
max_from none [] = pos 0
max_from (some m) [] = m
max_from none ((_, v) ∷ vs) = max_from (some v) vs
max_from (some m) ((_, v) ∷ vs) = max_from (some (if ltb_ℤ m v then v else m)) vs

unfoldable pub max_currency : Map ℤ → ℤ
unfolding max_from
max_currency m = max_from none m

-- the order of the ranking
unfoldable pub ranks_before : Bytes × Account → Bytes × Account → Bool
unfolding max_currency ltb_bytes
ranks_before (i, a) (j, b) =
    ltb_ℤ (max_currency b.by_cur) (max_currency a.by_cur)
    || (not (ltb_ℤ (max_currency a.by_cur) (max_currency b.by_cur)) && ltb_bytes i j)

unfoldable pub impacts : Map Account → List CustomerImpact
impacts [] = []
impacts ((id, a) ∷ accts) =
    record { customer_id = id; segment = a.segment; by_currency = a.by_cur } ∷ impacts accts

-- the ids cut to `topN`, where it is positive; none otherwise
unfoldable pub cut_to : ℤ → Map Account → Map Account
cut_to top_n accts = if ltb_ℤ (pos 0) top_n then take (pos_part top_n) accts else []

-- the leg of the accounts
unfoldable pub leg_of : ℤ → Map Account → CustomersLeg
unfolding count_segments sort_by ranks_before impacts cut_to
leg_of top_n accts = record {
  distinct = pos (length accts);
  by_segment = count_segments accts [];
  top_n = impacts (cut_to top_n (sort_by ranks_before accts));
  not_available_reason = [];
}

abbrev pub no_events : CustomersLeg
no_events = record {
  distinct = pos 0;
  by_segment = [];
  top_n = [];
  not_available_reason = codes "backend serves no events";
}

abbrev pub customers_query : Request → Map Bytes → EventQuery
customers_query req filters = record {
  filters = filters;
  group_by = codes "currency" ∷ codes "customer" ∷ codes "segment" ∷ [];
  range = req.window;
  agg = EventAgg.groups;
  order_by = EventOrder.order_none;
  limit = pos 0;
}

module _ {V : Type 0} (q : Querier V) (req : Request) where
  unfoldable pub customers_loop : List (Map Bytes) → Map Account → Result EngineError (Map Account)
  unfolding merge
  customers_loop [] accts = ok accts
  customers_loop (f ∷ fs) accts = do
    groups ← wrapped (q.query_events (customers_query req f))
    customers_loop fs (merge groups accts)

  -- `Customers(ctx, reg, q, req, topN)`
  unfoldable pub customers : ℤ → Result EngineError CustomersLeg
  unfolding customers_loop leg_of flow_filters wrapped
  customers top_n =
      let loop : Result EngineError CustomersLeg =
        customers_loop (flow_filters req failed) [] >>= λ accts. ok (leg_of top_n accts) in
      if q.capabilities.events then loop else ok no_events
