-- ===== src/Query/Memq.antt =====
-- query/memq/memq.go: the in-memory backend, its event queries. An int64 is an integer with the
-- wrap-around of `add64`; a map is an association list.
pub mod Groups
pub mod Redelivery
pub mod Metrics
use shortfall.Prelude.{
  ℕ, zero, suc, ◌≡◌, refl, Bool, true, false, not, ◌&&◌, ◌||◌, Option, none, some, List, [], ◌∷◌,
  ◌++◌, map, Bytes, codes, ◌=?◌, if◌then◌else◌, length, take, ltb, Result, ok, err, ◌>>=◌, ◌>>◌,
  fail_if,
}
use shortfall.Prelude.Int.{ℤ, pos, ltb_ℤ, pos_part}
use shortfall.Prelude.Int64.{add64}
use shortfall.Prelude.Maps.{Map, find, put, label, has_key}
use shortfall.Prelude.Sort.{sort_by, ltb_bytes}
use shortfall.Biz.Context.{Time, Outcome}
use shortfall.Query.{TimeRange, EventQuery, EventAgg, EventOrder, EventGroup, QueryError, Caps}

-- `inRange(t, r)`
unfoldable pub in_range : Time → TimeRange → Bool
in_range t r = not (ltb_ℤ t r.from) && ltb_ℤ t r.to

-- `matchFilters(labels, filters)`
unfoldable pub match_filters : Map Bytes → Map Bytes → Bool
unfolding label
match_filters labels [] = true
match_filters labels ((k, v) ∷ filters) = label k labels =? v && match_filters labels filters

-- `groupKey(labels, groupBy)`; the loop sets the keys in the order of the list
project_onto : Map Bytes → List Bytes → Map Bytes → Map Bytes
project_onto labels [] key = key
project_onto labels (k ∷ ks) key = project_onto labels ks (put k (label k labels) key)

unfoldable pub group_key : Map Bytes → List Bytes → Map Bytes
unfolding project_onto
group_key labels group_by = project_onto labels group_by []

keys : Map Bytes → List Bytes
keys [] = []
keys ((k, _) ∷ m) = k ∷ keys m

join : Map Bytes → List Bytes → Bytes → Bytes
join key [] s = s
join key (k ∷ ks) s = join key ks (s ++ k ++ b'=' ∷ label k key ++ 0 ∷ [])

-- `canonical(key)`
unfoldable pub canonical : Map Bytes → Bytes
unfolding keys join label sort_by ltb_bytes
canonical key = join key (sort_by ltb_bytes (keys key)) []

-- `eventLabels(o)`
unfoldable pub event_labels : Outcome → Map Bytes
event_labels o =
    (codes "flow", o.vc.flow)
    ∷ (codes "stage", o.stage)
    ∷ (codes "outcome", o.result)
    ∷ (codes "currency", o.vc.money.currency)
    ∷ (codes "segment", o.vc.segment)
    ∷ (codes "kind", o.vc.kind)
    ∷ (codes "customer", o.vc.customer_id)
    ∷ (codes "entity", o.vc.entity_id)
    ∷ []

abbrev pub matches : EventQuery → Outcome → Bool
matches qy o = in_range o.at qy.range && match_filters (event_labels o) qy.filters

-- the loop that fills `matched`
unfoldable pub matched : EventQuery → List Outcome → List Outcome
matched qy [] = []
matched qy (o ∷ events) = if matches qy o then o ∷ matched qy events else matched qy events

-- `type agg struct`, with the canonical text of its key in front: the map `groups` and the slice
-- `order` are one list
pub record Group : Type 0 where
  pub name : Bytes
  pub key : Map Bytes
  pub count : ℤ
  pub sum_minor : ℤ
  pub max_minor : ℤ

abbrev max_ℤ : ℤ → ℤ → ℤ
max_ℤ a b = if ltb_ℤ a b then b else a

unfoldable pub joined : ℤ → Group → Group
joined amount g = record g {
  count = add64 g.count (pos 1);
  sum_minor = add64 g.sum_minor amount;
  max_minor = max_ℤ g.max_minor amount;
}

-- One round of the loop over the matched events: the event joins its group, or begins one.
unfoldable pub add_to : Bytes → Map Bytes → ℤ → List Group → List Group
unfolding joined
add_to ck key amount [] =
    joined amount
      (record { name = ck; key = key; count = pos 0; sum_minor = pos 0; max_minor = amount })
    ∷ []
add_to ck key amount (g ∷ gs) =
    if g.name =? ck then joined amount g ∷ gs else g ∷ add_to ck key amount gs

unfoldable pub add_event : List Bytes → Outcome → List Group → List Group
unfolding canonical
add_event group_by o gs =
    let key = group_key (event_labels o) group_by in add_to (canonical key) key o.vc.money.amount gs

unfoldable pub collect : List Bytes → List Outcome → List Group → List Group
collect group_by [] gs = gs
collect group_by (o ∷ os) gs = collect group_by os (add_event group_by o gs)

abbrev is_max : EventAgg → Bool
is_max EventAgg.max_per_group = true
is_max _ = false

-- the loop that fills `out`
abbrev pub to_group : EventAgg → Group → EventGroup
to_group agg g = record {
  key = g.key;
  count = g.count;
  sum_minor = g.sum_minor;
  max_minor = if is_max agg then g.max_minor else pos 0;
}

abbrev less_key : EventGroup → EventGroup → Bool
less_key a b = ltb_bytes (canonical a.key) (canonical b.key)

abbrev by_desc : ℤ → ℤ → Bool → Bool
by_desc a b tie = if ltb_ℤ a b || ltb_ℤ b a then ltb_ℤ b a else tie

-- `orderGroups(g, o)`
unfoldable pub order_groups : EventOrder → List EventGroup → Result QueryError (List EventGroup)
order_groups EventOrder.order_none gs = ok (sort_by less_key gs)
order_groups EventOrder.sum_desc gs =
    ok (sort_by (λ a b. by_desc a.sum_minor b.sum_minor (less_key a b)) gs)
order_groups EventOrder.count_desc gs =
    ok (sort_by (λ a b. by_desc a.count b.count (less_key a b)) gs)
order_groups (EventOrder.other_order _) gs = err QueryError.unknown_order

mem_bytes : Bytes → List Bytes → Bool
mem_bytes k [] = false
mem_bytes k (j ∷ ks) = j =? k || mem_bytes k ks

-- the distinct canonical keys that the loop of `distinctCount` has seen
see : List Bytes → List Outcome → List Bytes → List Bytes
see group_by [] seen = seen
see group_by (o ∷ os) seen =
    let ck = canonical (group_key (event_labels o) group_by) in
    see group_by os (if mem_bytes ck seen then seen else ck ∷ seen)

-- `distinctCount(matched, groupBy)`
unfoldable pub distinct_count : List Outcome → List Bytes → List EventGroup
unfolding see mem_bytes
distinct_count os group_by =
    record {
      key = [];
      count = pos (length (see group_by os []));
      sum_minor = pos 0;
      max_minor = pos 0;
    }
    ∷ []

-- `currencyInvariant(matched, qy)`
unfoldable pub currency_pinned : EventQuery → Bool
unfolding mem_bytes
currency_pinned qy =
    has_key (codes "currency") qy.filters || mem_bytes (codes "currency") qy.group_by

abbrev is_order_none : EventOrder → Bool
is_order_none EventOrder.order_none = true
is_order_none _ = false

-- the cut to `Limit`
unfoldable pub limited : EventQuery → List EventGroup → Result QueryError (List EventGroup)
limited qy out =
    if ltb_ℤ (pos 0) qy.limit
    then if is_order_none qy.order_by
      then err QueryError.limit_without_order
      else ok (take (pos_part qy.limit) out)
    else ok out

-- `QueryEvents` for the aggregates that read money
unfoldable pub grouped : EventQuery → List Outcome → Result QueryError (List EventGroup)
grouped qy os = do
  fail_if (not (currency_pinned qy)) QueryError.crosses_currencies
  out ← order_groups qy.order_by (map (to_group qy.agg) (collect qy.group_by os []))
  limited qy out

abbrev by_agg :
    EventAgg
    → Result QueryError (List EventGroup)
    → Result QueryError (List EventGroup)
    → Result QueryError (List EventGroup)
by_agg EventAgg.distinct_count counted money = counted
by_agg _ counted money = money

-- `Querier.QueryEvents` over the capabilities and the events that the Querier holds
unfoldable pub query_events : Caps → List Outcome → EventQuery → Result QueryError (List EventGroup)
query_events caps events qy = do
  fail_if (not caps.events) QueryError.unsupported
  by_agg qy.agg (ok (distinct_count (matched qy events) qy.group_by))
      (grouped qy (matched qy events))
