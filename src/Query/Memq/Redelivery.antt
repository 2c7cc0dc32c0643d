-- ===== src/Query/Memq/Redelivery.antt =====
-- A redelivered event: what `QueryEvents` answers about keys and largest amounts stays.
use shortfall.Prelude.{
  ◌≡◌, refl, ap, ◌∙◌, Bool, true, false, not, List, [], ◌∷◌, ◌++◌, map, arith, Bytes, ◌=?◌, =?_iff,
  if◌then◌else◌, Bool-cases, inl, inr, ◌⊎◌, Result, ok, err,
}
use shortfall.Prelude.Int.{ℤ, pos, ltb_ℤ}
use shortfall.Prelude.Maps.{Map}
use shortfall.Prelude.Sort.{sort_by, map-sort_by, ltb_bytes}
use shortfall.Biz.Context.{Outcome}
use shortfall.Query.{EventQuery, EventAgg, EventOrder, EventGroup, QueryError, Caps}
use shortfall.Query.Memq.{
  Group, add_to, add_event, collect, canonical, group_key, event_labels, max_ℤ, matched, matches,
  is_max, to_group, less_key, order_groups, limited, grouped, query_events, currency_pinned, by_agg,
}

-- a group's name, key and largest amount
abbrev Peak : Type 0
Peak = Bytes × Map Bytes × ℤ

abbrev peak : Group → Peak
peak g = (g.name, g.key, g.max_minor)

add_peak : Bytes → Map Bytes → ℤ → List Peak → List Peak
add_peak ck key a [] = (ck, key, a) ∷ []
add_peak ck key a (p ∷ ps) =
    if p.0 =? ck then (p.0, p.1, max_ℤ p.2 a) ∷ ps else p ∷ add_peak ck key a ps

peaks : List Bytes → List Outcome → List Peak → List Peak
peaks group_by [] ps = ps
peaks group_by (o ∷ os) ps =
    let key = group_key (event_labels o) group_by in
    peaks group_by os (add_peak (canonical key) key o.vc.money.amount ps)

max_self : (a : ℤ) → max_ℤ a a ≡ a
max_self a = ground arith

map-add_to :
    (ck : Bytes) (key : Map Bytes) (a : ℤ) (gs : List Group)
    → map peak (add_to ck key a gs) ≡ add_peak ck key a (map peak gs)
unfolding add_to add_peak
map-add_to ck key a [] = rw (max_self a)
map-add_to ck key a (g ∷ gs) = elim (Bool-cases (g.name =? ck)) [
  | inl same ↦ rw same
  | inr other ↦ rw other (ap (λ t. peak g ∷ t) (map-add_to ck key a gs))
]

map-collect :
    (group_by : List Bytes) (os : List Outcome) (gs : List Group)
    → map peak (collect group_by os gs) ≡ peaks group_by os (map peak gs)
unfolding collect peaks add_event
map-collect group_by [] gs = refl
map-collect group_by (o ∷ os) gs =
    let key = group_key (event_labels o) group_by in
    map-collect group_by os (add_to (canonical key) key o.vc.money.amount gs)
    ∙ ap (peaks group_by os) (map-add_to (canonical key) key o.vc.money.amount gs)

-- The first group of this name has an amount of at least `a`.
covers : Bytes → ℤ → List Peak → Bool
covers ck a [] = false
covers ck a (p ∷ ps) = if p.0 =? ck then not (ltb_ℤ p.2 a) else covers ck a ps

covers-add_self :
    (ck : Bytes) (key : Map Bytes) (a : ℤ) (ps : List Peak)
    → covers ck a (add_peak ck key a ps) ≡ true
unfolding covers add_peak
covers-add_self ck key a [] = ground (arith, =?_iff ck ck)
covers-add_self ck key a (p ∷ ps) = ground (arith, =?_iff p.0 ck, covers-add_self ck key a ps)

covers-add :
    (ck ck' : Bytes) (key : Map Bytes) (a b : ℤ) (ps : List Peak)
    → covers ck a ps ≡ true
    → covers ck a (add_peak ck' key b ps) ≡ true
unfolding covers add_peak
covers-add ck ck' key a b [] h = cc
covers-add ck ck' key a b (p ∷ ps) h =
    ground (arith, =?_iff p.0 ck, =?_iff p.0 ck', covers-add ck ck' key a b ps)

add_peak_idem :
    (ck : Bytes) (key : Map Bytes) (a : ℤ) (ps : List Peak)
    → covers ck a ps ≡ true
    → add_peak ck key a ps ≡ ps
unfolding covers add_peak
add_peak_idem ck key a [] h = cc
add_peak_idem ck key a (p ∷ ps) h = ground (arith, add_peak_idem ck key a ps)

module _ (group_by : List Bytes) where
  covers-peaks :
      (ck : Bytes) (a : ℤ) (os : List Outcome) (ps : List Peak)
      → covers ck a ps ≡ true
      → covers ck a (peaks group_by os ps) ≡ true
  unfolding peaks
  covers-peaks ck a [] ps h = h
  covers-peaks ck a (o ∷ os) ps h =
      let key = group_key (event_labels o) group_by in
      covers-peaks ck a os _ (covers-add ck (canonical key) key a o.vc.money.amount ps h)

  peaks-append :
      (os os' : List Outcome) (ps : List Peak)
      → peaks group_by (os ++ os') ps ≡ peaks group_by os' (peaks group_by os ps)
  unfolding peaks
  peaks-append [] os' ps = refl
  peaks-append (o ∷ os) os' ps = peaks-append os os' _

  -- a second copy of `o`, anywhere behind the first, changes no name, key or largest amount
  peaks_again :
      (xs ys zs : List Outcome) (o : Outcome)
      → peaks group_by (xs ++ o ∷ (ys ++ o ∷ zs)) [] ≡ peaks group_by (xs ++ o ∷ (ys ++ zs)) []
  unfolding peaks
  peaks_again xs ys zs o =
      let key = group_key (event_labels o) group_by in
      let before = add_peak (canonical key) key o.vc.money.amount (peaks group_by xs []) in
      let have =
        covers-peaks (canonical key) o.vc.money.amount ys before
          (covers-add_self (canonical key) key o.vc.money.amount (peaks group_by xs [])) in
      rw (
        peaks-append xs,
        peaks-append xs,
        peaks-append ys,
        peaks-append ys,
        add_peak_idem (canonical key) key o.vc.money.amount _ have,
      )

-- What the engine reads of a group on the paths that count each entity once: its key and its
-- largest amount.
abbrev pub seen : EventGroup → Map Bytes × ℤ
seen g = (g.key, g.max_minor)

abbrev pub map_ok : {A B : Type 0} → (A → B) → Result QueryError A → Result QueryError B
map_ok f (ok a) = ok (f a)
map_ok f (err e) = err e

matched-append :
    (qy : EventQuery) (xs ys : List Outcome)
    → matched qy (xs ++ ys) ≡ matched qy xs ++ matched qy ys
unfolding matched
matched-append qy [] ys = refl
matched-append qy (x ∷ xs) ys = ground (arith, matched-append qy xs ys)

abbrev shown : EventAgg → Peak → Map Bytes × ℤ
shown agg p = (p.1, if is_max agg then p.2 else pos 0)

abbrev less_seen : Map Bytes × ℤ → Map Bytes × ℤ → Bool
less_seen a b = ltb_bytes (canonical a.0) (canonical b.0)

map-shown :
    (agg : EventAgg) (gs : List Group)
    → map seen (map (to_group agg) gs) ≡ map (shown agg) (map peak gs)
map-shown agg [] = refl
map-shown agg (g ∷ gs) = ap (λ t. shown agg (peak g) ∷ t) (map-shown agg gs)

-- the query asks for groups with no order and no limit, as the engine does
pub record IsPlain (qy : EventQuery) : Type 0 where
  pub money : (qy.agg ≡ EventAgg.groups) ⊎ (qy.agg ≡ EventAgg.max_per_group)
  pub unordered : qy.order_by ≡ EventOrder.order_none
  pub unlimited : qy.limit ≡ pos 0

grouped-seen :
    (qy : EventQuery) (os : List Outcome)
    → IsPlain qy
    → map_ok (map seen) (grouped qy os) ≡ (
        if currency_pinned qy
        then ok (sort_by less_seen (map (shown qy.agg) (peaks qy.group_by os [])))
        else err QueryError.crosses_currencies)
unfolding grouped order_groups limited
grouped-seen qy os plain = elim (Bool-cases (currency_pinned qy)) [
  | inr open_sum ↦ rw open_sum
  | inl pinned ↦
      rw (pinned, plain.unordered, plain.unlimited)
        (ap ok (
          map-sort_by seen less_key less_seen (λ a b. refl) _
          ∙ ap (sort_by less_seen)
              (map-shown qy.agg _ ∙ ap (map (shown qy.agg)) (map-collect qy.group_by os []))))
]

by_agg_money :
    (agg : EventAgg) (counted money : Result QueryError (List EventGroup))
    → (agg ≡ EventAgg.groups) ⊎ (agg ≡ EventAgg.max_per_group)
    → by_agg agg counted money ≡ money
by_agg_money EventAgg.groups c m h = refl
by_agg_money EventAgg.max_per_group c m h = refl
by_agg_money (EventAgg.other_agg t) c m h = refl
by_agg_money EventAgg.distinct_count c m h = elim h [ inl e ↦ cc | inr e ↦ cc ]

query_events-seen :
    (caps : Caps) (os : List Outcome) (qy : EventQuery)
    → IsPlain qy
    → map_ok (map seen) (query_events caps os qy) ≡ (
        if caps.events
        then map_ok (map seen) (grouped qy (matched qy os))
        else err QueryError.unsupported)
unfolding query_events
query_events-seen caps os qy plain = elim (Bool-cases caps.events) [
  | inl on ↦ rw (on, by_agg_money qy.agg _ _ plain.money)
  | inr off ↦ rw off
]

matched_again :
    (qy : EventQuery) (xs ys zs : List Outcome) (o : Outcome)
    → peaks qy.group_by (matched qy (xs ++ o ∷ (ys ++ o ∷ zs))) []
      ≡ peaks qy.group_by (matched qy (xs ++ o ∷ (ys ++ zs))) []
unfolding matched
matched_again qy xs ys zs o = elim (Bool-cases (matches qy o)) [
  | inr out ↦ rw (
    matched-append qy xs,
    matched-append qy xs,
    out,
    matched-append qy ys,
    matched-append qy ys,
    out,
  )
  | inl hit ↦
      rw
        (
          matched-append qy xs,
          matched-append qy xs,
          hit,
          matched-append qy ys,
          matched-append qy ys,
          hit,
        )
        (peaks_again qy.group_by (matched qy xs) (matched qy ys) (matched qy zs) o)
]

-- Over a backend that holds the events in memory, a further copy of an event, anywhere behind the
-- first, changes neither whether a query for groups (with no order and no limit) fails, nor the keys
-- that it answers, their order and the largest amount of each.
pub query_events-redelivery :
    (caps : Caps) (qy : EventQuery) (xs ys zs : List Outcome) (o : Outcome)
    → IsPlain qy
    → map_ok (map seen) (query_events caps (xs ++ o ∷ (ys ++ o ∷ zs)) qy)
      ≡ map_ok (map seen) (query_events caps (xs ++ o ∷ (ys ++ zs)) qy)
query_events-redelivery caps qy xs ys zs o plain = rw (
  query_events-seen caps (xs ++ o ∷ (ys ++ o ∷ zs)) qy plain,
  query_events-seen caps (xs ++ o ∷ (ys ++ zs)) qy plain,
  grouped-seen qy (matched qy (xs ++ o ∷ (ys ++ o ∷ zs))) plain,
  grouped-seen qy (matched qy (xs ++ o ∷ (ys ++ zs))) plain,
  matched_again qy xs ys zs o,
)
