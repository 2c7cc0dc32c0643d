-- ===== src/Engine/Deferred/Events.antt =====
-- `deferredFromEvents`: the leg from the deferred outcomes that nothing later resolved.

use shortfall.Prelude.{
  ℕ, Bool, not, ◌&&◌, ◌||◌, Option, none, some, List, [], ◌∷◌, Bytes, codes, ◌=?◌, ltb, ◌==◌,
  if◌then◌else◌, Result, ok, ◌>>=◌,
}
use shortfall.Prelude.Int.{ℤ, pos, ltb_ℤ, ◌+ℤ◌, ◌-ℤ◌}
use shortfall.Prelude.Int64.{add64}
use shortfall.Prelude.Maps.{Map, find, put, label}
use shortfall.Biz.Context.{Time, success, failed, deferred, abandoned}
use shortfall.Registry.{Registry, Flow, Sla, flow_of}
use shortfall.Query.{TimeRange, EventQuery, EventAgg, EventOrder, EventGroup, Querier}
use shortfall.Engine.{Request, EngineError, wrapped, add_to, flow_filters}
use shortfall.Engine.Deferred.{
  DeferredLeg, new_deferred_leg, bucket_index, oldest_age, breached, breached_and_lost,
  resolved_by_later_stage, progressed_past,
}

-- `entityStage`
pub record EntityStage : Type 0 where
  pub flow : Bytes
  pub stage : Bytes
  pub currency : Bytes
  pub entity : Bytes

-- `inflightItem`
pub record InflightItem : Type 0 where
  pub bucket : Bytes
  pub minor : ℤ

abbrev pub Inflight : Type 0
Inflight = List (EntityStage × InflightItem)

unfoldable pub same_entity_stage : EntityStage → EntityStage → Bool
same_entity_stage a b =
    a.flow =? b.flow && a.stage =? b.stage && a.currency =? b.currency && a.entity =? b.entity

abbrev pub entity_stage : EventGroup → EntityStage
entity_stage g = record {
  flow = label (codes "flow") g.key;
  stage = label (codes "stage") g.key;
  currency = label (codes "currency") g.key;
  entity = label (codes "entity") g.key;
}

-- `if g.MaxMinor > item.minor { item.minor = g.MaxMinor }`
unfoldable pub raise : ℤ → InflightItem → InflightItem
raise minor item = if ltb_ℤ item.minor minor then record item { minor = minor } else item

-- one round of the loop over the groups of a cut
unfoldable pub note_item : EntityStage → Bytes → ℤ → Inflight → Inflight
unfolding raise
note_item k bucket minor [] = (k, raise minor (record { bucket = bucket; minor = pos 0 })) ∷ []
note_item k bucket minor ((j, item) ∷ m) =
    if same_entity_stage j k
    then (j, raise minor item) ∷ m
    else (j, item) ∷ note_item k bucket minor m

unfoldable pub note_groups : Bytes → List EventGroup → Inflight → Inflight
unfolding note_item
note_groups bucket [] m = m
note_groups bucket (g ∷ gs) m =
    note_groups bucket gs (note_item (entity_stage g) bucket g.max_minor m)

-- `ageCutoffs`, in nanoseconds
abbrev pub age_cutoffs : List (Bytes × ℕ)
age_cutoffs =
    (codes "gt2h", 7200000000000)
    ∷ (codes "30m-2h", 1800000000000)
    ∷ (codes "5m-30m", 300000000000)
    ∷ (codes "1m-5m", 60000000000)
    ∷ (codes "lt1m", 0)
    ∷ []

-- `cutEnd(to, before)`
unfoldable pub cut_end : Time → ℕ → Time
cut_end to before = if before == 0 then to else (to -ℤ pos before) +ℤ pos 1

-- `eventsLookback(reg, flow)`
longest : Map Sla → ℤ → ℤ
longest [] lookback = lookback
longest ((_, sla) ∷ m) lookback =
    longest m (if ltb_ℤ lookback sla.deadline then sla.deadline else lookback)

lookback_over : Registry → List Bytes → ℤ → ℤ
unfolding longest flow_of
lookback_over r [] lookback = lookback
lookback_over r (name ∷ names) lookback =
    lookback_over r names
      (elim (flow_of r name) [ none ↦ lookback | some f ↦ longest f.sla lookback ])

flow_names : Map Flow → List Bytes
flow_names [] = []
flow_names ((name, _) ∷ m) = name ∷ flow_names m

abbrev min_events_lookback : ℤ
min_events_lookback = pos 7200000000000

unfoldable pub events_lookback : Option Registry → Bytes → ℤ
unfolding lookback_over flow_names
events_lookback none flow = min_events_lookback
events_lookback (some r) [] = lookback_over r (flow_names r.flows) min_events_lookback
events_lookback (some r) (c ∷ s) = lookback_over r ((c ∷ s) ∷ []) min_events_lookback

-- `flowEntity`; a map from these to sets of stages is the list of its pairs
pub record FlowEntity : Type 0 where
  pub flow : Bytes
  pub entity : Bytes

abbrev pub StageSets : Type 0
StageSets = List (FlowEntity × Bytes)

unfoldable pub stages_of : FlowEntity → StageSets → List Bytes
stages_of fe [] = []
stages_of fe ((j, stage) ∷ m) =
    let rest = stages_of fe m in
    if j.flow =? fe.flow && j.entity =? fe.entity then stage ∷ rest else rest

unfoldable pub later_deferred : Inflight → StageSets
later_deferred [] = []
later_deferred ((k, _) ∷ m) =
    (record { flow = k.flow; entity = k.entity }, k.stage) ∷ later_deferred m

unfoldable pub note_terminals : List EventGroup → StageSets → StageSets
note_terminals [] m = m
note_terminals (g ∷ gs) m = note_terminals gs (
    (
      record { flow = label (codes "flow") g.key; entity = label (codes "entity") g.key },
      label (codes "stage") g.key,
    )
    ∷ m)

-- the last loop: a resolved deferral is skipped, any other is booked
unfoldable pub is_resolved : Option Registry → StageSets → StageSets → EntityStage → Bool
unfolding resolved_by_later_stage progressed_past stages_of
is_resolved reg terminals later k =
    let fe : FlowEntity = record { flow = k.flow; entity = k.entity } in
    resolved_by_later_stage reg k.flow k.stage (stages_of fe terminals)
    || progressed_past reg k.flow k.stage (stages_of fe later)

abbrev pub or_empty : Option (Map ℤ) → Map ℤ
or_empty none = []
or_empty (some m) = m

unfoldable pub add_in_bucket : Bytes → Bytes → ℤ → Map (Map ℤ) → Map (Map ℤ)
unfolding add_to find put
add_in_bucket bucket currency minor m =
    put bucket (add_to currency minor (or_empty (find bucket m))) m

unfoldable pub book_sla : Option Registry → EntityStage → InflightItem → DeferredLeg → DeferredLeg
unfolding breached breached_and_lost add_to
book_sla none k item leg = leg
book_sla (some r) k item leg = record leg {
  sla_breaches =
      if breached r k.flow k.stage item.bucket
      then add64 leg.sla_breaches (pos 1)
      else leg.sla_breaches;
  projected_lost_minor =
      if breached_and_lost r k.flow k.stage item.bucket
      then add_to k.currency item.minor leg.projected_lost_minor
      else leg.projected_lost_minor;
}

unfoldable pub book : Option Registry → EntityStage → InflightItem → DeferredLeg → DeferredLeg
unfolding book_sla add_in_bucket add_to
book reg k item leg = book_sla reg k item (record leg {
  by_age_bucket = add_in_bucket item.bucket k.currency item.minor leg.by_age_bucket;
  leg = record leg.leg {
    by_currency = add_to k.currency item.minor leg.leg.by_currency;
    count = add64 leg.leg.count (pos 1);
  };
})

unfoldable pub book_open :
    Option Registry → StageSets → StageSets → Inflight → ℕ → DeferredLeg → DeferredLeg × ℕ
unfolding book is_resolved bucket_index
book_open reg terminals later [] oldest leg = (leg, oldest)
book_open reg terminals later ((k, item) ∷ m) oldest leg =
    let skipped = book_open reg terminals later m oldest leg in
    let idx = bucket_index item.bucket in
    let booked =
      book_open reg terminals later m (if ltb oldest idx then idx else oldest)
        (book reg k item leg) in
    if is_resolved reg terminals later k then skipped else booked

-- `if oldestIdx >= 0 { leg.OldestAgeMinutes = ... }`
unfoldable pub with_oldest : DeferredLeg × ℕ → DeferredLeg
unfolding oldest_age
with_oldest (leg, oldest) =
    if oldest == 0 then leg else record leg { oldest_age_minutes = oldest_age oldest }

-- `terminalOutcomes`
abbrev pub terminal_outcomes : List Bytes
terminal_outcomes = success ∷ failed ∷ abandoned ∷ []

-- `eventsDerivedCaveat`, by its first words
abbrev pub events_derived_caveat : Bytes
events_derived_caveat = codes "events-derived: no biz_inflight_value gauge grounded this leg"

module _ {V : Type 0} (reg : Option Registry) (q : Querier V) (req : Request) where
  -- `startFor(filters)`
  abbrev pub start_for : Map Bytes → Time
  start_for filters = req.window.from -ℤ events_lookback reg (label (codes "flow") filters)

  abbrev pub entity_query : EventAgg → TimeRange → Map Bytes → EventQuery
  entity_query agg range filters = record {
    filters = filters;
    group_by = codes "flow" ∷ codes "stage" ∷ codes "currency" ∷ codes "entity" ∷ [];
    range = range;
    agg = agg;
    order_by = EventOrder.order_none;
    limit = pos 0;
  }

  -- one round of the loops over the cuts and the filters
  unfoldable pub cut_round : Bytes → ℕ → Map Bytes → Inflight → Result EngineError Inflight
  unfolding cut_end events_lookback
  cut_round bucket before filters m =
      let range : TimeRange = record {
        from = start_for filters;
        to = cut_end req.window.to before;
      } in
      if not (ltb_ℤ range.from range.to) then ok m else do
        groups ← wrapped (q.query_events (entity_query EventAgg.max_per_group range filters))
        ok (note_groups bucket groups m)

  unfoldable pub cut_filters : Bytes → ℕ → List (Map Bytes) → Inflight → Result EngineError Inflight
  cut_filters bucket before [] m = ok m
  cut_filters bucket before (f ∷ fs) m = do
    m' ← cut_round bucket before f m
    cut_filters bucket before fs m'

  unfoldable pub cut_loop : List (Bytes × ℕ) → Inflight → Result EngineError Inflight
  cut_loop [] m = ok m
  cut_loop ((bucket, before) ∷ cuts) m = do
    m' ← cut_filters bucket before (flow_filters req deferred) m
    cut_loop cuts m'

  unfoldable pub terminal_filters : List (Map Bytes) → StageSets → Result EngineError StageSets
  terminal_filters [] m = ok m
  terminal_filters (f ∷ fs) m = do
    groups ← wrapped (
        q.query_events
          (entity_query EventAgg.groups (record { from = start_for f; to = req.window.to }) f))
    terminal_filters fs (note_terminals groups m)

  unfoldable pub terminal_loop : List Bytes → StageSets → Result EngineError StageSets
  terminal_loop [] m = ok m
  terminal_loop (outcome ∷ outcomes) m = do
    m' ← terminal_filters (flow_filters req outcome) m
    terminal_loop outcomes m'

  -- `deferredFromEvents`
  unfoldable pub deferred_from_events : Result EngineError DeferredLeg
  unfolding cut_loop terminal_loop book_open with_oldest later_deferred
  deferred_from_events = do
    inflight ← cut_loop age_cutoffs []
    terminals ← terminal_loop terminal_outcomes []
    ok (
        with_oldest (
          book_open reg terminals (later_deferred inflight) inflight 0
            (new_deferred_leg (events_derived_caveat ∷ []))))
