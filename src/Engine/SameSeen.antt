-- ===== src/Engine/SameSeen.antt =====
-- The realized leg reads of a group only its key and its largest amount, so a redelivered event does
-- not change it.
use mathlib.Core.Path.{fun_ext}
use shortfall.Prelude.{
  ◌≡◌, refl, sym, ap, ◌∙◌, true, List, [], ◌∷◌, ◌++◌, map, Bytes, codes, inl, inr, Result, ok, err,
  ◌>>=◌, if◌then◌else◌,
}
use shortfall.Prelude.Int.{ℤ, pos}
use shortfall.Prelude.Int64.{add64}
use shortfall.Prelude.Maps.{Map, label}
use shortfall.Biz.Context.{success, failed, Outcome}
use shortfall.Query.{EventQuery, EventGroup, QueryError, Querier, Caps, MetricQuery, SeriesSlice}
use shortfall.Query.Memq.{query_events}
use shortfall.Query.Memq.Redelivery.{seen, map_ok, IsPlain, query_events-redelivery}
use shortfall.Engine.{Request, Leg, EngineError, no_source, wrapped, add_to, flow_filters}
use shortfall.Engine.Realized.{
  entity_of, member, success_query, failed_query, note_succeeded, add_failed, empty_leg,
  success_loop, failed_loop, realized_from_events, realized_from_metrics, realized_leg,
}

abbrev Seen : Type 0
Seen = Map Bytes × ℤ

note_seen : List Seen → List Bytes → List Bytes
note_seen [] succeeded = succeeded
note_seen (g ∷ gs) succeeded = note_seen gs (label (codes "entity") g.0 ∷ succeeded)

add_seen : List Bytes → List Seen → Leg → Leg
add_seen succeeded [] leg = leg
add_seen succeeded (g ∷ gs) leg = add_seen succeeded gs (
    if member (label (codes "entity") g.0) succeeded then leg else record leg {
      by_currency = add_to (label (codes "currency") g.0) g.1 leg.by_currency;
      count = add64 leg.count (pos 1);
    })

note_succeeded-seen :
    (gs : List EventGroup) (ks : List Bytes) → note_succeeded gs ks ≡ note_seen (map seen gs) ks
unfolding note_succeeded note_seen
note_succeeded-seen [] ks = refl
note_succeeded-seen (g ∷ gs) ks = note_succeeded-seen gs (entity_of g ∷ ks)

add_failed-seen :
    (ks : List Bytes) (gs : List EventGroup) (leg : Leg)
    → add_failed ks gs leg ≡ add_seen ks (map seen gs) leg
unfolding add_failed add_seen
add_failed-seen ks [] leg = refl
add_failed-seen ks (g ∷ gs) leg = add_failed-seen ks gs _

-- Continuations that read only what is seen take answers that look the same to the same result.
bind_seen :
    {A : Type 0} (r r' : Result QueryError (List EventGroup))
    (k l : List EventGroup → Result EngineError A) (k' : List Seen → Result EngineError A)
    → ((gs : List EventGroup) → k gs ≡ k' (map seen gs))
    → ((gs : List EventGroup) → l gs ≡ k' (map seen gs))
    → map_ok (map seen) r ≡ map_ok (map seen) r'
    → (wrapped r >>= k) ≡ (wrapped r' >>= l)
unfolding wrapped
bind_seen (ok gs) (ok gs') k l k' h h' e =
    let e' : map seen gs ≡ map seen gs' = cc in h gs ∙ ap k' e' ∙ sym (h' gs')
bind_seen (ok gs) (err x) k l k' h h' e = cc
bind_seen (err x) (ok gs) k l k' h h' e = cc
bind_seen (err x) (err y) k l k' h h' e = cc

-- Two backends whose answers to the engine's plain queries look the same.
abbrev pub SameSeen : {V : Type 0} → Querier V → Querier V → Type 0
SameSeen q q' =
    (qy : EventQuery)
    → IsPlain qy
    → map_ok (map seen) (q.query_events qy) ≡ map_ok (map seen) (q'.query_events qy)

success_query-IsPlain : (req : Request) (f : Map Bytes) → IsPlain (success_query req f)
success_query-IsPlain req f = record { money = inl refl; unordered = refl; unlimited = refl }

failed_query-IsPlain : (req : Request) (f : Map Bytes) → IsPlain (failed_query req f)
failed_query-IsPlain req f = record { money = inr refl; unordered = refl; unlimited = refl }

module _ {V : Type 0} (q q' : Querier V) (req : Request) (same : SameSeen q q') where
  success_loop-same :
      (fs : List (Map Bytes)) (ks : List Bytes)
      → success_loop q req fs ks ≡ success_loop q' req fs ks
  unfolding success_loop
  success_loop-same [] ks = refl
  success_loop-same (f ∷ fs) ks =
      bind_seen _ _ _ _ (λ ss. success_loop q' req fs (note_seen ss ks))
        (λ gs.
          success_loop-same fs (note_succeeded gs ks)
          ∙ ap (success_loop q' req fs) (note_succeeded-seen gs ks))
        (λ gs. ap (success_loop q' req fs) (note_succeeded-seen gs ks))
        (same (success_query req f) (success_query-IsPlain req f))

  failed_loop-same :
      (ks : List Bytes) (fs : List (Map Bytes)) (leg : Leg)
      → failed_loop q req ks fs leg ≡ failed_loop q' req ks fs leg
  unfolding failed_loop
  failed_loop-same ks [] leg = refl
  failed_loop-same ks (f ∷ fs) leg =
      bind_seen _ _ _ _ (λ ss. failed_loop q' req ks fs (add_seen ks ss leg))
        (λ gs.
          failed_loop-same ks fs (add_failed ks gs leg)
          ∙ ap (failed_loop q' req ks fs) (add_failed-seen ks gs leg))
        (λ gs. ap (failed_loop q' req ks fs) (add_failed-seen ks gs leg))
        (same (failed_query req f) (failed_query-IsPlain req f))

  realized_from_events-same : realized_from_events q req ≡ realized_from_events q' req
  unfolding realized_from_events
  realized_from_events-same =
      rw (success_loop-same (flow_filters req success) [])
        (rw (fun_ext (λ ks. failed_loop-same ks (flow_filters req failed) (empty_leg []))))

realized_leg_events :
    {V : Type 0} (q : Querier V) (req : Request) (to_int64 : V → ℤ)
    → q.capabilities.events ≡ true
    → realized_leg q req to_int64 ≡ realized_from_events q req
unfolding realized_leg
realized_leg_events q req to_int64 on =
    ap
      (λ b.
        if b
        then realized_from_events q req
        else if q.capabilities.metrics
        then realized_from_metrics q req to_int64
        else err no_source)
      on

-- a Querier over events in memory, with any answer to metric queries
unfoldable pub in_memory :
    {V : Type 0}
    → (MetricQuery → Result QueryError (List (SeriesSlice V)))
    → Caps
    → List Outcome
    → Querier V
in_memory metrics caps os = record {
  query_metric = metrics;
  query_events = query_events caps os;
  capabilities = caps;
}

-- Over a backend that serves the events that it holds in memory, a further copy of an event, anywhere
-- behind the first, changes nothing of the realized leg: neither a sum, nor the count, nor an error.
pub realized_leg-redelivery :
    {V : Type 0} (to_int64 : V → ℤ)
    (metrics : MetricQuery → Result QueryError (List (SeriesSlice V))) (caps : Caps) (req : Request)
    (xs ys zs : List Outcome) (o : Outcome)
    → caps.events ≡ true
    → realized_leg (in_memory metrics caps (xs ++ o ∷ (ys ++ o ∷ zs))) req to_int64
      ≡ realized_leg (in_memory metrics caps (xs ++ o ∷ (ys ++ zs))) req to_int64
unfolding in_memory
realized_leg-redelivery to_int64 metrics caps req xs ys zs o on =
    let q = in_memory metrics caps (xs ++ o ∷ (ys ++ o ∷ zs)) in
    let q' = in_memory metrics caps (xs ++ o ∷ (ys ++ zs)) in
    realized_leg_events q req to_int64 on
    ∙ realized_from_events-same q q' req
        (λ qy plain. query_events-redelivery caps qy xs ys zs o plain)
    ∙ sym (realized_leg_events q' req to_int64 on)
