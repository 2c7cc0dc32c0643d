-- ===== src/Engine/Deferred/Source.antt =====
-- Which source grounds the deferred leg, and what the gauge's series add up to.
use shortfall.Prelude.{
  ℕ, ◌≡◌, refl, sym, ap, ◌∙◌, subst, arith, Bool, true, false, not, ◌||◌, ◌&&◌, Option, List, [],
  ◌∷◌, Bytes, codes, ◌=?◌, Bool-cases, inl, inr, ◌==◌, All, if◌then◌else◌, Result, ok,
}
use shortfall.Prelude.Int.{ℤ, pos, negsuc}
use shortfall.Prelude.Int64.{add64, add64_zero, add64-Fits, Fits}
use shortfall.Prelude.Maps.{Map, label, find}
use shortfall.Registry.{Registry}
use shortfall.Registry.Rules.{is_nil}
use shortfall.Query.{EventQuery, EventGroup, Querier, QueryError, SeriesSlice}
use shortfall.Engine.{Request, amount, wrapped, add_points}
use shortfall.Engine.Exact.{amount-add_to}
use shortfall.Engine.Deferred.{DeferredLeg, new_deferred_leg}
use shortfall.Engine.Deferred.Events.{deferred_from_events, with_oldest}
use shortfall.Engine.Deferred.Gauge.{
  value_loop, count_loop, fill_deferred_counts, deferred_from_gauge, deferred_leg, inflight_filters,
  level_query, nonempty, is_zero, last_level, add_series, add_levels, add_count, add_level_counts,
  with_count_caveat,
}

module _ {V : Type 0} where
  -- whether some query of the gauge was answered with a series
  abbrev pub any_series : (Map Bytes → List (SeriesSlice V)) → List (Map Bytes) → Bool
  any_series values [] = false
  any_series values (f ∷ fs) = not (is_nil (values f)) || any_series values fs

  module _ (to_int64 : V → ℤ) where
    -- the sum, as int64 adds it, of a currency's series: each by the points it has, from `v`
    abbrev pub level_sum : Bytes → List (SeriesSlice V) → ℤ → ℤ
    level_sum c [] v = v
    level_sum c (s ∷ ss) v = level_sum c ss (
        if label (codes "currency") s.labels =? c
        then add64 v (add_points to_int64 s.points (pos 0))
        else v)

    -- and over the answers to all queries
    abbrev pub all_levels : Bytes → (Map Bytes → List (SeriesSlice V)) → List (Map Bytes) → ℤ → ℤ
    all_levels c values [] v = v
    all_levels c values (f ∷ fs) v = all_levels c values fs (level_sum c (values f) v)

    module _ (reg : Option Registry) where
      abbrev held : Bytes → DeferredLeg → ℤ
      held c leg = amount c leg.leg.by_currency

      zero_level : (v : ℤ) → is_zero v ≡ true → v ≡ pos 0
      zero_level (pos n) h = ground arith
      zero_level (negsuc n) h = cc

      -- a level of zero adds nothing
      add_series-held :
          (c : Bytes) (s : SeriesSlice V) (st : DeferredLeg × ℕ)
          → Fits (held c st.0)
          → held c (add_series to_int64 reg s st).0 ≡ (
              if label (codes "currency") s.labels =? c
              then add64 (held c st.0) (add_points to_int64 s.points (pos 0))
              else held c st.0)
      unfolding add_series last_level
      add_series-held c s (leg, oldest) fits =
          let level = add_points to_int64 s.points (pos 0) in
          let currency = label (codes "currency") s.labels in
          elim (Bool-cases (is_zero level)) [
            | inr some_level ↦ rw some_level (amount-add_to currency c level leg.leg.by_currency)
            | inl none ↦
                let e : add64 (held c leg) level ≡ held c leg =
                  ap (add64 (held c leg)) (zero_level level none) ∙ add64_zero (held c leg) fits in
                elim (Bool-cases (currency =? c)) [
                  | inl same ↦ rw (none, same) (sym e)
                  | inr apart ↦ rw (none, apart)
                ]
          ]

      sum-Fits : (b : Bool) (v w : ℤ) → Fits v → Fits (if b then add64 v w else v)
      sum-Fits true v w h = add64-Fits v w
      sum-Fits false v w h = h

      add_levels-held :
          (c : Bytes) (ss : List (SeriesSlice V)) (st : DeferredLeg × ℕ)
          → Fits (held c st.0)
          → (held c (add_levels to_int64 reg ss st).0 ≡ level_sum c ss (held c st.0))
            × Fits (held c (add_levels to_int64 reg ss st).0)
      unfolding add_levels
      add_levels-held c [] st fits = (refl, fits)
      add_levels-held c (s ∷ ss) st fits =
          let one = add_series-held c s st fits in
          let fits' = subst Fits (sym one) (
            sum-Fits (label (codes "currency") s.labels =? c) (held c st.0)
              (add_points to_int64 s.points (pos 0)) fits) in
          let (rest, fits'') = add_levels-held c ss (add_series to_int64 reg s st) fits' in
          (rest ∙ ap (level_sum c ss) one, fits'')

      -- the state behind the value loop
      levels_of :
          (Map Bytes → List (SeriesSlice V)) → List (Map Bytes) → DeferredLeg × ℕ → DeferredLeg × ℕ
      levels_of values [] st = st
      levels_of values (f ∷ fs) st = levels_of values fs (add_levels to_int64 reg (values f) st)

      levels_of-held :
          (c : Bytes) (values : Map Bytes → List (SeriesSlice V)) (fs : List (Map Bytes))
          (st : DeferredLeg × ℕ)
          → Fits (held c st.0)
          → held c (levels_of values fs st).0 ≡ all_levels c values fs (held c st.0)
      unfolding levels_of
      levels_of-held c values [] st fits = refl
      levels_of-held c values (f ∷ fs) st fits =
          let (one, fits') = add_levels-held c (values f) st fits in
          levels_of-held c values fs (add_levels to_int64 reg (values f) st) fits'
          ∙ ap (all_levels c values fs) one

      -- and behind the count loop, which leaves the money alone
      counts_of :
          (Map Bytes → List (SeriesSlice V))
          → List (Map Bytes)
          → Bool × DeferredLeg
          → Bool × DeferredLeg
      counts_of counts [] st = st
      counts_of counts (f ∷ fs) st =
          counts_of counts fs (add_level_counts to_int64 reg (counts f) st)

      add_count-held :
          (c : Bytes) (s : SeriesSlice V) (st : Bool × DeferredLeg)
          → held c (add_count to_int64 reg s st).1 ≡ held c st.1
      unfolding add_count last_level
      add_count-held c s (saw, leg) =
          elim (Bool-cases (is_zero (add_points to_int64 s.points (pos 0)))) [
            | inl none ↦ rw none
            | inr some_count ↦ rw some_count
          ]

      add_level_counts-held :
          (c : Bytes) (ss : List (SeriesSlice V)) (st : Bool × DeferredLeg)
          → held c (add_level_counts to_int64 reg ss st).1 ≡ held c st.1
      unfolding add_level_counts
      add_level_counts-held c [] st = refl
      add_level_counts-held c (s ∷ ss) st =
          add_level_counts-held c ss (add_count to_int64 reg s st) ∙ add_count-held c s st

      counts_of-held :
          (c : Bytes) (counts : Map Bytes → List (SeriesSlice V)) (fs : List (Map Bytes))
          (st : Bool × DeferredLeg)
          → held c (counts_of counts fs st).1 ≡ held c st.1
      unfolding counts_of
      counts_of-held c counts [] st = refl
      counts_of-held c counts (f ∷ fs) st =
          counts_of-held c counts fs (add_level_counts to_int64 reg (counts f) st)
          ∙ add_level_counts-held c (counts f) st

      with_count_caveat-held :
          (c : Bytes) (st : Bool × DeferredLeg) → held c (with_count_caveat st) ≡ held c st.1
      unfolding with_count_caveat
      with_count_caveat-held c (saw, leg) =
          elim (Bool-cases (not saw && nonempty leg.by_age_bucket)) [
            | inl warned ↦ rw warned
            | inr silent ↦ rw silent
          ]

      with_oldest-held : (c : Bytes) (st : DeferredLeg × ℕ) → held c (with_oldest st) ≡ held c st.0
      unfolding with_oldest
      with_oldest-held c (leg, oldest) = elim (Bool-cases (oldest == 0)) [
        | inl none ↦ rw none
        | inr some_age ↦ rw some_age
      ]

      nonempty-is_nil : (ss : List (SeriesSlice V)) → nonempty ss ≡ not (is_nil ss)
      nonempty-is_nil [] = refl
      nonempty-is_nil (s ∷ ss) = refl

      or_false : (b : Bool) → b ≡ (b || false)
      or_false true = refl
      or_false false = refl

      or_assoc : (a b d : Bool) → ((a || b) || d) ≡ (a || (b || d))
      or_assoc true b d = refl
      or_assoc false b d = refl

      module _ (q : Querier V) (req : Request) where
        -- each query of a metric, by its filters, is answered with these series
        abbrev pub Answers : Bytes → (Map Bytes → List (SeriesSlice V)) → List (Map Bytes) → Type 0
        Answers metric values = All (λ f. q.query_metric (level_query req metric f) ≡ ok (values f))

        value_loop-answered :
            (values : Map Bytes → List (SeriesSlice V)) (fs : List (Map Bytes)) (saw : Bool)
            (st : DeferredLeg × ℕ)
            → Answers (codes "biz_inflight_value") values fs
            → value_loop to_int64 reg q req fs saw st
              ≡ ok (saw || any_series values fs, levels_of values fs st)
        unfolding value_loop levels_of wrapped
        value_loop-answered values [] saw st h = ap (λ b. ok (b, st)) (or_false saw)
        value_loop-answered values (f ∷ fs) saw st (answered, h) =
            let st' = add_levels to_int64 reg (values f) st in
            rw answered (
              value_loop-answered values fs (saw || nonempty (values f)) st' h
              ∙ ap (λ b. ok ((saw || b) || any_series values fs, levels_of values fs st'))
                  (nonempty-is_nil (values f))
              ∙ ap (λ b. ok (b, levels_of values fs st'))
                  (or_assoc saw (not (is_nil (values f))) (any_series values fs)))

        count_loop-answered :
            (counts : Map Bytes → List (SeriesSlice V)) (fs : List (Map Bytes))
            (st : Bool × DeferredLeg)
            → Answers (codes "biz_inflight_count") counts fs
            → count_loop to_int64 reg q req fs st ≡ ok (counts_of counts fs st)
        unfolding count_loop counts_of wrapped
        count_loop-answered counts [] st h = refl
        count_loop-answered counts (f ∷ fs) st (answered, h) =
            rw answered
              (count_loop-answered counts fs (add_level_counts to_int64 reg (counts f) st) h)

        -- the leg of the gauge
        abbrev gauge_leg :
            (Map Bytes → List (SeriesSlice V)) → (Map Bytes → List (SeriesSlice V)) → DeferredLeg
        gauge_leg values counts = with_count_caveat (
            counts_of counts (inflight_filters req) (
              false,
              with_oldest (levels_of values (inflight_filters req) (new_deferred_leg [], 0)),
            ))

        deferred_from_gauge-answered :
            (values counts : Map Bytes → List (SeriesSlice V))
            → Answers (codes "biz_inflight_value") values (inflight_filters req)
            → Answers (codes "biz_inflight_count") counts (inflight_filters req)
            → deferred_from_gauge to_int64 reg q req
              ≡ ok (gauge_leg values counts, any_series values (inflight_filters req))
        unfolding deferred_from_gauge fill_deferred_counts
        deferred_from_gauge-answered values counts h k =
            let filters = inflight_filters req in
            rw (
              value_loop-answered values filters false (new_deferred_leg [], 0) h,
              count_loop-answered counts filters
                  (false, with_oldest (levels_of values filters (new_deferred_leg [], 0))) k,
            )

      -- the backend with other answers to event queries
      abbrev pub other : Querier V → (EventQuery → Result QueryError (List EventGroup)) → Querier V
      other q events = record q { query_events = events }

      -- If the backend serves metrics and answers the queries of both gauges, there is a leg, which no
      -- answer to an event query changes: in each currency it holds the sum, as int64 adds it, of the
      -- levels of all series of the value gauge in the scopes of the request. It is the deferred leg
      -- whenever one of these queries gave a series, be its level zero, or the backend serves no events;
      -- and otherwise the deferred leg is the one built from events.
      pub deferred_leg-source :
          (q : Querier V) (req : Request) (values counts : Map Bytes → List (SeriesSlice V))
          → q.capabilities.metrics ≡ true
          → Answers q req (codes "biz_inflight_value") values (inflight_filters req)
          → Answers q req (codes "biz_inflight_count") counts (inflight_filters req)
          → (leg : DeferredLeg) × ((events : EventQuery → Result QueryError (List EventGroup))
              → deferred_leg to_int64 reg (other q events) req ≡ (
                  if any_series values (inflight_filters req) || not q.capabilities.events
                  then ok leg
                  else deferred_from_events reg (other q events) req))
            × ((c : Bytes)
                → amount c leg.leg.by_currency ≡ all_levels c values (inflight_filters req) (pos 0))
      unfolding deferred_leg
      deferred_leg-source q req values counts on h k =
          let filters = inflight_filters req in
          let levels = levels_of values filters (new_deferred_leg [], 0) in
          (
            gauge_leg q req values counts,
            λ events. rw (on, deferred_from_gauge-answered (other q events) req values counts h k),
            λ c.
                with_count_caveat-held c (counts_of counts filters (false, with_oldest levels))
                ∙ counts_of-held c counts filters (false, with_oldest levels)
                ∙ with_oldest-held c levels
                ∙ levels_of-held c values filters (new_deferred_leg [], 0)
                    (unfold amount find in omega arith)
                ∙ (unfold amount find in refl),
          )
