-- ===== src/Engine/Compute/Down.antt =====
-- A report over a backend whose queries fail: what it says is unavailable.
use shortfall.Prelude.{
  ◌≡◌, refl, ap, ◌∙◌, Bool, true, false, not, Option, none, some, List, [], ◌∷◌, Bytes, ==_iff,
  if◌then◌else◌, Result, ok, err, ◌>>=◌, length,
}
use shortfall.Prelude.Int.{ℤ, pos, ltb_ℤ, ◌-ℤ◌}
use shortfall.Biz.Context.{Time}
use shortfall.Query.{TimeRange, Querier}
use shortfall.Registry.{Registry, Flow, SeverityThreshold, flow_of}
use shortfall.Registry.Rules.{is_nil}
use shortfall.Engine.{Request, Leg, EngineError, wrapped}
use shortfall.Engine.Floats.{Floats}
use shortfall.Engine.Deferred.{DeferredLeg}
use shortfall.Engine.Severity.{suggest_severity, severity_of, best_all, add_legs, at_risk_of}
use shortfall.Engine.Unrealized.Values.{
  Note, EstLeg, hourly_entries, hourly_instants, entries_query,
}
use shortfall.Engine.Unrealized.Aov.{upstream_attribution}
use shortfall.Engine.Unrealized.{
  Estimates, noted, noted_if, measure_flow, flow_round, flows_loop, closed, unrealized_over,
  unrealized, has_gap, first_stage, history_range, no_estimates, unavailable_leg,
}
use shortfall.Engine.Compute.{
  Report, compute, leg_or_failed, deferred_or_failed, estimate_or_failed, default_top_n,
}
use shortfall.Engine.Compute.Failing.{
  Fails, IsDown, chain-Fails, wrapped-Fails, realized_leg-Fails, deferred_leg-Fails,
  customers-IsUnanswered, IsUnanswered,
}

-- an estimate that has failed, or has sized nothing
abbrev Unsized : Result EngineError Estimates → Type 0
Unsized (ok st) = st.sized ≡ false
Unsized (err e) = Unit

failed-Unsized : (r : Result EngineError Estimates) → Fails r → Unsized r
failed-Unsized (ok st) (e, h) = cc
failed-Unsized (err d) h = tt

either-Unsized :
    (b : Bool) (r s : Result EngineError Estimates)
    → Unsized r
    → Unsized s
    → Unsized (if b then r else s)
either-Unsized true r s h k = h
either-Unsized false r s h k = k

chain-Unsized :
    (r : Result EngineError Estimates) (f : Estimates → Result EngineError Estimates)
    → Unsized r
    → ((st : Estimates) → st.sized ≡ false → Unsized (f st))
    → Unsized (r >>= f)
chain-Unsized (ok st) f h k = k st h
chain-Unsized (err e) f h k = tt

noted-sized : (n : Note) (st : Estimates) → st.sized ≡ false → Unsized (ok (noted n st))
unfolding noted
noted-sized n st h = h

-- no range of a currency, and the marker
abbrev pub IsEmpty : EstLeg → Type 0
IsEmpty leg =
    (leg.unavailable ≡ true) × (leg.low_minor ≡ []) × (leg.mid_minor ≡ []) × (leg.high_minor ≡ [])

module _ {F : Type 0} (fl : Floats F) where
  closed-IsEmpty :
      (hint : Option Note) (r : Result EngineError Estimates)
      → Unsized r
      → IsEmpty (estimate_or_failed (r >>= λ st. ok (closed fl hint st)))
  unfolding closed
  closed-IsEmpty hint (err e) h = (refl, refl, refl, refl)
  closed-IsEmpty hint (ok st) h = (
    ap not h,
    ap (λ b. if b then st.low_minor else []) h,
    ap (λ b. if b then st.mid_minor else []) h,
    ap (λ b. if b then st.high_minor else []) h,
  )

  either-IsEmpty :
      (b : Bool) (r s : Result EngineError EstLeg)
      → IsEmpty (estimate_or_failed r)
      → IsEmpty (estimate_or_failed s)
      → IsEmpty (estimate_or_failed (if b then r else s))
  either-IsEmpty true r s h k = h
  either-IsEmpty false r s h k = k

  module _ (q : Querier F) (req : Request) (down : IsDown q) where
    measure_flow-Fails :
        (t : Time) (ts : List Time) (f : Flow) (name : Bytes) (st : Estimates)
        → Fails (measure_flow fl q req t ts f name st)
    unfolding measure_flow hourly_entries
    measure_flow-Fails t ts f name st =
        let range = history_range fl q req t ts f in
        let first = first_stage f.stages in
        chain-Fails (wrapped (hourly_entries fl q name first range)) _ (
          wrapped-Fails (hourly_entries fl q name first range) (
            chain-Fails (q.query_metric (entries_query fl name first range)) _
              (down.metrics (entries_query fl name first range))))

    flow_round-Unsized :
        (t : Time) (ts : List Time) (o : Option Flow) (name : Bytes) (st : Estimates)
        → st.sized ≡ false
        → Unsized (flow_round fl q req t ts o name st)
    unfolding flow_round
    flow_round-Unsized t ts none name st h = noted-sized (Note.not_in_registry name) st h
    flow_round-Unsized t ts (some f) name st h =
        let lookback = f.baseline.lookback_weeks in
        let weeks = q.capabilities.metric_history_weeks in
        let holidays = Note.holidays_ignored name f.baseline.holidays in
        let st' = noted_if (not (is_nil f.baseline.holidays)) holidays st in
        let measured = measure_flow fl q req t ts f name st' in
        either-Unsized (is_nil f.stages) (ok (noted (Note.not_in_registry name) st)) _
          (noted-sized (Note.not_in_registry name) st h)
          (either-Unsized (ltb_ℤ lookback (pos 1)) (ok (noted (Note.no_baseline name) st)) _
            (noted-sized (Note.no_baseline name) st h)
            (either-Unsized (has_gap weeks lookback)
              (ok (noted (Note.retention_gap name weeks lookback) st)) measured
              (noted-sized (Note.retention_gap name weeks lookback) st h)
              (failed-Unsized measured (measure_flow-Fails t ts f name st'))))

    flows_loop-Unsized :
        (t : Time) (ts : List Time) (reg : Registry) (names : List Bytes) (st : Estimates)
        → st.sized ≡ false
        → Unsized (flows_loop fl q req t ts reg names st)
    unfolding flows_loop
    flows_loop-Unsized t ts reg [] st h = h
    flows_loop-Unsized t ts reg (name ∷ names) st h =
        chain-Unsized (flow_round fl q req t ts (flow_of reg name) name st)
          (λ st'. flows_loop fl q req t ts reg names st')
          (flow_round-Unsized t ts (flow_of reg name) name st h)
          (λ st' h'. flows_loop-Unsized t ts reg names st' h')

    unrealized_over-IsEmpty :
        (reg : Registry) (target : List Time) (names : List Bytes)
        → IsEmpty (estimate_or_failed (unrealized_over fl q req reg target names))
    unfolding unrealized_over
    unrealized_over-IsEmpty reg [] names = (refl, refl, refl, refl)
    unrealized_over-IsEmpty reg (t ∷ ts) [] = (refl, refl, refl, refl)
    unrealized_over-IsEmpty reg (t ∷ ts) (name ∷ names) =
        closed-IsEmpty (upstream_attribution fl q req)
          (flows_loop fl q req t ts reg (name ∷ names) (no_estimates fl))
          (flows_loop-Unsized t ts reg (name ∷ names) (no_estimates fl) refl)

    unrealized-IsEmpty :
        (reg : Option Registry) → IsEmpty (estimate_or_failed (unrealized fl q req reg))
    unfolding unrealized
    unrealized-IsEmpty none = (refl, refl, refl, refl)
    unrealized-IsEmpty (some reg) =
        either-IsEmpty (not q.capabilities.metrics) (ok (unavailable_leg Note.no_metrics))
          (unrealized_over fl q req reg (hourly_instants req.window) req.flows)
          (refl, refl, refl, refl)
          (unrealized_over-IsEmpty reg (hourly_instants req.window) req.flows)

-- a leg that is marked and holds nothing
abbrev pub IsBlank : Leg → Type 0
IsBlank leg = (leg.unavailable ≡ true) × (leg.count ≡ pos 0) × (leg.by_currency ≡ [])

failed-IsBlank : (r : Result EngineError Leg) → Fails r → IsBlank (leg_or_failed r)
failed-IsBlank (ok leg) (e, h) = cc
failed-IsBlank (err d) h = (refl, refl, refl)

abbrev pub IsNotDeferred : DeferredLeg → Type 0
IsNotDeferred leg =
    IsBlank leg.leg
    × (leg.by_age_bucket ≡ [])
    × (leg.sla_breaches ≡ pos 0)
    × (leg.oldest_age_minutes ≡ pos 0)
    × (leg.projected_lost_minor ≡ [])

failed-IsNotDeferred :
    (r : Result EngineError DeferredLeg) → Fails r → IsNotDeferred (deferred_or_failed r)
failed-IsNotDeferred (ok leg) (e, h) = cc
failed-IsNotDeferred (err d) h = ((refl, refl, refl), refl, refl, refl, refl)

-- the severity of legs without money
either-nil : (b : Bool) (s : Bytes) → s ≡ [] → (if b then [] else s) ≡ []
either-nil true s h = refl
either-nil false s h = h

at_risk_of-nil :
    (realized deferred : Leg)
    → realized.by_currency ≡ []
    → deferred.by_currency ≡ []
    → at_risk_of realized deferred ≡ []
unfolding add_legs
at_risk_of-nil realized deferred h k =
    ap (λ m. add_legs m (add_legs realized.by_currency [])) k ∙ ap (λ m. add_legs m []) h

module _ {F : Type 0} (fl : Floats F) (minutes : ℤ → F) where
  abbrev reaches_from : F → F → Bool
  reaches_from a b = fl.at_most b a

  severity_of-nil :
      (mins : F) (ts : List SeverityThreshold)
      → severity_of fl.of_int minutes fl.div reaches_from mins ts [] ≡ []
  unfolding severity_of best_all
  severity_of-nil mins ts = rw ((==_iff (length ts) (length ts)).1 refl)

  suggest_severity-nil :
      (reg : Option Registry) (window : TimeRange) (realized deferred : Leg)
      → realized.by_currency ≡ []
      → deferred.by_currency ≡ []
      → suggest_severity fl.of_int minutes fl.div reaches_from reg window realized deferred ≡ []
  unfolding suggest_severity
  suggest_severity-nil none window realized deferred h k = refl
  suggest_severity-nil (some reg) window realized deferred h k =
      let mins = minutes (window.to -ℤ window.from) in
      let e = at_risk_of-nil realized deferred h k in
      either-nil _ _ (
        ap (severity_of fl.of_int minutes fl.div reaches_from mins reg.severity) e
        ∙ severity_of-nil mins reg.severity)

  -- each leg says that it is unavailable, none holds money or a count, and no severity is suggested
  abbrev pub IsUnmeasured : Report F → Type 0
  IsUnmeasured r =
      IsBlank r.realized
      × IsNotDeferred r.deferred
      × IsEmpty r.unrealized
      × IsUnanswered r.customers
      × (is_nil r.coverage.unavailable ≡ false)
      × (r.severity ≡ [])

  -- Over a backend whose queries all fail, whatever it declares to serve and whatever the registry and
  -- the request, a report presents no zero as measured: the realized and the deferred leg are marked as
  -- unavailable and hold no count and no money, and the deferred one no age bucket, no breach, no age and
  -- no projected loss; the counterfactual one is unavailable with empty ranges; there are no customers,
  -- and a reason for it; coverage has a reason; and no severity is suggested.
  pub compute-IsUnmeasured :
      (reg : Option Registry) (q : Querier F) (req : Request) (now : Time)
      → IsDown q
      → IsUnmeasured (compute fl minutes reg q req now)
  unfolding compute
  compute-IsUnmeasured reg q req now down =
      let realized = failed-IsBlank _ (realized_leg-Fails q req down fl.to_int64) in
      let deferred = failed-IsNotDeferred _ (deferred_leg-Fails q req down fl.to_int64 reg) in
      (
        realized,
        deferred,
        unrealized-IsEmpty fl q req down reg,
        customers-IsUnanswered q req down default_top_n,
        refl,
        suggest_severity-nil reg req.window _ _ realized.2 deferred.0.2,
      )
