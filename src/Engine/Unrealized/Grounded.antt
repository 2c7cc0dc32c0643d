-- ===== src/Engine/Unrealized/Grounded.antt =====
-- The marker of the counterfactual leg against its maps.
use shortfall.Prelude.{
  ◌≡◌, refl, sym, ap, ◌∙◌, subst, Bool, true, false, not, ◌&&◌, ◌||◌, Option, none, some, List, [],
  ◌∷◌, Bytes, ◌=?◌, Bool-cases, inl, inr, if◌then◌else◌, Result, ok, ◌>>=◌, >>=-ok, ok-injective,
}
use shortfall.Prelude.Int.{ℤ, pos, ltb_ℤ}
use shortfall.Prelude.Maps.{Map, put}
use shortfall.Biz.Context.{Time}
use shortfall.Query.{Querier}
use shortfall.Registry.{Registry, Flow, flow_of}
use shortfall.Registry.Rules.{is_nil}
use shortfall.Engine.{Request, EngineError, wrapped, add_to}
use shortfall.Engine.Floats.{Floats}
use shortfall.Engine.Baseline.{Sample, Expectation, expected}
use shortfall.Engine.Unrealized.Values.{
  Note, EstLeg, HourSums, samples_of, hourly_entries, hour_sums, hourly_instants,
}
use shortfall.Engine.Unrealized.Aov.{AovSource, aov_minor, upstream_attribution}
use shortfall.Engine.Unrealized.{
  Estimates, noted, noted_if, noted_some, add_range, value_currency, recovery_of, recovery_note,
  currencies_loop, size_flow, measure_flow, flow_round, flows_loop, closed, unrealized_over,
  unrealized, has_gap, nonempty, is_metric, from_baseline, history_range, aligned_window,
  first_stage, no_estimates, unavailable_leg,
}

-- the currencies of a map
unfoldable pub keys : {V : Type 0} → Map V → List Bytes
keys [] = []
keys ((k, _) ∷ m) = k ∷ keys m

put_key : Bytes → List Bytes → List Bytes
put_key k [] = k ∷ []
put_key k (j ∷ ks) = if j =? k then j ∷ ks else j ∷ put_key k ks

keys-put : (k : Bytes) (v : ℤ) (m : Map ℤ) → keys (put k v m) ≡ put_key k (keys m)
unfolding keys put put_key
keys-put k v [] = refl
keys-put k v ((j, w) ∷ m) = elim (Bool-cases (j =? k)) [
  | inl same ↦ rw same
  | inr other ↦ rw other (ap (λ ks. j ∷ ks) (keys-put k v m))
]

put-is_nil : (k : Bytes) (v : ℤ) (m : Map ℤ) → is_nil (put k v m) ≡ false
unfolding put
put-is_nil k v [] = refl
put-is_nil k v ((j, w) ∷ m) = elim (Bool-cases (j =? k)) [
  | inl same ↦ rw same
  | inr other ↦ rw other
]

-- the bounds have the currencies of the middle, which are none just where nothing was sized
abbrev IsSized : Estimates → Type 0
IsSized st =
    (keys st.low_minor ≡ keys st.mid_minor)
    × (keys st.high_minor ≡ keys st.mid_minor)
    × (is_nil st.mid_minor ≡ not st.sized)

noted-IsSized : (n : Note) (st : Estimates) → IsSized st → IsSized (noted n st)
unfolding noted
noted-IsSized n st h = h

noted_if-IsSized : (b : Bool) (n : Note) (st : Estimates) → IsSized st → IsSized (noted_if b n st)
noted_if-IsSized true n st h = noted-IsSized n st h
noted_if-IsSized false n st h = h

noted_some-IsSized : (o : Option Note) (st : Estimates) → IsSized st → IsSized (noted_some o st)
noted_some-IsSized none st h = h
noted_some-IsSized (some n) st h = noted-IsSized n st h

noted_or-IsSized :
    (b : Bool) (n : Note) (r : Result EngineError Estimates) (st out : Estimates)
    → IsSized st
    → (r ≡ ok out → IsSized out)
    → (if b then ok (noted n st) else r) ≡ ok out
    → IsSized out
noted_or-IsSized true n r st out h k e = subst IsSized (ok-injective _ out e) (noted-IsSized n st h)
noted_or-IsSized false n r st out h k e = k e

keys-add_to :
    (k : Bytes) (v w : ℤ) (m n : Map ℤ)
    → keys m ≡ keys n
    → keys (add_to k v m) ≡ keys (add_to k w n)
unfolding add_to
keys-add_to k v w m n h = keys-put k _ m ∙ ap (put_key k) h ∙ sym (keys-put k _ n)

add_to-is_nil : (k : Bytes) (v : ℤ) (m : Map ℤ) → is_nil (add_to k v m) ≡ false
unfolding add_to
add_to-is_nil k v m = put-is_nil k _ m

module _ {F : Type 0} (fl : Floats F) where
  add_range-IsSized :
      (name currency : Bytes) (h : HourSums F) (st : Estimates)
      → IsSized st
      → IsSized (add_range fl name currency h st)
  unfolding add_range
  add_range-IsSized name currency h st (low, high, mid) = elim (Bool-cases h.valued) [
    | inr no_hour ↦ rw no_hour (
        noted-IsSized (Note.no_hour_history name currency) (record st { thin = st.thin || h.thin })
          (low, high, mid))
    | inl valued ↦ rw valued (
      keys-add_to currency _ _ st.low_minor st.mid_minor low,
      keys-add_to currency _ _ st.high_minor st.mid_minor high,
      add_to-is_nil currency _ st.mid_minor,
    )
  ]

  value_currency-IsSized :
      (f : Flow) (name currency : Bytes) (exp : List (Expectation F)) (target : List Time)
      (observed : List (Sample F)) (aov : Option Note × Option (ℤ × AovSource)) (st : Estimates)
      → IsSized st
      → IsSized (value_currency fl f name currency exp target observed aov st)
  unfolding value_currency
  value_currency-IsSized f name currency exp target observed (warn, none) st h =
      noted-IsSized (Note.no_aov name currency) (noted_some warn st) (noted_some-IsSized warn st h)
  value_currency-IsSized f name currency exp target observed (warn, some (aov, source)) st h =
      let counted = is_metric source && nonempty f.estimator in
      let n = Note.aov_understates name currency in
      add_range-IsSized name currency (hour_sums fl observed aov (recovery_of fl f) exp target)
        (noted_if counted n (noted_some warn st))
        (noted_if-IsSized counted n (noted_some warn st) (noted_some-IsSized warn st h))

  recovery_note-IsSized :
      (f : Flow) (name : Bytes) (st : Estimates) → IsSized st → IsSized (recovery_note fl f name st)
  unfolding recovery_note
  recovery_note-IsSized f name st h =
      elim (Bool-cases (fl.less (fl.of_int (pos 0)) (recovery_of fl f))) [
        | inl net ↦ rw net (noted-IsSized (Note.net_of_recovery name) st h)
        | inr none_credited ↦
            rw none_credited (noted_if-IsSized (is_nil f.recovery.model) (Note.gross name) st h)
      ]

  module _ (q : Querier F) (req : Request) (t : Time) (ts : List Time) where
    currencies_loop-IsSized :
        (f : Flow) (name : Bytes) (hist obs : Map (List (Sample F))) (st out : Estimates)
        → IsSized st
        → currencies_loop fl q req t ts f name hist obs st ≡ ok out
        → IsSized out
    unfolding currencies_loop
    currencies_loop-IsSized f name [] obs st out h e = subst IsSized (ok-injective st out e) h
    currencies_loop-IsSized f name ((currency, samples) ∷ hist) obs st out h e =
        let observed = samples_of currency obs in
        let aov = aov_minor fl q name currency f req.window in
        let (exp, _, e') =
          >>=-ok
            (from_baseline (
              expected fl samples (t ∷ ts)
                (record { lookback_weeks = f.baseline.lookback_weeks; holiday = none })))
            (λ exp.
              currencies_loop fl q req t ts f name hist obs
                (value_currency fl f name currency exp (t ∷ ts) observed aov st))
            out e in
        currencies_loop-IsSized f name hist obs
          (value_currency fl f name currency exp (t ∷ ts) observed aov st) out
          (value_currency-IsSized f name currency exp (t ∷ ts) observed aov st h) e'

    size_flow-IsSized :
        (f : Flow) (name : Bytes) (hist obs : Map (List (Sample F))) (st out : Estimates)
        → IsSized st
        → size_flow fl q req t ts f name hist obs st ≡ ok out
        → IsSized out
    unfolding size_flow
    size_flow-IsSized f name [] obs st out h e =
        let n = Note.no_history name f.baseline.lookback_weeks in
        subst IsSized (ok-injective (noted n st) out e) (noted-IsSized n st h)
    size_flow-IsSized f name (c ∷ hist) obs st out h e =
        let (st', e1, e2) =
          >>=-ok (currencies_loop fl q req t ts f name (c ∷ hist) obs st)
            (λ st'. ok (recovery_note fl f name st')) out e in
        subst IsSized (ok-injective (recovery_note fl f name st') out e2) (
          recovery_note-IsSized f name st'
            (currencies_loop-IsSized f name (c ∷ hist) obs st st' h e1))

    measure_flow-IsSized :
        (f : Flow) (name : Bytes) (st out : Estimates)
        → IsSized st
        → measure_flow fl q req t ts f name st ≡ ok out
        → IsSized out
    unfolding measure_flow
    measure_flow-IsSized f name st out h e =
        let first = first_stage f.stages in
        let history = wrapped (hourly_entries fl q name first (history_range fl q req t ts f)) in
        let observed = wrapped (hourly_entries fl q name first (aligned_window fl q req t ts)) in
        let (hist, _, e1) =
          >>=-ok history (λ hist. observed >>= λ obs. size_flow fl q req t ts f name hist obs st)
            out e in
        let (obs, _, e2) =
          >>=-ok observed (λ obs. size_flow fl q req t ts f name hist obs st) out e1 in
        size_flow-IsSized f name hist obs st out h e2

    flow_round-IsSized :
        (o : Option Flow) (name : Bytes) (st out : Estimates)
        → IsSized st
        → flow_round fl q req t ts o name st ≡ ok out
        → IsSized out
    unfolding flow_round
    flow_round-IsSized none name st out h e =
        subst IsSized (ok-injective (noted (Note.not_in_registry name) st) out e)
          (noted-IsSized (Note.not_in_registry name) st h)
    flow_round-IsSized (some f) name st out h e =
        let lookback = f.baseline.lookback_weeks in
        let weeks = q.capabilities.metric_history_weeks in
        let holidays = Note.holidays_ignored name f.baseline.holidays in
        let has_holidays = not (is_nil f.baseline.holidays) in
        noted_or-IsSized (is_nil f.stages) (Note.not_in_registry name) _ st out h
          (noted_or-IsSized (ltb_ℤ lookback (pos 1)) (Note.no_baseline name) _ st out h (
            noted_or-IsSized (has_gap weeks lookback) (Note.retention_gap name weeks lookback) _ st
              out h
              (measure_flow-IsSized f name (noted_if has_holidays holidays st) out
                (noted_if-IsSized has_holidays holidays st h))))
          e

    flows_loop-IsSized :
        (reg : Registry) (names : List Bytes) (st out : Estimates)
        → IsSized st
        → flows_loop fl q req t ts reg names st ≡ ok out
        → IsSized out
    unfolding flows_loop
    flows_loop-IsSized reg [] st out h e = subst IsSized (ok-injective st out e) h
    flows_loop-IsSized reg (name ∷ names) st out h e =
        let (st', e1, e2) =
          >>=-ok (flow_round fl q req t ts (flow_of reg name) name st)
            (λ st'. flows_loop fl q req t ts reg names st') out e in
        flows_loop-IsSized reg names st' out
          (flow_round-IsSized (flow_of reg name) name st st' h e1) e2

  -- the leg that is unavailable is the one without a range, and each currency has its three values
  abbrev pub IsGrounded : EstLeg → Type 0
  IsGrounded leg =
      (leg.unavailable ≡ is_nil leg.mid_minor)
      × (keys leg.low_minor ≡ keys leg.mid_minor)
      × (keys leg.high_minor ≡ keys leg.mid_minor)

  closed-IsGrounded :
      (hint : Option Note) (st : Estimates) → IsSized st → IsGrounded (closed fl hint st)
  unfolding closed
  closed-IsGrounded hint st (low, high, mid) = elim (Bool-cases st.sized) [
    | inl yes_sized ↦ rw yes_sized (sym (mid ∙ ap not yes_sized), low, high)
    | inr unsized ↦ rw unsized (refl, refl, refl)
  ]

  unavailable_leg-IsGrounded : (n : Note) → IsGrounded (unavailable_leg n)
  unavailable_leg-IsGrounded n = (refl, refl, refl)

  unavailable_or-IsGrounded :
      (b : Bool) (n : Note) (r : Result EngineError EstLeg) (leg : EstLeg)
      → (r ≡ ok leg → IsGrounded leg)
      → (if not b then ok (unavailable_leg n) else r) ≡ ok leg
      → IsGrounded leg
  unavailable_or-IsGrounded true n r leg k e = k e
  unavailable_or-IsGrounded false n r leg k e =
      subst IsGrounded (ok-injective (unavailable_leg n) leg e) (unavailable_leg-IsGrounded n)

  module _ (q : Querier F) (req : Request) where
    unrealized_over-IsGrounded :
        (reg : Registry) (target : List Time) (names : List Bytes) (leg : EstLeg)
        → unrealized_over fl q req reg target names ≡ ok leg
        → IsGrounded leg
    unfolding unrealized_over
    unrealized_over-IsGrounded reg [] names leg e =
        subst IsGrounded (ok-injective (unavailable_leg Note.no_hours) leg e)
          (unavailable_leg-IsGrounded Note.no_hours)
    unrealized_over-IsGrounded reg (t ∷ ts) [] leg e =
        subst IsGrounded (ok-injective (unavailable_leg Note.no_flow) leg e)
          (unavailable_leg-IsGrounded Note.no_flow)
    unrealized_over-IsGrounded reg (t ∷ ts) (name ∷ names) leg e =
        let hint = upstream_attribution fl q req in
        let (st, e1, e2) =
          >>=-ok (flows_loop fl q req t ts reg (name ∷ names) (no_estimates fl))
            (λ st. ok (closed fl hint st)) leg e in
        subst IsGrounded (ok-injective (closed fl hint st) leg e2) (
          closed-IsGrounded hint st (
            flows_loop-IsSized q req t ts reg (name ∷ names) (no_estimates fl) st (refl, refl, refl)
              e1))

    -- A counterfactual leg that is returned is marked unavailable just where its ranges are empty, and
    -- the currencies of the lower and the upper bounds are those of the middle.
    pub unrealized-IsGrounded :
        (reg : Option Registry) (leg : EstLeg) → unrealized fl q req reg ≡ ok leg → IsGrounded leg
    unfolding unrealized
    unrealized-IsGrounded none leg e =
        subst IsGrounded (ok-injective (unavailable_leg Note.no_registry) leg e)
          (unavailable_leg-IsGrounded Note.no_registry)
    unrealized-IsGrounded (some reg) leg e =
        unavailable_or-IsGrounded q.capabilities.metrics Note.no_metrics
          (unrealized_over fl q req reg (hourly_instants req.window) req.flows) leg
          (unrealized_over-IsGrounded reg (hourly_instants req.window) req.flows leg) e
