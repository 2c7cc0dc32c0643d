-- ===== src/Emit/Emitter/Fence/Invariant.antt =====
-- Every pending point is fenced, through any sequence of calls.
use shortfall.Prelude.{
  ℕ, ◌≡◌, refl, Bool, true, false, Option, none, some, List, [], ◌∷◌, ◌++◌, Bytes, leb, length, All,
  All-append, Bool-cases, inl, inr, Result, Result-cases, ok, err, arith,
}
use shortfall.Prelude.Int.{ℤ}
use shortfall.Biz.Money.{Money}
use shortfall.Biz.Context.{Time, Outcome, ValueContext}
use shortfall.Biz.Baggage.{CodecError}
use shortfall.Biz.Validate.{outcome_validate}
use shortfall.Engine.Realized.{member}
use shortfall.Registry.{Registry}
use shortfall.Emit.Emitter.{
  MetricPoint, Std, append_one, append_metrics, drop_one, flow_stage_labels,
}
use shortfall.Emit.Emitter.TwoGen.{seen}
use shortfall.Emit.Emitter.Calls.{
  Ctx, RecordConfig, from_context, admit, record_valid, record_with, record_call, gauge_invalid,
  set_in_flight, bounded_provider_label, valid_provider_outcome, provider_pair_labels, call_invalid,
  record_provider_call, points_of, dedup_key, outcome_of, gauge_points, provider_point,
}
use shortfall.Emit.Emitter.Flush.{flush}
use shortfall.Emit.Emitter.Bounds.{
  Call, recorded, in_flight, provider_call, flushed, new_emitter, perform, perform_all,
}
use shortfall.Emit.Emitter.Fence.{
  IsFenced, points_of-IsFenced, gauge_points-IsFenced, provider_point-IsFenced,
  provider_pair_labels-PairPasses,
}

-- The emitter is over the registry, and each of its pending points is fenced by it.
abbrev pub AllFenced : (Bytes → Bool) → Registry → Std → Type 0
AllFenced bounded reg s = (s.reg ≡ reg) × All (IsFenced reg bounded) s.metrics

module _ (bounded : Bytes → Bool) where
  append_one-AllFenced :
      (reg : Registry) (p : MetricPoint) (s : Std)
      → IsFenced reg bounded p
      → AllFenced bounded reg s
      → AllFenced bounded reg (append_one p s)
  unfolding append_one
  append_one-AllFenced reg p s hp h = elim (Bool-cases (leb s.metrics_cap (length s.metrics))) [
    | inl full ↦ rw full h
    | inr free ↦ rw free (h.0, All-append (IsFenced reg bounded) s.metrics (p ∷ []) h.1 (hp, tt))
  ]

  append_metrics-AllFenced :
      (reg : Registry) (points : List MetricPoint) (s : Std)
      → All (IsFenced reg bounded) points
      → AllFenced bounded reg s
      → AllFenced bounded reg (append_metrics points s)
  unfolding append_metrics
  append_metrics-AllFenced reg [] s hp h = h
  append_metrics-AllFenced reg (p ∷ points) s hp h =
      append_metrics-AllFenced reg points (append_one p s) hp.1
        (append_one-AllFenced reg p s hp.0 h)

  admit-AllFenced :
      (reg : Registry) (o : Outcome) (s : Std)
      → outcome_validate o ≡ ok tt
      → AllFenced bounded reg s
      → AllFenced bounded reg (admit o s)
  unfolding admit drop_one
  admit-AllFenced reg o s good h = elim (Bool-cases (leb s.buf_size (length s.events))) [
    | inl full ↦ rw full h
    | inr free ↦ elim (Bool-cases (seen (dedup_key o) s.dedup).0) [
      | inl known ↦ rw (free, known) h
      | inr new ↦
          rw (free, new)
            (append_metrics-AllFenced reg (points_of s o) _
              (rw (← h.0) (points_of-IsFenced bounded s o good)) h)
    ]
  ]

  record_valid-AllFenced :
      (reg : Registry) (o : Outcome) (s : Std)
      → AllFenced bounded reg s
      → AllFenced bounded reg (record_valid o s)
  unfolding record_valid drop_one
  record_valid-AllFenced reg o s h = elim (Result-cases (outcome_validate o)) [
    | inl (_, good) ↦ rw good (admit-AllFenced reg o s good h)
    | inr (_, bad) ↦ rw bad h
  ]

  record_with-AllFenced :
      (reg : Registry) (r : Result CodecError (Option ValueContext)) (ctx : Ctx)
      (stage result : Bytes) (cfg : RecordConfig) (now : Time) (s : Std)
      → AllFenced bounded reg s
      → AllFenced bounded reg (record_with r ctx stage result cfg now s)
  unfolding record_with drop_one
  record_with-AllFenced reg (err _) ctx stage result cfg now s h = h
  record_with-AllFenced reg (ok none) ctx stage result cfg now s h = h
  record_with-AllFenced reg (ok (some vc)) ctx stage result cfg now s h =
      record_valid-AllFenced reg (outcome_of ctx vc stage result cfg now) s h

  set_in_flight-AllFenced :
      (reg : Registry) (flow stage bucket : Bytes) (money : Money) (count : ℤ) (now : Time)
      (s : Std)
      → AllFenced bounded reg s
      → AllFenced bounded reg (set_in_flight flow stage bucket money count now s)
  unfolding set_in_flight drop_one
  set_in_flight-AllFenced reg flow stage bucket money count now s h =
      elim (Bool-cases (gauge_invalid bucket money count)) [
        | inl bad ↦ rw bad h
        | inr good ↦ rw good (
            append_metrics-AllFenced reg
              (gauge_points (flow_stage_labels s.reg flow stage) bucket money count now) s
              (rw (← h.0)
                (gauge_points-IsFenced bounded s.reg flow stage bucket money count now good))
              h)
      ]

  provider_pair_labels-AllFenced :
      (reg : Registry) (provider op : Bytes) (s : Std)
      → AllFenced bounded reg s
      → AllFenced bounded reg (provider_pair_labels provider op s).0
  unfolding provider_pair_labels
  provider_pair_labels-AllFenced reg provider op s h =
      elim (Bool-cases (member (provider ++ 0 ∷ op) s.provider_pairs)) [
        | inl known ↦ rw known h
        | inr new ↦ elim (Bool-cases (leb s.provider_pair_cap (length s.provider_pairs))) [
          | inl full ↦ rw (new, full) h
          | inr free ↦ rw (new, free) h
        ]
      ]

module _ (is_blank valid_utf8 has_control : Bytes → Bool) where
  -- the test of provider labels
  abbrev pub label_bound : Bytes → Bool
  label_bound = bounded_provider_label is_blank valid_utf8 has_control

  call_valid :
      (provider op outcome : Bytes)
      → call_invalid is_blank valid_utf8 has_control provider op outcome ≡ false
      → (valid_provider_outcome outcome ≡ true)
        × (label_bound provider ≡ true)
        × (label_bound op ≡ true)
  unfolding call_invalid
  call_valid provider op outcome h = ground arith

  perform-AllFenced :
      (reg : Registry) (c : Call) (s : Std)
      → AllFenced label_bound reg s
      → AllFenced label_bound reg (perform is_blank valid_utf8 has_control c s)
  unfolding perform record_call record_provider_call flush drop_one
  perform-AllFenced reg (recorded ctx stage result cfg now) s h =
      record_with-AllFenced label_bound reg (from_context ctx.value) ctx stage result cfg now s h
  perform-AllFenced reg (in_flight flow stage bucket money count now) s h =
      set_in_flight-AllFenced label_bound reg flow stage bucket money count now s h
  perform-AllFenced reg (provider_call provider op outcome now) s h =
      elim (Bool-cases (call_invalid is_blank valid_utf8 has_control provider op outcome)) [
        | inl bad ↦ rw bad h
        | inr good ↦
            let valid = call_valid provider op outcome good in
            rw good (
              append_one-AllFenced label_bound reg
                (provider_point (provider_pair_labels provider op s).1 outcome now) _
                (provider_point-IsFenced label_bound reg (provider_pair_labels provider op s).1
                  outcome now
                  (provider_pair_labels-PairPasses label_bound provider op s valid.1 valid.2)
                  valid.0)
                (provider_pair_labels-AllFenced label_bound reg provider op s h))
      ]
  perform-AllFenced reg (flushed now answers) s h = (h.0, tt)

  perform_all-AllFenced :
      (reg : Registry) (cs : List Call) (s : Std)
      → AllFenced label_bound reg s
      → AllFenced label_bound reg (perform_all is_blank valid_utf8 has_control cs s)
  unfolding perform_all
  perform_all-AllFenced reg [] s h = h
  perform_all-AllFenced reg (c ∷ cs) s h =
      perform_all-AllFenced reg cs _ (perform-AllFenced reg c s h)

  -- Through any sequence of calls of a new emitter, each pending metric point has no label but the nine
  -- of `label_keys`, and each once: as flow and stage none, the fallback, or a flow of the registry with a
  -- declared stage or the fallback; as segment none or a declared one; as outcome, currency, kind and age
  -- bucket none or a valid one; as provider and operation none, the fallback, or a text within the bound
  -- of provider labels. It has no entity and no customer label, and is no drop counter.
  pub new_emitter-perform_all-IsFenced :
      (reg : Registry) (buf_size provider_pair_cap : ℕ) (cs : List Call)
      → All
          (IsFenced reg label_bound)
          (perform_all is_blank valid_utf8 has_control cs
            (new_emitter reg buf_size provider_pair_cap)).metrics
  new_emitter-perform_all-IsFenced reg buf_size provider_pair_cap cs =
      (perform_all-AllFenced reg cs (new_emitter reg buf_size provider_pair_cap)
        (unfold new_emitter in (refl, tt))).1
