-- ===== src/Emit/Emitter/Bounds.antt =====
-- The emitter's memory stays bounded through any sequence of calls.
use shortfall.Prelude.{
  ℕ, ◌*◌, ◌≤◌, ◌≡◌, refl, Bool, Option, none, some, List, [], ◌∷◌, ◌++◌, arith, Bytes, leb, length,
  length-append, Bool-cases, Result, Result-cases, ok, err, inl, inr,
}
use shortfall.Prelude.Int.{ℤ, pos}
use shortfall.Biz.Money.{Money}
use shortfall.Biz.Context.{Time, Outcome, ValueContext}
use shortfall.Biz.Baggage.{CodecError}
use shortfall.Biz.Validate.{outcome_validate}
use shortfall.Engine.Realized.{member}
use shortfall.Registry.{Registry}
use shortfall.Emit.Emitter.{
  MetricPoint, Std, append_one, append_metrics, drop_one, flow_stage_labels,
}
use shortfall.Emit.Emitter.TwoGen.{TwoGenSet, new_two_gen_set, holds, rotate, seen}
use shortfall.Emit.Emitter.Calls.{
  Ctx, RecordConfig, from_context, admit, record_valid, record_with, gauge_invalid, call_invalid,
  record_call, set_in_flight, provider_pair_labels, record_provider_call, points_of, dedup_key,
  outcome_of, gauge_points, provider_point,
}
use shortfall.Emit.Emitter.Flush.{Answers, flush}

-- `New` with its defaults but for the sizes
unfoldable pub new_emitter : Registry → ℕ → ℕ → Std
new_emitter reg buf_size provider_pair_cap = record {
  reg = reg;
  buf_size = buf_size;
  metrics_cap = 8 * buf_size;
  provider_pair_cap = provider_pair_cap;
  events = [];
  metrics = [];
  drop_counts = [];
  metric_overflow = pos 0;
  dedup = new_two_gen_set 65536;
  provider_pairs = [];
}

-- a call of the emitter with all that it is given
pub data Call : Type 0 where
  recorded : Ctx → Bytes → Bytes → RecordConfig → Time → Call
  in_flight : Bytes → Bytes → Bytes → Money → ℤ → Time → Call
  provider_call : Bytes → Bytes → Bytes → Time → Call
  flushed : Time → Answers → Call

module _ (is_blank valid_utf8 has_control : Bytes → Bool) where
  unfoldable pub perform : Call → Std → Std
  unfolding record_call set_in_flight record_provider_call flush
  perform (recorded ctx stage result cfg now) s = record_call ctx stage result cfg now s
  perform (in_flight flow stage bucket money count now) s =
      set_in_flight flow stage bucket money count now s
  perform (provider_call provider op outcome now) s =
      record_provider_call is_blank valid_utf8 has_control provider op outcome now s
  perform (flushed now answers) s = (flush now answers s).state

  unfoldable pub perform_all : List Call → Std → Std
  unfolding perform
  perform_all [] s = s
  perform_all (c ∷ cs) s = perform_all cs (perform c s)

-- Every buffer and every set of the emitter is within its bound.
pub record IsBounded (s : Std) : Type 0 where
  pub events : length s.events ≤ s.buf_size
  pub metrics : length s.metrics ≤ s.metrics_cap
  pub room : 1 ≤ s.dedup.cap
  pub cur : length s.dedup.cur ≤ s.dedup.cap
  pub prev : length s.dedup.prev ≤ s.dedup.cap
  pub pairs : length s.provider_pairs ≤ s.provider_pair_cap

append_one-IsBounded : (p : MetricPoint) (s : Std) → IsBounded s → IsBounded (append_one p s)
unfolding append_one
append_one-IsBounded p s h = elim (Bool-cases (leb s.metrics_cap (length s.metrics))) [
  | inl full ↦ rw full (record {
    events = h.events;
    metrics = h.metrics;
    room = h.room;
    cur = h.cur;
    prev = h.prev;
    pairs = h.pairs;
  })
  | inr free ↦ rw free (record {
    events = h.events;
    metrics = ground (arith, length-append s.metrics (p ∷ []));
    room = h.room;
    cur = h.cur;
    prev = h.prev;
    pairs = h.pairs;
  })
]

append_metrics-IsBounded :
    (points : List MetricPoint) (s : Std) → IsBounded s → IsBounded (append_metrics points s)
unfolding append_metrics
append_metrics-IsBounded [] s h = h
append_metrics-IsBounded (p ∷ points) s h =
    append_metrics-IsBounded points (append_one p s) (append_one-IsBounded p s h)

drop_one-IsBounded : (reason : Bytes) (s : Std) → IsBounded s → IsBounded (drop_one reason s)
unfolding drop_one
drop_one-IsBounded reason s h = record {
  events = h.events;
  metrics = h.metrics;
  room = h.room;
  cur = h.cur;
  prev = h.prev;
  pairs = h.pairs;
}

seen-bounded :
    (k : Bytes) (t : TwoGenSet)
    → 1 ≤ t.cap
    → length t.cur ≤ t.cap
    → length t.prev ≤ t.cap
    → ((seen k t).1.cap ≡ t.cap)
      × (length (seen k t).1.cur ≤ t.cap)
      × (length (seen k t).1.prev ≤ t.cap)
unfolding seen rotate
seen-bounded k t room cur prev = elim (Bool-cases (holds k t)) [
  | inl known ↦ rw known (refl, cur, prev)
  | inr new ↦ elim (Bool-cases (leb t.cap (length t.cur))) [
    | inl full ↦ rw (new, full) (refl, room, cur)
    | inr free ↦ rw (new, free) (refl, ground arith, prev)
  ]
]

admit-IsBounded : (o : Outcome) (s : Std) → IsBounded s → IsBounded (admit o s)
unfolding admit
admit-IsBounded o s h = elim (Bool-cases (leb s.buf_size (length s.events))) [
  | inl full ↦ rw full (drop_one-IsBounded _ s h)
  | inr free ↦ elim (Bool-cases (seen (dedup_key o) s.dedup).0) [
    | inl known ↦ rw (free, known) h
    | inr new ↦
        let (cap, cur, prev) = seen-bounded (dedup_key o) s.dedup h.room h.cur h.prev in
        rw (free, new)
          (append_metrics-IsBounded (points_of s o) _ (record {
            events = ground (arith, length-append s.events (o ∷ []));
            metrics = h.metrics;
            room = rw cap h.room;
            cur = rw cap cur;
            prev = rw cap prev;
            pairs = h.pairs;
          }))
  ]
]

record_valid-IsBounded : (o : Outcome) (s : Std) → IsBounded s → IsBounded (record_valid o s)
unfolding record_valid
record_valid-IsBounded o s h = elim (Result-cases (outcome_validate o)) [
  | inl (_, good) ↦ rw good (admit-IsBounded o s h)
  | inr (_, bad) ↦ rw bad (drop_one-IsBounded _ s h)
]

record_with-IsBounded :
    (r : Result CodecError (Option ValueContext)) (ctx : Ctx) (stage result : Bytes)
    (cfg : RecordConfig) (now : Time) (s : Std)
    → IsBounded s
    → IsBounded (record_with r ctx stage result cfg now s)
unfolding record_with
record_with-IsBounded (err _) ctx stage result cfg now s h = drop_one-IsBounded _ s h
record_with-IsBounded (ok none) ctx stage result cfg now s h = drop_one-IsBounded _ s h
record_with-IsBounded (ok (some vc)) ctx stage result cfg now s h =
    record_valid-IsBounded (outcome_of ctx vc stage result cfg now) s h

record_call-IsBounded :
    (ctx : Ctx) (stage result : Bytes) (cfg : RecordConfig) (now : Time) (s : Std)
    → IsBounded s
    → IsBounded (record_call ctx stage result cfg now s)
unfolding record_call
record_call-IsBounded ctx stage result cfg now s h =
    record_with-IsBounded (from_context ctx.value) ctx stage result cfg now s h

set_in_flight-IsBounded :
    (flow stage bucket : Bytes) (money : Money) (count : ℤ) (now : Time) (s : Std)
    → IsBounded s
    → IsBounded (set_in_flight flow stage bucket money count now s)
unfolding set_in_flight
set_in_flight-IsBounded flow stage bucket money count now s h =
    elim (Bool-cases (gauge_invalid bucket money count)) [
      | inl bad ↦ rw bad (drop_one-IsBounded _ s h)
      | inr good ↦ rw good (
          append_metrics-IsBounded
            (gauge_points (flow_stage_labels s.reg flow stage) bucket money count now) s h)
    ]

provider_pair_labels-IsBounded :
    (provider op : Bytes) (s : Std) → IsBounded s → IsBounded (provider_pair_labels provider op s).0
unfolding provider_pair_labels
provider_pair_labels-IsBounded provider op s h =
    elim (Bool-cases (member (provider ++ 0 ∷ op) s.provider_pairs)) [
      | inl known ↦ rw known h
      | inr new ↦ elim (Bool-cases (leb s.provider_pair_cap (length s.provider_pairs))) [
        | inl full ↦ rw (new, full) h
        | inr free ↦
            rw (new, free)
              (record {
                events = h.events;
                metrics = h.metrics;
                room = h.room;
                cur = h.cur;
                prev = h.prev;
                pairs = ground arith;
              })
      ]
    ]

flush-IsBounded :
    (now : Time) (answers : Answers) (s : Std) → IsBounded s → IsBounded (flush now answers s).state
unfolding flush
flush-IsBounded now answers s h = record {
  events = omega arith;
  metrics = omega arith;
  room = h.room;
  cur = h.cur;
  prev = h.prev;
  pairs = h.pairs;
}

new_emitter-IsBounded : (reg : Registry) (n pairs : ℕ) → IsBounded (new_emitter reg n pairs)
unfolding new_emitter
new_emitter-IsBounded reg n pairs = record {
  events = omega arith;
  metrics = omega arith;
  room = omega arith;
  cur = omega arith;
  prev = omega arith;
  pairs = omega arith;
}

module _ (is_blank valid_utf8 has_control : Bytes → Bool) where
  perform-IsBounded :
      (c : Call) (s : Std) → IsBounded s → IsBounded (perform is_blank valid_utf8 has_control c s)
  unfolding perform record_provider_call
  perform-IsBounded (recorded ctx stage result cfg now) s h =
      record_call-IsBounded ctx stage result cfg now s h
  perform-IsBounded (in_flight flow stage bucket money count now) s h =
      set_in_flight-IsBounded flow stage bucket money count now s h
  perform-IsBounded (provider_call provider op outcome now) s h =
      elim (Bool-cases (call_invalid is_blank valid_utf8 has_control provider op outcome)) [
        | inl bad ↦ rw bad (drop_one-IsBounded _ s h)
        | inr good ↦ rw good (
            append_metrics-IsBounded
              (provider_point (provider_pair_labels provider op s).1 outcome now ∷ []) _
              (provider_pair_labels-IsBounded provider op s h))
      ]
  perform-IsBounded (flushed now answers) s h = flush-IsBounded now answers s h

  perform_all-IsBounded :
      (cs : List Call) (s : Std)
      → IsBounded s
      → IsBounded (perform_all is_blank valid_utf8 has_control cs s)
  unfolding perform_all
  perform_all-IsBounded [] s h = h
  perform_all-IsBounded (c ∷ cs) s h = perform_all-IsBounded cs _ (perform-IsBounded c s h)

  -- Through any sequence of calls, whatever they are given and whatever the exporter answers, a new
  -- emitter holds no more events than its buffer size and no more metric points than its cap, remembers
  -- no more keys in a generation than the capacity, and no more provider pairs than their cap.
  pub new_emitter-perform_all-IsBounded :
      (reg : Registry) (buf_size provider_pair_cap : ℕ) (cs : List Call)
      → IsBounded (
          perform_all is_blank valid_utf8 has_control cs
            (new_emitter reg buf_size provider_pair_cap))
  new_emitter-perform_all-IsBounded reg buf_size provider_pair_cap cs =
      perform_all-IsBounded cs _ (new_emitter-IsBounded reg buf_size provider_pair_cap)
