-- ===== src/Emit/Emitter/Calls.antt =====
-- `Record`, `SetInFlight` and `RecordProviderCall`.
use shortfall.Prelude.{
  Bool, true, false, not, ◌&&◌, ◌||◌, Option, none, some, List, [], ◌∷◌, ◌++◌, Bytes, codes, ltb,
  leb, length, Result, ok, err, if◌then◌else◌,
}
use shortfall.Prelude.Int.{ℤ, pos, ltb_ℤ}
use shortfall.Biz.Money.{Money, validate}
use shortfall.Biz.Context.{Time, ValueContext, Outcome}
use shortfall.Biz.Baggage.{CodecError, decode_vc}
use shortfall.Biz.Validate.{outcome_validate}
use shortfall.Engine.Realized.{member}
use shortfall.Emit.InFlight.Calls.{age_buckets}
use shortfall.Emit.Emitter.TwoGen.{seen}
use shortfall.Emit.Emitter.{
  MetricPoint, Std, append_metrics, drop_one, invalid, overflow, flow_stage_labels, segment_label,
}

-- What a call reads of its context: the value of the member `biz.vc`, and the trace id, or none.
pub record Ctx : Type 0 where
  pub value : Option Bytes
  pub trace_id : Bytes

-- `RecordConfig`; no time is `none`
pub record RecordConfig : Type 0 where
  pub source : Bytes
  pub err_text : Bytes
  pub at : Option Time

-- `biz.FromContext(ctx)`: absent, corrupt, or a context
unfoldable pub from_context : Option Bytes → Result CodecError (Option ValueContext)
unfolding decode_vc
from_context none = ok none
from_context (some value) = elim (decode_vc value) [ ok vc ↦ ok (some vc) | err e ↦ err e ]

abbrev at_or : Option Time → Time → Time
at_or none now = now
at_or (some at) now = at

abbrev pub is_ok {ℓ κ} : {E : Type ℓ} {A : Type κ} → Result E A → Bool
is_ok (ok _) = true
is_ok (err _) = false

abbrev pub outcome_of : Ctx → ValueContext → Bytes → Bytes → RecordConfig → Time → Outcome
outcome_of ctx vc stage result cfg now = record {
  at = at_or cfg.at now;
  vc = vc;
  stage = stage;
  result = result;
  source = cfg.source;
  trace_id = ctx.trace_id;
  err_text = cfg.err_text;
}

-- the key of an observation
unfoldable pub dedup_key : Outcome → Bytes
dedup_key o = o.vc.flow ++ 0 ∷ (o.vc.entity_id ++ 0 ∷ (o.stage ++ 0 ∷ o.result))

abbrev pub txn_point : Std → Outcome → MetricPoint
txn_point s o =
    let (flow, stage) = flow_stage_labels s.reg o.vc.flow o.stage in
    record {
      name = codes "biz_txn_total";
      labels =
          (codes "flow", flow)
          ∷ (codes "stage", stage)
          ∷ (codes "outcome", o.result)
          ∷ (codes "currency", o.vc.money.currency)
          ∷ (codes "segment", segment_label s.reg o.vc.segment)
          ∷ [];
      value = pos 1;
      at = o.at;
    }

abbrev pub value_point : Std → Outcome → MetricPoint
value_point s o =
    let (flow, stage) = flow_stage_labels s.reg o.vc.flow o.stage in
    record {
      name = codes "biz_value_total";
      labels =
          (codes "flow", flow)
          ∷ (codes "stage", stage)
          ∷ (codes "outcome", o.result)
          ∷ (codes "currency", o.vc.money.currency)
          ∷ (codes "kind", o.vc.kind)
          ∷ (codes "segment", segment_label s.reg o.vc.segment)
          ∷ [];
      value = o.vc.money.amount;
      at = o.at;
    }

-- the points of an admitted outcome: an estimated amount enters no value sum
abbrev pub points_of : Std → Outcome → List MetricPoint
points_of s o = if o.vc.estimated then txn_point s o ∷ [] else value_point s o ∷ txn_point s o ∷ []

-- `Record` of a valid outcome: overflow first, then the test for a retry, then the event and its points
unfoldable pub admit : Outcome → Std → Std
unfolding seen append_metrics drop_one dedup_key
admit o s =
    let (known, dedup) = seen (dedup_key o) s.dedup in
    let admitted : Std = record s { dedup = dedup; events = s.events ++ o ∷ [] } in
    if leb s.buf_size (length s.events)
    then drop_one overflow s
    else if known
    then s
    else append_metrics (points_of s o) admitted

unfoldable pub record_valid : Outcome → Std → Std
unfolding outcome_validate admit drop_one
record_valid o s = if is_ok (outcome_validate o) then admit o s else drop_one invalid s

-- `Record(ctx, stage, result, opts...)`
unfoldable pub record_with :
    Result CodecError (Option ValueContext) → Ctx → Bytes → Bytes → RecordConfig → Time → Std → Std
unfolding record_valid drop_one
record_with (err _) ctx stage result cfg now s = drop_one invalid s
record_with (ok none) ctx stage result cfg now s = drop_one invalid s
record_with (ok (some vc)) ctx stage result cfg now s =
    record_valid (outcome_of ctx vc stage result cfg now) s

unfoldable pub record_call : Ctx → Bytes → Bytes → RecordConfig → Time → Std → Std
unfolding from_context record_with
record_call ctx stage result cfg now s =
    record_with (from_context ctx.value) ctx stage result cfg now s

-- the two points of `SetInFlight`
abbrev pub gauge_point : Bytes → Bytes × Bytes → Bytes → Bytes → ℤ → Time → MetricPoint
gauge_point name (flow, stage) age_bucket currency value now = record {
  name = name;
  labels =
      (codes "flow", flow)
      ∷ (codes "stage", stage)
      ∷ (codes "age_bucket", age_bucket)
      ∷ (codes "currency", currency)
      ∷ [];
  value = value;
  at = now;
}

abbrev pub gauge_points : Bytes × Bytes → Bytes → Money → ℤ → Time → List MetricPoint
gauge_points labels age_bucket money count now =
    gauge_point (codes "biz_inflight_value") labels age_bucket money.currency money.amount now
    ∷ gauge_point (codes "biz_inflight_count") labels age_bucket money.currency count now
    ∷ []

unfoldable pub gauge_invalid : Bytes → Money → ℤ → Bool
unfolding member
gauge_invalid age_bucket money count =
    not (member age_bucket age_buckets) || not (is_ok (validate money)) || ltb_ℤ count (pos 0)

-- `SetInFlight(flow, stage, ageBucket, money, count)`
unfoldable pub set_in_flight : Bytes → Bytes → Bytes → Money → ℤ → Time → Std → Std
unfolding append_metrics drop_one gauge_invalid
set_in_flight flow stage age_bucket money count now s =
    let labels = flow_stage_labels s.reg flow stage in
    if gauge_invalid age_bucket money count
    then drop_one invalid s
    else append_metrics (gauge_points labels age_bucket money count now) s

abbrev pub provider_other : Bytes
provider_other = codes "other"

-- `validProviderOutcome(outcome)`
unfoldable pub valid_provider_outcome : Bytes → Bool
unfolding member
valid_provider_outcome outcome = member outcome (codes "success" ∷ codes "failed" ∷ [])

-- `providerPairLabels(provider, op)`
unfoldable pub provider_pair_labels : Bytes → Bytes → Std → Std × (Bytes × Bytes)
unfolding member
provider_pair_labels provider op s =
    let key = provider ++ 0 ∷ op in
    if member key s.provider_pairs
    then (s, (provider, op))
    else if leb s.provider_pair_cap (length s.provider_pairs)
    then (s, (provider_other, provider_other))
    else (record s { provider_pairs = key ∷ s.provider_pairs }, (provider, op))

abbrev pub provider_point : Bytes × Bytes → Bytes → Time → MetricPoint
provider_point (provider, op) outcome now = record {
  name = codes "biz_provider_calls_total";
  labels = (codes "provider", provider) ∷ (codes "op", op) ∷ (codes "outcome", outcome) ∷ [];
  value = pos 1;
  at = now;
}

-- Of Unicode, `boundedProviderLabel` asks whether a text is blank, is valid UTF-8, and holds a control
-- character.
module _ (is_blank valid_utf8 has_control : Bytes → Bool) where
  -- `boundedProviderLabel(v)`
  unfoldable pub bounded_provider_label : Bytes → Bool
  bounded_provider_label v =
      not (is_blank v || ltb 64 (length v) || not (valid_utf8 v)) && not (has_control v)

  unfoldable pub call_invalid : Bytes → Bytes → Bytes → Bool
  unfolding valid_provider_outcome bounded_provider_label
  call_invalid provider op outcome =
      not (valid_provider_outcome outcome)
      || not (bounded_provider_label provider)
      || not (bounded_provider_label op)

  -- `RecordProviderCall(provider, op, outcome)`
  unfoldable pub record_provider_call : Bytes → Bytes → Bytes → Time → Std → Std
  unfolding call_invalid provider_pair_labels append_metrics drop_one
  record_provider_call provider op outcome now s =
      let (s', labels) = provider_pair_labels provider op s in
      if call_invalid provider op outcome
      then drop_one invalid s
      else append_metrics (provider_point labels outcome now ∷ []) s'
