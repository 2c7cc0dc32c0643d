-- ===== src/Emit/Emitter/Tests.antt =====
-- An emitter over a registry of one flow, and a run of calls.
use shortfall.Prelude.{
  ◌≡◌, refl, Bool, true, false, none, some, List, [], ◌∷◌, arith, Bytes, codes, ◌=?◌, All,
}
use shortfall.Prelude.Int.{pos}
use shortfall.Prelude.Int64.{add64}
use shortfall.Prelude.Maps.{find}
use shortfall.Biz.Context.{Outcome}
use shortfall.Engine.{amount}
use shortfall.Engine.Realized.{member}
use shortfall.Registry.{Registry, Flow}
use shortfall.Emit.Emitter.{Std, overflow}
use shortfall.Emit.Emitter.TwoGen.{TwoGenSet, holds}
use shortfall.Emit.Emitter.Calls.{RecordConfig, admit, dedup_key}
use shortfall.Emit.Emitter.Flush.{Answers, flush}
use shortfall.Emit.Emitter.Bounds.{
  Call, recorded, provider_call, flushed, new_emitter, perform_all, IsBounded,
  new_emitter-perform_all-IsBounded,
}
use shortfall.Emit.Emitter.Once.{admit-flush-admit}
use shortfall.Emit.Emitter.Fence.{IsFenced}
use shortfall.Emit.Emitter.Fence.Invariant.{label_bound, new_emitter-perform_all-IsFenced}
use shortfall.Emit.Emitter.Recredit.{amount-flush}

abbrev keys : TwoGenSet
keys = record { cap = 2; cur = codes "a" ∷ []; prev = [] }

abbrev pay : Flow
pay = record {
  name = codes "pay";
  kind = codes "gmv";
  currencies = [];
  stages = record { name = codes "capture"; signals = [] } ∷ [];
  sla = [];
  estimator = none;
  baseline = record { seasonality = []; lookback_weeks = pos 0; holidays = [] };
  recovery = record { model = []; recovered_fraction = 0; within = pos 0 };
  reconcile = record { source = []; stage = [] };
}

abbrev registry : Registry
registry = record {
  version = pos 1;
  segments = codes "smb" ∷ [];
  allow_hosts = [];
  severity = [];
  flows = (codes "pay", pay) ∷ [];
}

abbrev plain : RecordConfig
plain = record { source = []; err_text = []; at = none }

abbrev calls : List Call
calls =
    recorded (record { value = some (codes "1|pay|o1|c1||4999|USD|2|gmv|0|0"); trace_id = [] })
      (codes "capture") (codes "failed") plain (pos 10)
    ∷ recorded (record { value = none; trace_id = [] }) (codes "capture") (codes "failed") plain
        (pos 11)
    ∷ provider_call (codes "stripe") (codes "charge") (codes "success") (pos 12)
    ∷ flushed (pos 20) (record { events_ok = false; metrics_ok = false })
    ∷ []

abbrev no : Bytes → Bool
no _ = false

abbrev yes : Bytes → Bool
yes _ = true

new_emitter-perform_all-IsBounded_example :
    IsBounded (perform_all no yes no calls (new_emitter registry 1 64))
new_emitter-perform_all-IsBounded_example =
    new_emitter-perform_all-IsBounded no yes no registry 1 64 calls

new_emitter-perform_all-IsFenced_example :
    All
      (IsFenced registry (label_bound no yes no))
      (perform_all no yes no calls (new_emitter registry 1 64)).metrics
new_emitter-perform_all-IsFenced_example =
    new_emitter-perform_all-IsFenced no yes no registry 1 64 calls

abbrev paid : Outcome
paid = record {
  at = pos 10;
  vc = record {
    flow = codes "pay";
    entity_id = codes "o1";
    customer_id = codes "c1";
    segment = [];
    money = record { amount = pos 4999; currency = codes "USD"; exponent = pos 2 };
    kind = codes "gmv";
    estimated = false;
    deadline = none;
  };
  stage = codes "capture";
  result = codes "success";
  source = [];
  trace_id = [];
  err_text = [];
}

abbrev full_emitter : Std
full_emitter = record {
  reg = registry;
  buf_size = 1;
  metrics_cap = 8;
  provider_pair_cap = 64;
  events = record paid { stage = codes "settle" } ∷ [];
  metrics = [];
  drop_counts = (codes "invalid", pos 3) ∷ [];
  metric_overflow = pos 0;
  dedup = keys;
  provider_pairs = [];
}

not_seen : holds (dedup_key paid) keys ≡ false
unfolding holds member dedup_key ◌=?◌
not_seen = refl

abbrev refuses_metrics : Answers
refuses_metrics = record { events_ok = true; metrics_ok = false }

admit-flush-admit_example :
    (amount overflow (admit paid full_emitter).drop_counts
      ≡ add64 (amount overflow full_emitter.drop_counts) (pos 1))
    × ((admit paid full_emitter).events ≡ full_emitter.events)
    × ((admit paid full_emitter).metrics ≡ full_emitter.metrics)
    × ((admit paid full_emitter).dedup ≡ full_emitter.dedup)
    × ((admit paid (flush (pos 12) refuses_metrics (admit paid full_emitter)).state).events
        ≡ paid ∷ [])
admit-flush-admit_example =
    admit-flush-admit paid (pos 12) refuses_metrics full_emitter refl (omega arith) not_seen

amount-flush_example :
    amount (codes "invalid") (flush (pos 12) refuses_metrics full_emitter).state.drop_counts
    ≡ amount (codes "invalid") full_emitter.drop_counts
unfolding find
amount-flush_example =
    amount-flush (pos 12) refuses_metrics full_emitter (codes "invalid") refl refl
      (refl, (omega arith, omega arith), tt) tt
