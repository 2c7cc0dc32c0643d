-- ===== src/Emit/Emitter.antt =====
-- emit/emitter.go: the standard emitter, one call at a time, as the mutex orders the calls. The time that
-- the clock shows, what the context carries and what the exporter answers are arguments of a call. The
-- log, the flush loop and the options of `New` are not modelled.
pub mod TwoGen
pub mod Calls
pub mod Flush
pub mod Recent
pub mod Bounds
pub mod Once
pub mod Fence
pub mod Recredit
mod Tests
use shortfall.Prelude.{
  ℕ, zero, suc, ◌+◌, ◌*◌, Bool, true, false, not, ◌&&◌, ◌||◌, Option, none, some, List, [], ◌∷◌,
  ◌++◌, Bytes, codes, ◌=?◌, ltb, leb, length, if◌then◌else◌,
}
use shortfall.Prelude.Int.{ℤ, pos}
use shortfall.Prelude.Int64.{add64}
use shortfall.Prelude.Maps.{Map, find}
use shortfall.Biz.Context.{Time, Outcome}
use shortfall.Registry.{stage_names, Registry, Flow, Stage, flow_of}
use shortfall.Engine.{add_to}
use shortfall.Engine.Realized.{member}
use shortfall.Emit.Emitter.TwoGen.{TwoGenSet}

-- `MetricPoint`
pub record MetricPoint : Type 0 where
  pub name : Bytes
  pub labels : Map Bytes
  pub value : ℤ
  pub at : Time

-- the state of `Std`
pub record Std : Type 0 where
  pub reg : Registry
  pub buf_size : ℕ
  pub metrics_cap : ℕ
  pub provider_pair_cap : ℕ
  pub events : List Outcome
  pub metrics : List MetricPoint
  pub drop_counts : Map ℤ
  pub metric_overflow : ℤ
  pub dedup : TwoGenSet
  pub provider_pairs : List Bytes

-- `appendMetrics(points...)`: one round, and the loop
unfoldable pub append_one : MetricPoint → Std → Std
append_one p s =
    if leb s.metrics_cap (length s.metrics)
    then record s { metric_overflow = add64 s.metric_overflow (pos 1) }
    else record s { metrics = s.metrics ++ p ∷ [] }

unfoldable pub append_metrics : List MetricPoint → Std → Std
unfolding append_one
append_metrics [] s = s
append_metrics (p ∷ points) s = append_metrics points (append_one p s)

-- `s.dropCounts[reason]++`
unfoldable pub drop_one : Bytes → Std → Std
unfolding add_to
drop_one reason s = record s { drop_counts = add_to reason (pos 1) s.drop_counts }

abbrev pub invalid : Bytes
invalid = codes "invalid"

abbrev pub overflow : Bytes
overflow = codes "overflow"

abbrev pub export : Bytes
export = codes "export"

abbrev pub unregistered : Bytes
unregistered = codes "unregistered"

-- `f.StageValid(stage)`: the set holds the names of the stages
-- `flowStageLabels(flow, stage)`
abbrev labels_with : Option Flow → Bytes → Bytes → Bytes × Bytes
labels_with none flow stage = (unregistered, unregistered)
labels_with (some f) flow stage =
    (flow, if member stage (stage_names f.stages) then stage else unregistered)

unfoldable pub flow_stage_labels : Registry → Bytes → Bytes → Bytes × Bytes
unfolding flow_of member
flow_stage_labels reg flow stage = labels_with (flow_of reg flow) flow stage

-- `segmentLabel(segment)`
unfoldable pub segment_label : Registry → Bytes → Bytes
unfolding member
segment_label reg [] = []
segment_label reg (c ∷ s) = if member (c ∷ s) reg.segments then c ∷ s else []
