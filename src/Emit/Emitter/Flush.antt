-- ===== src/Emit/Emitter/Flush.antt =====
-- `Flush` and `Close`. The exporter's answers are arguments: whether it took the batch.
use shortfall.Prelude.{
  Bool, true, false, not, ◌&&◌, ◌||◌, List, [], ◌∷◌, ◌++◌, Bytes, codes, ◌=?◌, length,
  if◌then◌else◌,
}
use shortfall.Prelude.Int.{ℤ, pos}
use shortfall.Prelude.Maps.{Map, label}
use shortfall.Biz.Context.{Time, Outcome}
use shortfall.Engine.{add_to}
use shortfall.Emit.Emitter.{MetricPoint, Std, export}

pub record Answers : Type 0 where
  pub events_ok : Bool
  pub metrics_ok : Bool

-- the batches handed to the exporter, and whether an error is returned
pub record Flushed : Type 0 where
  pub state : Std
  pub events : List Outcome
  pub metrics : List MetricPoint
  pub failed : Bool

abbrev pub dropped_total : Bytes
dropped_total = codes "biz_dropped_events_total"

-- a point for each drop counter
unfoldable pub drop_points : Time → Map ℤ → List MetricPoint
drop_points now [] = []
drop_points now ((reason, n) ∷ m) =
    record { name = dropped_total; labels = (codes "reason", reason) ∷ []; value = n; at = now }
    ∷ drop_points now m

-- the counters of a failed batch, credited again
unfoldable pub recredit : List MetricPoint → Map ℤ → Map ℤ
unfolding add_to label
recredit [] m = m
recredit (p ∷ points) m =
    recredit points
      (if p.name =? dropped_total then add_to (label (codes "reason") p.labels) p.value m else m)

abbrev nonempty {ℓ} : {A : Type ℓ} → List A → Bool
nonempty [] = false
nonempty (_ ∷ _) = true

-- the counters behind the two exports
unfoldable pub after_exports : Answers → List Outcome → List MetricPoint → Map ℤ
unfolding recredit add_to
after_exports answers events metrics =
    let dropped =
      if nonempty events && not answers.events_ok
      then add_to export (pos (length events)) []
      else [] in
    if nonempty metrics && not answers.metrics_ok then recredit metrics dropped else dropped

-- `Flush(ctx)`
unfoldable pub flush : Time → Answers → Std → Flushed
unfolding after_exports drop_points
flush now answers s =
    let metrics = s.metrics ++ drop_points now s.drop_counts in
    record {
      state = record s {
        events = [];
        metrics = [];
        metric_overflow = pos 0;
        drop_counts = after_exports answers s.events metrics;
      };
      events = s.events;
      metrics = metrics;
      failed =
          (nonempty s.events && not answers.events_ok)
          || (nonempty metrics && not answers.metrics_ok);
    }

-- `Close(ctx)`, the first time: two flushes, then the exporter's shutdown
unfoldable pub close : Time → Answers → Answers → Bool → Std → Std × Bool
unfolding flush
close now first second shutdown_ok s =
    let one = flush now first s in
    let two = flush now second one.state in (two.state, one.failed || two.failed || not shutdown_ok)
