-- ===== src/Query/Memq/Metrics/Tests.antt =====
-- The buckets of ten nanoseconds by four, and the level of a gauge at the end.
use shortfall.Prelude.{◌≡◌, refl, arith, true, some, List, [], ◌∷◌, ◌++◌, Bytes, codes, ◌=?◌}
use shortfall.Prelude.Int.{ℤ, pos}
use shortfall.Prelude.Maps.{find, put, label}
use shortfall.Prelude.Sort.{sort_by, ltb_bytes}
use shortfall.Emit.Emitter.{MetricPoint}
use shortfall.Query.Memq.Metrics.Latest.{IsLatest, levels-IsLatest}
use shortfall.Query.{TimeRange}
use shortfall.Query.Memq.{in_range, canonical}
use shortfall.Query.Memq.Metrics.{bounds, levels}
use shortfall.Query.Memq.Metrics.Buckets.{holding, holding-bounds}

abbrev ten : TimeRange
ten = record { from = pos 0; to = pos 10 }

within : in_range (pos 9) ten ≡ true
unfolding in_range
within = refl

holding-bounds_example : holding (pos 9) (bounds ten (pos 4)) ≡ 1
holding-bounds_example = holding-bounds ten (pos 4) (pos 9) (omega arith) within

abbrev sample : ℤ → ℤ → MetricPoint
sample value at = record {
  name = codes "biz_inflight_value";
  labels = (codes "flow", codes "pay") ∷ [];
  value = value;
  at = at;
}

abbrev samples : List MetricPoint
samples = sample (pos 5) (pos 1) ∷ sample (pos 8) (pos 7) ∷ sample (pos 3) (pos 12) ∷ []

abbrev pay_id : Bytes
pay_id = codes "flow=pay" ++ 0 ∷ []

levels-IsLatest_example :
    IsLatest pay_id (pos 10) samples (find pay_id (levels (pos 10) samples []))
levels-IsLatest_example = levels-IsLatest pay_id (pos 10) samples

carried : find pay_id (levels (pos 10) samples []) ≡ some (record { at = pos 7; value = pos 8 })
unfolding levels find put canonical ◌=?◌ sort_by ltb_bytes label
carried = refl
