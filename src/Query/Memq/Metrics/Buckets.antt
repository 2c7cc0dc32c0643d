-- ===== src/Query/Memq/Metrics/Buckets.antt =====
-- The buckets of a metric query part its range.
use shortfall.Prelude.{
  ℕ, zero, suc, ◌+◌, ◌≤◌, ◌≡◌, refl, true, List, [], ◌∷◌, arith, if◌then◌else◌, Bool-cases, inl,
  inr,
}
use shortfall.Prelude.Int.{
  ℤ, pos, ltb_ℤ, pos_part, neg_part, ◌+ℤ◌, ◌-ℤ◌, +ℤ_parts, -ℤ_parts, ◌≤ℤ◌, ◌<ℤ◌,
}
use shortfall.Biz.Context.{Time}
use shortfall.Query.{TimeRange}
use shortfall.Query.Memq.{in_range}
use shortfall.Query.Memq.Metrics.{bounds_from, bounds}

-- the buckets that hold an instant
abbrev pub holding : Time → List TimeRange → ℕ
holding t [] = 0
holding t (b ∷ bs) = let rest = holding t bs in if in_range t b then suc rest else rest

holding-before :
    (fuel : ℕ) (start step to t : ℤ)
    → t <ℤ start
    → pos 0 <ℤ step
    → holding t (bounds_from fuel start step to) ≡ 0
unfolding bounds_from in_range
holding-before zero start step to t h p = refl
holding-before (suc fuel) start step to t h p =
    let later = +ℤ_parts start step in
    let ih = holding-before fuel (start +ℤ step) step to t (omega arith) p in ground (arith, ih)

holding-bounds_from :
    (fuel : ℕ) (start step to t : ℤ)
    → pos 0 <ℤ step
    → start ≤ℤ t
    → t <ℤ to
    → pos_part to + neg_part start ≤ fuel + pos_part start + neg_part to
    → holding t (bounds_from fuel start step to) ≡ 1
unfolding bounds_from in_range
holding-bounds_from zero start step to t p h k enough = absurd (omega arith)
holding-bounds_from (suc fuel) start step to t p h k enough =
    let later = +ℤ_parts start step in
    elim (Bool-cases (ltb_ℤ t (start +ℤ step))) [
      | inl here ↦
          let none_later = holding-before fuel (start +ℤ step) step to t (ground arith) p in
          ground (arith, none_later)
      | inr there ↦
          let ih =
            holding-bounds_from fuel (start +ℤ step) step to t p (ground arith) k (omega arith) in
          ground (arith, ih)
    ]

-- With a positive step every instant of the range lies in exactly one bucket: the rounds of the loop are
-- enough, and no two buckets overlap.
pub holding-bounds :
    (range : TimeRange) (step t : ℤ)
    → pos 0 <ℤ step
    → in_range t range ≡ true
    → holding t (bounds range step) ≡ 1
unfolding bounds in_range
holding-bounds range step t p h =
    let parts = -ℤ_parts range.to range.from in
    let after : range.from ≤ℤ t = ground arith in
    let before : t <ℤ range.to = ground arith in
    holding-bounds_from (pos_part (range.to -ℤ range.from)) range.from step range.to t p after
      before (omega arith)
