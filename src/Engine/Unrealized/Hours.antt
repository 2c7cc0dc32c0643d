-- ===== src/Engine/Unrealized/Hours.antt =====
-- The hours that the counterfactual leg estimates over.
use shortfall.Prelude.{
  ℕ, zero, suc, ◌+◌, ◌*◌, ◌/◌, ◌≤◌, ◌≡◌, refl, Bool-cases, inl, inr, List, [], ◌∷◌, arith,
}
use shortfall.Prelude.Int.{
  pos, negsuc, pos_part, neg_part, +ℤ_parts, -ℤ_parts, ltb_ℤ, ◌+ℤ◌, ◌-ℤ◌, ◌≤ℤ◌, ◌<ℤ◌,
}
use shortfall.Biz.Context.{Time}
use shortfall.Query.{TimeRange}
use shortfall.Engine.Baseline.{hour, floor_mod}
use shortfall.Engine.Unrealized.Values.{truncate_hour, first_hour, instants_from, hourly_instants}

-- hour by hour, from the first on
abbrev pub Follows : Time → List Time → Type 0
Follows t [] = Unit
Follows t (u ∷ us) = (u ≡ t) × Follows (t +ℤ pos hour) us

-- all begin before the end, and the hour behind them does not
abbrev pub EndsAt : Time → Time → List Time → Type 0
EndsAt t to [] = to ≤ℤ t
EndsAt t to (u ∷ us) = (u <ℤ to) × EndsAt (t +ℤ pos hour) to us

instants_from-Follows : (fuel : ℕ) (t to : Time) → Follows t (instants_from fuel t to)
unfolding instants_from
instants_from-Follows zero t to = tt
instants_from-Follows (suc fuel) t to = elim (Bool-cases (ltb_ℤ t to)) [
  | inl before ↦ rw before (refl, instants_from-Follows fuel (t +ℤ pos hour) to)
  | inr behind ↦ rw behind tt
]

instants_from-EndsAt :
    (fuel : ℕ) (t to : Time)
    → pos_part to + neg_part t ≤ pos_part t + neg_part to + fuel * hour
    → EndsAt t to (instants_from fuel t to)
unfolding instants_from
instants_from-EndsAt zero t to le = omega arith
instants_from-EndsAt (suc fuel) t to le =
    let next = +ℤ_parts t (pos hour) in
    elim (Bool-cases (ltb_ℤ t to)) [
      | inl before ↦
          rw before (ground arith, instants_from-EndsAt fuel (t +ℤ pos hour) to (omega arith))
      | inr behind ↦ rw behind (ground arith)
    ]

plus_hour : (t : Time) → floor_mod t hour ≡ 0 → floor_mod (t +ℤ pos hour) hour ≡ 0
unfolding ◌+ℤ◌
plus_hour (pos n) h = ground arith
plus_hour (negsuc n) h = ground arith

truncate_hour-aligned : (t : Time) → floor_mod (truncate_hour t) hour ≡ 0
unfolding truncate_hour ◌-ℤ◌
truncate_hour-aligned (pos n) = ground arith
truncate_hour-aligned (negsuc n) = ground arith

truncate_hour-near : (t : Time) → (truncate_hour t ≤ℤ t) × (t <ℤ (truncate_hour t +ℤ pos hour))
unfolding truncate_hour ◌-ℤ◌ ◌+ℤ◌
truncate_hour-near (pos n) = ground arith
truncate_hour-near (negsuc n) = ground arith

-- the first hour that begins at an instant or later
abbrev pub IsFirstHour : Time → Time → Type 0
IsFirstHour from t = (floor_mod t hour ≡ 0) × (from ≤ℤ t) × (t <ℤ (from +ℤ pos hour))

first_hour_lem : (from : Time) → IsFirstHour from (first_hour from)
first_hour_lem from =
    let t = truncate_hour from in
    let aligned = truncate_hour-aligned from in
    let (below, near) = truncate_hour-near from in
    let next = +ℤ_parts t (pos hour) in
    let after = +ℤ_parts from (pos hour) in
    elim (Bool-cases (ltb_ℤ t from)) [
      | inl before ↦
          let le : t <ℤ from = ground arith in
          rw before (plus_hour t aligned, omega arith, omega arith)
      | inr reached ↦ let ge : from ≤ℤ t = ground arith in rw reached (aligned, ge, omega arith)
    ]

-- the hours of a window
abbrev pub AreHours : TimeRange → List Time → Type 0
AreHours w hours =
    IsFirstHour w.from (first_hour w.from)
    × Follows (first_hour w.from) hours
    × EndsAt (first_hour w.from) w.to hours

-- The target hours are those of the window, all of them: the first is the first whole hour at or after
-- the window's begin, each next one is an hour later and before the window's end, and the loop ends only
-- where the next hour would not begin before the end.
pub hourly_instants-AreHours : (w : TimeRange) → AreHours w (hourly_instants w)
unfolding hourly_instants
hourly_instants-AreHours w =
    let first = first_hour w.from in
    let rounds = suc (pos_part (w.to -ℤ first) / hour) in
    let parts = -ℤ_parts w.to first in
    (
      first_hour_lem w.from,
      instants_from-Follows rounds first w.to,
      instants_from-EndsAt rounds first w.to (omega arith),
    )
