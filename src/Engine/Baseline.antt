-- ===== src/Engine/Baseline.antt =====
-- engine/baseline/baseline.go: the expected counts of the hours of a week. Instants are read in UTC. The
-- float64 operations are a parameter.
pub mod Direct
pub mod Interval
use shortfall.Prelude.{
  ℕ, zero, suc, ◌+◌, ◌-◌, ◌*◌, ◌/◌, ◌%◌, Bool, true, false, not, ◌&&◌, ◌||◌, Option, none, some,
  List, [], ◌∷◌, ◌++◌, map, ◌==◌, if◌then◌else◌, Result, ok, err, length,
}
use shortfall.Prelude.Int.{ℤ, pos, negsuc, pos_part, ltb_ℤ, ◌+ℤ◌, ◌-ℤ◌}
use shortfall.Prelude.Sort.{sort_by}
use shortfall.Biz.Context.{Time}
use shortfall.Engine.Floats.{Floats}

-- `type Sample struct`
pub record Sample (F : Type 0) : Type 0 where
  pub at : Time
  pub count : F

-- `type Expectation struct`
pub record Expectation (F : Type 0) : Type 0 where
  pub at : Time
  pub expected : F
  pub lower : F
  pub upper : F
  pub n : ℕ

-- `type Config struct`; no test of holidays where the field is nil
pub record Config : Type 0 where
  pub lookback_weeks : ℤ
  pub holiday : Option (Time → Bool)

pub data BaselineError : Type 0 where
  bad_lookback : ℤ → BaselineError

-- nanoseconds
abbrev pub hour : ℕ
hour = 3600000000000

abbrev pub day : ℕ
day = 86400000000000

-- the quotient and the rest, rounding down
abbrev pub floor_div : ℤ → ℕ → ℤ
floor_div (pos n) d = pos (n / d)
floor_div (negsuc n) d = negsuc (n / d)

abbrev pub floor_mod : ℤ → ℕ → ℕ
floor_mod (pos n) d = n % d
floor_mod (negsuc n) d = d - 1 - n % d

-- `t.Weekday()`, with Sunday as 0: the first of January 1970 was a Thursday
unfoldable pub weekday : Time → ℕ
unfolding ◌+ℤ◌
weekday t = floor_mod (floor_div t day +ℤ pos 4) 7

-- `t.Hour()`
unfoldable pub hour_of_day : Time → ℕ
hour_of_day t = floor_mod (floor_div t hour) 24

unfoldable pub hour_of_week : Time → ℕ
unfolding weekday hour_of_day
hour_of_week t = (weekday t + 6) % 7 * 24 + hour_of_day t

-- the loop over the targets behind the first
unfoldable pub earliest_of : Time → List Time → Time
earliest_of earliest [] = earliest
earliest_of earliest (t ∷ ts) = earliest_of (if ltb_ℤ t earliest then t else earliest) ts

-- `t.AddDate(0, 0, -7*weeks)`
unfoldable pub weeks_before : ℤ → Time → Time
unfolding ◌-ℤ◌
weeks_before weeks t = t -ℤ pos (7 * day * pos_part weeks)

abbrev pub is_holiday : Option (Time → Bool) → Time → Bool
is_holiday none t = false
is_holiday (some test) t = test t

-- the tests of the loop over the history
abbrev pub in_lookback : Config → Time → Time → Bool
in_lookback cfg earliest t =
    not (ltb_ℤ t (weeks_before cfg.lookback_weeks earliest) || not (ltb_ℤ t earliest))
    && not (is_holiday cfg.holiday t)

-- `buckets[h] = append(buckets[h], x)`
abbrev pub append_at : {A : Type 0} → (ℕ → List A) → ℕ → A → ℕ → List A
append_at buckets h x i = if h == i then buckets h ++ x ∷ [] else buckets i

unfoldable pub at_index : {A : Type 0} → A → List A → ℕ → A
at_index d [] n = d
at_index d (x ∷ xs) zero = x
at_index d (x ∷ xs) (suc n) = at_index d xs n

module _ {F : Type 0} (fl : Floats F) where
  -- the loop over the history, which fills the buckets of the hours
  unfoldable pub fill : Config → Time → List (Sample F) → (ℕ → List F) → ℕ → List F
  unfolding hour_of_week weeks_before
  fill cfg earliest [] buckets = buckets
  fill cfg earliest (s ∷ history) buckets = fill cfg earliest history (
      if in_lookback cfg earliest s.at
      then append_at buckets (hour_of_week s.at) s.count
      else buckets)

  abbrev pub zero_of : F
  zero_of = fl.of_int (pos 0)

  -- the order of `sort.Float64s`
  abbrev pub sorts_before : F → F → Bool
  sorts_before a b = fl.less a b || (fl.is_nan a && not (fl.is_nan b))

  -- `median` of a list with its length
  abbrev pub median_of : List F → ℕ → F
  median_of s n =
      if n % 2 == 1
      then at_index zero_of s (n / 2)
      else fl.div (fl.plus (at_index zero_of s (n / 2 - 1)) (at_index zero_of s (n / 2)))
          (fl.of_int (pos 2))

  unfoldable pub median : List F → F
  unfolding sort_by at_index
  median xs = median_of (sort_by sorts_before xs) (length (sort_by sorts_before xs))

  abbrev pub deviation : F → F → F
  deviation med x =
      if fl.less (fl.minus x med) zero_of then fl.neg (fl.minus x med) else fl.minus x med

  unfoldable pub mad : List F → F → F
  unfolding median
  mad xs med = median (map (deviation med) xs)

  -- `intervalSigma * madToStdDev * mad(b, med)`, with the constants' product
  abbrev pub band_of : List F → F → F
  band_of b med = fl.times (fl.of_decimal 29652 4) (mad b med)

  abbrev pub clamp_lower : F → F
  clamp_lower x = if fl.less x zero_of then zero_of else x

  -- one target's expectation from its bucket
  unfoldable pub expectation : Time → List F → Expectation F
  unfolding mad
  expectation t [] = record { at = t; expected = zero_of; lower = zero_of; upper = zero_of; n = 0 }
  expectation t (c ∷ b) =
      let med = median (c ∷ b) in
      let band = band_of (c ∷ b) med in
      record {
        at = t;
        expected = med;
        lower = clamp_lower (fl.minus med band);
        upper = fl.plus med band;
        n = length (c ∷ b);
      }

  abbrev pub expect_all : (ℕ → List F) → List Time → List (Expectation F)
  expect_all buckets target = map (λ t. expectation t (buckets (hour_of_week t))) target

  abbrev pub expected_from : List (Sample F) → List Time → Config → List (Expectation F)
  expected_from history [] cfg = []
  expected_from history (t ∷ ts) cfg =
      expect_all (fill cfg (earliest_of t ts) history (λ _. [])) (t ∷ ts)

  -- `HourOfWeek.Expected(history, target, cfg)`
  unfoldable pub expected :
      List (Sample F) → List Time → Config → Result BaselineError (List (Expectation F))
  unfolding fill expectation earliest_of hour_of_week
  expected history target cfg =
      if ltb_ℤ cfg.lookback_weeks (pos 1)
      then err (BaselineError.bad_lookback cfg.lookback_weeks)
      else ok (expected_from history target cfg)
