-- ===== src/Engine/Baseline/Interval.antt =====
-- The interval of an expectation lies around its median.
use shortfall.Prelude.{
  ℕ, zero, suc, ◌≡◌, sym, subst, false, ◌&&◌, List, [], ◌∷◌, map, ◌==◌, ◌%◌, ◌/◌, ◌-◌, All,
  Bool-cases, inl, inr, length,
}
use shortfall.Prelude.Sort.{sort_by, All-sort_by}
use shortfall.Biz.Context.{Time}
use shortfall.Engine.Floats.{Floats, Ieee}
use shortfall.Engine.Baseline.{
  Sample, Expectation, Config, hour_of_week, earliest_of, in_lookback, at_index, sorts_before,
  median_of, median, deviation, mad, band_of, clamp_lower, expectation, expected_from, zero_of,
}
use shortfall.Engine.Baseline.Direct.{basis, direct, expect_all_lem}

module _ {F : Type 0} (fl : Floats F) where
  abbrev pub NotNegative : F → Type 0
  NotNegative x = fl.less x (zero_of fl) ≡ false

  -- neither is the lower bound above the median, nor the upper one below it
  abbrev pub IsRanged : Expectation F → Type 0
  IsRanged e = (fl.less e.expected e.lower ≡ false) × (fl.less e.upper e.expected ≡ false)

  module _ (ieee : Ieee fl) where
    at_index-NotNegative :
        (xs : List F) (n : ℕ) → All NotNegative xs → NotNegative (at_index (zero_of fl) xs n)
    unfolding at_index
    at_index-NotNegative [] n h = ieee.int_nonneg 0
    at_index-NotNegative (x ∷ xs) zero (h, k) = h
    at_index-NotNegative (x ∷ xs) (suc n) (h, k) = at_index-NotNegative xs n k

    median_of-NotNegative :
        (xs : List F) (n : ℕ) → All NotNegative xs → NotNegative (median_of fl xs n)
    median_of-NotNegative xs n h = elim (Bool-cases (n % 2 == 1)) [
      | inl odd ↦ rw odd (at_index-NotNegative xs (n / 2) h)
      | inr even ↦ rw even (
          ieee.half_nonneg _ (
            ieee.plus_nonneg _ _ (at_index-NotNegative xs (n / 2 - 1) h)
              (at_index-NotNegative xs (n / 2) h)))
    ]

    median-NotNegative : (xs : List F) → All NotNegative xs → NotNegative (median fl xs)
    unfolding median
    median-NotNegative xs h =
        median_of-NotNegative (sort_by (sorts_before fl) xs) (length (sort_by (sorts_before fl) xs))
          (All-sort_by NotNegative (sorts_before fl) xs h)

    deviation-NotNegative : (med x : F) → NotNegative (deviation fl med x)
    deviation-NotNegative med x = elim (Bool-cases (fl.less (fl.minus x med) (zero_of fl))) [
      | inl below ↦ rw below (ieee.neg_nonneg (fl.minus x med) below)
      | inr above ↦ rw above above
    ]

    deviations-NotNegative : (med : F) (xs : List F) → All NotNegative (map (deviation fl med) xs)
    deviations-NotNegative med [] = tt
    deviations-NotNegative med (x ∷ xs) =
        (deviation-NotNegative med x, deviations-NotNegative med xs)

    band_of-NotNegative : (b : List F) (med : F) → NotNegative (band_of fl b med)
    unfolding mad
    band_of-NotNegative b med =
        ieee.times_nonneg _ _ (ieee.decimal_nonneg 29652 4)
          (median-NotNegative (map (deviation fl med) b) (deviations-NotNegative med b))

    clamp_lower_lem :
        (x med : F)
        → NotNegative med
        → fl.less med x ≡ false
        → fl.less med (clamp_lower fl x) ≡ false
    clamp_lower_lem x med h le = elim (Bool-cases (fl.less x (zero_of fl))) [
      | inl below ↦ rw below h
      | inr above ↦ rw above le
    ]

    expectation-IsRanged :
        (t : Time) (b : List F) → All NotNegative b → IsRanged (expectation fl t b)
    unfolding expectation
    expectation-IsRanged t [] h = (ieee.int_nonneg 0, ieee.int_nonneg 0)
    expectation-IsRanged t (c ∷ b) h =
        let med = median fl (c ∷ b) in
        let band = band_of fl (c ∷ b) med in
        let wide = band_of-NotNegative (c ∷ b) med in
        (
          clamp_lower_lem (fl.minus med band) med (median-NotNegative (c ∷ b) h)
              (ieee.minus_below med band wide),
          ieee.plus_above med band wide,
        )

    basis-NotNegative :
        (cfg : Config) (earliest : Time) (h : ℕ) (history : List (Sample F))
        → All (λ s. NotNegative s.count) history
        → All NotNegative (basis fl cfg earliest h history)
    basis-NotNegative cfg earliest h [] k = tt
    basis-NotNegative cfg earliest h (s ∷ history) (p, k) =
        elim (Bool-cases (in_lookback cfg earliest s.at && hour_of_week s.at == h)) [
          | inl kept ↦ rw kept (p, basis-NotNegative cfg earliest h history k)
          | inr out ↦ rw out (basis-NotNegative cfg earliest h history k)
        ]

    directs-IsRanged :
        (cfg : Config) (history : List (Sample F)) (earliest : Time) (ts : List Time)
        → All (λ s. NotNegative s.count) history
        → All IsRanged (map (direct fl cfg history earliest) ts)
    directs-IsRanged cfg history earliest [] h = tt
    directs-IsRanged cfg history earliest (t ∷ ts) h = (
      expectation-IsRanged t _ (basis-NotNegative cfg earliest (hour_of_week t) history h),
      directs-IsRanged cfg history earliest ts h,
    )

    -- With IEEE 754 arithmetic, and no negative count in the history, the lower bound of every expectation
    -- is not above its median and the upper one not below it.
    pub expected_from-IsRanged :
        (history : List (Sample F)) (target : List Time) (cfg : Config)
        → All (λ s. NotNegative s.count) history
        → All IsRanged (expected_from fl history target cfg)
    expected_from-IsRanged history [] cfg h = tt
    expected_from-IsRanged history (t ∷ ts) cfg h =
        subst (All IsRanged) (sym (expect_all_lem fl cfg history (earliest_of t ts) (t ∷ ts)))
          (directs-IsRanged cfg history (earliest_of t ts) (t ∷ ts) h)
