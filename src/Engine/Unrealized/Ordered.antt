-- ===== src/Engine/Unrealized/Ordered.antt =====
-- The sums of a currency's hours: the lower one against the middle and the middle against the upper one.
use shortfall.Prelude.{ℕ, ◌≡◌, false, List, [], ◌∷◌, All, Bool-cases, inl, inr, ◌==◌}
use shortfall.Prelude.Int.{ℤ, pos}
use shortfall.Biz.Context.{Time}
use shortfall.Engine.Floats.{Floats, Ieee}
use shortfall.Engine.Baseline.{Sample, Expectation, Config, expected_from, zero_of}
use shortfall.Engine.Baseline.Interval.{NotNegative, IsRanged, expected_from-IsRanged}
use shortfall.Engine.Unrealized.Values.{
  HourSums, hour_key, hour_map, clamp_fraction, shortfall_value, add_hour, add_hours, hour_sums,
  no_hours_yet,
}

module _ {F : Type 0} (fl : Floats F) where
  -- the lower sum is not above the middle, nor the middle above the upper one
  abbrev pub IsOrdered : HourSums F → Type 0
  IsOrdered h = (fl.less h.mid h.low ≡ false) × (fl.less h.high h.mid ≡ false)

  module _ (ieee : Ieee fl) where
    at_most_one : (x : F) → fl.less (fl.of_int (pos 1)) (clamp_fraction fl x) ≡ false
    unfolding clamp_fraction
    at_most_one x = elim (Bool-cases (fl.is_nan x)) [
      | inl undefined ↦ rw undefined ieee.zero_one
      | inr defined ↦ elim (Bool-cases (fl.less x (zero_of fl))) [
        | inl below ↦ rw (defined, below) ieee.zero_one
        | inr above ↦ elim (Bool-cases (fl.less (fl.of_int (pos 1)) x)) [
          | inl large ↦ rw (defined, above, large) (ieee.not_above_self (fl.of_int (pos 1)))
          | inr small ↦ rw (defined, above, small) small
        ]
      ]
    ]

    -- the value of an hour grows with the count that was expected
    shortfall_value-monotone :
        (e e' o : F) (aov : ℕ) (x : F)
        → fl.less e' e ≡ false
        → fl.less
            (shortfall_value fl e' o (pos aov) (clamp_fraction fl x))
            (shortfall_value fl e o (pos aov) (clamp_fraction fl x))
          ≡ false
    unfolding shortfall_value
    shortfall_value-monotone e e' o aov x le =
        let short = fl.minus e o in
        let short' = fl.minus e' o in
        let kept = fl.minus (fl.of_int (pos 1)) (clamp_fraction fl x) in
        let kept_nonneg =
          ieee.minus_nonneg (fl.of_int (pos 1)) (clamp_fraction fl x) (at_most_one x) in
        let less = ieee.minus_monotone e e' o le in
        elim (Bool-cases (fl.at_most short (zero_of fl))) [
          | inl lost ↦ elim (Bool-cases (fl.at_most short' (zero_of fl))) [
            | inl lost' ↦ rw (lost, lost') (ieee.int_nonneg 0)
            | inr more' ↦
                rw (lost, more')
                  (ieee.times_nonneg _ kept
                    (ieee.times_nonneg short' _ (ieee.above_less short' (zero_of fl) more')
                      (ieee.int_nonneg aov))
                    kept_nonneg)
          ]
          | inr more ↦ elim (Bool-cases (fl.at_most short' (zero_of fl))) [
            | inl lost' ↦
                rw (more, lost')
                  (ieee.nan_less (zero_of fl) _ (
                    ieee.times_nan _ kept (
                      ieee.times_nan short _
                        (ieee.between_nan short short' (zero_of fl) more lost' less))))
            | inr more' ↦
                rw (more, more')
                  (ieee.times_monotone _ _ kept kept_nonneg
                    (ieee.times_monotone short short' _ (ieee.int_nonneg aov) less))
          ]
        ]

    add_hour-IsOrdered :
        (o : F) (aov : ℕ) (x : F) (e : Expectation F) (h : HourSums F)
        → IsRanged fl e
        → IsOrdered h
        → IsOrdered (add_hour fl o (pos aov) (clamp_fraction fl x) e h)
    unfolding add_hour
    add_hour-IsOrdered o aov x e h (low, high) (k, l) = elim (Bool-cases (e.n == 0)) [
      | inl thin ↦ rw thin (k, l)
      | inr based ↦ rw based (
        ieee.plus_monotone _ _ _ _ k (shortfall_value-monotone e.lower e.expected o aov x low),
        ieee.plus_monotone _ _ _ _ l (shortfall_value-monotone e.expected e.upper o aov x high),
      )
    ]

    add_hours-IsOrdered :
        (observed : ℤ → F) (aov : ℕ) (x : F) (es : List (Expectation F)) (ts : List Time)
        (h : HourSums F)
        → All (IsRanged fl) es
        → IsOrdered h
        → IsOrdered (add_hours fl observed (pos aov) (clamp_fraction fl x) es ts h)
    unfolding add_hours
    add_hours-IsOrdered observed aov x [] ts h k l = l
    add_hours-IsOrdered observed aov x (e ∷ es) [] h k l = l
    add_hours-IsOrdered observed aov x (e ∷ es) (t ∷ ts) h (ranged, k) l =
        add_hours-IsOrdered observed aov x es ts _ k
          (add_hour-IsOrdered (observed (hour_key t)) aov x e h ranged l)

    -- With IEEE 754 arithmetic, an average order value that is not negative, any declared recovery, and
    -- no negative count in the history, the lower estimate of a currency is not above the middle one,
    -- nor the middle one above the upper one, whatever was observed.
    pub hour_sums-IsOrdered :
        (history observed : List (Sample F)) (target : List Time) (cfg : Config) (aov : ℕ) (x : F)
        → All (λ s. NotNegative fl s.count) history
        → IsOrdered (
            hour_sums fl observed
              (pos aov)
              (clamp_fraction fl x)
              (expected_from fl history target cfg)
              target)
    unfolding hour_sums
    hour_sums-IsOrdered history observed target cfg aov x h =
        add_hours-IsOrdered (hour_map fl observed (λ _. zero_of fl)) aov x
          (expected_from fl history target cfg) target (no_hours_yet fl)
          (expected_from-IsRanged fl ieee history target cfg h)
          (ieee.int_nonneg 0, ieee.int_nonneg 0)
