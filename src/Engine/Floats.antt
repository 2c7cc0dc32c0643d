-- ===== src/Engine/Floats.antt =====
-- The float64 operations of the estimates, as a record that is a parameter of the model.
pub mod Example
use shortfall.Prelude.{ℕ, ◌≡◌, Bool, true, false}
use shortfall.Prelude.Int.{ℤ, pos}

pub record Floats (F : Type 0) : Type 0 where
  pub of_int : ℤ → F  -- `float64(n)`
  pub of_decimal : ℕ → ℕ → F  -- a constant by its digits and the number of its decimals
  pub of_bits : ℕ → F  -- a float64 by its 64 bits
  pub to_int64 : F → ℤ  -- `int64(x)`
  pub plus : F → F → F
  pub minus : F → F → F
  pub times : F → F → F
  pub div : F → F → F
  pub neg : F → F
  pub round : F → F  -- `math.Round`
  pub less : F → F → Bool  -- `<`
  pub at_most : F → F → Bool  -- `<=`
  pub is_nan : F → Bool

-- What IEEE 754 gives of the operations, as hypotheses: `less x y ≡ false` says that `x` is not below `y`,
-- or that one of them is no number.
pub record Ieee {F : Type 0} (fl : Floats F) : Type 0 where
  pub int_nonneg : (n : ℕ) → fl.less (fl.of_int (pos n)) (fl.of_int (pos 0)) ≡ false
  pub zero_one : fl.less (fl.of_int (pos 1)) (fl.of_int (pos 0)) ≡ false
  pub not_above_self : (x : F) → fl.less x x ≡ false
  pub decimal_nonneg : (d k : ℕ) → fl.less (fl.of_decimal d k) (fl.of_int (pos 0)) ≡ false
  pub neg_nonneg :
      (x : F)
      → fl.less x (fl.of_int (pos 0)) ≡ true
      → fl.less (fl.neg x) (fl.of_int (pos 0)) ≡ false
  pub plus_nonneg :
      (x y : F)
      → fl.less x (fl.of_int (pos 0)) ≡ false
      → fl.less y (fl.of_int (pos 0)) ≡ false
      → fl.less (fl.plus x y) (fl.of_int (pos 0)) ≡ false
  pub times_nonneg :
      (x y : F)
      → fl.less x (fl.of_int (pos 0)) ≡ false
      → fl.less y (fl.of_int (pos 0)) ≡ false
      → fl.less (fl.times x y) (fl.of_int (pos 0)) ≡ false
  pub half_nonneg :
      (x : F)
      → fl.less x (fl.of_int (pos 0)) ≡ false
      → fl.less (fl.div x (fl.of_int (pos 2))) (fl.of_int (pos 0)) ≡ false
  pub minus_below :
      (x y : F) → fl.less y (fl.of_int (pos 0)) ≡ false → fl.less x (fl.minus x y) ≡ false
  pub plus_above :
      (x y : F) → fl.less y (fl.of_int (pos 0)) ≡ false → fl.less (fl.plus x y) x ≡ false
  pub plus_monotone :
      (x x' y y' : F)
      → fl.less x' x ≡ false
      → fl.less y' y ≡ false
      → fl.less (fl.plus x' y') (fl.plus x y) ≡ false
  pub minus_monotone :
      (x x' y : F) → fl.less x' x ≡ false → fl.less (fl.minus x' y) (fl.minus x y) ≡ false
  pub times_monotone :
      (x x' y : F)
      → fl.less y (fl.of_int (pos 0)) ≡ false
      → fl.less x' x ≡ false
      → fl.less (fl.times x' y) (fl.times x y) ≡ false
  pub minus_nonneg :
      (x y : F) → fl.less x y ≡ false → fl.less (fl.minus x y) (fl.of_int (pos 0)) ≡ false
  pub above_less : (x y : F) → fl.at_most x y ≡ false → fl.less x y ≡ false
  pub between_nan :
      (x y z : F)
      → fl.at_most x z ≡ false
      → fl.at_most y z ≡ true
      → fl.less y x ≡ false
      → fl.is_nan x ≡ true
  pub times_nan : (x y : F) → fl.is_nan x ≡ true → fl.is_nan (fl.times x y) ≡ true
  pub nan_less : (x y : F) → fl.is_nan y ≡ true → fl.less x y ≡ false
