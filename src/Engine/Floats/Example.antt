-- ===== src/Engine/Floats/Example.antt =====
-- The natural numbers as an instance of the operations, for evaluation.
use shortfall.Prelude.{
  ℕ, ◌+◌, ◌-◌, ◌*◌, ◌/◌, ◌^◌, ◌≤◌, ◌≡◌, refl, zero, suc, false, ltb, leb, arith,
}
use native.Mathlib.Nat.{mul_comm}
use shortfall.Prelude.Int.{pos, pos_part}
use shortfall.Engine.Floats.{Floats, Ieee}

abbrev pub whole : Floats ℕ
whole = record {
  of_int = pos_part;
  of_decimal = λ d k. d / 10 ^ k;
  of_bits = λ b. b / 2 ^ 62;
  to_int64 = pos;
  plus = λ x y. x + y;
  minus = λ x y. x - y;
  times = λ x y. x * y;
  div = λ x y. x / y;
  neg = λ x. x;
  round = λ x. x;
  less = ltb;
  at_most = leb;
  is_nan = λ _. false;
}

not_below_zero : (x : ℕ) → ltb x 0 ≡ false
not_below_zero x = ground arith

times_le : (x x' y : ℕ) → x ≤ x' → y * x ≤ y * x'
times_le x x' zero h = omega arith
times_le x x' (suc y) h = let k = times_le x x' y h in omega arith

ltb-times : (x x' y : ℕ) → ltb x' x ≡ false → ltb (x' * y) (x * y) ≡ false
ltb-times x x' y h =
    let le : x ≤ x' = ground arith in
    let k = times_le x x' y le in ground (arith, mul_comm x y, mul_comm x' y)

pub whole-Ieee : Ieee whole
whole-Ieee = record {
  int_nonneg = λ n. not_below_zero n;
  zero_one = refl;
  not_above_self = λ x. ground arith;
  decimal_nonneg = λ d k. not_below_zero _;
  neg_nonneg = λ x h. not_below_zero x;
  plus_nonneg = λ x y h k. not_below_zero (x + y);
  times_nonneg = λ x y h k. not_below_zero (x * y);
  half_nonneg = λ x h. not_below_zero _;
  minus_below = λ x y h. ground arith;
  plus_above = λ x y h. ground arith;
  plus_monotone = λ x x' y y' h k. ground arith;
  minus_monotone = λ x x' y h. ground arith;
  times_monotone = λ x x' y h k. ltb-times x x' y k;
  minus_nonneg = λ x y h. not_below_zero (x - y);
  above_less = λ x y h. ground arith;
  between_nan = λ x y z h k l. ground arith;
  times_nan = λ x y h. cc;
  nan_less = λ x y h. cc;
}
