-- ===== src/Biz/Pii/Luhn.antt =====
-- The Luhn sum changes with any one digit.
use shortfall.Prelude.{
  ℕ, ◌+◌, ◌%◌, ◌≡◌, refl, ap, ◌≢◌, Bool, true, false, not, [], ◌∷◌, ◌++◌, arith, Bytes,
}
use shortfall.Prelude.Decimal.{IsDigit}
use shortfall.Biz.Pii.{luhn_weight, luhn_sum, luhn_valid}

-- two digits of equal weight modulo ten are equal
weight_inj :
    (doubled : Bool) (c d : ℕ)
    → IsDigit c
    → IsDigit d
    → luhn_weight doubled c % 10 ≡ luhn_weight doubled d % 10
    → c ≡ d
unfolding luhn_weight
weight_inj true c d hc hd h = ground arith
weight_inj false c d hc hd h = omega arith

-- what the digits before a place add depends on the parity of the place only
sum_front :
    (s t u : Bytes)
    → (luhn_sum t).1 ≡ (luhn_sum u).1
    → (n : ℕ) × ((luhn_sum (s ++ t)).0 ≡ (luhn_sum t).0 + n)
      × ((luhn_sum (s ++ u)).0 ≡ (luhn_sum u).0 + n)
      × ((luhn_sum (s ++ t)).1 ≡ (luhn_sum (s ++ u)).1)
unfolding luhn_sum
sum_front [] t u h = (0, omega arith, omega arith, h)
sum_front (c ∷ s) t u h =
    let (n, p, q, e) = sum_front s t u h in
    (
      n + luhn_weight (luhn_sum (s ++ t)).1 c,
      omega (arith, p),
      rw (← e) (omega (arith, q)),
      ap not e,
    )

-- If one digit of a number that passes the Luhn check is replaced by another digit, the number fails it.
pub luhn_valid-one_digit :
    (s t : Bytes) (c d : ℕ)
    → IsDigit c
    → IsDigit d
    → c ≢ d
    → luhn_valid (s ++ c ∷ t) ≡ true
    → luhn_valid (s ++ d ∷ t) ≡ false
unfolding luhn_valid
luhn_valid-one_digit s t c d hc hd ne h =
    let (n, p, q, _) = sum_front s (c ∷ t) (d ∷ t) refl in
    let p' : (luhn_sum (s ++ c ∷ t)).0 ≡ (luhn_sum t).0 + luhn_weight (luhn_sum t).1 c + n =
      unfold luhn_sum in p in
    let q' : (luhn_sum (s ++ d ∷ t)).0 ≡ (luhn_sum t).0 + luhn_weight (luhn_sum t).1 d + n =
      unfold luhn_sum in q in
    ground (arith, weight_inj (luhn_sum t).1 c d hc hd)
