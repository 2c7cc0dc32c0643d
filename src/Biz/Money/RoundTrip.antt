-- ===== src/Biz/Money/RoundTrip.antt =====
-- The print of a valid amount is read back.
use shortfall.Prelude.{
  ℕ, zero, suc, ◌+◌, ◌*◌, ◌/◌, ◌%◌, ◌^◌, ◌≤◌, ◌≡◌, refl, ◌∙◌, ap, sym, false, [], ◌∷◌, ◌++◌, arith,
  ◌==◌, length, take, drop, inl, inr, ok, Bytes, append-nil,
}
use shortfall.Prelude.Decimal.{
  format_ℕ, pad_zero, value_from-append, value_from-shift, value_from-format_ℕ, value_from-pad_zero,
  format_ℕ-IsDigit, format_ℕ-ne-nil, length-format_ℕ, length-pad_zero, pad_zero-IsDigit,
}
use shortfall.Prelude.Int.{pos, ◌≤ℤ◌, pos_part, pos_part-le}
use shortfall.Prelude.Int64.{max_int64}
use shortfall.Biz.Money.{
  Money, validate, to_string, major, times_ten, parse_minor, bad_exponent_test, bad_currency_test,
}
use shortfall.Biz.Money.Scale.{times_ten_lem, pow_le, pow_pos}
use shortfall.Biz.Money.Exact.{IsAmount, parse_minor_exact}

div-mod : (n p : ℕ) → n / p * p + n % p ≡ n
div-mod n p = omega arith

-- The print of an amount in major units is a decimal number, and that amount is its value.
major-IsAmount : (n e : ℕ) → e ≤ 4 → n ≤ max_int64 → IsAmount e (major n e) n
unfolding major
major-IsAmount n zero h fits = record {
  whole = format_ℕ n;
  frac = [];
  spelled = inl (refl, refl);
  whole_some = format_ℕ-ne-nil n;
  whole_digits = format_ℕ-IsDigit n;
  frac_digits = tt;
  precise = omega arith;
  exact = rw (append-nil, value_from-format_ℕ n);
  fits = fits;
}
major-IsAmount n (suc e) h fits =
    let small = pow_le (suc e) h in
    let scale : times_ten (suc e) 1 ≡ 10 ^ suc e =
      times_ten_lem (suc e) 1 (omega arith) ∙ omega arith in
    let ps = pow_pos (suc e) in
    let frac = pad_zero (suc e) (format_ℕ (n % 10 ^ suc e)) in
    let len : length frac ≡ suc e =
      length-pad_zero (suc e) _ (length-format_ℕ (n % 10 ^ suc e) e (omega arith)) in
    let nonzero : (suc e == 0) ≡ false = ground arith in
    rw (scale, nonzero)
      (record {
        whole = format_ℕ (n / 10 ^ suc e);
        frac = frac;
        spelled = inr (refl, λ empty. absurd (let z : length frac ≡ 0 = rw empty in omega arith));
        whole_some = format_ℕ-ne-nil _;
        whole_digits = format_ℕ-IsDigit _;
        frac_digits = pad_zero-IsDigit (suc e) _ (format_ℕ-IsDigit _);
        precise = omega arith;
        exact =
            rw
              (
                len,
                value_from-append (format_ℕ (n / 10 ^ suc e)),
                value_from-shift frac,
                len,
                value_from-format_ℕ,
                value_from-pad_zero,
                value_from-format_ℕ,
              )
              (ap (λ t. t * 10 ^ suc e) (sym (div-mod n (10 ^ suc e))));
        fits = fits;
      })

validate_ok :
    (m : Money)
    → validate m ≡ ok tt
    → (pos 0 ≤ℤ m.amount) × (length m.currency ≡ 3) × (bad_exponent_test m.exponent ≡ false)
unfolding validate bad_currency_test
validate_ok m h = ground arith

take-drop_front :
    (s t : Bytes) (c : ℕ) → length s ≡ 3 → (take 3 (s ++ c ∷ t) ≡ s) × (drop 4 (s ++ c ∷ t) ≡ t)
take-drop_front [] t c h = absurd (omega arith)
take-drop_front (x ∷ []) t c h = absurd (omega arith)
take-drop_front (x ∷ y ∷ []) t c h = absurd (omega arith)
take-drop_front (x ∷ y ∷ z ∷ []) t c h = (refl, refl)
take-drop_front (x ∷ y ∷ z ∷ w ∷ s) t c h = absurd (omega arith)

-- `String` of a money that `Validate` accepts, with an amount in the range of int64, begins with the
-- currency, and `ParseMinor` reads the text behind the currency and one space back, at the
-- exponent of the money, as the amount.
pub parse_minor-to_string :
    (m : Money)
    → validate m ≡ ok tt
    → pos_part m.amount ≤ max_int64
    → (take 3 (to_string m) ≡ m.currency)
      × (parse_minor (drop 4 (to_string m)) m.exponent ≡ ok (pos_part m.amount))
unfolding to_string
parse_minor-to_string m h fits =
    let (nonneg, three, fine) = validate_ok m h in
    let lo : pos 0 ≤ℤ m.exponent = ground arith in
    let hi : m.exponent ≤ℤ pos 4 = ground arith in
    let text = major (pos_part m.amount) (pos_part m.exponent) in
    let (front, back) = take-drop_front m.currency text b' ' three in
    rw (h, front, back)
      (
        refl,
        (parse_minor_exact text m.exponent (pos_part m.amount)).1 (
          lo,
          hi,
          major-IsAmount (pos_part m.amount) (pos_part m.exponent) (pos_part-le m.exponent 4 hi)
              fits,
        ),
      )
