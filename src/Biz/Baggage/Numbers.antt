-- ===== src/Biz/Baggage/Numbers.antt =====
-- Printed integers are read back, and hold no delimiter.
use shortfall.Prelude.{
  ℕ, suc, ◌^◌, ◌≤◌, ◌<◌, ◌≡◌, refl, ◌∙◌, ◌≢◌, true, false, some, [], ◌∷◌, arith, ◌==◌, Bytes, All,
  ok,
}
use shortfall.Prelude.Int.{ℤ, pos, negsuc, pos_part, neg_part}
use shortfall.Prelude.Decimal.{
  is_digit, IsDigit, value_from, format_ℕ, value_from-format_ℕ, format_ℕ-IsDigit, format_ℕ-ne-nil,
}
use shortfall.Biz.Money.{format_ℤ}
use shortfall.Biz.Money.Cut.{Lacks}
use shortfall.Biz.Baggage.{all_digits, magnitude, positive_int, negative_int, parse_int}

all_digits_lem : (s : Bytes) → All IsDigit s → all_digits s ≡ true
unfolding all_digits
all_digits_lem [] h = refl
all_digits_lem (c ∷ s) h =
    let d : is_digit c ≡ true = let (lo, hi) = h.0 in ground arith in rw (d, all_digits_lem s h.1)

magnitude-digits : (s : Bytes) → All IsDigit s → s ≢ [] → magnitude s ≡ some (value_from 0 s)
unfolding magnitude
magnitude-digits [] h k = absurd (k refl)
magnitude-digits (c ∷ s) h k = rw (all_digits_lem (c ∷ s) h)

parse_int-digits :
    (w : ℕ) (s : Bytes)
    → All IsDigit s
    → s ≢ []
    → parse_int w s ≡ positive_int w (some (value_from 0 s))
unfolding parse_int
parse_int-digits w [] h k = absurd (k refl)
parse_int-digits w (c ∷ s) h k =
    let (lo, hi) = h.0 in
    let m : (c == b'-') ≡ false = ground arith in
    let p : (c == b'+') ≡ false = ground arith in rw (m, p, magnitude-digits (c ∷ s) h k)

-- The integers of w + 1 bits.
abbrev pub InRange : ℕ → ℤ → Type 0
InRange w a = (pos_part a < 2 ^ w) × (neg_part a ≤ 2 ^ w)

pub parse_int-format_ℤ : (w : ℕ) (a : ℤ) → InRange w a → parse_int w (format_ℤ a) ≡ ok a
unfolding format_ℤ parse_int
parse_int-format_ℤ w (pos n) h =
    parse_int-digits w (format_ℕ n) (format_ℕ-IsDigit n) (format_ℕ-ne-nil n)
    ∙ rw (value_from-format_ℕ n) (unfold positive_int in ground arith)
parse_int-format_ℤ w (negsuc n) h =
    let m =
      magnitude-digits (format_ℕ (suc n)) (format_ℕ-IsDigit (suc n)) (format_ℕ-ne-nil (suc n)) in
    rw (m, value_from-format_ℕ (suc n)) (unfold negative_int in ground arith)

digits-Lacks : (s : Bytes) → All IsDigit s → Lacks b'|' s
digits-Lacks [] h = tt
digits-Lacks (c ∷ s) h = (let (lo, hi) = h.0 in λ e. omega arith, digits-Lacks s h.1)

pub format_ℤ-Lacks : (a : ℤ) → Lacks b'|' (format_ℤ a)
unfolding format_ℤ
format_ℤ-Lacks (pos n) = digits-Lacks _ (format_ℕ-IsDigit n)
format_ℤ-Lacks (negsuc n) = (λ e. omega arith, digits-Lacks _ (format_ℕ-IsDigit (suc n)))
