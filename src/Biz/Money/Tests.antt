-- ===== src/Biz/Money/Tests.antt =====
-- The parser and the print of money at concrete amounts.
use shortfall.Prelude.{◌≡◌, refl, ◌↔◌, codes, take, drop, ok, arith}
use shortfall.Prelude.Decimal.{format_ℕ, pad_zero}
use shortfall.Prelude.Int.{pos, ◌≤ℤ◌}
use shortfall.Biz.Money.{
  Money, bad_currency_test, validate, to_string, cut, scan, parse_parts, combine, parse_minor,
}
use shortfall.Biz.Money.Exact.{IsAmount, parse_minor_exact}
use shortfall.Biz.Money.RoundTrip.{parse_minor-to_string}

test_parse : parse_minor (codes "149.5") (pos 2) ≡ ok 14950
unfolding parse_minor parse_parts combine scan cut
test_parse = refl

test_string :
    to_string (record { amount = pos 14905; currency = codes "USD"; exponent = pos 2 })
    ≡ codes "USD 149.05"
unfolding to_string bad_currency_test format_ℕ pad_zero
test_string = refl

abbrev price : Money
price = record { amount = pos 14905; currency = codes "USD"; exponent = pos 2 }

price_valid : validate price ≡ ok tt
unfolding validate bad_currency_test
price_valid = refl

parse_minor_exact_example :
    (parse_minor (codes "149.5") (pos 2) ≡ ok 14950)
    ↔ ((pos 0 ≤ℤ pos 2) × (pos 2 ≤ℤ pos 4) × IsAmount 2 (codes "149.5") 14950)
parse_minor_exact_example = parse_minor_exact (codes "149.5") (pos 2) 14950

parse_minor-to_string_example :
    (take 3 (to_string price) ≡ codes "USD")
    × (parse_minor (drop 4 (to_string price)) (pos 2) ≡ ok 14905)
parse_minor-to_string_example = parse_minor-to_string price price_valid (omega arith)
