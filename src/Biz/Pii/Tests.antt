-- ===== src/Biz/Pii/Tests.antt =====
-- The guard on concrete texts.
use shortfall.Prelude.{◌≡◌, refl, ◌%◌, ◌++◌, ◌∷◌, take, drop, true, false, some, codes, arith}
use shortfall.Prelude.Decimal.{value_from}
use shortfall.Biz.Pii.{
  luhn_valid, luhn_sum, luhn_weight, has_iban, scan_iban, iban_match, iban_mod97, feed_all, feed,
}
use shortfall.Biz.Pii.Luhn.{luhn_valid-one_digit}
use shortfall.Biz.Pii.Checksum.{spelled, iban_mod97_exact}

good_card : luhn_valid (codes "4242424242424242") ≡ true
unfolding luhn_valid luhn_sum luhn_weight
good_card = refl

luhn_valid-one_digit_example : luhn_valid (codes "42424242" ++ b'7' ∷ codes "2424242") ≡ false
luhn_valid-one_digit_example =
    luhn_valid-one_digit (codes "42424242") (codes "2424242") b'4' b'7' (omega arith) (omega arith)
      (omega arith) good_card

iban_mod97_exact_example :
    iban_mod97 (codes "DE89370400440532013000")
    ≡ some (
        value_from 0 (
          spelled
            (drop 4 (codes "DE89370400440532013000") ++ take 4 (codes "DE89370400440532013000")))
        % 97)
iban_mod97_exact_example = iban_mod97_exact (codes "DE89370400440532013000") (ground arith)

-- a letter behind an IBAN joins its candidate
test_trailing : has_iban (codes "DE89370400440532013000x") ≡ false
unfolding has_iban scan_iban iban_match iban_mod97 feed_all feed
test_trailing = refl
