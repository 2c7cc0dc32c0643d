-- ===== src/Biz/Money.antt =====
-- biz/money.go: `Money`, its validation, its print, and the parser of decimal amounts.
pub mod Cut
mod Scale
mod Parts
pub mod Exact
pub mod RoundTrip
mod Tests
use shortfall.Prelude.{
  ℕ, zero, suc, ◌+◌, ◌-◌, ◌*◌, ◌/◌, ◌%◌, ◌^◌, Bool, true, false, not, ◌&&◌, ◌||◌, List, [], ◌∷◌,
  ◌++◌, ◌≡◌, refl, ltb, leb, ◌==◌, if◌then◌else◌, Bytes, codes, ◌=?◌, length, Result, ok, err,
  ◌>>=◌, ◌>>◌, fail_if,
}
use shortfall.Prelude.Int.{ℤ, pos, negsuc, ltb_ℤ, pos_part}
use shortfall.Prelude.Int64.{max_int64}
use shortfall.Prelude.Decimal.{format_ℕ, pad_zero}

-- `Amount int64`, `Currency string`, `Exponent int8`
pub record Money : Type 0 where
  pub amount : ℤ
  pub currency : Bytes
  pub exponent : ℤ

pub data MoneyError : Type 0 where
  negative_amount bad_currency bad_exponent : MoneyError

-- `strings.ToUpper` on ASCII. A text with another byte fails the test on letters in any case.
abbrev upper : ℕ → ℕ
upper c = if leb b'a' c && leb c b'z' then c - 32 else c

to_upper : Bytes → Bytes
to_upper [] = []
to_upper (c ∷ s) = upper c ∷ to_upper s

-- `strings.ContainsFunc(s, func(r) { r < 'A' || r > 'Z' })`
contains_non_capital : Bytes → Bool
contains_non_capital [] = false
contains_non_capital (r ∷ s) = ltb r b'A' || ltb b'Z' r || contains_non_capital s

-- the test of `Validate` and `ParseMinor` on the exponent
abbrev pub bad_exponent_test : ℤ → Bool
bad_exponent_test e = ltb_ℤ e (pos 0) || ltb_ℤ (pos 4) e

unfoldable pub bad_currency_test : Bytes → Bool
unfolding to_upper contains_non_capital ◌=?◌
bad_currency_test s = not (length s == 3) || not (s =? to_upper s) || contains_non_capital s

-- `Money.Validate`
unfoldable pub validate : Money → Result MoneyError (Unit {0})
validate m = do
  fail_if (ltb_ℤ m.amount (pos 0)) negative_amount
  fail_if (bad_currency_test m.currency) bad_currency
  fail_if (bad_exponent_test m.exponent) bad_exponent

-- `strconv.FormatInt(n, 10)` and `%d`
unfoldable pub format_ℤ : ℤ → Bytes
format_ℤ (pos n) = format_ℕ n
format_ℤ (negsuc n) = b'-' ∷ format_ℕ (suc n)

-- `pow := int64(1); for i := 0; i < rounds; i++ { pow *= 10 }`, on the pattern of an int64
pub times_ten : ℕ → ℕ → ℕ
times_ten zero v = v
times_ten (suc rounds) v = times_ten rounds (v * 10 % 2 ^ 64)

-- the amount of a valid Money in major units
unfoldable pub major : ℕ → ℕ → Bytes
unfolding times_ten
major amount exponent =
    let pow = times_ten exponent 1 in
    if exponent == 0
    then format_ℕ amount
    else format_ℕ (amount / pow) ++ b'.' ∷ pad_zero exponent (format_ℕ (amount % pow))

abbrev is_ok : Result MoneyError (Unit {0}) → Bool
is_ok (ok _) = true
is_ok (err _) = false

-- `Money.String`
pub to_string : Money → Bytes
unfolding validate format_ℤ major
to_string m =
    if is_ok (validate m)
    then m.currency ++ b' ' ∷ major (pos_part m.amount) (pos_part m.exponent)
    else m.currency
      ++ codes " INVALID("
      ++ format_ℤ m.amount
      ++ codes " e"
      ++ format_ℤ m.exponent
      ++ codes ")"

-- `strings.Cut(s, sep)`: what stands before the first `sep`, what stands after it, and whether there
-- is one.
abbrev push_front : ℕ → Bytes × Bytes × Bool → Bytes × Bytes × Bool
push_front c (before, after, found) = (c ∷ before, after, found)

unfoldable pub cut : ℕ → Bytes → Bytes × Bytes × Bool
cut sep [] = ([], [], false)
cut sep (c ∷ s) = if c == sep then ([], s, true) else push_front c (cut sep s)

pub data ParseError : Type 0 where
  exponent_range not_decimal no_decimals_allowed too_precise overflow : ParseError

-- the closure `digits`; its accumulator is an int64 that is never negative
unfoldable pub scan : Bytes → ℕ → Result ParseError ℕ
scan [] v = ok v
scan (r ∷ s) v =
    let d = r - b'0' in
    let rest = scan s ((v * 10 + d) % 2 ^ 64) in
    if ltb r b'0' || ltb b'9' r
    then err not_decimal
    else if ltb ((max_int64 - d) / 10) v
    then err overflow
    else rest

abbrev pub is_empty : Bytes → Bool
is_empty [] = true
is_empty (_ ∷ _) = false

-- the end of `ParseMinor`: both parts in minor units, and their sum; `n` digits stand behind the dot
unfoldable pub combine : ℕ → ℕ → ℕ → ℕ → Result ParseError ℕ
unfolding times_ten
combine exponent n w f =
    let f' = times_ten (exponent - n) f in
    let pow = times_ten exponent 1 in
    if ltb ((max_int64 - f') / pow) w then err overflow else ok ((w * pow + f') % 2 ^ 64)

-- `ParseMinor` behind its test on the exponent
unfoldable pub parse_parts : ℕ → Bytes × Bytes × Bool → Result ParseError ℕ
parse_parts exponent (whole, frac, has_dot) = do
  fail_if (is_empty whole || (has_dot && is_empty frac)) not_decimal
  fail_if (has_dot && exponent == 0) no_decimals_allowed
  fail_if (has_dot && ltb exponent (length frac)) too_precise
  w ← scan whole 0
  f ← if has_dot then scan frac 0 else ok 0
  combine exponent (length frac) w f

-- `ParseMinor(s, exponent)`
unfoldable pub parse_minor : Bytes → ℤ → Result ParseError ℕ
parse_minor s exponent = do
  fail_if (bad_exponent_test exponent) exponent_range
  parse_parts (pos_part exponent) (cut b'.' s)
