-- ===== src/Biz/Context.antt =====
-- biz/context.go and biz/ledger.go: the value context that travels with a request, the outcome of a
-- stage, and the row of a provider's ledger.
use shortfall.Prelude.{
  ℕ, Bool, true, not, ◌&&◌, ◌||◌, Option, [], ◌∷◌, Bytes, codes, ◌=?◌, ltb, leb, ◌==◌, length,
  Result, ok, err, ◌>>◌, fail_if,
}
use shortfall.Prelude.Int.{ℤ, pos, ltb_ℤ}
use shortfall.Biz.Money.{Money, MoneyError, validate}

-- A `time.Time` is its instant in nanoseconds; `none` is the zero time.
abbrev pub Time : Type 0
Time = ℤ

-- `type Kind string`
abbrev pub kind_gmv : Bytes
kind_gmv = codes "gmv"

abbrev pub kind_net_revenue : Bytes
kind_net_revenue = codes "net_revenue"

abbrev pub kind_fee : Bytes
kind_fee = codes "fee"

abbrev pub kind_take_rate : Bytes
kind_take_rate = codes "take_rate"

unfoldable pub kind_valid : Bytes → Bool
unfolding ◌=?◌
kind_valid k = k =? kind_gmv || k =? kind_net_revenue || k =? kind_fee || k =? kind_take_rate

-- `type Result string`
abbrev pub success : Bytes
success = codes "success"

abbrev pub failed : Bytes
failed = codes "failed"

abbrev pub deferred : Bytes
deferred = codes "deferred"

abbrev pub abandoned : Bytes
abandoned = codes "abandoned"

abbrev pub unknown : Bytes
unknown = codes "unknown"

unfoldable pub result_valid : Bytes → Bool
unfolding ◌=?◌
result_valid r = r =? success || r =? failed || r =? deferred || r =? abandoned || r =? unknown

pub record ValueContext : Type 0 where
  pub flow : Bytes
  pub entity_id : Bytes
  pub customer_id : Bytes
  pub segment : Bytes
  pub money : Money
  pub kind : Bytes
  pub estimated : Bool
  pub deadline : Option Time

pub record Outcome : Type 0 where
  pub at : Time
  pub vc : ValueContext
  pub stage : Bytes
  pub result : Bytes
  pub source : Bytes
  pub trace_id : Bytes
  pub err_text : Bytes

pub data TokenError : Type 0 where
  bad_length bad_character : TokenError

-- the characters that `lowerToken` lets through
abbrev pub lower_char : ℕ → Bool
lower_char r =
    (leb b'a' r && leb r b'z') || (leb b'0' r && leb r b'9') || r == b'.' || r == b'_' || r == b'-'

unfoldable pub all_chars : (ℕ → Bool) → Bytes → Bool
all_chars test [] = true
all_chars test (c ∷ s) = test c && all_chars test s

-- `lowerToken(s, maxLen)`
unfoldable pub lower_token : Bytes → ℕ → Result TokenError (Unit {0})
unfolding all_chars
lower_token s max_len = do
  fail_if (length s == 0 || ltb max_len (length s)) bad_length
  fail_if (not (all_chars lower_char s)) bad_character

abbrev pub id_char : ℕ → Bool
id_char r = ltb b' ' r && leb r b'~'

-- `idToken(s, maxLen)`; a rune beyond ASCII begins with a byte beyond '~'
unfoldable pub id_token : Bytes → ℕ → Result TokenError (Unit {0})
unfolding all_chars
id_token s max_len = do
  fail_if (ltb max_len (length s)) bad_length
  fail_if (not (all_chars id_char s)) bad_character

-- `LedgerRow`
pub record LedgerRow : Type 0 where
  pub flow : Bytes
  pub outcome : Bytes
  pub money : Money
  pub count : ℤ

pub data RowError : Type 0 where
  bad_outcome negative_count amount_without_records : RowError
  bad_money : MoneyError → RowError

abbrev money_error : Result MoneyError (Unit {0}) → Result RowError (Unit {0})
money_error (ok u) = ok u
money_error (err e) = err (bad_money e)

abbrev is_zero : ℤ → Bool
is_zero a = not (ltb_ℤ a (pos 0)) && not (ltb_ℤ (pos 0) a)

-- `LedgerRow.Validate`
unfoldable pub row_validate : LedgerRow → Result RowError (Unit {0})
unfolding ◌=?◌ validate
row_validate r = do
  fail_if (not (r.outcome =? success || r.outcome =? failed || r.outcome =? deferred)) bad_outcome
  money_error (validate r.money)
  fail_if (ltb_ℤ r.count (pos 0)) negative_count
  fail_if (is_zero r.count && not (is_zero r.money.amount)) amount_without_records
