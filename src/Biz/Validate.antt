-- ===== src/Biz/Validate.antt =====
-- biz/context.go: the Validate methods of ValueContext and Outcome.
pub mod Bounds
mod Tests
use shortfall.Prelude.{
  ℕ, Bool, true, false, not, ◌&&◌, ◌||◌, [], ◌∷◌, Bytes, ltb, leb, ◌==◌, length, Result, ok, err,
  ◌>>◌, fail_if, if◌then◌else◌,
}
use shortfall.Prelude.Int.{ℤ, negsuc}
use shortfall.Prelude.Decimal.{is_digit}
use shortfall.Biz.Money.{MoneyError, validate}
use shortfall.Biz.Pii.{PiiError, check_pii}
use shortfall.Biz.Context.{
  Time, ValueContext, Outcome, TokenError, lower_token, id_token, kind_valid, result_valid,
}

pub data ContextError : Type 0 where
  bad_flow bad_entity bad_customer bad_segment bad_stage bad_source : TokenError → ContextError
  no_entity bad_kind zero_time bad_result bad_trace_id err_too_long : ContextError
  money_error : MoneyError → ContextError
  pii : PiiError → ContextError

-- `fmt.Errorf("...: %w", err)` of an inner error
abbrev pub wrap {ℓ} :
    {E : Type 0} {F : Type ℓ} → (E → F) → Result E (Unit {0}) → Result F (Unit {0})
wrap f (ok u) = ok u
wrap f (err e) = err (f e)

abbrev pub max_flow_len : ℕ
max_flow_len = 64

abbrev pub max_stage_len : ℕ
max_stage_len = 32

abbrev pub max_id_len : ℕ
max_id_len = 128

abbrev pub max_segment_len : ℕ
max_segment_len = 32

abbrev pub max_err_len : ℕ
max_err_len = 512

abbrev is_empty : Bytes → Bool
is_empty [] = true
is_empty (_ ∷ _) = false

-- `if s != "" { if err := check; err != nil { return err } }`
abbrev pub unless_empty : Bytes → Result ContextError (Unit {0}) → Result ContextError (Unit {0})
unless_empty [] check = ok tt
unless_empty (_ ∷ _) check = check

-- `ValueContext.Validate`
unfoldable pub vc_validate : ValueContext → Result ContextError (Unit {0})
unfolding lower_token id_token kind_valid validate check_pii
vc_validate vc = do
  wrap bad_flow (lower_token vc.flow max_flow_len)
  fail_if (is_empty vc.entity_id) no_entity
  wrap bad_entity (id_token vc.entity_id max_id_len)
  wrap bad_customer (id_token vc.customer_id max_id_len)
  unless_empty vc.segment (wrap bad_segment (lower_token vc.segment max_segment_len))
  fail_if (not (kind_valid vc.kind)) bad_kind
  wrap money_error (validate vc.money)
  wrap pii (check_pii vc.entity_id)
  wrap pii (check_pii vc.customer_id)

-- `o.At.IsZero()`: the first instant of year 1
abbrev pub zero_instant : Time
zero_instant = negsuc 62135596799999999999

abbrev is_zero_instant : Time → Bool
is_zero_instant (negsuc n) = n == 62135596799999999999
is_zero_instant _ = false

-- the loop over the trace id
all_lower_hex : Bytes → Bool
all_lower_hex [] = true
all_lower_hex (r ∷ s) = (is_digit r || (leb b'a' r && leb r b'f')) && all_lower_hex s

unfoldable pub trace_id_valid : Bytes → Bool
unfolding all_lower_hex
trace_id_valid s = is_empty s || (length s == 32 && all_lower_hex s)

unfoldable pub source_check : Bytes → Result ContextError (Unit {0})
unfolding id_token check_pii
source_check s = unless_empty s do wrap bad_source (id_token s max_id_len); wrap pii (check_pii s)

-- `Outcome.Validate`
unfoldable pub outcome_validate : Outcome → Result ContextError (Unit {0})
unfolding lower_token result_valid source_check trace_id_valid check_pii vc_validate
outcome_validate o = do
  fail_if (is_zero_instant o.at) zero_time
  wrap bad_stage (lower_token o.stage max_stage_len)
  fail_if (not (result_valid o.result)) bad_result
  source_check o.source
  fail_if (not (trace_id_valid o.trace_id)) bad_trace_id
  fail_if (ltb max_err_len (length o.err_text)) err_too_long
  unless_empty o.err_text (wrap pii (check_pii o.err_text))
  vc_validate o.vc
