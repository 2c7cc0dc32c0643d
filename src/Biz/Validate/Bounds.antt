-- ===== src/Biz/Validate/Bounds.antt =====
-- What a valid context and a valid outcome are bounded by.
use shortfall.Prelude.{
  ℕ, ◌≤◌, ◌<◌, ◌≡◌, refl, Bool, true, false, not, ◌||◌, ◌⊎◌, [], ◌∷◌, ◌++◌, arith, Bytes, ltb, ◌==◌,
  length, All, Result, ok, err, ◌>>◌, fail_if, inl, inr,
}
use shortfall.Biz.Money.{Money, validate, bad_currency_test}
use shortfall.Biz.Pii.{check_pii, has_pan, starts_digit, is_pan}
use shortfall.Biz.Pii.Cards.{IsCardText, EndsOpen, digits, has_pan_complete}
use shortfall.Biz.Context.{
  ValueContext, Outcome, result_valid, lower_token, id_token, kind_valid, all_chars, lower_char,
  id_char,
}
use shortfall.Biz.Validate.{
  ContextError, vc_validate, outcome_validate, wrap, unless_empty, is_empty, bad_segment,
  source_check, trace_id_valid, bad_trace_id, max_err_len, err_too_long, pii,
}

-- a chain of checks succeeds if both do
pub both_ok {ℓ} :
    {E : Type ℓ} (r s : Result E (Unit {0})) → (r >> s) ≡ ok tt → (r ≡ ok tt) × (s ≡ ok tt)
both_ok (ok _) s h = (refl, h)
both_ok (err e) s h = cc

pub passed {ℓ} : {E : Type ℓ} (b : Bool) (e : E) → fail_if b e ≡ ok tt → b ≡ false
passed true e h = cc
passed false e h = refl

unwrapped {ℓ} :
    {E : Type 0} {F : Type ℓ} (f : E → F) (r : Result E (Unit {0})) → wrap f r ≡ ok tt → r ≡ ok tt
unwrapped f (ok _) h = refl
unwrapped f (err e) h = cc

unless_empty-cases :
    (s : Bytes) (check : Result ContextError (Unit {0}))
    → unless_empty s check ≡ ok tt
    → (s ≡ []) ⊎ (check ≡ ok tt)
unless_empty-cases [] check h = inl refl
unless_empty-cases (c ∷ s) check h = inr h

-- A text holds a card number: digits with single spaces or dashes between them, with no digit in front
-- and none right behind, whose digits are 13 to 19 with a Luhn checksum.
pub record HoldsCard (s : Bytes) : Type 0 where
  pub before : Bytes
  pub card : Bytes
  pub after : Bytes
  pub split : s ≡ before ++ (card ++ after)
  pub open_front : EndsOpen before
  pub starts : starts_digit card ≡ true
  pub spelled : IsCardText card
  pub ends : starts_digit after ≡ false
  pub pan : is_pan (digits card) ≡ true

check_pii-not-HoldsCard : (s : Bytes) → check_pii s ≡ ok tt → ¬ HoldsCard s
unfolding check_pii
check_pii-not-HoldsCard s h c =
    let found =
      has_pan_complete c.before c.card c.after c.open_front c.starts c.spelled c.ends c.pan in
    let none : has_pan s ≡ false = passed _ _ (both_ok _ _ h).0 in
    let some_card : has_pan s ≡ true = rw c.split found in cc

abbrev pub IsPrintable : Bytes → Type 0
IsPrintable = All (λ c. (b'!' ≤ c) × (c ≤ b'~'))

all_chars-All :
    (test : ℕ → Bool) (P : ℕ → Type 0)
    → ((c : ℕ) → test c ≡ true → P c)
    → (s : Bytes) → all_chars test s ≡ true
    → All P s
unfolding all_chars
all_chars-All test P h [] e = tt
all_chars-All test P h (c ∷ s) e = (h c (ground arith), all_chars-All test P h s (ground arith))

lower_char-printable : (c : ℕ) → lower_char c ≡ true → (b'!' ≤ c) × (c ≤ b'~')
lower_char-printable c h = ground arith

id_char-printable : (c : ℕ) → id_char c ≡ true → (b'!' ≤ c) × (c ≤ b'~')
id_char-printable c h = ground arith

pub from_negated : (b : Bool) → not b ≡ false → b ≡ true
from_negated true h = refl
from_negated false h = cc

-- a token's length and characters
lower_token_lem :
    (s : Bytes) (n : ℕ) → lower_token s n ≡ ok tt → (0 < length s) × (length s ≤ n) × IsPrintable s
unfolding lower_token
lower_token_lem s n h =
    let (len, chars) = both_ok _ _ h in
    let l : (length s == 0 || ltb n (length s)) ≡ false = passed _ _ len in
    let c : not (all_chars lower_char s) ≡ false = passed _ _ chars in
    let bounds : (0 < length s) × (length s ≤ n) = ground (arith, l) in
    (bounds.0, bounds.1, all_chars-All lower_char _ lower_char-printable s (from_negated _ c))

id_token_lem : (s : Bytes) (n : ℕ) → id_token s n ≡ ok tt → (length s ≤ n) × IsPrintable s
unfolding id_token
id_token_lem s n h =
    let (len, chars) = both_ok _ _ h in
    let l : ltb n (length s) ≡ false = passed _ _ len in
    let c : not (all_chars id_char s) ≡ false = passed _ _ chars in
    (ground arith, all_chars-All id_char _ id_char-printable s (from_negated _ c))

segment_lem :
    (s : Bytes)
    → unless_empty s (wrap bad_segment (lower_token s 32)) ≡ ok tt
    → (length s ≤ 32) × IsPrintable s
segment_lem s h = elim (unless_empty-cases s _ h) [
  | inl none ↦ rw none (omega arith, tt)
  | inr good ↦ let (_, len, chars) = lower_token_lem s 32 (unwrapped _ _ good) in (len, chars)
]

-- What the engine and the exporters rely on in a context.
pub record IsBounded (vc : ValueContext) : Type 0 where
  pub flow : (0 < length vc.flow) × (length vc.flow ≤ 64) × IsPrintable vc.flow
  pub entity_id : (0 < length vc.entity_id) × (length vc.entity_id ≤ 128) × IsPrintable vc.entity_id
  pub customer_id : (length vc.customer_id ≤ 128) × IsPrintable vc.customer_id
  pub segment : (length vc.segment ≤ 32) × IsPrintable vc.segment
  pub kind : kind_valid vc.kind ≡ true
  pub money : validate vc.money ≡ ok tt
  pub entity_id_card : ¬ HoldsCard vc.entity_id
  pub customer_id_card : ¬ HoldsCard vc.customer_id

not_empty : (s : Bytes) → is_empty s ≡ false → 0 < length s
not_empty [] h = cc
not_empty (c ∷ s) h = omega arith

pub vc_validate-IsBounded : (vc : ValueContext) → vc_validate vc ≡ ok tt → IsBounded vc
unfolding vc_validate
vc_validate-IsBounded vc h =
    let (flow, h1) = both_ok _ _ h in
    let (some_entity, h2) = both_ok _ _ h1 in
    let (entity, h3) = both_ok _ _ h2 in
    let (customer, h4) = both_ok _ _ h3 in
    let (segment, h5) = both_ok _ _ h4 in
    let (kind, h6) = both_ok _ _ h5 in
    let (money, h7) = both_ok _ _ h6 in
    let (entity_pii, customer_pii) = both_ok _ _ h7 in
    record {
      flow = lower_token_lem vc.flow 64 (unwrapped _ _ flow);
      entity_id =
          let (len, chars) = id_token_lem vc.entity_id 128 (unwrapped _ _ entity) in
          (not_empty vc.entity_id (passed _ _ some_entity), len, chars);
      customer_id = id_token_lem vc.customer_id 128 (unwrapped _ _ customer);
      segment = segment_lem vc.segment segment;
      kind = from_negated _ (passed _ _ kind);
      money = unwrapped _ _ money;
      entity_id_card = check_pii-not-HoldsCard vc.entity_id (unwrapped _ _ entity_pii);
      customer_id_card = check_pii-not-HoldsCard vc.customer_id (unwrapped _ _ customer_pii);
    }

-- the checks on what a metric point takes from a valid outcome
pub outcome_validate-labels :
    (o : Outcome)
    → outcome_validate o ≡ ok tt
    → (result_valid o.result ≡ true) × (kind_valid o.vc.kind ≡ true) × (validate o.vc.money ≡ ok tt)
unfolding outcome_validate
outcome_validate-labels o h =
    let (_, h1) = both_ok _ _ h in
    let (_, h2) = both_ok _ _ h1 in
    let (result, h3) = both_ok _ _ h2 in
    let (_, h4) = both_ok (source_check o.source) _ h3 in
    let (_, h5) = both_ok (fail_if (not (trace_id_valid o.trace_id)) bad_trace_id) _ h4 in
    let (_, h6) = both_ok (fail_if (ltb max_err_len (length o.err_text)) err_too_long) _ h5 in
    let (_, vc) = both_ok (unless_empty o.err_text (wrap pii (check_pii o.err_text))) _ h6 in
    let bounded = vc_validate-IsBounded o.vc vc in
    (from_negated _ (passed _ _ result), bounded.kind, bounded.money)

pub validate-currency : (m : Money) → validate m ≡ ok tt → bad_currency_test m.currency ≡ false
unfolding validate
validate-currency m h =
    let (_, h1) = both_ok _ _ h in let (currency, _) = both_ok _ _ h1 in passed _ _ currency
