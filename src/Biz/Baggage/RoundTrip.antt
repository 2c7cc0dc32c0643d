-- ===== src/Biz/Baggage/RoundTrip.antt =====
-- What `EncodeVC` writes, `DecodeVC` reads back.
use shortfall.Prelude.{
  ℕ, zero, suc, ◌*◌, ◌/◌, ◌%◌, ◌<◌, ◌≤◌, ◌≡◌, refl, sym, ap, ◌∙◌, Bool, true, false, Option, none,
  some, [], ◌∷◌, ◌++◌, arith, if◌then◌else◌, ltb, Bytes, ◌=?◌, length, Bool-cases, inl, inr,
  Result-cases, ok,
}
use shortfall.Prelude.Int.{ℤ, pos, negsuc}
use shortfall.Prelude.Decimal.{format_ℕ}
use shortfall.Biz.Money.{format_ℤ}
use shortfall.Biz.Money.Cut.{Lacks}
use shortfall.Biz.Context.{Time, ValueContext}
use shortfall.Biz.Baggage.{
  escape, split, of_unix, max_encoded_bytes, deadline_field, wire, encode_vc, flags_field,
  deadline_of, decode_fields, decode_vc, codec_version,
}
use shortfall.Biz.Baggage.Escape.{IsBytes, unescape-escape, escape-Lacks}
use shortfall.Biz.Baggage.Numbers.{InRange, parse_int-format_ℤ, format_ℤ-Lacks}

split-Lacks : (sep : ℕ) (s : Bytes) → Lacks sep s → split sep s ≡ s ∷ []
unfolding split
split-Lacks sep [] h = refl
split-Lacks sep (c ∷ s) h = ground (arith, split-Lacks sep s h.1)

split-append :
    (sep : ℕ) (s rest : Bytes) → Lacks sep s → split sep (s ++ sep ∷ rest) ≡ s ∷ split sep rest
unfolding split
split-append sep [] rest h = ground arith
split-append sep (c ∷ s) rest h = ground (arith, split-append sep s rest h.1)

-- a context as the codec can carry it: its strings are bytes, its amount fits int64, its exponent fits
-- int8, and its deadline, if it has one, is a whole second
abbrev IsWholeSecond : Option Time → Type 0
IsWholeSecond none = Unit {0}
IsWholeSecond (some (pos n)) = n % 1000000000 ≡ 0
IsWholeSecond (some (negsuc n)) = suc n % 1000000000 ≡ 0

pub record IsCarried (vc : ValueContext) : Type 0 where
  pub flow : IsBytes vc.flow
  pub entity_id : IsBytes vc.entity_id
  pub customer_id : IsBytes vc.customer_id
  pub segment : IsBytes vc.segment
  pub currency : IsBytes vc.money.currency
  pub kind : IsBytes vc.kind
  pub amount : InRange 63 vc.money.amount
  pub exponent : InRange 7 vc.money.exponent
  pub deadline : IsWholeSecond vc.deadline

split-wire :
    (vc : ValueContext) (d : ℤ)
    → IsCarried vc
    → split b'|' (wire vc d)
      ≡ codec_version
        ∷ escape vc.flow
        ∷ escape vc.entity_id
        ∷ escape vc.customer_id
        ∷ escape vc.segment
        ∷ format_ℤ vc.money.amount
        ∷ escape vc.money.currency
        ∷ format_ℤ vc.money.exponent
        ∷ escape vc.kind
        ∷ format_ℤ (if vc.estimated then pos 1 else pos 0)
        ∷ format_ℤ d
        ∷ []
split-wire vc d h = rw (
  split-append b'|' codec_version _ (omega arith),
  split-append b'|' (escape vc.flow) _ (escape-Lacks vc.flow h.flow),
  split-append b'|' (escape vc.entity_id) _ (escape-Lacks vc.entity_id h.entity_id),
  split-append b'|' (escape vc.customer_id) _ (escape-Lacks vc.customer_id h.customer_id),
  split-append b'|' (escape vc.segment) _ (escape-Lacks vc.segment h.segment),
  split-append b'|' (format_ℤ vc.money.amount) _ (format_ℤ-Lacks vc.money.amount),
  split-append b'|' (escape vc.money.currency) _ (escape-Lacks vc.money.currency h.currency),
  split-append b'|' (format_ℤ vc.money.exponent) _ (format_ℤ-Lacks vc.money.exponent),
  split-append b'|' (escape vc.kind) _ (escape-Lacks vc.kind h.kind),
  split-append b'|' (format_ℤ (if vc.estimated then pos 1 else pos 0)) _
      (format_ℤ-Lacks (if vc.estimated then pos 1 else pos 0)),
  split-Lacks b'|' (format_ℤ d) (format_ℤ-Lacks d),
)

flags_back : (b : Bool) → flags_field (format_ℤ (if b then pos 1 else pos 0)) ≡ ok b
unfolding flags_field format_ℤ format_ℕ ◌=?◌
flags_back true = refl
flags_back false = refl

of_unix_lem : (q : ℕ) → 0 < q → of_unix (pos q) ≡ some (pos (q * 1000000000))
of_unix_lem zero h = absurd (omega arith)
of_unix_lem (suc q) h = refl

-- the seconds that the field holds are in the domain, and stand for the deadline
deadline_seconds :
    (o : Option Time) (d : ℤ)
    → IsWholeSecond o
    → deadline_field o ≡ ok d
    → (q : ℕ) × (d ≡ pos q) × (q ≤ 32503680000) × (of_unix (pos q) ≡ o)
unfolding deadline_field
deadline_seconds none d w h = (0, cc, omega arith, refl)
deadline_seconds (some (negsuc n)) d w h = ground arith
deadline_seconds (some (pos n)) d w h =
    let q = n / 1000000000 in
    let facts : (d ≡ pos q) × (0 < q) × (q ≤ 32503680000) = ground arith in
    let whole : q * 1000000000 ≡ n = omega arith in
    (q, facts.0, facts.2, of_unix_lem q facts.1 ∙ ap (λ (t : ℕ). some (pos t)) whole)

deadline_back :
    (o : Option Time) (d : ℤ)
    → IsWholeSecond o
    → deadline_field o ≡ ok d
    → deadline_of (format_ℤ d) ≡ ok o
unfolding deadline_of
deadline_back o d w h =
    let (q, e, small, back) = deadline_seconds o d w h in
    rw (e, parse_int-format_ℤ 63 (pos q) (omega arith), ← back) (ground arith)

decode_fields_lem :
    (vc : ValueContext) (d : ℤ)
    → IsCarried vc
    → deadline_of (format_ℤ d) ≡ ok vc.deadline
    → decode_fields (
        codec_version
        ∷ escape vc.flow
        ∷ escape vc.entity_id
        ∷ escape vc.customer_id
        ∷ escape vc.segment
        ∷ format_ℤ vc.money.amount
        ∷ escape vc.money.currency
        ∷ format_ℤ vc.money.exponent
        ∷ escape vc.kind
        ∷ format_ℤ (if vc.estimated then pos 1 else pos 0)
        ∷ format_ℤ d
        ∷ [])
      ≡ ok vc
unfolding decode_fields ◌=?◌
decode_fields_lem vc d h back = rw (
  unescape-escape vc.flow h.flow,
  unescape-escape vc.entity_id h.entity_id,
  unescape-escape vc.customer_id h.customer_id,
  unescape-escape vc.segment h.segment,
  parse_int-format_ℤ 63 vc.money.amount h.amount,
  unescape-escape vc.money.currency h.currency,
  parse_int-format_ℤ 7 vc.money.exponent h.exponent,
  unescape-escape vc.kind h.kind,
  flags_back vc.estimated,
  back,
)

encode_vc_ok :
    (vc : ValueContext) (s : Bytes)
    → encode_vc vc ≡ ok s
    → (d : ℤ) × (deadline_field vc.deadline ≡ ok d)
      × (s ≡ wire vc d)
      × (ltb max_encoded_bytes (length s) ≡ false)
unfolding encode_vc
encode_vc_ok vc s h = elim (Result-cases (deadline_field vc.deadline)) [
  | inr (e, bad) ↦ let h' = rw bad at h in cc
  | inl (d, good) ↦ elim (Bool-cases (ltb max_encoded_bytes (length (wire vc d)))) [
    | inl long ↦ let h' = rw (good, long) at h in cc
    | inr fits ↦
        let h' = rw (good, fits) at h in
        let e : wire vc d ≡ s = cc in (d, good, sym e, rw (← e) fits)
  ]
]

-- Whatever `EncodeVC` writes is at most 512 bytes, and `DecodeVC` reads it back as the same context, if
-- the strings are bytes, the amount fits int64, the exponent fits int8, and the deadline, if there is
-- one, is a whole second.
pub decode_vc-encode_vc :
    (vc : ValueContext) (s : Bytes)
    → IsCarried vc
    → encode_vc vc ≡ ok s
    → (length s ≤ 512) × (decode_vc s ≡ ok vc)
unfolding decode_vc
decode_vc-encode_vc vc s h e =
    let (d, deadline, spelled, fits) = encode_vc_ok vc s e in
    let back = deadline_back vc.deadline d h.deadline deadline in
    (
      ground arith,
      rw (fits, spelled) (ap decode_fields (split-wire vc d h) ∙ decode_fields_lem vc d h back),
    )
