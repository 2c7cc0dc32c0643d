-- ===== src/Biz/Baggage.antt =====
-- biz/baggage.go: the wire form of a ValueContext, one field behind another with '|' between them.
-- `strconv.ParseInt` and `strings.Split` are the standard library's, as functions on bytes.
pub mod Escape
pub mod Numbers
pub mod RoundTrip
mod Tests
use shortfall.Prelude.{
  ℕ, zero, suc, ◌+◌, ◌-◌, ◌*◌, ◌/◌, ◌%◌, ◌^◌, Bool, true, false, not, ◌&&◌, ◌||◌, Option, none,
  some, List, [], ◌∷◌, ◌++◌, ltb, leb, ◌==◌, if◌then◌else◌, Bytes, codes, ◌=?◌, length, Result, ok,
  err, ◌>>=◌, ◌>>◌, fail_if,
}
use shortfall.Prelude.Int.{ℤ, pos, negsuc, ltb_ℤ, ◌-ℤ◌}
use shortfall.Prelude.Decimal.{is_digit, value_from}
use shortfall.Biz.Money.{Money, format_ℤ}
use shortfall.Biz.Context.{Time, ValueContext}

pub data CodecError : Type 0 where
  deadline_domain too_long field_count unknown_version bad_number bad_flags bad_deadline raw_byte
        truncated_escape bad_escape :
      CodecError

-- `needsEscape(c)`
unfoldable pub needs_escape : ℕ → Bool
needs_escape c =
    c == b'|'
    || c == b'%'
    || c == b'"'
    || c == b','
    || c == b';'
    || c == b'\\'
    || c == b' '
    || ltb c 0x21
    || ltb 0x7E c

-- `hexDigits`
unfoldable pub hex_digit : ℕ → ℕ
hex_digit n = if ltb n 10 then b'0' + n else b'A' + (n - 10)

-- `escapeInto(b, s)`: what it appends for one byte, and for the text
unfoldable pub escape_byte : ℕ → Bytes
unfolding needs_escape hex_digit
escape_byte c =
    if needs_escape c then b'%' ∷ hex_digit (c / 16) ∷ hex_digit (c % 16) ∷ [] else c ∷ []

unfoldable pub escape : Bytes → Bytes
escape [] = []
escape (c ∷ s) = escape_byte c ++ escape s

-- `hexVal(c)`, with `none` for -1
unfoldable pub hex_val : ℕ → Option ℕ
hex_val c =
    if leb b'0' c && leb c b'9'
    then some (c - b'0')
    else if leb b'A' c && leb c b'F'
    then some (c - b'A' + 10)
    else none

-- the test of the fast path
unfoldable pub clean : Bytes → Bool
clean [] = true
clean (c ∷ s) = not (c == b'%' || needs_escape c) && clean s

-- `byte(hi<<4 | lo)` of two hexadecimal digits
abbrev byte_of : Option ℕ → Option ℕ → Result CodecError ℕ
byte_of (some hi) (some lo) = ok (hi * 16 + lo)
byte_of _ _ = err CodecError.bad_escape

abbrev push : ℕ → Result CodecError Bytes → Result CodecError Bytes
push c (ok s) = ok (c ∷ s)
push c (err e) = err e

-- the loop of `unescape`
unfoldable pub unescape_loop : Bytes → Result CodecError Bytes
unescape_loop [] = ok []
unescape_loop (c ∷ []) =
    if c == b'%'
    then err CodecError.truncated_escape
    else if needs_escape c
    then err CodecError.raw_byte
    else ok (c ∷ [])
unescape_loop (c ∷ h ∷ []) =
    let rest = unescape_loop (h ∷ []) in
    if c == b'%'
    then err CodecError.truncated_escape
    else if needs_escape c
    then err CodecError.raw_byte
    else push c rest
unescape_loop (c ∷ h ∷ l ∷ s) =
    let escaped = byte_of (hex_val h) (hex_val l) >>= λ b. push b (unescape_loop s) in
    let plain = push c (unescape_loop (h ∷ l ∷ s)) in
    if c == b'%' then escaped else if needs_escape c then err CodecError.raw_byte else plain

-- `unescape(s)`
unfoldable pub unescape : Bytes → Result CodecError Bytes
unescape s = if clean s then ok s else unescape_loop s

-- `strings.Split(s, sep)`
abbrev to_first : ℕ → List Bytes → List Bytes
to_first c [] = (c ∷ []) ∷ []
to_first c (p ∷ ps) = (c ∷ p) ∷ ps

unfoldable pub split : ℕ → Bytes → List Bytes
split sep [] = [] ∷ []
split sep (c ∷ s) = if c == sep then [] ∷ split sep s else to_first c (split sep s)

-- `strconv.ParseInt(s, 10, w + 1)`: an optional sign, one digit or more, and a value in the range of
-- w + 1 bits
all_digits : Bytes → Bool
all_digits [] = true
all_digits (c ∷ s) = is_digit c && all_digits s

abbrev empty : Bytes → Bool
empty [] = true
empty (_ ∷ _) = false

unfoldable pub magnitude : Bytes → Option ℕ
unfolding all_digits
magnitude s = if empty s || not (all_digits s) then none else some (value_from 0 s)

abbrev minus : ℕ → ℤ
minus zero = pos 0
minus (suc n) = negsuc n

unfoldable pub positive_int : ℕ → Option ℕ → Result CodecError ℤ
positive_int w none = err CodecError.bad_number
positive_int w (some v) = if ltb v (2 ^ w) then ok (pos v) else err CodecError.bad_number

unfoldable pub negative_int : ℕ → Option ℕ → Result CodecError ℤ
negative_int w none = err CodecError.bad_number
negative_int w (some v) = if leb v (2 ^ w) then ok (minus v) else err CodecError.bad_number

unfoldable pub parse_int : ℕ → Bytes → Result CodecError ℤ
parse_int w [] = err CodecError.bad_number
parse_int w (c ∷ s) =
    if c == b'-'
    then negative_int w (magnitude s)
    else if c == b'+'
    then positive_int w (magnitude s)
    else positive_int w (magnitude (c ∷ s))

-- `MaxEncodedBytes`, `codecVersion`, `maxDeadlineUnix`
abbrev pub max_encoded_bytes : ℕ
max_encoded_bytes = 512

abbrev pub codec_version : Bytes
codec_version = codes "1"

abbrev pub max_deadline_unix : ℤ
max_deadline_unix = pos 32503680000

-- `t.Unix()`: whole seconds, rounded down
abbrev pub unix : Time → ℤ
unix (pos n) = pos (n / 1000000000)
unix (negsuc n) = negsuc (n / 1000000000)

unfoldable pub deadline_field : Option Time → Result CodecError ℤ
deadline_field none = ok (pos 0)
deadline_field (some t) = do
  fail_if (not (ltb_ℤ (pos 0) (unix t)) || ltb_ℤ max_deadline_unix (unix t))
      CodecError.deadline_domain
  ok (unix t)

-- the eleven fields behind one another, as the builder writes them
abbrev pub wire : ValueContext → ℤ → Bytes
wire vc deadline =
    codec_version
    ++ b'|'
      ∷ (escape vc.flow
          ++ b'|'
            ∷ (escape vc.entity_id
                ++ b'|'
                  ∷ (escape vc.customer_id
                      ++ b'|'
                        ∷ (escape vc.segment
                            ++ b'|'
                              ∷ (format_ℤ vc.money.amount
                                  ++ b'|'
                                    ∷ (escape vc.money.currency
                                        ++ b'|'
                                          ∷ (format_ℤ vc.money.exponent
                                              ++ b'|'
                                                ∷ (escape vc.kind
                                                    ++ b'|'
                                                      ∷ (format_ℤ
                                                            (if vc.estimated then pos 1 else pos 0)
                                                          ++ b'|' ∷ format_ℤ deadline)))))))))

-- `EncodeVC(vc)`
unfoldable pub encode_vc : ValueContext → Result CodecError Bytes
encode_vc vc = do
  deadline ← deadline_field vc.deadline
  let s = wire vc deadline
  fail_if (ltb max_encoded_bytes (length s)) CodecError.too_long
  ok s

unfoldable pub flags_field : Bytes → Result CodecError Bool
flags_field s =
    if s =? codes "0"
    then ok false
    else if s =? codes "1"
    then ok true
    else err CodecError.bad_flags

-- `time.Unix(deadline, 0)` of a positive number of seconds
abbrev of_unix : ℤ → Option Time
of_unix (pos zero) = none
of_unix (pos (suc n)) = some (pos (suc n * 1000000000))
of_unix (negsuc n) = none

unfoldable pub deadline_in : Result CodecError ℤ → Result CodecError (Option Time)
deadline_in (err _) = err CodecError.bad_deadline
deadline_in (ok d) =
    if ltb_ℤ d (pos 0) || ltb_ℤ max_deadline_unix d
    then err CodecError.bad_deadline
    else ok (of_unix d)

unfoldable pub deadline_of : Bytes → Result CodecError (Option Time)
unfolding deadline_in
deadline_of s = deadline_in (parse_int 63 s)

unfoldable pub decode_fields : List Bytes → Result CodecError ValueContext
decode_fields (v ∷ f1 ∷ f2 ∷ f3 ∷ f4 ∷ f5 ∷ f6 ∷ f7 ∷ f8 ∷ f9 ∷ f10 ∷ []) = do
  fail_if (not (v =? codec_version)) CodecError.unknown_version
  flow ← unescape f1
  entity ← unescape f2
  customer ← unescape f3
  segment ← unescape f4
  amount ← parse_int 63 f5
  currency ← unescape f6
  exponent ← parse_int 7 f7
  kind ← unescape f8
  estimated ← flags_field f9
  deadline ← deadline_of f10
  ok (record {
    flow = flow;
    entity_id = entity;
    customer_id = customer;
    segment = segment;
    money = record { amount = amount; currency = currency; exponent = exponent };
    kind = kind;
    estimated = estimated;
    deadline = deadline;
  })
decode_fields _ = err CodecError.field_count

-- `DecodeVC(s)`
unfoldable pub decode_vc : Bytes → Result CodecError ValueContext
decode_vc s = do
  fail_if (ltb max_encoded_bytes (length s)) CodecError.too_long
  decode_fields (split b'|' s)
