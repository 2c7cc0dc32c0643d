-- ===== src/Biz/Baggage/Tests.antt =====
-- A context on the wire and back.
use shortfall.Prelude.{◌≡◌, refl, ◌≤◌, codes, arith, length, some, true, ok, Bytes}
use shortfall.Prelude.Decimal.{format_ℕ}
use shortfall.Prelude.Int.{pos}
use shortfall.Biz.Money.{format_ℤ}
use shortfall.Biz.Context.{ValueContext}
use shortfall.Biz.Baggage.{
  needs_escape, hex_digit, escape_byte, escape, deadline_field, encode_vc, decode_vc,
}
use shortfall.Biz.Baggage.RoundTrip.{IsCarried, decode_vc-encode_vc}

abbrev order : ValueContext
order = record {
  flow = codes "checkout";
  entity_id = codes "o|1";
  customer_id = codes "c1";
  segment = codes "";
  money = record { amount = pos 4999; currency = codes "USD"; exponent = pos 2 };
  kind = codes "gmv";
  estimated = true;
  deadline = some (pos 1700000000000000000);
}

abbrev order_wire : Bytes
order_wire = codes "1|checkout|o%7C1|c1||4999|USD|2|gmv|1|1700000000"

test_encode : encode_vc order ≡ ok order_wire
unfolding encode_vc deadline_field escape escape_byte needs_escape hex_digit format_ℤ format_ℕ
test_encode = refl

order-IsCarried : IsCarried order
order-IsCarried = record {
  flow = omega arith;
  entity_id = omega arith;
  customer_id = omega arith;
  segment = tt;
  currency = omega arith;
  kind = omega arith;
  amount = omega arith;
  exponent = omega arith;
  deadline = refl;
}

decode_vc-encode_vc_example : (length order_wire ≤ 512) × (decode_vc order_wire ≡ ok order)
decode_vc-encode_vc_example = decode_vc-encode_vc order order_wire order-IsCarried test_encode
