-- ===== src/Biz/Validate/Tests.antt =====
-- A context that is valid.
use shortfall.Prelude.{false, none, codes}
use shortfall.Prelude.Int.{pos}
use shortfall.Biz.Context.{ValueContext, kind_gmv}

abbrev invoice : ValueContext
invoice = record {
  flow = codes "invoice.pay";
  entity_id = codes "inv-1702";
  customer_id = codes "h:9f2";
  segment = codes "";
  money = record { amount = pos 4999; currency = codes "USD"; exponent = pos 2 };
  kind = kind_gmv;
  estimated = false;
  deadline = none;
}
