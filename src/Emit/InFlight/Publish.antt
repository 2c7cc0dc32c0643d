-- ===== src/Emit/InFlight/Publish.antt =====
-- `Publish`: the snapshot of all shards, summed for each combo and age bucket, the levels that are
-- pushed, and the retirement of combos that have emptied. The order of a loop over a Go map is the
-- order in which its keys were first set.
pub mod Levels
use shortfall.Prelude.{
  ℕ, zero, suc, Bool, true, false, not, ◌&&◌, ◌||◌, Option, none, some, List, [], ◌∷◌, ◌++◌,
  if◌then◌else◌, Bytes, ◌=?◌,
}
use shortfall.Prelude.Int.{ℤ, pos, negsuc, ltb_ℤ, ◌-ℤ◌}
use shortfall.Prelude.Int64.{add64}
use shortfall.Prelude.Maps.{Map, find, put}
use shortfall.Biz.Money.{Money}
use shortfall.Biz.Context.{Time}
use shortfall.Emit.InFlight.Store.{Key, Item, Items, Shards}
use shortfall.Emit.InFlight.Calls.{Combo, Tracker, age_bucket_for, age_buckets, same_exponent}

-- `bucketAgg`
pub record BucketAgg : Type 0 where
  pub minor : ℤ
  pub count : ℤ

abbrev pub Sums : Type 0
Sums = List (Combo × Map BucketAgg)

unfoldable pub same_combo : Combo → Combo → Bool
same_combo a b =
    a.flow =? b.flow
    && a.stage =? b.stage
    && a.currency =? b.currency
    && same_exponent a.exponent b.exponent

abbrev pub combo_of : Key → Item → Combo
combo_of k item = record {
  flow = k.flow;
  stage = k.stage;
  currency = item.money.currency;
  exponent = item.money.exponent;
}

-- `t.Sub(u)`: a difference beyond int64 is cut off there
abbrev pub since : Time → Time → ℤ
since now at =
    let d = now -ℤ at in
    if ltb_ℤ (pos 9223372036854775807) d
    then pos 9223372036854775807
    else if ltb_ℤ d (negsuc 9223372036854775807)
    then negsuc 9223372036854775807
    else d

abbrev pub bucket_of : Time → Item → Bytes
bucket_of now item = age_bucket_for (since now item.enqueued_at)

abbrev pub or_zero : Option BucketAgg → BucketAgg
or_zero none = record { minor = pos 0; count = pos 0 }
or_zero (some a) = a

abbrev pub plus : ℤ → BucketAgg → BucketAgg
plus amount a = record { minor = add64 a.minor amount; count = add64 a.count (pos 1) }

unfoldable pub bump : Bytes → ℤ → Map BucketAgg → Map BucketAgg
bump bucket amount cb = put bucket (plus amount (or_zero (find bucket cb))) cb

-- one round of the loop over a shard's items
unfoldable pub add_sum : Combo → Bytes → ℤ → Sums → Sums
unfolding bump
add_sum ck bucket amount [] = (ck, bump bucket amount []) ∷ []
add_sum ck bucket amount ((c, cb) ∷ sums) =
    if same_combo c ck
    then (c, bump bucket amount cb) ∷ sums
    else (c, cb) ∷ add_sum ck bucket amount sums

unfoldable pub sum_items : Time → Items → Sums → Sums
sum_items now [] sums = sums
sum_items now ((k, item) ∷ items) sums =
    sum_items now items (add_sum (combo_of k item) (bucket_of now item) item.money.amount sums)

-- the loop over the first `n` shards
unfoldable pub sum_shards : Time → ℕ → Shards → Sums
unfolding sum_items
sum_shards now zero f = []
sum_shards now (suc n) f = sum_items now (f n) (sum_shards now n f)

-- `sums[ck]`, nil where the combo has no items, and a bucket of it
unfoldable pub buckets_of : Combo → Sums → Map BucketAgg
buckets_of ck [] = []
buckets_of ck ((c, cb) ∷ sums) = if same_combo c ck then cb else buckets_of ck sums

unfoldable pub level : Combo → Bytes → Sums → BucketAgg
unfolding buckets_of
level ck bucket sums = or_zero (find bucket (buckets_of ck sums))

unfoldable pub combos : Sums → List Combo
combos [] = []
combos ((c, _) ∷ sums) = c ∷ combos sums

unfoldable pub has_combo : Combo → List Combo → Bool
has_combo ck [] = false
has_combo ck (c ∷ cs) = same_combo c ck || has_combo ck cs

-- the entries of the first list that the second has, or has not
unfoldable pub kept : List Combo → List Combo → List Combo
kept [] cs = []
kept (l ∷ ls) cs = if has_combo l cs then l ∷ kept ls cs else kept ls cs

unfoldable pub retired : List Combo → List Combo → List Combo
retired [] cs = []
retired (l ∷ ls) cs = if has_combo l cs then retired ls cs else l ∷ retired ls cs

-- `t.live[ck] = struct{}{}` for each combo of the sums
unfoldable pub enliven : List Combo → List Combo → List Combo
enliven [] live = live
enliven (c ∷ cs) live = enliven cs (if has_combo c live then live else live ++ c ∷ [])

-- the arguments of a call of `SetInFlight`
pub record Gauge : Type 0 where
  pub flow : Bytes
  pub stage : Bytes
  pub bucket : Bytes
  pub money : Money
  pub count : ℤ

abbrev pub gauge_of : Combo → Bytes → BucketAgg → Gauge
gauge_of ck bucket a = record {
  flow = ck.flow;
  stage = ck.stage;
  bucket = bucket;
  money = record { amount = a.minor; currency = ck.currency; exponent = ck.exponent };
  count = a.count;
}

-- the loops over the combos to publish and the five buckets, at given levels
unfoldable pub push_buckets : (Bytes → BucketAgg) → Combo → List Bytes → List Gauge → List Gauge
push_buckets levels ck [] rest = rest
push_buckets levels ck (b ∷ bs) rest = gauge_of ck b (levels b) ∷ push_buckets levels ck bs rest

unfoldable pub push_all : (Combo → Bytes → BucketAgg) → List Combo → List Gauge
unfolding push_buckets
push_all levels [] = []
push_all levels (ck ∷ cks) = push_buckets (levels ck) ck age_buckets (push_all levels cks)

-- `Publish()` at the clock's `now`: the tracker afterwards, the combos published and the calls made
unfoldable pub publish : Time → Tracker → Tracker × List Combo × List Gauge
publish now t =
    let sums = sum_shards now 32 t.shards in
    let live = enliven (combos sums) t.live in
    let to_publish = combos sums ++ retired live (combos sums) in
    (
      record t { live = kept live (combos sums) },
      to_publish,
      push_all (λ ck bucket. level ck bucket sums) to_publish,
    )
