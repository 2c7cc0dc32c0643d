-- ===== src/Emit/InFlight/Publish/Levels.antt =====
-- What `Publish` pushes and which combos stay live, against the items themselves.
use shortfall.Prelude.{
  ℕ, zero, suc, Bool, false, ◌&&◌, ◌||◌, none, [], ◌∷◌, if◌then◌else◌, Bytes, ◌=?◌,
}
use shortfall.Biz.Context.{Time}
use shortfall.Emit.InFlight.Store.{Key, Item, Items, Shards}
use shortfall.Emit.InFlight.Calls.{Combo}
use shortfall.Emit.InFlight.Publish.{BucketAgg, same_combo, combo_of, bucket_of, or_zero, plus}

-- Whether an item belongs to a combo and an age bucket.
abbrev pub belongs : Time → Combo → Bytes → Key → Item → Bool
belongs now c b k item = same_combo (combo_of k item) c && bucket_of now item =? b

-- The amounts, as int64 adds them, and the number of the items of the first `n` shards that belong to a
-- combo and a bucket, read from the items alone.
unfoldable pub held_items : Time → Combo → Bytes → Items → BucketAgg → BucketAgg
held_items now c b [] a = a
held_items now c b ((k, item) ∷ items) a =
    held_items now c b items (if belongs now c b k item then plus item.money.amount a else a)

unfoldable pub held : Time → Combo → Bytes → ℕ → Shards → BucketAgg
unfolding held_items
held now c b zero f = or_zero none
held now c b (suc n) f = held_items now c b (f n) (held now c b n f)

-- Some item of the first `n` shards is of the combo.
unfoldable pub occurs_in : Combo → Items → Bool
occurs_in c [] = false
occurs_in c ((k, item) ∷ items) = same_combo (combo_of k item) c || occurs_in c items

unfoldable pub occurs : Combo → ℕ → Shards → Bool
unfolding occurs_in
occurs c zero f = false
occurs c (suc n) f = occurs_in c (f n) || occurs c n f
