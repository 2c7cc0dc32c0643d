-- ===== src/Emit/InFlight/Calls.antt =====
-- emit/inflight.go: the tracker's state, its age buckets, and the calls `Track` and `Done`. The hash that
-- picks a shard is the library's: it is the parameter `hash`. The counters are atomic int64s of calls and
-- items, held as numbers.
use shortfall.Prelude.{
  ℕ, zero, suc, ◌+◌, ◌-◌, ◌*◌, ◌%◌, Bool, true, false, not, ◌&&◌, Option, none, some, List, [], ◌∷◌,
  ltb, if◌then◌else◌, Bytes, codes, ok, err,
}
use shortfall.Prelude.Int.{ℤ, pos, ltb_ℤ}
use shortfall.Prelude.Maps.{Map, find, put}
use shortfall.Biz.Money.{Money, validate}
use shortfall.Biz.Context.{Time}
use shortfall.Emit.InFlight.Store.{Key, Item, Shards, find_item, put_item, erase_item, update}

-- `comboKey`
pub record Combo : Type 0 where
  pub flow : Bytes
  pub stage : Bytes
  pub currency : Bytes
  pub exponent : ℤ

-- the state of an `InFlightTracker` that its calls read and change
pub record Tracker : Type 0 where
  pub shards : Shards
  pub live : List Combo
  pub exponents : Map ℤ
  pub max_items : ℕ
  pub item_count : ℕ
  pub overflow : ℕ
  pub rejected : ℕ

abbrev pub default_max_items : ℕ
default_max_items = 1048576

-- `NewInFlightTracker` with `WithTrackerMaxItems(n)`
unfoldable pub new_tracker : ℤ → Tracker
new_tracker n = record {
  shards = λ _. [];
  live = [];
  exponents = [];
  max_items = elim n [ pos zero ↦ default_max_items | pos (suc k) ↦ suc k | _ ↦ default_max_items ];
  item_count = 0;
  overflow = 0;
  rejected = 0;
}

abbrev pub minute : ℤ
minute = pos 60000000000

abbrev minutes : ℕ → ℤ
minutes n = pos (n * 60000000000)

abbrev pub age_lt1m : Bytes
age_lt1m = codes "lt1m"

abbrev pub age_1m_to_5m : Bytes
age_1m_to_5m = codes "1m-5m"

abbrev pub age_5m_to_30m : Bytes
age_5m_to_30m = codes "5m-30m"

abbrev pub age_30m_to_2h : Bytes
age_30m_to_2h = codes "30m-2h"

abbrev pub age_gt2h : Bytes
age_gt2h = codes "gt2h"

abbrev pub age_buckets : List Bytes
age_buckets = age_lt1m ∷ age_1m_to_5m ∷ age_5m_to_30m ∷ age_30m_to_2h ∷ age_gt2h ∷ []

-- `AgeBucketFor(age)`
unfoldable pub age_bucket_for : ℤ → Bytes
age_bucket_for age =
    if ltb_ℤ age (minutes 1)
    then age_lt1m
    else if ltb_ℤ age (minutes 5)
    then age_1m_to_5m
    else if ltb_ℤ age (minutes 30)
    then age_5m_to_30m
    else if ltb_ℤ age (minutes 120)
    then age_30m_to_2h
    else age_gt2h

abbrev pub is_valid : Money → Bool
is_valid m = elim (validate m) [ ok _ ↦ true | err _ ↦ false ]

unfoldable pub same_exponent : ℤ → ℤ → Bool
same_exponent a b = not (ltb_ℤ a b) && not (ltb_ℤ b a)

-- the pin of the currency's exponent: the first sight stores it, any later one compares
unfoldable pub pin_with : Option ℤ → Money → Tracker → Tracker × Bool
pin_with none money t =
    (record t { exponents = put money.currency money.exponent t.exponents }, true)
pin_with (some pinned) money t = (t, same_exponent pinned money.exponent)

unfoldable pub pin : Money → Tracker → Tracker × Bool
unfolding pin_with
pin money t = pin_with (find money.currency t.exponents) money t

abbrev pub reject : Tracker → Tracker
reject t = record t { rejected = t.rejected + 1 }

-- what `Track` does in the shard of a key, once the money is accepted: an item that is there keeps
-- the older time; a new one is reserved, or rolled back beyond the bound
unfoldable pub enter_with : Option Item → ℕ → Key → Money → Time → Tracker → Tracker
enter_with (some prev) i k money at t =
    let at' = if ltb_ℤ prev.enqueued_at at then prev.enqueued_at else at in
    record t {
      shards =
          update t.shards i (put_item k (record { money = money; enqueued_at = at' }) (t.shards i));
    }
enter_with none i k money at t =
    if ltb t.max_items (t.item_count + 1)
    then record t { overflow = t.overflow + 1 }
    else record t {
      shards =
          update t.shards i (put_item k (record { money = money; enqueued_at = at }) (t.shards i));
      item_count = t.item_count + 1;
    }

unfoldable pub finish_with : Option Item → ℕ → Key → Tracker → Tracker
finish_with none i k t = t
finish_with (some _) i k t = record t {
  shards = update t.shards i (erase_item k (t.shards i));
  item_count = t.item_count - 1;
}

module _ (hash : Bytes → ℕ) where
  -- `shardFor(id)`: the mask of 32 shards
  abbrev pub shard_for : Bytes → ℕ
  shard_for id = hash id % 32

  unfoldable pub enter : Key → Money → Time → Tracker → Tracker
  unfolding enter_with
  enter k money at t =
      let i = shard_for k.id in enter_with (find_item k (t.shards i)) i k money at t

  -- `Track(flow, stage, id, money, enqueuedAt)`
  unfoldable pub track : Key → Money → Time → Tracker → Tracker
  track k money at t =
      if not (is_valid money)
      then reject t
      else let (t', fits) = pin money t in if fits then enter k money at t' else reject t'

  -- `Done(flow, stage, id)`
  unfoldable pub finish : Key → Tracker → Tracker
  unfolding finish_with
  finish k t = let i = shard_for k.id in finish_with (find_item k (t.shards i)) i k t
