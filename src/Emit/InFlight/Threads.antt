-- ===== src/Emit/InFlight/Threads.antt =====
-- emit/inflight.go: the tracker's calls as threads that interleave. A step of a thread is one access to
-- what the threads share: a mutex, a shard's map under its mutex, an atomic counter, the exponents' map.
pub mod Locks
pub mod Exclusion
pub mod Account
pub mod Steps
pub mod Invariant
pub mod Rank
pub mod Progress
pub mod Safety
pub mod Schedule
mod Tests
use shortfall.Prelude.{
  ℕ, zero, suc, ◌+◌, ◌-◌, Bool, true, false, not, ◌&&◌, ◌||◌, Option, none, some, List, [], ltb,
  leb, ◌==◌, if◌then◌else◌, Bytes, ◌<◌, ◌≡◌,
}
use shortfall.Prelude.Int.{ℤ, ltb_ℤ}
use shortfall.Prelude.Maps.{find, put}
use shortfall.Biz.Money.{Money}
use shortfall.Biz.Context.{Time}
use shortfall.Emit.InFlight.Store.{Key, Item, Shards, find_item, put_item, erase_item, update}
use shortfall.Emit.InFlight.Calls.{Tracker, new_tracker, is_valid, same_exponent, reject, shard_for}

-- the mutexes of the shards, by their index, and behind them `publishMu`
abbrev pub publish_mutex : ℕ
publish_mutex = 32

pub record Memory : Type 0 where
  pub tracker : Tracker
  pub locks : ℕ → Bool

-- the arguments of a `Track`
pub record Arrival : Type 0 where
  pub key : Key
  pub money : Money
  pub at : Time

-- Where a thread stands, with the local variables that are live there.
pub data Pc : Type 0 where
  idle : Pc
  tracking : Arrival → Pc  -- start of `Track`
  pinning : Arrival → Pc  -- before `LoadOrStore`
  locking : Arrival → Pc  -- before `sh.mu.Lock` in `Track`
  entered : Arrival → Pc  -- behind it
  reserved : Arrival → Pc  -- before the insert
  over_reserved : ℕ → Pc  -- before the roll back
  overflowing : ℕ → Pc  -- before `overflow.Add`
  leaving : ℕ → Pc  -- before the unlock of a shard
  finishing : Key → Pc  -- before `sh.mu.Lock` in `Done`
  deleting : Key → Pc  -- behind it
  erased : ℕ → Pc  -- before `itemCount.Add(-1)`
  publishing : Pc  -- start of `Publish`
  gathering : ℕ → Pc  -- before the lock of a shard
  reading : ℕ → Shards → Pc  -- before the read of a shard, with those read
  freeing : ℕ → Shards → Pc  -- before the unlock of a shard
  emitting : Shards → Pc  -- before the unlock of `publishMu`

unfoldable pub set_lock : (ℕ → Bool) → ℕ → Bool → ℕ → Bool
set_lock locks a b s = if a == s then b else locks s

-- a `Lock` waits where the mutex is taken
abbrev pub acquire : ℕ → Memory → Pc → Option (Memory × Pc)
acquire a m p = if m.locks a then none else some (record m { locks = set_lock m.locks a true }, p)

abbrev pub release : ℕ → Memory → Pc → Option (Memory × Pc)
release a m p = some (record m { locks = set_lock m.locks a false }, p)

abbrev pub with_shard : ℕ → List (Key × Item) → Tracker → Tracker
with_shard s items t = record t { shards = update t.shards s items }

abbrev pub older : Time → Item → Time
older at prev = if ltb_ℤ prev.enqueued_at at then prev.enqueued_at else at

-- the test of a pinned exponent
abbrev pub checked : ℤ → Arrival → Memory → Memory × Pc
checked pinned c m =
    if same_exponent pinned c.money.exponent
    then (m, locking c)
    else (record m { tracker = reject m.tracker }, idle)

abbrev pub loaded : Option ℤ → Arrival → Memory → Memory × Pc
loaded none c m = (m, pinning c)
loaded (some pinned) c m = checked pinned c m

abbrev pub loaded_or_stored : Option ℤ → Arrival → Memory → Memory × Pc
loaded_or_stored none c m = (
  record m {
    tracker = record m.tracker {
      exponents = put c.money.currency c.money.exponent m.tracker.exponents;
    };
  },
  locking c,
)
loaded_or_stored (some pinned) c m = checked pinned c m

-- behind the lock: an item that is there is replaced; else a place is reserved
abbrev pub looked_up : Option Item → ℕ → Arrival → Memory → Memory × Pc
looked_up (some prev) s c m =
    let item : Item = record { money = c.money; enqueued_at = older c.at prev } in
    (
      record m { tracker = with_shard s (put_item c.key item (m.tracker.shards s)) m.tracker },
      leaving s,
    )
looked_up none s c m = (
  record m { tracker = record m.tracker { item_count = m.tracker.item_count + 1 } },
  if ltb m.tracker.max_items (m.tracker.item_count + 1) then over_reserved s else reserved c,
)

abbrev pub deleted : Option Item → ℕ → Key → Memory → Memory × Pc
deleted none s k m = (m, leaving s)
deleted (some _) s k m =
    (record m { tracker = with_shard s (erase_item k (m.tracker.shards s)) m.tracker }, erased s)

abbrev pub count_down : Memory → Memory
count_down m = record m { tracker = record m.tracker { item_count = m.tracker.item_count - 1 } }

module _ (hash : Bytes → ℕ) where
  abbrev pub shard_of : Key → ℕ
  shard_of k = shard_for hash k.id

  -- One step of a thread; `none` where it waits, or has no call.
  unfoldable pub step : Memory → Pc → Option (Memory × Pc)
  unfolding put_item erase_item find find_item update set_lock same_exponent put
  step m idle = none
  step m (tracking c) =
      if is_valid c.money
      then some (loaded (find c.money.currency m.tracker.exponents) c m)
      else some (record m { tracker = reject m.tracker }, idle)
  step m (pinning c) = some (loaded_or_stored (find c.money.currency m.tracker.exponents) c m)
  step m (locking c) = acquire (shard_of c.key) m (entered c)
  step m (entered c) =
      let s = shard_of c.key in some (looked_up (find_item c.key (m.tracker.shards s)) s c m)
  step m (reserved c) =
      let s = shard_of c.key in
      let item : Item = record { money = c.money; enqueued_at = c.at } in
      some (
        record m { tracker = with_shard s (put_item c.key item (m.tracker.shards s)) m.tracker },
        leaving s,
      )
  step m (over_reserved s) = some (count_down m, overflowing s)
  step m (overflowing s) =
      some
        (record m { tracker = record m.tracker { overflow = m.tracker.overflow + 1 } }, leaving s)
  step m (leaving s) = release s m idle
  step m (finishing k) = acquire (shard_of k) m (deleting k)
  step m (deleting k) =
      let s = shard_of k in some (deleted (find_item k (m.tracker.shards s)) s k m)
  step m (erased s) = some (count_down m, leaving s)
  step m publishing = acquire publish_mutex m (gathering 0)
  step m (gathering n) =
      if n == publish_mutex then some (m, reading 0 (λ _. [])) else acquire n m (gathering (suc n))
  step m (reading n read) =
      if n == publish_mutex
      then some (m, freeing 0 read)
      else some (m, reading (suc n) (update read n (m.tracker.shards n)))
  step m (freeing n read) =
      if n == publish_mutex then some (m, emitting read) else release n m (freeing (suc n) read)
  step m (emitting read) = release publish_mutex m idle

-- a call that begins
pub data Begins : Pc → Type 0 where
  track : (c : Arrival) → Begins (tracking c)
  finish : (k : Key) → Begins (finishing k)
  publish : Begins publishing

pub record System : Type 0 where
  pub memory : Memory
  pub pc : ℕ → Pc

abbrev pub set_pc : (ℕ → Pc) → ℕ → Pc → ℕ → Pc
set_pc pc i p j = if i == j then p else pc j

-- A step of one of `n` threads, in any order: a call begins, or a thread goes on.
pub data Step (hash : Bytes → ℕ) (n : ℕ) (x y : System) : Type 0 where
  begins :
      (i : ℕ) (p : Pc)
      → i < n
      → x.pc i ≡ idle
      → Begins p
      → y ≡ record { memory = x.memory; pc = set_pc x.pc i p }
      → Step hash n x y
  moves :
      (i : ℕ) (m : Memory) (p : Pc)
      → i < n
      → step hash x.memory (x.pc i) ≡ some (m, p)
      → y ≡ record { memory = m; pc = set_pc x.pc i p }
      → Step hash n x y

abbrev pub start : ℤ → System
start max_items = record {
  memory = record { tracker = new_tracker max_items; locks = λ _. false };
  pc = λ _. idle;
}

pub data Reach (hash : Bytes → ℕ) (n : ℕ) (max_items : ℤ) : System → Type 0 where
  here : Reach hash n max_items (start max_items)
  later : {x y : System} → Reach hash n max_items x → Step hash n x y → Reach hash n max_items y
