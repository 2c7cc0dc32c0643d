-- ===== src/Emit/InFlight/Bound.antt =====
-- The tracker's counters are exact, its bound holds, and a message's age and its money are those of its
-- calls.
use shortfall.Prelude.{
  ℕ, ◌+◌, ◌-◌, ◌≤◌, ◌<◌, ◌≡◌, refl, ap, ◌∙◌, true, Option, none, some, arith, ltb, ◌==◌, Bytes,
  length, Bool-cases, inl, inr,
}
use shortfall.Prelude.Int.{ℤ}
use shortfall.Prelude.Maps.{find}
use shortfall.Biz.Money.{Money}
use shortfall.Biz.Context.{Time}
use shortfall.Emit.InFlight.Store.{
  Key, Item, Items, Shards, find_item, put_item, erase_item, update, total, Distinct,
  length-put_item, length-erase_item, total-update, put_item-Distinct, erase_item-Distinct,
  find-erase_item_self,
}
use shortfall.Emit.InFlight.Calls.{
  Tracker, enter, pin, track, finish, shard_for, is_valid, reject, enter_with, finish_with,
  pin_with,
}

-- The item count is the number of items in all shards, it is within the bound, and no shard holds a
-- key twice.
pub record IsExact (t : Tracker) : Type 0 where
  pub counted : t.item_count ≡ total 32 t.shards
  pub bounded : t.item_count ≤ t.max_items
  pub distinct : (i : ℕ) → Distinct (t.shards i)

pub update-Distinct :
    (f : Shards) (i : ℕ) (m : Items)
    → Distinct m
    → ((j : ℕ) → Distinct (f j))
    → (j : ℕ) → Distinct (update f i m j)
unfolding update
update-Distinct f i m h all j = elim (Bool-cases (i == j)) [
  | inl same ↦ rw same h
  | inr other ↦ rw other (all j)
]

-- an item replaced, added or deleted in a shard
replace-IsExact :
    (k : Key) (v : Item) (i : ℕ) (t : Tracker) {prev : Item}
    → i < 32
    → find_item k (t.shards i) ≡ some prev
    → IsExact t
    → IsExact (record t { shards = update t.shards i (put_item k v (t.shards i)) })
replace-IsExact k v i t lt old h =
    let len = length-put_item k v (t.shards i) in
    let same : length (put_item k v (t.shards i)) ≡ length (t.shards i) =
      rw old at len ∙ omega arith in
    record {
      counted =
          omega (arith, total-update 32 t.shards i (put_item k v (t.shards i)) lt, same, h.counted);
      bounded = h.bounded;
      distinct = update-Distinct t.shards i _ (put_item-Distinct k v _ (h.distinct i)) h.distinct;
    }

add-IsExact :
    (k : Key) (v : Item) (i : ℕ) (t : Tracker)
    → i < 32
    → find_item k (t.shards i) ≡ none
    → t.item_count + 1 ≤ t.max_items
    → IsExact t
    → IsExact (record t {
      shards = update t.shards i (put_item k v (t.shards i));
      item_count = t.item_count + 1;
    })
add-IsExact k v i t lt new room h =
    let len = length-put_item k v (t.shards i) in
    let more : length (put_item k v (t.shards i)) ≡ length (t.shards i) + 1 = rw new at len in
    record {
      counted =
          omega (arith, total-update 32 t.shards i (put_item k v (t.shards i)) lt, more, h.counted);
      bounded = room;
      distinct = update-Distinct t.shards i _ (put_item-Distinct k v _ (h.distinct i)) h.distinct;
    }

delete-IsExact :
    (k : Key) (i : ℕ) (t : Tracker) {prev : Item}
    → i < 32
    → find_item k (t.shards i) ≡ some prev
    → IsExact t
    → IsExact (record t {
      shards = update t.shards i (erase_item k (t.shards i));
      item_count = t.item_count - 1;
    })
delete-IsExact k i t lt old h =
    let len = length-erase_item k (t.shards i) in
    let less : length (erase_item k (t.shards i)) + 1 ≡ length (t.shards i) = rw old at len in
    record {
      counted =
          omega (arith, total-update 32 t.shards i (erase_item k (t.shards i)) lt, less, h.counted);
      bounded = omega (arith, h.bounded);
      distinct = update-Distinct t.shards i _ (erase_item-Distinct k _ (h.distinct i)) h.distinct;
    }

enter_with-IsExact :
    (o : Option Item) (i : ℕ) (k : Key) (m : Money) (at : Time) (t : Tracker)
    → i < 32
    → find_item k (t.shards i) ≡ o
    → IsExact t
    → IsExact (enter_with o i k m at t)
unfolding enter_with
enter_with-IsExact (some prev) i k m at t lt e h = replace-IsExact k _ i t lt e h
enter_with-IsExact none i k m at t lt e h = elim (Bool-cases (ltb t.max_items (t.item_count + 1))) [
  | inl full ↦ rw full (record { counted = h.counted; bounded = h.bounded; distinct = h.distinct })
  | inr room ↦ rw room (add-IsExact k _ i t lt e (ground arith) h)
]

finish_with-IsExact :
    (o : Option Item) (i : ℕ) (k : Key) (t : Tracker)
    → i < 32
    → find_item k (t.shards i) ≡ o
    → IsExact t
    → IsExact (finish_with o i k t)
unfolding finish_with
finish_with-IsExact none i k t lt e h = h
finish_with-IsExact (some prev) i k t lt e h = delete-IsExact k i t lt e h

pin_with-IsExact : (o : Option ℤ) (m : Money) (t : Tracker) → IsExact t → IsExact (pin_with o m t).0
unfolding pin_with
pin_with-IsExact none m t h = record {
  counted = h.counted;
  bounded = h.bounded;
  distinct = h.distinct;
}
pin_with-IsExact (some e) m t h = h

pin-IsExact : (m : Money) (t : Tracker) → IsExact t → IsExact (pin m t).0
unfolding pin
pin-IsExact m t h = pin_with-IsExact (find m.currency t.exponents) m t h

reject-IsExact : (t : Tracker) → IsExact t → IsExact (reject t)
reject-IsExact t h = record { counted = h.counted; bounded = h.bounded; distinct = h.distinct }

-- what a call leaves in its own shard
finish_with-untracks :
    (o : Option Item) (i : ℕ) (k : Key) (t : Tracker)
    → find_item k (t.shards i) ≡ o
    → IsExact t
    → find_item k ((finish_with o i k t).shards i) ≡ none
unfolding finish_with update
finish_with-untracks none i k t e h = e
finish_with-untracks (some prev) i k t e h =
    let self : (i == i) ≡ true = ground arith in
    rw self (find-erase_item_self k (t.shards i) (h.distinct i))

module _ (hash : Bytes → ℕ) where
  shard_lt : (id : Bytes) → shard_for hash id < 32
  shard_lt id = omega arith

  enter-IsExact :
      (k : Key) (m : Money) (at : Time) (t : Tracker) → IsExact t → IsExact (enter hash k m at t)
  unfolding enter
  enter-IsExact k m at t h = enter_with-IsExact _ _ k m at t (shard_lt k.id) refl h

  -- `Track` keeps the tracker exact: the counter stays the number of items, the bound holds whether the
  -- call is accepted, rejected or overflows, and no shard holds a key twice.
  pub track-IsExact :
      (k : Key) (m : Money) (at : Time) (t : Tracker) → IsExact t → IsExact (track hash k m at t)
  unfolding track
  track-IsExact k m at t h = elim (Bool-cases (is_valid m)) [
    | inr bad ↦ rw bad (reject-IsExact t h)
    | inl good ↦ elim (Bool-cases (pin m t).1) [
      | inl fits ↦ rw (good, fits) (enter-IsExact k m at _ (pin-IsExact m t h))
      | inr flaps ↦ rw (good, flaps) (reject-IsExact _ (pin-IsExact m t h))
    ]
  ]

  finish-IsExact : (k : Key) (t : Tracker) → IsExact t → IsExact (finish hash k t)
  unfolding finish
  finish-IsExact k t h = finish_with-IsExact _ _ k t (shard_lt k.id) refl h

  -- the item of a message
  unfoldable pub tracked : Key → Tracker → Option Item
  tracked k t = find_item k (t.shards (shard_for hash k.id))

  finish_unknown : (k : Key) (t : Tracker) → tracked k t ≡ none → finish hash k t ≡ t
  unfolding finish tracked
  finish_unknown k t e =
      ap (λ o. finish_with o (shard_for hash k.id) k t) e ∙ unfold finish_with in refl

  finish-untracks : (k : Key) (t : Tracker) → IsExact t → tracked k (finish hash k t) ≡ none
  unfolding finish tracked
  finish-untracks k t h = finish_with-untracks _ _ k t refl h

  -- `Done` of a message keeps the tracker exact; afterwards the message is not tracked, and a second
  -- `Done` of it changes nothing.
  pub finish_idem :
      (k : Key) (t : Tracker)
      → IsExact t
      → IsExact (finish hash k t)
        × (tracked k (finish hash k t) ≡ none)
        × (finish hash k (finish hash k t) ≡ finish hash k t)
  finish_idem k t h =
      let gone = finish-untracks k t h in
      (finish-IsExact k t h, gone, finish_unknown k (finish hash k t) gone)
