-- ===== src/Emit/InFlight/Tracked.antt =====
-- `Track` against the map from messages to items that the shards stand for.
use shortfall.Prelude.{
  ℕ, ◌+◌, ◌≡◌, refl, sym, ap, ◌∙◌, Bool, true, false, ◌&&◌, Option, none, some, arith, ltb, ◌==◌,
  if◌then◌else◌, Bytes, Bool-cases, inl, inr,
}
use shortfall.Prelude.Int.{ℤ, ltb_ℤ}
use shortfall.Prelude.Maps.{find}
use shortfall.Biz.Money.{Money}
use shortfall.Biz.Context.{Time}
use shortfall.Emit.InFlight.Store.{
  Key, Item, Shards, find_item, put_item, update, find-put_item, same_key, same_key_iff,
}
use shortfall.Emit.InFlight.Calls.{
  Tracker, enter, enter_with, pin, pin_with, track, shard_for, is_valid, reject, same_exponent,
}
use shortfall.Emit.InFlight.Bound.{tracked}

-- The item that a call leaves: the money of the call, and the older of the two times; a new item enters
-- only below the bound.
unfoldable pub after : Money → Time → Tracker → Option Item → Option Item
after m at t none =
    if ltb t.max_items (t.item_count + 1)
    then none
    else some (record { money = m; enqueued_at = at })
after m at t (some prev) =
    some (record {
      money = m;
      enqueued_at = if ltb_ℤ prev.enqueued_at at then prev.enqueued_at else at;
    })

-- The money is valid, and its currency has no pinned exponent or this one.
abbrev agrees : Option ℤ → ℤ → Bool
agrees none e = true
agrees (some pinned) e = same_exponent pinned e

unfoldable pub accepts : Money → Tracker → Bool
accepts m t = is_valid m && agrees (find m.currency t.exponents) m.exponent

-- a write to one shard, read back
find-update :
    (hash : Bytes → ℕ) (f : Shards) (k j : Key) (v : Item)
    → find_item j (
        update f
          (shard_for hash k.id)
          (put_item k v (f (shard_for hash k.id)))
          (shard_for hash j.id))
      ≡ (if same_key k j then some v else find_item j (f (shard_for hash j.id)))
unfolding update
find-update hash f k j v = elim (Bool-cases (shard_for hash k.id == shard_for hash j.id)) [
  | inl same ↦
      let e : shard_for hash k.id ≡ shard_for hash j.id = ground arith in
      rw (same, e) (find-put_item k j v (f (shard_for hash j.id)))
  | inr other ↦
      let ne : same_key k j ≡ false =
        ground (arith, same_key_iff k j, λ (e : k ≡ j). ap (λ (x : Key). shard_for hash x.id) e) in
      rw (other, ne)
]

if_same : {A : Type 0} (b : Bool) (x : A) → (if b then x else x) ≡ x
if_same true x = refl
if_same false x = refl

enter_with-tracked :
    (hash : Bytes → ℕ) (o : Option Item) (k j : Key) (m : Money) (at : Time) (t : Tracker)
    → tracked hash k t ≡ o
    → tracked hash j (enter_with o (shard_for hash k.id) k m at t)
      ≡ (if same_key k j then after m at t o else tracked hash j t)
unfolding enter_with after tracked
enter_with-tracked hash (some prev) k j m at t e = find-update hash t.shards k j _
enter_with-tracked hash none k j m at t e = elim (Bool-cases (ltb t.max_items (t.item_count + 1))) [
  | inr room ↦ rw room (find-update hash t.shards k j _)
  | inl full ↦ rw full (elim (Bool-cases (same_key k j)) [
    | inl same ↦
        let kj : k ≡ j = (same_key_iff k j).0 same in
        rw same (ap (λ (x : Key). find_item x (t.shards (shard_for hash x.id))) (sym kj) ∙ e)
    | inr other ↦ rw other
  ])
]

after-same :
    (m : Money) (at : Time) (t t' : Tracker) (o : Option Item)
    → t.max_items ≡ t'.max_items
    → t.item_count ≡ t'.item_count
    → after m at t o ≡ after m at t' o
unfolding after
after-same m at t t' none p q = rw (p, q)
after-same m at t t' (some prev) p q = refl

-- the pin leaves the items, the bound and the count alone, and answers whether the exponents agree
pin_with_lem :
    (o : Option ℤ) (m : Money) (t : Tracker)
    → ((pin_with o m t).0.shards ≡ t.shards)
      × (t.max_items ≡ (pin_with o m t).0.max_items)
      × (t.item_count ≡ (pin_with o m t).0.item_count)
      × ((pin_with o m t).1 ≡ agrees o m.exponent)
unfolding pin_with
pin_with_lem none m t = (refl, refl, refl, refl)
pin_with_lem (some e) m t = (refl, refl, refl, refl)

tracked-same :
    (hash : Bytes → ℕ) (j : Key) (t t' : Tracker)
    → t'.shards ≡ t.shards
    → tracked hash j t' ≡ tracked hash j t
unfolding tracked
tracked-same hash j t t' e = ap (λ (f : Shards). find_item j (f (shard_for hash j.id))) e

enter-tracked :
    (hash : Bytes → ℕ) (k j : Key) (m : Money) (at : Time) (t t' : Tracker)
    → t'.shards ≡ t.shards
    → t.max_items ≡ t'.max_items
    → t.item_count ≡ t'.item_count
    → tracked hash j (enter hash k m at t')
      ≡ (if same_key k j then after m at t (tracked hash k t) else tracked hash j t)
unfolding enter
enter-tracked hash k j m at t t' e p q =
    let step = enter_with-tracked hash (tracked hash k t') k j m at t' refl in
    rw
      (
        ← tracked-same hash j t t' e,
        ← tracked-same hash k t t' e,
        after-same m at t t' (tracked hash k t') p q,
      )
      (unfold tracked in step)

-- `Track` of a money that is accepted gives its message the money of the call and the older of the two
-- enqueue times, or enters a new message only below the bound; `Track` of a money that is not accepted
-- changes no message; and no call changes any other message.
pub track-tracked :
    (hash : Bytes → ℕ) (k j : Key) (m : Money) (at : Time) (t : Tracker)
    → tracked hash j (track hash k m at t)
      ≡ (if accepts m t && same_key k j then after m at t (tracked hash k t) else tracked hash j t)
unfolding track pin accepts
track-tracked hash k j m at t = elim (Bool-cases (is_valid m)) [
  | inr bad ↦ rw bad (tracked-same hash j t (reject t) refl)
  | inl good ↦
      let (shards, bound, count, answer) = pin_with_lem (find m.currency t.exponents) m t in
      elim (Bool-cases (agrees (find m.currency t.exponents) m.exponent)) [
        | inl fits ↦ rw (good, answer, fits) (enter-tracked hash k j m at t _ shards bound count)
        | inr flaps ↦ rw (good, answer, flaps) (tracked-same hash j t _ shards)
      ]
]
