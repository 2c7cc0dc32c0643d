-- ===== src/Emit/InFlight/Threads/Steps.antt =====
-- Every step of a thread keeps its account of the shards and the item count.
use shortfall.Prelude.{
  ℕ, suc, ◌+◌, ◌≤◌, ◌<◌, ◌≡◌, refl, ap, subst, some-injective, some, [], ◌==◌, ==_iff, Bytes,
  length, arith, Bool-cases, inl, inr,
}
use shortfall.Prelude.Maps.{find}
use shortfall.Emit.InFlight.Store.{
  Item, find_item, put_item, update, Distinct, length-put_item, put_item-Distinct,
}
use shortfall.Emit.InFlight.Calls.{is_valid}
use shortfall.Emit.InFlight.Threads.{Memory, Pc, shard_of, step, acquire, count_down}
use shortfall.Emit.InFlight.Threads.Account.{
  pending, reserves, IsFresh, Write, Account, quiet, loaded-Account, stored-Account, written,
  looked_up-Account, deleted-Account,
}

module _ (hash : Bytes → ℕ) where
  outcome :
      (m : Memory) (p : Pc) (x y : Memory × Pc)
      → some x ≡ some y
      → Account hash m p x
      → Account hash m p y
  outcome m p x y h e = subst (Account hash m p) (some-injective x y h) e

  acquire-Account :
      (a : ℕ) (m : Memory) (p q : Pc) (y : Memory × Pc)
      → ((s : ℕ) → Distinct (m.tracker.shards s))
      → pending p ≡ pending q
      → reserves p ≡ reserves q
      → IsFresh hash m.tracker.shards q
      → acquire a m q ≡ some y
      → Account hash m p y
  acquire-Account a m p q y d e e' fresh h = elim (Bool-cases (m.locks a)) [
    | inl taken ↦ let h' = rw taken at h in cc
    | inr free ↦
        let h' = rw free at h in
        outcome m p _ y h' (quiet hash m p (_, q) d refl refl refl e e' fresh)
  ]

  -- the counter goes down for a place that is given back
  count_down-Account :
      (m : Memory) (p q : Pc)
      → ((s : ℕ) → Distinct (m.tracker.shards s))
      → pending p ≡ 1
      → pending q ≡ 0
      → reserves p ≡ 0
      → reserves q ≡ 0
      → 1 ≤ m.tracker.item_count
      → IsFresh hash m.tracker.shards q
      → Account hash m p (count_down m, q)
  count_down-Account m p q d e e' r r' enough fresh = record {
    write = Write.unchanged (λ s. refl);
    balance = omega arith;
    budget = inl (omega arith);
    limit = refl;
    distinct = d;
    fresh = fresh;
  }

  pub step-Account :
      (m : Memory) (p : Pc) (y : Memory × Pc)
      → ((s : ℕ) → Distinct (m.tracker.shards s))
      → IsFresh hash m.tracker.shards p
      → pending p ≤ m.tracker.item_count
      → step hash m p ≡ some y
      → Account hash m p y
  unfolding step
  step-Account m Pc.idle y d r c h = cc
  step-Account m (Pc.tracking c) y d r k h = elim (Bool-cases (is_valid c.money)) [
    | inl good ↦
        let h' = rw good at h in
        outcome m (Pc.tracking c) _ y h'
          (loaded-Account hash m c (find c.money.currency m.tracker.exponents) d)
    | inr bad ↦
        let h' = rw bad at h in
        outcome m (Pc.tracking c) _ y h'
          (quiet hash m (Pc.tracking c) (_, Pc.idle) d refl refl refl refl refl tt)
  ]
  step-Account m (Pc.pinning c) y d r k h =
      outcome m (Pc.pinning c) _ y h
        (stored-Account hash m c (find c.money.currency m.tracker.exponents) d)
  step-Account m (Pc.locking c) y d r k h =
      acquire-Account (shard_of hash c.key) m (Pc.locking c) (Pc.entered c) y d refl refl tt h
  step-Account m (Pc.entered c) y d r k h =
      outcome m (Pc.entered c) _ y h (
        looked_up-Account hash m c (find_item c.key (m.tracker.shards (shard_of hash c.key))) d
          refl)
  step-Account m (Pc.reserved c) y d r k h =
      let s = shard_of hash c.key in
      let item : Item = record { money = c.money; enqueued_at = c.at } in
      let len = length-put_item c.key item (m.tracker.shards s) in
      let len' : length (put_item c.key item (m.tracker.shards s))
          ≡ length (m.tracker.shards s) + 1 =
        rw r at len in
      outcome m (Pc.reserved c) _ y h (
        written hash m (Pc.reserved c) (Pc.leaving s) s (put_item c.key item (m.tracker.shards s))
          (omega arith) (ground arith) d (put_item-Distinct c.key item (m.tracker.shards s) (d s))
          (omega arith) (omega arith) tt)
  step-Account m (Pc.over_reserved a) y d r k h =
      outcome m (Pc.over_reserved a) _ y h
        (count_down-Account m (Pc.over_reserved a) (Pc.overflowing a) d refl refl refl refl k tt)
  step-Account m (Pc.overflowing a) y d r k h =
      outcome m (Pc.overflowing a) _ y h
        (quiet hash m (Pc.overflowing a) (_, Pc.leaving a) d refl refl refl refl refl tt)
  step-Account m (Pc.leaving a) y d r k h =
      outcome m (Pc.leaving a) _ y h
        (quiet hash m (Pc.leaving a) (_, Pc.idle) d refl refl refl refl refl tt)
  step-Account m (Pc.finishing key) y d r k h =
      acquire-Account (shard_of hash key) m (Pc.finishing key) (Pc.deleting key) y d refl refl tt h
  step-Account m (Pc.deleting key) y d r k h =
      outcome m (Pc.deleting key) _ y h
        (deleted-Account hash m key (find_item key (m.tracker.shards (shard_of hash key))) d refl)
  step-Account m (Pc.erased a) y d r k h =
      outcome m (Pc.erased a) _ y h
        (count_down-Account m (Pc.erased a) (Pc.leaving a) d refl refl refl refl k tt)
  step-Account m Pc.publishing y d r k h =
      acquire-Account 32 m Pc.publishing (Pc.gathering 0) y d refl refl (omega arith) h
  step-Account m (Pc.gathering n) y d r k h = elim (Bool-cases (n == 32)) [
    | inl all ↦
        let h' = rw all at h in
        outcome m (Pc.gathering n) _ y h' (
          quiet hash m (Pc.gathering n) (m, Pc.reading 0 (λ _. [])) d refl refl refl refl refl
            (omega arith, λ s lt. absurd (omega arith)))
    | inr more ↦
        let h' = rw more at h in
        acquire-Account n m (Pc.gathering n) (Pc.gathering (suc n)) y d refl refl (ground arith) h'
  ]
  step-Account m (Pc.reading n read) y d (le, same) k h = elim (Bool-cases (n == 32)) [
    | inl all ↦
        let h' = rw all at h in
        outcome m (Pc.reading n read) _ y h' (
          quiet hash m (Pc.reading n read) (m, Pc.freeing 0 read) d refl refl refl refl refl
            (omega arith))
    | inr more ↦
        let h' = rw more at h in
        let next : (s : ℕ) → s < suc n → update read n (m.tracker.shards n) s ≡ m.tracker.shards s =
          λ s lt. elim (Bool-cases (n == s)) [
            | inl it ↦ let e = ap m.tracker.shards ((==_iff n s).0 it) in unfold update in rw it e
            | inr other ↦ unfold update in rw other (same s (ground arith))
          ] in
        outcome m (Pc.reading n read) _ y h' (
          quiet hash m (Pc.reading n read)
            (m, Pc.reading (suc n) (update read n (m.tracker.shards n))) d refl refl refl refl refl
            (ground arith, next))
  ]
  step-Account m (Pc.freeing n read) y d r k h = elim (Bool-cases (n == 32)) [
    | inl all ↦
        let h' = rw all at h in
        outcome m (Pc.freeing n read) _ y h'
          (quiet hash m (Pc.freeing n read) (m, Pc.emitting read) d refl refl refl refl refl tt)
    | inr more ↦
        let h' = rw more at h in
        outcome m (Pc.freeing n read) _ y h' (
          quiet hash m (Pc.freeing n read) (_, Pc.freeing (suc n) read) d refl refl refl refl refl
            (ground arith))
  ]
  step-Account m (Pc.emitting read) y d r k h =
      outcome m (Pc.emitting read) _ y h
        (quiet hash m (Pc.emitting read) (_, Pc.idle) d refl refl refl refl refl tt)
