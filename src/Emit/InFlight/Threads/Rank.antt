-- ===== src/Emit/InFlight/Threads/Rank.antt =====
-- How many steps a call of the tracker has still to take.
use shortfall.Prelude.{
  ℕ, suc, ◌+◌, ◌-◌, ◌<◌, ◌≡◌, subst, some-injective, Option, none, some, ltb, ◌==◌, Bytes, arith,
  Bool-cases, inl, inr,
}
use shortfall.Prelude.Int.{ℤ}
use shortfall.Prelude.Maps.{find}
use shortfall.Emit.InFlight.Store.{find_item, Item}
use shortfall.Emit.InFlight.Calls.{is_valid, same_exponent}
use shortfall.Emit.InFlight.Threads.{
  Memory, Arrival, Pc, step, shard_of, acquire, checked, loaded, loaded_or_stored, looked_up,
}
use shortfall.Emit.InFlight.Threads.Locks.{InRange}

-- the steps that a call has still to take, at most
abbrev pub rank : Pc → ℕ
rank Pc.idle = 0
rank (Pc.leaving _) = 1
rank (Pc.overflowing _) = 2
rank (Pc.over_reserved _) = 3
rank (Pc.reserved _) = 2
rank (Pc.entered _) = 4
rank (Pc.locking _) = 5
rank (Pc.pinning _) = 6
rank (Pc.tracking _) = 7
rank (Pc.erased _) = 2
rank (Pc.deleting _) = 3
rank (Pc.finishing _) = 4
rank (Pc.emitting _) = 1
rank (Pc.freeing n _) = 2 + (32 - n)
rank (Pc.reading n _) = 40 + (32 - n)
rank (Pc.gathering n) = 80 + (32 - n)
rank Pc.publishing = 113

module _ (hash : Bytes → ℕ) where
  outcome : (p : Pc) (x y : Memory × Pc) → some x ≡ some y → rank x.1 < rank p → rank y.1 < rank p
  outcome p x y h lt = subst (λ z. rank z.1 < rank p) (some-injective x y h) lt

  acquire-rank :
      (a : ℕ) (m : Memory) (p q : Pc) (y : Memory × Pc)
      → rank q < rank p
      → acquire a m q ≡ some y
      → rank y.1 < rank p
  acquire-rank a m p q y lt h = elim (Bool-cases (m.locks a)) [
    | inl taken ↦ let h' = rw taken at h in cc
    | inr free ↦ let h' = rw free at h in outcome p _ y h' lt
  ]

  checked-rank : (m : Memory) (c : Arrival) (pinned : ℤ) → rank (checked pinned c m).1 < 6
  checked-rank m c pinned = elim (Bool-cases (same_exponent pinned c.money.exponent)) [
    | inl same ↦ rw same (omega arith)
    | inr other ↦ rw other (omega arith)
  ]

  loaded-rank : (m : Memory) (c : Arrival) (o : Option ℤ) → rank (loaded o c m).1 < 7
  loaded-rank m c none = omega arith
  loaded-rank m c (some pinned) = let lt = checked-rank m c pinned in omega arith

  stored-rank : (m : Memory) (c : Arrival) (o : Option ℤ) → rank (loaded_or_stored o c m).1 < 6
  stored-rank m c none = omega arith
  stored-rank m c (some pinned) = checked-rank m c pinned

  looked_up-rank :
      (m : Memory) (s : ℕ) (c : Arrival) (o : Option Item) → rank (looked_up o s c m).1 < 4
  looked_up-rank m s c (some prev) = omega arith
  looked_up-rank m s c none =
      elim (Bool-cases (ltb m.tracker.max_items (m.tracker.item_count + 1))) [
        | inl full ↦ rw full (omega arith)
        | inr room ↦ rw room (omega arith)
      ]

  -- every step brings a call nearer to its end
  pub step-rank :
      (m : Memory) (p : Pc) (y : Memory × Pc)
      → InRange hash p
      → step hash m p ≡ some y
      → rank y.1 < rank p
  unfolding step
  step-rank m Pc.idle y r h = cc
  step-rank m (Pc.tracking c) y r h = elim (Bool-cases (is_valid c.money)) [
    | inl good ↦
        let h' = rw good at h in
        outcome (Pc.tracking c) _ y h' (loaded-rank m c (find c.money.currency m.tracker.exponents))
    | inr bad ↦ let h' = rw bad at h in outcome (Pc.tracking c) _ y h' (omega arith)
  ]
  step-rank m (Pc.pinning c) y r h =
      outcome (Pc.pinning c) _ y h (stored-rank m c (find c.money.currency m.tracker.exponents))
  step-rank m (Pc.locking c) y r h =
      acquire-rank (shard_of hash c.key) m (Pc.locking c) (Pc.entered c) y (omega arith) h
  step-rank m (Pc.entered c) y r h =
      let s = shard_of hash c.key in
      outcome (Pc.entered c) _ y h (looked_up-rank m s c (find_item c.key (m.tracker.shards s)))
  step-rank m (Pc.reserved c) y r h = outcome (Pc.reserved c) _ y h (omega arith)
  step-rank m (Pc.over_reserved a) y r h = outcome (Pc.over_reserved a) _ y h (omega arith)
  step-rank m (Pc.overflowing a) y r h = outcome (Pc.overflowing a) _ y h (omega arith)
  step-rank m (Pc.leaving a) y r h = outcome (Pc.leaving a) _ y h (omega arith)
  step-rank m (Pc.finishing k) y r h =
      acquire-rank (shard_of hash k) m (Pc.finishing k) (Pc.deleting k) y (omega arith) h
  step-rank m (Pc.deleting k) y r h = outcome (Pc.deleting k) _ y h (ground arith)
  step-rank m (Pc.erased a) y r h = outcome (Pc.erased a) _ y h (omega arith)
  step-rank m Pc.publishing y r h =
      acquire-rank 32 m Pc.publishing (Pc.gathering 0) y (omega arith) h
  step-rank m (Pc.gathering n) y r h = elim (Bool-cases (n == 32)) [
    | inl all ↦ let h' = rw all at h in outcome (Pc.gathering n) _ y h' (omega arith)
    | inr more ↦
        let h' = rw more at h in
        acquire-rank n m (Pc.gathering n) (Pc.gathering (suc n)) y (ground arith) h'
  ]
  step-rank m (Pc.reading n read) y r h = elim (Bool-cases (n == 32)) [
    | inl all ↦ let h' = rw all at h in outcome (Pc.reading n read) _ y h' (omega arith)
    | inr more ↦ let h' = rw more at h in outcome (Pc.reading n read) _ y h' (ground arith)
  ]
  step-rank m (Pc.freeing n read) y r h = elim (Bool-cases (n == 32)) [
    | inl all ↦ let h' = rw all at h in outcome (Pc.freeing n read) _ y h' (omega arith)
    | inr more ↦ let h' = rw more at h in outcome (Pc.freeing n read) _ y h' (ground arith)
  ]
  step-rank m (Pc.emitting read) y r h = outcome (Pc.emitting read) _ y h (omega arith)
