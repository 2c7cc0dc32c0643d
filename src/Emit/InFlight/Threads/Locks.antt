-- ===== src/Emit/InFlight/Threads/Locks.antt =====
-- Who holds which mutex.
use shortfall.Prelude.{
  ℕ, suc, ◌+◌, ◌≤◌, ◌≡◌, refl, sym, subst, some-injective, Bool, true, false, not, ◌&&◌, ◌||◌,
  Option, none, some, ltb, leb, ◌==◌, Bytes, arith, Bool-cases, inl, inr,
}
use shortfall.Emit.InFlight.Store.{Key, Item, find_item}
use shortfall.Prelude.Int.{ℤ}
use shortfall.Emit.InFlight.Calls.{is_valid, same_exponent}
use shortfall.Prelude.Maps.{find}
use shortfall.Emit.InFlight.Threads.{
  Memory, Arrival, Pc, set_lock, loaded, loaded_or_stored, checked, looked_up, deleted, shard_of,
  step, acquire, release,
}

module _ (hash : Bytes → ℕ) where
  abbrev pub holds : ℕ → Pc → Bool
  holds s (Pc.entered c) = shard_of hash c.key == s
  holds s (Pc.reserved c) = shard_of hash c.key == s
  holds s (Pc.over_reserved a) = a == s
  holds s (Pc.overflowing a) = a == s
  holds s (Pc.leaving a) = a == s
  holds s (Pc.deleting k) = shard_of hash k == s
  holds s (Pc.erased a) = a == s
  holds s (Pc.gathering n) = ltb s n || s == 32
  holds s (Pc.reading n read) = leb s 32
  holds s (Pc.freeing n read) = (leb n s && ltb s 32) || s == 32
  holds s (Pc.emitting read) = s == 32
  holds s _ = false

-- What a step does to the mutexes, and to what its thread holds.
pub data Effect (before : ℕ → Bool) (p : ℕ → Bool) (after : ℕ → Bool) (p' : ℕ → Bool) : Type 0 where
  keeps : ((s : ℕ) → after s ≡ before s) → ((s : ℕ) → p' s ≡ p s) → Effect before p after p'
  takes :
      (a : ℕ)
      → before a ≡ false
      → ((s : ℕ) → after s ≡ set_lock before a true s)
      → ((s : ℕ) → p' s ≡ (a == s || p s))
      → Effect before p after p'
  frees :
      (a : ℕ)
      → p a ≡ true
      → ((s : ℕ) → after s ≡ set_lock before a false s)
      → ((s : ℕ) → p' s ≡ (not (a == s) && p s))
      → Effect before p after p'

module _ (hash : Bytes → ℕ) where
  -- what a thread's locals are bounded by
  abbrev pub InRange : Pc → Type 0
  InRange (Pc.gathering n) = n ≤ 32
  InRange (Pc.reading n read) = n ≤ 32
  InRange (Pc.freeing n read) = n ≤ 32
  InRange _ = Unit

  abbrev EffectOf : Memory → Pc → Memory × Pc → Type 0
  EffectOf m p (m', p') = Effect m.locks (λ s. holds hash s p) m'.locks (λ s. holds hash s p')

  outcome :
      (m : Memory) (p : Pc) (x y : Memory × Pc) → some x ≡ some y → EffectOf m p x → EffectOf m p y
  outcome m p x y h e = subst (EffectOf m p) (some-injective x y h) e

  checked-Effect :
      (m : Memory) (p : Pc) (c : Arrival) (pinned : ℤ)
      → ((s : ℕ) → holds hash s p ≡ false)
      → EffectOf m p (checked pinned c m)
  checked-Effect m p c pinned free = elim (Bool-cases (same_exponent pinned c.money.exponent)) [
    | inl same ↦ rw same (Effect.keeps (λ s. refl) (λ s. sym (free s)))
    | inr other ↦ rw other (Effect.keeps (λ s. refl) (λ s. sym (free s)))
  ]

  loaded-Effect :
      (m : Memory) (p : Pc) (c : Arrival) (o : Option ℤ)
      → ((s : ℕ) → holds hash s p ≡ false)
      → EffectOf m p (loaded o c m)
  loaded-Effect m p c none free = Effect.keeps (λ s. refl) (λ s. sym (free s))
  loaded-Effect m p c (some pinned) free = checked-Effect m p c pinned free

  stored-Effect :
      (m : Memory) (p : Pc) (c : Arrival) (o : Option ℤ)
      → ((s : ℕ) → holds hash s p ≡ false)
      → EffectOf m p (loaded_or_stored o c m)
  stored-Effect m p c none free = Effect.keeps (λ s. refl) (λ s. sym (free s))
  stored-Effect m p c (some pinned) free = checked-Effect m p c pinned free

  looked_up-Effect :
      (m : Memory) (c : Arrival) (o : Option Item)
      → EffectOf m (Pc.entered c) (looked_up o (shard_of hash c.key) c m)
  looked_up-Effect m c (some prev) = Effect.keeps (λ s. refl) (λ s. refl)
  looked_up-Effect m c none =
      elim (Bool-cases (ltb m.tracker.max_items (m.tracker.item_count + 1))) [
        | inl full ↦ rw full (Effect.keeps (λ s. refl) (λ s. refl))
        | inr room ↦ rw room (Effect.keeps (λ s. refl) (λ s. refl))
      ]

  deleted-Effect :
      (m : Memory) (k : Key) (o : Option Item)
      → EffectOf m (Pc.deleting k) (deleted o (shard_of hash k) k m)
  deleted-Effect m k none = Effect.keeps (λ s. refl) (λ s. refl)
  deleted-Effect m k (some _) = Effect.keeps (λ s. refl) (λ s. refl)

  acquire-Effect :
      (a : ℕ) (m : Memory) (p q : Pc) (y : Memory × Pc)
      → ((s : ℕ) → holds hash s q ≡ (a == s || holds hash s p))
      → acquire a m q ≡ some y
      → EffectOf m p y
  acquire-Effect a m p q y more h = elim (Bool-cases (m.locks a)) [
    | inl taken ↦ let h' = rw taken at h in cc
    | inr free ↦ let h' = rw free at h in outcome m p _ y h' (Effect.takes a free (λ s. refl) more)
  ]

  release-Effect :
      (a : ℕ) (m : Memory) (p q : Pc) (y : Memory × Pc)
      → holds hash a p ≡ true
      → ((s : ℕ) → holds hash s q ≡ (not (a == s) && holds hash s p))
      → release a m q ≡ some y
      → EffectOf m p y
  release-Effect a m p q y held fewer h = outcome m p _ y h (Effect.frees a held (λ s. refl) fewer)

  pub step-Effect :
      (m : Memory) (p : Pc) (y : Memory × Pc) → InRange p → step hash m p ≡ some y → EffectOf m p y
  unfolding step
  step-Effect m Pc.idle y r h = cc
  step-Effect m (Pc.tracking c) y r h = elim (Bool-cases (is_valid c.money)) [
    | inl good ↦
        let h' = rw good at h in
        outcome m (Pc.tracking c) _ y h' (
          loaded-Effect m (Pc.tracking c) c (find c.money.currency m.tracker.exponents) (λ s. refl))
    | inr bad ↦
        let h' = rw bad at h in
        outcome m (Pc.tracking c) _ y h' (Effect.keeps (λ s. refl) (λ s. refl))
  ]
  step-Effect m (Pc.pinning c) y r h =
      outcome m (Pc.pinning c) _ y h
        (stored-Effect m (Pc.pinning c) c (find c.money.currency m.tracker.exponents) (λ s. refl))
  step-Effect m (Pc.locking c) y r h =
      acquire-Effect (shard_of hash c.key) m (Pc.locking c) (Pc.entered c) y (λ s. ground arith) h
  step-Effect m (Pc.entered c) y r h =
      outcome m (Pc.entered c) _ y h
        (looked_up-Effect m c (find_item c.key (m.tracker.shards (shard_of hash c.key))))
  step-Effect m (Pc.reserved c) y r h =
      outcome m (Pc.reserved c) _ y h (Effect.keeps (λ s. refl) (λ s. refl))
  step-Effect m (Pc.over_reserved a) y r h =
      outcome m (Pc.over_reserved a) _ y h (Effect.keeps (λ s. refl) (λ s. refl))
  step-Effect m (Pc.overflowing a) y r h =
      outcome m (Pc.overflowing a) _ y h (Effect.keeps (λ s. refl) (λ s. refl))
  step-Effect m (Pc.leaving a) y r h =
      release-Effect a m (Pc.leaving a) Pc.idle y (ground arith) (λ s. ground arith) h
  step-Effect m (Pc.finishing k) y r h =
      acquire-Effect (shard_of hash k) m (Pc.finishing k) (Pc.deleting k) y (λ s. ground arith) h
  step-Effect m (Pc.deleting k) y r h =
      outcome m (Pc.deleting k) _ y h
        (deleted-Effect m k (find_item k (m.tracker.shards (shard_of hash k))))
  step-Effect m (Pc.erased a) y r h =
      outcome m (Pc.erased a) _ y h (Effect.keeps (λ s. refl) (λ s. refl))
  step-Effect m Pc.publishing y r h =
      acquire-Effect 32 m Pc.publishing (Pc.gathering 0) y (λ s. ground arith) h
  step-Effect m (Pc.gathering n) y r h = elim (Bool-cases (n == 32)) [
    | inl all ↦
        let h' = rw all at h in
        outcome m (Pc.gathering n) _ y h' (Effect.keeps (λ s. refl) (λ s. ground arith))
    | inr more ↦
        let h' = rw more at h in
        acquire-Effect n m (Pc.gathering n) (Pc.gathering (suc n)) y (λ s. ground arith) h'
  ]
  step-Effect m (Pc.reading n read) y r h = elim (Bool-cases (n == 32)) [
    | inl all ↦
        let h' = rw all at h in
        outcome m (Pc.reading n read) _ y h' (Effect.keeps (λ s. refl) (λ s. ground arith))
    | inr more ↦
        let h' = rw more at h in
        outcome m (Pc.reading n read) _ y h' (Effect.keeps (λ s. refl) (λ s. refl))
  ]
  step-Effect m (Pc.freeing n read) y r h = elim (Bool-cases (n == 32)) [
    | inl all ↦
        let h' = rw all at h in
        outcome m (Pc.freeing n read) _ y h' (Effect.keeps (λ s. refl) (λ s. ground arith))
    | inr more ↦
        let h' = rw more at h in
        release-Effect n m (Pc.freeing n read) (Pc.freeing (suc n) read) y (ground arith)
          (λ s. ground arith) h'
  ]
  step-Effect m (Pc.emitting read) y r h =
      release-Effect 32 m (Pc.emitting read) Pc.idle y refl (λ s. ground arith) h
