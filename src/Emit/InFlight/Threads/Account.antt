-- ===== src/Emit/InFlight/Threads/Account.antt =====
-- What a step does to the shards and to the item count, and what its thread then stands for.
use shortfall.Prelude.{
  ℕ, ◌+◌, ◌≤◌, ◌<◌, ◌≡◌, refl, sym, ap, ◌∙◌, subst, ◌⊎◌, true, false, Option, none, some, ltb, ◌==◌,
  Bytes, length, arith, Bool-cases, inl, inr,
}
use shortfall.Prelude.Int.{ℤ}
use shortfall.Emit.InFlight.Store.{
  Key, Item, Items, Shards, find_item, put_item, erase_item, update, total, Distinct,
  length-put_item, length-erase_item, total-update, put_item-Distinct, erase_item-Distinct,
}
use shortfall.Emit.InFlight.Bound.{update-Distinct}
use shortfall.Emit.InFlight.Calls.{same_exponent}
use shortfall.Emit.InFlight.Threads.{
  Memory, Arrival, Pc, loaded, loaded_or_stored, checked, looked_up, deleted, shard_of, with_shard,
  older,
}
use shortfall.Emit.InFlight.Threads.Locks.{holds}

-- a place that is in the counter but not in a shard: reserved, or not yet given back
abbrev pub pending : Pc → ℕ
pending (Pc.reserved _) = 1
pending (Pc.over_reserved _) = 1
pending (Pc.erased _) = 1
pending _ = 0

-- a place that will be filled
abbrev pub reserves : Pc → ℕ
reserves (Pc.reserved _) = 1
reserves _ = 0

module _ (hash : Bytes → ℕ) where
  -- What a thread's locals say of the shards: the key to insert is still new, and the shards read so far
  -- are as they were read.
  abbrev pub IsFresh : Shards → Pc → Type 0
  IsFresh f (Pc.reserved c) = find_item c.key (f (shard_of hash c.key)) ≡ none
  IsFresh f (Pc.gathering n) = n ≤ 32
  IsFresh f (Pc.reading n read) = (n ≤ 32) × ((s : ℕ) → s < n → read s ≡ f s)
  IsFresh f (Pc.freeing n read) = n ≤ 32
  IsFresh f _ = Unit

  pub data Write (p : Pc) (f f' : Shards) : Type 0 where
    unchanged : ((s : ℕ) → f' s ≡ f s) → Write p f f'
    wrote :
        (a : ℕ) → holds hash a p ≡ true → ((s : ℕ) → (a == s) ≡ false → f' s ≡ f s) → Write p f f'

  -- of a step from `m` and `p` to `m'` and `p'`
  pub record Account (m : Memory) (p : Pc) (y : Memory × Pc) : Type 0 where
    pub write : Write p m.tracker.shards y.0.tracker.shards
    pub balance :
        total 32 y.0.tracker.shards + pending y.1 + m.tracker.item_count
        ≡ total 32 m.tracker.shards + pending p + y.0.tracker.item_count
    pub budget :
        (total 32 y.0.tracker.shards + reserves y.1 ≤ total 32 m.tracker.shards + reserves p)
        ⊎ ((total 32 y.0.tracker.shards + reserves y.1 ≤ total 32 m.tracker.shards + 1)
            × (pending p ≡ 0)
            × (m.tracker.item_count + 1 ≤ m.tracker.max_items))
    pub limit : y.0.tracker.max_items ≡ m.tracker.max_items
    pub distinct : (s : ℕ) → Distinct (y.0.tracker.shards s)
    pub fresh : IsFresh y.0.tracker.shards y.1

  -- a step that leaves the shards and the count alone
  pub quiet :
      (m : Memory) (p : Pc) (y : Memory × Pc)
      → ((s : ℕ) → Distinct (m.tracker.shards s))
      → y.0.tracker.shards ≡ m.tracker.shards
      → y.0.tracker.item_count ≡ m.tracker.item_count
      → y.0.tracker.max_items ≡ m.tracker.max_items
      → pending p ≡ pending y.1
      → reserves p ≡ reserves y.1
      → IsFresh y.0.tracker.shards y.1
      → Account m p y
  quiet m p y d same count limit e e' fresh = record {
    write = Write.unchanged (λ s. ap (λ f. f s) same);
    balance = let t = ap (total 32) same in omega arith;
    budget = let t = ap (total 32) same in inl (omega arith);
    limit = limit;
    distinct = subst (λ f. (s : ℕ) → Distinct (f s)) (sym same) d;
    fresh = fresh;
  }

  checked-Account :
      (m : Memory) (p : Pc) (c : Arrival) (pinned : ℤ)
      → ((s : ℕ) → Distinct (m.tracker.shards s))
      → pending p ≡ 0
      → reserves p ≡ 0
      → Account m p (checked pinned c m)
  checked-Account m p c pinned d e e' = elim (Bool-cases (same_exponent pinned c.money.exponent)) [
    | inl same ↦ rw same (quiet m p (m, Pc.locking c) d refl refl refl e e' tt)
    | inr other ↦ rw other (quiet m p (_, Pc.idle) d refl refl refl e e' tt)
  ]

  pub loaded-Account :
      (m : Memory) (c : Arrival) (o : Option ℤ)
      → ((s : ℕ) → Distinct (m.tracker.shards s))
      → Account m (Pc.tracking c) (loaded o c m)
  loaded-Account m c none d =
      quiet m (Pc.tracking c) (m, Pc.pinning c) d refl refl refl refl refl tt
  loaded-Account m c (some pinned) d = checked-Account m (Pc.tracking c) c pinned d refl refl

  pub stored-Account :
      (m : Memory) (c : Arrival) (o : Option ℤ)
      → ((s : ℕ) → Distinct (m.tracker.shards s))
      → Account m (Pc.pinning c) (loaded_or_stored o c m)
  stored-Account m c none d = quiet m (Pc.pinning c) (_, Pc.locking c) d refl refl refl refl refl tt
  stored-Account m c (some pinned) d = checked-Account m (Pc.pinning c) c pinned d refl refl

  -- a step that puts other items into a shard that its thread holds
  pub written :
      (m : Memory) (p q : Pc) (a : ℕ) (items : Items)
      → a < 32
      → holds hash a p ≡ true
      → ((s : ℕ) → Distinct (m.tracker.shards s))
      → Distinct items
      → length items + pending q ≡ length (m.tracker.shards a) + pending p
      → length items + reserves q ≤ length (m.tracker.shards a) + reserves p
      → IsFresh (update m.tracker.shards a items) q
      → Account m p (record m { tracker = with_shard a items m.tracker }, q)
  written m p q a items lt held d d' balance budget fresh =
      let t = total-update 32 m.tracker.shards a items lt in
      record {
        write = Write.wrote a held (λ s other. unfold update in rw other);
        balance = omega arith;
        budget = inl (omega arith);
        limit = refl;
        distinct = update-Distinct m.tracker.shards a items d' d;
        fresh = fresh;
      }

  pub looked_up-Account :
      (m : Memory) (c : Arrival) (o : Option Item)
      → ((s : ℕ) → Distinct (m.tracker.shards s))
      → find_item c.key (m.tracker.shards (shard_of hash c.key)) ≡ o
      → Account m (Pc.entered c) (looked_up o (shard_of hash c.key) c m)
  looked_up-Account m c (some prev) d found =
      let s = shard_of hash c.key in
      let item : Item = record { money = c.money; enqueued_at = older c.at prev } in
      let len = length-put_item c.key item (m.tracker.shards s) in
      let len' : length (put_item c.key item (m.tracker.shards s)) ≡ length (m.tracker.shards s) =
        rw found at len ∙ omega arith in
      written m (Pc.entered c) (Pc.leaving s) s (put_item c.key item (m.tracker.shards s))
        (omega arith) (ground arith) d (put_item-Distinct c.key item (m.tracker.shards s) (d s))
        (omega arith) (omega arith) tt
  looked_up-Account m c none d found =
      elim (Bool-cases (ltb m.tracker.max_items (m.tracker.item_count + 1))) [
        | inl full ↦ rw full (record {
          write = Write.unchanged (λ s. refl);
          balance = omega arith;
          budget = inl (omega arith);
          limit = refl;
          distinct = d;
          fresh = tt;
        })
        | inr room ↦ rw room (record {
          write = Write.unchanged (λ s. refl);
          balance = omega arith;
          budget = inr (omega arith, refl, ground arith);
          limit = refl;
          distinct = d;
          fresh = found;
        })
      ]

  pub deleted-Account :
      (m : Memory) (k : Key) (o : Option Item)
      → ((s : ℕ) → Distinct (m.tracker.shards s))
      → find_item k (m.tracker.shards (shard_of hash k)) ≡ o
      → Account m (Pc.deleting k) (deleted o (shard_of hash k) k m)
  deleted-Account m k none d found =
      quiet m (Pc.deleting k) (m, Pc.leaving (shard_of hash k)) d refl refl refl refl refl tt
  deleted-Account m k (some prev) d found =
      let s = shard_of hash k in
      let len = length-erase_item k (m.tracker.shards s) in
      let len' : length (erase_item k (m.tracker.shards s)) + 1 ≡ length (m.tracker.shards s) =
        rw found at len in
      written m (Pc.deleting k) (Pc.erased s) s (erase_item k (m.tracker.shards s)) (omega arith)
        (ground arith) d (erase_item-Distinct k (m.tracker.shards s) (d s)) (omega arith)
        (omega arith) tt
