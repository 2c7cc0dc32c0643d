-- ===== src/Emit/InFlight/Threads/Safety.antt =====
-- The bound of the tracker and the snapshot of `Publish`, whatever the order of the threads' steps.
use shortfall.Prelude.{ℕ, ◌+◌, ◌≤◌, ◌<◌, ◌≡◌, subst, true, Bytes, arith}
use shortfall.Prelude.Int.{ℤ}
use shortfall.Emit.InFlight.Store.{Shards, total, Distinct}
use shortfall.Emit.InFlight.Threads.{Pc, System, Reach}
use shortfall.Emit.InFlight.Threads.Locks.{holds}
use shortfall.Emit.InFlight.Threads.Account.{pending, IsFresh}
use shortfall.Emit.InFlight.Threads.Invariant.{sum, Reach-IsSafe}

module _ (hash : Bytes → ℕ) (n : ℕ) (max_items : ℤ) where
  -- In every state that interleaved calls reach, the shards hold no more items than the bound, the counter
  -- is their number and the places that calls have still to fill or to give back, and no shard holds a key
  -- twice.
  pub Reach-bounded :
      {x : System}
      → Reach hash n max_items x
      → (total 32 x.memory.tracker.shards ≤ x.memory.tracker.max_items)
        × (x.memory.tracker.item_count ≡ total 32 x.memory.tracker.shards + sum pending n x.pc)
        × ((s : ℕ) → Distinct (x.memory.tracker.shards s))
  Reach-bounded r =
      let h = Reach-IsSafe hash n max_items r in (omega (arith, h.bounded), h.counted, h.distinct)

  -- No two calls are between the lock and the unlock of one mutex.
  pub Reach-exclusive :
      {x : System}
      → Reach hash n max_items x
      → (i j s : ℕ) → holds hash s (x.pc i) ≡ true
      → holds hash s (x.pc j) ≡ true
      → i ≡ j
  Reach-exclusive r = (Reach-IsSafe hash n max_items r).exclusive.unique

  -- When `Publish` has read all shards, one after the other while calls of `Track` and `Done` go on, what it
  -- has read is the state of all shards at this one moment.
  pub Reach-snapshot :
      {x : System} (i s : ℕ) (read : Shards)
      → Reach hash n max_items x
      → x.pc i ≡ Pc.reading 32 read
      → s < 32
      → read s ≡ x.memory.tracker.shards s
  Reach-snapshot {x} i s read r at lt =
      let h = Reach-IsSafe hash n max_items r in
      (subst (IsFresh hash x.memory.tracker.shards) at (h.fresh i)).1 s lt
