-- ===== src/Emit/InFlight/Threads/Progress.antt =====
-- The tracker's calls do not deadlock, and each comes to its end.
use shortfall.Prelude.{
  ℕ, zero, suc, ◌+◌, ◌≤◌, ◌<◌, ◌≡◌, refl, sym, ap, ◌∙◌, subst, some-injective, true, false, ◌||◌,
  Option, none, some, ltb, ◌==◌, ==_iff, if◌then◌else◌, Bytes, arith, Bool-cases, Option-cases, inl,
  inr, ◌⊎◌,
}
use shortfall.Prelude.Int.{ℤ}
use shortfall.Emit.InFlight.Calls.{is_valid}
use shortfall.Emit.InFlight.Threads.{
  Memory, Pc, System, Step, Reach, set_pc, step, shard_of, acquire,
}
use shortfall.Emit.InFlight.Threads.Locks.{holds}
use shortfall.Emit.InFlight.Threads.Rank.{rank, step-rank}
use shortfall.Emit.InFlight.Threads.Invariant.{
  sum, sum-set_pc, IsSafe, Reach-IsSafe, Step-IsSafe, fresh-in_range,
}

module _ (hash : Bytes → ℕ) where
  -- the mutex that a thread is before the lock of
  abbrev waits : Pc → Option ℕ
  waits (Pc.locking c) = some (shard_of hash c.key)
  waits (Pc.finishing k) = some (shard_of hash k)
  waits Pc.publishing = some 32
  waits (Pc.gathering n) = if n == 32 then none else some n
  waits _ = none

  acquire-taken : (a : ℕ) (m : Memory) (q : Pc) → acquire a m q ≡ none → m.locks a ≡ true
  acquire-taken a m q h = elim (Bool-cases (m.locks a)) [
    | inl taken ↦ taken
    | inr free ↦ let h' = rw free at h in cc
  ]

  -- a thread that cannot go on has no call, or waits for a mutex that is taken
  abbrev IsBlocked : Memory → Pc → Type 0
  IsBlocked m p = (p ≡ Pc.idle) ⊎ ((a : ℕ) × (waits p ≡ some a) × (m.locks a ≡ true))

  step-IsBlocked : (m : Memory) (p : Pc) → step hash m p ≡ none → IsBlocked m p
  unfolding step
  step-IsBlocked m Pc.idle h = inl refl
  step-IsBlocked m (Pc.tracking c) h = elim (Bool-cases (is_valid c.money)) [
    | inl good ↦ let h' = rw good at h in cc
    | inr bad ↦ let h' = rw bad at h in cc
  ]
  step-IsBlocked m (Pc.locking c) h =
      inr (shard_of hash c.key, refl, acquire-taken (shard_of hash c.key) m (Pc.entered c) h)
  step-IsBlocked m (Pc.finishing k) h =
      inr (shard_of hash k, refl, acquire-taken (shard_of hash k) m (Pc.deleting k) h)
  step-IsBlocked m Pc.publishing h = inr (32, refl, acquire-taken 32 m (Pc.gathering 0) h)
  step-IsBlocked m (Pc.gathering n) h = elim (Bool-cases (n == 32)) [
    | inl all ↦ let h' = rw all at h in cc
    | inr more ↦
        let h' = rw more at h in inr (n, rw more refl, acquire-taken n m (Pc.gathering (suc n)) h')
  ]
  step-IsBlocked m (Pc.reading n read) h = elim (Bool-cases (n == 32)) [
    | inl all ↦ let h' = rw all at h in cc
    | inr more ↦ let h' = rw more at h in cc
  ]
  step-IsBlocked m (Pc.freeing n read) h = elim (Bool-cases (n == 32)) [
    | inl all ↦ let h' = rw all at h in cc
    | inr more ↦ let h' = rw more at h in cc
  ]
  step-IsBlocked m (Pc.pinning c) h = cc
  step-IsBlocked m (Pc.entered c) h = cc
  step-IsBlocked m (Pc.reserved c) h = cc
  step-IsBlocked m (Pc.over_reserved a) h = cc
  step-IsBlocked m (Pc.overflowing a) h = cc
  step-IsBlocked m (Pc.leaving a) h = cc
  step-IsBlocked m (Pc.deleting k) h = cc
  step-IsBlocked m (Pc.erased a) h = cc
  step-IsBlocked m (Pc.emitting read) h = cc

  -- a thread that holds one mutex and waits for another publishes: it waits for a shard that it has not
  holds-waits :
      (p : Pc) (a b : ℕ)
      → holds hash a p ≡ true
      → waits p ≡ some b
      → (holds hash 32 p ≡ true) × (holds hash b p ≡ false)
  holds-waits (Pc.gathering n) a b h w = elim (Bool-cases (n == 32)) [
    | inl all ↦ let w' = rw all at w in cc
    | inr more ↦
        let w' = rw more at w in
        let e : n ≡ b = some-injective n b w' in
        (ground arith, subst (λ k. (ltb k n || k == 32) ≡ false) e (ground arith))
  ]
  holds-waits Pc.publishing a b h w = cc
  holds-waits (Pc.locking c) a b h w = cc
  holds-waits (Pc.finishing k) a b h w = cc
  holds-waits Pc.idle a b h w = cc
  holds-waits (Pc.tracking c) a b h w = cc
  holds-waits (Pc.pinning c) a b h w = cc
  holds-waits (Pc.entered c) a b h w = cc
  holds-waits (Pc.reserved c) a b h w = cc
  holds-waits (Pc.over_reserved s) a b h w = cc
  holds-waits (Pc.overflowing s) a b h w = cc
  holds-waits (Pc.leaving s) a b h w = cc
  holds-waits (Pc.deleting k) a b h w = cc
  holds-waits (Pc.erased s) a b h w = cc
  holds-waits (Pc.reading n read) a b h w = cc
  holds-waits (Pc.freeing n read) a b h w = cc
  holds-waits (Pc.emitting read) a b h w = cc

  idle-holds : (p : Pc) (a : ℕ) → p ≡ Pc.idle → holds hash a p ≡ false
  idle-holds p a e = ap (holds hash a) e

  module _ (n : ℕ) where
    -- some thread that can go on
    abbrev pub CanGo : System → Type 0
    CanGo x = (j : ℕ) × (y : Memory × Pc) × (j < n) × (step hash x.memory (x.pc j) ≡ some y)

    -- a holder goes on, unless it publishes and waits in turn
    holder-goes :
        (x : System) (j a : ℕ)
        → j < n
        → holds hash a (x.pc j) ≡ true
        → CanGo x
          ⊎ ((b : ℕ) × (x.memory.locks b ≡ true)
              × (holds hash 32 (x.pc j) ≡ true)
              × (holds hash b (x.pc j) ≡ false))
    holder-goes x j a lt held = elim (Option-cases (step hash x.memory (x.pc j))) [
      | inr (y, goes) ↦ inl (j, y, lt, goes)
      | inl stuck ↦ elim (step-IsBlocked x.memory (x.pc j) stuck) [
        | inl idle ↦ let free = idle-holds (x.pc j) a idle in cc
        | inr (b, waiting, taken) ↦
            let (publisher, lacks) = holds-waits (x.pc j) a b held waiting in
            inr (b, taken, publisher, lacks)
      ]
    ]

    -- a taken mutex has a thread behind it that can go on
    taken-goes : (x : System) (a : ℕ) → IsSafe hash n x → x.memory.locks a ≡ true → CanGo x
    taken-goes x a h taken =
        let (j, lt, held) = h.exclusive.covered a taken in
        elim (holder-goes x j a lt held) [
          | inl can ↦ can
          | inr (b, taken', publisher, lacks) ↦
              let (k, lt', held') = h.exclusive.covered b taken' in
              elim (holder-goes x k b lt' held') [
                | inl can ↦ can
                | inr (_, _, publisher', _) ↦
                    let e = h.exclusive.unique j k 32 publisher publisher' in
                    let held'' = subst (λ i. holds hash b (x.pc i) ≡ true) (sym e) held' in
                    absurd (ground arith)
              ]
        ]

    pub no_deadlock : (x : System) (i : ℕ) → i < n → IsSafe hash n x → (x.pc i ≡ Pc.idle) ⊎ CanGo x
    no_deadlock x i lt h = elim (Option-cases (step hash x.memory (x.pc i))) [
      | inr (y, goes) ↦ inr (i, y, lt, goes)
      | inl stuck ↦ elim (step-IsBlocked x.memory (x.pc i) stuck) [
        | inl idle ↦ inl idle
        | inr (a, _, taken) ↦ inr (taken-goes x a h taken)
      ]
    ]

    -- `k` steps of threads that have a call
    pub data Runs : ℕ → System → System → Type 0 where
      done : {x : System} → Runs 0 x x
      goes :
          {k : ℕ} {x z : System} (j : ℕ) (y : Memory × Pc)
          → j < n
          → step hash x.memory (x.pc j) ≡ some y
          → Runs k (record { memory = y.0; pc = set_pc x.pc j y.1 }) z
          → Runs (suc k) x z

    next-rank :
        (x : System) (j : ℕ) (y : Memory × Pc)
        → j < n
        → step hash x.memory (x.pc j) ≡ some y
        → IsSafe hash n x
        → suc (sum rank n (set_pc x.pc j y.1)) ≤ sum rank n x.pc
    next-rank x j y lt e h =
        let in_range = fresh-in_range hash n x.memory.tracker.shards (x.pc j) (h.fresh j) in
        let less = step-rank hash x.memory (x.pc j) y in_range e in
        let s = sum-set_pc rank n x.pc j y.1 lt in omega arith

    -- no run takes more steps than the ranks allow
    pub Runs-le :
        {k : ℕ} {x z : System}
        → IsSafe hash n x
        → Runs k x z
        → k + sum rank n z.pc ≤ sum rank n x.pc
    Runs-le h Runs.done = omega arith
    Runs-le {x = x} h (Runs.goes {k} {z = z} j y lt e r) =
        let next = Step-IsSafe hash n x _ (Step.moves j y.0 y.1 lt e refl) h in
        let ih = Runs-le next r in let less = next-rank x j y lt e h in omega arith

    abbrev pub AllIdle : ℕ → System → Type 0
    AllIdle k x = (i : ℕ) → i < k → x.pc i ≡ Pc.idle

    idle_or_goes : (k : ℕ) (x : System) → k ≤ n → IsSafe hash n x → AllIdle k x ⊎ CanGo x
    idle_or_goes zero x le h = inl (λ i lt. absurd (omega arith))
    idle_or_goes (suc k) x le h = elim (idle_or_goes k x (omega arith) h) [
      | inr can ↦ inr can
      | inl idle ↦ elim (no_deadlock x k (omega arith) h) [
        | inr can ↦ inr can
        | inl last ↦ inl (λ i lt. elim (Bool-cases (i == k)) [
          | inl it ↦ ap x.pc ((==_iff i k).0 it) ∙ last
          | inr other ↦ idle i (ground arith)
        ])
      ]
    ]

    -- the calls that have begun can all come to their end
    pub Finishes : System → Type 0
    Finishes x = (k : ℕ) × (z : System) × Runs k x z × AllIdle n z × (k ≤ sum rank n x.pc)

    Finishes-rank : (fuel : ℕ) (x : System) → sum rank n x.pc ≤ fuel → IsSafe hash n x → Finishes x
    unfolding Finishes
    Finishes-rank zero x le h = elim (idle_or_goes n x (omega arith) h) [
      | inl idle ↦ (0, x, Runs.done, idle, omega arith)
      | inr can ↦
          let (j, y, lt, e) = can in let less = next-rank x j y lt e h in absurd (omega arith)
    ]
    Finishes-rank (suc fuel) x le h = elim (idle_or_goes n x (omega arith) h) [
      | inl idle ↦ (0, x, Runs.done, idle, omega arith)
      | inr can ↦
          let (j, y, lt, e) = can in
          let less = next-rank x j y lt e h in
          let next : System = record { memory = y.0; pc = set_pc x.pc j y.1 } in
          let (k, z, r, idle, few) =
            Finishes-rank fuel next (omega arith)
              (Step-IsSafe hash n x next (Step.moves j y.0 y.1 lt e refl) h) in
          (suc k, z, Runs.goes j y lt e r, idle, omega arith)
    ]

    -- From every state that the calls reach, in any order of their steps, they do not deadlock: some
    -- order of further steps, with no new call, brings all of them to their end, within the sum of the
    -- ranks.
    pub Reach-Finishes : (max_items : ℤ) {x : System} → Reach hash n max_items x → Finishes x
    Reach-Finishes max_items {x} r =
        Finishes-rank (sum rank n x.pc) x (omega arith) (Reach-IsSafe hash n max_items r)
