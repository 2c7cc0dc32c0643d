-- ===== src/Emit/InFlight/Threads/Invariant.antt =====
-- What holds of the tracker in every state that its threads reach.
use shortfall.Prelude.{
  ℕ, zero, suc, ◌+◌, ◌≤◌, ◌<◌, ◌≡◌, refl, sym, ap, ◌∙◌, subst, true, false, some, [], ◌==◌, ==_iff,
  Bytes, arith, Bool-cases, inl, inr,
}
use shortfall.Prelude.Int.{ℤ}
use shortfall.Emit.InFlight.Store.{Shards, find_item, total, Distinct}
use shortfall.Emit.InFlight.Calls.{new_tracker}
use shortfall.Emit.InFlight.Threads.{
  Memory, Pc, System, Step, Reach, Begins, start, set_pc, step, shard_of,
}
use shortfall.Emit.InFlight.Threads.Locks.{holds, Effect, InRange, step-Effect}
use shortfall.Emit.InFlight.Threads.Exclusion.{IsExclusive, step-IsExclusive}
use shortfall.Emit.InFlight.Threads.Account.{pending, reserves, IsFresh, Write}
use shortfall.Emit.InFlight.Threads.Steps.{step-Account}

-- a number of each thread, over the first `n` threads
unfoldable pub sum : (Pc → ℕ) → ℕ → (ℕ → Pc) → ℕ
sum f zero pc = 0
sum f (suc n) pc = sum f n pc + f (pc n)

sum-set_pc_above :
    (f : Pc → ℕ) (n : ℕ) (pc : ℕ → Pc) (i : ℕ) (p : Pc)
    → n ≤ i
    → sum f n (set_pc pc i p) ≡ sum f n pc
unfolding sum
sum-set_pc_above f zero pc i p h = refl
sum-set_pc_above f (suc n) pc i p h =
    let other : (i == n) ≡ false = ground arith in
    let ih = sum-set_pc_above f n pc i p (omega arith) in rw (other, ih)

pub sum-set_pc :
    (f : Pc → ℕ) (n : ℕ) (pc : ℕ → Pc) (i : ℕ) (p : Pc)
    → i < n
    → sum f n (set_pc pc i p) + f (pc i) ≡ sum f n pc + f p
unfolding sum
sum-set_pc f zero pc i p h = absurd (omega arith)
sum-set_pc f (suc n) pc i p h = elim (Bool-cases (i == n)) [
  | inl last ↦
      let e = ap (λ k. f (pc k)) ((==_iff i n).0 last) in
      let above = sum-set_pc_above f n pc i p (ground arith) in rw (last, above) (omega arith)
  | inr other ↦ let ih = sum-set_pc f n pc i p (ground arith) in rw other (omega arith)
]

pub sum-ge : (f : Pc → ℕ) (n : ℕ) (pc : ℕ → Pc) (i : ℕ) → i < n → f (pc i) ≤ sum f n pc
unfolding sum
sum-ge f zero pc i h = absurd (omega arith)
sum-ge f (suc n) pc i h = elim (Bool-cases (i == n)) [
  | inl last ↦ let e = ap (λ k. f (pc k)) ((==_iff i n).0 last) in omega arith
  | inr other ↦ let ih = sum-ge f n pc i (ground arith) in omega arith
]

reserves-le-pending : (p : Pc) → reserves p ≤ pending p
reserves-le-pending p = ground arith

sum-reserves-le : (n : ℕ) (pc : ℕ → Pc) → sum reserves n pc ≤ sum pending n pc
unfolding sum
sum-reserves-le zero pc = omega arith
sum-reserves-le (suc n) pc =
    let ih = sum-reserves-le n pc in let le = reserves-le-pending (pc n) in omega arith

module _ (hash : Bytes → ℕ) (n : ℕ) where
  pub record IsSafe (x : System) : Type 0 where
    pub exclusive : IsExclusive hash n x.memory.locks x.pc
    pub counted :
        x.memory.tracker.item_count ≡ total 32 x.memory.tracker.shards + sum pending n x.pc
    pub bounded :
        total 32 x.memory.tracker.shards + sum reserves n x.pc ≤ x.memory.tracker.max_items
    pub distinct : (s : ℕ) → Distinct (x.memory.tracker.shards s)
    pub fresh : (i : ℕ) → IsFresh hash x.memory.tracker.shards (x.pc i)

  pub fresh-in_range : (f : Shards) (p : Pc) → IsFresh hash f p → InRange hash p
  fresh-in_range f (Pc.gathering k) h = h
  fresh-in_range f (Pc.reading k read) h = h.0
  fresh-in_range f (Pc.freeing k read) h = h
  fresh-in_range f Pc.idle h = tt
  fresh-in_range f (Pc.tracking c) h = tt
  fresh-in_range f (Pc.pinning c) h = tt
  fresh-in_range f (Pc.locking c) h = tt
  fresh-in_range f (Pc.entered c) h = tt
  fresh-in_range f (Pc.reserved c) h = tt
  fresh-in_range f (Pc.over_reserved a) h = tt
  fresh-in_range f (Pc.overflowing a) h = tt
  fresh-in_range f (Pc.leaving a) h = tt
  fresh-in_range f (Pc.finishing k) h = tt
  fresh-in_range f (Pc.deleting k) h = tt
  fresh-in_range f (Pc.erased a) h = tt
  fresh-in_range f Pc.publishing h = tt
  fresh-in_range f (Pc.emitting read) h = tt

  -- what a thread knows of shards that it holds stays true while they stay as they are
  IsFresh-kept :
      (f f' : Shards) (p : Pc)
      → ((s : ℕ) → holds hash s p ≡ true → f' s ≡ f s)
      → IsFresh hash f p
      → IsFresh hash f' p
  IsFresh-kept f f' (Pc.reserved c) same h =
      let s = shard_of hash c.key in ap (find_item c.key) (same s (ground arith)) ∙ h
  IsFresh-kept f f' (Pc.reading k read) same (le, h) =
      (le, λ s lt. h s lt ∙ sym (same s (ground arith)))
  IsFresh-kept f f' (Pc.gathering k) same h = h
  IsFresh-kept f f' (Pc.freeing k read) same h = h
  IsFresh-kept f f' Pc.idle same h = tt
  IsFresh-kept f f' (Pc.tracking c) same h = tt
  IsFresh-kept f f' (Pc.pinning c) same h = tt
  IsFresh-kept f f' (Pc.locking c) same h = tt
  IsFresh-kept f f' (Pc.entered c) same h = tt
  IsFresh-kept f f' (Pc.over_reserved a) same h = tt
  IsFresh-kept f f' (Pc.overflowing a) same h = tt
  IsFresh-kept f f' (Pc.leaving a) same h = tt
  IsFresh-kept f f' (Pc.finishing k) same h = tt
  IsFresh-kept f f' (Pc.deleting k) same h = tt
  IsFresh-kept f f' (Pc.erased a) same h = tt
  IsFresh-kept f f' Pc.publishing same h = tt
  IsFresh-kept f f' (Pc.emitting read) same h = tt

  -- the shards that another thread holds are not written
  not_written :
      (x : System) (f' : Shards) (i j s : ℕ)
      → IsSafe x
      → Write hash (x.pc i) x.memory.tracker.shards f'
      → (i == j) ≡ false
      → holds hash s (x.pc j) ≡ true
      → f' s ≡ x.memory.tracker.shards s
  not_written x f' i j s h (Write.unchanged same) other held = same s
  not_written x f' i j s h (Write.wrote a mine same) other held = elim (Bool-cases (a == s)) [
    | inr apart ↦ same s apart
    | inl it ↦
        let mine' = subst (λ k. holds hash k (x.pc i) ≡ true) ((==_iff a s).0 it) mine in
        let e = h.exclusive.unique i j s mine' held in absurd (ground arith)
  ]

  moves-IsSafe :
      (x : System) (i : ℕ) (m : Memory) (p : Pc)
      → i < n
      → step hash x.memory (x.pc i) ≡ some (m, p)
      → IsSafe x
      → IsSafe (record { memory = m; pc = set_pc x.pc i p })
  moves-IsSafe x i m p lt e h =
      let own = sum-ge pending n x.pc i lt in
      let a =
        step-Account hash x.memory (x.pc i) (m, p) h.distinct (h.fresh i) (omega (arith, h.counted))
          e in
      let effect =
        step-Effect hash x.memory (x.pc i) (m, p)
          (fresh-in_range x.memory.tracker.shards (x.pc i) (h.fresh i)) e in
      let sp = sum-set_pc pending n x.pc i p lt in
      let sr = sum-set_pc reserves n x.pc i p lt in
      let le = sum-reserves-le n x.pc in
      let le' = reserves-le-pending (x.pc i) in
      record {
        exclusive = step-IsExclusive hash n i lt x.pc p x.memory.locks m.locks h.exclusive effect;
        counted = omega (arith, a.balance, h.counted, sp);
        bounded = elim a.budget [
          | inl fits ↦ omega (arith, fits, h.bounded, sr, a.limit)
          | inr (one, none_pending, room) ↦
              omega (arith, one, none_pending, room, le, le', sr, h.counted, a.limit)
        ];
        distinct = a.distinct;
        fresh = λ j. elim (Bool-cases (i == j)) [
          | inl self ↦ rw self a.fresh
          | inr other ↦ rw other (
              IsFresh-kept x.memory.tracker.shards m.tracker.shards (x.pc j)
                (λ s held. not_written x m.tracker.shards i j s h a.write other held) (h.fresh j))
        ];
      }

  begins-free : (p : Pc) (s : ℕ) → Begins p → holds hash s p ≡ false
  begins-free p s (Begins.track c) = refl
  begins-free p s (Begins.finish k) = refl
  begins-free p s Begins.publish = refl

  begins-empty : (p : Pc) → Begins p → (pending p ≡ 0) × (reserves p ≡ 0)
  begins-empty p (Begins.track c) = (refl, refl)
  begins-empty p (Begins.finish k) = (refl, refl)
  begins-empty p Begins.publish = (refl, refl)

  begins-IsFresh : (f : Shards) (p : Pc) → Begins p → IsFresh hash f p
  begins-IsFresh f p (Begins.track c) = tt
  begins-IsFresh f p (Begins.finish k) = tt
  begins-IsFresh f p Begins.publish = tt

  begins-IsSafe :
      (x : System) (i : ℕ) (p : Pc)
      → i < n
      → x.pc i ≡ Pc.idle
      → Begins p
      → IsSafe x
      → IsSafe (record { memory = x.memory; pc = set_pc x.pc i p })
  begins-IsSafe x i p lt idle b h =
      let sp = sum-set_pc pending n x.pc i p lt in
      let sr = sum-set_pc reserves n x.pc i p lt in
      let (e, e') = begins-empty p b in
      let zero_pending : pending (x.pc i) ≡ 0 = ap pending idle in
      let zero_reserves : reserves (x.pc i) ≡ 0 = ap reserves idle in
      let same : Effect x.memory.locks (λ s. holds hash s (x.pc i)) x.memory.locks
          (λ s. holds hash s p) =
        Effect.keeps (λ s. refl) (λ s. begins-free p s b ∙ sym (ap (holds hash s) idle)) in
      record {
        exclusive =
            step-IsExclusive hash n i lt x.pc p x.memory.locks x.memory.locks h.exclusive same;
        counted = omega (arith, h.counted, sp);
        bounded = omega (arith, h.bounded, sr);
        distinct = h.distinct;
        fresh = λ j. elim (Bool-cases (i == j)) [
          | inl self ↦ rw self (begins-IsFresh x.memory.tracker.shards p b)
          | inr other ↦ rw other (h.fresh j)
        ];
      }

  pub Step-IsSafe : (x y : System) → Step hash n x y → IsSafe x → IsSafe y
  Step-IsSafe x y (Step.begins i p lt idle b e) h =
      subst IsSafe (sym e) (begins-IsSafe x i p lt idle b h)
  Step-IsSafe x y (Step.moves i m p lt e e') h = subst IsSafe (sym e') (moves-IsSafe x i m p lt e h)

  sum-idle : (f : Pc → ℕ) (k : ℕ) → f Pc.idle ≡ 0 → sum f k (λ _. Pc.idle) ≡ 0
  unfolding sum
  sum-idle f zero h = refl
  sum-idle f (suc k) h = let ih = sum-idle f k h in omega arith

  empty-total : (k : ℕ) → total k (λ _. []) ≡ 0
  unfolding total
  empty-total zero = refl
  empty-total (suc k) = let ih = empty-total k in omega arith

  start-IsSafe : (max_items : ℤ) → IsSafe (start max_items)
  unfolding new_tracker
  start-IsSafe max_items =
      let sp = sum-idle pending n refl in
      let sr = sum-idle reserves n refl in
      let e = empty-total 32 in
      record {
        exclusive = record {
          unique = λ i j s x y. absurd (ground arith);
          locked = λ i s x. absurd (ground arith);
          covered = λ s x. absurd (ground arith);
        };
        counted = omega arith;
        bounded = omega arith;
        distinct = λ s. tt;
        fresh = λ i. tt;
      }

  pub Reach-IsSafe : (max_items : ℤ) {x : System} → Reach hash n max_items x → IsSafe x
  Reach-IsSafe max_items Reach.here = start-IsSafe max_items
  Reach-IsSafe max_items (Reach.later {x} {y} r s) = Step-IsSafe x y s (Reach-IsSafe max_items r)
