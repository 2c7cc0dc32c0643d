-- ===== src/Emit/InFlight/Threads/Exclusion.antt =====
-- The mutexes exclude: each is held by at most one thread, and a taken one by exactly one.
use shortfall.Prelude.{
  ℕ, ◌<◌, ◌≡◌, refl, sym, ◌∙◌, subst, Bool, true, false, ◌==◌, ==_iff, if◌then◌else◌, Bytes, arith,
  Bool-cases, inl, inr,
}
use shortfall.Emit.InFlight.Threads.{Pc, set_lock, set_pc}
use shortfall.Emit.InFlight.Threads.Locks.{holds, Effect}

module _ (hash : Bytes → ℕ) (n : ℕ) where
  pub record IsExclusive (locks : ℕ → Bool) (pc : ℕ → Pc) : Type 0 where
    pub unique : (i j s : ℕ) → holds hash s (pc i) ≡ true → holds hash s (pc j) ≡ true → i ≡ j
    pub locked : (i s : ℕ) → holds hash s (pc i) ≡ true → locks s ≡ true
    pub covered : (s : ℕ) → locks s ≡ true → (i : ℕ) × (i < n) × (holds hash s (pc i) ≡ true)

  -- what a thread holds after a step of thread `i`
  holds-set_pc :
      (pc : ℕ → Pc) (i j s : ℕ) (p : Pc)
      → holds hash s (set_pc pc i p j) ≡ (if i == j then holds hash s p else holds hash s (pc j))
  holds-set_pc pc i j s p = elim (Bool-cases (i == j)) [ inl same ↦ rw same | inr other ↦ rw other ]

  module _ (i : ℕ) (below : i < n) (pc : ℕ → Pc) (p' : Pc) (locks after : ℕ → Bool)
      (h : IsExclusive locks pc)
      (e : Effect locks (λ s. holds hash s (pc i)) after (λ s. holds hash s p')) where
    -- a mutex that was free has the new holder only
    only_taker :
        (s : ℕ) → locks s ≡ false → (a : ℕ) → holds hash s (set_pc pc i p' a) ≡ true → i ≡ a
    only_taker s free a x = elim (Bool-cases (i == a)) [
      | inl same ↦ (==_iff i a).0 same
      | inr other ↦
          let x' = rw (holds-set_pc pc i a s p', other) at x in let taken = h.locked a s x' in cc
    ]

    unique-step :
        (a b s : ℕ)
        → holds hash s (set_pc pc i p' a) ≡ true
        → holds hash s (set_pc pc i p' b) ≡ true
        → a ≡ b
    unique-step a b s = elim e [
      | Effect.keeps same_locks same ↦ λ x y. ground (
        arith,
        holds-set_pc pc i a s p',
        holds-set_pc pc i b s p',
        same s,
        h.unique a b s,
        h.unique i b s,
        h.unique a i s,
      )
      | Effect.takes c free locks_after more ↦ elim (Bool-cases (c == s)) [
        | inl it ↦ λ x y.
            let free' = subst (λ k. locks k ≡ false) ((==_iff c s).0 it) free in
            sym (only_taker s free' a x) ∙ only_taker s free' b y
        | inr not_it ↦ λ x y.
            let same : holds hash s p' ≡ holds hash s (pc i) = more s ∙ rw not_it in
            ground (
              arith,
              holds-set_pc pc i a s p',
              holds-set_pc pc i b s p',
              same,
              h.unique a b s,
              h.unique i b s,
              h.unique a i s,
            )
      ]
      | Effect.frees c held locks_after fewer ↦ λ x y. ground (
        arith,
        holds-set_pc pc i a s p',
        holds-set_pc pc i b s p',
        fewer s,
        h.unique a b s,
        h.unique i b s,
        h.unique a i s,
      )
    ]

    locked-step : (a s : ℕ) → holds hash s (set_pc pc i p' a) ≡ true → after s ≡ true
    locked-step a s = elim e [
      | Effect.keeps same_locks same ↦ λ x.
          ground (arith, holds-set_pc pc i a s p', same s, same_locks s, h.locked a s, h.locked i s)
      | Effect.takes c free locks_after more ↦ λ x.
          let at : set_lock locks c true s ≡ (if c == s then true else locks s) =
            unfold set_lock in refl in
          ground
            (arith, holds-set_pc pc i a s p', more s, locks_after s, at, h.locked a s, h.locked i s)
      | Effect.frees c held locks_after fewer ↦ elim (Bool-cases (c == s)) [
        | inl it ↦ λ x.
            let held' = subst (λ k. holds hash k (pc i) ≡ true) ((==_iff c s).0 it) held in
            let gone : holds hash s p' ≡ false = fewer s ∙ rw it in
            absurd (ground (arith, holds-set_pc pc i a s p', gone, h.unique i a s, held'))
        | inr not_it ↦ λ x.
            let at : set_lock locks c false s ≡ locks s = unfold set_lock in rw not_it in
            ground (
              arith,
              holds-set_pc pc i a s p',
              fewer s,
              locks_after s,
              at,
              h.locked a s,
              h.locked i s,
            )
      ]
    ]

    still :
        (s j : ℕ)
        → holds hash s p' ≡ holds hash s (pc i)
        → holds hash s (pc j) ≡ true
        → holds hash s (set_pc pc i p' j) ≡ true
    still s j same x = holds-set_pc pc i j s p' ∙ elim (Bool-cases (i == j)) [
      | inl it ↦
          let x' = subst (λ k. holds hash s (pc k) ≡ true) (sym ((==_iff i j).0 it)) x in
          rw it (same ∙ x')
      | inr other ↦ rw other x
    ]

    covered-step :
        (s : ℕ) → after s ≡ true → (j : ℕ) × (j < n) × (holds hash s (set_pc pc i p' j) ≡ true)
    covered-step s = elim e [
      | Effect.keeps same_locks same ↦ λ x.
          let (j, lt, held) = h.covered s (sym (same_locks s) ∙ x) in
          (j, lt, still s j (same s) held)
      | Effect.takes c free locks_after more ↦ elim (Bool-cases (c == s)) [
        | inl it ↦ λ x.
            let now : holds hash s p' ≡ true = more s ∙ rw it in
            let self : (i == i) ≡ true = ground arith in
            (i, below, holds-set_pc pc i i s p' ∙ rw (self, now))
        | inr not_it ↦ λ x.
            let at : set_lock locks c true s ≡ locks s = unfold set_lock in rw not_it in
            let (j, lt, held) = h.covered s (sym at ∙ sym (locks_after s) ∙ x) in
            (j, lt, still s j (more s ∙ rw not_it) held)
      ]
      | Effect.frees c held locks_after fewer ↦ elim (Bool-cases (c == s)) [
        | inl it ↦ λ x.
            let at : set_lock locks c false s ≡ false = unfold set_lock in rw it in
            let bad = sym x ∙ locks_after s ∙ at in absurd (ground arith)
        | inr not_it ↦ λ x.
            let at : set_lock locks c false s ≡ locks s = unfold set_lock in rw not_it in
            let (j, lt, held') = h.covered s (sym at ∙ sym (locks_after s) ∙ x) in
            (j, lt, still s j (fewer s ∙ rw not_it) held')
      ]
    ]

    pub step-IsExclusive : IsExclusive after (set_pc pc i p')
    step-IsExclusive = record { unique = unique-step; locked = locked-step; covered = covered-step }
