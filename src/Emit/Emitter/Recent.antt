-- ===== src/Emit/Emitter/Recent.antt =====
-- How long the two generations remember a key.
use shortfall.Prelude.{
  ℕ, suc, ◌+◌, ◌≤◌, ◌≡◌, true, false, ◌⊎◌, inl, inr, List, [], ◌∷◌, arith, Bytes, =?_iff, leb,
  length, Bool-cases,
}
use shortfall.Engine.Realized.{member}
use shortfall.Emit.Emitter.TwoGen.{TwoGenSet, holds, rotate, seen}

-- the set after the keys of a list, one after another
unfoldable pub seen_all : List Bytes → TwoGenSet → TwoGenSet
unfolding seen
seen_all [] t = t
seen_all (k ∷ ks) t = seen_all ks (seen k t).1

-- the key is in the newer generation, or in the older one with room for `n` keys in the newer one
abbrev Kept : Bytes → ℕ → TwoGenSet → Type 0
Kept k n t =
    ((member k t.cur ≡ true) × (length t.cur ≤ t.cap) × (n ≤ t.cap))
    ⊎ ((member k t.prev ≡ true) × (length t.cur + n ≤ t.cap))

seen-Kept : (k j : Bytes) (n : ℕ) (t : TwoGenSet) → Kept k (suc n) t → Kept k n (seen j t).1
unfolding seen rotate member
seen-Kept k j n t (inl h) = elim (Bool-cases (holds j t)) [
  | inl known ↦ rw known (inl (h.0, h.1, omega (arith, h.2)))
  | inr new ↦ elim (Bool-cases (leb t.cap (length t.cur))) [
    | inl full ↦ rw (new, full) (inr (h.0, omega (arith, h.2)))
    | inr room ↦ rw (new, room) (inl (ground (arith, h.0), ground arith, omega (arith, h.2)))
  ]
]
seen-Kept k j n t (inr h) = elim (Bool-cases (holds j t)) [
  | inl known ↦ rw known (inr (h.0, omega (arith, h.1)))
  | inr new ↦
      let room : leb t.cap (length t.cur) ≡ false = ground (arith, h.1) in
      rw (new, room) (inr (h.0, omega (arith, h.1)))
]

seen_all-Kept :
    (k : Bytes) (ks : List Bytes) (t : TwoGenSet)
    → Kept k (length ks) t
    → holds k (seen_all ks t) ≡ true
unfolding seen_all holds
seen_all-Kept k [] t (inl h) = rw (h.0)
seen_all-Kept k [] t (inr h) = ground (arith, h.0)
seen_all-Kept k (j ∷ ks) t h = seen_all-Kept k ks (seen j t).1 (seen-Kept k j (length ks) t h)

seen-Kept_first :
    (k : Bytes) (n : ℕ) (t : TwoGenSet)
    → 1 ≤ t.cap
    → n ≤ t.cap
    → holds k t ≡ false
    → Kept k n (seen k t).1
unfolding seen rotate member
seen-Kept_first k n t pos short new = elim (Bool-cases (leb t.cap (length t.cur))) [
  | inl full ↦ rw (new, full) (inl (ground (arith, =?_iff k k), pos, short))
  | inr room ↦ rw (new, room) (inl (ground (arith, =?_iff k k), ground arith, short))
]

-- A key that is new to the set is remembered through the next keys, as many as the capacity, whatever
-- they are.
pub seen-recent :
    (k : Bytes) (ks : List Bytes) (t : TwoGenSet)
    → 1 ≤ t.cap
    → length ks ≤ t.cap
    → holds k t ≡ false
    → holds k (seen_all ks (seen k t).1) ≡ true
seen-recent k ks t pos short new =
    seen_all-Kept k ks (seen k t).1 (seen-Kept_first k (length ks) t pos short new)
