-- ===== src/Engine/Customers/Segments.antt =====
-- The counts of the segments of the customers leg.
use shortfall.Prelude.{
  ℕ, ◌+◌, ◌^◌, ◌<◌, ◌≤◌, ◌≡◌, refl, ap, ◌∙◌, Option, none, some, [], ◌∷◌, arith, Bytes, ◌=?◌, ok,
  >>=-ok, ok-injective, subst, if◌then◌else◌, Bool-cases, inl, inr, length, All,
}
use shortfall.Prelude.Int.{ℤ, pos, negsuc, pos_part, neg_part, ◌<ℤ◌, ◌+ℤ◌}
use shortfall.Prelude.Int64.{add64, add64_of_Fits, Fits}
use shortfall.Prelude.Maps.{Map, find, put}
use shortfall.Biz.Context.{failed}
use shortfall.Query.{Querier}
use shortfall.Engine.{Request, amount, add_to, flow_filters}
use shortfall.Engine.Customers.{
  CustomersLeg, Account, count_segments, leg_of, no_events, customers_loop, customers,
}

-- the sum of the counts of a map, none of which is negative
abbrev pub total : Map ℤ → ℕ
total [] = 0
total ((_, v) ∷ m) = pos_part v + total m

abbrev IsCount : Map ℤ → Type 0
IsCount m = All (λ e. neg_part e.1 ≡ 0) m

abbrev or_zero : Option ℤ → ℤ
or_zero none = pos 0
or_zero (some v) = v

amount-cons :
    (j k : Bytes) (v : ℤ) (m : Map ℤ) → amount k ((j, v) ∷ m) ≡ (if j =? k then v else amount k m)
unfolding amount find
amount-cons j k v m = elim (Bool-cases (j =? k)) [
  | inl same ↦ let e : find k ((j, v) ∷ m) ≡ some v = rw same in ap or_zero e ∙ rw same
  | inr other ↦ let e : find k ((j, v) ∷ m) ≡ find k m = rw other in ap or_zero e ∙ rw other
]

amount-IsCount : (k : Bytes) (m : Map ℤ) → IsCount m → neg_part (amount k m) ≡ 0
amount-IsCount k [] h = unfold amount find in refl
amount-IsCount k ((j, v) ∷ m) (positive, h) = elim (Bool-cases (j =? k)) [
  | inl same ↦ rw (amount-cons j k v m, same, positive)
  | inr other ↦ rw (amount-cons j k v m, other, amount-IsCount k m h)
]

total-put :
    (k : Bytes) (v : ℤ) (m : Map ℤ)
    → total (put k v m) + pos_part (amount k m) ≡ total m + pos_part v
unfolding put
total-put k v [] = let e : amount k [] ≡ pos 0 = unfold amount find in refl in rw e (omega arith)
total-put k v ((j, w) ∷ m) = elim (Bool-cases (j =? k)) [
  | inl same ↦ rw (amount-cons j k w m, same) (omega arith)
  | inr other ↦ let ih = total-put k v m in rw (amount-cons j k w m, other) (omega arith)
]

put-IsCount : (k : Bytes) (v : ℤ) (m : Map ℤ) → neg_part v ≡ 0 → IsCount m → IsCount (put k v m)
unfolding put
put-IsCount k v [] p h = (p, tt)
put-IsCount k v ((j, w) ∷ m) p (q, h) = elim (Bool-cases (j =? k)) [
  | inl same ↦ rw same (p, h)
  | inr other ↦ rw other (q, put-IsCount k v m p h)
]

amount-le : (k : Bytes) (m : Map ℤ) → pos_part (amount k m) ≤ total m
amount-le k [] = let e : amount k [] ≡ pos 0 = unfold amount find in refl in rw e (omega arith)
amount-le k ((j, v) ∷ m) = elim (Bool-cases (j =? k)) [
  | inl same ↦ rw (amount-cons j k v m, same) (omega arith)
  | inr other ↦ let ih = amount-le k m in rw (amount-cons j k v m, other) (omega arith)
]

-- one more of a count below the bound
add_one :
    (a : ℤ)
    → neg_part a ≡ 0
    → pos_part a + 1 < 2 ^ 63
    → (neg_part (add64 a (pos 1)) ≡ 0) × (pos_part (add64 a (pos 1)) ≡ pos_part a + 1)
add_one (negsuc n) h k = absurd (omega arith)
add_one (pos n) h k =
    let fits : Fits (pos n +ℤ pos 1) = unfold ◌+ℤ◌ in (ground arith, ground arith) in
    let e = add64_of_Fits (pos n) (pos 1) fits in
    let e' : add64 (pos n) (pos 1) ≡ pos (n + 1) = e ∙ unfold ◌+ℤ◌ in ground arith in
    rw e' (refl, refl)

total-count_segments :
    (accts : Map Account) (m : Map ℤ)
    → IsCount m
    → total m + length accts < 2 ^ 63
    → total (count_segments accts m) ≡ total m + length accts
unfolding count_segments add_to
total-count_segments [] m h k = omega arith
total-count_segments ((_, a) ∷ accts) m h k =
    let le = amount-le a.segment m in
    let (positive, one) =
      add_one (amount a.segment m) (amount-IsCount a.segment m h) (omega arith) in
    let put_one = total-put a.segment (add64 (amount a.segment m) (pos 1)) m in
    let m' = put a.segment (add64 (amount a.segment m) (pos 1)) m in
    let ih = total-count_segments accts m' (put-IsCount a.segment _ m positive h) (omega arith) in
    ih ∙ omega arith

-- Wherever the leg is returned with fewer than 2^63 customers, the counts of its segments add up to the
-- count of the customers: each is in exactly one segment.
pub customers-total :
    {V : Type 0} (q : Querier V) (req : Request) (top_n : ℤ) (leg : CustomersLeg)
    → customers q req top_n ≡ ok leg
    → leg.distinct <ℤ pos (2 ^ 63)
    → pos (total leg.by_segment) ≡ leg.distinct
unfolding customers
customers-total q req top_n leg h k = elim (Bool-cases q.capabilities.events) [
  | inr none_served ↦
      let h' = rw none_served at h in
      subst (λ l. pos (total l.by_segment) ≡ l.distinct) (ok-injective no_events leg h') refl
  | inl served ↦
      let h' = rw served at h in
      let (accts, _, e) = >>=-ok (customers_loop q req (flow_filters req failed) []) _ _ h' in
      let e' = ok-injective (leg_of top_n accts) leg e in
      subst (λ l. l.distinct <ℤ pos (2 ^ 63) → pos (total l.by_segment) ≡ l.distinct) e'
        (λ small.
          unfold leg_of in ap pos (total-count_segments accts [] tt (omega arith) ∙ omega arith))
        k
]
