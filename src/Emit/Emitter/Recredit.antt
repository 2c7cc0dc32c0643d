-- ===== src/Emit/Emitter/Recredit.antt =====
-- A backend that takes nothing does not destroy the drop counters.
use shortfall.Prelude.{
  ◌≡◌, refl, sym, ◌∙◌, true, false, List, [], ◌∷◌, ◌++◌, arith, Bytes, ◌=?◌, =?_iff, All,
  Bool-cases, none, inl, inr, if◌then◌else◌,
}
use shortfall.Prelude.Int.{ℤ, pos, negsuc, ◌+ℤ◌}
use shortfall.Prelude.Int64.{add64, add64_of_Fits, add64_zero, add64-Fits, Fits}
use shortfall.Prelude.Maps.{Map, find, label}
use shortfall.Biz.Context.{Time, Outcome}
use shortfall.Engine.{amount, add_to}
use shortfall.Engine.Exact.{amount-add_to}
use shortfall.Emit.Emitter.{MetricPoint, Std}
use shortfall.Emit.Emitter.Flush.{
  Answers, flush, drop_points, recredit, after_exports, dropped_total,
}

-- No reason stands twice, and every count fits int64.
abbrev pub Counters : Map ℤ → Type 0
Counters [] = Unit
Counters ((reason, n) ∷ m) = (find reason m ≡ none) × Fits n × Counters m

-- No pending point is a drop counter.
abbrev pub NoDrops : List MetricPoint → Type 0
NoDrops = All (λ p. (p.name =? dropped_total) ≡ false)

recredit-append :
    (ps qs : List MetricPoint) (m : Map ℤ) → recredit (ps ++ qs) m ≡ recredit qs (recredit ps m)
unfolding recredit
recredit-append [] qs m = refl
recredit-append (p ∷ ps) qs m = recredit-append ps qs _

recredit-NoDrops : (ps : List MetricPoint) (m : Map ℤ) → NoDrops ps → recredit ps m ≡ m
unfolding recredit
recredit-NoDrops [] m h = refl
recredit-NoDrops (p ∷ ps) m h = rw (h.0) (recredit-NoDrops ps m h.1)

zero_+ℤ : (a : ℤ) → pos 0 +ℤ a ≡ a
unfolding ◌+ℤ◌
zero_+ℤ (pos n) = ground arith
zero_+ℤ (negsuc n) = ground arith

zero_add64 : (a : ℤ) → Fits a → add64 (pos 0) a ≡ a
zero_add64 a h = add64_of_Fits (pos 0) a (rw (zero_+ℤ a) h) ∙ zero_+ℤ a

amount-cons :
    (c r : Bytes) (n : ℤ) (m : Map ℤ) → amount c ((r, n) ∷ m) ≡ (if r =? c then n else amount c m)
unfolding amount find
amount-cons c r n m = ground arith

amount_none : (c : Bytes) (m : Map ℤ) → find c m ≡ none → amount c m ≡ pos 0
unfolding amount
amount_none c m h = ground arith

recredit-cons :
    (now : Time) (r : Bytes) (n : ℤ) (counts m : Map ℤ)
    → recredit (drop_points now ((r, n) ∷ counts)) m
      ≡ recredit (drop_points now counts) (add_to r n m)
unfolding recredit drop_points label find ◌=?◌
recredit-cons now r n counts m = refl

-- the counters of a batch, credited to a map
amount-recredit :
    (now : Time) (c : Bytes) (counts m : Map ℤ)
    → Counters counts
    → Fits (amount c m)
    → amount c (recredit (drop_points now counts) m) ≡ add64 (amount c m) (amount c counts)
amount-recredit now c [] m h fits =
    unfold recredit drop_points amount find in sym (add64_zero (amount c m) fits)
amount-recredit now c ((r, n) ∷ counts) m (new, _, rest) fits = elim (Bool-cases (r =? c)) [
  | inl here ↦
      let e : r ≡ c = (=?_iff r c).0 here in
      let added : amount c (add_to r n m) ≡ add64 (amount c m) n =
        amount-add_to r c n m ∙ rw here in
      let none_left : amount c counts ≡ pos 0 = amount_none c counts (rw (← e) new) in
      rw
        (
          recredit-cons now r n counts m,
          amount-recredit now c counts (add_to r n m) rest (rw added (add64-Fits (amount c m) n)),
          added,
          none_left,
          amount-cons c r n counts,
          here,
        )
        (add64_zero (add64 (amount c m) n) (add64-Fits (amount c m) n))
  | inr elsewhere ↦
      let same : amount c (add_to r n m) ≡ amount c m = amount-add_to r c n m ∙ rw elsewhere in
      rw (
        recredit-cons now r n counts m,
        amount-recredit now c counts (add_to r n m) rest (rw same fits),
        same,
        amount-cons c r n counts,
        elsewhere,
      )
]

amount-Fits : (c : Bytes) (counts : Map ℤ) → Counters counts → Fits (amount c counts)
amount-Fits c [] h = unfold amount find in omega arith
amount-Fits c ((r, n) ∷ counts) (_, fits, rest) = elim (Bool-cases (r =? c)) [
  | inl here ↦ rw (amount-cons c r n counts, here) fits
  | inr elsewhere ↦ rw (amount-cons c r n counts, elsewhere) (amount-Fits c counts rest)
]

after_exports_refused :
    (answers : Answers) (events : List Outcome) (metrics : List MetricPoint)
    → answers.events_ok ≡ true
    → answers.metrics_ok ≡ false
    → after_exports answers events metrics ≡ recredit metrics []
unfolding after_exports recredit
after_exports_refused answers [] [] took refused = refl
after_exports_refused answers (o ∷ events) [] took refused = rw took
after_exports_refused answers [] (p ∷ metrics) took refused = rw refused
after_exports_refused answers (o ∷ events) (p ∷ metrics) took refused = rw (took, refused)

-- If the exporter takes the events and refuses the metrics, then after the flush every drop counter has
-- the value it had before, where no reason stands twice in the counters, each fits int64, and no pending
-- point is itself a drop counter.
pub amount-flush :
    (now : Time) (answers : Answers) (s : Std) (c : Bytes)
    → answers.events_ok ≡ true
    → answers.metrics_ok ≡ false
    → Counters s.drop_counts
    → NoDrops s.metrics
    → amount c (flush now answers s).state.drop_counts ≡ amount c s.drop_counts
unfolding flush
amount-flush now answers s c took refused counters none_pending =
    let points = drop_points now s.drop_counts in
    rw
      (
        after_exports_refused answers s.events (s.metrics ++ points) took refused,
        recredit-append s.metrics points [],
        recredit-NoDrops s.metrics [] none_pending,
      )
      (amount-recredit now c s.drop_counts [] counters (unfold amount find in omega arith)
        ∙ (unfold amount find in
            zero_add64 (amount c s.drop_counts) (amount-Fits c s.drop_counts counters)))
