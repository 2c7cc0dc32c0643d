-- ===== src/Engine/Coverage/Booked.antt =====
-- The slices of the coverage leg against the rows of the ledger.
use shortfall.Prelude.{
  ◌≡◌, refl, sym, ◌∙◌, ap, subst, inl, inr, Bool, ◌&&◌, Bool-cases, Option, none, some, List, [],
  ◌∷◌, arith, Bytes, ◌=?◌, =?_sound, ok, All, All-append, if◌then◌else◌,
}
use shortfall.Prelude.Int.{ℤ, pos, ltb_ℤ, ◌<ℤ◌}
use shortfall.Prelude.Int64.{add64}
use shortfall.Prelude.Maps.{Map, find, find-put, IsUnique, put-IsUnique, find-IsUnique}
use shortfall.Biz.Context.{LedgerRow, success}
use shortfall.Query.{Querier}
use shortfall.Registry.{Registry}
use shortfall.Engine.{Request, amount}
use shortfall.Engine.Coverage.{
  CoverageSlice, CoverageLeg, LedgerSum, sum_or_new, sums_or_new, book_sum, book_in, book_row,
  book_all, Progress, slice_of, add_slice, add_slices, coverage,
}
use shortfall.Engine.Coverage.Loop.{coverage-Verdict}

-- the sum, as int64 adds it, of the success rows of a flow in a currency, from `v`
abbrev pub booked : Bytes → Bytes → List LedgerRow → ℤ → ℤ
booked f c [] v = v
booked f c (r ∷ rs) v = booked f c rs (
    if r.outcome =? success && (r.flow =? f && r.money.currency =? c)
    then add64 v r.money.amount
    else v)

abbrev minor_of : Option LedgerSum → ℤ
minor_of none = pos 0
minor_of (some a) = a.minor

abbrev sum_at : Bytes → Map LedgerSum → ℤ
sum_at c m = minor_of (find c m)

abbrev held : Bytes → Bytes → Map (Map LedgerSum) → ℤ
held f c m = sum_at c (sums_or_new (find f m))

minor_of-sum_or_new : (o : Option LedgerSum) (r : LedgerRow) → (sum_or_new o r).minor ≡ minor_of o
minor_of-sum_or_new none r = refl
minor_of-sum_or_new (some a) r = refl

sum_at-book_in :
    (c : Bytes) (r : LedgerRow) (m : Map LedgerSum)
    → sum_at c (book_in r m)
      ≡ (if r.money.currency =? c then add64 (sum_at c m) r.money.amount else sum_at c m)
unfolding book_in
sum_at-book_in c r m =
    let k = r.money.currency in
    let a = book_sum r (sum_or_new (find k m) r) in
    let found = ap minor_of (find-put k c a m) in
    elim (Bool-cases (k =? c)) [
      | inr other ↦ let found' = rw other at found in found' ∙ rw other
      | inl same ↦
          let found' = rw same at found in
          let before = ap (λ v. add64 v r.money.amount) (minor_of-sum_or_new (find k m) r) in
          let e = ap (λ j. add64 (sum_at j m) r.money.amount) (=?_sound k c same) in
          found' ∙ before ∙ e ∙ rw same
    ]

held-book_row :
    (f c : Bytes) (r : LedgerRow) (m : Map (Map LedgerSum))
    → held f c (book_row r m) ≡ (
        if r.outcome =? success && (r.flow =? f && r.money.currency =? c)
        then add64 (held f c m) r.money.amount
        else held f c m)
unfolding book_row
held-book_row f c r m = elim (Bool-cases (r.outcome =? success)) [
  | inr other ↦ rw other
  | inl won ↦
      let inner = book_in r (sums_or_new (find r.flow m)) in
      let found = ap (λ o. sum_at c (sums_or_new o)) (find-put r.flow f inner m) in
      elim (Bool-cases (r.flow =? f)) [
        | inr other ↦ let found' = rw other at found in rw (won, other) found'
        | inl same ↦
            let found' = rw same at found in
            let e : held r.flow c m ≡ held f c m = ap (λ k. held k c m) (=?_sound r.flow f same) in
            let sum = sum_at-book_in c r (sums_or_new (find r.flow m)) in
            let sum' = rw e at sum in rw (won, same) (found' ∙ sum')
      ]
]

held-book_all :
    (f c : Bytes) (rs : List LedgerRow) (m : Map (Map LedgerSum))
    → held f c (book_all rs m) ≡ booked f c rs (held f c m)
unfolding book_all
held-book_all f c [] m = refl
held-book_all f c (r ∷ rs) m =
    held-book_all f c rs (book_row r m) ∙ ap (booked f c rs) (held-book_row f c r m)

-- each flow's map of sums has each currency once
abbrev AllUnique : Map (Map LedgerSum) → Type 0
AllUnique m = (f : Bytes) → IsUnique (sums_or_new (find f m))

book_row-AllUnique :
    (r : LedgerRow) (m : Map (Map LedgerSum)) → AllUnique m → AllUnique (book_row r m)
unfolding book_row
book_row-AllUnique r m h f = elim (Bool-cases (r.outcome =? success)) [
  | inr other ↦ rw other (h f)
  | inl won ↦
      let before = sums_or_new (find r.flow m) in
      let inner : IsUnique (book_in r before) =
        unfold book_in in put-IsUnique r.money.currency _ before (h r.flow) in
      let found = find-put r.flow f (book_in r before) m in
      elim (Bool-cases (r.flow =? f)) [
        | inr other ↦
            let found' = rw other at found in
            rw won (subst (λ o. IsUnique (sums_or_new o)) (sym found') (h f))
        | inl same ↦
            let found' = rw same at found in
            rw won (subst (λ o. IsUnique (sums_or_new o)) (sym found') inner)
      ]
]

book_all-AllUnique :
    (rs : List LedgerRow) (m : Map (Map LedgerSum)) → AllUnique m → AllUnique (book_all rs m)
unfolding book_all
book_all-AllUnique [] m h = h
book_all-AllUnique (r ∷ rs) m h = book_all-AllUnique rs (book_row r m) (book_row-AllUnique r m h)

-- The slice has a positive ledger value: the sum of the success rows of its flow and currency.
abbrev pub IsBooked : {F : Type 0} → List LedgerRow → CoverageSlice F → Type 0
IsBooked rows s =
    (pos 0 <ℤ s.ledger_minor) × (s.ledger_minor ≡ booked s.flow s.currency rows (pos 0))

abbrev IsOwn : List LedgerRow → Bytes → Bytes × LedgerSum → Type 0
IsOwn rows flow (currency, a) = a.minor ≡ booked flow currency rows (pos 0)

module _ {F : Type 0} (float64 : ℤ → F) (one : F) (div : F → F → F) (less : F → F → Bool)
    (rows : List LedgerRow) where
  add_slices-IsBooked :
      (flow : Bytes) (sums : Map LedgerSum) (seen : Map ℤ) (done : Progress float64 one div less)
      → All (IsOwn rows flow) sums
      → All (IsBooked rows) done.0
      → All (IsBooked rows) (add_slices float64 one div less flow seen sums done).0
  unfolding add_slices
  add_slices-IsBooked flow [] seen done own h = h
  add_slices-IsBooked flow ((currency, a) ∷ m) seen (slices, worst) (own, owns) h =
      elim (Bool-cases (ltb_ℤ (pos 0) a.minor)) [
        | inr other ↦ rw other (add_slices-IsBooked flow m seen (slices, worst) owns h)
        | inl positive ↦
            let s = slice_of float64 one div less flow currency a (amount currency seen) in
            let above : pos 0 <ℤ a.minor = ground arith in
            let h' = All-append (IsBooked rows) slices (s ∷ []) h ((above, own), tt) in
            rw positive (
              add_slices-IsBooked flow m seen (add_slice float64 one div less s (slices, worst))
                owns h')
      ]

  sums-IsOwn :
      (flow : Bytes) (sums entries : Map LedgerSum)
      → find flow (book_all rows []) ≡ some sums
      → All (λ e. find e.0 sums ≡ some e.1) entries
      → All (IsOwn rows flow) entries
  sums-IsOwn flow sums [] h k = tt
  sums-IsOwn flow sums ((currency, a) ∷ entries) h (found, k) =
      let at : held flow currency (book_all rows []) ≡ sum_at currency sums =
        ap (λ o. sum_at currency (sums_or_new o)) h in
      let own : sum_at currency sums ≡ a.minor = ap minor_of found in
      let all = held-book_all flow currency rows [] in
      let start : held flow currency [] ≡ pos 0 = unfold find in refl in
      (
        sym own ∙ sym at ∙ all ∙ ap (booked flow currency rows) start,
        sums-IsOwn flow sums entries h k,
      )

  keep-IsBooked :
      (flow : Bytes) (sums : Map LedgerSum) (seen : Map ℤ) (done : Progress float64 one div less)
      → find flow (book_all rows []) ≡ some sums
      → All (IsBooked rows) done.0
      → All (IsBooked rows) (add_slices float64 one div less flow seen sums done).0
  keep-IsBooked flow sums seen done found h =
      let start : AllUnique [] = λ f. unfold find in tt in
      let unique =
        subst (λ o. IsUnique (sums_or_new o)) found (book_all-AllUnique rows [] start flow) in
      let own = sums-IsOwn flow sums sums found (find-IsUnique sums unique) in
      add_slices-IsBooked flow sums seen done own h

  -- Where Coverage returns, every slice has a positive ledger value, which is the sum, as int64 adds it,
  -- of the success rows of its flow in its currency.
  pub coverage-IsBooked :
      {V : Type 0} (to_int64 : V → ℤ) (reg : Option Registry) (q : Querier V) (req : Request)
      (source : Bytes) (leg : CoverageLeg F) (slices : List (CoverageSlice F))
      → coverage float64 one div less to_int64 reg q req rows source ≡ ok (leg, slices)
      → All (IsBooked rows) slices
  coverage-IsBooked to_int64 reg q req source leg slices h =
      let J : Progress float64 one div less → Type 0 = λ done. All (IsBooked rows) done.0 in
      elim (coverage-Verdict float64 one div less to_int64 reg q req rows source J keep-IsBooked leg
        slices tt h) [
          | inl (empty, _) ↦ subst (All (IsBooked rows)) (sym empty) tt
          | inr (all, _, _) ↦ all
        ]
