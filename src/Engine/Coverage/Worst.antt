-- ===== src/Engine/Coverage/Worst.antt =====
-- The ratio of the coverage leg against the ratios of the slices.
use shortfall.Prelude.{
  mem_left, mem_last, ◌≡◌, refl, ◌⊎◌, inl, inr, Bool, true, false, Bool-cases, Option, List, [],
  ◌∷◌, ◌++◌, Bytes, ok, All, All-append,
}
use mathlib.Core.List.{Memᴰ}
use shortfall.Prelude.Int.{ℤ, pos, ltb_ℤ}
use shortfall.Prelude.Maps.{Map}
use shortfall.Biz.Context.{LedgerRow}
use shortfall.Query.{Querier}
use shortfall.Registry.{Registry}
use shortfall.Registry.Rules.{is_nil}
use shortfall.Engine.{Request, amount}
use shortfall.Engine.Coverage.{
  CoverageSlice, CoverageLeg, LedgerSum, clamp, slice_of, add_slice, add_slices, coverage,
}
use shortfall.Engine.Coverage.Loop.{coverage-Verdict}

module _ {F : Type 0} (float64 : ℤ → F) (one : F) (div : F → F → F) (less : F → F → Bool)
    (less_irrefl : (x : F) → less x x ≡ false)
    (less_trans : (x y z : F) → less x y ≡ true → less y z ≡ true → less x z ≡ true) where
  -- No slice has a ratio below `worst` or above one, and `worst` is one or the ratio of a slice.
  abbrev pub IsWorst : List (CoverageSlice F) × F → Type 0
  IsWorst (slices, worst) =
      All (λ s. (less s.ratio worst ≡ false) × (less one s.ratio ≡ false)) slices
      × ((worst ≡ one) ⊎ ((s : CoverageSlice F) × Memᴰ s slices × (s.ratio ≡ worst)))

  clamp-le : (x : F) → less one (clamp float64 one div less x) ≡ false
  clamp-le x = elim (Bool-cases (less one x)) [
    | inl above ↦ rw above (less_irrefl one)
    | inr within ↦ rw within within
  ]

  lower-All :
      (worst ratio : F) (slices : List (CoverageSlice F))
      → less ratio worst ≡ true
      → All (λ s. (less s.ratio worst ≡ false) × (less one s.ratio ≡ false)) slices
      → All (λ s. (less s.ratio ratio ≡ false) × (less one s.ratio ≡ false)) slices
  lower-All worst ratio [] h k = tt
  lower-All worst ratio (s ∷ slices) h ((above, within), k) =
      elim (Bool-cases (less s.ratio ratio)) [
        | inr other ↦ ((other, within), lower-All worst ratio slices h k)
        | inl below ↦ let below' = less_trans s.ratio ratio worst below h in cc
      ]

  add_slice-IsWorst :
      (s : CoverageSlice F) (done : List (CoverageSlice F) × F)
      → less one s.ratio ≡ false
      → IsWorst done
      → IsWorst (add_slice float64 one div less s done)
  add_slice-IsWorst s (slices, worst) within (all, attained) =
      elim (Bool-cases (less s.ratio worst)) [
        | inl below ↦
            let all' = lower-All worst s.ratio slices below all in
            rw below (
              All-append (λ u. (less u.ratio s.ratio ≡ false) × (less one u.ratio ≡ false)) slices
                  (s ∷ []) all' ((less_irrefl s.ratio, within), tt),
              inr (s, mem_last slices s, refl),
            )
        | inr above ↦
            let kept : (worst ≡ one)
                ⊎ ((u : CoverageSlice F) × Memᴰ u (slices ++ s ∷ []) × (u.ratio ≡ worst)) =
              elim attained [
                | inl e ↦ inl e
                | inr (u, at, e) ↦ inr (u, mem_left slices (s ∷ []) at, e)
              ] in
            rw above (
              All-append (λ u. (less u.ratio worst ≡ false) × (less one u.ratio ≡ false)) slices
                  (s ∷ []) all ((above, within), tt),
              kept,
            )
      ]

  add_slices-IsWorst :
      (flow : Bytes) (sums : Map LedgerSum) (seen : Map ℤ) (done : List (CoverageSlice F) × F)
      → IsWorst done
      → IsWorst (add_slices float64 one div less flow seen sums done)
  unfolding add_slices
  add_slices-IsWorst flow [] seen done h = h
  add_slices-IsWorst flow ((currency, a) ∷ m) seen done h =
      elim (Bool-cases (ltb_ℤ (pos 0) a.minor)) [
        | inr other ↦ rw other (add_slices-IsWorst flow m seen done h)
        | inl positive ↦
            let s = slice_of float64 one div less flow currency a (amount currency seen) in
            rw positive (
              add_slices-IsWorst flow m seen (add_slice float64 one div less s done) (
                add_slice-IsWorst s done
                  (clamp-le (div (float64 (amount currency seen)) (float64 a.minor))) h))
      ]

  -- With an order that is irreflexive and transitive, as `<` of float64 is: where Coverage returns, it has
  -- no slices and gives a reason, or its ratio is the worst of its slices: no slice is below it or above
  -- one, and it is one or the ratio of a slice.
  pub coverage-IsWorst :
      {V : Type 0} (to_int64 : V → ℤ) (reg : Option Registry) (q : Querier V) (req : Request)
      (rows : List LedgerRow) (source : Bytes) (leg : CoverageLeg F)
      (slices : List (CoverageSlice F))
      → coverage float64 one div less to_int64 reg q req rows source ≡ ok (leg, slices)
      → ((slices ≡ []) × (is_nil leg.unavailable ≡ false))
        ⊎ (IsWorst (slices, leg.ratio) × (leg.unavailable ≡ []) × (is_nil slices ≡ false))
  coverage-IsWorst to_int64 reg q req rows source leg slices h =
      coverage-Verdict float64 one div less to_int64 reg q req rows source IsWorst
        (λ flow sums seen done _ j. add_slices-IsWorst flow sums seen done j) leg slices
        (tt, inl refl) h
