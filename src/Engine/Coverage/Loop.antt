-- ===== src/Engine/Coverage/Loop.antt =====
-- What the loop over the flows keeps, and what Coverage makes of it.
use shortfall.Prelude.{
  ◌≡◌, refl, subst, ◌⊎◌, inl, inr, Bool, false, Bool-cases, Option, none, some, List, [], ◌∷◌,
  Bytes, ok, >>=-ok, ok-injective,
}
use shortfall.Prelude.Int.{ℤ}
use shortfall.Prelude.Maps.{Map, find}
use shortfall.Biz.Context.{LedgerRow}
use shortfall.Query.{TimeRange, Querier}
use shortfall.Registry.{Registry}
use shortfall.Registry.Rules.{is_nil}
use shortfall.Engine.{Request}
use shortfall.Engine.Coverage.{
  CoverageSlice, CoverageLeg, LedgerSum, book_all, flows_or, read_stage, telemetry_success_value,
  Progress, add_slices, cover_flow, cover_known, cover_flows, finished, coverage,
}

module _ {F : Type 0} (float64 : ℤ → F) (one : F) (div : F → F → F) (less : F → F → Bool)
    {V : Type 0} (to_int64 : V → ℤ) (reg : Option Registry) (q : Querier V)
    (ledger : Map (Map LedgerSum)) (J : Progress float64 one div less → Type 0)
    (keep : (flow : Bytes) (sums : Map LedgerSum) (seen : Map ℤ)
        (done : Progress float64 one div less)
      → find flow ledger ≡ some sums
      → J done
      → J (add_slices float64 one div less flow seen sums done)) where
  cover_known-keeps :
      (window : TimeRange) (o : Option (Map LedgerSum)) (flow : Bytes)
      (done done' : Progress float64 one div less)
      → find flow ledger ≡ o
      → cover_known float64 one div less to_int64 reg q window o flow done ≡ ok done'
      → J done
      → J done'
  unfolding cover_flow
  cover_known-keeps window none flow done done' e h j = subst J (ok-injective done done' h) j
  cover_known-keeps window (some sums) flow done done' e h j =
      let (stage, _, h₁) = >>=-ok (read_stage reg flow) _ _ h in
      let (seen, _, h₂) = >>=-ok (telemetry_success_value to_int64 q flow stage window) _ _ h₁ in
      subst J (ok-injective _ done' h₂) (keep flow sums seen done e j)

  pub cover_flows-keeps :
      (window : TimeRange) (flows : List Bytes) (done done' : Progress float64 one div less)
      → cover_flows float64 one div less to_int64 reg q window ledger flows done ≡ ok done'
      → J done
      → J done'
  unfolding cover_flows
  cover_flows-keeps window [] done done' h j = subst J (ok-injective done done' h) j
  cover_flows-keeps window (flow ∷ flows) done done' h j =
      let (next, covered, h₁) =
        >>=-ok (cover_known float64 one div less to_int64 reg q window (find flow ledger) flow done)
          _ _ h in
      cover_flows-keeps window flows next done' h₁
        (cover_known-keeps window (find flow ledger) flow done next refl covered j)

module _ {F : Type 0} (float64 : ℤ → F) (one : F) (div : F → F → F) (less : F → F → Bool) where
  -- No slices and a reason, or slices that the loop has kept the property of, with their worst ratio.
  abbrev pub Verdict :
      (Progress float64 one div less → Type 0) → CoverageLeg F → List (CoverageSlice F) → Type 0
  Verdict J leg slices =
      ((slices ≡ []) × (is_nil leg.unavailable ≡ false))
      ⊎ (J (slices, leg.ratio) × (leg.unavailable ≡ []) × (is_nil slices ≡ false))

  finished-Verdict :
      (J : Progress float64 one div less → Type 0) (window : TimeRange) (source : Bytes)
      (done : Progress float64 one div less)
      → J done
      → Verdict J
          (finished float64 one div less window source done).0
          (finished float64 one div less window source done).1
  finished-Verdict J window source ([], worst) j = inl (refl, refl)
  finished-Verdict J window source (s ∷ slices, worst) j = inr (j, refl, refl)

  pub coverage-Verdict :
      {V : Type 0} (to_int64 : V → ℤ) (reg : Option Registry) (q : Querier V) (req : Request)
      (rows : List LedgerRow) (source : Bytes) (J : Progress float64 one div less → Type 0)
      (keep : (flow : Bytes) (sums : Map LedgerSum) (seen : Map ℤ)
          (done : Progress float64 one div less)
        → find flow (book_all rows []) ≡ some sums
        → J done
        → J (add_slices float64 one div less flow seen sums done))
      (leg : CoverageLeg F) (slices : List (CoverageSlice F))
      → J ([], one)
      → coverage float64 one div less to_int64 reg q req rows source ≡ ok (leg, slices)
      → Verdict J leg slices
  unfolding coverage
  coverage-Verdict to_int64 reg q req rows source J keep leg slices start h =
      elim (Bool-cases (is_nil (book_all rows []))) [
        | inl empty ↦
            let h' = rw empty at h in
            subst (λ x. Verdict J x.0 x.1) (ok-injective _ (leg, slices) h') (inl (refl, refl))
        | inr booked ↦
            let h' = rw booked at h in
            let flows = flows_or req.flows (book_all rows []) in
            let (done, covered, e) =
              >>=-ok
                (cover_flows float64 one div less to_int64 reg q req.window (book_all rows []) flows
                  ([], one))
                _ _ h' in
            let j =
              cover_flows-keeps float64 one div less to_int64 reg q (book_all rows []) J keep
                req.window flows ([], one) done covered start in
            subst (λ x. Verdict J x.0 x.1) (ok-injective _ (leg, slices) e)
              (finished-Verdict J req.window source done j)
      ]
