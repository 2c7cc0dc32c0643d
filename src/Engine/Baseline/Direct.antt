-- ===== src/Engine/Baseline/Direct.antt =====
-- The buckets of the hours of the week against the samples that they are filled from.
use shortfall.Prelude.{
  ℕ, ◌<◌, ◌≡◌, refl, sym, ap, ◌∙◌, false, ◌&&◌, List, [], ◌∷◌, ◌++◌, map, append_assoc, append-nil,
  ◌==◌, ==_iff, Bool-cases, inl, inr, if◌then◌else◌, ok, arith,
}
use shortfall.Prelude.Int.{ℤ, pos, negsuc, ltb_ℤ}
use shortfall.Biz.Context.{Time}
use shortfall.Engine.Floats.{Floats}
use shortfall.Engine.Baseline.{
  Sample, Expectation, Config, hour_of_week, hour_of_day, floor_mod, floor_div, hour, earliest_of,
  in_lookback, append_at, fill, expectation, expect_all, expected,
}

-- an instant's hour of the week has one of the 168 buckets
floor_mod_lt : (t : ℤ) (d : ℕ) → 0 < d → floor_mod t d < d
floor_mod_lt (pos n) d lt = omega arith
floor_mod_lt (negsuc n) d lt = omega arith

pub hour_of_week_lt : (t : Time) → hour_of_week t < 168
unfolding hour_of_week hour_of_day
hour_of_week_lt t = let h = floor_mod_lt (floor_div t hour) 24 (omega arith) in omega arith

module _ {F : Type 0} (fl : Floats F) where
  -- the counts of the samples that a target's hour rests on, in their order
  abbrev pub basis : Config → Time → ℕ → List (Sample F) → List F
  basis cfg earliest h [] = []
  basis cfg earliest h (s ∷ history) =
      if in_lookback cfg earliest s.at && hour_of_week s.at == h
      then s.count ∷ basis cfg earliest h history
      else basis cfg earliest h history

  append_at_lem :
      (buckets : ℕ → List F) (k h : ℕ) (x : F) (rest : List F)
      → append_at buckets k x h ++ rest ≡ buckets h ++ (if k == h then x ∷ rest else rest)
  append_at_lem buckets k h x rest = elim (Bool-cases (k == h)) [
    | inr other ↦ rw other
    | inl same ↦
        let e = ap (λ i. buckets i ++ x ∷ rest) ((==_iff k h).0 same) in
        rw same (append_assoc (buckets k) (x ∷ []) rest ∙ e)
  ]

  fill_lem :
      (cfg : Config) (earliest : Time) (history : List (Sample F)) (buckets : ℕ → List F) (h : ℕ)
      → fill fl cfg earliest history buckets h ≡ buckets h ++ basis cfg earliest h history
  unfolding fill
  fill_lem cfg earliest [] buckets h = sym (append-nil (buckets h))
  fill_lem cfg earliest (s ∷ history) buckets h =
      elim (Bool-cases (in_lookback cfg earliest s.at)) [
        | inr out ↦ rw out (fill_lem cfg earliest history buckets h)
        | inl kept ↦
            let rest = basis cfg earliest h history in
            let next = append_at buckets (hour_of_week s.at) s.count in
            rw kept (
              fill_lem cfg earliest history next h
              ∙ append_at_lem buckets (hour_of_week s.at) h s.count rest)
      ]

  -- the expectation of a target over the whole history
  abbrev pub direct : Config → List (Sample F) → Time → Time → Expectation F
  direct cfg history earliest t = expectation fl t (basis cfg earliest (hour_of_week t) history)

  pub expect_all_lem :
      (cfg : Config) (history : List (Sample F)) (earliest : Time) (ts : List Time)
      → expect_all fl (fill fl cfg earliest history (λ _. [])) ts
        ≡ map (direct cfg history earliest) ts
  expect_all_lem cfg history earliest [] = refl
  expect_all_lem cfg history earliest (t ∷ ts) = rw (
    fill_lem cfg earliest history (λ _. []) (hour_of_week t),
    expect_all_lem cfg history earliest ts,
  )

  -- For a lookback of at least one week, the baseline gives every target instant, in their order, the
  -- expectation over exactly the counts of the samples of its hour of the week that are no holiday and
  -- lie in the lookback before the earliest target.
  pub expected-direct :
      (history : List (Sample F)) (t : Time) (ts : List Time) (cfg : Config)
      → ltb_ℤ cfg.lookback_weeks (pos 1) ≡ false
      → expected fl history (t ∷ ts) cfg ≡ ok (map (direct cfg history (earliest_of t ts)) (t ∷ ts))
  unfolding expected
  expected-direct history t ts cfg enough =
      rw enough (ap ok (expect_all_lem cfg history (earliest_of t ts) (t ∷ ts)))
