-- ===== src/Engine/Severity/Highest.antt =====
-- The severity that SuggestSeverity picks from a ladder.
mod Tests
use shortfall.Prelude.{
  ℕ, zero, suc, ◌+◌, ◌≤◌, ◌<◌, ◌≡◌, refl, sym, ◌∙◌, ap, subst, min, arith, Bool, true, false, not,
  ◌&&◌, ◌||◌, Option, none, some, List, [], ◌∷◌, Bytes, ltb, ◌==◌, ==_iff, length, if◌then◌else◌,
  Bool-cases, ◌⊎◌, inl, inr, All, Result, ok,
}
use mathlib.Core.List.{Memᴰ}
use shortfall.Prelude.Int.{ℤ, pos, ◌-ℤ◌, ◌≤ℤ◌, ◌<ℤ◌, pos_part, neg_part}
use shortfall.Prelude.Maps.{Map}
use shortfall.Engine.{Leg}
use shortfall.Query.{TimeRange}
use shortfall.Registry.{Registry, SeverityThreshold}
use shortfall.Registry.Docs.{RegistryDoc, RegistryError}
use shortfall.Registry.Rules.{is_nil}
use shortfall.Registry.Build.{parse_doc}
use shortfall.Registry.Build.Ladder.{IsLadder, parse_doc-IsLadder}
use shortfall.Engine.Severity.{
  sev_at, reaches, best_of, best_all, at_risk_of, severity_of, suggest_severity,
}

-- the position of the first threshold with a property, the length where there is none
abbrev first_index : (SeverityThreshold → Bool) → List SeverityThreshold → ℕ
first_index p [] = 0
first_index p (t ∷ ts) = let rest = first_index p ts in if p t then 0 else suc rest

-- the name of the first threshold with a property, the empty text where there is none
abbrev pub first_sev : (SeverityThreshold → Bool) → List SeverityThreshold → Bytes
first_sev p [] = []
first_sev p (t ∷ ts) = let rest = first_sev p ts in if p t then t.sev else rest

first_index-le :
    (p : SeverityThreshold → Bool) (ts : List SeverityThreshold) → first_index p ts ≤ length ts
first_index-le p [] = omega arith
first_index-le p (t ∷ ts) = let ih = first_index-le p ts in ground (arith, ih)

first_index-or :
    (p q : SeverityThreshold → Bool) (ts : List SeverityThreshold)
    → first_index (λ t. p t || q t) ts ≡ min (first_index p ts) (first_index q ts)
first_index-or p q [] = refl
first_index-or p q (t ∷ ts) = let ih = first_index-or p q ts in ground (arith, ih)

first_index-false : (ts : List SeverityThreshold) → first_index (λ t. false) ts ≡ length ts
first_index-false [] = refl
first_index-false (t ∷ ts) = ap suc (first_index-false ts)

sev_at-first_index :
    (p : SeverityThreshold → Bool) (ts : List SeverityThreshold)
    → sev_at (first_index p ts) ts ≡ first_sev p ts
unfolding sev_at
sev_at-first_index p [] = refl
sev_at-first_index p (t ∷ ts) = elim (Bool-cases (p t)) [
  | inl reached ↦ rw reached
  | inr short ↦ rw (short, sev_at-first_index p ts)
]

sev_at-length : (ts : List SeverityThreshold) → sev_at (length ts) ts ≡ []
unfolding sev_at
sev_at-length [] = refl
sev_at-length (t ∷ ts) = sev_at-length ts

module _ {F : Type 0} (float64 : ℤ → F) (minutes : ℤ → F) (div : F → F → F)
    (ge : F → F → Bool) where
  -- whether some currency at risk reaches a threshold
  abbrev pub reached_by : F → Map ℤ → SeverityThreshold → Bool
  reached_by mins [] t = false
  reached_by mins ((_, v) ∷ m) t = reaches float64 minutes div ge mins v t || reached_by mins m t

  best_of-min :
      (mins : F) (v : ℤ) (i best : ℕ) (ts : List SeverityThreshold)
      → best ≤ i + length ts
      → best_of float64 minutes div ge mins v i best ts
        ≡ min best (i + first_index (reaches float64 minutes div ge mins v) ts)
  unfolding best_of
  best_of-min mins v i best [] h = omega arith
  best_of-min mins v i best (t ∷ ts) h =
      let ih = best_of-min mins v (suc i) best ts (omega arith) in ground (arith, ih)

  best_all-min :
      (mins : F) (ts : List SeverityThreshold) (best : ℕ) (m : Map ℤ)
      → best ≤ length ts
      → best_all float64 minutes div ge mins ts best m
        ≡ min best (first_index (reached_by mins m) ts)
  unfolding best_all
  best_all-min mins ts best [] h = let e = first_index-false ts in omega arith
  best_all-min mins ts best ((c, v) ∷ m) h =
      let one = best_of-min mins v 0 best ts (omega arith) in
      let p = reaches float64 minutes div ge mins v in
      let more =
        best_all-min mins ts (best_of float64 minutes div ge mins v 0 best ts) m (omega arith) in
      let both = first_index-or p (reached_by mins m) ts in more ∙ omega arith

  severity_of-first_sev :
      (mins : F) (ts : List SeverityThreshold) (m : Map ℤ)
      → severity_of float64 minutes div ge mins ts m ≡ first_sev (reached_by mins m) ts
  unfolding severity_of
  severity_of-first_sev mins ts m =
      let n = first_index (reached_by mins m) ts in
      let le = first_index-le (reached_by mins m) ts in
      let best : best_all float64 minutes div ge mins ts (length ts) m ≡ n =
        best_all-min mins ts (length ts) m (omega arith) ∙ omega arith in
      let at = sev_at-first_index (reached_by mins m) ts in
      let n : ℕ = best_all float64 minutes div ge mins ts (length ts) m in
      let same : sev_at n ts ≡ first_sev (reached_by mins m) ts = ap (λ k. sev_at k ts) best ∙ at in
      elim (Bool-cases (n == length ts)) [
        | inr other ↦ rw (other, same)
        | inl end ↦
            let e = (==_iff n (length ts)).0 end in
            let none_at : sev_at n ts ≡ [] = ap (λ k. sev_at k ts) e ∙ sev_at-length ts in
            let none_first : first_sev (reached_by mins m) ts ≡ [] = sym same ∙ none_at in
            rw (end, none_first)
      ]

-- The highest floor among the thresholds with a property, in a ladder: no threshold has the property, or
-- one with it is named whose floor is at least that of each other.
abbrev pub IsHighest : (SeverityThreshold → Bool) → List SeverityThreshold → Bytes → Type 0
IsHighest p ts sev =
    (All (λ u. p u ≡ false) ts × (sev ≡ []))
    ⊎ ((t : SeverityThreshold) × Memᴰ t ts
        × (sev ≡ t.sev)
        × (p t ≡ true)
        × All (λ u. (p u ≡ false) ⊎ (u.min_per_minute_minor ≤ℤ t.min_per_minute_minor)) ts)

below-All :
    (p : SeverityThreshold → Bool) (t : SeverityThreshold) (ts : List SeverityThreshold)
    → All (λ u. u.min_per_minute_minor <ℤ t.min_per_minute_minor) ts
    → All (λ u. (p u ≡ false) ⊎ (u.min_per_minute_minor ≤ℤ t.min_per_minute_minor)) ts
below-All p t [] h = tt
below-All p t (u ∷ us) (below, h) = (inr (omega arith), below-All p t us h)

first_sev-IsHighest :
    (p : SeverityThreshold → Bool) (ts : List SeverityThreshold)
    → IsLadder ts
    → IsHighest p ts (first_sev p ts)
first_sev-IsHighest p [] h = inl (tt, refl)
first_sev-IsHighest p (t ∷ ts) (_, (below, h)) = elim (Bool-cases (p t)) [
  | inl reached ↦
      inr (t, Memᴰ.head refl, rw reached, reached, (inr (omega arith), below-All p t ts below))
  | inr short ↦ elim (first_sev-IsHighest p ts h) [
    | inl (all, e) ↦ inl ((short, all), rw (short, e))
    | inr (u, at, e, reached, all) ↦ inr (u, Memᴰ.tail at, rw (short, e), reached, (inl short, all))
  ]
]

is_nil-eq : (ts : List SeverityThreshold) → is_nil ts ≡ true → ts ≡ []
is_nil-eq [] h = refl
is_nil-eq (t ∷ ts) h = cc

module _ {F : Type 0} (float64 : ℤ → F) (minutes : ℤ → F) (div : F → F → F)
    (ge : F → F → Bool) where
  -- Over a window of more than no minutes the loop with its best index so far, over all currencies, gives
  -- the name of the first threshold that some currency at risk reaches, and the empty text for none.
  pub suggest_severity-first_sev :
      (reg : Registry) (window : TimeRange) (realized deferred : Leg)
      → ge (float64 (pos 0)) (minutes (window.to -ℤ window.from)) ≡ false
      → suggest_severity float64 minutes div ge (some reg) window realized deferred
        ≡ first_sev
            (reached_by float64 minutes div ge
              (minutes (window.to -ℤ window.from))
              (at_risk_of realized deferred))
            reg.severity
  unfolding suggest_severity
  suggest_severity-first_sev reg window realized deferred h =
      elim (Bool-cases (is_nil reg.severity)) [
        | inl empty ↦ rw (empty, is_nil-eq reg.severity empty)
        | inr some_level ↦ rw (
          some_level,
          h,
          severity_of-first_sev float64 minutes div ge (minutes (window.to -ℤ window.from))
              reg.severity (at_risk_of realized deferred),
        )
      ]

  -- Under a registry that Parse gives back, and over a window of more than no minutes, the suggestion is
  -- the threshold with the highest floor among those that some currency at risk reaches, and the empty
  -- text where none is reached.
  pub suggest_severity-IsHighest :
      (doc : RegistryDoc) (reg : Registry) (window : TimeRange) (realized deferred : Leg)
      → parse_doc doc ≡ ok reg
      → ge (float64 (pos 0)) (minutes (window.to -ℤ window.from)) ≡ false
      → IsHighest
          (reached_by float64 minutes div ge
            (minutes (window.to -ℤ window.from))
            (at_risk_of realized deferred))
          reg.severity
          (suggest_severity float64 minutes div ge (some reg) window realized deferred)
  suggest_severity-IsHighest doc reg window realized deferred h k =
      let p =
        reached_by float64 minutes div ge (minutes (window.to -ℤ window.from))
          (at_risk_of realized deferred) in
      let highest = first_sev-IsHighest p reg.severity (parse_doc-IsLadder doc reg h) in
      subst (IsHighest p reg.severity)
        (sym (suggest_severity-first_sev reg window realized deferred k)) highest
