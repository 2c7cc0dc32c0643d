-- ===== src/Biz/Money/Cut.antt =====
-- `strings.Cut`: the parts spell the text, and a text that is spelled so is cut so.
use shortfall.Prelude.{
  ℕ, ◌≡◌, refl, ◌≢◌, Bool, true, false, [], ◌∷◌, ◌++◌, arith, ◌==◌, Bool-cases, inl, inr, Bytes,
  All,
}
use shortfall.Biz.Money.{cut}

abbrev pub Lacks : ℕ → Bytes → Type 0
Lacks sep = All (λ c. c ≢ sep)

abbrev pub Spells : ℕ → Bytes → Bytes × Bytes × Bool → Type 0
Spells sep s (before, after, true) = Lacks sep before × (s ≡ before ++ sep ∷ after)
Spells sep s (before, after, false) = Lacks sep before × (s ≡ before) × (after ≡ [])

Spells-cons :
    (sep c : ℕ) (s : Bytes) (r : Bytes × Bytes × Bool)
    → c ≢ sep
    → Spells sep s r
    → Spells sep (c ∷ s) (c ∷ r.0, r.1, r.2)
Spells-cons sep c s (before, after, true) ne (h, e) = ((ne, h), rw e)
Spells-cons sep c s (before, after, false) ne (h, e, n) = ((ne, h), rw e, n)

pub cut_sound : (sep : ℕ) (s : Bytes) → Spells sep s (cut sep s)
unfolding cut
cut_sound sep [] = (tt, refl, refl)
cut_sound sep (c ∷ s) = elim (Bool-cases (c == sep)) [
  | inl same ↦ rw same (tt, ground arith)
  | inr other ↦ rw other (Spells-cons sep c s (cut sep s) (ground arith) (cut_sound sep s))
]

pub cut_found :
    (sep : ℕ) (before after : Bytes)
    → Lacks sep before
    → cut sep (before ++ sep ∷ after) ≡ (before, after, true)
unfolding cut
cut_found sep [] after h = ground arith
cut_found sep (c ∷ before) after h = ground (arith, cut_found sep before after h.1)

pub cut_none : (sep : ℕ) (s : Bytes) → Lacks sep s → cut sep s ≡ (s, [], false)
unfolding cut
cut_none sep [] h = refl
cut_none sep (c ∷ s) h = ground (arith, cut_none sep s h.1)
