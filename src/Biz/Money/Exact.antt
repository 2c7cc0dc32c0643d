-- ===== src/Biz/Money/Exact.antt =====
-- What `ParseMinor` accepts, and the amount that it returns.
use shortfall.Prelude.{
  ℕ, ◌+◌, ◌-◌, ◌*◌, ◌^◌, ◌≤◌, ◌≡◌, refl, Bool, true, false, [], ◌∷◌, ◌++◌, arith, ltb, ◌≢◌, ◌==◌,
  Bytes, All, length, ok, Bool-cases, inl, inr, ◌⊎◌, ◌↔◌, ◌∙◌, sym,
}
use shortfall.Prelude.Decimal.{IsDigit, value_from, value_from-append, value_from-shift}
use shortfall.Prelude.Int.{ℤ, pos, ◌≤ℤ◌, pos_part, pos_part-le}
use shortfall.Prelude.Int64.{max_int64}
use shortfall.Biz.Money.{bad_exponent_test, scan, parse_parts, parse_minor, cut}
use mathlib.Core.List.{cons-ne-nil}
use shortfall.Biz.Money.Cut.{Lacks, Spells, cut_sound, cut_found, cut_none}
use shortfall.Biz.Money.Parts.{Parts, both, both_sound, both_complete}
use shortfall.Biz.Money.Scale.{scale_exact}

-- `s` is a decimal number with at most `e` decimals, and `v` is that number in units of 10^-e.
pub record IsAmount (e : ℕ) (s : Bytes) (v : ℕ) : Type 0 where
  pub whole : Bytes
  pub frac : Bytes
  pub spelled : ((s ≡ whole) × (frac ≡ [])) ⊎ ((s ≡ whole ++ b'.' ∷ frac) × (frac ≢ []))
  pub whole_some : whole ≢ []
  pub whole_digits : All IsDigit whole
  pub frac_digits : All IsDigit frac
  pub precise : length frac ≤ e
  pub exact : v * 10 ^ length frac ≡ value_from 0 (whole ++ frac) * 10 ^ e
  pub fits : v ≤ max_int64

Parts-exact :
    (e : ℕ) (whole frac : Bytes) (v : ℕ)
    → length frac ≤ e
    → (v * 10 ^ length frac ≡ value_from 0 (whole ++ frac) * 10 ^ e)
      ↔ (v ≡ value_from 0 whole * 10 ^ e + value_from 0 frac * 10 ^ (e - length frac))
Parts-exact e whole frac v h =
    rw (value_from-append whole frac 0, value_from-shift frac (value_from 0 whole))
      (scale_exact (length frac) e v (value_from 0 whole) (value_from 0 frac) h)

pub IsAmount-of_Parts :
    (e : ℕ) (s whole frac : Bytes) (v : ℕ)
    → ((s ≡ whole) × (frac ≡ [])) ⊎ ((s ≡ whole ++ b'.' ∷ frac) × (frac ≢ []))
    → Parts e whole frac v
    → IsAmount e s v
IsAmount-of_Parts e s whole frac v how p = record {
  whole = whole;
  frac = frac;
  spelled = how;
  whole_some = p.whole_some;
  whole_digits = p.whole_digits;
  frac_digits = p.frac_digits;
  precise = p.precise;
  exact = (Parts-exact e whole frac v p.precise).1 p.scaled;
  fits = p.fits;
}

Parts-of_IsAmount : {e : ℕ} {s : Bytes} {v : ℕ} (a : IsAmount e s v) → Parts e a.whole a.frac v
Parts-of_IsAmount {e} {s} {v} a = record {
  whole_some = a.whole_some;
  whole_digits = a.whole_digits;
  frac_digits = a.frac_digits;
  precise = a.precise;
  scaled = (Parts-exact e a.whole a.frac v a.precise).0 a.exact;
  fits = a.fits;
}

parse_parts_dot :
    (e : ℕ) (whole frac : Bytes)
    → whole ≢ []
    → frac ≢ []
    → length frac ≤ e
    → parse_parts e (whole, frac, true) ≡ both e whole frac
unfolding parse_parts both
parse_parts_dot e [] frac h k l = absurd (h refl)
parse_parts_dot e (c ∷ whole) [] h k l = absurd (k refl)
parse_parts_dot e (c ∷ whole) (d ∷ frac) h k l =
    let z : (e == 0) ≡ false = ground arith in
    let p : ltb e (length (d ∷ frac)) ≡ false = ground arith in rw (z, p)

parse_parts_whole :
    (e : ℕ) (whole : Bytes) → whole ≢ [] → parse_parts e (whole, [], false) ≡ both e whole []
unfolding parse_parts both scan
parse_parts_whole e [] h = absurd (h refl)
parse_parts_whole e (c ∷ whole) h = refl

-- what the tests in front of the digit loops let through
parse_parts_tests :
    (e : ℕ) (whole frac : Bytes) (dot : Bool) {v : ℕ}
    → parse_parts e (whole, frac, dot) ≡ ok v
    → (whole ≢ []) × (dot ≡ true → (frac ≢ []) × (length frac ≤ e))
unfolding parse_parts
parse_parts_tests e [] frac dot r = cc
parse_parts_tests e (c ∷ whole) frac false r = (cons-ne-nil c whole, λ h. cc)
parse_parts_tests e (c ∷ whole) [] true r = cc
parse_parts_tests e (c ∷ whole) (d ∷ frac) true r = elim (Bool-cases (ltb e (length (d ∷ frac)))) [
  | inr fine ↦ (cons-ne-nil c whole, λ _. (cons-ne-nil d frac, ground arith))
  | inl long ↦ ground arith
]

parse_parts_sound :
    (e : ℕ) (s : Bytes) (r : Bytes × Bytes × Bool) (v : ℕ)
    → e ≤ 4
    → Spells b'.' s r
    → parse_parts e r ≡ ok v
    → IsAmount e s v
parse_parts_sound e s (whole, frac, true) v h k r =
    let (some, rest) = parse_parts_tests e whole frac true r in
    let (filled, short) = rest refl in
    IsAmount-of_Parts e s whole frac v (inr (k.1, filled)) (
      both_sound e whole frac v h some short
        (sym (parse_parts_dot e whole frac some filled short) ∙ r))
parse_parts_sound e s (whole, frac, false) v h k r =
    let some = (parse_parts_tests e whole frac false r).0 in
    let r' : parse_parts e (whole, [], false) ≡ ok v = rw k.2 at r in
    IsAmount-of_Parts e s whole [] v (inl (k.1, refl))
      (both_sound e whole [] v h some (omega arith) (sym (parse_parts_whole e whole some) ∙ r'))

pub digits-Lacks_dot : (s : Bytes) → All IsDigit s → Lacks b'.' s
digits-Lacks_dot [] h = tt
digits-Lacks_dot (c ∷ s) h = (omega (arith, h.0), digits-Lacks_dot s h.1)

parse_parts_complete :
    (e : ℕ) (s : Bytes) (v : ℕ) → e ≤ 4 → IsAmount e s v → parse_parts e (cut b'.' s) ≡ ok v
parse_parts_complete e s v h a = elim a.spelled [
  | inl (all, none) ↦
      let p : Parts e a.whole [] v = rw none at (Parts-of_IsAmount a) in
      rw (all, cut_none b'.' a.whole (digits-Lacks_dot a.whole a.whole_digits))
        (parse_parts_whole e a.whole a.whole_some ∙ both_complete e a.whole [] v h p)
  | inr (parts, some) ↦
      rw (parts, cut_found b'.' a.whole a.frac (digits-Lacks_dot a.whole a.whole_digits))
        (parse_parts_dot e a.whole a.frac a.whole_some some a.precise
          ∙ both_complete e a.whole a.frac v h (Parts-of_IsAmount a))
]

parse_minor_sound :
    (s : Bytes) (e : ℤ) (v : ℕ)
    → parse_minor s e ≡ ok v
    → (pos 0 ≤ℤ e) × (e ≤ℤ pos 4) × IsAmount (pos_part e) s v
unfolding parse_minor
parse_minor_sound s e v r = elim (Bool-cases (bad_exponent_test e)) [
  | inl bad ↦ let r' = rw bad at r in cc
  | inr fine ↦
      let r' : parse_parts (pos_part e) (cut b'.' s) ≡ ok v = rw fine at r in
      let lo : pos 0 ≤ℤ e = ground arith in
      let hi : e ≤ℤ pos 4 = ground arith in
      (
        lo,
        hi,
        parse_parts_sound (pos_part e) s (cut b'.' s) v (pos_part-le e 4 hi) (cut_sound b'.' s) r',
      )
]

parse_minor_complete :
    (s : Bytes) (e : ℤ) (v : ℕ)
    → (pos 0 ≤ℤ e) × (e ≤ℤ pos 4) × IsAmount (pos_part e) s v
    → parse_minor s e ≡ ok v
unfolding parse_minor
parse_minor_complete s e v (lo, hi, a) =
    let fine : bad_exponent_test e ≡ false = ground arith in
    rw fine (parse_parts_complete (pos_part e) s v (pos_part-le e 4 hi) a)

-- `ParseMinor` succeeds exactly on a decimal number with one digit or more before an optional dot, from
-- one to as many decimals behind it as the exponent, an exponent from 0 to 4, and a value that
-- fits int64; and then it returns that value, exactly.
pub parse_minor_exact :
    (s : Bytes) (e : ℤ) (v : ℕ)
    → (parse_minor s e ≡ ok v) ↔ ((pos 0 ≤ℤ e) × (e ≤ℤ pos 4) × IsAmount (pos_part e) s v)
parse_minor_exact s e v = (parse_minor_sound s e v, parse_minor_complete s e v)
