-- ===== src/Biz/Money/Parts.antt =====
-- The two parts of a decimal amount, read and combined.
use native.Mathlib.Nat.{mul-le-mul_left}
use shortfall.Prelude.{
  ℕ, ◌+◌, ◌-◌, ◌*◌, ◌^◌, ◌≤◌, ◌≡◌, [], arith, ◌≢◌, Bytes, All, length, Result, Result-cases, ok,
  ◌>>=◌, inl, inr, sym,
}
use shortfall.Prelude.Decimal.{IsDigit, value_from}
use shortfall.Prelude.Int64.{max_int64}
use shortfall.Biz.Money.{scan, ParseError, combine}
use shortfall.Biz.Money.Scale.{scan_sound, scan_complete, combine_lem, scaled_lt, pow_le, pow_pos}

-- The digits and scales of the two parts, once they are cut.
pub record Parts (e : ℕ) (whole frac : Bytes) (v : ℕ) : Type 0 where
  pub whole_some : whole ≢ []
  pub whole_digits : All IsDigit whole
  pub frac_digits : All IsDigit frac
  pub precise : length frac ≤ e
  pub scaled : v ≡ value_from 0 whole * 10 ^ e + value_from 0 frac * 10 ^ (e - length frac)
  pub fits : v ≤ max_int64

-- both parts read, and combined
unfoldable pub both : ℕ → Bytes → Bytes → Result ParseError ℕ
both e whole frac = do w ← scan whole 0; f ← scan frac 0; combine e (length frac) w f

pub both_sound :
    (e : ℕ) (whole frac : Bytes) (v : ℕ)
    → e ≤ 4
    → whole ≢ []
    → length frac ≤ e
    → both e whole frac ≡ ok v
    → Parts e whole frac v
unfolding both
both_sound e whole frac v h some k r = elim (Result-cases (scan whole 0)) [
  | inr (x, a) ↦ let r' = rw a at r in cc
  | inl (w, a) ↦ elim (Result-cases (scan frac 0)) [
    | inr (x, b) ↦ let r' = rw (a, b) at r in cc
    | inl (f, b) ↦
        let (hw, vw, _) = scan_sound whole 0 w (omega arith) a in
        let (hf, vf, _) = scan_sound frac 0 f (omega arith) b in
        let c = combine_lem e (length frac) w f h (rw vf (scaled_lt e frac hf k)) in
        let r' = rw (a, b) at r in
        let exact : (w * 10 ^ e + f * 10 ^ (e - length frac) ≡ v) × (v ≤ max_int64) =
          ground (arith) in
        record {
          whole_some = some;
          whole_digits = hw;
          frac_digits = hf;
          precise = k;
          scaled = rw (← vw, ← vf) (sym exact.0);
          fits = exact.1;
        }
  ]
]

pub both_complete :
    (e : ℕ) (whole frac : Bytes) (v : ℕ) → e ≤ 4 → Parts e whole frac v → both e whole frac ≡ ok v
unfolding both
both_complete e whole frac v h p =
    let pos = pow_pos e in
    let w1 : value_from 0 whole * 1 ≤ value_from 0 whole * 10 ^ e =
      mul-le-mul_left (value_from 0 whole) pos in
    let a = scan_complete whole 0 p.whole_digits (omega (arith, p.scaled, p.fits)) in
    let lt = scaled_lt e frac p.frac_digits p.precise in
    let posf = pow_pos (e - length frac) in
    let f1 : value_from 0 frac * 1 ≤ value_from 0 frac * 10 ^ (e - length frac) =
      mul-le-mul_left (value_from 0 frac) posf in
    let b = scan_complete frac 0 p.frac_digits (omega (arith, pow_le e h)) in
    let c = combine_lem e (length frac) (value_from 0 whole) (value_from 0 frac) h lt in
    rw (a, b, c, ← p.scaled) (ground (arith, p.fits))
