-- ===== src/Biz/Money/Scale.antt =====
-- The digit loop and the scaling of `ParseMinor`: where they do not wrap around, and what they refuse.
use Prim.Native.Nat.{zero-le}
use native.Mathlib.Nat.{
  pow-suc, pow-le-pow_right, mul-le-mul_right, mul-lt-mul_of_pos_right, le-div_iff_mul-le,
}
use shortfall.Prelude.{
  ℕ, zero, suc, ◌+◌, ◌-◌, ◌*◌, ◌%◌, ◌^◌, ◌≤◌, ◌<◌, ◌≡◌, refl, [], ◌∷◌, arith, leb, if◌then◌else◌,
  Bytes, All, length, ok, err, ◌↔◌, ◌∙◌, sym,
}
use shortfall.Prelude.Decimal.{IsDigit, value_from, value_from-shift}
use shortfall.Prelude.Int64.{max_int64}
use shortfall.Biz.Money.{scan, times_ten, ParseError, combine}

pub scan_sound :
    (s : Bytes) (v r : ℕ)
    → v ≤ max_int64
    → scan s v ≡ ok r
    → All IsDigit s × (r ≡ value_from v s) × (r ≤ max_int64)
unfolding scan value_from
scan_sound [] v r fits h = ground arith
scan_sound (c ∷ s) v r fits h = ground (arith, scan_sound s (v * 10 + (c - b'0')) r)

pub le-value_from : (s : Bytes) (n : ℕ) → n ≤ value_from n s
unfolding value_from
le-value_from [] n = omega arith
le-value_from (c ∷ s) n = omega (arith, le-value_from s (n * 10 + (c - b'0')))

pub scan_complete :
    (s : Bytes) (v : ℕ)
    → All IsDigit s
    → value_from v s ≤ max_int64
    → scan s v ≡ ok (value_from v s)
unfolding scan value_from
scan_complete [] v _ _ = refl
scan_complete (c ∷ s) v (hc, hs) fits =
    let m = v * 10 + (c - b'0') in ground (arith, scan_complete s m hs fits, le-value_from s m)

-- As long as the product fits, the loop multiplies by a power of ten.
pub times_ten_lem : (k v : ℕ) → v * 10 ^ k ≤ max_int64 → times_ten k v ≡ v * 10 ^ k
unfolding times_ten
times_ten_lem zero v h = grind arith
times_ten_lem (suc k) v h =
    let p : 1 ≤ 10 ^ k = pow-le-pow_right {n = 10} (omega arith) zero-le in
    let e : v * 10 ^ suc k ≡ v * 10 * 10 ^ k = rw pow-suc (omega arith) in
    let b : v * 10 ≤ v * 10 * 10 ^ k = grind arith in
    let m : v * 10 % 2 ^ 64 ≡ v * 10 = omega arith in
    rw m (times_ten_lem k (v * 10) (omega arith) ∙ sym e)

pub pow_pos : (k : ℕ) → 0 < 10 ^ k
pow_pos k = pow-le-pow_right {n = 10} (omega arith) zero-le

pow-split : (n e : ℕ) → n ≤ e → 10 ^ e ≡ 10 ^ n * 10 ^ (e - n)
pow-split zero e h = let d : e - zero ≡ e = omega arith in rw d (omega arith)
pow-split (suc n) zero h = absurd (omega arith)
pow-split (suc n) (suc e) h =
    let d : suc e - suc n ≡ e - n = omega arith in
    let ih = pow-split n e (omega arith) in rw (d, pow-suc 10 n, pow-suc 10 e, ih) (omega arith)

-- `whole.frac` in units of 10^-n, scaled to units of 10^-e, is exact.
pub scale_exact :
    (n e v w f : ℕ)
    → n ≤ e
    → (v * 10 ^ n ≡ (w * 10 ^ n + f) * 10 ^ e) ↔ (v ≡ w * 10 ^ e + f * 10 ^ (e - n))
scale_exact zero e v w f h =
    let d : e - zero ≡ e = omega arith in rw d (λ p. omega arith, λ p. omega arith)
scale_exact (suc n) zero v w f h = absurd (omega arith)
scale_exact (suc n) (suc e) v w f h =
    let (to, from) = scale_exact n e v (w * 10) f (omega arith) in
    let a : 10 ^ suc n ≡ 10 ^ n * 10 = pow-suc 10 n in
    let b : 10 ^ suc e ≡ 10 ^ e * 10 = pow-suc 10 e in
    let c : suc e - suc n ≡ e - n = omega arith in
    rw (a, b, c)
      (
        λ p. to (omega arith) ∙ omega arith,
        λ p.
            let q : v * 10 ^ n ≡ (w * 10 * 10 ^ n + f) * 10 ^ e = from (p ∙ omega arith) in
            omega arith,
      )

pub value_from-lt : (s : Bytes) → All IsDigit s → value_from 0 s < 10 ^ length s
value_from-lt [] h = unfold value_from in omega arith
value_from-lt (c ∷ s) h =
    let a : value_from 0 (c ∷ s) ≡ (c - b'0') * 10 ^ length s + value_from 0 s =
      unfold value_from in value_from-shift s (0 * 10 + (c - b'0')) ∙ omega arith in
    let ih = value_from-lt s h.1 in
    let b : (c - b'0') * 10 ^ length s ≤ 9 * 10 ^ length s =
      mul-le-mul_right (10 ^ length s) (omega arith) in
    rw pow-suc (omega (arith, a))

-- the scaled fraction is below one major unit
pub scaled_lt :
    (e : ℕ) (s : Bytes)
    → All IsDigit s
    → length s ≤ e
    → value_from 0 s * 10 ^ (e - length s) < 10 ^ e
scaled_lt e s h k =
    rw (pow-split (length s) e k)
      (mul-lt-mul_of_pos_right (value_from-lt s h) (pow_pos (e - length s)))

pub pow_le : (e : ℕ) → e ≤ 4 → 10 ^ e ≤ 10000
pow_le e h = pow-le-pow_right {n = 10} (omega arith) {j = 4} h

pub combine_lem :
    (e n w f : ℕ)
    → e ≤ 4
    → f * 10 ^ (e - n) < 10 ^ e
    → combine e n w f ≡ (
        if leb (w * 10 ^ e + f * 10 ^ (e - n)) max_int64
        then ok (w * 10 ^ e + f * 10 ^ (e - n))
        else err ParseError.overflow)
unfolding combine
combine_lem e n w f h k =
    let small = pow_le e h in
    let one : 1 * 10 ^ e ≡ 10 ^ e = omega arith in
    rw (times_ten_lem (e - n) f (omega arith), times_ten_lem e 1 (omega arith), one)
      (ground (
        arith,
        le-div_iff_mul-le {k = 10 ^ e} {x = w} {y = max_int64 - f * 10 ^ (e - n)} (pow_pos e),
      ))
