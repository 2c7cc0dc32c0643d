-- ===== src/Prelude/Decimal.antt =====
-- Decimal numbers as Go's `strconv` and `%d` write them, and the number that digits spell.
use native.Mathlib.Nat.{pow-suc}
use shortfall.Prelude.{
  ℕ, zero, suc, ◌+◌, ◌-◌, ◌*◌, ◌/◌, ◌%◌, ◌^◌, ◌≤◌, ◌<◌, ◌≡◌, refl, ◌≢◌, Bool, ◌&&◌, inl, inr, [],
  ◌∷◌, ◌++◌, arith, ltb, leb, if◌then◌else◌, Bool-cases, Bytes, All, All-append, length,
  length-append, replicate, length-replicate,
}

abbrev pub is_digit : ℕ → Bool
is_digit c = leb b'0' c && leb c b'9'

abbrev pub IsDigit : ℕ → Type 0
IsDigit c = (b'0' ≤ c) × (c ≤ b'9')

-- the number that digits spell behind `n`, with no bound
unfoldable pub value_from : ℕ → Bytes → ℕ
value_from n [] = n
value_from n (c ∷ s) = value_from (n * 10 + (c - b'0')) s

-- The first argument bounds the rounds.
digits_of : ℕ → ℕ → Bytes
digits_of zero n = []
digits_of (suc f) n =
    let rest = digits_of f (n / 10) ++ (b'0' + n % 10) ∷ [] in
    if ltb n 10 then (b'0' + n) ∷ [] else rest

-- `strconv.FormatInt(n, 10)` for n ≥ 0. A number has fewer digits than its successor counts.
unfoldable pub format_ℕ : ℕ → Bytes
unfolding digits_of
format_ℕ n = digits_of (suc n) n

pub value_from-append :
    (s t : Bytes) (n : ℕ) → value_from n (s ++ t) ≡ value_from (value_from n s) t
unfolding value_from
value_from-append [] t n = refl
value_from-append (c ∷ s) t n = value_from-append s t (n * 10 + (c - b'0'))

-- digits behind `n` shift it by their number and add what they spell
pub value_from-shift : (s : Bytes) (n : ℕ) → value_from n s ≡ n * 10 ^ length s + value_from 0 s
unfolding value_from
value_from-shift [] n = grind arith
value_from-shift (c ∷ s) n =
    rw (value_from-shift s (n * 10 + (c - b'0')), value_from-shift s (0 * 10 + (c - b'0')), pow-suc)
      (omega arith)

value_from-digits_of : (f n : ℕ) → n < f → value_from 0 (digits_of f n) ≡ n
unfolding digits_of
value_from-digits_of zero n h = absurd (omega arith)
value_from-digits_of (suc f) n h = elim (Bool-cases (ltb n 10)) [
  | inl small ↦ rw small (unfold value_from in omega arith)
  | inr big ↦ rw big (
      rw (value_from-append (digits_of f (n / 10)), value_from-digits_of f (n / 10) (ground arith))
        (unfold value_from in omega arith))
]

pub value_from-format_ℕ : (n : ℕ) → value_from 0 (format_ℕ n) ≡ n
unfolding format_ℕ
value_from-format_ℕ n = value_from-digits_of (suc n) n (omega arith)

digits_of-IsDigit : (f n : ℕ) → All IsDigit (digits_of f n)
unfolding digits_of
digits_of-IsDigit zero n = tt
digits_of-IsDigit (suc f) n = elim (Bool-cases (ltb n 10)) [
  | inl small ↦ rw small (ground arith)
  | inr big ↦
      rw big
        (All-append IsDigit (digits_of f (n / 10)) _ (digits_of-IsDigit f (n / 10)) (omega arith))
]

pub format_ℕ-IsDigit : (n : ℕ) → All IsDigit (format_ℕ n)
unfolding format_ℕ
format_ℕ-IsDigit n = digits_of-IsDigit (suc n) n

pub format_ℕ-ne-nil : (n : ℕ) → format_ℕ n ≢ []
unfolding format_ℕ digits_of
format_ℕ-ne-nil n = elim (Bool-cases (ltb n 10)) [
  | inl small ↦ rw small (λ e. cc)
  | inr big ↦ rw big (λ e. absurd (
      let h : length (digits_of n (n / 10) ++ (b'0' + n % 10) ∷ []) ≡ 0 = rw e in
      omega (arith, length-append (digits_of n (n / 10)) ((b'0' + n % 10) ∷ []))))
]

length-digits_of : (f n e : ℕ) → n < f → n < 10 ^ suc e → length (digits_of f n) ≤ suc e
unfolding digits_of
length-digits_of zero n e h k = omega arith
length-digits_of (suc f) n zero h k = ground arith
length-digits_of (suc f) n (suc e) h k = elim (Bool-cases (ltb n 10)) [
  | inl small ↦ rw small (omega arith)
  | inr big ↦ rw big (
      let k' : n < 10 ^ suc e * 10 = rw pow-suc at k in
      omega (
        arith,
        length-append (digits_of f (n / 10)) ((b'0' + n % 10) ∷ []),
        length-digits_of f (n / 10) e (ground arith) (omega arith),
      ))
]

-- A number below 10^e has at most e digits.
pub length-format_ℕ : (n e : ℕ) → n < 10 ^ suc e → length (format_ℕ n) ≤ suc e
unfolding format_ℕ
length-format_ℕ n e h = length-digits_of (suc n) n e (omega arith) h

-- `%0*d`: the digits, with zeros in front up to the width.
unfoldable pub pad_zero : ℕ → Bytes → Bytes
pad_zero width s = replicate (width - length s) b'0' ++ s

value_from-replicate : (k : ℕ) (s : Bytes) → value_from 0 (replicate k b'0' ++ s) ≡ value_from 0 s
unfolding value_from
value_from-replicate zero s = refl
value_from-replicate (suc k) s = value_from-replicate k s

pub value_from-pad_zero : (w : ℕ) (s : Bytes) → value_from 0 (pad_zero w s) ≡ value_from 0 s
unfolding pad_zero
value_from-pad_zero w s = value_from-replicate (w - length s) s

replicate-IsDigit : (k : ℕ) → All IsDigit (replicate k b'0')
replicate-IsDigit zero = tt
replicate-IsDigit (suc k) = (omega arith, replicate-IsDigit k)

pub pad_zero-IsDigit : (w : ℕ) (s : Bytes) → All IsDigit s → All IsDigit (pad_zero w s)
unfolding pad_zero
pad_zero-IsDigit w s h = All-append IsDigit _ s (replicate-IsDigit (w - length s)) h

pub length-pad_zero : (w : ℕ) (s : Bytes) → length s ≤ w → length (pad_zero w s) ≡ w
unfolding pad_zero
length-pad_zero w s h = omega (
  arith,
  length-append (replicate (w - length s) b'0') s,
  length-replicate {A = ℕ} (w - length s) b'0',
)
