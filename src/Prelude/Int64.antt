-- ===== src/Prelude/Int64.antt =====
-- Go's int64: an integer in [-2^63, 2^63), with the wrap-around of its addition.
use shortfall.Prelude.{ℕ, ◌-◌, ◌%◌, ◌^◌, ◌≤◌, ◌≡◌, ◌∙◌, arith, ltb, if◌then◌else◌}
use shortfall.Prelude.Int.{ℤ, pos, negsuc, ◌+ℤ◌, pos_part, neg_part}

abbrev pub max_int64 : ℕ
max_int64 = 2 ^ 63 - 1

-- The two's complement pattern of an integer, and the integer that a pattern stands for.
abbrev bits : ℤ → ℕ
bits (pos n) = n % 2 ^ 64
bits (negsuc n) = 2 ^ 64 - 1 - n % 2 ^ 64

abbrev of_bits : ℕ → ℤ
of_bits b = if ltb b (2 ^ 63) then pos b else negsuc (2 ^ 64 - 1 - b)

unfoldable pub wrap64 : ℤ → ℤ
wrap64 a = of_bits (bits a)

-- `a + b` on int64.
unfoldable pub add64 : ℤ → ℤ → ℤ
unfolding wrap64
add64 a b = wrap64 (a +ℤ b)

abbrev pub Fits : ℤ → Type 0
Fits a = (pos_part a ≤ max_int64) × (neg_part a ≤ 2 ^ 63)

pub wrap64_of_Fits : (a : ℤ) → Fits a → wrap64 a ≡ a
unfolding wrap64
wrap64_of_Fits (pos n) h = ground arith
wrap64_of_Fits (negsuc n) h = ground arith

pub wrap64-Fits : (a : ℤ) → Fits (wrap64 a)
unfolding wrap64
wrap64-Fits (pos n) = ground arith
wrap64-Fits (negsuc n) = ground arith

pub add64_of_Fits : (a b : ℤ) → Fits (a +ℤ b) → add64 a b ≡ a +ℤ b
unfolding add64
add64_of_Fits a b h = wrap64_of_Fits (a +ℤ b) h

pub add64-Fits : (a b : ℤ) → Fits (add64 a b)
unfolding add64
add64-Fits a b = wrap64-Fits (a +ℤ b)

+ℤ_zero : (a : ℤ) → a +ℤ pos 0 ≡ a
unfolding ◌+ℤ◌
+ℤ_zero (pos n) = ground arith
+ℤ_zero (negsuc n) = ground arith

pub add64_zero : (a : ℤ) → Fits a → add64 a (pos 0) ≡ a
add64_zero a h = add64_of_Fits a (pos 0) (rw (+ℤ_zero a) h) ∙ +ℤ_zero a
