-- ===== src/Registry/Trim.antt =====
-- strings.TrimSpace, which drops the white space of Unicode from both ends of a text in UTF-8.
use shortfall.Prelude.{ℕ, zero, suc, Bool, ◌&&◌, ◌||◌, [], ◌∷◌, Bytes, leb, ◌==◌, if◌then◌else◌}
use mathlib.Core.List.{reverse}

ascii_space : ℕ → Bool
ascii_space c = leb 9 c && leb c 13 || c == 32

wide_space : ℕ → ℕ → ℕ → Bool
wide_space c d e =
    c == 0xE1 && d == 0x9A && e == 0x80
    || c == 0xE2 && d == 0x80 && (leb 0x80 e && leb e 0x8A || e == 0xA8 || e == 0xA9 || e == 0xAF)
    || c == 0xE2 && d == 0x81 && e == 0x9F
    || c == 0xE3 && d == 0x80 && e == 0x80

two_space : ℕ → ℕ → Bool
two_space c d = c == 0xC2 && (d == 0x85 || d == 0xA0)

-- the bytes of the white space that a text begins with, zero where it begins with none
width : Bytes → ℕ
unfolding ascii_space two_space wide_space
width [] = 0
width (c ∷ []) = if ascii_space c then 1 else 0
width (c ∷ d ∷ []) = if ascii_space c then 1 else if two_space c d then 2 else 0
width (c ∷ d ∷ e ∷ s) =
    if ascii_space c then 1 else if two_space c d then 2 else if wide_space c d e then 3 else 0

-- the same of a text from its end on
width_back : Bytes → ℕ
unfolding ascii_space two_space wide_space
width_back [] = 0
width_back (c ∷ []) = if ascii_space c then 1 else 0
width_back (d ∷ c ∷ []) = if ascii_space d then 1 else if two_space c d then 2 else 0
width_back (e ∷ d ∷ c ∷ s) =
    if ascii_space e then 1 else if two_space d e then 2 else if wide_space c d e then 3 else 0

-- the first argument counts the bytes that are still to be dropped
trim_by : (Bytes → ℕ) → ℕ → Bytes → Bytes
trim_by f n [] = []
trim_by f (suc n) (c ∷ s) = trim_by f n s
trim_by f zero (c ∷ s) = elim (f (c ∷ s)) [ zero ↦ c ∷ s | suc n ↦ trim_by f n s ]

unfoldable pub trim_space : Bytes → Bytes
unfolding trim_by width width_back
trim_space s = reverse (trim_by width_back 0 (reverse (trim_by width 0 s)))
