-- ===== src/Prelude/Text.antt =====
-- A Go string is its bytes. Texts are compared whole, byte by byte.
use Prim.Native.Nat.{ℕ}
use Prim.Native.Char.{code}
use Prim.Native.String.{String}
use mathlib.Core.Bool.{Bool, true, false, ◌&&◌}
use mathlib.Core.List.{List, [], ◌∷◌}
use mathlib.Core.Logic.{◌↔◌}
use mathlib.Core.Path.{◌≡◌, refl}
use native.Mathlib.Omega.{arith}
use shortfall.Prelude.Tests.{◌==◌}

abbrev pub Bytes : Type 0
Bytes = List ℕ

-- The code points of a literal, which are its bytes where it is ASCII.
abbrev pub codes : String → Bytes
codes String.[] = []
codes (String.◌∷◌ c s) = code c ∷ codes s

infix 50 ◌=?◌
unfoldable pub ◌=?◌ : Bytes → Bytes → Bool
[] =? [] = true
[] =? (_ ∷ _) = false
(_ ∷ _) =? [] = false
(a ∷ s) =? (b ∷ t) = a == b && s =? t

pub =?_sound : (s t : Bytes) → (s =? t) ≡ true → s ≡ t
unfolding ◌=?◌
=?_sound [] [] h = refl
=?_sound [] (b ∷ t) h = cc
=?_sound (a ∷ s) [] h = cc
=?_sound (a ∷ s) (b ∷ t) h = ground (arith, =?_sound s t)

pub =?_refl : (s : Bytes) → (s =? s) ≡ true
unfolding ◌=?◌
=?_refl [] = refl
=?_refl (a ∷ s) = ground (arith, =?_refl s)

pub =?_iff : (s t : Bytes) → ((s =? t) ≡ true) ↔ (s ≡ t)
=?_iff s t = (=?_sound s t, λ e. rw e (=?_refl t))
