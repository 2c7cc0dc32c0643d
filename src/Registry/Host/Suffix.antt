-- ===== src/Registry/Host/Suffix.antt =====
-- A suffix is what stands behind some front.
use shortfall.Prelude.{
  ℕ, zero, suc, ◌-◌, ◌≡◌, refl, sym, ap, ◌∙◌, true, [], ◌∷◌, ◌++◌, arith, Bytes, =?_iff, length,
  length-append, take, drop,
}
use shortfall.Registry.Host.{has_suffix}

take-append-drop : (n : ℕ) (s : Bytes) → take n s ++ drop n s ≡ s
take-append-drop zero s = refl
take-append-drop (suc n) [] = refl
take-append-drop (suc n) (c ∷ s) = ap (λ t. c ∷ t) (take-append-drop n s)

drop-append : (s t : Bytes) → drop (length s) (s ++ t) ≡ t
drop-append [] t = refl
drop-append (c ∷ s) t = drop-append s t

pub has_suffix_sound : (s t : Bytes) → has_suffix s t ≡ true → (front : Bytes) × (s ≡ front ++ t)
unfolding has_suffix
has_suffix_sound s t h =
    let n = length s - length t in
    let e : drop n s ≡ t = ground (arith, =?_iff (drop n s) t) in
    (take n s, sym (take-append-drop n s) ∙ ap (λ u. take n s ++ u) e)

pub has_suffix_complete : (front t : Bytes) → has_suffix (front ++ t) t ≡ true
unfolding has_suffix
has_suffix_complete front t =
    let len = length-append front t in
    let n : length (front ++ t) - length t ≡ length front = omega arith in
    rw (n, drop-append front t) (ground (arith, =?_iff t t))
