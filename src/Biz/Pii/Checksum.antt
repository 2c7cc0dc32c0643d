-- ===== src/Biz/Pii/Checksum.antt =====
-- The incremental IBAN checksum against the number that the rearranged text spells.
use shortfall.Prelude.{
  ℕ, ◌+◌, ◌-◌, ◌/◌, ◌%◌, ◌≡◌, refl, true, ◌||◌, some, [], ◌∷◌, ◌++◌, arith, Bytes, if◌then◌else◌,
  take, drop, All, All-take, All-drop, Bool-cases, inl, inr,
}
use shortfall.Prelude.Decimal.{is_digit, value_from, value_from-append}
use shortfall.Biz.Pii.{feed, feed_all, iban_mod97, is_upper, is_lower, is_letter}

-- a letter spelled as the two digits of 10 to 35, a digit as itself
unfoldable pub spelled : Bytes → Bytes
spelled [] = []
spelled (c ∷ s) =
    let rest = spelled s in
    let two = λ (v : ℕ). (b'0' + v / 10) ∷ (b'0' + v % 10) ∷ rest in
    if is_digit c then c ∷ rest else if is_upper c then two (c - b'A' + 10) else two (c - b'a' + 10)

abbrev pub IsAlnum : ℕ → Type 0
IsAlnum c = (is_letter c || is_digit c) ≡ true

feed_all-spelled :
    (s : Bytes) (rem n : ℕ)
    → All IsAlnum s
    → rem ≡ n % 97
    → feed_all (some rem) s ≡ some (value_from n (spelled s) % 97)
unfolding feed_all spelled value_from feed
feed_all-spelled [] rem n h e = ground arith
feed_all-spelled (c ∷ s) rem n h e = elim (Bool-cases (is_digit c)) [
  | inl digit ↦ rw digit (feed_all-spelled s _ _ h.1 (omega (arith, e)))
  | inr other ↦ elim (Bool-cases (is_upper c)) [
    | inl upper ↦ rw (other, upper) (feed_all-spelled s _ _ h.1 (ground arith))
    | inr small ↦
        let lower : is_lower c ≡ true = ground arith in
        rw (other, small, lower) (feed_all-spelled s _ _ h.1 (ground arith))
  ]
]

pub spelled-append : (s t : Bytes) → spelled (s ++ t) ≡ spelled s ++ spelled t
unfolding spelled
spelled-append [] t = refl
spelled-append (c ∷ s) t = ground (arith, spelled-append s t)

-- The checksum of a text of letters and digits is the remainder modulo 97 of the decimal number that
-- the text spells once its first four characters stand at its end and each letter is written as the two
-- digits of 10 to 35.
pub iban_mod97_exact :
    (s : Bytes)
    → All IsAlnum s
    → iban_mod97 s ≡ some (value_from 0 (spelled (drop 4 s ++ take 4 s)) % 97)
unfolding iban_mod97
iban_mod97_exact s h =
    let front = feed_all-spelled (drop 4 s) 0 0 (All-drop IsAlnum 4 s h) refl in
    let back =
      feed_all-spelled (take 4 s) _ (value_from 0 (spelled (drop 4 s))) (All-take IsAlnum 4 s h)
        refl in
    rw (
      front,
      back,
      spelled-append (drop 4 s) (take 4 s),
      value_from-append (spelled (drop 4 s)) (spelled (take 4 s)) 0,
    )
