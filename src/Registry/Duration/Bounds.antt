-- ===== src/Registry/Duration/Bounds.antt =====
-- What a parsed duration is bounded by.
use shortfall.Prelude.{
  ℕ, ◌+◌, ◌-◌, ◌*◌, ◌%◌, ◌≤◌, ◌<◌, ◌≡◌, refl, Bool, true, false, not, ◌&&◌, Option, Option-cases,
  none, some, [], ◌∷◌, arith, Bytes, ltb, ◌==◌, Bool-cases, inl, inr,
}
use shortfall.Prelude.Decimal.{is_digit}
use shortfall.Biz.Money.{cut}
use shortfall.Registry.Duration.{
  Units, max_duration_seconds, find_unit, add_seconds, parse_units, both_parts, positive, is_empty,
  parse_iso_duration, date_units, time_units,
}

add_seconds-le : (n per total r : ℕ) → add_seconds n per total ≡ some r → r ≤ max_duration_seconds
unfolding add_seconds
add_seconds-le n per total r h = ground arith

parse_units-le :
    (s : Bytes) (units : Units) (o : Option ℕ) (total r : ℕ)
    → total ≤ max_duration_seconds
    → parse_units units o total s ≡ some r
    → r ≤ max_duration_seconds
unfolding parse_units
parse_units-le [] units none total r le h = ground arith
parse_units-le [] units (some n) total r le h = cc
parse_units-le (c ∷ s) units none total r le h = elim (Bool-cases (is_digit c)) [
  | inr other ↦ let h' = rw other at h in cc
  | inl digit ↦ elim (Bool-cases (ltb max_duration_seconds (0 * 10 + (c - b'0')))) [
    | inl big ↦ let h' = rw (digit, big) at h in cc
    | inr small ↦
        let h' = rw (digit, small) at h in
        parse_units-le s units (some (0 * 10 + (c - b'0'))) total r le h'
  ]
]
parse_units-le (c ∷ s) units (some n) total r le h = elim (Bool-cases (is_digit c)) [
  | inl digit ↦ elim (Bool-cases (ltb max_duration_seconds (n * 10 + (c - b'0')))) [
    | inl big ↦ let h' = rw (digit, big) at h in cc
    | inr small ↦
        let h' = rw (digit, small) at h in
        parse_units-le s units (some (n * 10 + (c - b'0'))) total r le h'
  ]
  | inr other ↦ elim (Option-cases (find_unit c units)) [
    | inl unknown ↦ let h' = rw (other, unknown) at h in cc
    | inr ((per_unit, units'), known) ↦ elim (Option-cases (add_seconds n per_unit total)) [
      | inl big ↦ let h' = rw (other, known, big) at h in cc
      | inr (total', fits) ↦
          let h' = rw (other, known, fits) at h in
          parse_units-le s units' none total' r (add_seconds-le n per_unit total total' fits) h'
    ]
  ]
]

both_parts-le :
    (date_part time_part : Bytes) (has_t : Bool) (r : ℕ)
    → both_parts (date_part, time_part, has_t) ≡ some r
    → r ≤ max_duration_seconds
unfolding both_parts
both_parts-le date_part [] true r h = cc
both_parts-le date_part time_part false r h =
    elim (Option-cases (parse_units date_units none 0 date_part)) [
      | inl bad ↦ let h' = rw bad at h in cc
      | inr (total, good) ↦
          let h' = rw good at h in
          let le = parse_units-le date_part date_units none 0 total (omega arith) good in
          ground arith
    ]
both_parts-le date_part (c ∷ time_part) true r h =
    elim (Option-cases (parse_units date_units none 0 date_part)) [
      | inl bad ↦ let h' = rw bad at h in cc
      | inr (total, good) ↦
          let h' = rw good at h in
          let le = parse_units-le date_part date_units none 0 total (omega arith) good in
          parse_units-le (c ∷ time_part) time_units none total r le h'
    ]

positive-le :
    (o : Option ℕ) (d : ℕ)
    → ((r : ℕ) → o ≡ some r → r ≤ max_duration_seconds)
    → positive o ≡ some d
    → (0 < d) × (d ≤ 315360000000000000) × (d % 1000000000 ≡ 0)
positive-le none d le h = cc
positive-le (some total) d le h = let small = le total refl in ground (arith, small)

-- A parsed duration is a positive whole number of seconds, at most ten years of 365 days.
pub parse_iso_duration-le :
    (s : Bytes) (d : ℕ)
    → parse_iso_duration s ≡ some d
    → (0 < d) × (d ≤ 315360000000000000) × (d % 1000000000 ≡ 0)
unfolding parse_iso_duration
parse_iso_duration-le [] d h = cc
parse_iso_duration-le (c ∷ rest) d h = elim (Bool-cases (c == b'P' && not (is_empty rest))) [
  | inr bad ↦ let h' = rw bad at h in cc
  | inl good ↦
      let h' = rw good at h in
      positive-le (both_parts (cut b'T' rest)) d
        (both_parts-le (cut b'T' rest).0 (cut b'T' rest).1 (cut b'T' rest).2) h'
]
