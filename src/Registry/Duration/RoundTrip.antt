-- ===== src/Registry/Duration/RoundTrip.antt =====
-- A duration that is written out is read back.
use shortfall.Prelude.{
  ℕ, ◌+◌, ◌-◌, ◌*◌, ◌/◌, ◌≤◌, ◌<◌, ◌≡◌, refl, ap, ◌∙◌, ◌≢◌, true, false, none, some, [], ◌∷◌, ◌++◌,
  arith, Bytes, ltb, ◌==◌, All, All-append,
}
use shortfall.Prelude.Decimal.{
  is_digit, IsDigit, value_from, format_ℕ, value_from-format_ℕ, format_ℕ-IsDigit, format_ℕ-ne-nil,
}
use shortfall.Biz.Money.Cut.{Lacks, cut_found}
use shortfall.Registry.Duration.{
  Units, max_duration_seconds, find_unit, add_seconds, parse_units, both_parts, positive, is_empty,
  parse_iso_duration, date_units, time_units,
}

value_from-ge : (s : Bytes) (v : ℕ) → v ≤ value_from v s
unfolding value_from
value_from-ge [] v = omega arith
value_from-ge (c ∷ s) v = omega (arith, value_from-ge s (v * 10 + (c - b'0')))

-- digits add up behind a value, as long as the bound holds
parse_units-digits :
    (units : Units) (s t : Bytes) (v total : ℕ)
    → All IsDigit s
    → value_from v s ≤ max_duration_seconds
    → parse_units units (some v) total (s ++ t) ≡ parse_units units (some (value_from v s)) total t
unfolding parse_units value_from
parse_units-digits units [] t v total h le = refl
parse_units-digits units (c ∷ s) t v total h le =
    let digit : is_digit c ≡ true = ground (arith, h.0) in
    let small : ltb max_duration_seconds (v * 10 + (c - b'0')) ≡ false =
      ground (arith, value_from-ge s (v * 10 + (c - b'0'))) in
    rw (digit, small) (parse_units-digits units s t (v * 10 + (c - b'0')) total h.1 le)

parse_units-number :
    (units : Units) (s t : Bytes) (total : ℕ)
    → s ≢ []
    → All IsDigit s
    → value_from 0 s ≤ max_duration_seconds
    → parse_units units none total (s ++ t) ≡ parse_units units (some (value_from 0 s)) total t
unfolding parse_units value_from
parse_units-number units [] t total ne h le = absurd (ne refl)
parse_units-number units (c ∷ s) t total ne h le =
    let digit : is_digit c ≡ true = ground (arith, h.0) in
    let small : ltb max_duration_seconds (0 * 10 + (c - b'0')) ≡ false =
      ground (arith, value_from-ge s (0 * 10 + (c - b'0'))) in
    rw (digit, small) (parse_units-digits units s t (0 * 10 + (c - b'0')) total h.1 le)

-- a number with its unit
parse_units-unit :
    (units units' : Units) (n u per total total' : ℕ) (t : Bytes)
    → n ≤ max_duration_seconds
    → is_digit u ≡ false
    → find_unit u units ≡ some (per, units')
    → add_seconds n per total ≡ some total'
    → parse_units units none total (format_ℕ n ++ u ∷ t) ≡ parse_units units' none total' t
parse_units-unit units units' n u per total total' t le other known fits =
    let number =
      parse_units-number units (format_ℕ n) (u ∷ t) total (format_ℕ-ne-nil n) (format_ℕ-IsDigit n)
        (rw (value_from-format_ℕ n) le) in
    number ∙ rw (value_from-format_ℕ n) (unfold parse_units in rw (other, known, fits))

-- the text of days, hours, minutes and seconds
abbrev pub time_text : ℕ → ℕ → ℕ → Bytes
time_text h m s = format_ℕ h ++ b'H' ∷ (format_ℕ m ++ b'M' ∷ (format_ℕ s ++ b'S' ∷ []))

abbrev pub duration_text : ℕ → ℕ → ℕ → ℕ → Bytes
duration_text d h m s = b'P' ∷ ((format_ℕ d ++ b'D' ∷ []) ++ b'T' ∷ time_text h m s)

abbrev pub seconds_of : ℕ → ℕ → ℕ → ℕ → ℕ
seconds_of d h m s = d * 86400 + h * 3600 + m * 60 + s

add_seconds_lem :
    (n per total : ℕ)
    → n ≤ max_duration_seconds / per
    → total + n * per ≤ max_duration_seconds
    → add_seconds n per total ≡ some (total + n * per)
unfolding add_seconds
add_seconds_lem n per total le fits = ground arith

parse_units-time_text :
    (h m s total : ℕ)
    → total + h * 3600 + m * 60 + s ≤ max_duration_seconds
    → parse_units time_units none total (time_text h m s) ≡ some (total + h * 3600 + m * 60 + s)
parse_units-time_text h m s total le =
    parse_units-unit time_units ((b'M', 60) ∷ (b'S', 1) ∷ []) h b'H' 3600 total (total + h * 3600)
      (format_ℕ m ++ b'M' ∷ (format_ℕ s ++ b'S' ∷ [])) (omega arith) refl (unfold find_unit in refl)
      (add_seconds_lem h 3600 total (omega arith) (omega arith))
    ∙ parse_units-unit ((b'M', 60) ∷ (b'S', 1) ∷ []) ((b'S', 1) ∷ []) m b'M' 60 (total + h * 3600)
        (total + h * 3600 + m * 60) (format_ℕ s ++ b'S' ∷ []) (omega arith) refl
        (unfold find_unit in refl)
        (add_seconds_lem m 60 (total + h * 3600) (omega arith) (omega arith))
    ∙ parse_units-unit ((b'S', 1) ∷ []) [] s b'S' 1 (total + h * 3600 + m * 60)
        (total + h * 3600 + m * 60 + s) [] (omega arith) refl (unfold find_unit in refl)
        (add_seconds_lem s 1 (total + h * 3600 + m * 60) (omega arith) (omega arith)
          ∙ ap (λ (n : ℕ). some n) (omega arith))
    ∙ unfold parse_units in refl

digits-Lacks : (s : Bytes) → All IsDigit s → Lacks b'T' s
digits-Lacks [] h = tt
digits-Lacks (c ∷ s) h = (omega (arith, h.0), digits-Lacks s h.1)

date-Lacks : (d : ℕ) → Lacks b'T' (format_ℕ d ++ b'D' ∷ [])
date-Lacks d =
    All-append (λ c. c ≢ b'T') (format_ℕ d) (b'D' ∷ [])
      (digits-Lacks (format_ℕ d) (format_ℕ-IsDigit d)) (omega arith)

is_empty-append : (s : Bytes) (c : ℕ) (t : Bytes) → is_empty (s ++ c ∷ t) ≡ false
is_empty-append [] c t = refl
is_empty-append (d ∷ s) c t = refl

parse_units-date :
    (d : ℕ)
    → d * 86400 ≤ max_duration_seconds
    → parse_units date_units none 0 (format_ℕ d ++ b'D' ∷ []) ≡ some (d * 86400)
parse_units-date d le =
    parse_units-unit date_units [] d b'D' 86400 0 (d * 86400) [] (omega arith) refl
      (unfold find_unit in refl)
      (add_seconds_lem d 86400 0 (omega arith) (omega arith) ∙ ap (λ (n : ℕ). some n) (omega arith))
    ∙ unfold parse_units in refl

both_parts-text :
    (d h m s : ℕ)
    → seconds_of d h m s ≤ max_duration_seconds
    → both_parts (format_ℕ d ++ b'D' ∷ [], time_text h m s, true) ≡ some (seconds_of d h m s)
unfolding both_parts
both_parts-text d h m s le = rw (
  is_empty-append (format_ℕ h) b'H' (format_ℕ m ++ b'M' ∷ (format_ℕ s ++ b'S' ∷ [])),
  parse_units-date d (omega arith),
  parse_units-time_text h m s (d * 86400) le,
)

positive_of : (n : ℕ) → 0 < n → positive (some n) ≡ some (n * 1000000000)
positive_of n h = let ne : (n == 0) ≡ false = ground arith in rw ne

-- A text of days, hours, minutes and seconds is read as their sum, wherever that is positive and at most
-- ten years of 365 days.
pub parse_iso_duration-duration_text :
    (d h m s : ℕ)
    → 0 < seconds_of d h m s
    → seconds_of d h m s ≤ max_duration_seconds
    → parse_iso_duration (duration_text d h m s) ≡ some (seconds_of d h m s * 1000000000)
unfolding parse_iso_duration
parse_iso_duration-duration_text d h m s positive_sum le =
    let spelled = cut_found b'T' (format_ℕ d ++ b'D' ∷ []) (time_text h m s) (date-Lacks d) in
    rw (is_empty-append (format_ℕ d ++ b'D' ∷ []) b'T' (time_text h m s)) (
      ap (λ r. positive (both_parts r)) spelled
      ∙ ap positive (both_parts-text d h m s le)
      ∙ positive_of (seconds_of d h m s) positive_sum)
