-- ===== src/Registry/Duration.antt =====
-- registry/duration.go: ParseISODuration, on P[nD][T[nH][nM][nS]]. A duration is in nanoseconds.
pub mod Bounds
pub mod RoundTrip
mod Tests
use shortfall.Prelude.{
  ℕ, zero, suc, ◌+◌, ◌-◌, ◌*◌, ◌/◌, Bool, true, false, not, ◌&&◌, ◌||◌, Option, none, some, List,
  [], ◌∷◌, Bytes, ltb, leb, ◌==◌, if◌then◌else◌,
}
use shortfall.Prelude.Decimal.{is_digit}
use shortfall.Biz.Money.{cut}

-- `maxDurationSeconds`
abbrev pub max_duration_seconds : ℕ
max_duration_seconds = 315360000

-- a unit letter with its seconds, in the order in which units may stand
abbrev pub Units : Type 0
Units = List (ℕ × ℕ)

abbrev pub date_units : Units
date_units = (b'D', 86400) ∷ []

abbrev pub time_units : Units
time_units = (b'H', 3600) ∷ (b'M', 60) ∷ (b'S', 1) ∷ []

-- The unit of a letter among those that may still come, and those behind it. An unknown letter and one
-- that is not behind the last one are refused alike.
unfoldable pub find_unit : ℕ → Units → Option (ℕ × Units)
find_unit c [] = none
find_unit c ((u, seconds) ∷ units) = if u == c then some (seconds, units) else find_unit c units

-- the tests on a number with its unit: the new total
unfoldable pub add_seconds : ℕ → ℕ → ℕ → Option ℕ
add_seconds n per_unit total =
    if ltb (max_duration_seconds / per_unit) n
    then none
    else if ltb max_duration_seconds (total + n * per_unit)
    then none
    else some (total + n * per_unit)

-- `parseUnits`: the digits read so far, with their value, or none; a value beyond the bound is refused
unfoldable pub parse_units : Units → Option ℕ → ℕ → Bytes → Option ℕ
unfolding find_unit add_seconds
parse_units units none total [] = some total
parse_units units (some n) total [] = none
parse_units units none total (c ∷ s) =
    let n = 0 * 10 + (c - b'0') in
    let digit = if ltb max_duration_seconds n then none else parse_units units (some n) total s in
    if is_digit c then digit else none
parse_units units (some n) total (c ∷ s) =
    let n' = n * 10 + (c - b'0') in
    let digit = if ltb max_duration_seconds n' then none else parse_units units (some n') total s in
    let unit : Option ℕ = elim (find_unit c units) [
      | none ↦ none
      | some (per_unit, units') ↦ elim (add_seconds n per_unit total) [
        | none ↦ none
        | some total' ↦ parse_units units' none total' s
      ]
    ] in
    if is_digit c then digit else unit

abbrev pub is_empty : Bytes → Bool
is_empty [] = true
is_empty (_ ∷ _) = false

-- the parts in front of 'T' and behind it
unfoldable pub both_parts : Bytes × Bytes × Bool → Option ℕ
unfolding parse_units
both_parts (date_part, time_part, has_t) =
    if has_t && is_empty time_part then none else elim (parse_units date_units none 0 date_part) [
      | none ↦ none
      | some total ↦ if has_t then parse_units time_units none total time_part else some total
    ]

abbrev pub positive : Option ℕ → Option ℕ
positive none = none
positive (some total) = if total == 0 then none else some (total * 1000000000)

-- `ParseISODuration(s)`
unfoldable pub parse_iso_duration : Bytes → Option ℕ
unfolding both_parts cut
parse_iso_duration [] = none
parse_iso_duration (c ∷ rest) =
    if c == b'P' && not (is_empty rest) then positive (both_parts (cut b'T' rest)) else none
