-- ===== src/Registry/Duration/Tests.antt =====
-- Durations that parse.
use shortfall.Prelude.{◌*◌, ◌≡◌, refl, arith, some, codes}
use shortfall.Biz.Money.{cut}
use shortfall.Registry.Duration.{
  parse_iso_duration, both_parts, parse_units, find_unit, add_seconds,
}
use shortfall.Registry.Duration.RoundTrip.{
  duration_text, seconds_of, parse_iso_duration-duration_text,
}

half_hour : parse_iso_duration (codes "PT30M") ≡ some 1800000000000
unfolding parse_iso_duration both_parts parse_units find_unit add_seconds cut
half_hour = refl

parse_iso_duration-duration_text_example :
    parse_iso_duration (duration_text 1 2 30 5) ≡ some (seconds_of 1 2 30 5 * 1000000000)
parse_iso_duration-duration_text_example =
    parse_iso_duration-duration_text 1 2 30 5 (omega arith) (omega arith)
