-- ===== src/Emit/InFlight/Tests.antt =====
-- A tracker with one message, tracked twice and published.
use shortfall.Prelude.{◌≡◌, refl, ◌&&◌, codes, arith, ℕ, [], ◌∷◌, if◌then◌else◌, Bytes}
use shortfall.Prelude.Int.{pos}
use shortfall.Biz.Money.{Money}
use shortfall.Biz.Context.{Time}
use shortfall.Emit.InFlight.Store.{Key, total, same_key}
use shortfall.Emit.InFlight.Calls.{Tracker, new_tracker, track}
use shortfall.Emit.InFlight.Bound.{IsExact, track-IsExact, tracked}
use shortfall.Emit.InFlight.Tracked.{after, accepts, track-tracked}

abbrev first_byte : Bytes → ℕ
first_byte [] = 0
first_byte (c ∷ _) = c

abbrev order : Key
order = record { flow = codes "checkout"; stage = codes "capture"; id = codes "o1" }

abbrev price : Money
price = record { amount = pos 4999; currency = codes "USD"; exponent = pos 2 }

abbrev noon : Time
noon = pos 43200000000000

abbrev one_shop : Tracker
one_shop = track first_byte order price noon (new_tracker (pos 2))

new_tracker-IsExact : IsExact (new_tracker (pos 2))
unfolding new_tracker total
new_tracker-IsExact = record { counted = refl; bounded = omega arith; distinct = λ _. tt }

track-IsExact_example : IsExact (track first_byte order price noon (new_tracker (pos 2)))
track-IsExact_example =
    track-IsExact first_byte order price noon (new_tracker (pos 2)) new_tracker-IsExact

track-tracked_example : tracked first_byte order (track first_byte order price noon one_shop) ≡ (
    if accepts price one_shop && same_key order order
    then after price noon one_shop (tracked first_byte order one_shop)
    else tracked first_byte order one_shop)
track-tracked_example = track-tracked first_byte order order price noon one_shop
