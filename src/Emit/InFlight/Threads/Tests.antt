-- ===== src/Emit/InFlight/Threads/Tests.antt =====
-- Three threads over a tracker of one item: a message is tracked, a second one reserves beyond the bound,
-- the first is done, and a third one comes.
use shortfall.Prelude.{ℕ, ◌+◌, ◌≤◌, ◌≡◌, refl, arith, List, [], ◌∷◌, ◌++◌, Bytes, codes, replicate}
use shortfall.Prelude.Int.{pos}
use shortfall.Biz.Money.{validate, bad_currency_test}
use shortfall.Emit.InFlight.Store.{Key, Shards, total, Distinct, same_key}
use shortfall.Emit.InFlight.Calls.{new_tracker}
use shortfall.Emit.InFlight.Threads.{Arrival, Pc}
use shortfall.Emit.InFlight.Threads.Account.{pending}
use shortfall.Emit.InFlight.Threads.Invariant.{sum}
use shortfall.Emit.InFlight.Threads.Safety.{Reach-bounded, Reach-snapshot}
use shortfall.Emit.InFlight.Threads.Progress.{Finishes, Reach-Finishes}
use shortfall.Emit.InFlight.Threads.Schedule.{Action, Reached, run}

abbrev first_byte : Bytes → ℕ
first_byte [] = 0
first_byte (c ∷ _) = c

abbrev key : Bytes → Key
key id = record { flow = codes "pay"; stage = codes "capture"; id = id }

abbrev arrival : Bytes → Arrival
arrival id = record {
  key = key id;
  money = record { amount = pos 500; currency = codes "USD"; exponent = pos 2 };
  at = pos 10;
}

abbrev turns : ℕ → ℕ → List Action
turns i k = replicate k (Action.go i)

abbrev order : List Action
order =
    Action.call_track 0 (arrival (codes "a")) ∷ turns 0 6
    ++ Action.call_track 1 (arrival (codes "b")) ∷ turns 1 3
    ++ Action.call_done 0 (key (codes "a")) ∷ turns 0 3
    ++ Action.call_track 2 (arrival (codes "c")) ∷ turns 2 3

abbrev crossed : Reached first_byte 3 (pos 1)
crossed = run first_byte 3 (pos 1) order

-- no item is left, and yet the third message is on its way to be dropped
none_left : total 32 crossed.last.memory.tracker.shards ≡ 0
unfolding run new_tracker total validate bad_currency_test same_key
none_left = refl

dropped : crossed.last.pc 2 ≡ Pc.over_reserved 3
unfolding run new_tracker validate bad_currency_test same_key
dropped = refl

Reach-bounded_example :
    (total 32 crossed.last.memory.tracker.shards ≤ crossed.last.memory.tracker.max_items)
    × (crossed.last.memory.tracker.item_count
        ≡ total 32 crossed.last.memory.tracker.shards + sum pending 3 crossed.last.pc)
    × ((s : ℕ) → Distinct (crossed.last.memory.tracker.shards s))
Reach-bounded_example = Reach-bounded first_byte 3 (pos 1) crossed.reach

Reach-Finishes_example : Finishes first_byte 3 crossed.last
Reach-Finishes_example = Reach-Finishes first_byte 3 (pos 1) crossed.reach

abbrev watched : Reached first_byte 2 (pos 4)
watched = run first_byte 2 (pos 4) (Action.call_publish 1 ∷ turns 1 66)

abbrev read_of : Pc → Shards
read_of (Pc.reading _ read) = read
read_of _ = λ _. []

all_read : watched.last.pc 1 ≡ Pc.reading 32 (read_of (watched.last.pc 1))
unfolding run new_tracker validate bad_currency_test same_key
all_read = refl

Reach-snapshot_example : read_of (watched.last.pc 1) 1 ≡ watched.last.memory.tracker.shards 1
Reach-snapshot_example =
    Reach-snapshot first_byte 2 (pos 4) 1 1 (read_of (watched.last.pc 1)) watched.reach all_read
      (omega arith)
