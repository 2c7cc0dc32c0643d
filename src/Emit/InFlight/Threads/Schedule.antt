-- ===== src/Emit/InFlight/Threads/Schedule.antt =====
-- Reachable states by evaluation: the threads act in a given order.
use shortfall.Prelude.{
  ℕ, ◌<◌, ◌≡◌, refl, Bool, true, false, ◌&&◌, Option, none, some, List, [], ◌∷◌, ltb, ltb→lt, Bytes,
  arith,
}
use shortfall.Prelude.Int.{ℤ}
use shortfall.Emit.InFlight.Store.{Key}
use shortfall.Emit.InFlight.Threads.{
  Memory, Arrival, Pc, System, Step, Begins, Reach, start, set_pc, step,
}

pub data Action : Type 0 where
  call_track : ℕ → Arrival → Action
  call_done : ℕ → Key → Action
  call_publish : ℕ → Action
  go : ℕ → Action

abbrev is_idle : Pc → Bool
is_idle Pc.idle = true
is_idle _ = false

pub may_begin_lem : (i n : ℕ) (p : Pc) → (ltb i n && is_idle p) ≡ true → (i < n) × (p ≡ Pc.idle)
may_begin_lem i n p h = ground arith

module _ (hash : Bytes → ℕ) (n : ℕ) (max_items : ℤ) where
  pub record Reached : Type 0 where
    pub last : System
    pub reach : Reach hash n max_items last

  begin_if :
      (b : Bool) (i : ℕ) (p : Pc) (x : Reached)
      → Begins p
      → (ltb i n && is_idle (x.last.pc i)) ≡ b
      → Reached
  begin_if false i p x begins h = x
  begin_if true i p x begins h =
      let (lt, free) = may_begin_lem i n (x.last.pc i) h in
      record {
        last = record { memory = x.last.memory; pc = set_pc x.last.pc i p };
        reach = Reach.later x.reach (Step.begins i p lt free begins refl);
      }

  go_if :
      (b : Bool) (o : Option (Memory × Pc)) (i : ℕ) (x : Reached)
      → ltb i n ≡ b
      → step hash x.last.memory (x.last.pc i) ≡ o
      → Reached
  go_if false o i x lt h = x
  go_if true none i x lt h = x
  go_if true (some y) i x lt h = record {
    last = record { memory = y.0; pc = set_pc x.last.pc i y.1 };
    reach = Reach.later x.reach (Step.moves i y.0 y.1 (ltb→lt i n lt) h refl);
  }

  begin : (i : ℕ) (p : Pc) → Begins p → Reached → Reached
  unfolding begin_if
  begin i p b x = begin_if (ltb i n && is_idle (x.last.pc i)) i p x b refl

  go_on : ℕ → Reached → Reached
  unfolding go_if
  go_on i x = go_if (ltb i n) (step hash x.last.memory (x.last.pc i)) i x refl refl

  perform : Action → Reached → Reached
  unfolding begin go_on
  perform (Action.call_track i c) x = begin i (Pc.tracking c) (Begins.track c) x
  perform (Action.call_done i k) x = begin i (Pc.finishing k) (Begins.finish k) x
  perform (Action.call_publish i) x = begin i Pc.publishing Begins.publish x
  perform (Action.go i) x = go_on i x

  run_from : List Action → Reached → Reached
  unfolding perform
  run_from [] x = x
  run_from (a ∷ actions) x = run_from actions (perform a x)

  -- the state behind the actions; what cannot be done is passed over
  unfoldable pub run : List Action → Reached
  unfolding run_from step
  run actions = run_from actions (record { last = start max_items; reach = Reach.here })
