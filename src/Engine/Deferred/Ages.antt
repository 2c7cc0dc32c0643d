-- ===== src/Engine/Deferred/Ages.antt =====
-- Ages: the buckets of the events path are those of the tracker, and a breached bucket holds only what
-- is past its deadline.
use shortfall.Prelude.{
  ℕ, ◌*◌, ◌≡◌, refl, sym, ◌∙◌, Bool, true, false, not, Option, none, some, List, [], ◌∷◌, arith,
  Bytes, codes, ◌=?◌, if◌then◌else◌,
}
use shortfall.Prelude.Int.{ℤ, pos, ltb_ℤ, ◌≤ℤ◌, ◌+ℤ◌, ◌-ℤ◌, -ℤ_parts, +ℤ_parts}
use shortfall.Prelude.Maps.{find}
use shortfall.Biz.Context.{Time}
use shortfall.Registry.{Registry, Sla, flow_of}
use shortfall.Query.Memq.{in_range}
use shortfall.Emit.InFlight.Calls.{age_bucket_for}
use shortfall.Engine.Deferred.{past_deadline, breached, sla_of, age_bucket_floor_minutes}
use shortfall.Engine.Deferred.Events.{age_cutoffs, cut_end}

-- the bucket of the first range that holds the time `t`
unfoldable pub first_cut : Time → Time → Time → List (Bytes × ℕ) → Option Bytes
unfolding cut_end in_range
first_cut start to t [] = none
first_cut start to t ((bucket, before) ∷ cuts) =
    let rest = first_cut start to t cuts in
    if in_range t (record { from = start; to = cut_end to before }) then some bucket else rest

-- a range that ends one nanosecond behind the cut holds the ages from the cut on
in_range-cut :
    (start to t : Time) (n : ℕ)
    → start ≤ℤ t
    → in_range t (record { from = start; to = (to -ℤ pos n) +ℤ pos 1 })
      ≡ not (ltb_ℤ (to -ℤ t) (pos n))
unfolding in_range
in_range-cut start to t n after =
    let a = -ℤ_parts to (pos n) in
    let b = +ℤ_parts (to -ℤ pos n) (pos 1) in let c = -ℤ_parts to t in ground arith

in_range-window :
    (start to t : Time)
    → start ≤ℤ t
    → ltb_ℤ t to ≡ true
    → in_range t (record { from = start; to = to }) ≡ true
unfolding in_range
in_range-window start to t after before = ground arith

nested :
    (age : ℤ)
    → (if not (ltb_ℤ age (pos 7200000000000))
        then some (codes "gt2h")
        else if not (ltb_ℤ age (pos 1800000000000))
        then some (codes "30m-2h")
        else if not (ltb_ℤ age (pos 300000000000))
        then some (codes "5m-30m")
        else if not (ltb_ℤ age (pos 60000000000))
        then some (codes "1m-5m")
        else some (codes "lt1m"))
      ≡ some (age_bucket_for age)
unfolding age_bucket_for
nested age = ground arith

-- Of a deferral in the window, the first of the nested ranges that holds its time has the bucket that
-- the tracker gives to its age at the window's end, at the limits of the buckets too.
pub first_cut-age_bucket_for :
    (start to t : Time)
    → start ≤ℤ t
    → ltb_ℤ t to ≡ true
    → first_cut start to t age_cutoffs ≡ some (age_bucket_for (to -ℤ t))
unfolding first_cut in_range cut_end age_bucket_for
first_cut-age_bucket_for start to t after before =
    rw
      (
        in_range-cut start to t 7200000000000 after,
        in_range-cut start to t 1800000000000 after,
        in_range-cut start to t 300000000000 after,
        in_range-cut start to t 60000000000 after,
        in_range-window start to t after before,
      )
      (nested (to -ℤ t))

floor_by :
    (b1 b2 b3 b4 : Bool)
    → find
        (if b1
          then codes "lt1m"
          else if b2
          then codes "1m-5m"
          else if b3
          then codes "5m-30m"
          else if b4
          then codes "30m-2h"
          else codes "gt2h")
        age_bucket_floor_minutes
      ≡ (if b1
          then some 0
          else if b2
          then some 1
          else if b3
          then some 5
          else if b4
          then some 30
          else some 120)
unfolding find ◌=?◌
floor_by true b2 b3 b4 = refl
floor_by false true b3 b4 = refl
floor_by false false true b4 = refl
floor_by false false false true = refl
floor_by false false false false = refl

-- the floor of the bucket of an age is no more than the age
floor_le :
    (age : ℤ) (m : ℕ)
    → pos 0 ≤ℤ age
    → find (age_bucket_for age) age_bucket_floor_minutes ≡ some m
    → pos (m * 60000000000) ≤ℤ age
unfolding age_bucket_for find
floor_le age m h e =
    let e' =
      sym (
        floor_by (ltb_ℤ age (pos 60000000000)) (ltb_ℤ age (pos 300000000000))
          (ltb_ℤ age (pos 1800000000000)) (ltb_ℤ age (pos 7200000000000)))
      ∙ e in
    ground arith

past_deadline_lem :
    (o : Option Sla) (p : Option ℕ) (age : ℤ)
    → ((m : ℕ) → p ≡ some m → pos (m * 60000000000) ≤ℤ age)
    → past_deadline o p ≡ true
    → (sla : Sla) × (o ≡ some sla) × (sla.deadline ≤ℤ age)
unfolding past_deadline
past_deadline_lem none p age h e = cc
past_deadline_lem (some sla) none age h e = cc
past_deadline_lem (some sla) (some m) age h e = let le = h m refl in (sla, refl, ground arith)

-- A bucket counts as breached only if its stage has an SLA, and then every age of zero or more in it is
-- at or past the SLA's deadline: breaches and projected losses are lower bounds.
pub breached-sla_of :
    (reg : Registry) (flow stage : Bytes) (age : ℤ)
    → pos 0 ≤ℤ age
    → breached reg flow stage (age_bucket_for age) ≡ true
    → (sla : Sla) × (sla_of (flow_of reg flow) stage ≡ some sla) × (sla.deadline ≤ℤ age)
unfolding breached
breached-sla_of reg flow stage age h e =
    past_deadline_lem (sla_of (flow_of reg flow) stage)
      (find (age_bucket_for age) age_bucket_floor_minutes) age (λ m. floor_le age m h) e
