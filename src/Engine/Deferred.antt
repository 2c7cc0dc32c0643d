-- ===== src/Engine/Deferred.antt =====
-- engine/deferred.go: the deferred leg, its age buckets and SLA tests, and the order of stages. A nil
-- registry is `none`. A position or -1 is the position plus one, or zero.
pub mod Events
pub mod Ages
pub mod Booked
pub mod Gauge
pub mod Source
mod Tests
use shortfall.Prelude.{
  ℕ, zero, suc, ◌*◌, ◌≡◌, refl, Bool, true, false, not, ◌&&◌, ◌||◌, Option, none, some, List, [],
  ◌∷◌, Bytes, codes, ◌=?◌, ltb, ◌==◌, if◌then◌else◌,
}
use shortfall.Prelude.Int.{ℤ, pos, ltb_ℤ}
use shortfall.Prelude.Maps.{Map, find}
use shortfall.Registry.{Registry, Flow, Stage, Sla, Breach, flow_of}
use shortfall.Engine.{Leg, Evidence, Request}
use shortfall.Engine.Realized.{member}

-- `type DeferredLeg struct`, with the embedded leg as a field
pub record DeferredLeg : Type 0 where
  pub leg : Leg
  pub by_age_bucket : Map (Map ℤ)
  pub sla_breaches : ℤ
  pub oldest_age_minutes : ℤ
  pub projected_lost_minor : Map ℤ

-- `newDeferredLeg()`
abbrev pub new_deferred_leg : List Bytes → DeferredLeg
new_deferred_leg caveats = record {
  leg = record {
    count = pos 0;
    by_currency = [];
    evidence = Evidence.deterministic;
    caveats = caveats;
    unavailable = false;
  };
  by_age_bucket = [];
  sla_breaches = pos 0;
  oldest_age_minutes = pos 0;
  projected_lost_minor = [];
}

-- `ageBucketFloorMinutes`, and the keys in `ageBucketOrder`
abbrev pub age_bucket_floor_minutes : Map ℕ
age_bucket_floor_minutes =
    (codes "lt1m", 0)
    ∷ (codes "1m-5m", 1)
    ∷ (codes "5m-30m", 5)
    ∷ (codes "30m-2h", 30)
    ∷ (codes "gt2h", 120)
    ∷ []

-- where a key stands in a map, from one on, or zero
unfoldable pub position : Bytes → Map ℕ → ℕ
position b [] = 0
position b ((j, _) ∷ m) = let r = position b m in if j =? b then 1 else if r == 0 then 0 else suc r

-- `bucketIndex(bucket)`
unfoldable pub bucket_index : Bytes → ℕ
unfolding position
bucket_index b = position b age_bucket_floor_minutes

-- `ageBucketFloorMinutes[ageBucketOrder[oldestIdx]]`, and zero where no bucket is filled
abbrev nth_floor : ℕ → Map ℕ → ℕ
nth_floor n [] = 0
nth_floor zero (_ ∷ _) = 0
nth_floor (suc zero) ((_, v) ∷ _) = v
nth_floor (suc (suc n)) (_ ∷ m) = nth_floor (suc n) m

unfoldable pub oldest_age : ℕ → ℤ
oldest_age rank = pos (nth_floor rank age_bucket_floor_minutes)

-- the comparison of `breached`, where the flow has an SLA at the stage and the bucket has a floor
unfoldable pub past_deadline : Option Sla → Option ℕ → Bool
past_deadline none _ = false
past_deadline (some sla) none = false
past_deadline (some sla) (some floor_min) = not (ltb_ℤ (pos (floor_min * 60000000000)) sla.deadline)

abbrev sla_of : Option Flow → Bytes → Option Sla
sla_of none stage = none
sla_of (some f) stage = find stage f.sla

-- `breached(reg, flow, stage, bucket)`
unfoldable pub breached : Registry → Bytes → Bytes → Bytes → Bool
unfolding past_deadline flow_of find
breached reg flow stage bucket =
    past_deadline (sla_of (flow_of reg flow) stage) (find bucket age_bucket_floor_minutes)

abbrev is_lost : Option Sla → Bool
is_lost none = false
is_lost (some sla) = elim sla.on_breach [
  | Breach.lost ↦ true
  | Breach.at_risk ↦ false
  | Breach.other_breach _ ↦ false
]

-- `breachedAndLost(reg, flow, stage, bucket)`
unfoldable pub breached_and_lost : Registry → Bytes → Bytes → Bytes → Bool
unfolding breached flow_of find
breached_and_lost reg flow stage bucket =
    is_lost (sla_of (flow_of reg flow) stage) && breached reg flow stage bucket

-- `stageIndex(reg, flow, stage)`
unfoldable pub stage_position : Bytes → List Stage → ℕ
stage_position stage [] = 0
stage_position stage (st ∷ sts) =
    let r = stage_position stage sts in if st.name =? stage then 1 else if r == 0 then 0 else suc r

abbrev position_in : Option Flow → Bytes → ℕ
position_in none stage = 0
position_in (some f) stage = stage_position stage f.stages

unfoldable pub stage_index : Option Registry → Bytes → Bytes → ℕ
unfolding stage_position flow_of
stage_index none flow stage = 0
stage_index (some r) flow stage = position_in (flow_of r flow) stage

-- the loops over a set of stages for one behind a position
unfoldable pub any_later : Option Registry → Bytes → ℕ → List Bytes → Bool
any_later reg flow rank [] = false
any_later reg flow rank (t ∷ ts) = ltb rank (stage_index reg flow t) || any_later reg flow rank ts

-- `resolvedByLaterStage(reg, flow, stage, terminals)`
unfoldable pub resolved_by_later_stage : Option Registry → Bytes → Bytes → List Bytes → Bool
unfolding any_later stage_index member
resolved_by_later_stage reg flow stage terminals =
    let rank = stage_index reg flow stage in
    member stage terminals || (not (rank == 0) && any_later reg flow rank terminals)

-- `progressedPast(reg, flow, stage, deferredStages)`
unfoldable pub progressed_past : Option Registry → Bytes → Bytes → List Bytes → Bool
unfolding any_later stage_index
progressed_past reg flow stage deferred_stages =
    let rank = stage_index reg flow stage in
    not (rank == 0) && any_later reg flow rank deferred_stages
