-- ===== src/Engine.antt =====
-- engine/engine.go: the request, the legs of the report, and the filters that a leg's queries carry.
-- `V` is the type of a metric's values, a float64 in the source.
pub mod Realized
pub mod SameSeen
pub mod Exact
pub mod Deferred
pub mod Severity
pub mod Customers
pub mod Coverage
pub mod Floats
pub mod Baseline
pub mod Unrealized
pub mod Compute
mod Tests
use shortfall.Prelude.{
  ◌≡◌, refl, Bool, true, false, Option, none, some, List, [], ◌∷◌, ◌++◌, Bytes, codes, Result, ok,
  err, if◌then◌else◌,
}
use shortfall.Prelude.Int.{ℤ, pos}
use shortfall.Prelude.Int64.{add64}
use shortfall.Prelude.Maps.{Map, find, put}
use shortfall.Query.{TimeRange, QueryError, SeriesSlice, Point}

-- `type Request struct`; `Scope` is a map from labels to values
pub record Request : Type 0 where
  pub window : TimeRange
  pub scope : Map Bytes
  pub flows : List Bytes

pub data Evidence : Type 0 where
  deterministic estimate trust : Evidence

-- `type Leg struct`
pub record Leg : Type 0 where
  pub count : ℤ
  pub by_currency : Map ℤ
  pub evidence : Evidence
  pub caveats : List Bytes
  pub unavailable : Bool

-- An error of a leg: no source for it, a query that failed, a flow that the registry lacks, or a baseline
-- with a lookback below one week.
pub data EngineError : Type 0 where
  no_source : EngineError
  query_failed : QueryError → EngineError
  unknown_flow : Bytes → EngineError
  bad_lookback : ℤ → EngineError

unfoldable pub wrapped : {A : Type 0} → Result QueryError A → Result EngineError A
wrapped (ok a) = ok a
wrapped (err e) = err (query_failed e)

-- `m[k]` of a map to int64: zero where the key is missing
unfoldable pub amount : Bytes → Map ℤ → ℤ
unfolding find
amount k m = elim (find k m) [ none ↦ pos 0 | some v ↦ v ]

-- `m[k] += v`
unfoldable pub add_to : Bytes → ℤ → Map ℤ → Map ℤ
unfolding amount put
add_to k v m = put k (add64 (amount k m) v) m

-- the copies of a map: the loop that sets each entry in a new map
unfoldable pub copied : Map Bytes → Map Bytes → Map Bytes
unfolding put
copied [] out = out
copied ((k, v) ∷ m) out = copied m (put k v out)

unfoldable pub per_flow : Map Bytes → Bytes → List Bytes → List (Map Bytes)
per_flow scope outcome [] = []
per_flow scope outcome (f ∷ fs) =
    put (codes "flow") f (put (codes "outcome") outcome (copied scope []))
    ∷ per_flow scope outcome fs

-- `flowFilters(req, outcome)`
unfoldable pub flow_filters : Request → Bytes → List (Map Bytes)
unfolding per_flow copied
flow_filters req outcome = elim req.flows [
  | [] ↦ put (codes "outcome") outcome (copied req.scope []) ∷ []
  | f ∷ fs ↦ per_flow (copied req.scope []) outcome (f ∷ fs)
]

-- The sum of the int64 values of a series' points, from `v`.
module _ {V : Type 0} (to_int64 : V → ℤ) where
  unfoldable pub add_points : List (Point V) → ℤ → ℤ
  add_points [] v = v
  add_points (p ∷ ps) v = add_points ps (add64 v (to_int64 p.value))
