-- ===== src/Emit/Emitter/TwoGen.antt =====
-- `twoGenSet`: two generations of keys, the older discarded when the newer is full. A set is the list of
-- its keys, none twice.
use shortfall.Prelude.{ℕ, Bool, true, false, ◌||◌, List, [], ◌∷◌, Bytes, leb, length, if◌then◌else◌}
use shortfall.Engine.Realized.{member}

pub record TwoGenSet : Type 0 where
  pub cap : ℕ
  pub cur : List Bytes
  pub prev : List Bytes

-- `newTwoGenSet(capacity)`
abbrev pub new_two_gen_set : ℕ → TwoGenSet
new_two_gen_set capacity = record { cap = capacity; cur = []; prev = [] }

unfoldable pub holds : Bytes → TwoGenSet → Bool
unfolding member
holds key t = member key t.cur || member key t.prev

-- the newer generation becomes the older one where it is full
unfoldable pub rotate : TwoGenSet → TwoGenSet
rotate t = if leb t.cap (length t.cur) then record t { cur = []; prev = t.cur } else t

-- `seen(key)`
unfoldable pub seen : Bytes → TwoGenSet → Bool × TwoGenSet
unfolding holds rotate
seen key t =
    let r = rotate t in if holds key t then (true, t) else (false, record r { cur = key ∷ r.cur })
