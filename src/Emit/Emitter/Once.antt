-- ===== src/Emit/Emitter/Once.antt =====
-- A retry adds nothing, and a drop leaves no memory.
use shortfall.Prelude.{
  ◌<◌, ◌≡◌, refl, ap, ◌∙◌, true, false, List, [], ◌∷◌, ◌++◌, arith, Bytes, =?_iff, =?_refl, leb,
  length, Bool-cases, inl, inr,
}
use shortfall.Prelude.Int.{pos}
use shortfall.Prelude.Int64.{add64}
use shortfall.Biz.Context.{Time, Outcome}
use shortfall.Engine.{amount}
use shortfall.Engine.Exact.{amount-add_to}
use shortfall.Engine.Realized.{member}
use shortfall.Emit.Emitter.{MetricPoint, Std, append_one, append_metrics, drop_one, overflow}
use shortfall.Emit.Emitter.TwoGen.{TwoGenSet, holds, seen}
use shortfall.Emit.Emitter.Calls.{admit, dedup_key, points_of}
use shortfall.Emit.Emitter.Flush.{Answers, flush}

-- the points of a call leave the rest of the state alone
pub record SameBooks (s t : Std) : Type 0 where
  pub events : t.events ≡ s.events
  pub dedup : t.dedup ≡ s.dedup
  pub reg : t.reg ≡ s.reg
  pub drop_counts : t.drop_counts ≡ s.drop_counts

append_one-SameBooks : (p : MetricPoint) (s : Std) → SameBooks s (append_one p s)
unfolding append_one
append_one-SameBooks p s = elim (Bool-cases (leb s.metrics_cap (length s.metrics))) [
  | inl full ↦ rw full (record { events = refl; dedup = refl; reg = refl; drop_counts = refl })
  | inr free ↦ rw free (record { events = refl; dedup = refl; reg = refl; drop_counts = refl })
]

pub append_metrics-SameBooks :
    (points : List MetricPoint) (s : Std) → SameBooks s (append_metrics points s)
unfolding append_metrics
append_metrics-SameBooks [] s = record {
  events = refl;
  dedup = refl;
  reg = refl;
  drop_counts = refl;
}
append_metrics-SameBooks (p ∷ points) s =
    let one = append_one-SameBooks p s in
    let all = append_metrics-SameBooks points (append_one p s) in
    record {
      events = all.events ∙ one.events;
      dedup = all.dedup ∙ one.dedup;
      reg = all.reg ∙ one.reg;
      drop_counts = all.drop_counts ∙ one.drop_counts;
    }

-- a key that the set has seen is held
holds-seen : (k : Bytes) (t : TwoGenSet) → holds k (seen k t).1 ≡ true
unfolding seen holds member
holds-seen k t = elim (Bool-cases (holds k t)) [
  | inl known ↦ rw known (ground (arith, known))
  | inr new ↦ rw new (ground (arith, =?_iff k k))
]

seen_held : (k : Bytes) (t : TwoGenSet) → holds k t ≡ true → seen k t ≡ (true, t)
unfolding seen
seen_held k t h = rw h

seen_new : (k : Bytes) (t : TwoGenSet) → holds k t ≡ false → (seen k t).0 ≡ false
unfolding seen
seen_new k t h = rw h

-- an observation whose key is held changes neither events nor points
admit_held :
    (o : Outcome) (s : Std)
    → holds (dedup_key o) s.dedup ≡ true
    → ((admit o s).events ≡ s.events) × ((admit o s).metrics ≡ s.metrics)
unfolding admit drop_one
admit_held o s h = elim (Bool-cases (leb s.buf_size (length s.events))) [
  | inl full ↦ rw full (refl, refl)
  | inr room ↦ rw (room, seen_held (dedup_key o) s.dedup h) (refl, refl)
]

-- the two branches of an observation that is not held
admit_full :
    (o : Outcome) (s : Std)
    → leb s.buf_size (length s.events) ≡ true
    → admit o s ≡ drop_one overflow s
unfolding admit
admit_full o s full = rw full

abbrev entered : Outcome → Std → Std
entered o s = record s { dedup = (seen (dedup_key o) s.dedup).1; events = s.events ++ o ∷ [] }

admit_new :
    (o : Outcome) (s : Std)
    → leb s.buf_size (length s.events) ≡ false
    → holds (dedup_key o) s.dedup ≡ false
    → admit o s ≡ append_metrics (points_of s o) (entered o s)
unfolding admit
admit_new o s room new = rw (room, seen_new (dedup_key o) s.dedup new)

holds-admit :
    (o : Outcome) (s : Std)
    → leb s.buf_size (length s.events) ≡ false
    → holds (dedup_key o) (admit o s).dedup ≡ true
holds-admit o s room = elim (Bool-cases (holds (dedup_key o) s.dedup)) [
  | inl known ↦ unfold admit in rw (room, seen_held (dedup_key o) s.dedup known) known
  | inr new ↦
      let same = (append_metrics-SameBooks (points_of s o) (entered o s)).dedup in
      rw (admit_new o s room new, same) (holds-seen (dedup_key o) s.dedup)
]

-- Once the emitter has taken an observation while its buffer had room, another one with the same flow,
-- entity, stage and result adds neither an event nor a metric point, whatever else it carries.
pub admit_again :
    (o o' : Outcome) (s : Std)
    → leb s.buf_size (length s.events) ≡ false
    → dedup_key o' ≡ dedup_key o
    → ((admit o' (admit o s)).events ≡ (admit o s).events)
      × ((admit o' (admit o s)).metrics ≡ (admit o s).metrics)
admit_again o o' s room same =
    admit_held o' (admit o s) (ap (λ k. holds k (admit o s).dedup) same ∙ holds-admit o s room)

-- An observation whose key is not remembered, dropped by a full buffer of positive size, adds one to the
-- overflow counter, in int64, and changes neither events nor points nor remembered keys: after the next
-- flush, whatever the exporter answers, the same observation is taken as the only pending event.
pub admit-flush-admit :
    (o : Outcome) (now : Time) (answers : Answers) (s : Std)
    → leb s.buf_size (length s.events) ≡ true
    → 0 < s.buf_size
    → holds (dedup_key o) s.dedup ≡ false
    → (amount overflow (admit o s).drop_counts ≡ add64 (amount overflow s.drop_counts) (pos 1))
      × ((admit o s).events ≡ s.events)
      × ((admit o s).metrics ≡ s.metrics)
      × ((admit o s).dedup ≡ s.dedup)
      × ((admit o (flush now answers (admit o s)).state).events ≡ o ∷ [])
unfolding flush drop_one
admit-flush-admit o now answers s full positive new =
    let room : leb s.buf_size 0 ≡ false = ground arith in
    let s' = (flush now answers (drop_one overflow s)).state in
    let one = amount-add_to overflow overflow (pos 1) s.drop_counts in
    (
      rw (admit_full o s full) (rw (=?_refl overflow) at one),
      rw (admit_full o s full),
      rw (admit_full o s full),
      rw (admit_full o s full),
      rw (admit_full o s full, admit_new o s' room new)
          ((append_metrics-SameBooks (points_of s' o) (entered o s')).events),
    )
