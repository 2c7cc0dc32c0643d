-- ===== src/Query/Memq/Metrics/Latest.antt =====
-- The level that a gauge carries forward.
use shortfall.Prelude.{
  ◌≡◌, refl, sym, ap, ◌∙◌, subst, ◌⊎◌, inl, inr, Bool, true, false, ◌&&◌, Bool-cases, Option, none,
  some, List, [], ◌∷◌, ◌++◌, arith, Bytes, ◌=?◌, =?_sound, append_assoc, append-nil, All,
  All-append, mem_left, mem_last, if◌then◌else◌,
}
use mathlib.Core.List.{Memᴰ}
use shortfall.Prelude.Int.{ltb_ℤ, ◌≤ℤ◌}
use shortfall.Prelude.Maps.{Map, find, put, find-put}
use shortfall.Biz.Context.{Time}
use shortfall.Emit.Emitter.{MetricPoint}
use shortfall.Query.Memq.{canonical}
use shortfall.Query.Memq.Metrics.{Level, is_newer, levels}

-- a sample of the series before the boundary
abbrev pub counts : Bytes → Time → MetricPoint → Bool
counts id to p = canonical p.labels =? id && ltb_ℤ p.at to

-- No level where no sample counts; else the level of a sample that counts, with none that counts later.
abbrev pub IsLatest : Bytes → Time → List MetricPoint → Option Level → Type 0
IsLatest id to ps none = All (λ p. counts id to p ≡ false) ps
IsLatest id to ps (some l) =
    All (λ p. (counts id to p ≡ false) ⊎ (p.at ≤ℤ l.at)) ps
    × ((p : MetricPoint) × Memᴰ p ps
        × (counts id to p ≡ true)
        × (p.at ≡ l.at)
        × (p.value ≡ l.value))

abbrev level_of : MetricPoint → Level
level_of p = record { at = p.at; value = p.value }

lower-All :
    (id : Bytes) (to : Time) (l : Level) (p : MetricPoint) (ps : List MetricPoint)
    → l.at ≤ℤ p.at
    → All (λ q. (counts id to q ≡ false) ⊎ (q.at ≤ℤ l.at)) ps
    → All (λ q. (counts id to q ≡ false) ⊎ (q.at ≤ℤ p.at)) ps
lower-All id to l p [] h k = tt
lower-All id to l p (q ∷ qs) h (inl skip, k) = (inl skip, lower-All id to l p qs h k)
lower-All id to l p (q ∷ qs) h (inr le, k) = (inr (omega arith), lower-All id to l p qs h k)

skip-All :
    (id : Bytes) (to : Time) (p : MetricPoint) (ps : List MetricPoint)
    → All (λ q. counts id to q ≡ false) ps
    → All (λ q. (counts id to q ≡ false) ⊎ (q.at ≤ℤ p.at)) ps
skip-All id to p [] h = tt
skip-All id to p (q ∷ qs) (skip, h) = (inl skip, skip-All id to p qs h)

-- one more sample behind those before
step-skipped :
    (id : Bytes) (to : Time) (ps : List MetricPoint) (p : MetricPoint) (o : Option Level)
    → counts id to p ≡ false
    → IsLatest id to ps o
    → IsLatest id to (ps ++ p ∷ []) o
step-skipped id to ps p none h k = All-append (λ q. counts id to q ≡ false) ps (p ∷ []) k (h, tt)
step-skipped id to ps p (some l) h (all, (q, at, counted, same_at, same_value)) = (
  All-append (λ q. (counts id to q ≡ false) ⊎ (q.at ≤ℤ l.at)) ps (p ∷ []) all (inl h, tt),
  (q, mem_left ps (p ∷ []) at, counted, same_at, same_value),
)

step-kept :
    (id : Bytes) (to : Time) (ps : List MetricPoint) (p : MetricPoint) (o : Option Level)
    → is_newer o p ≡ false
    → IsLatest id to ps o
    → IsLatest id to (ps ++ p ∷ []) o
step-kept id to ps p none h k = cc
step-kept id to ps p (some l) h (all, (q, at, counted, same_at, same_value)) = (
  All-append (λ q. (counts id to q ≡ false) ⊎ (q.at ≤ℤ l.at)) ps (p ∷ []) all
      (inr (ground arith), tt),
  (q, mem_left ps (p ∷ []) at, counted, same_at, same_value),
)

step-taken :
    (id : Bytes) (to : Time) (ps : List MetricPoint) (p : MetricPoint) (o : Option Level)
    → counts id to p ≡ true
    → is_newer o p ≡ true
    → IsLatest id to ps o
    → IsLatest id to (ps ++ p ∷ []) (some (level_of p))
step-taken id to ps p none h new k = (
  All-append (λ q. (counts id to q ≡ false) ⊎ (q.at ≤ℤ p.at)) ps (p ∷ []) (skip-All id to p ps k)
      (inr (omega arith), tt),
  (p, mem_last ps p, h, refl, refl),
)
step-taken id to ps p (some l) h new (all, _) = (
  All-append (λ q. (counts id to q ≡ false) ⊎ (q.at ≤ℤ p.at)) ps (p ∷ [])
      (lower-All id to l p ps (ground arith) all) (inr (omega arith), tt),
  (p, mem_last ps p, h, refl, refl),
)

-- one round of the loop
abbrev next_levels : Time → MetricPoint → Map Level → Map Level
next_levels to p last =
    if ltb_ℤ p.at to && is_newer (find (canonical p.labels) last) p
    then put (canonical p.labels) (level_of p) last
    else last

next_levels-IsLatest :
    (id : Bytes) (to : Time) (before : List MetricPoint) (p : MetricPoint) (last : Map Level)
    → IsLatest id to before (find id last)
    → IsLatest id to (before ++ p ∷ []) (find id (next_levels to p last))
next_levels-IsLatest id to before p last h =
    let ck = canonical p.labels in
    let found = find-put ck id (level_of p) last in
    elim (Bool-cases (ck =? id)) [
      | inr other ↦
          let skip : counts id to p ≡ false = rw other in
          let here : find id (next_levels to p last) ≡ find id last =
            let found' = rw other at found in ground (arith, found') in
          subst (IsLatest id to (before ++ p ∷ [])) (sym here)
            (step-skipped id to before p (find id last) skip h)
      | inl same ↦ elim (Bool-cases (ltb_ℤ p.at to)) [
        | inr late ↦
            let skip : counts id to p ≡ false = rw (same, late) in
            rw late (step-skipped id to before p (find id last) skip h)
        | inl early ↦
            let e = ap (λ k. is_newer (find k last) p) (=?_sound ck id same) in
            let count : counts id to p ≡ true = rw (same, early) in
            elim (Bool-cases (is_newer (find ck last) p)) [
              | inr old ↦ rw (early, old) (step-kept id to before p (find id last) (sym e ∙ old) h)
              | inl new ↦
                  let found' = rw same at found in
                  rw (early, new)
                    (subst (IsLatest id to (before ++ p ∷ [])) (sym found')
                      (step-taken id to before p (find id last) count (sym e ∙ new) h))
            ]
      ]
    ]

levels-from :
    (id : Bytes) (to : Time) (before ps : List MetricPoint) (last : Map Level)
    → IsLatest id to before (find id last)
    → IsLatest id to (before ++ ps) (find id (levels to ps last))
unfolding levels
levels-from id to before [] last h =
    subst (λ qs. IsLatest id to qs (find id last)) (sym (append-nil before)) h
levels-from id to before (p ∷ ps) last h =
    subst (λ qs. IsLatest id to qs (find id (levels to (p ∷ ps) last)))
      (append_assoc before (p ∷ []) ps)
      (levels-from id to (before ++ p ∷ []) ps (next_levels to p last)
        (next_levels-IsLatest id to before p last h))

-- The level of a series at a boundary is that of a sample of the series before it than which none is
-- later; there is no level exactly where the series has no such sample.
pub levels-IsLatest :
    (id : Bytes) (to : Time) (ps : List MetricPoint) → IsLatest id to ps (find id (levels to ps []))
levels-IsLatest id to ps = levels-from id to [] ps [] (unfold find in tt)
