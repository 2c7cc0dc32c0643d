-- ===== src/Registry/Build/Blocks.antt =====
-- The SLAs and the estimator of a flow that Parse gives back.
use shortfall.Prelude.{
  ◌≡◌, refl, ap, sym, ◌∙◌, subst, ◌⊎◌, ℕ, true, not, ◌||◌, Option, none, some, List, [], ◌∷◌, Bytes,
  ok, >>=-ok, fail_if-ok, ok-injective, Bool-cases, arith, inl, inr, ◌=?◌, =?_sound, codes,
}
use shortfall.Prelude.Int.{ℤ, pos, ltb_ℤ, ◌<ℤ◌, ◌≤ℤ◌}
use shortfall.Prelude.Maps.{Map, find}
use shortfall.Engine.Realized.{member}
use shortfall.Registry.{
  stage_names, Registry, Flow, Sla, Breach, Estimator, flow_of, estimate_minor, estimate_with,
  segment_or,
}
use shortfall.Registry.Duration.{parse_iso_duration}
use shortfall.Registry.Duration.Bounds.{parse_iso_duration-le}
use shortfall.Registry.Docs.{RegistryDoc, SlaDoc, EstimatorDoc}
use shortfall.Registry.Blocks.{
  breach_of, duration_of, duration_or_error, build_sla, check_by_segment, exponent_or,
  build_estimator,
}
use shortfall.Registry.Build.{parse_doc}
use shortfall.Registry.Build.Parts.{parse_doc-parts, build_flow-parts, find-build_flows}

-- The stage is declared, and its deadline is positive and at most ten years, in nanoseconds.
abbrev pub IsDue : List Bytes → Bytes → Sla → Type 0
IsDue stages stage sla =
    (member stage stages ≡ true)
    × (pos 0 <ℤ sla.deadline)
    × (sla.deadline ≤ℤ pos 315360000000000000)
    × ((sla.on_breach ≡ Breach.lost) ⊎ (sla.on_breach ≡ Breach.at_risk))

Bounded : ℤ → Type 0
Bounded d = (pos 0 <ℤ d) × (d ≤ℤ pos 315360000000000000)

duration_or_error-Bounded :
    (o : Option ℕ) (d : ℤ)
    → ((n : ℕ) → o ≡ some n → Bounded (pos n))
    → duration_or_error o ≡ ok d
    → Bounded d
unfolding Bounded
duration_or_error-Bounded none d bounded h = cc
duration_or_error-Bounded (some n) d bounded h =
    subst Bounded (ok-injective (pos n) d h) (bounded n refl)

duration_of-Bounded : (s : Bytes) (d : ℤ) → duration_of s ≡ ok d → Bounded d
unfolding Bounded
duration_of-Bounded s d h =
    let bounded : (n : ℕ) → parse_iso_duration s ≡ some n → Bounded (pos n) = λ n good.
      let (positive, small, _) = parse_iso_duration-le s n good in (omega arith, omega arith) in
    duration_or_error-Bounded (parse_iso_duration s) d bounded h

breach_of-known :
    (s : Bytes) (b : Breach) → breach_of s ≡ ok b → (b ≡ Breach.lost) ⊎ (b ≡ Breach.at_risk)
breach_of-known s b h = elim (Bool-cases (s =? codes "lost")) [
  | inl first ↦ let h' = rw first at h in inl (sym (ok-injective Breach.lost b h'))
  | inr other ↦ elim (Bool-cases (s =? codes "at_risk")) [
    | inl same ↦ let h' = rw (other, same) at h in inr (sym (ok-injective Breach.at_risk b h'))
    | inr neither ↦ let h' = rw (other, neither) at h in cc
  ]
]

find-build_sla :
    (stages : List Bytes) (docs : Map SlaDoc) (m : Map Sla) (stage : Bytes) (sla : Sla)
    → build_sla stages docs ≡ ok m
    → find stage m ≡ some sla
    → IsDue stages stage sla
unfolding build_sla find Bounded
find-build_sla stages [] [] stage sla h k = cc
find-build_sla stages [] (_ ∷ _) stage sla h k = cc
find-build_sla stages ((j, sd) ∷ docs) m stage sla h k =
    let (declared, h₁) = fail_if-ok (not (member j stages)) _ _ _ h in
    let (deadline, timed, h₂) = >>=-ok (duration_of sd.deadline) _ _ h₁ in
    let (breach, known, h₃) = >>=-ok (breach_of sd.on_breach) _ _ h₂ in
    let (rest, built, e) = >>=-ok (build_sla stages docs) _ _ h₃ in
    let (positive, small) = duration_of-Bounded sd.deadline deadline timed in
    let entry : Sla = record { deadline = deadline; on_breach = breach } in
    let k₁ : find stage ((j, entry) ∷ rest) ≡ some sla =
      ap (find stage) (ok-injective ((j, entry) ∷ rest) m e) ∙ k in
    elim (Bool-cases (j =? stage)) [
      | inr other ↦ let k₂ = rw other at k₁ in find-build_sla stages docs rest stage sla built k₂
      | inl same ↦
          let k₂ = rw same at k₁ in
          let e₁ = =?_sound j stage same in
          let e₂ : entry ≡ sla = cc in
          let d : member j stages ≡ true = ground arith in
          subst (IsDue stages stage) e₂ (
            subst (λ x. member x stages ≡ true) e₁ d,
            positive,
            small,
            breach_of-known sd.on_breach breach known,
          )
    ]

-- Every SLA of every flow of a registry that Parse gives back is of a declared stage, has a positive
-- deadline of at most ten years, and one of the two breaches.
pub parse_doc-IsDue :
    (doc : RegistryDoc) (r : Registry) (name : Bytes) (f : Flow) (stage : Bytes) (sla : Sla)
    → parse_doc doc ≡ ok r
    → flow_of r name ≡ some f
    → find stage f.sla ≡ some sla
    → IsDue (stage_names f.stages) stage sla
unfolding flow_of
parse_doc-IsDue doc r name f stage sla h k l =
    let (_, flows) = parse_doc-parts doc r h in
    let (fd, built) = find-build_flows doc.segments doc.flows r.flows name f flows k in
    let (_, _, slas, _, _) = build_flow-parts doc.segments name fd f built in
    find-build_sla (stage_names f.stages) fd.sla f.sla stage sla slas l

check_by_segment-positive :
    (segments : List Bytes) (m : Map ℤ) (segment : Bytes) (v : ℤ)
    → check_by_segment segments m ≡ ok tt
    → find segment m ≡ some v
    → pos 0 <ℤ v
unfolding check_by_segment find
check_by_segment-positive segments [] segment v h k = cc
check_by_segment-positive segments ((j, w) ∷ m) segment v h k =
    let (_, h₁) = fail_if-ok (not (member j segments)) _ _ _ h in
    let (positive, h₂) = fail_if-ok (not (ltb_ℤ (pos 0) w)) _ _ _ h₁ in
    elim (Bool-cases (j =? segment)) [
      | inl same ↦
          let k' = rw same at k in let e : w ≡ v = cc in subst (λ x. pos 0 <ℤ x) e (ground arith)
      | inr other ↦ let k' = rw other at k in check_by_segment-positive segments m segment v h₂ k'
    ]

-- the estimator of a document, once accepted
IsPositive : Option Estimator → Type 0
unfolding find
IsPositive none = Unit
IsPositive (some e) =
    (segment : Bytes) → pos 0 <ℤ segment_or (find segment e.by_segment) e.default_minor

segment_or-positive :
    (o : Option ℤ) (d : ℤ)
    → pos 0 <ℤ d
    → ((v : ℤ) → o ≡ some v → pos 0 <ℤ v)
    → pos 0 <ℤ segment_or o d
segment_or-positive none d h k = h
segment_or-positive (some v) d h k = k v refl

build_estimator-IsPositive :
    (segments : List Bytes) (o : Option EstimatorDoc) (e : Option Estimator)
    → build_estimator segments o ≡ ok e
    → IsPositive e
unfolding build_estimator IsPositive
build_estimator-IsPositive segments none none h = tt
build_estimator-IsPositive segments none (some e) h = cc
build_estimator-IsPositive segments (some d) e h =
    let (positive, h₁) = fail_if-ok (not (ltb_ℤ (pos 0) d.default_minor)) _ _ _ h in
    let (_, by_segment, h₂) = >>=-ok (check_by_segment segments d.by_segment) _ _ h₁ in
    let (_, h₃) =
      fail_if-ok (ltb_ℤ (exponent_or d.exponent) (pos 0) || ltb_ℤ (pos 4) (exponent_or d.exponent))
        _ _ _ h₂ in
    let each : (segment : Bytes) (v : ℤ) → find segment d.by_segment ≡ some v → pos 0 <ℤ v =
      λ segment v. check_by_segment-positive segments d.by_segment segment v by_segment in
    subst IsPositive (ok-injective _ e h₃) (λ segment.
      segment_or-positive (find segment d.by_segment) d.default_minor (ground arith) (each segment))

estimate_with-positive :
    (o : Option Estimator) (segment : Bytes) (v : ℤ)
    → IsPositive o
    → estimate_with o segment ≡ some v
    → pos 0 <ℤ v
unfolding IsPositive
estimate_with-positive none segment v h k = cc
estimate_with-positive (some e) segment v h k =
    let e₁ : segment_or (find segment e.by_segment) e.default_minor ≡ v = cc in
    subst (λ x. pos 0 <ℤ x) e₁ (h segment)

-- Whatever a flow of a registry that Parse gives back estimates for a segment, declared or not, is
-- positive.
pub estimate_minor-positive :
    (doc : RegistryDoc) (r : Registry) (name : Bytes) (f : Flow) (segment : Bytes) (v : ℤ)
    → parse_doc doc ≡ ok r
    → flow_of r name ≡ some f
    → estimate_minor f segment ≡ some v
    → pos 0 <ℤ v
unfolding flow_of estimate_minor
estimate_minor-positive doc r name f segment v h k l =
    let (_, flows) = parse_doc-parts doc r h in
    let (fd, built) = find-build_flows doc.segments doc.flows r.flows name f flows k in
    let (_, _, _, estimator, _) = build_flow-parts doc.segments name fd f built in
    estimate_with-positive f.estimator segment v
      (build_estimator-IsPositive doc.segments fd.estimator f.estimator estimator) l
