-- ===== src/Registry/Build/Parts.antt =====
-- What Parse and buildFlow have done where they accept: each step in turn.
use shortfall.Prelude.{
  ◌≡◌, false, not, none, some, List, [], ◌∷◌, Bytes, ok, >>=-ok, fail_if-ok, ok-injective, subst,
  Bool-cases, inl, inr, ◌=?◌, =?_sound,
}
use shortfall.Prelude.Maps.{Map, find}
use shortfall.Biz.Context.{kind_valid}
use shortfall.Registry.{stage_names, Registry, Flow}
use shortfall.Registry.Docs.{RegistryDoc, FlowDoc}
use shortfall.Registry.Rules.{
  is_nil, token, check_segments, check_hosts, build_severity, check_currencies, build_stages,
}
use shortfall.Registry.Blocks.{
  build_sla, build_estimator, build_baseline, build_recovery, build_reconcile,
}
use shortfall.Registry.Build.{is_one, build_flow, build_flows, parse_doc}

pub parse_doc-parts :
    (doc : RegistryDoc) (r : Registry)
    → parse_doc doc ≡ ok r
    → (build_severity [] none doc.severity ≡ ok r.severity)
      × (build_flows doc.segments doc.flows ≡ ok r.flows)
unfolding parse_doc
parse_doc-parts doc r h =
    let (_, h₁) = fail_if-ok (not (is_one doc.version)) _ _ _ h in
    let (_, h₂) = fail_if-ok (is_nil doc.segments) _ _ _ h₁ in
    let (_, _, h₃) = >>=-ok (check_segments [] doc.segments) _ _ h₂ in
    let (_, _, h₄) = >>=-ok (check_hosts doc.allow_hosts) _ _ h₃ in
    let (severity, built, h₅) = >>=-ok (build_severity [] none doc.severity) _ _ h₄ in
    let (_, h₆) = fail_if-ok (is_nil doc.flows) _ _ _ h₅ in
    let (flows, flows_built, e) = >>=-ok (build_flows doc.segments doc.flows) _ _ h₆ in
    subst
      (λ s.
        (build_severity [] none doc.severity ≡ ok s.severity)
        × (build_flows doc.segments doc.flows ≡ ok s.flows))
      (ok-injective _ _ e) (built, flows_built)

pub build_flow-parts :
    (segments : List Bytes) (name : Bytes) (fd : FlowDoc) (f : Flow)
    → build_flow segments name fd ≡ ok f
    → (is_nil fd.stages ≡ false)
      × (build_stages [] fd.stages ≡ ok f.stages)
      × (build_sla (stage_names f.stages) fd.sla ≡ ok f.sla)
      × (build_estimator segments fd.estimator ≡ ok f.estimator)
      × (build_reconcile (stage_names f.stages) fd.reconcile ≡ ok f.reconcile)
unfolding build_flow
build_flow-parts segments name fd f h =
    let (_, _, h₁) = >>=-ok (token name 64) _ _ h in
    let (_, h₂) = fail_if-ok (not (kind_valid fd.kind)) _ _ _ h₁ in
    let (some_stage, h₃) = fail_if-ok (is_nil fd.stages) _ _ _ h₂ in
    let (_, _, h₄) = >>=-ok (check_currencies [] fd.currencies) _ _ h₃ in
    let (stages, stages_built, h₅) = >>=-ok (build_stages [] fd.stages) _ _ h₄ in
    let (sla, sla_built, h₆) = >>=-ok (build_sla (stage_names stages) fd.sla) _ _ h₅ in
    let (estimator, estimator_built, h₇) = >>=-ok (build_estimator segments fd.estimator) _ _ h₆ in
    let (baseline, _, h₈) = >>=-ok (build_baseline fd.baseline) _ _ h₇ in
    let (recovery, _, h₉) = >>=-ok (build_recovery fd.recovery) _ _ h₈ in
    let (reconcile, reconcile_built, e) =
      >>=-ok (build_reconcile (stage_names stages) fd.reconcile) _ _ h₉ in
    subst
      (λ g.
        (is_nil fd.stages ≡ false)
        × (build_stages [] fd.stages ≡ ok g.stages)
        × (build_sla (stage_names g.stages) fd.sla ≡ ok g.sla)
        × (build_estimator segments fd.estimator ≡ ok g.estimator)
        × (build_reconcile (stage_names g.stages) fd.reconcile ≡ ok g.reconcile))
      (ok-injective _ _ e) (some_stage, stages_built, sla_built, estimator_built, reconcile_built)

pub find-build_flows :
    (segments : List Bytes) (docs : Map FlowDoc) (fs : Map Flow) (name : Bytes) (f : Flow)
    → build_flows segments docs ≡ ok fs
    → find name fs ≡ some f
    → (fd : FlowDoc) × (build_flow segments name fd ≡ ok f)
unfolding build_flows find
find-build_flows segments [] [] name f h k = cc
find-build_flows segments [] (_ ∷ _) name f h k = cc
find-build_flows segments ((j, fd) ∷ docs) [] name f h k =
    let (g, _, h₁) = >>=-ok (build_flow segments j fd) _ _ h in
    let (rest, _, e) = >>=-ok (build_flows segments docs) _ _ h₁ in cc
find-build_flows segments ((j, fd) ∷ docs) ((i, g') ∷ fs) name f h k =
    let (g, built, h₁) = >>=-ok (build_flow segments j fd) _ _ h in
    let (rest, rest_built, e) = >>=-ok (build_flows segments docs) _ _ h₁ in
    let e₁ : i ≡ j = cc in
    let e₂ : g ≡ g' = cc in
    let e₃ : rest ≡ fs = cc in
    elim (Bool-cases (i =? name)) [
      | inl same ↦ let k' = rw same at k in let e₄ = =?_sound i name same in (fd, cc)
      | inr other ↦ let k' = rw other at k in find-build_flows segments docs fs name f (cc) k'
    ]
