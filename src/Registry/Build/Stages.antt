-- ===== src/Registry/Build/Stages.antt =====
-- The stages of a flow that Parse gives back: where its value is read, and its SLAs.
use shortfall.Prelude.{
  ◌≡◌, refl, ap, true, false, not, ◌&&◌, Option, none, some, List, [], ◌∷◌, Bytes, ok, >>=-ok,
  fail_if-ok, ok-injective, arith, =?_refl,
}
use shortfall.Biz.Money.{cut}
use shortfall.Engine.Realized.{member}
use shortfall.Registry.{
  stage_names, Registry, Flow, Stage, Reconcile, flow_of, value_stage, value_stage_of, last_name,
}
use shortfall.Registry.Trim.{trim_space}
use shortfall.Registry.Docs.{RegistryDoc, StageDoc}
use shortfall.Registry.Rules.{is_nil, token, check_signals, build_stages}
use shortfall.Registry.Blocks.{build_reconcile, validate_reconcile, known_scheme}
use shortfall.Registry.Build.{parse_doc}
use shortfall.Registry.Build.Parts.{parse_doc-parts, build_flow-parts, find-build_flows}

last_name-member :
    (sts : List Stage) → is_nil sts ≡ false → member (last_name sts) (stage_names sts) ≡ true
unfolding member last_name
last_name-member [] h = cc
last_name-member (st ∷ []) h = rw (=?_refl st.name)
last_name-member (st ∷ st' ∷ sts) h =
    let ih = last_name-member (st' ∷ sts) refl in ground (arith, ih)

build_stages-nonempty :
    (seen : List Bytes) (docs : List StageDoc) (sts : List Stage)
    → is_nil docs ≡ false
    → build_stages seen docs ≡ ok sts
    → is_nil sts ≡ false
unfolding build_stages
build_stages-nonempty seen docs (st ∷ sts) h k = refl
build_stages-nonempty seen [] [] h k = cc
build_stages-nonempty seen (sd ∷ sds) [] h k =
    let (_, _, k₁) = >>=-ok (token sd.name 32) _ _ k in
    let (_, k₂) = fail_if-ok (member sd.name seen) _ _ _ k₁ in
    let (_, k₃) = fail_if-ok (is_nil sd.signals) _ _ _ k₂ in
    let (_, _, k₄) = >>=-ok (check_signals sd.signals) _ _ k₃ in
    let (rest, _, e) = >>=-ok (build_stages (sd.name ∷ seen) sds) _ _ k₄ in cc

build_reconcile-member :
    (stages : List Bytes) (o : Option Reconcile) (rc : Reconcile)
    → build_reconcile stages o ≡ ok rc
    → is_nil rc.stage ≡ false
    → member rc.stage stages ≡ true
unfolding build_reconcile validate_reconcile
build_reconcile-member stages none rc h k = cc
build_reconcile-member stages (some rd) rc h k =
    let (_, h₁) = fail_if-ok (is_nil (trim_space rd.source)) _ _ _ h in
    let (_, h₂) = fail_if-ok (not (known_scheme (cut b':' (trim_space rd.source)))) _ _ _ h₁ in
    let (declared, h₃) =
      fail_if-ok (not (is_nil rd.stage) && not (member rd.stage stages)) _ _ _ h₂ in
    let e : rd.stage ≡ rc.stage = ap (λ x. x.stage) (ok-injective _ rc h₃) in
    let declared' = rw e at declared in ground arith

value_stage_of-member :
    (s : Bytes) (f : Flow)
    → is_nil f.stages ≡ false
    → (is_nil s ≡ false → member s (stage_names f.stages) ≡ true)
    → member (value_stage_of s f) (stage_names f.stages) ≡ true
value_stage_of-member [] f h k = last_name-member f.stages h
value_stage_of-member (c ∷ s) f h k = k refl

-- Every flow of a registry that Parse gives back has its value stage among its declared stages: the one
-- that its reconcile block names, or the last one.
pub value_stage-member :
    (doc : RegistryDoc) (r : Registry) (name : Bytes) (f : Flow)
    → parse_doc doc ≡ ok r
    → flow_of r name ≡ some f
    → member (value_stage f) (stage_names f.stages) ≡ true
unfolding flow_of value_stage
value_stage-member doc r name f h k =
    let (_, flows) = parse_doc-parts doc r h in
    let (fd, built) = find-build_flows doc.segments doc.flows r.flows name f flows k in
    let (some_doc, stages, _, _, reconcile) = build_flow-parts doc.segments name fd f built in
    let some_stage = build_stages-nonempty [] fd.stages f.stages some_doc stages in
    value_stage_of-member f.reconcile.stage f some_stage
      (build_reconcile-member (stage_names f.stages) fd.reconcile f.reconcile reconcile)
