-- ===== src/Registry/Build/Ladder.antt =====
-- The severity ladder of a registry that Parse gives back.
use shortfall.Prelude.{
  ◌≡◌, false, not, Option, none, some, List, [], ◌∷◌, Bytes, ok, >>=-ok, fail_if-ok, ok-injective,
  subst, All, arith,
}
use shortfall.Prelude.Int.{ℤ, pos, ltb_ℤ, ◌<ℤ◌}
use shortfall.Registry.{Registry, SeverityThreshold}
use shortfall.Registry.Docs.{SeverityDoc, RegistryDoc}
use shortfall.Registry.Rules.{build_severity, not_below, not_word}
use shortfall.Engine.Realized.{member}
use shortfall.Registry.Build.{parse_doc}
use shortfall.Registry.Build.Parts.{parse_doc-parts}

-- Every floor is positive and above all floors behind it.
abbrev pub IsLadder : List SeverityThreshold → Type 0
IsLadder [] = Unit
IsLadder (t ∷ ts) =
    (pos 0 <ℤ t.min_per_minute_minor)
    × (All (λ u. u.min_per_minute_minor <ℤ t.min_per_minute_minor) ts × IsLadder ts)

abbrev Under : Option ℤ → SeverityThreshold → Type 0
Under none t = Unit
Under (some floor) t = t.min_per_minute_minor <ℤ floor

not_below-Under :
    (o : Option ℤ) (t : SeverityThreshold) → not_below o t.min_per_minute_minor ≡ false → Under o t
not_below-Under none t h = tt
not_below-Under (some floor) t h = ground arith

Under-trans :
    (o : Option ℤ) (t u : SeverityThreshold)
    → Under o t
    → u.min_per_minute_minor <ℤ t.min_per_minute_minor
    → Under o u
Under-trans none t u h k = tt
Under-trans (some floor) t u h k = omega arith

Under-All :
    (o : Option ℤ) (t : SeverityThreshold) (ts : List SeverityThreshold)
    → Under o t
    → All (λ u. u.min_per_minute_minor <ℤ t.min_per_minute_minor) ts
    → All (Under o) ts
Under-All o t [] h k = tt
Under-All o t (u ∷ us) h (k, ks) = (Under-trans o t u h k, Under-All o t us h ks)

build_severity-IsLadder :
    (seen : List Bytes) (o : Option ℤ) (docs : List SeverityDoc) (ts : List SeverityThreshold)
    → build_severity seen o docs ≡ ok ts
    → All (Under o) ts × IsLadder ts
unfolding build_severity
build_severity-IsLadder seen o [] [] h = (tt, tt)
build_severity-IsLadder seen o [] (t ∷ ts) h = cc
build_severity-IsLadder seen o (sd ∷ sds) ts h =
    let floor = sd.min_per_minute in
    let (_, h₁) = fail_if-ok (not_word sd.sev) _ _ _ h in
    let (_, h₂) = fail_if-ok (member sd.sev seen) _ _ _ h₁ in
    let (positive, h₃) = fail_if-ok (not (ltb_ℤ (pos 0) floor)) _ _ _ h₂ in
    let (below, h₄) = fail_if-ok (not_below o floor) _ _ _ h₃ in
    let (rest, built, e) = >>=-ok (build_severity (sd.sev ∷ seen) (some floor) sds) _ _ h₄ in
    let t : SeverityThreshold = record { sev = sd.sev; min_per_minute_minor = floor } in
    let under = not_below-Under o t below in
    let (all, ladder) = build_severity-IsLadder (sd.sev ∷ seen) (some floor) sds rest built in
    let done : All (Under o) (t ∷ rest) × IsLadder (t ∷ rest) =
      ((under, Under-All o t rest under all), (ground arith, (all, ladder))) in
    subst (λ xs. All (Under o) xs × IsLadder xs) (ok-injective (t ∷ rest) ts e) done

-- Where Parse accepts a document, every floor of the severity ladder is positive and above all floors
-- behind it.
pub parse_doc-IsLadder :
    (doc : RegistryDoc) (r : Registry) → parse_doc doc ≡ ok r → IsLadder r.severity
parse_doc-IsLadder doc r h =
    let (severity, _) = parse_doc-parts doc r h in
    let (_, ladder) = build_severity-IsLadder [] none doc.severity r.severity severity in ladder
