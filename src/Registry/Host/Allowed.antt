-- ===== src/Registry/Host/Allowed.antt =====
-- What the allowlist lets through.
use shortfall.Prelude.{
  ◌+◌, ◌≡◌, refl, ap, ◌≢◌, ◌⊎◌, ◌↔◌, true, List, [], ◌∷◌, ◌++◌, arith, Bytes, =?_iff, ltb, length,
  length-append, Bool-cases, Option, none, some, inl, inr,
}
use shortfall.Registry.Host.{
  has_suffix, cut_wild, pattern_allows, any_allows, valid_host_shape, host_allowed,
}
use shortfall.Registry.Host.Suffix.{has_suffix_sound, has_suffix_complete}

-- The pattern `*.domain` allows one label or more in front of `.domain`; any other pattern allows
-- itself.
pub data Allows : Bytes → Bytes → Type 0 where
  wildcard :
      {pat host : Bytes} (domain front : Bytes)
      → pat ≡ b'*' ∷ b'.' ∷ domain
      → front ≢ []
      → host ≡ front ++ b'.' ∷ domain
      → Allows pat host
  exact : {pat host : Bytes} → cut_wild pat ≡ none → host ≡ pat → Allows pat host

-- Some pattern of the list allows the host.
abbrev pub SomeAllows : List Bytes → Bytes → Type 0
SomeAllows [] host = ⊥
SomeAllows (pat ∷ pats) host = Allows pat host ⊎ SomeAllows pats host

spelled_wild : (pat wild : Bytes) → cut_wild pat ≡ some wild → pat ≡ b'*' ∷ b'.' ∷ wild
unfolding cut_wild
spelled_wild [] wild h = cc
spelled_wild (a ∷ []) wild h = cc
spelled_wild (a ∷ b ∷ s) wild h = ground arith

cut_wild_of : (wild : Bytes) → cut_wild (b'*' ∷ b'.' ∷ wild) ≡ some wild
unfolding cut_wild
cut_wild_of wild = refl

too_short :
    (front wild host : Bytes)
    → ltb (length wild + 1) (length host) ≡ true
    → front ≡ []
    → host ≡ front ++ b'.' ∷ wild
    → ⊥
too_short [] wild host h empty spelled = let n = ap length spelled in ground arith
too_short (c ∷ front) wild host h empty spelled = cc

pattern_sound :
    (o : Option Bytes) (pat host : Bytes)
    → cut_wild pat ≡ o
    → pattern_allows o pat host ≡ true
    → Allows pat host
unfolding pattern_allows
pattern_sound none pat host e h = exact e ((=?_iff host pat).0 h)
pattern_sound (some wild) pat host e h =
    let suffix : has_suffix host (b'.' ∷ wild) ≡ true = ground arith in
    let (front, spelled) = has_suffix_sound host (b'.' ∷ wild) suffix in
    wildcard wild front (spelled_wild pat wild e)
      (λ empty. too_short front wild host (ground arith) empty spelled) spelled

wildcard_complete :
    (front domain pat host : Bytes)
    → pat ≡ b'*' ∷ b'.' ∷ domain
    → front ≢ []
    → host ≡ front ++ b'.' ∷ domain
    → pattern_allows (cut_wild pat) pat host ≡ true
unfolding pattern_allows
wildcard_complete [] domain pat host spelled some_front same = absurd (some_front refl)
wildcard_complete (c ∷ front) domain pat host spelled some_front same =
    let n = length-append (c ∷ front) (b'.' ∷ domain) in
    let suffix = has_suffix_complete (c ∷ front) (b'.' ∷ domain) in
    let long : ltb (length domain + 1) (length ((c ∷ front) ++ b'.' ∷ domain)) ≡ true =
      ground arith in
    rw (spelled, cut_wild_of domain, same, suffix, long)

pattern_complete :
    (pat host : Bytes) → Allows pat host → pattern_allows (cut_wild pat) pat host ≡ true
unfolding pattern_allows
pattern_complete pat host (exact plain same) = rw plain ((=?_iff host pat).1 same)
pattern_complete pat host (wildcard domain front spelled some_front same) =
    wildcard_complete front domain pat host spelled some_front same

any_sound : (pats : List Bytes) (host : Bytes) → any_allows pats host ≡ true → SomeAllows pats host
unfolding any_allows
any_sound [] host h = cc
any_sound (pat ∷ pats) host h = elim (Bool-cases (pattern_allows (cut_wild pat) pat host)) [
  | inl hit ↦ inl (pattern_sound (cut_wild pat) pat host refl hit)
  | inr miss ↦ inr (any_sound pats host (ground arith))
]

any_complete :
    (pats : List Bytes) (host : Bytes) → SomeAllows pats host → any_allows pats host ≡ true
unfolding any_allows
any_complete [] host h = absurd h
any_complete (pat ∷ pats) host (inl a) = let e = pattern_complete pat host a in rw e
any_complete (pat ∷ pats) host (inr s) = let e = any_complete pats host s in ground arith

-- A host is allowed exactly if its lower-case form has the shape of a host name and some pattern of the
-- list allows it: `*.domain` with at least one byte in front of `.domain`, any other pattern by equality.
pub host_allowed_iff :
    (to_lower : Bytes → Bytes) (pats : List Bytes) (host : Bytes)
    → (host_allowed to_lower pats host ≡ true)
      ↔ ((valid_host_shape (to_lower host) ≡ true) × SomeAllows pats (to_lower host))
unfolding host_allowed
host_allowed_iff to_lower pats host = (
  λ h. (ground arith, any_sound pats (to_lower host) (ground arith)),
  λ h. let e = any_complete pats (to_lower host) h.1 in ground arith,
)
