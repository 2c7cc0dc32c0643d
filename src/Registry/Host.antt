-- ===== src/Registry/Host.antt =====
-- registry/registry.go: the allowlist of hosts that biz.vc may be sent to. `strings.ToLower` is the
-- parameter `to_lower`.
mod Suffix
pub mod Allowed
mod Tests
use shortfall.Prelude.{
  ℕ, ◌+◌, ◌-◌, Bool, true, false, not, ◌&&◌, ◌||◌, List, [], ◌∷◌, ◌++◌, Bytes, ◌=?◌, ltb, leb, ◌==◌,
  length, drop, Option, none, some, if◌then◌else◌,
}
use shortfall.Biz.Baggage.{split}

-- the characters of a label, and where a hyphen may not stand
abbrev label_char : ℕ → Bool
label_char c = (leb b'a' c && leb c b'z') || (leb b'0' c && leb c b'9') || c == b'-'

-- the loop over a label from its second byte on: a hyphen may not be the last
label_rest : ℕ → Bytes → Bool
label_rest c [] = label_char c && not (c == b'-')
label_rest c (d ∷ s) = label_char c && label_rest d s

label_ok : Bytes → Bool
unfolding label_rest
label_ok [] = false
label_ok (c ∷ s) = not (ltb 63 (length (c ∷ s))) && not (c == b'-') && label_rest c s

labels_ok : List Bytes → Bool
labels_ok [] = true
labels_ok (l ∷ ls) = label_ok l && labels_ok ls

abbrev nonempty : Bytes → Bool
nonempty [] = false
nonempty (_ ∷ _) = true

-- `validHostShape(host)`
unfoldable pub valid_host_shape : Bytes → Bool
unfolding labels_ok label_ok split
valid_host_shape host = nonempty host && not (ltb 253 (length host)) && labels_ok (split b'.' host)

-- `strings.HasSuffix(s, suffix)`
unfoldable pub has_suffix : Bytes → Bytes → Bool
has_suffix s suffix =
    not (ltb (length s) (length suffix)) && drop (length s - length suffix) s =? suffix

-- `strings.CutPrefix(pat, "*.")`
unfoldable pub cut_wild : Bytes → Option Bytes
cut_wild [] = none
cut_wild (a ∷ []) = none
cut_wild (a ∷ b ∷ wild) = if a == b'*' && b == b'.' then some wild else none

-- one round of the loop over the patterns
unfoldable pub pattern_allows : Option Bytes → Bytes → Bytes → Bool
pattern_allows (some wild) pat host =
    has_suffix host (b'.' ∷ wild) && ltb (length wild + 1) (length host)
pattern_allows none pat host = host =? pat

unfoldable pub any_allows : List Bytes → Bytes → Bool
unfolding pattern_allows cut_wild
any_allows [] host = false
any_allows (pat ∷ pats) host = pattern_allows (cut_wild pat) pat host || any_allows pats host

-- `Propagation.HostAllowed(host)`
unfoldable pub host_allowed : (Bytes → Bytes) → List Bytes → Bytes → Bool
host_allowed to_lower allow_hosts host =
    valid_host_shape (to_lower host) && any_allows allow_hosts (to_lower host)
