-- ===== src/Registry/Rules.antt =====
-- registry/registry.go: the loops of Parse and buildFlow that check the segments, the hosts, the severity
-- ladder, the currencies and the stages.
use shortfall.Prelude.{
  ℕ, Bool, true, false, not, ◌&&◌, ◌||◌, Option, none, some, List, [], ◌∷◌, Bytes, codes, ◌=?◌, ltb,
  leb, ◌==◌, length, Result, ok, err, ◌>>=◌, ◌>>◌, fail_if,
}
use shortfall.Prelude.Int.{ℤ, pos, ltb_ℤ}
use shortfall.Biz.Context.{lower_token}
use shortfall.Engine.Realized.{member}
use shortfall.Registry.{Stage, SeverityThreshold}
use shortfall.Registry.Host.{cut_wild, valid_host_shape}
use shortfall.Registry.Docs.{
  SeverityDoc, StageDoc, RegistryError, bad_token, declared_twice, bad_host, bad_sev, bad_floor,
  unordered_floor, bad_code, no_signals, empty_signal,
}
use shortfall.Registry.Trim.{trim_space}

-- `token(s, maxLen)` is the shape that biz has too
abbrev pub token : Bytes → ℕ → Result RegistryError (Unit {0})
token s max_len = elim (lower_token s max_len) [ ok _ ↦ ok tt | err _ ↦ err bad_token ]

abbrev pub is_nil {ℓ} : {A : Type ℓ} → List A → Bool
is_nil [] = true
is_nil (_ ∷ _) = false

-- the loop over the segments, with the set of those before
unfoldable pub check_segments : List Bytes → List Bytes → Result RegistryError (Unit {0})
unfolding member lower_token
check_segments seen [] = ok tt
check_segments seen (s ∷ ss) = do
  token s 32
  fail_if (member s seen) declared_twice
  check_segments (s ∷ seen) ss

abbrev bare_host : Bytes → Bytes
bare_host h = elim (cut_wild h) [ none ↦ h | some wild ↦ wild ]

-- the loop over the patterns
unfoldable pub check_hosts : List Bytes → Result RegistryError (Unit {0})
unfolding cut_wild valid_host_shape ◌=?◌
check_hosts [] = ok tt
check_hosts (h ∷ hs) = do
  fail_if
      (h =? codes "*"
        || h =? codes "*."
        || is_nil (bare_host h)
        || not (valid_host_shape (bare_host h)))
      bad_host
  check_hosts hs

-- `strings.ContainsFunc(sd.Sev, ...)`
has_blank : Bytes → Bool
has_blank [] = false
has_blank (r ∷ s) = leb r b' ' || r == 127 || has_blank s

abbrev pub not_below : Option ℤ → ℤ → Bool
not_below none floor = false
not_below (some previous) floor = not (ltb_ℤ floor previous)

unfoldable pub not_word : Bytes → Bool
unfolding has_blank
not_word s = is_nil s || ltb 32 (length s) || has_blank s

-- the loop over the thresholds, with the names and the floor before
unfoldable pub build_severity :
    List Bytes → Option ℤ → List SeverityDoc → Result RegistryError (List SeverityThreshold)
unfolding member not_word
build_severity seen previous [] = ok []
build_severity seen previous (sd ∷ sds) = do
  fail_if (not_word sd.sev) bad_sev
  fail_if (member sd.sev seen) declared_twice
  fail_if (not (ltb_ℤ (pos 0) sd.min_per_minute)) bad_floor
  fail_if (not_below previous sd.min_per_minute) unordered_floor
  rest ← build_severity (sd.sev ∷ seen) (some sd.min_per_minute) sds
  ok (record { sev = sd.sev; min_per_minute_minor = sd.min_per_minute } ∷ rest)

-- the loop over the currencies; three bytes from 'A' to 'Z' are their own upper case
all_capital : Bytes → Bool
all_capital [] = true
all_capital (r ∷ s) = leb b'A' r && leb r b'Z' && all_capital s

unfoldable pub check_currencies : List Bytes → List Bytes → Result RegistryError (Unit {0})
unfolding member all_capital
check_currencies seen [] = ok tt
check_currencies seen (c ∷ cs) = do
  fail_if (not (length c == 3) || not (all_capital c)) bad_code
  fail_if (member c seen) declared_twice
  check_currencies (c ∷ seen) cs

pub check_signals : List Bytes → Result RegistryError (Unit {0})
unfolding trim_space
check_signals [] = ok tt
check_signals (sig ∷ sigs) = do fail_if (is_nil (trim_space sig)) empty_signal; check_signals sigs

-- the loop over the stages, with the names before
unfoldable pub build_stages : List Bytes → List StageDoc → Result RegistryError (List Stage)
unfolding member check_signals lower_token
build_stages seen [] = ok []
build_stages seen (sd ∷ sds) = do
  token sd.name 32
  fail_if (member sd.name seen) declared_twice
  fail_if (is_nil sd.signals) no_signals
  check_signals sd.signals
  rest ← build_stages (sd.name ∷ seen) sds
  ok (record { name = sd.name; signals = sd.signals } ∷ rest)
