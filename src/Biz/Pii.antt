-- ===== src/Biz/Pii.antt =====
-- biz/pii.go: the guard against card numbers, e-mail addresses and IBANs. The two regular expressions of
-- the source are written out as matchers: `emailRe` has a match exactly if some '@' stands between a
-- character of the local part and a domain with a dot and two letters behind it; the candidates of
-- `ibanRe` are the leftmost matches, each as long as possible. Of the text beyond ASCII, the folding of
-- letters is not modelled.
pub mod Luhn
pub mod Checksum
pub mod Cards
mod Tests
use shortfall.Prelude.{
  ℕ, zero, suc, ◌+◌, ◌-◌, ◌*◌, ◌%◌, Bool, true, false, not, ◌&&◌, ◌||◌, Option, none, some, List,
  [], ◌∷◌, ◌++◌, Bytes, ltb, leb, ◌==◌, length, take, drop, Result, ok, err, ◌>>◌, fail_if,
  if◌then◌else◌,
}
use shortfall.Prelude.Decimal.{is_digit}

-- what a digit adds to the sum: `d *= 2; if d > 9 { d -= 9 }` in every second place
unfoldable pub luhn_weight : Bool → ℕ → ℕ
luhn_weight doubled c =
    let d = c - b'0' in if doubled then (if ltb 9 (d * 2) then d * 2 - 9 else d * 2) else d

-- the loop from the last digit to the first: the sum, and whether the next digit is doubled
unfoldable pub luhn_sum : Bytes → ℕ × Bool
unfolding luhn_weight
luhn_sum [] = (0, false)
luhn_sum (c ∷ s) = let (sum, doubled) = luhn_sum s in (sum + luhn_weight doubled c, not doubled)

-- `luhnValid(digits)`
unfoldable pub luhn_valid : Bytes → Bool
unfolding luhn_sum
luhn_valid s = (luhn_sum s).0 % 10 == 0

-- The inner loop of `hasPAN`: the digits of a run, cut at single spaces and dashes that a digit
-- follows, and the text behind the run.
abbrev pub starts_digit : Bytes → Bool
starts_digit [] = false
starts_digit (c ∷ _) = is_digit c

abbrev pub is_separator : ℕ → Bool
is_separator c = c == b' ' || c == b'-'

abbrev pub push_digit : ℕ → List Bytes × Bytes → List Bytes × Bytes
push_digit c ([], rest) = ((c ∷ []) ∷ [], rest)
push_digit c (segment ∷ segments, rest) = ((c ∷ segment) ∷ segments, rest)

abbrev pub new_segment : List Bytes × Bytes → List Bytes × Bytes
new_segment (segments, rest) = ([] ∷ segments, rest)

unfoldable pub run : Bytes → List Bytes × Bytes
run [] = ([] ∷ [], [])
run (c ∷ s) =
    let behind = run s in
    if is_digit c
    then push_digit c behind
    else if is_separator c && starts_digit s
    then new_segment behind
    else ([] ∷ [], c ∷ s)

-- `n >= 13 && n <= 19 && luhnValid(span)`
unfoldable pub is_pan : Bytes → Bool
unfolding luhn_valid
is_pan span = leb 13 (length span) && leb (length span) 19 && luhn_valid span

-- the two loops over the spans of whole segments: those that begin here, behind `span`, and all
unfoldable pub some_prefix : Bytes → List Bytes → Bool
unfolding is_pan
some_prefix span [] = false
some_prefix span (segment ∷ segments) =
    is_pan (span ++ segment) || some_prefix (span ++ segment) segments

unfoldable pub some_span : List Bytes → Bool
unfolding some_prefix
some_span [] = false
some_span (segment ∷ segments) = some_prefix [] (segment ∷ segments) || some_span segments

-- `hasPAN(s)`; the number counts the bytes of a run that are still to be skipped
unfoldable pub scan_pan : ℕ → Bytes → Bool
unfolding run some_span
scan_pan skip [] = false
scan_pan (suc skip) (c ∷ s) = scan_pan skip s
scan_pan zero (c ∷ s) =
    let (segments, rest) = run (c ∷ s) in
    let next = scan_pan (length s - length rest) s in
    let past = scan_pan zero s in if is_digit c then some_span segments || next else past

unfoldable pub has_pan : Bytes → Bool
unfolding scan_pan
has_pan s = scan_pan 0 s

-- `emailRe`
abbrev pub is_upper : ℕ → Bool
is_upper c = leb b'A' c && leb c b'Z'

abbrev pub is_lower : ℕ → Bool
is_lower c = leb b'a' c && leb c b'z'

abbrev pub is_letter : ℕ → Bool
is_letter c = is_upper c || is_lower c

abbrev domain_char : ℕ → Bool
domain_char c = is_letter c || is_digit c || c == b'.' || c == b'-'

abbrev local_char : ℕ → Bool
local_char c = domain_char c || c == b'_' || c == b'%' || c == b'+'

abbrev two_letters : Bytes → Bool
two_letters (a ∷ b ∷ _) = is_letter a && is_letter b
two_letters _ = false

-- `[A-Za-z0-9.-]+\.[A-Za-z]{2,}` at the beginning of the text, behind one domain character or more
domain_tail : Bytes → Bool
domain_tail [] = false
domain_tail (c ∷ s) = (c == b'.' && two_letters s) || (domain_char c && domain_tail s)

domain : Bytes → Bool
unfolding domain_tail
domain [] = false
domain (c ∷ s) = domain_char c && domain_tail s

unfoldable pub has_email : Bytes → Bool
unfolding domain
has_email [] = false
has_email (c ∷ []) = false
has_email (c ∷ d ∷ s) = (local_char c && d == b'@' && domain s) || has_email (d ∷ s)

-- `ibanRe`: how many letters and digits stand at the beginning of a text, at most `bound`
alnum_run : ℕ → Bytes → ℕ
alnum_run zero s = 0
alnum_run (suc bound) [] = 0
alnum_run (suc bound) (c ∷ s) =
    let n = alnum_run bound s in if is_letter c || is_digit c then suc n else 0

-- the length of the match at the beginning of the text
unfoldable pub iban_match : Bytes → Option ℕ
unfolding alnum_run
iban_match (a ∷ b ∷ c ∷ d ∷ s) =
    let n = alnum_run 30 s in
    if is_letter a && is_letter b && is_digit c && is_digit d && leb 11 n
    then some (4 + n)
    else none
iban_match _ = none

-- `feed(c)`
unfoldable pub feed : ℕ → ℕ → Option ℕ
feed rem c =
    if is_digit c
    then some ((rem * 10 + (c - b'0')) % 97)
    else if is_upper c
    then some ((rem * 100 + (c - b'A' + 10)) % 97)
    else if is_lower c
    then some ((rem * 100 + (c - b'a' + 10)) % 97)
    else none

unfoldable pub feed_all : Option ℕ → Bytes → Option ℕ
unfolding feed
feed_all rem [] = rem
feed_all none (c ∷ s) = none
feed_all (some rem) (c ∷ s) = feed_all (feed rem c) s

-- `ibanMod97(iban)`, with `none` for -1
unfoldable pub iban_mod97 : Bytes → Option ℕ
unfolding feed_all
iban_mod97 iban = feed_all (feed_all (some 0) (drop 4 iban)) (take 4 iban)

abbrev is_one : Option ℕ → Bool
is_one none = false
is_one (some rem) = rem == 1

-- `hasIBAN(s)`; the number counts the bytes of a candidate that are still to be skipped
unfoldable pub scan_iban : ℕ → Bytes → Bool
unfolding iban_match iban_mod97
scan_iban skip [] = false
scan_iban (suc skip) (c ∷ s) = scan_iban skip s
scan_iban zero (c ∷ s) = elim (iban_match (c ∷ s)) [
  | none ↦ scan_iban zero s
  | some n ↦ is_one (iban_mod97 (take n (c ∷ s))) || scan_iban (n - 1) s
]

unfoldable pub has_iban : Bytes → Bool
unfolding scan_iban
has_iban s = scan_iban 0 s

pub data PiiError : Type 0 where
  card_number email_address iban_number : PiiError

-- `CheckPII(field, s)`
unfoldable pub check_pii : Bytes → Result PiiError (Unit {0})
unfolding has_pan has_email has_iban
check_pii s = do
  fail_if (has_pan s) card_number
  fail_if (has_email s) email_address
  fail_if (has_iban s) iban_number
