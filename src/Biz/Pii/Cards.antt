-- ===== src/Biz/Pii/Cards.antt =====
-- No card number that is written as whole segments escapes the scan.
use shortfall.Prelude.{
  ℕ, zero, suc, ◌-◌, ◌≤◌, ◌≡◌, refl, ap, Bool, true, false, ◌&&◌, ◌||◌, ◌⊎◌, inl, inr, List, [],
  ◌∷◌, ◌++◌, append_assoc, append-nil, arith, Bytes, length, length-append, Bool-cases,
  if◌then◌else◌,
}
use shortfall.Prelude.Decimal.{is_digit}
use shortfall.Biz.Pii.{
  starts_digit, is_separator, push_digit, new_segment, run, is_pan, some_prefix, some_span,
  scan_pan, has_pan,
}

-- The text of a card: it ends with a digit, and any other of its characters is a digit or a single space
-- or dash with a digit behind it.
abbrev pub IsCardText : Bytes → Type 0
IsCardText [] = ⊥
IsCardText (c ∷ []) = is_digit c ≡ true
IsCardText (c ∷ d ∷ s) =
    ((is_digit c ≡ true) ⊎ ((is_digit c ≡ false) × (is_separator c ≡ true) × (is_digit d ≡ true)))
    × IsCardText (d ∷ s)

unfoldable pub digits : Bytes → Bytes
digits [] = []
digits (c ∷ s) = if is_digit c then c ∷ digits s else digits s

-- no digit stands at the end of a text
abbrev pub EndsOpen : Bytes → Type 0
EndsOpen [] = Unit
EndsOpen (c ∷ []) = is_digit c ≡ false
EndsOpen (c ∷ d ∷ s) = EndsOpen (d ∷ s)

some_prefix-push_digit :
    (c : ℕ) (span : Bytes) (r : List Bytes × Bytes)
    → some_prefix (span ++ c ∷ []) r.0 ≡ true
    → some_prefix span (push_digit c r).0 ≡ true
unfolding some_prefix
some_prefix-push_digit c span ([], rest) h = cc
some_prefix-push_digit c span (segment ∷ segments, rest) h =
    let e : (span ++ c ∷ []) ++ segment ≡ span ++ c ∷ segment =
      append_assoc span (c ∷ []) segment in
    rw (← e) h

run_digit : (c : ℕ) (s : Bytes) → is_digit c ≡ true → run (c ∷ s) ≡ push_digit c (run s)
unfolding run
run_digit c s h = rw h

run_cut :
    (c : ℕ) (s : Bytes)
    → is_digit c ≡ false
    → is_separator c && starts_digit s ≡ true
    → run (c ∷ s) ≡ new_segment (run s)
unfolding run
run_cut c s h cut = rw (h, cut)

run_stop :
    (c : ℕ) (s : Bytes)
    → is_digit c ≡ false
    → is_separator c && starts_digit s ≡ false
    → run (c ∷ s) ≡ ([] ∷ [], c ∷ s)
unfolding run
run_stop c s h stop = rw (h, stop)

some_prefix-here :
    (c : ℕ) (span after : Bytes)
    → starts_digit after ≡ false
    → is_pan (span ++ c ∷ []) ≡ true
    → some_prefix span (push_digit c (run after)).0 ≡ true
unfolding some_prefix run
some_prefix-here c span [] h pan = ground arith
some_prefix-here c span (d ∷ after) h pan =
    elim (Bool-cases (is_separator d && starts_digit after)) [
      | inl cut ↦ rw (h, cut) (ground arith)
      | inr end ↦ rw (h, end) (ground arith)
    ]

some_prefix-new_segment :
    (span : Bytes) (r : List Bytes × Bytes)
    → some_prefix span r.0 ≡ true
    → some_prefix span (new_segment r).0 ≡ true
unfolding some_prefix
some_prefix-new_segment span (segments, rest) h = rw append-nil (ground arith)

-- the run that begins with a card has the card's digits as a span from its first segment on
some_prefix-run :
    (card span after : Bytes)
    → IsCardText card
    → starts_digit after ≡ false
    → is_pan (span ++ digits card) ≡ true
    → some_prefix span (run (card ++ after)).0 ≡ true
unfolding digits
some_prefix-run [] span after h _ pan = absurd h
some_prefix-run (c ∷ []) span after h stop pan =
    let pan' = rw h at pan in rw (run_digit c after h) (some_prefix-here c span after stop pan')
some_prefix-run (c ∷ d ∷ card) span after (inl digit, h) stop pan =
    let pan' : is_pan (span ++ c ∷ digits (d ∷ card)) ≡ true = rw digit at pan in
    let e : (span ++ c ∷ []) ++ digits (d ∷ card) ≡ span ++ c ∷ digits (d ∷ card) =
      append_assoc span (c ∷ []) (digits (d ∷ card)) in
    rw (run_digit c (d ∷ card ++ after) digit) (
      some_prefix-push_digit c span (run (d ∷ card ++ after))
        (some_prefix-run (d ∷ card) (span ++ c ∷ []) after h stop (rw e pan')))
some_prefix-run (c ∷ d ∷ card) span after (inr (other, separator, follows), h) stop pan =
    let pan' : is_pan (span ++ digits (d ∷ card)) ≡ true = rw other at pan in
    let hit = some_prefix-run (d ∷ card) span after h stop pan' in
    rw (run_cut c (d ∷ card ++ after) other (ground (arith, separator, follows)))
      (some_prefix-new_segment span (run (d ∷ card ++ after)) hit)

-- what the first segments of a run are does not matter to the spans behind them
abbrev later : List Bytes → List Bytes
later [] = []
later (_ ∷ segments) = segments

some_span-later :
    (segments : List Bytes) → some_span (later segments) ≡ true → some_span segments ≡ true
unfolding some_span
some_span-later [] h = h
some_span-later (segment ∷ segments) h = ground arith

later-push_digit :
    (c : ℕ) (r : List Bytes × Bytes)
    → some_span (later r.0) ≡ true
    → some_span (later (push_digit c r).0) ≡ true
later-push_digit c ([], rest) h = h
later-push_digit c (segment ∷ segments, rest) h = h

some_prefix-some_span :
    (segments : List Bytes) → some_prefix [] segments ≡ true → some_span segments ≡ true
unfolding some_span some_prefix
some_prefix-some_span [] h = h
some_prefix-some_span (segment ∷ segments) h = ground arith

rest-push_digit : (c : ℕ) (r : List Bytes × Bytes) → (push_digit c r).1 ≡ r.1
rest-push_digit c ([], rest) = refl
rest-push_digit c (segment ∷ segments, rest) = refl

EndsOpen-tail : (c : ℕ) (b : Bytes) → EndsOpen (c ∷ b) → EndsOpen b
EndsOpen-tail c [] h = tt
EndsOpen-tail c (d ∷ b) h = h

starts_digit-append : (s t : Bytes) → starts_digit s ≡ true → starts_digit (s ++ t) ≡ true
starts_digit-append [] t h = cc
starts_digit-append (c ∷ s) t h = h

or_true : (b : Bool) → (b || true) ≡ true
or_true true = refl
or_true false = refl

scan_digit :
    (c : ℕ) (s : Bytes)
    → is_digit c ≡ true
    → scan_pan 0 (c ∷ s)
      ≡ (some_span (run (c ∷ s)).0 || scan_pan (length s - length (run (c ∷ s)).1) s)
unfolding scan_pan
scan_digit c s h =
    ap
      (λ b.
        if b
        then some_span (run (c ∷ s)).0 || scan_pan (length s - length (run (c ∷ s)).1) s
        else scan_pan 0 s)
      h

scan_here : (s : Bytes) → starts_digit s ≡ true → some_span (run s).0 ≡ true → scan_pan 0 s ≡ true
scan_here [] h hit = cc
scan_here (c ∷ s) h hit = rw (scan_digit c s h, hit)

-- A run that begins in front of the card stops before it, or has the card's segments behind its first.
module _ (text : Bytes) (start : starts_digit text ≡ true)
    (hit : some_span (run text).0 ≡ true) where
  rest_before : (b : Bytes) → length text ≤ length (b ++ text)
  rest_before b = omega (arith, length-append b text)

  run_before :
      (c : ℕ) (b : Bytes)
      → EndsOpen (c ∷ b)
      → (some_span (later (run (c ∷ b ++ text)).0) ≡ true)
        ⊎ (length text ≤ length (run (c ∷ b ++ text)).1)
  run_before c [] h = elim (Bool-cases (is_separator c)) [
    | inl separator ↦ inl (rw (run_cut c text h (ground (arith, separator, start))) hit)
    | inr other ↦ inr (rw (run_stop c text h (ground arith)) (omega arith))
  ]
  run_before c (d ∷ b) h =
      let behind = d ∷ b ++ text in
      elim (Bool-cases (is_digit c)) [
        | inl digit ↦ elim (run_before d b h) [
          | inl found ↦ inl (rw (run_digit c behind digit) (later-push_digit c (run behind) found))
          | inr le ↦ inr (rw (run_digit c behind digit, rest-push_digit c (run behind)) le)
        ]
        | inr other ↦ elim (Bool-cases (is_separator c && starts_digit behind)) [
          | inl cut ↦ elim (run_before d b h) [
            | inl found ↦
                inl (rw (run_cut c behind other cut) (some_span-later (run behind).0 found))
            | inr le ↦ inr (rw (run_cut c behind other cut) le)
          ]
          | inr stop ↦ inr (rw (run_stop c behind other stop) (omega (arith, rest_before b)))
        ]
      ]

  scan_before :
      (b : Bytes) (skip : ℕ) → EndsOpen b → skip ≤ length b → scan_pan skip (b ++ text) ≡ true
  unfolding scan_pan
  scan_before [] zero h le = scan_here text start hit
  scan_before [] (suc skip) h le = absurd (omega arith)
  scan_before (c ∷ b) (suc skip) h le = scan_before b skip (EndsOpen-tail c b h) (omega arith)
  scan_before (c ∷ b) zero h le = elim (Bool-cases (is_digit c)) [
    | inr other ↦ rw other (scan_before b zero (EndsOpen-tail c b h) (omega arith))
    | inl digit ↦ elim (run_before c b h) [
      | inl found ↦
          let e = some_span-later (run (c ∷ b ++ text)).0 found in
          rw (scan_digit c (b ++ text) digit, e)
      | inr le' ↦
          let next =
            scan_before b (length (b ++ text) - length (run (c ∷ b ++ text)).1)
              (EndsOpen-tail c b h) (omega (arith, length-append b text)) in
          rw (scan_digit c (b ++ text) digit, next) (or_true (some_span (run (c ∷ b ++ text)).0))
    ]
  ]

pub has_pan_complete :
    (before card after : Bytes)
    → EndsOpen before
    → starts_digit card ≡ true
    → IsCardText card
    → starts_digit after ≡ false
    → is_pan (digits card) ≡ true
    → has_pan (before ++ (card ++ after)) ≡ true
unfolding has_pan
has_pan_complete before card after open_front start h stop pan =
    let hit =
      some_prefix-some_span (run (card ++ after)).0 (some_prefix-run card [] after h stop pan) in
    scan_before (card ++ after) (starts_digit-append card after start) hit before 0 open_front
      (omega arith)
