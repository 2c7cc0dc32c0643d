-- ===== src/Biz/Baggage/Escape.antt =====
-- Escaped text holds no delimiter, and is read back.
use shortfall.Prelude.{
  ℕ, ◌+◌, ◌*◌, ◌/◌, ◌%◌, ◌<◌, ◌≡◌, refl, ap, ◌∙◌, ◌≢◌, true, false, some, [], ◌∷◌, ◌++◌, arith,
  Bytes, All, All-append, Bool-cases, inl, inr, ok,
}
use shortfall.Biz.Money.Cut.{Lacks}
use shortfall.Biz.Baggage.{
  needs_escape, hex_digit, hex_val, escape_byte, escape, clean, push, unescape_loop, unescape,
}

-- The elements of the text are bytes.
abbrev pub IsBytes : Bytes → Type 0
IsBytes = All (λ c. c < 256)

hex_val-hex_digit : (n : ℕ) → n < 16 → hex_val (hex_digit n) ≡ some n
unfolding hex_val hex_digit
hex_val-hex_digit n h = ground arith

hex_digit-ne : (n : ℕ) → n < 16 → hex_digit n ≢ b'|'
unfolding hex_digit
hex_digit-ne n h = ground arith

-- a byte that needs no escape is no percent sign and no delimiter
plain : (c : ℕ) → needs_escape c ≡ false → (c ≢ b'%') × (c ≢ b'|')
unfolding needs_escape
plain c h = (λ e. ground arith, λ e. ground arith)

loop-plain :
    (c : ℕ) (s : Bytes) → needs_escape c ≡ false → unescape_loop (c ∷ s) ≡ push c (unescape_loop s)
unfolding unescape_loop
loop-plain c [] h = ground (arith, (plain c h).0)
loop-plain c (d ∷ []) h = ground (arith, (plain c h).0)
loop-plain c (d ∷ e ∷ s) h = ground (arith, (plain c h).0)

loop-hex :
    (hi lo : ℕ) (s : Bytes)
    → hi < 16
    → lo < 16
    → unescape_loop (b'%' ∷ hex_digit hi ∷ hex_digit lo ∷ s) ≡ push (hi * 16 + lo) (unescape_loop s)
unfolding unescape_loop
loop-hex hi lo s h l = rw (hex_val-hex_digit hi h, hex_val-hex_digit lo l)

div-mod : (c : ℕ) → c / 16 * 16 + c % 16 ≡ c
div-mod c = omega arith

loop-escape_byte :
    (c : ℕ) (s : Bytes) → c < 256 → unescape_loop (escape_byte c ++ s) ≡ push c (unescape_loop s)
unfolding escape_byte
loop-escape_byte c s h = elim (Bool-cases (needs_escape c)) [
  | inr no_need ↦ rw no_need (loop-plain c s no_need)
  | inl need ↦ rw need (
      loop-hex (c / 16) (c % 16) s (omega arith) (omega arith)
      ∙ ap (λ b. push b (unescape_loop s)) (div-mod c))
]

loop-escape : (s : Bytes) → IsBytes s → unescape_loop (escape s) ≡ ok s
unfolding escape
loop-escape [] h = unfold unescape_loop in refl
loop-escape (c ∷ s) h = loop-escape_byte c (escape s) h.0 ∙ ap (push c) (loop-escape s h.1)

-- an escaped text that passes the test of the fast path is the text itself
clean-escape : (s : Bytes) → clean (escape s) ≡ true → escape s ≡ s
unfolding clean escape escape_byte
clean-escape [] h = refl
clean-escape (c ∷ s) h = elim (Bool-cases (needs_escape c)) [
  | inr no_need ↦
      let h' = rw no_need at h in rw no_need (ap (λ t. c ∷ t) (clean-escape s (ground arith)))
  | inl need ↦ let h' = rw need at h in cc
]

-- The escape is undone, on either path of `unescape`.
pub unescape-escape : (s : Bytes) → IsBytes s → unescape (escape s) ≡ ok s
unfolding unescape
unescape-escape s h = elim (Bool-cases (clean (escape s))) [
  | inl fast ↦ rw fast (ap ok (clean-escape s fast))
  | inr slow ↦ rw slow (loop-escape s h)
]

escape_byte-Lacks : (c : ℕ) → c < 256 → Lacks b'|' (escape_byte c)
unfolding escape_byte
escape_byte-Lacks c h = elim (Bool-cases (needs_escape c)) [
  | inr no_need ↦ rw no_need ((plain c no_need).1, tt)
  | inl need ↦ rw need (
    λ e. absurd (omega arith),
    (hex_digit-ne (c / 16) (omega arith), (hex_digit-ne (c % 16) (omega arith), tt)),
  )
]

-- No escaped text holds the delimiter.
pub escape-Lacks : (s : Bytes) → IsBytes s → Lacks b'|' (escape s)
unfolding escape
escape-Lacks [] h = tt
escape-Lacks (c ∷ s) h =
    All-append _ (escape_byte c) _ (escape_byte-Lacks c h.0) (escape-Lacks s h.1)
