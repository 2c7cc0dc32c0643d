-- ===== src/Prelude/Maps.antt =====
-- A Go map with string keys: an association list in the order in which the keys were first set.
use shortfall.Prelude.{
  ◌≡◌, refl, ap, sym, ◌∙◌, Bool, true, false, ◌||◌, Option, none, some, List, [], ◌∷◌, arith, Bytes,
  ◌=?◌, =?_iff, =?_refl, All, Bool-cases, inl, inr, if◌then◌else◌,
}

abbrev pub Map {ℓ} : Type ℓ → Type ℓ
Map V = List (Bytes × V)

module _ {ℓ} {V : Type ℓ} where
  unfoldable pub find : Bytes → Map V → Option V
  find k [] = none
  find k ((j, v) ∷ m) = if j =? k then some v else find k m

  -- `m[k] = v`
  unfoldable pub put : Bytes → V → Map V → Map V
  put k v [] = (k, v) ∷ []
  put k v ((j, w) ∷ m) = if j =? k then (j, v) ∷ m else (j, w) ∷ put k v m

  pub find-put :
      (k j : Bytes) (v : V) (m : Map V) → find j (put k v m) ≡ (if k =? j then some v else find j m)
  unfolding find put
  find-put k j v [] = refl
  find-put k j v ((i, w) ∷ m) = ground (arith, =?_iff k j, =?_iff i k, =?_iff i j, find-put k j v m)

-- `m[k]` of a map from strings to strings: the empty text where the key is missing.
unfoldable pub label : Bytes → Map Bytes → Bytes
unfolding find
label k m = elim (find k m) [ none ↦ [] | some v ↦ v ]

abbrev pub is_some {ℓ} : {A : Type ℓ} → Option A → Bool
is_some none = false
is_some (some _) = true

unfoldable pub has_key {ℓ} : {V : Type ℓ} → Bytes → Map V → Bool
unfolding find
has_key k m = is_some (find k m)

-- A map has each of its keys once, which `put` keeps.
module _ {ℓ} {V : Type ℓ} where
  abbrev pub IsUnique : Map V → Type 0
  IsUnique [] = Unit
  IsUnique ((k, _) ∷ m) = (has_key k m ≡ false) × IsUnique m

  pub has_key-put :
      (k j : Bytes) (v : V) (m : Map V) → has_key j (put k v m) ≡ (k =? j || has_key j m)
  unfolding has_key
  has_key-put k j v m =
      let found = ap is_some (find-put k j v m) in
      elim (Bool-cases (k =? j)) [
        | inl same ↦ let found' = rw same at found in rw same found'
        | inr other ↦ let found' = rw other at found in rw other found'
      ]

  pub put-IsUnique : (k : Bytes) (v : V) (m : Map V) → IsUnique m → IsUnique (put k v m)
  unfolding put
  put-IsUnique k v [] h = (unfold has_key find in refl, tt)
  put-IsUnique k v ((j, w) ∷ m) (fresh, h) = elim (Bool-cases (j =? k)) [
    | inl same ↦ rw same (fresh, h)
    | inr other ↦
        let other' : (k =? j) ≡ false = grind (arith, =?_iff j k, =?_iff k j) in
        let fresh' : has_key j (put k v m) ≡ false = rw (has_key-put k j v m, other', fresh) in
        rw other (fresh', put-IsUnique k v m h)
  ]

  apart : (k : Bytes) (m : Map V) → has_key k m ≡ false → All (λ e. (k =? e.0) ≡ false) m
  unfolding has_key find
  apart k [] h = tt
  apart k ((j, v) ∷ m) h = elim (Bool-cases (j =? k)) [
    | inl same ↦
        let found : find k ((j, v) ∷ m) ≡ some v = rw same in
        let found' : is_some (find k ((j, v) ∷ m)) ≡ true = ap is_some found in cc
    | inr other ↦
        let later : find k ((j, v) ∷ m) ≡ find k m = rw other in
        let h' : is_some (find k m) ≡ false = ap is_some (sym later) ∙ h in
        let other' : (k =? j) ≡ false = grind (arith, =?_iff j k, =?_iff k j) in
        (other', apart k m h')
  ]

  find-under :
      (k : Bytes) (v : V) (m n : Map V)
      → All (λ e. (k =? e.0) ≡ false) n
      → All (λ e. find e.0 m ≡ some e.1) n
      → All (λ e. find e.0 ((k, v) ∷ m) ≡ some e.1) n
  unfolding find
  find-under k v m [] h k' = tt
  find-under k v m ((j, w) ∷ n) (other, h) (e, k') = (rw (other, e), find-under k v m n h k')

  -- each entry is what a lookup of its key finds
  pub find-IsUnique : (m : Map V) → IsUnique m → All (λ e. find e.0 m ≡ some e.1) m
  find-IsUnique [] h = tt
  find-IsUnique ((k, v) ∷ m) (fresh, h) =
      let head : find k ((k, v) ∷ m) ≡ some v = unfold find in rw (=?_refl k) in
      (head, find-under k v m m (apart k m fresh) (find-IsUnique m h))
