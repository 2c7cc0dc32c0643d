-- ===== src/Prelude/Sort.antt =====
-- `sort.SliceStable` and `sort.Strings`, as the stable insertion sort by a test `less`.
use shortfall.Prelude.{
  ◌≡◌, refl, Bool, true, false, List, [], ◌∷◌, map, Bytes, ltb, ◌==◌, ◌||◌, ◌&&◌, ap, if◌then◌else◌,
  Bool-cases, inl, inr, All,
}
use mathlib.Core.List.{Perm}
use mathlib.Core.List.Perm

module _ {ℓ} {A : Type ℓ} (less : A → A → Bool) where
  -- behind every element that is not greater
  insert_by : A → List A → List A
  insert_by a [] = a ∷ []
  insert_by a (b ∷ xs) = if less a b then a ∷ b ∷ xs else b ∷ insert_by a xs

  insert_all : List A → List A → List A
  insert_all [] sorted = sorted
  insert_all (a ∷ xs) sorted = insert_all xs (insert_by a sorted)

unfoldable pub sort_by {ℓ} : {A : Type ℓ} → (A → A → Bool) → List A → List A
unfolding insert_by insert_all
sort_by less xs = insert_all less xs []

-- A sort by what a view shows commutes with the view.
module _ {ℓ κ} {A : Type ℓ} {B : Type κ} (view : A → B) (less : A → A → Bool) (less' : B → B → Bool)
    (same : (a b : A) → less a b ≡ less' (view a) (view b)) where
  map-insert_by :
      (a : A) (xs : List A)
      → map view (insert_by less a xs) ≡ insert_by less' (view a) (map view xs)
  unfolding insert_by
  map-insert_by a [] = refl
  map-insert_by a (b ∷ xs) = elim (Bool-cases (less' (view a) (view b))) [
    | inl lt ↦ rw (same a b, lt)
    | inr ge ↦ rw (same a b, ge) (ap (λ t. view b ∷ t) (map-insert_by a xs))
  ]

  map-insert_all :
      (xs ys : List A)
      → map view (insert_all less xs ys) ≡ insert_all less' (map view xs) (map view ys)
  unfolding insert_all
  map-insert_all [] ys = refl
  map-insert_all (x ∷ xs) ys = rw (map-insert_all xs (insert_by less x ys), map-insert_by x ys)

  pub map-sort_by : (xs : List A) → map view (sort_by less xs) ≡ sort_by less' (map view xs)
  unfolding sort_by
  map-sort_by xs = map-insert_all xs []

-- A sort permutes.
module _ {ℓ} {A : Type ℓ} (less : A → A → Bool) where
  insert_by-perm : (a : A) (xs : List A) → Perm (insert_by less a xs) (a ∷ xs)
  unfolding insert_by
  insert_by-perm a [] = Perm.refl (a ∷ [])
  insert_by-perm a (b ∷ xs) = elim (Bool-cases (less a b)) [
    | inl lt ↦ rw lt (Perm.refl (a ∷ b ∷ xs))
    | inr ge ↦ rw ge (Perm.trans (Perm.cons b (insert_by-perm a xs)) (Perm.swap a b xs))
  ]

-- `<` on Go strings, byte by byte.
unfoldable pub ltb_bytes : Bytes → Bytes → Bool
ltb_bytes s [] = false
ltb_bytes [] (_ ∷ _) = true
ltb_bytes (a ∷ s) (b ∷ t) = ltb a b || (a == b && ltb_bytes s t)

-- A sort keeps what holds of every element.
module _ {ℓ κ} {A : Type ℓ} (P : A → Type κ) (less : A → A → Bool) where
  All-insert_by : (a : A) (xs : List A) → P a → All P xs → All P (insert_by less a xs)
  unfolding insert_by
  All-insert_by a [] p h = (p, tt)
  All-insert_by a (b ∷ xs) p (q, h) = elim (Bool-cases (less a b)) [
    | inl lt ↦ rw lt (p, (q, h))
    | inr ge ↦ rw ge (q, All-insert_by a xs p h)
  ]

  All-insert_all : (xs ys : List A) → All P xs → All P ys → All P (insert_all less xs ys)
  unfolding insert_all
  All-insert_all [] ys h k = k
  All-insert_all (x ∷ xs) ys (p, h) k =
      All-insert_all xs (insert_by less x ys) h (All-insert_by x ys p k)

  pub All-sort_by : (xs : List A) → All P xs → All P (sort_by less xs)
  unfolding sort_by
  All-sort_by xs h = All-insert_all xs [] h tt
