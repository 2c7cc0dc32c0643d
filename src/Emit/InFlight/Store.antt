-- ===== src/Emit/InFlight/Store.antt =====
-- The map of one shard, from a message's key to its item, and the 32 shards.
use shortfall.Prelude.{
  ℕ, zero, suc, ◌+◌, ◌≤◌, ◌<◌, ◌≡◌, refl, ap, ◌∙◌, Bool, true, false, ◌&&◌, Option, none, some,
  List, [], ◌∷◌, arith, ◌==◌, if◌then◌else◌, Bytes, ◌=?◌, =?_iff, length, Bool-cases, inl, inr, ◌↔◌,
}
use shortfall.Biz.Money.{Money}
use shortfall.Biz.Context.{Time}

-- `inflightKey`
pub record Key : Type 0 where
  pub flow : Bytes
  pub stage : Bytes
  pub id : Bytes

-- `inflightItem`
pub record Item : Type 0 where
  pub money : Money
  pub enqueued_at : Time

unfoldable pub same_key : Key → Key → Bool
same_key a b = a.flow =? b.flow && a.stage =? b.stage && a.id =? b.id

pub same_key_iff : (a b : Key) → (same_key a b ≡ true) ↔ (a ≡ b)
unfolding same_key
same_key_iff a b = (
  λ h. ground (arith, =?_iff a.flow b.flow, =?_iff a.stage b.stage, =?_iff a.id b.id),
  λ e. ground (arith, =?_iff a.flow b.flow, =?_iff a.stage b.stage, =?_iff a.id b.id),
)

abbrev pub Items : Type 0
Items = List (Key × Item)

unfoldable pub find_item : Key → Items → Option Item
find_item k [] = none
find_item k ((j, v) ∷ m) = if same_key j k then some v else find_item k m

-- `items[k] = v`
unfoldable pub put_item : Key → Item → Items → Items
put_item k v [] = (k, v) ∷ []
put_item k v ((j, w) ∷ m) = if same_key j k then (j, v) ∷ m else (j, w) ∷ put_item k v m

-- `delete(items, k)`
unfoldable pub erase_item : Key → Items → Items
erase_item k [] = []
erase_item k ((j, w) ∷ m) = if same_key j k then m else (j, w) ∷ erase_item k m

pub find-put_item :
    (k j : Key) (v : Item) (m : Items)
    → find_item j (put_item k v m) ≡ (if same_key k j then some v else find_item j m)
unfolding find_item put_item
find-put_item k j v [] = refl
find-put_item k j v ((i, w) ∷ m) =
    ground (arith, same_key_iff k j, same_key_iff i k, same_key_iff i j, find-put_item k j v m)

pub find-erase_item_ne :
    (k j : Key) (m : Items) → same_key k j ≡ false → find_item j (erase_item k m) ≡ find_item j m
unfolding find_item erase_item
find-erase_item_ne k j [] h = refl
find-erase_item_ne k j ((i, w) ∷ m) h =
    ground (arith, same_key_iff k j, same_key_iff i k, same_key_iff i j, find-erase_item_ne k j m h)

-- No key stands twice.
abbrev pub Distinct : Items → Type 0
Distinct [] = Unit
Distinct ((k, _) ∷ m) = (find_item k m ≡ none) × Distinct m

pub find-erase_item_self : (k : Key) (m : Items) → Distinct m → find_item k (erase_item k m) ≡ none
unfolding find_item erase_item
find-erase_item_self k [] h = refl
find-erase_item_self k ((i, w) ∷ m) h =
    ground (arith, same_key_iff i k, find-erase_item_self k m h.1)

pub put_item-Distinct : (k : Key) (v : Item) (m : Items) → Distinct m → Distinct (put_item k v m)
unfolding put_item
put_item-Distinct k v [] h = (unfold find_item in refl, tt)
put_item-Distinct k v ((i, w) ∷ m) h = elim (Bool-cases (same_key i k)) [
  | inl same ↦ rw same h
  | inr other ↦ rw other (
    find-put_item k i v m ∙ ground (arith, same_key_iff i k, same_key_iff k i, h.0),
    put_item-Distinct k v m h.1,
  )
]

pub erase_item-Distinct : (k : Key) (m : Items) → Distinct m → Distinct (erase_item k m)
unfolding erase_item
erase_item-Distinct k [] h = tt
erase_item-Distinct k ((i, w) ∷ m) h = elim (Bool-cases (same_key i k)) [
  | inl same ↦ rw same h.1
  | inr other ↦ rw other (
    find-erase_item_ne k i m (ground (arith, same_key_iff i k, same_key_iff k i)) ∙ h.0,
    erase_item-Distinct k m h.1,
  )
]

-- how the number of entries changes
abbrev one_if_none : Option Item → ℕ
one_if_none none = 1
one_if_none (some _) = 0

abbrev one_if_some : Option Item → ℕ
one_if_some none = 0
one_if_some (some _) = 1

pub length-put_item :
    (k : Key) (v : Item) (m : Items)
    → length (put_item k v m) ≡ length m + one_if_none (find_item k m)
unfolding put_item find_item
length-put_item k v [] = omega arith
length-put_item k v ((i, w) ∷ m) = ground (arith, length-put_item k v m)

pub length-erase_item :
    (k : Key) (m : Items) → length (erase_item k m) + one_if_some (find_item k m) ≡ length m
unfolding erase_item find_item
length-erase_item k [] = refl
length-erase_item k ((i, w) ∷ m) = ground (arith, length-erase_item k m)

-- `shards [trackerShards]trackerShard`
abbrev pub Shards : Type 0
Shards = ℕ → Items

unfoldable pub update : Shards → ℕ → Items → Shards
update f i m j = if i == j then m else f j

-- the number of items in the first `n` shards
unfoldable pub total : ℕ → Shards → ℕ
total zero f = 0
total (suc n) f = total n f + length (f n)

total-update_above :
    (n : ℕ) (f : Shards) (i : ℕ) (m : Items) → n ≤ i → total n (update f i m) ≡ total n f
unfolding total update
total-update_above zero f i m h = refl
total-update_above (suc n) f i m h = ground (arith, total-update_above n f i m (omega arith))

pub total-update :
    (n : ℕ) (f : Shards) (i : ℕ) (m : Items)
    → i < n
    → total n (update f i m) + length (f i) ≡ total n f + length m
unfolding total update
total-update zero f i m h = absurd (omega arith)
total-update (suc n) f i m h = elim (Bool-cases (i == n)) [
  | inl last ↦
      let e : i ≡ n = ground arith in
      let here : length (update f i m n) ≡ length m = rw (last, update) in
      omega (arith, here, total-update_above n f i m (omega arith), ap (λ j. length (f j)) e)
  | inr below ↦
      let there : length (update f i m n) ≡ length (f n) = rw (below, update) in
      omega (arith, there, total-update n f i m (ground arith))
]
