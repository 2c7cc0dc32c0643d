-- ===== src/Engine/Customers/Exact.antt =====
-- The customers leg against the groups that the backend answers: its accounts, and what each has lost.
use shortfall.Prelude.{
  ◌+◌, suc, ◌≡◌, refl, sym, ap, ◌∙◌, true, ◌&&◌, ◌||◌, Option, none, some, List, [], ◌∷◌, ◌++◌,
  arith, Bytes, ◌=?◌, =?_sound, ok, if◌then◌else◌, Bool-cases, inl, inr, length, All, All-take,
}
use shortfall.Prelude.Int.{ℤ, pos, pos_part, ltb_ℤ}
use shortfall.Prelude.Int64.{add64}
use shortfall.Prelude.Maps.{
  Map, find, put, find-put, has_key, IsUnique, put-IsUnique, find-IsUnique, has_key-put, is_some,
}
use shortfall.Prelude.Sort.{sort_by, All-sort_by}
use shortfall.Biz.Context.{failed}
use shortfall.Query.{EventGroup, Querier}
use shortfall.Engine.{Request, amount, flow_filters}
use shortfall.Engine.Realized.{currency_of, member}
use shortfall.Engine.Exact.{fetch, fetch-cons, amount-add_to}
use shortfall.Engine.Customers.{
  CustomersLeg, Account, customer_of, account_or_new, credit, add_account, merge, ranks_before,
  impacts, cut_to, leg_of, customers_query, customers_loop, customers,
}

-- the sum, as int64 adds it, of the amounts of a customer's groups in a currency, from `v`
abbrev pub spent : Bytes → Bytes → List EventGroup → ℤ → ℤ
spent id c [] v = v
spent id c (g ∷ gs) v =
    spent id c gs (if customer_of g =? id && currency_of g =? c then add64 v g.sum_minor else v)

-- the customers that are not among `seen`, each once, in the order in which they first appear
abbrev pub new_ids : List Bytes → List EventGroup → List Bytes
new_ids seen [] = []
new_ids seen (g ∷ gs) =
    let old = new_ids seen gs in
    let new = customer_of g ∷ new_ids (customer_of g ∷ seen) gs in
    if member (customer_of g) seen then old else new

abbrev amount_in : Bytes → Option Account → ℤ
amount_in c none = pos 0
amount_in c (some a) = amount c a.by_cur

abbrev held : Bytes → Bytes → Map Account → ℤ
held id c accts = amount_in c (find id accts)

amount-account_or_new :
    (c : Bytes) (o : Option Account) (g : EventGroup)
    → amount c (account_or_new o g).by_cur ≡ amount_in c o
amount-account_or_new c none g = unfold amount find in refl
amount-account_or_new c (some a) g = refl

amount-credit :
    (c : Bytes) (g : EventGroup) (a : Account)
    → amount c (credit g a).by_cur
      ≡ (if currency_of g =? c then add64 (amount c a.by_cur) g.sum_minor else amount c a.by_cur)
unfolding credit
amount-credit c g a = amount-add_to (currency_of g) c g.sum_minor a.by_cur

held-add_account :
    (id c : Bytes) (g : EventGroup) (accts : Map Account)
    → held id c (add_account g accts) ≡ (
        if customer_of g =? id && currency_of g =? c
        then add64 (held id c accts) g.sum_minor
        else held id c accts)
unfolding add_account
held-add_account id c g accts =
    let a = account_or_new (find (customer_of g) accts) g in
    let found = ap (amount_in c) (find-put (customer_of g) id (credit g a) accts) in
    let added = amount-credit c g a in
    let before = amount-account_or_new c (find (customer_of g) accts) g in
    elim (Bool-cases (customer_of g =? id)) [
      | inr other ↦ let found' = rw other at found in found' ∙ rw other
      | inl same ↦
          let found' = rw same at found in
          let e = ap (λ k. held k c accts) (=?_sound (customer_of g) id same) in
          let added' = rw before at added in
          let added'' = rw e at added' in found' ∙ added'' ∙ rw same
    ]

held-merge :
    (id c : Bytes) (gs : List EventGroup) (accts : Map Account)
    → held id c (merge gs accts) ≡ spent id c gs (held id c accts)
unfolding merge
held-merge id c [] accts = refl
held-merge id c (g ∷ gs) accts =
    held-merge id c gs (add_account g accts) ∙ ap (spent id c gs) (held-add_account id c g accts)

merge-IsUnique :
    (gs : List EventGroup) (accts : Map Account) → IsUnique accts → IsUnique (merge gs accts)
unfolding merge
merge-IsUnique [] accts h = h
merge-IsUnique (g ∷ gs) accts h =
    merge-IsUnique gs (add_account g accts)
      (unfold add_account in put-IsUnique (customer_of g) _ accts h)

merge-append :
    (gs hs : List EventGroup) (accts : Map Account)
    → merge (gs ++ hs) accts ≡ merge hs (merge gs accts)
unfolding merge
merge-append [] hs accts = refl
merge-append (g ∷ gs) hs accts = merge-append gs hs _

customers_loop-fetch :
    {V : Type 0} (q : Querier V) (req : Request) (fs : List (Map Bytes)) (accts : Map Account)
    {gs : List EventGroup}
    → fetch q (customers_query req) fs ≡ ok gs
    → customers_loop q req fs accts ≡ ok (merge gs accts)
unfolding customers_loop
customers_loop-fetch q req [] accts {gs} h =
    let e : [] ≡ gs = unfold fetch in cc in rw (← e) (unfold merge in refl)
customers_loop-fetch q req (f ∷ fs) accts h =
    let (hs, rest, e, e', both) = fetch-cons q (customers_query req) f fs h in
    rw (e, ← both, merge-append hs rest accts) (customers_loop-fetch q req fs (merge hs accts) e')

length-put :
    (k : Bytes) (a : Account) (m : Map Account)
    → length (put k a m) ≡ (if has_key k m then length m else suc (length m))
unfolding put has_key find
length-put k a [] = refl
length-put k a ((j, b) ∷ m) = elim (Bool-cases (j =? k)) [
  | inl same ↦ rw same
  | inr other ↦
      let ih = length-put k a m in
      elim (Bool-cases (is_some (find k m))) [
        | inl old ↦ let ih' = rw old at ih in rw (other, old, ih')
        | inr new ↦ let ih' = rw new at ih in rw (other, new, ih')
      ]
]

abbrev Agree : Map Account → List Bytes → Type 0
Agree accts seen = (k : Bytes) → has_key k accts ≡ member k seen

length-merge :
    (gs : List EventGroup) (accts : Map Account) (seen : List Bytes)
    → Agree accts seen
    → length (merge gs accts) ≡ length accts + length (new_ids seen gs)
unfolding merge
length-merge [] accts seen h = omega arith
length-merge (g ∷ gs) accts seen h =
    let id = customer_of g in
    let a = credit g (account_or_new (find id accts) g) in
    let size : length (add_account g accts) ≡ _ = unfold add_account in length-put id a accts in
    let keys : (k : Bytes) → has_key k (add_account g accts) ≡ (id =? k || has_key k accts) =
      λ k. unfold add_account in has_key-put id k a accts in
    elim (Bool-cases (member id seen)) [
      | inl old ↦
          let size' = rw (h id, old) at size in
          let agree : Agree (add_account g accts) seen = λ k. elim (Bool-cases (id =? k)) [
            | inl same ↦
                let e = ap (λ j. member j seen) (=?_sound id k same) in
                keys k ∙ rw same (sym old ∙ e)
            | inr other ↦ keys k ∙ rw other (h k)
          ] in
          rw old (
            length-merge gs (add_account g accts) seen agree
            ∙ ap (λ n. n + length (new_ids seen gs)) size')
      | inr new ↦
          let size' = rw (h id, new) at size in
          let agree : Agree (add_account g accts) (id ∷ seen) =
            λ k. unfold member in keys k ∙ ap (λ b. id =? k || b) (h k) in
          let ih = length-merge gs (add_account g accts) (id ∷ seen) agree in
          rw new (ih ∙ omega arith)
    ]

All-map {ℓ κ ι} :
    {A : Type ℓ} (P : A → Type κ) (Q : A → Type ι) (f : (a : A) → P a → Q a) (xs : List A)
    → All P xs
    → All Q xs
All-map P Q f [] h = tt
All-map P Q f (x ∷ xs) (p, h) = (f x p, All-map P Q f xs h)

-- what an account holds is what the groups say
abbrev IsOwn : List EventGroup → Bytes × Account → Type 0
IsOwn gs (id, a) = (c : Bytes) → amount c a.by_cur ≡ spent id c gs (pos 0)

merge-IsOwn : (gs : List EventGroup) → All (IsOwn gs) (merge gs [])
merge-IsOwn gs =
    let accts = merge gs [] in
    All-map (λ e. find e.0 accts ≡ some e.1) (IsOwn gs)
      (λ e found c. sym (ap (amount_in c) found) ∙ held-merge e.0 c gs [] ∙ unfold find in refl)
      accts (find-IsUnique accts (merge-IsUnique gs [] tt))

cut_to-IsOwn :
    (gs : List EventGroup) (n : ℤ) (accts : Map Account)
    → All (IsOwn gs) accts
    → All (IsOwn gs) (cut_to n accts)
unfolding cut_to
cut_to-IsOwn gs n accts h = elim (Bool-cases (ltb_ℤ (pos 0) n)) [
  | inl positive ↦ rw positive (All-take (IsOwn gs) (pos_part n) accts h)
  | inr other ↦ rw other tt
]

impacts-IsOwn :
    (gs : List EventGroup) (accts : Map Account)
    → All (IsOwn gs) accts
    → All
        (λ x. (c : Bytes) → amount c x.by_currency ≡ spent x.customer_id c gs (pos 0))
        (impacts accts)
unfolding impacts
impacts-IsOwn gs [] h = tt
impacts-IsOwn gs ((id, a) ∷ accts) (own, h) = (own, impacts-IsOwn gs accts h)

-- If the backend serves events and answers the queries, then the leg is returned; it counts the
-- different customers among all the groups, and each customer that it lists has, in every currency, the
-- sum, as int64 adds it, of its groups over all flows.
pub customers-exact :
    {V : Type 0} (q : Querier V) (req : Request) (top_n : ℤ) (gs : List EventGroup)
    → q.capabilities.events ≡ true
    → fetch q (customers_query req) (flow_filters req failed) ≡ ok gs
    → (leg : CustomersLeg) × (customers q req top_n ≡ ok leg)
      × (leg.distinct ≡ pos (length (new_ids [] gs)))
      × All (λ x. (c : Bytes) → amount c x.by_currency ≡ spent x.customer_id c gs (pos 0)) leg.top_n
unfolding customers
customers-exact q req top_n gs h k =
    let agree : Agree [] [] = λ j. unfold has_key find member in refl in
    let size : length (merge gs []) ≡ length (new_ids [] gs) =
      length-merge gs [] [] agree ∙ omega arith in
    (
      leg_of top_n (merge gs []),
      rw (h, customers_loop-fetch q req (flow_filters req failed) [] k),
      unfold leg_of in ap pos size,
      unfold leg_of in
          impacts-IsOwn gs (cut_to top_n (sort_by ranks_before (merge gs []))) (
            cut_to-IsOwn gs top_n (sort_by ranks_before (merge gs []))
              (All-sort_by (IsOwn gs) ranks_before (merge gs []) (merge-IsOwn gs))),
    )
