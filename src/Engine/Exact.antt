-- ===== src/Engine/Exact.antt =====
-- The realized leg against an independent description of the loss: the failed groups of entities that
-- did not succeed, summed for each currency at the largest single amount.
use shortfall.Prelude.{
  ◌≡◌, refl, sym, ◌∙◌, Bool, true, false, ◌||◌, List, [], ◌∷◌, ◌++◌, map, arith, Bytes, ◌=?◌,
  =?_iff, Result, ok, ◌>>=◌, if◌then◌else◌, Bool-cases, inl, inr, Result-cases,
}
use shortfall.Prelude.Int.{ℤ, pos}
use shortfall.Prelude.Int64.{add64}
use shortfall.Prelude.Maps.{Map, find, find-put}
use shortfall.Biz.Context.{success, failed}
use shortfall.Query.{EventQuery, EventGroup, Querier}
use shortfall.Engine.{Request, Leg, EngineError, wrapped, amount, add_to, flow_filters}
use shortfall.Engine.Realized.{
  entity_of, currency_of, member, success_query, failed_query, note_succeeded, add_failed,
  add_group, empty_leg, success_loop, failed_loop, realized_from_events,
}

-- A sum into a map shows at its key, and nowhere else.
pub amount-add_to :
    (k c : Bytes) (v : ℤ) (m : Map ℤ)
    → amount c (add_to k v m) ≡ (if k =? c then add64 (amount c m) v else amount c m)
unfolding amount add_to
amount-add_to k c v m = ground (arith, find-put k c (add64 (amount k m) v) m, =?_iff k c)

-- the answers to a list of queries, in their order
unfoldable pub fetch :
    {V : Type 0}
    → Querier V
    → (Map Bytes → EventQuery)
    → List (Map Bytes)
    → Result EngineError (List EventGroup)
fetch q query [] = ok []
fetch q query (f ∷ fs) = do
  groups ← wrapped (q.query_events (query f))
  rest ← fetch q query fs
  ok (groups ++ rest)

-- the groups of entities that have no success
unfoldable pub counted : List Bytes → List EventGroup → List EventGroup
counted succeeded [] = []
counted succeeded (g ∷ gs) =
    if member (entity_of g) succeeded then counted succeeded gs else g ∷ counted succeeded gs

-- the sum, as int64 adds it, of the largest amounts in the currency `c`, from `v`
unfoldable pub loss : Bytes → List EventGroup → ℤ → ℤ
loss c [] v = v
loss c (g ∷ gs) v = loss c gs (if currency_of g =? c then add64 v g.max_minor else v)

unfoldable pub number : List EventGroup → ℤ → ℤ
number [] n = n
number (_ ∷ gs) n = number gs (add64 n (pos 1))

member-append :
    (k : Bytes) (ks js : List Bytes) → member k (ks ++ js) ≡ (member k ks || member k js)
unfolding member
member-append k [] js = refl
member-append k (i ∷ ks) js = ground (arith, member-append k ks js)

-- the list of the loop holds the same entities as the groups
member-note_succeeded :
    (k : Bytes) (gs : List EventGroup) (ks : List Bytes)
    → member k (note_succeeded gs ks) ≡ (member k (map entity_of gs) || member k ks)
unfolding member note_succeeded
member-note_succeeded k [] ks = refl
member-note_succeeded k (g ∷ gs) ks = ground (arith, member-note_succeeded k gs (entity_of g ∷ ks))

add_failed-append :
    (ks : List Bytes) (gs hs : List EventGroup) (leg : Leg)
    → add_failed ks (gs ++ hs) leg ≡ add_failed ks hs (add_failed ks gs leg)
unfolding add_failed
add_failed-append ks [] hs leg = refl
add_failed-append ks (g ∷ gs) hs leg = add_failed-append ks gs hs _

loss-counted :
    (c : Bytes) (ks : List Bytes) (g : EventGroup) (gs : List EventGroup) (leg : Leg)
    → loss c (counted ks (g ∷ gs)) (amount c leg.by_currency)
      ≡ loss c (counted ks gs) (amount c (add_group ks g leg).by_currency)
unfolding counted loss add_group
loss-counted c ks g gs leg = elim (Bool-cases (member (entity_of g) ks)) [
  | inl back ↦ rw back
  | inr lost ↦ rw (lost, amount-add_to (currency_of g) c g.max_minor leg.by_currency)
]

number-counted :
    (ks : List Bytes) (g : EventGroup) (gs : List EventGroup) (leg : Leg)
    → number (counted ks (g ∷ gs)) leg.count ≡ number (counted ks gs) (add_group ks g leg).count
unfolding counted number add_group
number-counted ks g gs leg = elim (Bool-cases (member (entity_of g) ks)) [
  | inl back ↦ rw back
  | inr lost ↦ rw lost
]

add_failed-amount :
    (c : Bytes) (ks : List Bytes) (gs : List EventGroup) (leg : Leg)
    → amount c (add_failed ks gs leg).by_currency
      ≡ loss c (counted ks gs) (amount c leg.by_currency)
unfolding add_failed
add_failed-amount c ks [] leg = unfold counted loss in refl
add_failed-amount c ks (g ∷ gs) leg =
    add_failed-amount c ks gs (add_group ks g leg) ∙ sym (loss-counted c ks g gs leg)

add_failed-count :
    (ks : List Bytes) (gs : List EventGroup) (leg : Leg)
    → (add_failed ks gs leg).count ≡ number (counted ks gs) leg.count
unfolding add_failed
add_failed-count ks [] leg = unfold counted number in refl
add_failed-count ks (g ∷ gs) leg =
    add_failed-count ks gs (add_group ks g leg) ∙ sym (number-counted ks g gs leg)

counted-same :
    (ks js : List Bytes)
    → ((k : Bytes) → member k ks ≡ member k js)
    → (gs : List EventGroup) → counted ks gs ≡ counted js gs
unfolding counted
counted-same ks js h [] = refl
counted-same ks js h (g ∷ gs) = rw (h (entity_of g), counted-same ks js h gs)

pub fetch-cons :
    {V : Type 0} (q : Querier V) (query : Map Bytes → EventQuery) (f : Map Bytes)
    (fs : List (Map Bytes)) {gs : List EventGroup}
    → fetch q query (f ∷ fs) ≡ ok gs
    → (hs : List EventGroup) × (rest : List EventGroup) × (wrapped (q.query_events (query f))
        ≡ ok hs)
      × (fetch q query fs ≡ ok rest)
      × (hs ++ rest ≡ gs)
unfolding fetch
fetch-cons q query f fs h = elim (Result-cases (wrapped (q.query_events (query f)))) [
  | inr (x, e) ↦ let h' = rw e at h in cc
  | inl (hs, e) ↦ elim (Result-cases (fetch q query fs)) [
    | inr (x, e') ↦ let h' = rw (e, e') at h in cc
    | inl (rest, e') ↦ let h' = rw (e, e') at h in (hs, rest, e, e', cc)
  ]
]

note_succeeded-append :
    (gs hs : List EventGroup) (ks : List Bytes)
    → note_succeeded (gs ++ hs) ks ≡ note_succeeded hs (note_succeeded gs ks)
unfolding note_succeeded
note_succeeded-append [] hs ks = refl
note_succeeded-append (g ∷ gs) hs ks = note_succeeded-append gs hs _

-- the loops are the fetched answers, read in one go
success_loop-fetch :
    {V : Type 0} (q : Querier V) (req : Request) (fs : List (Map Bytes)) (ks : List Bytes)
    {gs : List EventGroup}
    → fetch q (success_query req) fs ≡ ok gs
    → success_loop q req fs ks ≡ ok (note_succeeded gs ks)
unfolding success_loop
success_loop-fetch q req [] ks {gs} h =
    let e : [] ≡ gs = unfold fetch in cc in rw (← e) (unfold note_succeeded in refl)
success_loop-fetch q req (f ∷ fs) ks h =
    let (hs, rest, e, e', both) = fetch-cons q (success_query req) f fs h in
    rw (e, ← both, note_succeeded-append hs rest ks)
      (success_loop-fetch q req fs (note_succeeded hs ks) e')

failed_loop-fetch :
    {V : Type 0} (q : Querier V) (req : Request) (ks : List Bytes) (fs : List (Map Bytes))
    (leg : Leg) {gs : List EventGroup}
    → fetch q (failed_query req) fs ≡ ok gs
    → failed_loop q req ks fs leg ≡ ok (add_failed ks gs leg)
unfolding failed_loop
failed_loop-fetch q req ks [] leg {gs} h =
    let e : [] ≡ gs = unfold fetch in cc in rw (← e) (unfold add_failed in refl)
failed_loop-fetch q req ks (f ∷ fs) leg h =
    let (hs, rest, e, e', both) = fetch-cons q (failed_query req) f fs h in
    rw (e, ← both, add_failed-append ks hs rest leg)
      (failed_loop-fetch q req ks fs (add_failed ks hs leg) e')

or_false : (b : Bool) → (b || false) ≡ b
or_false true = refl
or_false false = refl

-- If the backend answers the queries of both loops, for each flow of the request, then the leg is
-- returned; for every currency it holds the sum, as int64 adds it, of the largest single amounts of the
-- failed groups in that currency whose entity has no success group; and it counts these groups.
pub realized_from_events-exact :
    {V : Type 0} (q : Querier V) (req : Request) (won lost : List EventGroup)
    → fetch q (success_query req) (flow_filters req success) ≡ ok won
    → fetch q (failed_query req) (flow_filters req failed) ≡ ok lost
    → (leg : Leg) × (realized_from_events q req ≡ ok leg)
      × ((c : Bytes) → amount c leg.by_currency ≡ loss c (counted (map entity_of won) lost) (pos 0))
      × (leg.count ≡ number (counted (map entity_of won) lost) (pos 0))
unfolding realized_from_events
realized_from_events-exact q req won lost hw hl =
    let ks = note_succeeded won [] in
    let same =
      counted-same ks (map entity_of won)
        (λ k. member-note_succeeded k won [] ∙ unfold member in or_false _) lost in
    (
      add_failed ks lost (empty_leg []),
      rw (success_loop-fetch q req (flow_filters req success) [] hw)
          (failed_loop-fetch q req ks (flow_filters req failed) (empty_leg []) hl),
      λ c. add_failed-amount c ks lost (empty_leg []) ∙ rw same (unfold amount find in refl),
      add_failed-count ks lost (empty_leg []) ∙ rw same,
    )
