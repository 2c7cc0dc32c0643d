-- ===== src/Engine/Deferred/Booked.antt =====
-- The books of the events path against sums over the open deferrals.
use shortfall.Prelude.{
  ℕ, ◌≡◌, refl, ap, ◌∙◌, Bool, true, false, not, ◌&&◌, Option, none, some, [], ◌∷◌, Bytes, ◌=?◌,
  =?_iff, ltb, ◌==◌, if◌then◌else◌, Bool-cases, inl, inr, ok,
}
use shortfall.Prelude.Int.{ℤ, pos}
use shortfall.Prelude.Int64.{add64}
use shortfall.Prelude.Maps.{Map, find, find-put}
use shortfall.Registry.{Registry}
use shortfall.Query.{Querier}
use shortfall.Engine.{Request, amount}
use shortfall.Engine.Exact.{amount-add_to}
use shortfall.Engine.Deferred.{
  DeferredLeg, new_deferred_leg, bucket_index, breached, breached_and_lost,
}
use shortfall.Engine.Deferred.Events.{
  EntityStage, InflightItem, Inflight, StageSets, is_resolved, or_empty, add_in_bucket, book_sla,
  book, book_open, with_oldest, later_deferred, cut_loop, terminal_loop, age_cutoffs,
  terminal_outcomes, events_derived_caveat, deferred_from_events,
}

-- the sum, as int64 adds it, of what `worth` gives the open deferrals with the property `p`, from `v`
module _ (reg : Option Registry) (terminals later : StageSets) where
  unfoldable pub open_sum :
      (EntityStage → InflightItem → Bool) → (InflightItem → ℤ) → Inflight → ℤ → ℤ
  open_sum p worth [] v = v
  open_sum p worth ((k, item) ∷ m) v =
      open_sum p worth m
        (if not (is_resolved reg terminals later k) && p k item then add64 v (worth item) else v)

  -- a quantity of the leg that each booking raises by the worth of its item, or leaves alone
  book_open-open_sum :
      (quantity : DeferredLeg → ℤ) (p : EntityStage → InflightItem → Bool)
      (worth : InflightItem → ℤ)
      → ((k : EntityStage) (item : InflightItem) (leg : DeferredLeg)
          → quantity (book reg k item leg)
            ≡ (if p k item then add64 (quantity leg) (worth item) else quantity leg))
      → (m : Inflight) (oldest : ℕ) (leg : DeferredLeg)
      → quantity (book_open reg terminals later m oldest leg).0 ≡ open_sum p worth m (quantity leg)
  unfolding open_sum book_open
  book_open-open_sum quantity p worth step [] oldest leg = refl
  book_open-open_sum quantity p worth step ((k, item) ∷ m) oldest leg =
      elim (Bool-cases (is_resolved reg terminals later k)) [
        | inl resolved ↦ rw resolved (book_open-open_sum quantity p worth step m oldest leg)
        | inr unresolved ↦
            rw (unresolved, ← step k item leg)
              (book_open-open_sum quantity p worth step m
                (if ltb oldest (bucket_index item.bucket) then bucket_index item.bucket else oldest)
                (book reg k item leg))
      ]

  from_zero :
      (quantity : DeferredLeg → ℤ) (p : EntityStage → InflightItem → Bool)
      (worth : InflightItem → ℤ)
      → ((k : EntityStage) (item : InflightItem) (leg : DeferredLeg)
          → quantity (book reg k item leg)
            ≡ (if p k item then add64 (quantity leg) (worth item) else quantity leg))
      → (m : Inflight) (leg : DeferredLeg) → quantity leg ≡ pos 0
      → quantity (book_open reg terminals later m 0 leg).0 ≡ open_sum p worth m (pos 0)
  from_zero quantity p worth step m leg zero =
      book_open-open_sum quantity p worth step m 0 leg ∙ ap (open_sum p worth m) zero

-- the tests of the registry, which a nil registry fails
abbrev pub is_breached : Option Registry → EntityStage → InflightItem → Bool
is_breached none k item = false
is_breached (some r) k item = breached r k.flow k.stage item.bucket

abbrev pub is_projected : Option Registry → EntityStage → InflightItem → Bool
is_projected none k item = false
is_projected (some r) k item = breached_and_lost r k.flow k.stage item.bucket

-- an amount in a bucket of the leg
unfoldable pub in_bucket : Bytes → Bytes → Map (Map ℤ) → ℤ
in_bucket b c m = amount c (or_empty (find b m))

in_bucket-add_in_bucket :
    (bucket b currency c : Bytes) (v : ℤ) (m : Map (Map ℤ))
    → in_bucket b c (add_in_bucket bucket currency v m)
      ≡ (if bucket =? b && currency =? c then add64 (in_bucket b c m) v else in_bucket b c m)
unfolding in_bucket add_in_bucket
in_bucket-add_in_bucket bucket b currency c v m = elim (Bool-cases (bucket =? b)) [
  | inl here ↦
      let e : bucket ≡ b = (=?_iff bucket b).0 here in
      rw (find-put bucket b _ m, here, e) (amount-add_to currency c v (or_empty (find b m)))
  | inr elsewhere ↦ rw (find-put bucket b _ m, elsewhere)
]

book-currency :
    (reg : Option Registry) (c : Bytes) (k : EntityStage) (item : InflightItem) (leg : DeferredLeg)
    → amount c (book reg k item leg).leg.by_currency ≡ (
        if k.currency =? c
        then add64 (amount c leg.leg.by_currency) item.minor
        else amount c leg.leg.by_currency)
unfolding book book_sla
book-currency none c k item leg = amount-add_to k.currency c item.minor leg.leg.by_currency
book-currency (some r) c k item leg = amount-add_to k.currency c item.minor leg.leg.by_currency

book-bucket :
    (reg : Option Registry) (b c : Bytes) (k : EntityStage) (item : InflightItem)
    (leg : DeferredLeg)
    → in_bucket b c (book reg k item leg).by_age_bucket ≡ (
        if item.bucket =? b && k.currency =? c
        then add64 (in_bucket b c leg.by_age_bucket) item.minor
        else in_bucket b c leg.by_age_bucket)
unfolding book book_sla
book-bucket none b c k item leg = in_bucket-add_in_bucket item.bucket b k.currency c item.minor _
book-bucket (some r) b c k item leg =
    in_bucket-add_in_bucket item.bucket b k.currency c item.minor _

book-count :
    (reg : Option Registry) (k : EntityStage) (item : InflightItem) (leg : DeferredLeg)
    → (book reg k item leg).leg.count ≡ add64 leg.leg.count (pos 1)
unfolding book book_sla
book-count none k item leg = refl
book-count (some r) k item leg = refl

book-breaches :
    (reg : Option Registry) (k : EntityStage) (item : InflightItem) (leg : DeferredLeg)
    → (book reg k item leg).sla_breaches
      ≡ (if is_breached reg k item then add64 leg.sla_breaches (pos 1) else leg.sla_breaches)
unfolding book book_sla
book-breaches none k item leg = refl
book-breaches (some r) k item leg = refl

book-projected :
    (reg : Option Registry) (c : Bytes) (k : EntityStage) (item : InflightItem) (leg : DeferredLeg)
    → amount c (book reg k item leg).projected_lost_minor ≡ (
        if is_projected reg k item && k.currency =? c
        then add64 (amount c leg.projected_lost_minor) item.minor
        else amount c leg.projected_lost_minor)
unfolding book book_sla
book-projected none c k item leg = refl
book-projected (some r) c k item leg =
    elim (Bool-cases (breached_and_lost r k.flow k.stage item.bucket)) [
      | inl late ↦ rw late (amount-add_to k.currency c item.minor leg.projected_lost_minor)
      | inr early ↦ rw early
    ]

-- the last write to the leg changes its oldest age only
with_oldest-keeps :
    (leg : DeferredLeg) (oldest : ℕ)
    → ((with_oldest (leg, oldest)).leg ≡ leg.leg)
      × ((with_oldest (leg, oldest)).by_age_bucket ≡ leg.by_age_bucket)
      × ((with_oldest (leg, oldest)).sla_breaches ≡ leg.sla_breaches)
      × ((with_oldest (leg, oldest)).projected_lost_minor ≡ leg.projected_lost_minor)
unfolding with_oldest
with_oldest-keeps leg oldest = elim (Bool-cases (oldest == 0)) [
  | inl none_open ↦ rw none_open (refl, refl, refl, refl)
  | inr some_open ↦ rw some_open (refl, refl, refl, refl)
]

zero_amount : (c : Bytes) → amount c [] ≡ pos 0
unfolding amount find
zero_amount c = refl

zero_bucket : (b c : Bytes) → in_bucket b c [] ≡ pos 0
unfolding in_bucket amount find
zero_bucket b c = refl

-- If the queries for the deferrals and the terminal outcomes succeed, then the leg is returned; for
-- every currency it holds the sum, as int64 adds it, of the amounts of the deferrals in that currency
-- that nothing resolved; each age bucket holds the sum of those that are in the bucket; the count is
-- their number; and the breaches and the projected loss are the number of those past their stage's
-- deadline, and the sum of those that the registry calls lost.
pub deferred_from_events-exact :
    {V : Type 0} (reg : Option Registry) (q : Querier V) (req : Request) (m : Inflight)
    (terminals : StageSets)
    → cut_loop reg q req age_cutoffs [] ≡ ok m
    → terminal_loop reg q req terminal_outcomes [] ≡ ok terminals
    → let total = open_sum reg terminals (later_deferred m) in
      (leg : DeferredLeg) × (deferred_from_events reg q req ≡ ok leg)
      × ((c : Bytes)
          → amount c leg.leg.by_currency
            ≡ total (λ k _. k.currency =? c) (λ item. item.minor) m (pos 0))
      × ((b c : Bytes)
          → in_bucket b c leg.by_age_bucket
            ≡ total (λ k item. item.bucket =? b && k.currency =? c) (λ item. item.minor) m (pos 0))
      × (leg.leg.count ≡ total (λ _ _. true) (λ _. pos 1) m (pos 0))
      × (leg.sla_breaches ≡ total (is_breached reg) (λ _. pos 1) m (pos 0))
      × ((c : Bytes)
          → amount c leg.projected_lost_minor
            ≡ total
                (λ k item. is_projected reg k item && k.currency =? c)
                (λ item. item.minor)
                m
                (pos 0))
unfolding deferred_from_events
deferred_from_events-exact reg q req m terminals hm ht =
    let later = later_deferred m in
    let leg0 = new_deferred_leg (events_derived_caveat ∷ []) in
    let (booked, oldest) = book_open reg terminals later m 0 leg0 in
    let (same, buckets, breaches, projected) = with_oldest-keeps booked oldest in
    let sum = from_zero reg terminals later in
    (
      with_oldest (booked, oldest),
      rw (hm, ht),
      λ c. rw same (
          sum (λ l. amount c l.leg.by_currency) (λ k _. k.currency =? c) (λ item. item.minor)
            (book-currency reg c) m leg0 (zero_amount c)),
      λ b c. rw buckets (
          sum (λ l. in_bucket b c l.by_age_bucket) (λ k item. item.bucket =? b && k.currency =? c)
            (λ item. item.minor) (book-bucket reg b c) m leg0 (zero_bucket b c)),
      rw same (sum (λ l. l.leg.count) (λ _ _. true) (λ _. pos 1) (book-count reg) m leg0 refl),
      rw breaches (
          sum (λ l. l.sla_breaches) (is_breached reg) (λ _. pos 1) (book-breaches reg) m leg0 refl),
      λ c. rw projected (
          sum (λ l. amount c l.projected_lost_minor)
            (λ k item. is_projected reg k item && k.currency =? c) (λ item. item.minor)
            (book-projected reg c) m leg0 (zero_amount c)),
    )
