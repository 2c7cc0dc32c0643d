-- ===== src/Query/Memq/Groups.antt =====
-- The groups of `QueryEvents`: each holds the numbers of its own events.
use shortfall.Prelude.{
  ◌≡◌, refl, ◌∙◌, Option, none, some, List, [], ◌∷◌, arith, Bytes, ◌=?◌, =?_iff, if◌then◌else◌, ap,
}
use shortfall.Prelude.Int.{ℤ, pos}
use shortfall.Prelude.Int64.{add64}
use shortfall.Prelude.Maps.{Map}
use shortfall.Biz.Context.{Outcome}
use shortfall.Query.Memq.{
  Group, add_to, add_event, collect, canonical, group_key, event_labels, max_ℤ,
}

-- A group's count, sum and largest amount.
abbrev pub Stats : Type 0
Stats = ℤ × ℤ × ℤ

-- the numbers of the first group of this name
unfoldable pub stats : Bytes → List Group → Option Stats
stats ck [] = none
stats ck (g ∷ gs) = if g.name =? ck then some (g.count, g.sum_minor, g.max_minor) else stats ck gs

-- What one more amount makes of a group's numbers.
unfoldable pub absorb : ℤ → Option Stats → Option Stats
absorb a none = some (add64 (pos 0) (pos 1), add64 (pos 0) a, a)
absorb a (some (c, s, m)) = some (add64 c (pos 1), add64 s a, max_ℤ m a)

-- The numbers of the events, among `os`, whose key has the canonical text `ck`: their count, the sum
-- of their amounts and the largest of these, from the numbers `s`.
unfoldable pub tally : List Bytes → Bytes → List Outcome → Option Stats → Option Stats
tally group_by ck [] s = s
tally group_by ck (o ∷ os) s = tally group_by ck os (
    if canonical (group_key (event_labels o) group_by) =? ck then absorb o.vc.money.amount s else s)

max_self : (a : ℤ) → max_ℤ a a ≡ a
max_self a = ground arith

stats-add_to :
    (ck ck' : Bytes) (key : Map Bytes) (a : ℤ) (gs : List Group)
    → stats ck' (add_to ck key a gs) ≡ (if ck =? ck' then absorb a (stats ck' gs) else stats ck' gs)
unfolding stats add_to absorb
stats-add_to ck ck' key a [] = ground (arith, max_self a)
stats-add_to ck ck' key a (g ∷ gs) =
    ground (arith, =?_iff g.name ck, =?_iff g.name ck', =?_iff ck ck', stats-add_to ck ck' key a gs)

stats-collect_from :
    (group_by : List Bytes) (ck : Bytes) (os : List Outcome) (gs : List Group)
    → stats ck (collect group_by os gs) ≡ tally group_by ck os (stats ck gs)
unfolding collect tally add_event
stats-collect_from group_by ck [] gs = refl
stats-collect_from group_by ck (o ∷ os) gs =
    let key = group_key (event_labels o) group_by in
    stats-collect_from group_by ck os (add_to (canonical key) key o.vc.money.amount gs)
    ∙ ap (tally group_by ck os) (stats-add_to (canonical key) ck key o.vc.money.amount gs)

-- For every canonical key, the group that the loop of `QueryEvents` builds has the count, the sum and
-- the largest amount of the events with that key, and of no others; without such an event there is no
-- group.
pub stats-collect :
    (group_by : List Bytes) (ck : Bytes) (os : List Outcome)
    → stats ck (collect group_by os []) ≡ tally group_by ck os none
unfolding stats
stats-collect group_by ck os = stats-collect_from group_by ck os []
