-- ===== src/IntervalVector.antt =====
-- `interval_vector<uint32_t>` of src/interval_vector.hpp: a set of numbers kept as a vector of
-- closed intervals. An iterator into the vector cuts it in two: the intervals before it, the
-- nearest first, and the intervals from it on.
pub mod Valid
pub mod Insert
pub mod Erase
pub mod Lookup
pub mod Intersect
use vislcg.Base.{ℕ, zero, suc, ◌-◌, ◌%◌, Bool, true, false, ◌&&◌, ◌||◌, not, List, [], ◌∷◌}
use vislcg.Base.{
  Option, none, some, word, ltb, leb, ◌==◌, if◌then◌else◌, rejoin, length, ◌+◌, min, max,
}

pub record Interval : Type 0 where
  pub lb : ℕ
  pub ub : ℕ

pub record IntervalVector : Type 0 where
  pub elements : List Interval
  pub size : ℕ

pub record Cut : Type 0 where
  pub before : List Interval
  pub rest : List Interval

unfoldable pub empty : IntervalVector
empty = record { elements = []; size = 0 }

-- `std::lower_bound` by `interval::operator<(const T&)`: the first interval that does not end
-- before `t`.
unfoldable pub lower_cut : ℕ → List Interval → List Interval → Cut
lower_cut t bs [] = record { before = bs; rest = [] }
lower_cut t bs (a ∷ rs) =
    let further = lower_cut t (a ∷ bs) rs in
    if ltb a.ub t then further else record { before = bs; rest = a ∷ rs }

abbrev pub succ32 : ℕ → ℕ
succ32 n = (n + 1) % word

abbrev pub pred32 : ℕ → ℕ
pred32 n = (n + word - 1) % word

-- `pr->ub + 1 == t`, false where the iterator is at the beginning
abbrev pub ends_at : List Interval → ℕ → Bool
ends_at [] t = false
ends_at (p ∷ bs) t = succ32 p.ub == t

-- `it->lb == u`, false where the iterator is at the end
abbrev pub starts_at : List Interval → ℕ → Bool
starts_at [] u = false
starts_at (a ∷ rs) u = a.lb == u

-- `insert(t)` from the iterator on: the guard, then the growth of the interval before the iterator
-- or of the one at it, with a merge where they meet, or a new interval.
abbrev pub holds_front : ℕ → List Interval → Bool
holds_front t [] = false
holds_front t (a ∷ rs) = leb a.lb t && leb t a.ub

abbrev grow_before : List Interval → List Interval → List Interval
grow_before [] rs = rs
grow_before (p ∷ bs) [] = rejoin bs (record p { ub = succ32 p.ub } ∷ [])
grow_before (p ∷ bs) (a ∷ rs) =
    let grown = record p { ub = succ32 p.ub } in
    if succ32 grown.ub == a.lb
    then rejoin bs (record grown { ub = a.ub } ∷ rs)
    else rejoin bs (grown ∷ a ∷ rs)

abbrev grow_front : List Interval → List Interval → List Interval
grow_front bs [] = rejoin bs []
grow_front [] (a ∷ rs) = record a { lb = pred32 a.lb } ∷ rs
grow_front (p ∷ bs) (a ∷ rs) =
    let grown = record a { lb = pred32 a.lb } in
    if succ32 p.ub == grown.lb
    then rejoin bs (record p { ub = grown.ub } ∷ rs)
    else rejoin (p ∷ bs) (grown ∷ rs)

insert_cut : ℕ → List Interval → List Interval → List Interval
insert_cut t bs rs =
    if ends_at bs t
    then grow_before bs rs
    else if starts_at rs (succ32 t)
    then grow_front bs rs
    else rejoin bs (record { lb = t; ub = t } ∷ rs)

unfoldable pub insert : IntervalVector → ℕ → IntervalVector × Bool
unfolding lower_cut insert_cut
insert v t =
    let cut = lower_cut t [] v.elements in
    if holds_front t cut.rest
    then (v, false)
    else (record { elements = insert_cut t cut.before cut.rest; size = v.size + 1 }, true)

-- `insert(b, e)` and the constructor from a range
unfoldable pub insert_all : IntervalVector → List ℕ → IntervalVector
unfolding insert
insert_all v [] = v
insert_all v (t ∷ ts) = insert_all (insert v t).0 ts

-- `erase(t)` from the iterator on. The `assert` at its end is the last branch.
erase_cut : ℕ → List Interval → List Interval → Option (List Interval)
erase_cut t bs [] = none
erase_cut t bs (a ∷ rs) =
    if ltb a.ub t || ltb t a.lb
    then none
    else if a.lb == t && a.ub == t
    then some (rejoin bs rs)
    else if a.ub == t
    then some (rejoin bs (record a { ub = pred32 a.ub } ∷ rs))
    else if a.lb == t
    then some (rejoin bs (record a { lb = succ32 a.lb } ∷ rs))
    else if ltb a.lb t && ltb t a.ub
    then some (rejoin bs (record a { ub = pred32 t } ∷ record { lb = succ32 t; ub = a.ub } ∷ rs))
    else none

abbrev erased : IntervalVector → Option (List Interval) → IntervalVector × Bool
erased v none = (v, false)
erased v (some es) = (record { elements = es; size = v.size - 1 }, true)

unfoldable pub erase : IntervalVector → ℕ → IntervalVector × Bool
unfolding lower_cut erase_cut
erase v t = let cut = lower_cut t [] v.elements in erased v (erase_cut t cut.before cut.rest)

-- `contains(t)`
abbrev contains_cut : ℕ → List Interval → Bool
contains_cut t [] = false
contains_cut t (a ∷ rs) = if ltb a.ub t || ltb t a.lb then false else true

unfoldable pub contains : IntervalVector → ℕ → Bool
unfolding lower_cut
contains v t = contains_cut t (lower_cut t [] v.elements).rest

-- `const_iterator`: the interval that it stands in, with those behind it, and its value. At the end
-- there is no interval and the value is `T()`.
pub record Iterator : Type 0 where
  pub here : List Interval
  pub value : ℕ

abbrev pub end : Iterator
end = record { here = []; value = 0 }

abbrev pub iterator_at : List Interval → Iterator
iterator_at [] = end
iterator_at (a ∷ rs) = record { here = a ∷ rs; value = a.lb }

-- `begin()`
unfoldable pub begin : IntervalVector → Iterator
begin v = iterator_at v.elements

-- `operator++`
abbrev step : List Interval → ℕ → Iterator
step [] t = end
step (a ∷ rs) t = if t == a.ub then iterator_at rs else record { here = a ∷ rs; value = succ32 t }

unfoldable pub next : Iterator → Iterator
next it = step it.here it.value

-- `find(t)`
abbrev find_cut : ℕ → List Interval → Iterator
find_cut t [] = end
find_cut t (a ∷ rs) = if ltb a.ub t || ltb t a.lb then end else record { here = a ∷ rs; value = t }

unfoldable pub find : IntervalVector → ℕ → Iterator
unfolding lower_cut
find v t = find_cut t (lower_cut t [] v.elements).rest

-- `lower_bound(t)`: where `t` is missing it steps to the next interval first.
abbrev lower_bound_cut : ℕ → List Interval → Iterator
lower_bound_cut t [] = end
lower_bound_cut t (a ∷ rs) =
    if ltb a.ub t || ltb t a.lb then iterator_at rs else record { here = a ∷ rs; value = t }

unfoldable pub lower_bound : IntervalVector → ℕ → Iterator
unfolding lower_cut
lower_bound v t = lower_bound_cut t (lower_cut t [] v.elements).rest

-- `intersect(o)`. What is left of the two vectors, and the result so far, its last interval first.
pub record Meeting : Type 0 where
  pub left : List Interval
  pub right : List Interval
  pub out : List Interval
  pub size : ℕ

-- An inner loop over one vector: `while (... && a->ub < b->lb) ++a`.
drop_before : ℕ → List Interval → List Interval
drop_before lb [] = []
drop_before lb (a ∷ rs) = let further = drop_before lb rs in if ltb a.ub lb then further else a ∷ rs

abbrev skip : List Interval → List Interval → List Interval
skip rs [] = rs
skip rs (b ∷ bs) = drop_before b.lb rs

-- The new interval, joined to the last one if that ends just before it.
abbrev push_out : List Interval → ℕ → ℕ → List Interval
push_out [] lb ub = record { lb = lb; ub = ub } ∷ []
push_out (p ∷ ps) lb ub =
    if succ32 p.ub == lb then record p { ub = ub } ∷ ps else record { lb = lb; ub = ub } ∷ p ∷ ps

abbrev overlap_lb : Interval → Interval → ℕ
overlap_lb a b = max a.lb b.lb

abbrev overlap_ub : Interval → Interval → ℕ
overlap_ub a b = min a.ub b.ub

-- `rv._size += ub - lb + 1`, where the width is a `uint32_t`
abbrev width32 : Interval → Interval → ℕ
width32 a b = (overlap_ub a b + word - overlap_lb a b + 1) % word

-- The third inner loop: the overlap of the two intervals, then past the one that ends first.
overlaps : List Interval → List Interval → List Interval → ℕ → Meeting
overlaps [] bs out n = record { left = []; right = bs; out = out; size = n }
overlaps (a ∷ rs) [] out n = record { left = a ∷ rs; right = []; out = out; size = n }
overlaps (a ∷ rs) (b ∷ bs) out n =
    let out' = push_out out (overlap_lb a b) (overlap_ub a b) in
    let n' = n + width32 a b in
    let past_left = overlaps rs (b ∷ bs) out' n' in
    let past_right = overlaps (a ∷ rs) bs out' n' in
    if leb b.lb a.ub && leb a.lb b.ub
    then if ltb a.ub b.ub then past_left else past_right
    else record { left = a ∷ rs; right = b ∷ bs; out = out; size = n }

-- One round of the outer loop.
pub round : List Interval → List Interval → List Interval → ℕ → Meeting
unfolding drop_before overlaps
round rs bs out n = let rs' = skip rs bs in let bs' = skip bs rs' in overlaps rs' bs' out n

abbrev done : List Interval → List Interval → Bool
done [] bs = true
done (a ∷ rs) [] = true
done (a ∷ rs) (b ∷ bs) = false

-- The outer loop; `none` is a loop that has not ended when the fuel has.
meet : ℕ → List Interval → List Interval → List Interval → ℕ → Option IntervalVector
unfolding round
meet zero rs bs out n = none
meet (suc fuel) rs bs out n =
    let m = round rs bs out n in
    let rest = meet fuel m.left m.right m.out m.size in
    if done rs bs then some (record { elements = rejoin out []; size = n }) else rest

unfoldable pub intersect : IntervalVector → IntervalVector → Option IntervalVector
unfolding meet
intersect v o = meet (length v.elements + length o.elements + 1) v.elements o.elements [] 0
