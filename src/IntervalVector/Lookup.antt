-- ===== src/IntervalVector/Lookup.antt =====
-- The queries of an interval vector, and the walk of its iterators.
use vislcg.Base.{
  ℕ, zero, suc, ◌+◌, ◌-◌, ◌<◌, ◌≤◌, ◌≡◌, ◌≢◌, refl, Bool, true, false, not, ◌||◌, ◌&&◌, List, [],
  ◌∷◌,
}
use vislcg.Base.{arith, word, leb, ◌==◌, ltb, ◌⊎◌, ◌↔◌, Bool-cases, inl, inr, ◌∙◌, sym}
use vislcg.IntervalVector.{
  Interval, IntervalVector, Iterator, succ32, contains, find, lower_bound, next, begin, end,
  find_cut, lower_bound_cut, contains_cut, iterator_at,
}
use vislcg.IntervalVector.Valid.{
  Right, member, total, IsValid, IsCut, Right-weaken, lower_cut-IsCut, member-rejoin, member-Left,
}
use vislcg.IntervalVector.Insert.{member-cut, listed}

contains_cut-member :
    (t : ℕ) (es bs rs : List Interval) → IsCut t es bs rs → contains_cut t rs ≡ member t es
contains_cut-member t es bs [] c = sym (member-cut t es bs [] c)
contains_cut-member t es bs (a ∷ rs) c =
    rw (member-cut t es bs (a ∷ rs) c) (ground (arith, c.reached))

-- The binary search answers whether its number is a member.
pub contains-eq-member :
    (v : IntervalVector) (t : ℕ) → IsValid v → contains v t ≡ member t v.elements
unfolding contains
contains-eq-member v t h =
    contains_cut-member t v.elements _ _ (lower_cut-IsCut t v.elements h.ordered)

-- What `find` promises: the member, or the end.
abbrev pub Finds : Bool → ℕ → Iterator → Type 0
Finds true t it = (it.value ≡ t) × (it.here ≢ [])
Finds false t it = it ≡ end

-- The test that both begin with.
outside-eq-not :
    (t : ℕ) (a : Interval) → (ltb a.ub t || ltb t a.lb) ≡ not (leb a.lb t && leb t a.ub)
outside-eq-not t a = ground arith

find_cut-Finds :
    (t : ℕ) (es bs rs : List Interval) → IsCut t es bs rs → Finds (member t es) t (find_cut t rs)
find_cut-Finds t es bs [] c = rw (member-cut t es bs [] c) refl
find_cut-Finds t es bs (a ∷ rs) c =
    rw (member-cut t es bs (a ∷ rs) c, outside-eq-not t a)
      (elim (Bool-cases (leb a.lb t && leb t a.ub)) [
        | inl e ↦ rw e (refl, λ p. cc p)
        | inr e ↦ rw e refl
      ])

-- In a valid vector `find(t)` stands at `t` if that is a member, inside an interval, and is the
-- end if it is not.
pub find-Finds : (v : IntervalVector) (t : ℕ) → IsValid v → Finds (member t v.elements) t (find v t)
unfolding find
find-Finds v t h = find_cut-Finds t v.elements _ _ (lower_cut-IsCut t v.elements h.ordered)

-- The least member that is `t` or more, or the end if there is none.
abbrev pub IsLeast : ℕ → List Interval → List Interval → ℕ → Type 0
IsLeast t es [] n = (q : ℕ) → t ≤ q → member q es ≡ false
IsLeast t es (a ∷ rs) n =
    (t ≤ n) × (member n es ≡ true) × ((q : ℕ) → t ≤ q → q < n → member q es ≡ false)

member_first : (a : Interval) (rs : List Interval) → a.lb ≤ a.ub → member a.lb (a ∷ rs) ≡ true
unfolding member
member_first a rs h = ground arith

member_last : (a : Interval) (rs : List Interval) → a.lb ≤ a.ub → member a.ub (a ∷ rs) ≡ true
unfolding member
member_last a rs h = ground arith

module _ (t : ℕ) (es bs : List Interval) where
  member_above : (rs : List Interval) (q : ℕ) → IsCut t es bs rs → t ≤ q → member q es ≡ member q rs
  member_above rs q c h =
      rw (← c.whole, member-rejoin q bs rs) (ground (arith, member-Left q t bs c.left))

  -- On a member it stops there.
  lower_bound_cut-hit :
      (rs : List Interval)
      → IsCut t es bs rs
      → member t es ≡ true
      → let it = lower_bound_cut t rs in IsLeast t es it.here it.value
  lower_bound_cut-hit [] c m = cc (member-cut t es bs [] c)
  lower_bound_cut-hit (a ∷ rs) c m =
      let here : (leb a.lb t && leb t a.ub) ≡ true = sym (member-cut t es bs (a ∷ rs) c) ∙ m in
      rw (outside-eq-not t a, here) (omega arith, m, λ q h k. absurd (omega arith))

  -- With nothing at `t` or above it is at the end.
  lower_bound_cut_end :
      (rs : List Interval)
      → IsCut t es bs rs
      → ((q : ℕ) → t ≤ q → member q es ≡ false)
      → let it = lower_bound_cut t rs in IsLeast t es it.here it.value
  lower_bound_cut_end [] c none_above = none_above
  lower_bound_cut_end (a ∷ rs) c none_above = cc (
    none_above a.ub c.reached,
    member_above (a ∷ rs) a.ub c c.reached,
    member_last a rs c.right.1,
  )

  next_not-IsLeast :
      (a : Interval) (rs : List Interval)
      → t ≤ a.lb
      → a.lb ≤ a.ub
      → Right (a.ub + 2) rs
      → member a.lb es ≡ true
      → ¬ (IsLeast t es (iterator_at rs).here (iterator_at rs).value)
  next_not-IsLeast a [] low sane r m least = cc (least a.lb low)
  next_not-IsLeast a (b ∷ rs) low sane r m least = cc (least.2 a.lb low (omega arith))

  -- On a missing number it steps over the interval that holds the least member above it.
  lower_bound_cut_skips :
      (rs : List Interval) (q : ℕ)
      → IsCut t es bs rs
      → member t es ≡ false
      → t ≤ q
      → member q es ≡ true
      → let it = lower_bound_cut t rs in ¬ (IsLeast t es it.here it.value)
  lower_bound_cut_skips [] q c missing above m least =
      let gone : member q es ≡ false = unfold member in member_above [] q c above in cc
  lower_bound_cut_skips (a ∷ rs) q c missing above m least =
      let out : (leb a.lb t && leb t a.ub) ≡ false =
        sym (member-cut t es bs (a ∷ rs) c) ∙ missing in
      let low : t ≤ a.lb = ground (arith, out, c.reached) in
      next_not-IsLeast a rs low c.right.1 c.right.3
        (member_above (a ∷ rs) a.lb c low ∙ member_first a rs c.right.1)
        (rw (outside-eq-not t a, out) at least)

-- `lower_bound(t)` is the least member from `t` on, or the end where there is none, exactly if `t`
-- is a member or nothing above it is: a missing `t` below a member makes it skip members.
pub lower_bound-IsLeast_iff :
    (v : IntervalVector) (t : ℕ)
    → IsValid v
    → (let it = lower_bound v t in IsLeast t v.elements it.here it.value)
      ↔ ((member t v.elements ≡ true) ⊎ ((q : ℕ) → t ≤ q → member q v.elements ≡ false))
unfolding lower_bound
lower_bound-IsLeast_iff v t h =
    let c = lower_cut-IsCut t v.elements h.ordered in
    (
      λ least. elim (Bool-cases (member t v.elements)) [
        | inl e ↦ inl e
        | inr e ↦ inr (λ q above. elim (Bool-cases (member q v.elements)) [
          | inl m ↦ absurd (lower_bound_cut_skips t v.elements _ _ q c e above m least)
          | inr m ↦ m
        ])
      ],
      elim [
        | inl m ↦ lower_bound_cut-hit t v.elements _ _ c m
        | inr none_above ↦ lower_bound_cut_end t v.elements _ _ c none_above
      ],
    )

-- `for (auto q : v)` for a number of rounds: the values met, and where the iterator stands then.
abbrev pub visited : ℕ → Iterator → List ℕ
visited zero it = []
visited (suc n) it = it.value ∷ visited n (next it)

abbrev pub advanced : ℕ → Iterator → Iterator
advanced zero it = it
advanced (suc n) it = advanced n (next it)

-- The numbers ascend strictly from `lo` on.
abbrev pub Ascends : ℕ → List ℕ → Type 0
Ascends lo [] = Unit
Ascends lo (x ∷ xs) = (lo ≤ x) × Ascends (x + 1) xs

Ascends-weaken : (lo lo' : ℕ) (xs : List ℕ) → lo' ≤ lo → Ascends lo xs → Ascends lo' xs
Ascends-weaken lo lo' [] h s = tt
Ascends-weaken lo lo' (x ∷ xs) h s = (omega arith, s.1)

record Walks (lo : ℕ) (members : ℕ → Bool) (n : ℕ) (it : Iterator) : Type 0 where
  ascends : Ascends lo (visited n it)
  meets : (q : ℕ) → listed q (visited n it) ≡ members q
  ends : advanced n it ≡ end

-- The members that are still to come inside an interval, and behind it.
abbrev ahead : ℕ → Interval → List Interval → ℕ → Bool
ahead t a rs q = (leb t q && leb q a.ub) || member q rs

abbrev CanWalk : ℕ → Type 0
CanWalk n =
    (t : ℕ) (a : Interval) (rs : List Interval)
    → t ≤ a.ub
    → a.ub < word
    → Right (a.ub + 2) rs
    → n ≡ a.ub + 1 - t + total rs
    → Walks t (ahead t a rs) n (record { here = a ∷ rs; value = t })

walk_all :
    (n lo : ℕ) (rs : List Interval)
    → CanWalk n
    → Right lo rs
    → n ≡ total rs
    → Walks lo (λ q. member q rs) n (iterator_at rs)
unfolding total member
walk_all zero lo [] can r e = record { ascends = tt; meets = λ q. refl; ends = refl }
walk_all (suc n) lo [] can r e = absurd (omega arith)
walk_all n lo (a ∷ rs) can r e =
    let w = can a.lb a rs r.1 r.2 r.3 e in
    record { ascends = Ascends-weaken a.lb lo _ r.0 w.ascends; meets = w.meets; ends = w.ends }

walk : (n : ℕ) → CanWalk n
unfolding total member next
walk zero t a rs h small r e = absurd (omega arith)
walk (suc n) t a rs h small r e = elim (Bool-cases (t == a.ub)) [
  | inl last ↦
      let w =
        walk_all n (t + 1) rs (walk n) (Right-weaken (a.ub + 2) (t + 1) rs (ground arith) r)
          (ground arith) in
      record {
        ascends = (omega arith, rw last w.ascends);
        meets = λ q. rw (last, w.meets q) (ground arith);
        ends = rw last w.ends;
      }
  | inr more ↦
      let w = walk n (t + 1) a rs (ground arith) small r (ground arith) in
      let exact : succ32 t ≡ t + 1 = ground arith in
      record {
        ascends = (omega arith, rw (more, exact) w.ascends);
        meets = λ q. rw (more, exact, w.meets q) (ground arith);
        ends = rw (more, exact) w.ends;
      }
]

-- A loop from `begin()` meets each member once, in ascending order, and stands at `end()` after as
-- many rounds as `size()` says.
pub begin-visited :
    (v : IntervalVector)
    → IsValid v
    → Ascends 0 (visited v.size (begin v))
      × ((q : ℕ) → listed q (visited v.size (begin v)) ≡ member q v.elements)
      × (advanced v.size (begin v) ≡ end)
unfolding begin
begin-visited v h =
    let w = walk_all v.size 0 v.elements (walk v.size) h.ordered (sym h.counted) in
    (w.ascends, w.meets, w.ends)
