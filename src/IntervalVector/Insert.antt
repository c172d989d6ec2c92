-- ===== src/IntervalVector/Insert.antt =====
-- `insert` adds its number to the set, keeps the intervals apart, and counts a new number.
use vislcg.Base.{ℕ, ◌+◌, ◌-◌, ◌<◌, ◌≤◌, ◌≡◌, refl, Bool, false, not, ◌||◌, List, [], ◌∷◌}
use vislcg.Base.{arith, word, ◌==◌, rejoin, Bool-cases, inl, inr, ◌∙◌}
use vislcg.IntervalVector.{
  Interval, IntervalVector, insert, insert_cut, lower_cut, holds_front, insert_all,
}
use vislcg.IntervalVector.Valid.{
  Right, floor, member, total, IsValid, Reaches, IsCut, lower_cut-IsCut, floor-le, Right-rejoin,
  member-rejoin, total-rejoin, member-Left, member-Right,
}

-- The member test at the cut.
pub member-cut :
    (t : ℕ) (es bs rs : List Interval) → IsCut t es bs rs → member t es ≡ holds_front t rs
unfolding member
member-cut t es bs [] c =
    rw (← c.whole) (rw (member-rejoin t bs []) (ground (arith, member-Left t t bs)))
member-cut t es bs (a ∷ rs) c = rw (← c.whole) (
    rw (member-rejoin t bs (a ∷ rs))
      (ground (arith, member-Left t t bs, member-Right t (a.ub + 2) rs)))

-- Only the interval before the iterator takes part.
insert_cut-rejoin :
    (t : ℕ) (p : Interval) (bs rs : List Interval)
    → insert_cut t (p ∷ bs) rs ≡ rejoin bs (insert_cut t (p ∷ []) rs)
unfolding insert_cut
insert_cut-rejoin t p bs [] = ground arith
insert_cut-rejoin t p bs (a ∷ rs) = ground arith

module _ (t : ℕ) (small : t < word) where
  module _ (p : Interval) (sane : p.lb ≤ p.ub) (near : p.ub < t) where
    nearest-Right :
        (n : ℕ) (rs : List Interval)
        → n ≤ p.lb
        → Right (p.ub + 2) rs
        → Reaches t rs
        → holds_front t rs ≡ false
        → Right n (insert_cut t (p ∷ []) rs)
    unfolding insert_cut
    nearest-Right n [] h r reached fresh = ground arith
    nearest-Right n (a ∷ rs) h r reached fresh = ground arith

    nearest-member :
        (q : ℕ) (rs : List Interval)
        → Right (p.ub + 2) rs
        → Reaches t rs
        → holds_front t rs ≡ false
        → member q (insert_cut t (p ∷ []) rs) ≡ (q == t || member q (p ∷ rs))
    unfolding insert_cut member
    nearest-member q [] r reached fresh = ground arith
    nearest-member q (a ∷ rs) r reached fresh = ground arith

    nearest-total :
        (rs : List Interval)
        → Right (p.ub + 2) rs
        → Reaches t rs
        → holds_front t rs ≡ false
        → total (insert_cut t (p ∷ []) rs) ≡ total (p ∷ rs) + 1
    unfolding insert_cut total
    nearest-total [] r reached fresh = ground arith
    nearest-total (a ∷ rs) r reached fresh = ground arith

module _ (t : ℕ) (small : t < word) where
  -- The rebuilt vector, with the three facts that are needed of it.
  record Grows (es : List Interval) (new : List Interval) : Type 0 where
    ordered : Right 0 new
    members : (q : ℕ) → member q new ≡ (q == t || member q es)
    one_more : total new ≡ total es + 1

  insert_cut-Grows :
      (es bs rs : List Interval)
      → IsCut t es bs rs
      → holds_front t rs ≡ false
      → Grows es (insert_cut t bs rs)
  insert_cut-Grows es [] [] c fresh = rw (← c.whole) (
      unfold insert_cut member total in
      record { ordered = ground arith; members = λ q. ground arith; one_more = ground arith })
  insert_cut-Grows es [] (a ∷ rs) c fresh = rw (← c.whole) (
      unfold insert_cut member total in
      record {
        ordered = ground (arith, c.right, c.reached);
        members = λ q. ground (arith, c.right, c.reached);
        one_more = ground (arith, c.right, c.reached);
      })
  insert_cut-Grows es (p ∷ bs) rs c fresh =
      let l = c.left in
      rw (← c.whole, insert_cut-rejoin t p bs rs)
        (record {
          ordered = Right-rejoin (p.lb - 1) bs _ l.3 (
              nearest-Right t small p l.0 l.2 (floor bs) rs (floor-le p.lb bs l.3) c.right c.reached
                fresh);
          members = λ q.
              rw
                (
                  member-rejoin q bs (p ∷ rs),
                  member-rejoin q bs (insert_cut t (p ∷ []) rs),
                  nearest-member t small p l.0 l.2 q rs c.right c.reached fresh,
                )
                (ground arith);
          one_more =
              rw
                (
                  total-rejoin bs (p ∷ rs),
                  total-rejoin bs (insert_cut t (p ∷ []) rs),
                  nearest-total t small p l.0 l.2 rs c.right c.reached fresh,
                )
                (omega arith);
        })

-- Inserting a `uint32_t` keeps the intervals of a valid vector ascending and apart, and its count
-- right.
pub insert-IsValid : (v : IntervalVector) (t : ℕ) → t < word → IsValid v → IsValid (insert v t).0
unfolding insert
insert-IsValid v t small h =
    let cut = lower_cut t [] v.elements in
    elim (Bool-cases (holds_front t cut.rest)) [
      | inl e ↦ rw e h
      | inr e ↦
          let g =
            insert_cut-Grows t small v.elements cut.before cut.rest
              (lower_cut-IsCut t v.elements h.ordered) e in
          rw e (record { ordered = g.ordered; counted = omega (arith, g.one_more, h.counted) })
    ]

-- After an insertion exactly the number inserted and the old members are members, and the result
-- says whether it was new.
pub member-insert :
    (v : IntervalVector) (t : ℕ)
    → t < word
    → IsValid v
    → ((q : ℕ) → member q (insert v t).0.elements ≡ (q == t || member q v.elements))
      × ((insert v t).1 ≡ not (member t v.elements))
unfolding insert
member-insert v t small h =
    let cut = lower_cut t [] v.elements in
    let c = lower_cut-IsCut t v.elements h.ordered in
    let here = member-cut t v.elements cut.before cut.rest c in
    elim (Bool-cases (holds_front t cut.rest)) [
      | inl e ↦ rw e (λ q. ground (arith, here, e), rw (here ∙ e))
      | inr e ↦
          let g = insert_cut-Grows t small v.elements cut.before cut.rest c e in
          rw e (g.members, rw (here ∙ e))
    ]

abbrev Words : List ℕ → Type 0
Words [] = Unit
Words (t ∷ ts) = (t < word) × Words ts

abbrev pub listed : ℕ → List ℕ → Bool
listed q [] = false
listed q (t ∷ ts) = q == t || listed q ts

-- Inserting a list of `uint32_t` values in any order, repeats included, gives a valid vector whose
-- members are those of the list and of the vector before.
pub member-insert_all :
    (ts : List ℕ) (v : IntervalVector)
    → Words ts
    → IsValid v
    → IsValid (insert_all v ts)
      × ((q : ℕ) → member q (insert_all v ts).elements ≡ (listed q ts || member q v.elements))
unfolding insert_all
member-insert_all [] v small h = (h, λ q. refl)
member-insert_all (t ∷ ts) v small h =
    let (valid, members) =
      member-insert_all ts (insert v t).0 small.1 (insert-IsValid v t small.0 h) in
    (valid, λ q. ground (arith, members q, (member-insert v t small.0 h).0 q))
