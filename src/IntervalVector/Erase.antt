-- ===== src/IntervalVector/Erase.antt =====
-- `erase` removes its number from the set, splitting an interval where it must, and undoes an
-- insertion.
use vislcg.Base.{Option, ◌-◌, ℕ, ◌+◌, ◌<◌, ◌≤◌, ◌≡◌, refl, true, false, not, ◌&&◌, List, [], ◌∷◌}
use vislcg.Base.{none, some, arith, word, ◌==◌, rejoin, Option-cases, inl, inr, sym}
use mathlib.Core.Option
use vislcg.IntervalVector.{
  erased, pred32, Interval, IntervalVector, insert, erase, erase_cut, lower_cut,
}
use vislcg.IntervalVector.Valid.{
  Right, floor, member, total, IsValid, IsCut, lower_cut-IsCut, Right-rejoin, member-rejoin,
  total-rejoin, member-Left, member-Right, Right-weaken,
}
use vislcg.IntervalVector.Insert.{member-cut, insert-IsValid, member-insert}

-- What is left of the vector once `t` has gone.
record Shrinks (t : ℕ) (es new : List Interval) : Type 0 where
  ordered : Right 0 new
  members : (q : ℕ) → member q new ≡ (not (q == t) && member q es)
  one_less : total new + 1 ≡ total es
  present : member t es ≡ true

module _ (t : ℕ) (small : t < word) where
  -- The pieces that `erase_cut` puts in the place of the interval at the iterator.
  pieces :
      (es bs : List Interval) (a : Interval) (rs new : List Interval)
      → IsCut t es bs (a ∷ rs)
      → Right a.lb new
      → ((q : ℕ) → member q new ≡ (not (q == t) && member q (a ∷ rs)))
      → total new + 1 ≡ total (a ∷ rs)
      → a.lb ≤ t
      → Shrinks t es (rejoin bs new)
  unfolding member
  pieces es bs a rs new c r m s low = record {
    ordered = Right-rejoin t bs new c.left (Right-weaken a.lb (floor bs) new c.right.0 r);
    members = λ q.
        rw (← c.whole, member-rejoin q bs new, member-rejoin q bs (a ∷ rs), m q)
          (ground (arith, member-Left q t bs c.left));
    one_less = rw (← c.whole, total-rejoin bs new, total-rejoin bs (a ∷ rs)) (omega (arith, s));
    present = rw (member-cut t es bs (a ∷ rs) c) (ground (arith, c.reached));
  }

  erase_cut-map :
      (bs rs : List Interval) → erase_cut t bs rs ≡ Option.map (rejoin bs) (erase_cut t [] rs)
  unfolding erase_cut
  erase_cut-map bs [] = refl
  erase_cut-map bs (a ∷ rs) = ground arith

  erase_cut-rejoin :
      (bs rs new : List Interval)
      → erase_cut t bs rs ≡ some new
      → (part : List Interval) × (erase_cut t [] rs ≡ some part) × (new ≡ rejoin bs part)
  erase_cut-rejoin bs rs new e = elim (Option-cases (erase_cut t [] rs)) [
    | inl h ↦ cc (erase_cut-map bs rs)
    | inr (part, h) ↦ (part, h, cc (erase_cut-map bs rs))
  ]

  module _ (a : Interval) (rs part : List Interval) (e : erase_cut t [] (a ∷ rs) ≡ some part) where
    part-Right : (lo : ℕ) → Right lo (a ∷ rs) → Right a.lb part
    unfolding erase_cut
    part-Right lo r =
        ground
          (arith, Right-weaken (a.ub + 2) a.lb rs, Right-weaken (a.ub + 2) (pred32 a.ub + 2) rs)

    part-member :
        (q : ℕ) → (lo : ℕ) → Right lo (a ∷ rs) → member q part ≡ (not (q == t) && member q (a ∷ rs))
    unfolding erase_cut member
    part-member q lo r = ground (arith, member-Right q (a.ub + 2) rs)

    part-total : (lo : ℕ) → Right lo (a ∷ rs) → total part + 1 ≡ total (a ∷ rs)
    unfolding erase_cut total
    part-total lo r = ground arith

    part-le : a.lb ≤ t
    unfolding erase_cut
    part-le = ground arith

  erase_cut-Shrinks :
      (es bs rs new : List Interval)
      → IsCut t es bs rs
      → erase_cut t bs rs ≡ some new
      → Shrinks t es new
  erase_cut-Shrinks es bs [] new c e = unfold erase_cut in cc e
  erase_cut-Shrinks es bs (a ∷ rs) new c e =
      let (part, found, whole) = erase_cut-rejoin bs (a ∷ rs) new e in
      rw whole (
        pieces es bs a rs part c (part-Right a rs part found (floor bs) c.right)
          (λ q. part-member a rs part found q (floor bs) c.right)
          (part-total a rs part found (floor bs) c.right) (part-le a rs part found))

  erase_cut-eq-none :
      (es bs rs : List Interval) → IsCut t es bs rs → erase_cut t bs rs ≡ none → member t es ≡ false
  unfolding erase_cut
  erase_cut-eq-none es bs [] c e = member-cut t es bs [] c
  erase_cut-eq-none es bs (a ∷ rs) c e =
      rw (member-cut t es bs (a ∷ rs) c) (ground (arith, c.right))

-- Erasing a `uint32_t` keeps a valid vector valid, leaves exactly the other members, and says
-- whether the number was one.
pub erase_lem :
    (v : IntervalVector) (t : ℕ)
    → t < word
    → IsValid v
    → IsValid (erase v t).0
      × ((q : ℕ) → member q (erase v t).0.elements ≡ (not (q == t) && member q v.elements))
      × ((erase v t).1 ≡ member t v.elements)
unfolding erase
erase_lem v t small h =
    let cut = lower_cut t [] v.elements in
    let c = lower_cut-IsCut t v.elements h.ordered in
    elim (Option-cases (erase_cut t cut.before cut.rest)) [
      | inl e ↦
          let absent = erase_cut-eq-none t small v.elements cut.before cut.rest c e in
          rw e (h, λ q. ground (arith, absent), sym absent)
      | inr (new, e) ↦
          let s = erase_cut-Shrinks t small v.elements cut.before cut.rest new c e in
          rw e (
            record { ordered = s.ordered; counted = omega (arith, s.one_less, h.counted) },
            s.members,
            sym s.present,
          )
    ]

size-insert :
    (v : IntervalVector) (t : ℕ) → (insert v t).1 ≡ true → (insert v t).0.size ≡ v.size + 1
unfolding insert
size-insert v t h = ground arith

size-erase : (v : IntervalVector) (t : ℕ) → (erase v t).1 ≡ true → (erase v t).0.size ≡ v.size - 1
unfolding erase
size-erase v t h =
    let cut = lower_cut t [] v.elements in size_erased (erase_cut t cut.before cut.rest) h
  where
    size_erased :
        (o : Option (List Interval)) → (erased v o).1 ≡ true → (erased v o).0.size ≡ v.size - 1
    size_erased none h = cc
    size_erased (some es) h = refl

-- Erasing what was just inserted as new succeeds, and gives back the members and the size of
-- before.
pub erase-insert :
    (v : IntervalVector) (t : ℕ)
    → t < word
    → IsValid v
    → (insert v t).1 ≡ true
    → ((q : ℕ) → member q (erase (insert v t).0 t).0.elements ≡ member q v.elements)
      × ((erase (insert v t).0 t).0.size ≡ v.size)
      × ((erase (insert v t).0 t).1 ≡ true)
erase-insert v t small h fresh =
    let (members, returns) = member-insert v t small h in
    let (valid, left, gone) = erase_lem (insert v t).0 t small (insert-IsValid v t small h) in
    let known : (erase (insert v t).0 t).1 ≡ true = ground (arith, gone, members t) in
    (
      λ q. ground (arith, members q, left q, returns),
      omega (arith, size-insert v t fresh, size-erase (insert v t).0 t known),
      known,
    )
