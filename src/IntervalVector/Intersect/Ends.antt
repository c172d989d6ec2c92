-- ===== src/IntervalVector/Intersect/Ends.antt =====
-- The outer loop of `intersect` passes an interval in each round.
use vislcg.Base.{ℕ, ◌+◌, ◌<◌, ◌≤◌, ◌≡◌, true, ◌&&◌, List, [], ◌∷◌}
use vislcg.Base.{arith, leb, ltb, length, Bool-cases, inl, inr}
use vislcg.IntervalVector.{
  Interval, Meeting, round, overlaps, drop_before, skip, push_out, overlap_lb, overlap_ub, width32,
}

abbrev pub left_over : Meeting → ℕ
left_over m = length m.left + length m.right

length-drop_before-le : (lb : ℕ) (rs : List Interval) → length (drop_before lb rs) ≤ length rs
unfolding drop_before
length-drop_before-le lb [] = omega arith
length-drop_before-le lb (a ∷ rs) = ground (arith, length-drop_before-le lb rs)

length-skip-le : (rs bs : List Interval) → length (skip rs bs) ≤ length rs
length-skip-le rs [] = omega arith
length-skip-le rs (b ∷ bs) = length-drop_before-le b.lb rs

overlaps-le :
    (rs bs out : List Interval) (n : ℕ) → left_over (overlaps rs bs out n) ≤ length rs + length bs
unfolding overlaps
overlaps-le [] bs out n = omega arith
overlaps-le (a ∷ rs) [] out n = omega arith
overlaps-le (a ∷ rs) (b ∷ bs) out n = elim (Bool-cases (leb b.lb a.ub && leb a.lb b.ub)) [
  | inr apart ↦ rw apart (omega arith)
  | inl over ↦ elim (Bool-cases (ltb a.ub b.ub)) [
    | inl h ↦
        rw (over, h)
          (omega (
            arith,
            overlaps-le rs (b ∷ bs) (push_out out (overlap_lb a b) (overlap_ub a b))
                (n + width32 a b),
          ))
    | inr h ↦
        rw (over, h)
          (omega (
            arith,
            overlaps-le (a ∷ rs) bs (push_out out (overlap_lb a b) (overlap_ub a b))
                (n + width32 a b),
          ))
  ]
]

overlaps-lt :
    (a b : Interval) (rs bs out : List Interval) (n : ℕ)
    → (leb b.lb a.ub && leb a.lb b.ub) ≡ true
    → left_over (overlaps (a ∷ rs) (b ∷ bs) out n) < length (a ∷ rs) + length (b ∷ bs)
unfolding overlaps
overlaps-lt a b rs bs out n over = elim (Bool-cases (ltb a.ub b.ub)) [
  | inl h ↦
      rw (over, h)
        (omega (
          arith,
          overlaps-le rs (b ∷ bs) (push_out out (overlap_lb a b) (overlap_ub a b))
              (n + width32 a b),
        ))
  | inr h ↦
      rw (over, h)
        (omega (
          arith,
          overlaps-le (a ∷ rs) bs (push_out out (overlap_lb a b) (overlap_ub a b))
              (n + width32 a b),
        ))
]

-- Each round of the outer loop passes an interval.
pub round-lt :
    (a b : Interval) (rs bs out : List Interval) (n : ℕ)
    → left_over (round (a ∷ rs) (b ∷ bs) out n) < length (a ∷ rs) + length (b ∷ bs)
unfolding round drop_before
round-lt a b rs bs out n = elim (Bool-cases (ltb a.ub b.lb)) [
  | inl h ↦ rw h (
      omega (
        arith,
        overlaps-le (drop_before b.lb rs) (skip (b ∷ bs) (drop_before b.lb rs)) out n,
        length-drop_before-le b.lb rs,
        length-skip-le (b ∷ bs) (drop_before b.lb rs),
      ))
  | inr h ↦ elim (Bool-cases (ltb b.ub a.lb)) [
    | inl k ↦
        rw (h, k)
          (omega (
            arith,
            overlaps-le (a ∷ rs) (drop_before a.lb bs) out n,
            length-drop_before-le a.lb bs,
          ))
    | inr k ↦ rw (h, k) (overlaps-lt a b rs bs out n (ground arith))
  ]
]
