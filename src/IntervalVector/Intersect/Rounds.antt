-- ===== src/IntervalVector/Intersect/Rounds.antt =====
-- What a round of the outer loop of `intersect` keeps.
use vislcg.Base.{
  ℕ, ◌+◌, ◌-◌, ◌<◌, ◌≤◌, max, ◌≡◌, refl, Bool, true, false, ◌||◌, ◌&&◌, List, [], ◌∷◌,
}
use vislcg.Base.{arith, word, leb, ltb, Bool-cases, inl, inr}
use vislcg.IntervalVector.{
  Interval, Meeting, round, overlaps, drop_before, skip, push_out, overlap_lb, overlap_ub, width32,
}
use vislcg.IntervalVector.Valid.{
  Left, Right, member, total, Right-weaken, Left-weaken, member-Right,
}

-- No interval holds all values, so that no width wraps to 0.
abbrev pub Narrow : List Interval → Type 0
Narrow [] = Unit
Narrow (a ∷ rs) = (a.ub + 1 - a.lb < word) × Narrow rs

pub Narrow-of_total : (rs : List Interval) → total rs < word → Narrow rs
unfolding total
Narrow-of_total [] h = tt
Narrow-of_total (a ∷ rs) h = (omega arith, Narrow-of_total rs (omega arith))

-- What holds between rounds: the members found and those still to be found are `both`, and the
-- result ends well before what is left begins.
pub record Meets (both : ℕ → Bool) (lo lo' : ℕ) (rs bs out : List Interval) (n : ℕ) : Type 0 where
  pub left : Right lo rs
  pub right : Right lo' bs
  pub narrow : Narrow rs
  pub behind : Left (max lo lo' - 1) out
  pub members : (q : ℕ) → (member q out || (member q rs && member q bs)) ≡ both q
  pub counted : total out ≡ n

abbrev pub Good : (ℕ → Bool) → Meeting → Type 0
Good both m = (lo : ℕ) × (lo' : ℕ) × Meets both lo lo' m.left m.right m.out m.size

push_out-eq :
    (hi lb ub : ℕ) (out : List Interval)
    → Left (hi - 1) out
    → hi ≤ lb
    → lb < word
    → push_out out lb ub ≡ record { lb = lb; ub = ub } ∷ out
push_out-eq hi lb ub [] l h small = refl
push_out-eq hi lb ub (p ∷ out) l h small = ground arith

module _ (both : ℕ → Bool) (a b : Interval) (rs bs out : List Interval) (n lo lo' : ℕ)
    (i : Meets both lo lo' (a ∷ rs) (b ∷ bs) out n)
    (over : (leb b.lb a.ub && leb a.lb b.ub) ≡ true) where
  abbrev grown : List Interval
  grown = push_out out (overlap_lb a b) (overlap_ub a b)

  grown-eq : grown ≡ record { lb = overlap_lb a b; ub = overlap_ub a b } ∷ out
  grown-eq =
      push_out-eq (max lo lo') (overlap_lb a b) (overlap_ub a b) out i.behind
        (ground (arith, i.left, i.right)) (ground (arith, i.left, i.right))

  behind_next : (lo₁ lo₁' : ℕ) → overlap_ub a b + 2 ≤ max lo₁ lo₁' → Left (max lo₁ lo₁' - 1) grown
  behind_next lo₁ lo₁' h = rw grown-eq (
    ground (arith, i.left, i.right),
    ground (arith, i.left, i.right),
    ground (arith, i.left, i.right),
    Left-weaken (max lo lo' - 1) (overlap_lb a b - 1) out (ground (arith, i.left, i.right))
        i.behind,
  )

  counted_next : total grown ≡ n + width32 a b
  unfolding total
  counted_next = rw grown-eq (ground (arith, i.counted, i.left, i.right, i.narrow))

  left_first : ltb a.ub b.ub ≡ true → Meets both (a.ub + 2) lo' rs (b ∷ bs) grown (n + width32 a b)
  unfolding member
  left_first h = record {
    left = i.left.3;
    right = i.right;
    narrow = i.narrow.1;
    behind = behind_next _ _ (ground arith);
    members = λ q. rw grown-eq (
        ground (
          arith,
          i.members q,
          member-Right q (b.ub + 2) bs,
          member-Right q (a.ub + 2) rs,
          i.left,
          i.right,
        ));
    counted = counted_next;
  }

  right_first : ltb a.ub b.ub ≡ false → Meets both lo (b.ub + 2) (a ∷ rs) bs grown (n + width32 a b)
  unfolding member
  right_first h = record {
    left = i.left;
    right = i.right.3;
    narrow = i.narrow;
    behind = behind_next _ _ (ground arith);
    members = λ q. rw grown-eq (
        ground (
          arith,
          i.members q,
          member-Right q (b.ub + 2) bs,
          member-Right q (a.ub + 2) rs,
          i.left,
          i.right,
        ));
    counted = counted_next;
  }

overlaps-Good :
    (both : ℕ → Bool) (lo lo' : ℕ) (rs bs out : List Interval) (n : ℕ)
    → Meets both lo lo' rs bs out n
    → Good both (overlaps rs bs out n)
unfolding overlaps
overlaps-Good both lo lo' [] bs out n i = (lo, lo', i)
overlaps-Good both lo lo' (a ∷ rs) [] out n i = (lo, lo', i)
overlaps-Good both lo lo' (a ∷ rs) (b ∷ bs) out n i =
    elim (Bool-cases (leb b.lb a.ub && leb a.lb b.ub)) [
      | inr apart ↦ rw apart (lo, lo', i)
      | inl over ↦ elim (Bool-cases (ltb a.ub b.ub)) [
        | inl h ↦
            rw (over, h)
              (overlaps-Good both (a.ub + 2) lo' rs (b ∷ bs)
                (push_out out (overlap_lb a b) (overlap_ub a b)) (n + width32 a b)
                (left_first both a b rs bs out n lo lo' i over h))
        | inr h ↦
            rw (over, h)
              (overlaps-Good both lo (b.ub + 2) (a ∷ rs) bs
                (push_out out (overlap_lb a b) (overlap_ub a b)) (n + width32 a b)
                (right_first both a b rs bs out n lo lo' i over h))
      ]
    ]

drop_before-Right : (lo lb : ℕ) (rs : List Interval) → Right lo rs → Right lo (drop_before lb rs)
unfolding drop_before
drop_before-Right lo lb [] r = r
drop_before-Right lo lb (a ∷ rs) r = elim (Bool-cases (ltb a.ub lb)) [
  | inl h ↦ rw h (drop_before-Right lo lb rs (Right-weaken (a.ub + 2) lo rs (omega arith) r.3))
  | inr h ↦ rw h r
]

drop_before-Narrow : (lb : ℕ) (rs : List Interval) → Narrow rs → Narrow (drop_before lb rs)
unfolding drop_before
drop_before-Narrow lb [] r = r
drop_before-Narrow lb (a ∷ rs) r = elim (Bool-cases (ltb a.ub lb)) [
  | inl h ↦ rw h (drop_before-Narrow lb rs r.1)
  | inr h ↦ rw h r
]

member-drop_before :
    (lb q : ℕ) (rs : List Interval) → lb ≤ q → member q (drop_before lb rs) ≡ member q rs
unfolding drop_before member
member-drop_before lb q [] h = refl
member-drop_before lb q (a ∷ rs) h = ground (arith, member-drop_before lb q rs)

member-skip :
    (q lo : ℕ) (rs bs : List Interval)
    → Right lo bs
    → (member q (skip rs bs) && member q bs) ≡ (member q rs && member q bs)
member-skip q lo rs [] r = refl
member-skip q lo rs (b ∷ bs) r =
    ground (arith, member-drop_before b.lb q rs, member-Right q b.lb (b ∷ bs))

skip-Right : (lo : ℕ) (rs bs : List Interval) → Right lo rs → Right lo (skip rs bs)
skip-Right lo rs [] r = r
skip-Right lo rs (b ∷ bs) r = drop_before-Right lo b.lb rs r

skip-Narrow : (rs bs : List Interval) → Narrow rs → Narrow (skip rs bs)
skip-Narrow rs [] r = r
skip-Narrow rs (b ∷ bs) r = drop_before-Narrow b.lb rs r

pub round-Good :
    (both : ℕ → Bool) (lo lo' : ℕ) (rs bs out : List Interval) (n : ℕ)
    → Meets both lo lo' rs bs out n
    → Good both (round rs bs out n)
unfolding round
round-Good both lo lo' rs bs out n i = overlaps-Good both lo lo' _ _ out n (record {
  left = skip-Right lo rs bs i.left;
  right = skip-Right lo' bs (skip rs bs) i.right;
  narrow = skip-Narrow rs bs i.narrow;
  behind = i.behind;
  members = λ q. ground (
    arith,
    i.members q,
    member-skip q lo' rs bs i.right,
    member-skip q lo bs (skip rs bs) (skip-Right lo rs bs i.left),
  );
  counted = i.counted;
})
