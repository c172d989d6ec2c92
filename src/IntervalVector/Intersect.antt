-- ===== src/IntervalVector/Intersect.antt =====
-- `intersect` ends, and is the intersection of sets.
mod Rounds
mod Ends
use vislcg.Base.{
  ℕ, zero, suc, ◌+◌, ◌-◌, ◌%◌, ◌<◌, ◌≤◌, max, ◌≡◌, refl, Bool, true, false, ◌||◌, ◌&&◌, List, [],
  ◌∷◌,
}
use vislcg.Base.{
  Option, some, none, arith, word, leb, ltb, rejoin, length, Bool-cases, inl, inr, ◌∙◌, sym, ltb→lt,
  if◌then◌else◌,
}
use vislcg.IntervalVector.{
  Interval, IntervalVector, Meeting, intersect, meet, round, overlaps, drop_before, skip, push_out,
  overlap_lb, overlap_ub, width32, done, succ32,
}
use vislcg.IntervalVector.Valid.{
  Left, Right, member, total, IsValid, Right-rejoin, Right-weaken, Left-weaken, floor-le,
  member-rejoin, total-rejoin, member-Left, member-Right,
}
use vislcg.IntervalVector.Intersect.Rounds.{Meets, Good, Narrow-of_total, round-Good}
use vislcg.IntervalVector.Intersect.Ends.{left_over, round-lt}

-- The result once a vector has run out.
abbrev Finishes : (ℕ → Bool) → Option IntervalVector → Type 0
Finishes both o =
    (r : IntervalVector) × (o ≡ some r) × IsValid r × ((q : ℕ) → member q r.elements ≡ both q)

finish :
    (both : ℕ → Bool) (hi n : ℕ) (out : List Interval)
    → Left hi out
    → ((q : ℕ) → member q out ≡ both q)
    → total out ≡ n
    → Finishes both (some (record { elements = rejoin out []; size = n }))
unfolding member total
finish both hi n out l m t = (
  record { elements = rejoin out []; size = n },
  refl,
  record {
    ordered = Right-rejoin hi out [] l tt;
    counted = rw (total-rejoin out []) (omega (arith, t));
  },
  λ q. rw (member-rejoin q out []) (ground (arith, m q)),
)

meet_lem :
    (both : ℕ → Bool) (fuel lo lo' : ℕ) (rs bs out : List Interval) (n : ℕ)
    → Meets both lo lo' rs bs out n
    → length rs + length bs < fuel
    → Finishes both (meet fuel rs bs out n)
unfolding meet member
meet_lem both zero lo lo' rs bs out n i h = absurd (omega arith)
meet_lem both (suc fuel) lo lo' [] bs out n i h =
    finish both _ n out i.behind (λ q. ground (arith, i.members q)) i.counted
meet_lem both (suc fuel) lo lo' (a ∷ rs) [] out n i h =
    finish both _ n out i.behind (λ q. ground (arith, i.members q)) i.counted
meet_lem both (suc fuel) lo lo' (a ∷ rs) (b ∷ bs) out n i h =
    let (lo₁, lo₁', i') = round-Good both lo lo' (a ∷ rs) (b ∷ bs) out n i in
    meet_lem both fuel lo₁ lo₁' _ _ _ _ i' (omega (arith, round-lt a b rs bs out n))

-- The loops of `intersect` end within a round for each interval, and give a valid vector whose
-- members are the common members of the two; only a vector of all `2 ^ 32` values is left out.
pub intersect_lem :
    (v o : IntervalVector)
    → IsValid v
    → IsValid o
    → v.size < word
    → (r : IntervalVector) × (intersect v o ≡ some r)
      × IsValid r
      × ((q : ℕ) → member q r.elements ≡ (member q v.elements && member q o.elements))
unfolding intersect
intersect_lem v o h k small =
    meet_lem _ _ 0 0 v.elements o.elements [] 0
      (unfold member total in
        record {
          left = h.ordered;
          right = k.ordered;
          narrow = Narrow-of_total v.elements (rw h.counted small);
          behind = tt;
          members = λ q. refl;
          counted = refl;
        })
      (omega arith)
