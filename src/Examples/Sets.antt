-- ===== src/Examples/Sets.antt =====
-- Interval vectors.
use vislcg.Base.{
  ◌≤◌, ℕ, ◌<◌, ◌≡◌, ◌⊎◌, ◌↔◌, refl, true, false, not, ◌&&◌, ◌||◌, [], ◌∷◌, some, arith, word, ◌==◌,
}
use vislcg.IntervalVector.{IntervalVector, empty, insert, erase, lower_bound, intersect}
use vislcg.IntervalVector.Valid.{IsValid, member, total}
use vislcg.IntervalVector.Insert.{insert-IsValid, member-insert}
use vislcg.IntervalVector.Erase.{erase_lem}
use vislcg.IntervalVector.Lookup.{lower_bound-IsLeast_iff, IsLeast}
use vislcg.IntervalVector.Intersect.{intersect_lem}

abbrev three_runs : IntervalVector
three_runs = record {
  elements =
      record { lb = 3; ub = 5 } ∷ record { lb = 8; ub = 8 } ∷ record { lb = 10; ub = 12 } ∷ [];
  size = 7;
}

three_runs-IsValid : IsValid three_runs
unfolding total
three_runs-IsValid = record {
  ordered = (
    omega arith,
    omega arith,
    omega arith,
    (omega arith, omega arith, omega arith, (omega arith, omega arith, omega arith, tt)),
  );
  counted = refl;
}

two_runs : IntervalVector
two_runs = record {
  elements = record { lb = 1; ub = 4 } ∷ record { lb = 8; ub = 10 } ∷ [];
  size = 7;
}

two_runs-IsValid : IsValid two_runs
unfolding total two_runs
two_runs-IsValid = record {
  ordered = (omega arith, omega arith, omega arith, (omega arith, omega arith, omega arith, tt));
  counted = refl;
}

abbrev empty-IsValid : IsValid empty
unfolding total empty
empty-IsValid = record { ordered = tt; counted = refl }

insert_merges :
    (insert three_runs 9).0.elements ≡ record { lb = 3; ub = 5 } ∷ record { lb = 8; ub = 12 } ∷ []
unfolding insert
insert_merges = refl

erase_splits :
    (erase three_runs 11).0.elements
    ≡ record { lb = 3; ub = 5 }
      ∷ record { lb = 8; ub = 8 }
      ∷ record { lb = 10; ub = 10 }
      ∷ record { lb = 12; ub = 12 }
      ∷ []
unfolding erase
erase_splits = refl

lower_bound_skips : (lower_bound three_runs 6).value ≡ 10
unfolding lower_bound
lower_bound_skips = refl

insert-IsValid_example : IsValid (insert three_runs 9).0
insert-IsValid_example = insert-IsValid three_runs 9 (omega arith) three_runs-IsValid

member-insert_example :
    ((q : ℕ) → member q (insert three_runs 9).0.elements ≡ (q == 9 || member q three_runs.elements))
    × ((insert three_runs 9).1 ≡ not (member 9 three_runs.elements))
member-insert_example = member-insert three_runs 9 (omega arith) three_runs-IsValid

erase_lem_example :
    IsValid (erase three_runs 11).0
    × ((q : ℕ)
        → member q (erase three_runs 11).0.elements
          ≡ (not (q == 11) && member q three_runs.elements))
    × ((erase three_runs 11).1 ≡ member 11 three_runs.elements)
erase_lem_example = erase_lem three_runs 11 (omega arith) three_runs-IsValid

insert_fresh : (insert three_runs 9).1 ≡ true
unfolding insert
insert_fresh = refl

lower_bound-IsLeast_iff_example :
    IsLeast 6 three_runs.elements (lower_bound three_runs 6).here (lower_bound three_runs 6).value
    ↔ ((member 6 three_runs.elements ≡ true)
        ⊎ ((q : ℕ) → 6 ≤ q → member q three_runs.elements ≡ false))
lower_bound-IsLeast_iff_example = lower_bound-IsLeast_iff three_runs 6 three_runs-IsValid

two_runs_small : two_runs.size < word
unfolding two_runs
two_runs_small = omega arith

intersect_lem_example :
    (r : IntervalVector) × (intersect two_runs three_runs ≡ some r)
    × IsValid r
    × ((q : ℕ) → member q r.elements ≡ (member q two_runs.elements && member q three_runs.elements))
intersect_lem_example =
    intersect_lem two_runs three_runs two_runs-IsValid three_runs-IsValid two_runs_small
