-- ===== src/Examples/Sorted.antt =====
-- Sorted vectors.
use vislcg.Base.{ℕ, ◌≡◌, refl, List, [], ◌∷◌, arith}
use vislcg.SortedVector.{insert, IsSorted}

abbrev values : List ℕ
values = 2 ∷ 5 ∷ 9 ∷ []

values-IsSorted : IsSorted values
values-IsSorted = (omega arith, (omega arith, (omega arith, tt)))

insert_middle : (insert values 7).0 ≡ 2 ∷ 5 ∷ 7 ∷ 9 ∷ []
unfolding insert
insert_middle = refl
