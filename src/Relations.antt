-- ===== src/Relations.antt =====
-- The named relations of a cohort to others: `addRelation`, `setRelation` and `remRelation` of
-- src/Cohort.cpp on the map from relations to sets of cohorts.
pub mod Effects
use vislcg.Base.{
  ℕ, Bool, true, false, not, ◌&&◌, List, [], ◌∷◌, Option, none, some, ◌==◌, if◌then◌else◌, length,
}
use vislcg.SortedVector

abbrev pub RelationCtn : Type 0
RelationCtn = ℕ → Option (List ℕ)

-- `relations[rel]`, which makes an empty set where there is none.
abbrev pub or_empty : Option (List ℕ) → List ℕ
or_empty none = []
or_empty (some cohorts) = cohorts

abbrev pub put : RelationCtn → ℕ → List ℕ → RelationCtn
put relations rel cohorts = λ r. if r == rel then some cohorts else relations r

unfoldable pub add_relation : RelationCtn → ℕ → ℕ → RelationCtn × Bool
unfolding SortedVector.insert
add_relation relations rel cohort =
    let cohorts = or_empty (relations rel) in
    let added = (SortedVector.insert cohorts cohort).0 in
    (put relations rel added, not (length cohorts == length added))

unfoldable pub set_relation : RelationCtn → ℕ → ℕ → RelationCtn × Bool
unfolding SortedVector.insert SortedVector.count
set_relation relations rel cohort =
    let cohorts = or_empty (relations rel) in
    if length cohorts == 1 && not (SortedVector.count cohorts cohort == 0)
    then (put relations rel cohorts, false)
    else (put relations rel (SortedVector.insert [] cohort).0, true)

abbrev pub take_from : RelationCtn → ℕ → ℕ → Option (List ℕ) → RelationCtn × Bool
unfolding SortedVector.erase
take_from relations rel cohort none = (relations, false)
take_from relations rel cohort (some cohorts) =
    let rest = (SortedVector.erase cohorts cohort).0 in
    (put relations rel rest, not (length cohorts == length rest))

unfoldable pub rem_relation : RelationCtn → ℕ → ℕ → RelationCtn × Bool
unfolding take_from
rem_relation relations rel cohort = take_from relations rel cohort (relations rel)
