-- ===== src/Examples/Related.antt =====
-- Relations between cohorts.
use vislcg.Base.{◌≡◌, refl, false, [], ◌∷◌, none, some, arith, ◌==◌, if◌then◌else◌, if_elim}
use vislcg.SortedVector.{IsSorted}
use vislcg.Relations.{RelationCtn, or_empty, set_relation}
use vislcg.Relations.Effects.{AllSorted}

-- Relation 5 to the cohorts 2 and 8.
abbrev five : RelationCtn
five r = if r == 5 then some (2 ∷ 8 ∷ []) else none

five-AllSorted : AllSorted five
five-AllSorted rel =
    if_elim (λ o. IsSorted (or_empty o)) (rel == 5) (some (2 ∷ 8 ∷ [])) none
      (λ _. (omega arith, (omega arith, tt))) (λ _. tt)

sets_one : or_empty ((set_relation five 5 8).0 5) ≡ 8 ∷ []
unfolding set_relation
sets_one = refl

keeps_only : (set_relation (set_relation five 5 8).0 5 8).1 ≡ false
unfolding set_relation
keeps_only = refl
