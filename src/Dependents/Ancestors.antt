-- ===== src/Dependents/Ancestors.antt =====
-- The cohorts above one in the tree: `reset` of DepAncestorIter in src/CohortIterator.cpp.
pub mod Found
pub mod Stuck
use vislcg.Base.{
  ℕ, zero, suc, Bool, true, false, not, ◌&&◌, if◌then◌else◌, List, [], Option, none, some,
}
use vislcg.Dependency.{parent_of}
use vislcg.Dependents.{Kinship, Way, set_insert, may_enter, arranged}

-- The loop up the tree. A cohort in a window that may not be entered is passed over.
unfoldable pub climb_on : ℕ → Kinship → Way → ℕ → ℕ → List ℕ → Option (List ℕ)
climb_on zero t j c current set = none
climb_on (suc rounds) t j c current set =
    let up = parent_of t.tree current in
    let put = set_insert t set up in
    let further = climb_on rounds t j c up (if may_enter t j c up then put.0 else set) in
    if not (t.tree.known up)
    then some set
    else if may_enter t j c up && not put.1
    then some set
    else further

-- The cohorts that the iterator goes through, in order.
unfoldable pub ancestors : ℕ → Kinship → Way → ℕ → Option (List ℕ)
unfolding climb_on
ancestors rounds t j c = arranged t j c (climb_on rounds t j c c [])
