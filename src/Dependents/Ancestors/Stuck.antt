-- ===== src/Dependents/Ancestors/Stuck.antt =====
-- Where the search for ancestors does not end.
use vislcg.Base.{ℕ, zero, suc, true, false, List, [], none, ◌≡◌, refl, arith, ap}
use vislcg.Dependency.{parent_of}
use vislcg.Dependents.{Kinship, Way, may_enter, arranged}
use vislcg.Dependents.Ancestors.{climb_on, ancestors}

-- The cohorts that the heads lead to from one.
pub data IsAbove (t : Kinship) (c : ℕ) : ℕ → Type 0 where
  head : t.tree.known (parent_of t.tree c) ≡ true → IsAbove t c (parent_of t.tree c)
  higher :
      {p : ℕ}
      → IsAbove t c p
      → t.tree.known (parent_of t.tree p) ≡ true
      → IsAbove t c (parent_of t.tree p)

climb_on-stuck :
    (fuel : ℕ) (t : Kinship) (j : Way) (c current : ℕ) (set : List ℕ)
    → ((p : ℕ) → IsAbove t c p → t.tree.known (parent_of t.tree p) ≡ true)
    → ((p : ℕ) → IsAbove t c p → may_enter t j c p ≡ false)
    → IsAbove t c (parent_of t.tree current)
    → t.tree.known (parent_of t.tree current) ≡ true
    → climb_on fuel t j c current set ≡ none
unfolding climb_on
climb_on-stuck zero t j c current set k g a h = refl
climb_on-stuck (suc fuel) t j c current set k g a h =
    let up = parent_of t.tree current in
    ground (arith, h, g up a, climb_on-stuck fuel t j c up set k g (higher a (k up a)) (k up a))

-- Where each head above a cohort has a known head again, as in a loop, and none of them is in a window that the test may enter, the
-- search for ancestors never ends.
pub ancestors-stuck :
    (fuel : ℕ) (t : Kinship) (j : Way) (c : ℕ)
    → t.tree.known (parent_of t.tree c) ≡ true
    → ((p : ℕ) → IsAbove t c p → t.tree.known (parent_of t.tree p) ≡ true)
    → ((p : ℕ) → IsAbove t c p → may_enter t j c p ≡ false)
    → ancestors fuel t j c ≡ none
unfolding ancestors
ancestors-stuck fuel t j c h k g =
    ap (arranged t j c) (climb_on-stuck fuel t j c c [] k g (head h) h)
