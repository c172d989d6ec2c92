-- ===== src/Examples/Trees.antt =====
-- The dependency tree.
use vislcg.Base.{
  ℕ, zero, suc, ◌+◌, ◌-◌, ◌≤◌, ◌<◌, ◌≡◌, ◌≢◌, ◌↔◌, ◌⊎◌, refl, true, false, [], arith, min, max,
}
use vislcg.Dependency.{
  Tree, parent_of, dep_no_parent, rounds, climb, is_child_of, would_parent_child_loop,
  would_parent_child_cross, attach_parent_child,
}
use vislcg.Dependency.Climb.{Above, is_child_of_iff, would_parent_child_cross_iff}
use vislcg.Dependency.Loops.{NoLoops, Within}
use vislcg.Dependency.Attach.{attach_parent_child-NoLoops}

-- Every cohort hangs on the one before.
abbrev chained : Tree
chained = record {
  cohort = λ g. record {
    dep_self = g;
    dep_parent = g - 1;
    dep_children = [];
    dep_done = true;
    window = 1;
  };
  known = λ g. true;
  dep_block_loops = true;
  dep_block_crossing = false;
  dep_has_spanned = false;
}

below : (n c d : ℕ) → Above chained n c d → d ≤ c - 1
below zero c d a = omega (arith, a)
below (suc n) c d a = omega (arith, below n (c - 1) d a.1)

chained-NoLoops : NoLoops chained
chained-NoLoops n c o a = ground (arith, o, below n c c a)

chained-Within : Within chained 2 7
chained-Within n a = absurd (omega (arith, below n 2 7 a))

refuses_loop : (attach_parent_child chained 7 2 false false).1 ≡ false
unfolding attach_parent_child would_parent_child_loop climb rounds
refuses_loop = refl

is_child_of_iff_example :
    (is_child_of chained 7 2 ≡ true)
    ↔ (◌≡◌ {A = ℕ} 7 2 ⊎ ((n : ℕ) × (n ≤ rounds) × Above chained n 7 2))
is_child_of_iff_example = is_child_of_iff chained 7 2

attach_parent_child-NoLoops_example : NoLoops (attach_parent_child chained 2 7 false false).0
attach_parent_child-NoLoops_example =
    attach_parent_child-NoLoops chained 2 7 false refl refl chained-Within chained-NoLoops

attaches : (attach_parent_child chained 2 7 true true).1 ≡ true
unfolding attach_parent_child
attaches = refl

would_parent_child_cross_iff_example : (would_parent_child_cross chained 7 2 ≡ true) ↔ (
    (min 7 2 + 1 < max 7 2)
    × (chained.known (parent_of chained 7) ≡ true)
    × (parent_of chained (parent_of chained 7) ≢ dep_no_parent)
    × ((parent_of chained (parent_of chained 7) < min 7 2)
        ⊎ (max 7 2 < parent_of chained (parent_of chained 7))))
would_parent_child_cross_iff_example = would_parent_child_cross_iff chained 7 2
