-- ===== src/Examples/Kin.antt =====
-- Dependants, ancestors and heads in a concrete tree with a loop.
use vislcg.Base.{
  ℕ, ◌<◌, ltb, ◌==◌, true, false, ◌&&◌, ◌||◌, if◌then◌else◌, List, [], ◌∷◌, some, none, ◌≡◌, refl,
  arith,
}
use vislcg.Dependency.{Tree, parent_of}
use vislcg.Dependents.{
  Kinship, Way, comes_before, may_enter, descendents, expand_all, expand, set_insert_all,
  set_insert, set_has,
}
use vislcg.Dependents.Sets.{PlacesDiffer}
use vislcg.Dependents.Adding.{Reaches}
use vislcg.Dependents.Chosen.{GoesThrough, descendents-GoesThrough}
use vislcg.Dependents.Ancestors.{ancestors}
use vislcg.Dependents.Ancestors.Stuck.{IsAbove, head, higher, ancestors-stuck}
use vislcg.Dependents.Ancestors.Found.{ancestors-GoesThrough}
use vislcg.Dependents.Heads.{heads, IsPath, left_ones, NoRepeats, heads-IsPath}

-- 1 and 2 are each the head of the other, and 2 is the head of 3 too.
abbrev head_of : ℕ → ℕ
head_of n = if n == 2 then 1 else 2

abbrev dependants : ℕ → List ℕ
dependants n = if n == 1 then 2 ∷ [] else if n == 2 then 1 ∷ 3 ∷ [] else []

abbrev tree_in : (ℕ → ℕ) → Tree
tree_in window = record {
  cohort = λ n. record {
    dep_self = n;
    dep_parent = head_of n;
    dep_children = dependants n;
    dep_done = true;
    window = window n;
  };
  known = λ n. ltb 0 n && ltb n 4;
  dep_block_loops = false;
  dep_block_crossing = false;
  dep_has_spanned = false;
}

abbrev links_in : (ℕ → ℕ) → Kinship
links_in window = record { tree = tree_in window; local_number = λ n. n; is_removed = λ n. false }

abbrev one_window : Kinship
one_window = links_in (λ n. 1)

abbrev way : Way
way = record {
  to_left = false;
  to_right = false;
  both_ways = false;
  is_left = false;
  is_right = false;
  is_self = false;
  is_rightmost = true;
}

one_window-PlacesDiffer : PlacesDiffer one_window
unfolding comes_before
one_window-PlacesDiffer a b h k = ground (arith, h, k)

below_four : (p : ℕ) → one_window.tree.known p ≡ true → p < 4
below_four p h = ground (arith, h)

all_good : (p : ℕ) → IsAbove one_window 3 p → may_enter one_window way 3 p ≡ true
unfolding may_enter
all_good p a = refl

goes_round : descendents 5 one_window way 1 ≡ some (3 ∷ 2 ∷ 1 ∷ [])
unfolding descendents expand_all expand set_insert_all set_insert set_has may_enter comes_before
goes_round = refl

descendents-GoesThrough_example :
    GoesThrough one_window way 1 (Reaches one_window way 1) (descendents 5 one_window way 1)
descendents-GoesThrough_example =
    descendents-GoesThrough one_window way 1 4 one_window-PlacesDiffer below_four

ancestors-GoesThrough_example :
    GoesThrough one_window way 3 (IsAbove one_window 3) (ancestors 5 one_window way 3)
ancestors-GoesThrough_example =
    ancestors-GoesThrough one_window way 3 4 one_window-PlacesDiffer below_four all_good

heads-IsPath_example :
    (path : List ℕ) × (heads 5 one_window way false [] 3 ≡ some path)
    × IsPath one_window way false 3 path
    × NoRepeats (left_ones 3 path)
heads-IsPath_example = heads-IsPath one_window way false 3 4 one_window-PlacesDiffer below_four refl

-- The third cohort is in a window of its own, which the test may not leave.
abbrev apart : Kinship
apart = links_in (λ n. if n == 3 then 1 else 0)

in_loop : (p : ℕ) → IsAbove apart 3 p → (p == 1 || p == 2) ≡ true
in_loop q (head h) = refl
in_loop q (higher {p} a h) = ground arith

known_heads : (p : ℕ) → IsAbove apart 3 p → apart.tree.known (parent_of apart.tree p) ≡ true
known_heads p a = ground arith

not_entered : (p : ℕ) → IsAbove apart 3 p → may_enter apart way 3 p ≡ false
unfolding may_enter
not_entered p a = ground (arith, in_loop p a)

ancestors-stuck_example : ancestors 1000 apart way 3 ≡ none
ancestors-stuck_example = ancestors-stuck 1000 apart way 3 refl known_heads not_entered
