-- ===== src/Examples/Operators.antt =====
-- Composite sets.
use vislcg.Base.{ℕ, ◌≡◌, refl, Bool, true, false, ◌||◌, ◌==◌}
use vislcg.SetMatch.{
  s_or, s_plus, s_minus, st_any, list_set, sub_sets, Others, last, next, does_set_match,
}
use vislcg.SetMatch.Groups.{groups, decide, does_set_match-groups}

-- The sets 2 and 3 match.
abbrev tags : ℕ → Bool
tags n = n == 2 || n == 3

-- 1 OR 2 - 3 OR 3 + (*)
abbrev others : Others
others =
    next s_or (list_set 2)
      (next s_minus (list_set 3) (next s_or (list_set 3) (next s_plus st_any last)))

matches_last : does_set_match tags (sub_sets (list_set 1) others) ≡ true
unfolding does_set_match
matches_last = refl

does_set_match-groups_example :
    does_set_match tags (sub_sets (list_set 1) others)
    ≡ decide tags (groups tags (does_set_match tags (list_set 1), false) others)
does_set_match-groups_example = does_set_match-groups tags (list_set 1) others

misses : does_set_match tags (list_set 1) ≡ false
unfolding does_set_match
misses = refl

hits : does_set_match tags (list_set 3) ≡ true
unfolding does_set_match
hits = refl
