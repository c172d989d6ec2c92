-- ===== src/Examples/Tries.antt =====
-- Tries of tags.
use vislcg.Base.{◌==◌, ℕ, ◌≡◌, refl, Bool, true, false, not, ◌&&◌, ◌||◌, [], ◌∷◌, arith}
use vislcg.Trie.{empty, entry, Trie, terminal_at, child_at, set_node, trie_insert, size, match_trie}
use vislcg.Trie.Order.{IsSorted}
use vislcg.Trie.Insert.{all_hit, trie_insert_lem}
use vislcg.Trie.Tags.{
  skip_tags, skip_nodes, merge, enough, match_plain, any_hit, does_set_match_tags,
}
use vislcg.Trie.Tags.Merge.{does_set_match_tags_lem}

-- The LIST of `3 7`, of `3 9` and of `5`.
abbrev three_tags : Trie
three_tags =
    entry 3 false (entry 7 true empty (entry 9 true empty empty)) (entry 5 true empty empty)

three_tags-IsSorted : IsSorted three_tags
three_tags-IsSorted = (omega arith, (omega arith, tt, (tt, tt, tt)), (tt, tt, tt))

three_tags_built :
    (trie_insert 3 (9 ∷ []) (trie_insert 5 [] (trie_insert 3 (7 ∷ []) empty).1).1).1 ≡ three_tags
unfolding trie_insert terminal_at child_at set_node
three_tags_built = refl

-- A tag whose beginning is in the trie is not put in.
shorter_there : trie_insert 5 (6 ∷ []) three_tags ≡ (false, three_tags)
unfolding trie_insert terminal_at child_at set_node
shorter_there = refl

abbrev hits : ℕ → Bool
hits k = k == 3 || k == 9 || k == 4

abbrev no_failfast : ℕ → Bool
no_failfast k = false

trie_insert_lem_example :
    match_trie hits no_failfast (trie_insert 4 (9 ∷ []) three_tags).1
    ≡ (all_hit hits no_failfast (4 ∷ 9 ∷ []) || match_trie hits no_failfast three_tags)
trie_insert_lem_example = trie_insert_lem hits no_failfast 4 (9 ∷ []) three_tags

does_set_match_tags_lem_example :
    does_set_match_tags hits no_failfast (6 ∷ []) three_tags empty (3 ∷ 4 ∷ 9 ∷ []) ≡ (
      not (any_hit hits (6 ∷ []))
      && (match_trie hits no_failfast three_tags || match_trie hits no_failfast empty))
does_set_match_tags_lem_example =
    does_set_match_tags_lem hits no_failfast (6 ∷ []) three_tags empty (3 ∷ 4 ∷ 9 ∷ [])
      three_tags-IsSorted (omega arith, (omega arith, (omega arith, tt)))
      (refl, refl, (refl, refl, tt))

-- The tag 3 is there, and 9 below it.
merged : does_set_match_tags hits no_failfast (6 ∷ []) three_tags empty (3 ∷ 4 ∷ 9 ∷ []) ≡ true
unfolding does_set_match_tags any_hit match_plain merge skip_tags skip_nodes match_trie enough size
merged = refl
