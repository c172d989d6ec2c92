-- ===== src/Trie/Tags.antt =====
-- `doesSetMatchReading_tags` of src/GrammarApplicator_matchSet.cpp outside unification: whether a reading matches a LIST. The tags of
-- the reading and the keys of the set's trie, both in ascending order, are merged.
mod Skips
pub mod Merge
use vislcg.Base.{
  ltb, leb, ◌==◌, if◌then◌else◌, ltb→lt, ltb→le, leb→le, leb→lt, ==_iff, Bool-cases, Option-cases,
  if_elim, length, rejoin, length-append, ℕ, zero, suc, ◌+◌, ◌-◌, ◌*◌, ◌/◌, ◌%◌, ◌^◌, ◌≤◌, ◌<◌, min,
  max, ◌≡◌, refl, sym, ap, ◌∙◌, ◌≢◌, ◌↔◌, ◌⊎◌, inl, inr, Bool, true, false, not, ◌&&◌, ◌||◌, Option,
  none, some, List, [], ◌∷◌, ◌++◌, map, arith, word,
}
use vislcg.Trie.{
  empty, entry, Trie, terminal_at, child_at, set_node, trie_insert, copy_onto, trie_copy, size,
  trie_singular, has_type, tag_list, match_trie,
}

-- `while (*oiter < iiter->first->hash) ++oiter`, and while there is a node.
unfoldable pub skip_tags : Trie → List ℕ → List ℕ
skip_tags empty tags = tags
skip_tags (entry key terminal child rest) [] = []
skip_tags (entry key terminal child rest) (tag ∷ tags) =
    let later = skip_tags (entry key terminal child rest) tags in
    if ltb tag key then later else tag ∷ tags

-- `while (iiter->first->hash < *oiter) ++iiter`, and while there is a tag.
unfoldable pub skip_nodes : List ℕ → Trie → Trie
skip_nodes [] trie = trie
skip_nodes (tag ∷ tags) empty = empty
skip_nodes (tag ∷ tags) (entry key terminal child rest) =
    let later = skip_nodes (tag ∷ tags) rest in
    if ltb key tag then later else entry key terminal child rest

-- The loop, from a node of the trie and a tag of the reading on.
unfoldable pub merge : (ℕ → Bool) → (ℕ → Bool) → ℕ → Trie → List ℕ → Bool
merge hit failfast zero trie tags = false
merge hit failfast (suc fuel) empty tags = false
merge hit failfast (suc fuel) (entry key terminal child rest) [] = false
merge hit failfast (suc fuel) (entry key terminal child rest) (tag ∷ tags) =
    let trie = if tag == key then rest else entry key terminal child rest in
    let tags' = skip_tags trie (tag ∷ tags) in
    let later = merge hit failfast fuel (skip_nodes tags' trie) tags' in
    if (tag == key) && (terminal || match_trie hit failfast child) then true else later

unfoldable pub enough : Trie → List ℕ → ℕ
enough trie tags = suc (size trie + length tags)

-- The iterators start at the lower bounds of the other side's first key.
unfoldable pub match_plain : (ℕ → Bool) → (ℕ → Bool) → Trie → List ℕ → Bool
match_plain hit failfast trie tags =
    merge hit failfast (enough trie tags) (skip_nodes tags trie) (skip_tags trie tags)

unfoldable pub any_hit : (ℕ → Bool) → List ℕ → Bool
any_hit hit [] = false
any_hit hit (tag ∷ tags) = if hit tag then true else any_hit hit tags

-- `doesSetMatchReading_tags`: the set's fail-fast tags, its trie, its trie of special tags, and the reading's `tags_plain`.
unfoldable pub does_set_match_tags : (ℕ → Bool) → (ℕ → Bool) → List ℕ → Trie → Trie → List ℕ → Bool
does_set_match_tags hit failfast ff_tags trie trie_special tags_plain =
    if any_hit hit ff_tags
    then false
    else if match_plain hit failfast trie tags_plain
    then true
    else match_trie hit failfast trie_special
