-- ===== src/Trie.antt =====
-- The tries of tags in which a LIST keeps its composite tags: `trie_t` of src/TagTrie.hpp, a map from tags in the order of their
-- hashes to nodes, and `doesSetMatchReading_trie` of src/GrammarApplicator_matchSet.cpp. A tag is known by its hash. A child that is
-- a null pointer and one that is an empty map are one: no operation here tells them apart.
pub mod Order
pub mod Insert
pub mod Tags
use vislcg.Base.{
  ltb, leb, ◌==◌, if◌then◌else◌, ltb→lt, ltb→le, leb→le, leb→lt, ==_iff, Bool-cases, Option-cases,
  if_elim, length, rejoin, length-append, ℕ, zero, suc, ◌+◌, ◌-◌, ◌*◌, ◌/◌, ◌%◌, ◌^◌, ◌≤◌, ◌<◌, min,
  max, ◌≡◌, refl, sym, ap, ◌∙◌, ◌≢◌, ◌↔◌, ◌⊎◌, inl, inr, Bool, true, false, not, ◌&&◌, ◌||◌, Option,
  none, some, List, [], ◌∷◌, ◌++◌, map, arith, word,
}

pub data Trie : Type 0 where
  empty : Trie
  entry : ℕ → Bool → Trie → Trie → Trie

-- The node of a key as `trie[key]` finds it, one that is made new included: not terminal and with no child.
unfoldable pub terminal_at : ℕ → Trie → Bool
terminal_at k empty = false
terminal_at k (entry key terminal child rest) =
    let later = terminal_at k rest in
    if ltb key k then later else if ltb k key then false else terminal

unfoldable pub child_at : ℕ → Trie → Trie
child_at k empty = empty
child_at k (entry key terminal child rest) =
    let later = child_at k rest in if ltb key k then later else if ltb k key then empty else child

-- `trie[k]` with both fields of the node assigned.
unfoldable pub set_node : ℕ → Bool → Trie → Trie → Trie
set_node k t c empty = entry k t c empty
set_node k t c (entry key terminal child rest) =
    let later = set_node k t c rest in
    if ltb key k
    then entry key terminal child later
    else if ltb k key
    then entry k t c (entry key terminal child rest)
    else entry key t c rest

-- `trie_insert` of the vector that has the tags `tag ∷ tags` left, with what it returns. A terminal node on the way stops it, and
-- the last node loses its children.
unfoldable pub trie_insert : ℕ → List ℕ → Trie → Bool × Trie
trie_insert tag [] trie =
    if terminal_at tag trie then (false, trie) else (true, set_node tag true empty trie)
trie_insert tag (tag' ∷ tags) trie =
    let below = trie_insert tag' tags (child_at tag trie) in
    if terminal_at tag trie then (false, trie) else (below.0, set_node tag false below.1 trie)

-- `trie_copy` and its helper, on what has been copied so far.
unfoldable pub copy_onto : Trie → Trie → Trie
copy_onto nt empty = nt
copy_onto nt (entry key terminal child rest) =
    copy_onto (set_node key terminal (copy_onto empty child) nt) rest

unfoldable pub trie_copy : Trie → Trie
trie_copy trie = copy_onto empty trie

unfoldable pub size : Trie → ℕ
size empty = 0
size (entry key terminal child rest) = suc (size rest)

unfoldable pub trie_singular : Trie → Bool
trie_singular empty = false
trie_singular (entry key terminal child empty) = terminal || trie_singular child
trie_singular (entry key terminal child (entry key' terminal' child' rest)) = false

-- `trie_hasType`, where `typed` says of a tag whether it has the type.
unfoldable pub has_type : (ℕ → Bool) → Trie → Bool
has_type typed empty = false
has_type typed (entry key terminal child rest) =
    let below = has_type typed child in
    let later = has_type typed rest in if typed key then true else if below then true else later

-- `trie_getTagList` behind the tags it has pushed before.
unfoldable pub tag_list : Trie → List ℕ → List ℕ
tag_list empty tags = tags
tag_list (entry key terminal child rest) tags = tag_list rest (tag_list child (tags ++ key ∷ []))

-- `doesSetMatchReading_trie` outside unification, where `hit` says whether a tag matches the reading and `failfast` whether it has
-- `T_FAILFAST`.
unfoldable pub match_trie : (ℕ → Bool) → (ℕ → Bool) → Trie → Bool
match_trie hit failfast empty = false
match_trie hit failfast (entry key terminal child rest) =
    let below = match_trie hit failfast child in
    let later = match_trie hit failfast rest in
    if hit key
    then if failfast key then later else if terminal then true else if below then true else later
    else later
