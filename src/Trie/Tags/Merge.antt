-- ===== src/Trie/Tags/Merge.antt =====
-- The merge of a reading's tags with the keys of a trie finds what a search of the trie finds.
use vislcg.Base.{
  ltb, ◌==◌, if◌then◌else◌, Bool-cases, length, ℕ, zero, suc, ◌+◌, ◌<◌, ◌≡◌, refl, sym, ◌∙◌, inl,
  inr, Bool, true, false, not, ◌&&◌, ◌||◌, List, [], ◌∷◌, arith,
}
use vislcg.Trie.{empty, entry, Trie, size, match_trie}
use vislcg.Trie.Order.{IsSorted}
use vislcg.Trie.Insert.{entry_lem}
use vislcg.Trie.Tags.{
  skip_tags, skip_nodes, merge, enough, match_plain, any_hit, does_set_match_tags,
}
use vislcg.Trie.Tags.Skips.{
  match_keys, still_none, skip_tags-Ascends, match_keys-skip_nodes, size-skip_nodes,
  length-skip_tags, skip_nodes-IsSorted, own_skip, match_keys_none, fewer_tags, fewer_nodes,
}
use vislcg.SortedVector.{Ascends, elem}

-- What both skips leave matches what there was.
skip_both :
    (hit failfast : ℕ → Bool) (trie : Trie) (tags : List ℕ)
    → IsSorted trie
    → Ascends 0 tags
    → match_keys hit failfast (skip_nodes (skip_tags trie tags) trie) (skip_tags trie tags)
      ≡ match_keys hit failfast trie tags
skip_both hit failfast trie tags s a =
    match_keys-skip_nodes hit failfast trie (skip_tags trie tags) (skip_tags trie tags) 0
      (skip_tags-Ascends 0 trie tags a) (λ k e. e)
    ∙ own_skip hit failfast trie tags s

-- A round in which the tag is not the key leaves fewer tags or nodes.
skips_one :
    (key : ℕ) (t : Bool) (c rest : Trie) (tag : ℕ) (tags : List ℕ)
    → (tag == key) ≡ false
    → size (skip_nodes (skip_tags (entry key t c rest) (tag ∷ tags)) (entry key t c rest))
        + length (skip_tags (entry key t c rest) (tag ∷ tags))
      < size (entry key t c rest) + length (tag ∷ tags)
skips_one key t c rest tag tags e = elim (Bool-cases (ltb tag key)) [
  | inl l ↦ fewer_tags key t c rest tag tags l
  | inr l ↦ fewer_nodes key t c rest tag tags l (ground (arith, e, l))
]

rest_fuel :
    (fuel key : ℕ) (t : Bool) (c rest : Trie) (tag : ℕ) (tags : List ℕ)
    → size (entry key t c rest) + length (tag ∷ tags) < suc fuel
    → size (skip_nodes (skip_tags rest (tag ∷ tags)) rest) + length (skip_tags rest (tag ∷ tags))
      < fuel
unfolding size
rest_fuel fuel key t c rest tag tags f = omega (
  arith,
  f,
  size-skip_nodes (skip_tags rest (tag ∷ tags)) rest,
  length-skip_tags rest (tag ∷ tags),
)

first_elem : (key tag : ℕ) (tags : List ℕ) → (tag == key) ≡ true → elem key (tag ∷ tags) ≡ true
first_elem key tag tags e = ground (arith, e)

or_if : (b m : Bool) → (if b then true else m) ≡ (b || m)
or_if true m = refl
or_if false m = refl

merge_lem :
    (hit failfast : ℕ → Bool) (fuel : ℕ) (trie : Trie) (tags : List ℕ)
    → IsSorted trie
    → Ascends 0 tags
    → size trie + length tags < fuel
    → merge hit failfast fuel trie tags ≡ match_keys hit failfast trie tags
unfolding merge
merge_lem hit failfast zero trie tags s a f = absurd (omega (arith, f))
merge_lem hit failfast (suc fuel) empty tags s a f = refl
merge_lem hit failfast (suc fuel) (entry key t c rest) [] s a f =
    sym (match_keys_none hit failfast (entry key t c rest))
merge_lem hit failfast (suc fuel) (entry key t c rest) (tag ∷ tags) s a f =
    elim (Bool-cases (tag == key)) [
      | inl e ↦
          rw
            (
              e,
              merge_lem hit failfast fuel (skip_nodes (skip_tags rest (tag ∷ tags)) rest)
                  (skip_tags rest (tag ∷ tags)) (skip_nodes-IsSorted _ rest s.2)
                  (skip_tags-Ascends 0 rest (tag ∷ tags) a)
                  (rest_fuel fuel key t c rest tag tags f),
              skip_both hit failfast rest (tag ∷ tags) s.2 a,
              first_elem key tag tags e,
            )
            (or_if (t || match_trie hit failfast c) _)
      | inr e ↦
          rw
            (
              e,
              merge_lem hit failfast fuel
                  (skip_nodes (skip_tags (entry key t c rest) (tag ∷ tags)) (entry key t c rest))
                  (skip_tags (entry key t c rest) (tag ∷ tags))
                  (skip_nodes-IsSorted (skip_tags (entry key t c rest) (tag ∷ tags))
                    (entry key t c rest) s)
                  (skip_tags-Ascends 0 (entry key t c rest) (tag ∷ tags) a)
                  (omega (arith, f, skips_one key t c rest tag tags e)),
            )
            (skip_both hit failfast (entry key t c rest) (tag ∷ tags) s a)
    ]

-- The first level of a trie, whose tags match a reading where they are among its plain tags.
abbrev pub IsPlain : (ℕ → Bool) → (ℕ → Bool) → List ℕ → Trie → Type 0
IsPlain hit failfast tags empty = Unit {0}
IsPlain hit failfast tags (entry key terminal child rest) =
    (hit key ≡ elem key tags) × (failfast key ≡ false) × IsPlain hit failfast tags rest

plain_keys :
    (hit failfast : ℕ → Bool) (tags : List ℕ) (trie : Trie)
    → IsPlain hit failfast tags trie
    → match_keys hit failfast trie tags ≡ match_trie hit failfast trie
plain_keys hit failfast tags empty p = unfold match_trie in refl
plain_keys hit failfast tags (entry key t c rest) (h, f, p) =
    rw (entry_lem hit failfast key t c rest, h, f, plain_keys hit failfast tags rest p) refl

by_stages : (f m n : Bool) → (if f then false else if m then true else n) ≡ (not f && (m || n))
by_stages true m n = refl
by_stages false true n = refl
by_stages false false n = refl

match_plain_lem :
    (hit failfast : ℕ → Bool) (trie : Trie) (tags : List ℕ)
    → IsSorted trie
    → Ascends 0 tags
    → match_plain hit failfast trie tags ≡ match_keys hit failfast trie tags
unfolding match_plain enough
match_plain_lem hit failfast trie tags s a =
    merge_lem hit failfast _ (skip_nodes tags trie) (skip_tags trie tags)
      (skip_nodes-IsSorted tags trie s) (skip_tags-Ascends 0 trie tags a)
      (omega (arith, size-skip_nodes tags trie, length-skip_tags trie tags))
    ∙ (match_keys-skip_nodes hit failfast trie tags (skip_tags trie tags) 0 a
          (λ k e. still_none k trie tags e)
        ∙ own_skip hit failfast trie tags s)

-- A LIST matches a reading where none of its fail-fast tags does, and one of its two tries matches. The reading's plain tags and the
-- tries are in order, and the keys of the first trie are plain tags, which match where the reading has them.
pub does_set_match_tags_lem :
    (hit failfast : ℕ → Bool) (ff_tags : List ℕ) (trie trie_special : Trie) (tags_plain : List ℕ)
    → IsSorted trie
    → Ascends 0 tags_plain
    → IsPlain hit failfast tags_plain trie
    → does_set_match_tags hit failfast ff_tags trie trie_special tags_plain ≡ (
        not (any_hit hit ff_tags)
        && (match_trie hit failfast trie || match_trie hit failfast trie_special))
unfolding does_set_match_tags
does_set_match_tags_lem hit failfast ff_tags trie trie_special tags_plain s a p =
    rw (match_plain_lem hit failfast trie tags_plain s a, plain_keys hit failfast tags_plain trie p)
      (by_stages (any_hit hit ff_tags) (match_trie hit failfast trie)
        (match_trie hit failfast trie_special))
