-- ===== src/Trie/Tags/Skips.antt =====
-- What the two inner loops of the merge skip: tags and nodes that have no partner.
use vislcg.Base.{
  ltb, ltb→lt, Bool-cases, if_elim, length, ℕ, ◌+◌, ◌≤◌, ◌<◌, ◌≡◌, refl, inl, inr, Bool, true,
  false, ◌&&◌, ◌||◌, List, [], ◌∷◌, arith,
}
use vislcg.Trie.{empty, entry, Trie, size, match_trie}
use vislcg.Trie.Order.{Above, IsSorted}
use vislcg.Trie.Tags.{skip_tags, skip_nodes}
use vislcg.SortedVector.{Ascends, Ascends-weaken, elem, elem_below}

-- What the trie matches when its own keys are looked up among the tags.
abbrev pub match_keys : (ℕ → Bool) → (ℕ → Bool) → Trie → List ℕ → Bool
match_keys hit failfast empty tags = false
match_keys hit failfast (entry key terminal child rest) tags =
    (elem key tags && (terminal || match_trie hit failfast child))
    || match_keys hit failfast rest tags

-- Every key is at least the number.
abbrev pub KeysFrom : ℕ → Trie → Type 0
KeysFrom lo empty = Unit {0}
KeysFrom lo (entry key terminal child rest) = (lo ≤ key) × KeysFrom lo rest

KeysFrom-trans : (lo lo' : ℕ) (trie : Trie) → KeysFrom lo' trie → lo ≤ lo' → KeysFrom lo trie
KeysFrom-trans lo lo' empty k h = tt
KeysFrom-trans lo lo' (entry key t c rest) (l, k) h =
    (omega (arith, l, h), KeysFrom-trans lo lo' rest k h)

sorted_keys : (lo : ℕ) (trie : Trie) → Above lo trie → IsSorted trie → KeysFrom lo trie
sorted_keys lo empty a s = tt
sorted_keys lo (entry key t c rest) a (ar, sc, sr) =
    (omega (arith, a), KeysFrom-trans lo key rest (sorted_keys key rest ar sr) (omega (arith, a)))

-- The keys from the first one on.
own_keys :
    (key : ℕ) (t : Bool) (c rest : Trie)
    → IsSorted (entry key t c rest)
    → KeysFrom key (entry key t c rest)
own_keys key t c rest (a, sc, sr) = (omega arith, sorted_keys key rest a sr)

elem-skip_tags :
    (k key : ℕ) (t : Bool) (c rest : Trie) (tags : List ℕ)
    → key ≤ k
    → elem k (skip_tags (entry key t c rest) tags) ≡ elem k tags
unfolding skip_tags
elem-skip_tags k key t c rest [] h = refl
elem-skip_tags k key t c rest (tag ∷ tags) h =
    ground (arith, h, elem-skip_tags k key t c rest tags h)

pub still_none :
    (k : ℕ) (trie : Trie) (tags : List ℕ)
    → elem k tags ≡ false
    → elem k (skip_tags trie tags) ≡ false
unfolding skip_tags
still_none k empty tags e = e
still_none k (entry key t c rest) [] e = refl
still_none k (entry key t c rest) (tag ∷ tags) e =
    ground (arith, e, still_none k (entry key t c rest) tags)

match_keys-skip_tags :
    (hit failfast : ℕ → Bool) (key : ℕ) (t : Bool) (c rest trie : Trie) (tags : List ℕ)
    → KeysFrom key trie
    → match_keys hit failfast trie (skip_tags (entry key t c rest) tags)
      ≡ match_keys hit failfast trie tags
match_keys-skip_tags hit failfast key t c rest empty tags k = refl
match_keys-skip_tags hit failfast key t c rest (entry key' t' c' rest') tags (l, k) =
    rw
      (
        elem-skip_tags key' key t c rest tags l,
        match_keys-skip_tags hit failfast key t c rest rest' tags k,
      )
      refl

pub skip_tags-Ascends :
    (lo : ℕ) (trie : Trie) (tags : List ℕ) → Ascends lo tags → Ascends lo (skip_tags trie tags)
unfolding skip_tags
skip_tags-Ascends lo empty tags a = a
skip_tags-Ascends lo (entry key t c rest) [] a = tt
skip_tags-Ascends lo (entry key t c rest) (tag ∷ tags) (l, a) =
    if_elim (λ (ts : List ℕ). Ascends lo ts) (ltb tag key) (skip_tags (entry key t c rest) tags)
      (tag ∷ tags)
      (λ e.
        skip_tags-Ascends lo (entry key t c rest) tags
          (Ascends-weaken (tag + 1) lo tags (omega (arith, l)) a))
      (λ e. (l, a))

-- The nodes skipped are for no tag from `tag` on.
pub match_keys-skip_nodes :
    (hit failfast : ℕ → Bool) (trie : Trie) (tags later : List ℕ) (lo : ℕ)
    → Ascends lo tags
    → ((k : ℕ) → elem k tags ≡ false → elem k later ≡ false)
    → match_keys hit failfast (skip_nodes tags trie) later ≡ match_keys hit failfast trie later
unfolding skip_nodes
match_keys-skip_nodes hit failfast trie [] later lo a s = refl
match_keys-skip_nodes hit failfast empty (tag ∷ tags) later lo a s = refl
match_keys-skip_nodes hit failfast (entry key t c rest) (tag ∷ tags) later lo (l, a) s =
    elim (Bool-cases (ltb key tag)) [
      | inl e ↦
          rw
            (
              e,
              match_keys-skip_nodes hit failfast rest (tag ∷ tags) later lo (l, a) s,
              s key (elem_below key tag (tag ∷ tags) (omega arith, a) (ltb→lt key tag e)),
            )
            refl
      | inr e ↦ rw (e) refl
    ]

pub size-skip_nodes : (tags : List ℕ) (trie : Trie) → size (skip_nodes tags trie) ≤ size trie
unfolding skip_nodes size
size-skip_nodes [] trie = omega arith
size-skip_nodes (tag ∷ tags) empty = omega arith
size-skip_nodes (tag ∷ tags) (entry key t c rest) =
    ground (arith, size-skip_nodes (tag ∷ tags) rest)

pub length-skip_tags : (trie : Trie) (tags : List ℕ) → length (skip_tags trie tags) ≤ length tags
unfolding skip_tags
length-skip_tags empty tags = omega arith
length-skip_tags (entry key t c rest) [] = omega arith
length-skip_tags (entry key t c rest) (tag ∷ tags) =
    ground (arith, length-skip_tags (entry key t c rest) tags)

pub skip_nodes-IsSorted :
    (tags : List ℕ) (trie : Trie) → IsSorted trie → IsSorted (skip_nodes tags trie)
unfolding skip_nodes
skip_nodes-IsSorted [] trie s = s
skip_nodes-IsSorted (tag ∷ tags) empty s = s
skip_nodes-IsSorted (tag ∷ tags) (entry key t c rest) (a, sc, sr) =
    if_elim (λ (trie : Trie). IsSorted trie) (ltb key tag) (skip_nodes (tag ∷ tags) rest)
      (entry key t c rest) (λ e. skip_nodes-IsSorted (tag ∷ tags) rest sr) (λ e. (a, sc, sr))

pub own_skip :
    (hit failfast : ℕ → Bool) (trie : Trie) (tags : List ℕ)
    → IsSorted trie
    → match_keys hit failfast trie (skip_tags trie tags) ≡ match_keys hit failfast trie tags
own_skip hit failfast empty tags s = refl
own_skip hit failfast (entry key t c rest) tags s =
    match_keys-skip_tags hit failfast key t c rest (entry key t c rest) tags
      (own_keys key t c rest s)

pub match_keys_none :
    (hit failfast : ℕ → Bool) (trie : Trie) → match_keys hit failfast trie [] ≡ false
match_keys_none hit failfast empty = refl
match_keys_none hit failfast (entry key t c rest) = match_keys_none hit failfast rest

pub fewer_tags :
    (key : ℕ) (t : Bool) (c rest : Trie) (tag : ℕ) (tags : List ℕ)
    → ltb tag key ≡ true
    → size (skip_nodes (skip_tags (entry key t c rest) (tag ∷ tags)) (entry key t c rest))
        + length (skip_tags (entry key t c rest) (tag ∷ tags))
      < size (entry key t c rest) + length (tag ∷ tags)
unfolding skip_tags
fewer_tags key t c rest tag tags l = rw (l) (
    omega (
      arith,
      size-skip_nodes (skip_tags (entry key t c rest) tags) (entry key t c rest),
      length-skip_tags (entry key t c rest) tags,
    ))

pub fewer_nodes :
    (key : ℕ) (t : Bool) (c rest : Trie) (tag : ℕ) (tags : List ℕ)
    → ltb tag key ≡ false
    → ltb key tag ≡ true
    → size (skip_nodes (skip_tags (entry key t c rest) (tag ∷ tags)) (entry key t c rest))
        + length (skip_tags (entry key t c rest) (tag ∷ tags))
      < size (entry key t c rest) + length (tag ∷ tags)
unfolding skip_tags skip_nodes size
fewer_nodes key t c rest tag tags l m = rw (l, m) (omega (arith, size-skip_nodes (tag ∷ tags) rest))
