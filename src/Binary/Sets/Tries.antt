-- ===== src/Binary/Sets/Tries.antt =====
-- A trie of a binary grammar is read back as it was written.
use vislcg.Base.{
  length, ℕ, zero, suc, ◌≤◌, ◌<◌, max, ◌≡◌, refl, sym, ap, ◌∙◌, Bool, true, false, some, arith,
  word,
}
use vislcg.Trie.{empty, entry, Trie, child_at, size}
use vislcg.Trie.Order.{
  IsSorted, join, Below, set_node-join, join-join, join-empty, Follows, Follows-next, first-Follows,
}
use vislcg.Binary.{Bytes, pure, put8, put32, read32, Restores, then_lem, read32-put32, read8-put8}
use vislcg.Binary.Fields.{nonzero}
use vislcg.Binary.Sets.{TagTable, bool_byte, trie_serialize, trie_unserialize, put_trie, read_trie}

-- The tags of a trie are the grammar's, each level of it is sorted, and its sizes fit a word.
abbrev pub IsWritable : TagTable → Trie → Type 0
IsWritable tags empty = Unit {0}
IsWritable tags (entry key terminal child rest) =
    (tags.number_of key < word)
    × (tags.hash_at (tags.number_of key) ≡ key)
    × (size child < word)
    × IsWritable tags child
    × IsWritable tags rest

abbrev pub depth : Trie → ℕ
depth empty = 0
depth (entry key terminal child rest) = max (suc (depth child)) (depth rest)

nonzero-bool_byte : (b : Bool) → nonzero (bool_byte b) ≡ b
unfolding nonzero bool_byte
nonzero-bool_byte true = refl
nonzero-bool_byte false = refl

child_at-Below : (k : ℕ) (trie : Trie) → Below trie k → child_at k trie ≡ empty
unfolding child_at
child_at-Below k empty b = refl
child_at-Below k (entry key t c rest) (l, b) = ground (arith, l, child_at-Below k rest b)

-- The nodes of a trie are put behind those read before.
unserialize_lem :
    (tags : TagTable) (fuel : ℕ) (trie done : Trie)
    → IsWritable tags trie
    → IsSorted trie
    → Follows done trie
    → depth trie ≤ fuel
    → Restores
        (trie_unserialize tags fuel (size trie) done)
        (trie_serialize tags trie)
        (join done trie)
unfolding trie_unserialize trie_serialize size pure
unserialize_lem tags fuel empty done w s f d rest = ap (λ x. some (x, rest)) (sym (join-empty done))
unserialize_lem tags zero (entry key t c later) done w s f d rest = absurd (omega (arith, d))
unserialize_lem tags (suc fuel) (entry key t c later) done (nl, nh, cs, wc, wr) (a, sc, sr) f d
      rest =
    then_lem _ _ (read32-put32 (tags.number_of key) nl _) (
      then_lem _ _ (read8-put8 (bool_byte t) (unfold bool_byte in ground arith) _) (
        then_lem _ _ (read32-put32 (size c) cs _) (
          rw (nh, child_at-Below key done f)
            (then_lem _ _
              (unserialize_lem tags fuel c empty wc sc (first-Follows c) (omega (arith, d)) _)
              (rw (nonzero-bool_byte t, set_node-join key t c done f)
                (unserialize_lem tags (suc fuel) later (join done (entry key t c empty)) wr sr
                    (Follows-next done later key t c f a) (omega (arith, d)) rest
                  ∙ ap (λ x. some (x, rest)) (join-join done (entry key t c empty) later)))))))

trie_serialize-grows :
    (tags : TagTable) (trie : Trie) (rest : Bytes)
    → length rest ≤ length (trie_serialize tags trie rest)
unfolding trie_serialize put32 put8
trie_serialize-grows tags empty rest = omega arith
trie_serialize-grows tags (entry key t c later) rest = omega (
  arith,
  trie_serialize-grows tags later rest,
  trie_serialize-grows tags c (trie_serialize tags later rest),
)

depth-le :
    (tags : TagTable) (trie : Trie) (rest : Bytes)
    → depth trie ≤ length (trie_serialize tags trie rest)
unfolding trie_serialize put32 put8
depth-le tags empty rest = omega arith
depth-le tags (entry key t c later) rest = omega (
  arith,
  depth-le tags c (trie_serialize tags later rest),
  depth-le tags later rest,
  trie_serialize-grows tags c (trie_serialize tags later rest),
)

depth-put_trie :
    (tags : TagTable) (trie : Trie) (rest : Bytes) → depth trie ≤ length (put_trie tags trie rest)
unfolding put_trie put32
depth-put_trie tags trie rest = omega (arith, depth-le tags trie rest)

count_lem :
    (tags : TagTable) (trie : Trie)
    → size trie < word
    → (rest : Bytes)
    → read32 (put_trie tags trie rest) ≡ some (size trie, trie_serialize tags trie rest)
unfolding put_trie
count_lem tags trie l rest = read32-put32 (size trie) l _

-- A sorted trie of the grammar's tags that has been serialized is read back, whatever its depth: the length of the stream is fuel
-- enough.
pub read_trie-put_trie :
    (tags : TagTable) (trie : Trie)
    → IsWritable tags trie
    → IsSorted trie
    → size trie < word
    → Restores (read_trie tags) (put_trie tags trie) trie
unfolding read_trie
read_trie-put_trie tags trie w s l rest = then_lem _ _ (count_lem tags trie l rest) (
    unserialize_lem tags _ trie empty w s (first-Follows trie) (depth-put_trie tags trie rest) rest)
