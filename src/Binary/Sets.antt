-- ===== src/Binary/Sets.antt =====
-- The sets of a binary grammar: the loop over `sets_list` of `BinaryGrammar::writeBinaryGrammar` in src/BinaryGrammar_write.cpp, the
-- one of `BinaryGrammar::parse_grammar` in src/BinaryGrammar_read.cpp that reads them, `trie_serialize` of src/TagTrie.hpp and
-- `_trie_unserialize` of src/Grammar.hpp.
pub mod Tries
pub mod RoundTrip
use vislcg.Base.{
  ltb, leb, ◌==◌, if◌then◌else◌, ltb→lt, ltb→le, leb→le, leb→lt, ==_iff, Bool-cases, Option-cases,
  if_elim, length, rejoin, length-append, ℕ, zero, suc, ◌+◌, ◌-◌, ◌*◌, ◌/◌, ◌%◌, ◌^◌, ◌≤◌, ◌<◌, min,
  max, ◌≡◌, refl, sym, ap, ◌∙◌, ◌≢◌, ◌↔◌, ◌⊎◌, inl, inr, Bool, true, false, not, ◌&&◌, ◌||◌, Option,
  none, some, List, [], ◌∷◌, ◌++◌, map, arith, word,
}
use vislcg.Trie.{
  empty, entry, Trie, terminal_at, child_at, set_node, trie_insert, copy_onto, trie_copy, size,
  trie_singular, has_type, tag_list, match_trie,
}
use vislcg.Binary.{
  Bytes, Text, Reader, Writer, after, ◌>>=◌, ◌>>◌, pure, fail, guard, put8, put32, put64, read8,
  read32, read64, read_bytes, read_times, put_each, put_vector, read_vector, All, Restores,
  then_lem, read32-put32, read8-put8, read64-put64, read_bytes-append, read_times-put_each,
  read_vector-put_vector,
}
use vislcg.Binary.Fields.{
  Double, Platform, Converts, nonzero, nonempty, is_some, mask, bit, flag, put_if, put_some,
  put_all, field, put_text, read_text, bit-mask, mask-lt, field-put_if, field-nonzero,
  read_text-put_text, field-text, field-put_some, read_some, put_double, read_double,
  read_double-put_double, IsVector, field-put_some_vector,
}

-- The tags of the grammar: the number of the tag of a hash, and the hash of `single_tags_list[number]`.
pub record TagTable : Type 0 where
  pub number_of : ℕ → ℕ
  pub hash_at : ℕ → ℕ

pub record Set : Type 0 where
  pub number : ℕ
  pub type : ℕ
  pub trie : Trie
  pub trie_special : Trie
  pub set_ops : List ℕ
  pub sets : List ℕ
  pub name : Text

-- The number of the bit `ST_STATIC`.
abbrev pub st_static : ℕ
st_static = 7

unfoldable pub trie_nonempty : Trie → Bool
trie_nonempty trie = nonzero (size trie)

-- `getNonEmpty().empty()`, denied.
unfoldable pub has_tags : Set → Bool
has_tags s = if trie_nonempty s.trie then true else trie_nonempty s.trie_special

unfoldable pub bool_byte : Bool → ℕ
bool_byte b = if b then 1 else 0

-- `trie_serialize`.
unfoldable pub trie_serialize : TagTable → Trie → Writer
trie_serialize tags empty rest = rest
trie_serialize tags (entry key terminal child later) rest = put32 (tags.number_of key) (
    put8 (bool_byte terminal)
      (put32 (size child) (trie_serialize tags child (trie_serialize tags later rest))))

-- `_trie_unserialize` of the nodes that are left, into the trie read so far. The fuel bounds the depth.
unfoldable pub trie_unserialize : TagTable → ℕ → ℕ → Trie → Reader Trie
trie_unserialize tags fuel zero trie = pure trie
trie_unserialize tags zero (suc n) trie = fail
trie_unserialize tags (suc fuel) (suc n) trie = do
  number ← read32
  terminal ← read8
  count ← read32
  child ← trie_unserialize tags fuel count (child_at (tags.hash_at number) trie)
  trie_unserialize tags (suc fuel) n (set_node (tags.hash_at number) (nonzero terminal) child trie)

unfoldable pub put_trie : TagTable → Trie → Writer
put_trie tags trie rest = put32 (size trie) (trie_serialize tags trie rest)

-- No trie is deeper than the stream is long.
unfoldable pub read_trie : TagTable → Reader Trie
read_trie tags s = (do count ← read32; trie_unserialize tags (length s) count empty) s

unfoldable pub set_flags : Set → List Bool
set_flags s =
    nonzero s.number
    ∷ false
    ∷ nonzero s.type
    ∷ has_tags s
    ∷ nonempty s.set_ops
    ∷ nonempty s.sets
    ∷ bit s.type st_static
    ∷ []

unfoldable pub put_tries : TagTable → Set → Writer
put_tries tags s rest = put_trie tags s.trie (put_trie tags s.trie_special rest)

unfoldable pub write_set : Platform → TagTable → Set → Writer
write_set pf tags s = put_all (
    put32 (mask (set_flags s))
    ∷ put_if (nonzero s.number) (put32 s.number)
    ∷ put_if (nonzero s.type) (put8 s.type)
    ∷ put_if (has_tags s) (put_tries tags s)
    ∷ put_if (nonempty s.set_ops) (put_vector put32 s.set_ops)
    ∷ put_if (nonempty s.sets) (put_vector put32 s.sets)
    ∷ put_if (bit s.type st_static) (put_text pf s.name)
    ∷ [])

pub record BothTries : Type 0 where
  pub trie : Trie
  pub trie_special : Trie

unfoldable pub read_tries : TagTable → Reader BothTries
read_tries tags = do
  trie ← read_trie tags
  trie_special ← read_trie tags
  pure (record { trie = trie; trie_special = trie_special })

unfoldable pub read_set_fields : Platform → TagTable → (ℕ → Bool) → Reader Set
read_set_fields pf tags has = do
  number ← field (has 0) 0 read32
  type ← field (has 2) 0 read8
  tries ← field (has 3) (record { trie = empty; trie_special = empty }) (read_tries tags)
  set_ops ← field (has 4) [] (read_vector read32)
  sets ← field (has 5) [] (read_vector read32)
  name ← field (has 6) [] (read_text pf [])
  pure (record {
    number = number;
    type = type;
    trie = tries.trie;
    trie_special = tries.trie_special;
    set_ops = set_ops;
    sets = sets;
    name = name;
  })

unfoldable pub read_set : Platform → TagTable → Reader Set
read_set pf tags = do mask ← read32; read_set_fields pf tags (bit mask)
