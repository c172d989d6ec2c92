-- ===== src/Binary/Grammars.antt =====
-- A whole binary grammar: `BinaryGrammar::writeBinaryGrammar` of src/BinaryGrammar_write.cpp and `BinaryGrammar::parse_grammar` of
-- src/BinaryGrammar_read.cpp. Sets and maps of the grammar are lists in the order in which they are gone through. The contextual
-- tests of a grammar that is written are given apart, as they point to each other; those of one that has been read are listed in the
-- order of reading.
pub mod RoundTrip
pub mod Stored
pub mod Extends
pub mod Accepted
pub mod Truncated
use mathlib.Core.Option
use vislcg.Base.{
  ltb, leb, ◌==◌, if◌then◌else◌, ltb→lt, ltb→le, leb→le, leb→lt, ==_iff, Bool-cases, Option-cases,
  if_elim, length, rejoin, length-append, ℕ, zero, suc, ◌+◌, ◌-◌, ◌*◌, ◌/◌, ◌%◌, ◌^◌, ◌≤◌, ◌<◌, min,
  max, ◌≡◌, refl, sym, ap, ◌∙◌, ◌≢◌, ◌↔◌, ◌⊎◌, inl, inr, Bool, true, false, not, ◌&&◌, ◌||◌, Option,
  none, some, List, [], ◌∷◌, ◌++◌, map, arith, word,
}
use vislcg.Binary.{
  Bytes, Text, Reader, Writer, after, ◌>>=◌, ◌>>◌, pure, fail, guard, put8, put32, put64, read8,
  read32, read64, read_bytes, read_times, put_each, put_vector, read_vector, All, Restores,
  then_lem, read32-put32, read8-put8, read64-put64, read_bytes-append, read_times-put_each,
  read_vector-put_vector,
}
use vislcg.Binary.Fields.{
  Double, Platform, Converts, nonzero, nonempty, is_some, mask, bit, flag, put_if, put_some,
  put_all, field, put_text, read_text, bit-mask, mask-lt, field-put_if, field-nonzero,
  read_text-put_text, field-text, field-put_some, read_some, put_double, read_double,
  read_double-put_double, IsVector, field-put_some_vector, field-vector_of, field-vector,
}
use vislcg.Binary.Tags.{
  Regexp, Tag, t_grammar, t_case_insensitive, tag_flags, write_tag, read_old_value, read_regexp,
  read_name, push_name, read_names, read_vs_names, read_tag_fields, read_tag, IsName, IsRegexp,
  IsTag,
}
use vislcg.Binary.Sets.{
  TagTable, Set, st_static, trie_nonempty, has_tags, bool_byte, trie_serialize, trie_unserialize,
  put_trie, read_trie, set_flags, put_tries, write_set, BothTries, read_tries, read_set_fields,
  read_set,
}
use vislcg.Binary.Contexts.{
  ContextualTest, pos_64bit, test_flags, put_pos, put_test, read_pos, read_hash, read_test_fields,
  read_contextual_test, Context, Contexts, Written, seen_count, and_then, finish_test,
  write_context, write_contexts, unwritten, count_contexts, read_counted_contexts, all_bound,
  hashes,
}
use vislcg.Binary.Rules.{
  ℤ, Rule, add_contextual_test, reverse, reverse_contextual_tests, is_nonzero, sub_word, negative,
  word_sub, rule_flags, hash_or_zero, write_rule, read_reference, read_sub_reading, hash_of,
  read_tests, read_counted_tests, read_rule_fields, read_rule, IsSub, IsRule,
}

pub record Pair : Type 0 where
  pub left : ℕ
  pub right : ℕ

pub record Grammar : Type 0 where
  pub has_dep : Bool
  pub mapping_prefix : ℕ
  pub sub_readings_ltr : Bool
  pub single_tags_list : List Tag
  pub reopen_mappings : List ℕ
  pub preferred_targets : List ℕ
  pub parentheses : List Pair
  pub parentheses_reverse : List Pair
  pub anchors : List Pair
  pub sets_list : List Set
  pub delimiters : Option ℕ
  pub soft_delimiters : Option ℕ
  pub contexts : List ContextualTest
  pub rule_by_number : List Rule
  pub has_relations : Bool
  pub has_bag_of_tags : Bool
  pub ordered : Bool

-- `CG3_FEATURE_REV`, `CG3_TOO_OLD`, and the last revision in the format of before.
abbrev pub feature_rev : ℕ
feature_rev = 13145

abbrev pub too_old : ℕ
too_old = 10373

abbrev pub last_old_format : ℕ
last_old_format = 10297

-- The `'@'` that a new grammar has.
abbrev pub default_prefix : ℕ
default_prefix = 64

-- The table of tags that `single_tags_list` is.
unfoldable pub number_of : List Tag → ℕ → ℕ
number_of [] hash = 0
number_of (t ∷ ts) hash = if t.hash == hash then t.number else number_of ts hash

unfoldable pub hash_at : List Tag → ℕ → ℕ
hash_at [] n = 0
hash_at (t ∷ ts) zero = t.hash
hash_at (t ∷ ts) (suc n) = hash_at ts n

unfoldable pub table_of : List Tag → TagTable
table_of ts = record { number_of = number_of ts; hash_at = hash_at ts }

unfoldable pub grammar_flags : ℕ → Grammar → List Bool
grammar_flags count g =
    g.has_dep
    ∷ nonzero g.mapping_prefix
    ∷ g.sub_readings_ltr
    ∷ nonempty g.single_tags_list
    ∷ nonempty g.reopen_mappings
    ∷ nonempty g.preferred_targets
    ∷ nonempty g.parentheses
    ∷ nonempty g.anchors
    ∷ nonempty g.sets_list
    ∷ is_some g.delimiters
    ∷ is_some g.soft_delimiters
    ∷ nonzero count
    ∷ nonempty g.rule_by_number
    ∷ g.has_relations
    ∷ g.has_bag_of_tags
    ∷ g.ordered
    ∷ []

unfoldable pub put_pair : Pair → Writer
put_pair p rest = put32 p.left (put32 p.right rest)

unfoldable pub put_magic : Writer
put_magic rest = 67 ∷ 71 ∷ 51 ∷ 66 ∷ rest

-- The tests, behind the size of `grammar->contexts`, in the order in which `writeContextualTest` comes to their ends.
unfoldable pub put_contexts : ℕ → List ContextualTest → Writer
put_contexts count tests rest = put_if (nonzero count) (put32 count) (put_each put_test tests rest)

-- The bytes of a grammar, with the size of `grammar->contexts` and the tests that are written.
unfoldable pub put_grammar : Platform → ℕ → List ContextualTest → Grammar → Writer
put_grammar pf count tests g = put_all (
    put_magic
    ∷ put32 feature_rev
    ∷ put32 (mask (grammar_flags count g))
    ∷ put_if (nonzero g.mapping_prefix) (put_text pf (g.mapping_prefix ∷ []))
    ∷ put_if (nonempty g.single_tags_list) (put_vector (write_tag pf) g.single_tags_list)
    ∷ put_if (nonempty g.reopen_mappings) (put_vector put32 g.reopen_mappings)
    ∷ put_if (nonempty g.preferred_targets) (put_vector put32 g.preferred_targets)
    ∷ put_if (nonempty g.parentheses) (put_vector put_pair g.parentheses)
    ∷ put_if (nonempty g.anchors) (put_vector put_pair g.anchors)
    ∷ put_if (nonempty g.sets_list)
        (put_vector (write_set pf (table_of g.single_tags_list)) g.sets_list)
    ∷ put_some put32 g.delimiters
    ∷ put_some put32 g.soft_delimiters
    ∷ put_contexts count tests
    ∷ put_if (nonempty g.rule_by_number) (put_vector (write_rule pf) g.rule_by_number)
    ∷ [])

-- `writeBinaryGrammar`, with `grammar->contexts`; `none` where a test without a hash ends the program.
unfoldable pub write_grammar : Platform → Grammar → Contexts → Option Writer
unfolding put_grammar write_contexts
write_grammar pf g contexts = elim (write_contexts contexts unwritten) [
  | none ↦ none
  | some w ↦ some (put_grammar pf (count_contexts contexts) (rejoin w.tests []) g)
]

unfoldable pub read_magic : Reader (Unit {0})
read_magic = do
  c ← read8
  g ← read8
  three ← read8
  b ← read8
  guard (c == 67 && g == 71 && three == 51 && b == 66)

unfoldable pub first_of : Text → ℕ
first_of [] = 0
first_of (c ∷ cs) = c

unfoldable pub read_prefix : Platform → Reader ℕ
read_prefix pf = do n ← read32; bs ← read_bytes n; pure (first_of (pf.decode bs))

unfoldable pub read_pair : Reader Pair
read_pair = do left ← read32; right ← read32; pure (record { left = left; right = right })

-- `list[number] = x` on a vector of that many slots; past its end the program's behaviour is not defined.
unfoldable pub set_slot : {A : Type 0} → ℕ → A → List (Option A) → Option (List (Option A))
set_slot n x [] = none
set_slot zero x (s ∷ ss) = some (some x ∷ ss)
set_slot (suc n) x (s ∷ ss) = Option.map (λ ss'. s ∷ ss') (set_slot n x ss)

unfoldable pub place : {A : Type 0} → (A → ℕ) → List A → List (Option A) → Option (List (Option A))
place number [] slots = some slots
place number (x ∷ xs) slots = elim (set_slot (number x) x slots) [
  | none ↦ none
  | some slots' ↦ place number xs slots'
]

unfoldable pub slots : {A : Type 0} → ℕ → List (Option A)
slots zero = []
slots (suc n) = none ∷ slots n

-- The vector, where no slot is left a null pointer.
unfoldable pub filled : {A : Type 0} → List (Option A) → Option (List A)
filled [] = some []
filled (none ∷ ss) = none
filled (some x ∷ ss) = Option.map (λ xs. x ∷ xs) (filled ss)

unfoldable pub from_slots : {A : Type 0} → Option (List (Option A)) → Reader (List A)
from_slots none s = none
from_slots (some ss) s = Option.map (λ xs. (xs, s)) (filled ss)

unfoldable pub read_numbered : {A : Type 0} → (A → ℕ) → Reader A → Reader (List A)
read_numbered number m = do n ← read32; xs ← read_times m n; from_slots (place number xs (slots n))

unfoldable pub swapped : List Pair → List Pair
swapped [] = []
swapped (p ∷ ps) = record { left = p.right; right = p.left } ∷ swapped ps

-- Where a template or an alternative is not there the program goes past the end of a map, whose outcome is not modelled.
unfoldable pub read_grammar_fields : Platform → (ℕ → Bool) → Reader Grammar
read_grammar_fields pf has = do
  mapping_prefix ← field (has 1) default_prefix (read_prefix pf)
  tags ← field (has 3) [] (read_numbered (λ (t : Tag). t.number) (read_tag pf))
  reopen_mappings ← field (has 4) [] (read_vector read32)
  preferred_targets ← field (has 5) [] (read_vector read32)
  parentheses ← field (has 6) [] (read_vector read_pair)
  anchors ← field (has 7) [] (read_vector read_pair)
  sets ← field (has 8) [] (read_numbered (λ (s : Set). s.number) (read_set pf (table_of tags)))
  delimiters ← field (has 9) none read_reference
  soft_delimiters ← field (has 10) none read_reference
  contexts ← field (has 11) [] read_counted_contexts
  rules ← field (has 12) [] (read_numbered (λ (r : Rule). r.number) (read_rule pf))
  guard (all_bound (hashes contexts) contexts)
  pure (record {
    has_dep = has 0;
    mapping_prefix = mapping_prefix;
    sub_readings_ltr = has 2;
    single_tags_list = tags;
    reopen_mappings = reopen_mappings;
    preferred_targets = preferred_targets;
    parentheses = parentheses;
    parentheses_reverse = swapped parentheses;
    anchors = anchors;
    sets_list = sets;
    delimiters = delimiters;
    soft_delimiters = soft_delimiters;
    contexts = contexts;
    rule_by_number = rules;
    has_relations = has 13;
    has_bag_of_tags = has 14;
    ordered = has 15;
  })

-- What `parse_grammar` does by the revision; `old` reads the format of before, which is not modelled.
unfoldable pub read_revision : Platform → Reader Grammar → ℕ → Reader Grammar
read_revision pf old revision =
    if leb revision last_old_format
    then old
    else if ltb revision too_old
    then fail
    else if ltb feature_rev revision
    then fail
    else do mask ← read32; read_grammar_fields pf (bit mask)

-- `parse_grammar`. The reader of the old format starts at the stream's first byte again.
unfoldable pub parse_grammar : Platform → Reader Grammar → Reader Grammar
parse_grammar pf old s =
    (do read_magic; revision ← read32; read_revision pf (λ rest. old s) revision) s
