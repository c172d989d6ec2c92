-- ===== src/Examples/Grammars.antt =====
-- Binary grammars.
use mathlib.Core.Path.{subst}
use vislcg.Base.{
  ◌==◌, length, ℕ, zero, suc, ◌+◌, ◌^◌, ◌<◌, ◌≡◌, refl, ap, ◌≢◌, true, false, none, some, [], ◌∷◌,
  ◌++◌, arith, word,
}
use vislcg.Trie.{empty, entry, size}
use vislcg.Binary.{Restores, Bytes, Writer, Text, fail, put32, put64, put_each, put_vector}
use vislcg.Binary.Fields.{
  Platform, Converts, nonzero, nonempty, bit, put_if, put_some, put_all, put_text, put_double,
  IsVector,
}
use vislcg.Binary.Tags.{Tag, write_tag, IsName, IsRegexp, IsTag}
use vislcg.Binary.Sets.{Set, write_set}
use vislcg.Binary.Sets.RoundTrip.{IsWrittenSet}
use vislcg.Binary.Contexts.{
  hashes, context, no_more, also, finish_test, and_then, seen_count, count_contexts, write_contexts,
  Contexts, ContextualTest, put_test, Contexts, Written, write_contexts,
}
use vislcg.Binary.Contexts.Order.{
  AllIn, IsOrdered, roots, Avoids, IsContext, IsEachContext, write_contexts-IsOrdered,
}
use vislcg.Binary.Contexts.RoundTrip.{IsTest}
use vislcg.Binary.Rules.{negsuc, Rule, write_rule, IsRule}
use vislcg.Binary.Grammars.{
  Grammar, number_of, hash_at, table_of, put_magic, put_grammar, put_contexts, write_grammar,
  swapped, parse_grammar,
}
use vislcg.Binary.Grammars.RoundTrip.{IsGrammar, parse_grammar-put_grammar}
use vislcg.Binary.Grammars.Stored.{
  IsWritable, stored, stored_set, written_tests, written_tests-IsBound, write_grammar-stored,
  write_grammar-no_hash,
}
use vislcg.Binary.Grammars.Truncated.{parse_grammar-truncated}
use vislcg.Binary.Grammars.Accepted.{IsAccepted, parse_grammar-IsAccepted}

-- A conversion that leaves bytes as they are, and takes every pattern.
abbrev plain : Platform
plain = record {
  encode = λ s. s;
  decode = λ s. s;
  compiles = λ icase s. true;
  of_int32 = λ n. record { mant64 = 0; exp32 = 0 };
}

abbrev noun : Tag
noun = record {
  number = 0;
  hash = 77;
  plain_hash = 77;
  seed = 0;
  type = 2 ^ 22;
  comparison_hash = 0;
  comparison_op = 0;
  comparison_val = record { mant64 = 5; exp32 = 2 };
  tag = 78 ∷ 79 ∷ [];
  regexp = some (record { pattern = 78 ∷ []; icase = false });
  vs_sets = some (0 ∷ []);
  vs_names = some ((65 ∷ []) ∷ []);
}

abbrev nouns : Set
nouns = record {
  number = 0;
  type = 128;
  trie = entry 77 true empty empty;
  trie_special = empty;
  set_ops = [];
  sets = 0 ∷ [];
  name = 83 ∷ [];
}

abbrev one_left : ContextualTest
one_left = record {
  hash = 9;
  pos = 2 ^ 32 + 2 ^ 31;
  offset = 1;
  tmpl = none;
  target = 0;
  line = 4;
  relation = 0;
  barrier = 0;
  cbarrier = 0;
  offset_sub = 0;
  ors = [];
  linked = none;
}

abbrev two_left : ContextualTest
two_left = record one_left { hash = 12; linked = some 9 }

abbrev removes : Rule
removes = record {
  section = 1;
  type = 3;
  line = 4;
  flags = 0;
  name = [];
  target = 0;
  wordform = some 0;
  varname = 0;
  varvalue = 0;
  sub_reading = negsuc 0;
  childset1 = 0;
  childset2 = 0;
  maplist = none;
  sublist = none;
  number = 0;
  dep_target = none;
  dep_tests = [];
  tests = 12 ∷ 9 ∷ [];
}

abbrev small : Grammar
small = record {
  has_dep = true;
  mapping_prefix = 36;
  sub_readings_ltr = false;
  single_tags_list = noun ∷ [];
  reopen_mappings = 77 ∷ [];
  preferred_targets = [];
  parentheses = record { left = 77; right = 77 } ∷ [];
  parentheses_reverse = record { left = 77; right = 77 } ∷ [];
  anchors = [];
  sets_list = nouns ∷ [];
  delimiters = some 0;
  soft_delimiters = none;
  contexts = one_left ∷ two_left ∷ [];
  rule_by_number = removes ∷ [];
  has_relations = false;
  has_bag_of_tags = true;
  ordered = false;
}

not_nil : (s : Text) → s ≢ [] → (length s == 0) ≡ false
not_nil [] n = absurd (n refl)
not_nil (x ∷ s) n = ground arith

some_inj {ℓ} : {A : Type ℓ} {x y : A} → some x ≡ some y → x ≡ y
some_inj e = cc

converts : (s : Text) → length s < 8192 → Converts plain s
converts s l = record { decode_encode = refl; fits = l; has_bytes = λ n. not_nil s n }

noun-IsRegexp : IsRegexp plain false (record { pattern = 78 ∷ []; icase = false })
noun-IsRegexp = record {
  converts = converts (78 ∷ []) (omega arith);
  is_nonempty = λ e. cc;
  is_compiled = refl;
  same_case = refl;
}

noun-IsTag : IsTag plain noun
unfolding bit
noun-IsTag = record {
  number = omega arith;
  hash = omega arith;
  plain_hash = omega arith;
  seed = omega arith;
  type = omega arith;
  type_nonzero = omega arith;
  comparison_hash = omega arith;
  comparison_op = omega arith;
  mant64 = omega arith;
  exp32 = omega arith;
  zero_exp32 = λ e. omega (arith, e);
  tag = converts (78 ∷ 79 ∷ []) (omega arith);
  regexp = λ r e. subst (IsRegexp plain false) (some_inj e) noun-IsRegexp;
  vs_sets = λ ns e.
      subst (IsVector (λ (n : ℕ). n < word)) (some_inj e)
        (record { all = (omega arith, tt); short = omega arith });
  vs_names = λ ns e. subst (IsVector (IsName plain)) (some_inj e) (record {
    all = (record { converts = converts (65 ∷ []) (omega arith); is_nonempty = λ e. cc }, tt);
    short = omega arith;
  });
}

nouns-IsWrittenSet : IsWrittenSet plain (table_of (noun ∷ [])) nouns
unfolding bit table_of number_of hash_at size
nouns-IsWrittenSet = record {
  number = omega arith;
  type = omega arith;
  trie = record {
    writable = (omega arith, refl, omega arith, tt, tt);
    sorted = (tt, tt, tt);
    short = omega arith;
  };
  trie_special = record { writable = tt; sorted = tt; short = omega arith };
  set_ops = record { all = tt; short = omega arith };
  sets = record { all = (omega arith, tt); short = omega arith };
  name = converts (83 ∷ []) (omega arith);
  static_name = λ e f. cc;
  other_name = λ e. cc;
}

one_left-IsTest : IsTest one_left
unfolding bit
one_left-IsTest = record {
  hash = omega arith;
  pos = record { fits = omega arith; high = λ e. cc };
  offset = omega arith;
  tmpl = λ n e. cc;
  target = omega arith;
  line = omega arith;
  relation = omega arith;
  barrier = omega arith;
  cbarrier = omega arith;
  offset_sub = omega arith;
  ors = record { all = tt; short = omega arith };
  linked = λ n e. cc;
}

two_left-IsTest : IsTest two_left
two_left-IsTest = record {
  hash = omega arith;
  pos = one_left-IsTest.pos;
  offset = one_left-IsTest.offset;
  tmpl = one_left-IsTest.tmpl;
  target = one_left-IsTest.target;
  line = one_left-IsTest.line;
  relation = one_left-IsTest.relation;
  barrier = one_left-IsTest.barrier;
  cbarrier = one_left-IsTest.cbarrier;
  offset_sub = one_left-IsTest.offset_sub;
  ors = one_left-IsTest.ors;
  linked = λ n e. omega (arith, some_inj e);
}

removes-IsRule : IsRule plain removes
removes-IsRule = record {
  section = omega arith;
  type = omega arith;
  line = omega arith;
  flags = omega arith;
  name = converts [] (omega arith);
  target = omega arith;
  wordform = λ n e. omega (arith, some_inj e);
  varname = omega arith;
  varvalue = omega arith;
  sub_reading = omega arith;
  childset1 = omega arith;
  childset2 = omega arith;
  maplist = λ n e. cc;
  sublist = λ n e. cc;
  number = omega arith;
  dep_target = λ n e. cc;
  dep_tests = record { all = tt; short = omega arith };
  tests = record { all = (omega arith, (omega arith, tt)); short = omega arith };
}

-- Two tests, of which the second is linked to the first, and is met before it.
abbrev linked_tests : Contexts
linked_tests =
    also
      (context two_left no_more no_more (also (context one_left no_more no_more no_more) no_more))
      (also (context one_left no_more no_more no_more) no_more)

small-IsGrammar : IsGrammar plain (stored small linked_tests)
unfolding swapped write_contexts finish_test and_then seen_count bit
small-IsGrammar = record {
  mapping_prefix = converts (36 ∷ []) (omega arith);
  has_prefix = omega arith;
  tags = record {
    vector = record { all = (noun-IsTag, tt); short = omega arith };
    numbered = (refl, tt);
  };
  reopen_mappings = record { all = (omega arith, tt); short = omega arith };
  preferred_targets = record { all = tt; short = omega arith };
  parentheses = record { all = ((omega arith, omega arith), tt); short = omega arith };
  parentheses_reverse = refl;
  anchors = record { all = tt; short = omega arith };
  sets = record {
    vector = record { all = (nouns-IsWrittenSet, tt); short = omega arith };
    numbered = (refl, tt);
  };
  delimiters = λ n e. omega (arith, some_inj e);
  soft_delimiters = λ n e. cc;
  contexts = record { all = (one_left-IsTest, (two_left-IsTest, tt)); short = omega arith };
  rules = record {
    vector = record { all = (removes-IsRule, tt); short = omega arith };
    numbered = (refl, tt);
  };
}

linked_tests-IsEachContext : IsEachContext linked_tests
unfolding IsContext Avoids
linked_tests-IsEachContext = (
  (
    refl,
    refl,
    tt,
    tt,
    ((refl, tt, tt, tt), tt),
    tt,
    tt,
    ((refl, refl, tt, tt, tt, tt, tt, tt), tt),
  ),
  ((refl, refl, tt, tt, tt, tt, tt, tt), tt),
)

small-IsWritable : IsWritable plain small linked_tests
unfolding write_contexts finish_test and_then seen_count count_contexts
small-IsWritable = record {
  kept = small-IsGrammar;
  trees = linked_tests-IsEachContext;
  size = refl;
}

-- A set without `ST_STATIC` loses its name.
name_lost : (stored_set (record nouns { type = 0 })).name ≡ []
unfolding bit
name_lost = refl

abbrev small_bytes : Writer
small_bytes =
    put_grammar plain (length (written_tests linked_tests)) (written_tests linked_tests)
      (stored small linked_tests)

small_written : write_grammar plain small linked_tests ≡ some small_bytes
small_written = write_grammar-stored plain small linked_tests small-IsWritable

small_read : Restores (parse_grammar plain fail) small_bytes (stored small linked_tests)
small_read =
    parse_grammar-put_grammar plain fail (stored small linked_tests) small-IsGrammar
      (written_tests-IsBound linked_tests linked_tests-IsEachContext)

-- The first bytes of a list, and those after them.
abbrev first_bytes : ℕ → Bytes → Bytes
first_bytes zero s = []
first_bytes (suc n) [] = []
first_bytes (suc n) (x ∷ s) = x ∷ first_bytes n s

abbrev bytes_after : ℕ → Bytes → Bytes
bytes_after zero s = s
bytes_after (suc n) [] = []
bytes_after (suc n) (x ∷ s) = bytes_after n s

together : (n : ℕ) (s : Bytes) → first_bytes n s ++ bytes_after n s ≡ s
together zero s = refl
together (suc n) [] = refl
together (suc n) (x ∷ s) = ap (λ r. x ∷ r) (together n s)

nonempty_left : (s : Bytes) → nonempty s ≡ true → s ≢ []
unfolding nonempty
nonempty_left [] e = cc
nonempty_left (x ∷ s) e = λ f. cc

some_left : nonempty (bytes_after 40 (small_bytes [])) ≡ true
unfolding put_grammar put_all put_magic put32 put_if put_some put_vector put_each write_tag
    write_set put_test write_rule nonempty nonzero put_text put_double put64 put_contexts
some_left = refl

parse_grammar-truncated_example : parse_grammar plain fail (first_bytes 40 (small_bytes [])) ≡ none
parse_grammar-truncated_example =
    parse_grammar-truncated plain fail small linked_tests small_bytes
      (first_bytes 40 (small_bytes [])) (bytes_after 40 (small_bytes [])) small-IsWritable
      small_written (nonempty_left _ some_left) (together 40 (small_bytes []))

parse_grammar-IsAccepted_example : IsAccepted (small_bytes (1 ∷ 2 ∷ []))
parse_grammar-IsAccepted_example =
    parse_grammar-IsAccepted plain fail (small_bytes (1 ∷ 2 ∷ [])) (1 ∷ 2 ∷ [])
      (stored small linked_tests) (small_read (1 ∷ 2 ∷ []))

write_contexts-IsOrdered_example :
    (w : Written) × (write_contexts linked_tests (record { seen = []; tests = [] }) ≡ some w)
    × IsOrdered w.tests
    × AllIn (roots linked_tests) (hashes w.tests)
write_contexts-IsOrdered_example = write_contexts-IsOrdered linked_tests linked_tests-IsEachContext

-- The second of two tests has no hash, and is the template of the first.
abbrev unhashed_tests : Contexts
unhashed_tests =
    also
      (context one_left
        (also (context (record two_left { hash = 0 }) no_more no_more no_more) no_more) no_more
        no_more)
      (also (context (record two_left { hash = 0 }) no_more no_more no_more) no_more)

unhashed-root : seen_count 0 (roots unhashed_tests) ≡ true
unfolding seen_count
unhashed-root = refl

write_grammar-no_hash_example : write_grammar plain small unhashed_tests ≡ none
write_grammar-no_hash_example = write_grammar-no_hash plain small unhashed_tests unhashed-root
