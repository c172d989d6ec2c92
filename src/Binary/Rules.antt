-- ===== src/Binary/Rules.antt =====
-- The rules of a binary grammar: the loop over `rule_by_number` of `BinaryGrammar::writeBinaryGrammar` in
-- src/BinaryGrammar_write.cpp, the one of `BinaryGrammar::parse_grammar` in src/BinaryGrammar_read.cpp that reads them, and
-- `addContextualTest` and `reverseContextualTests` of src/Rule.cpp.
pub mod RoundTrip
use vislcg.Base.{
  ltb, leb, ◌==◌, if◌then◌else◌, ltb→lt, ltb→le, leb→le, leb→lt, ==_iff, Bool-cases, Option-cases,
  if_elim, length, rejoin, length-append, ℕ, zero, suc, ◌+◌, ◌-◌, ◌*◌, ◌/◌, ◌%◌, ◌^◌, ◌≤◌, ◌<◌, min,
  max, ◌≡◌, refl, sym, ap, ◌∙◌, ◌≢◌, ◌↔◌, ◌⊎◌, inl, inr, Bool, true, false, not, ◌&&◌, ◌||◌, Option,
  none, some, List, [], ◌∷◌, ◌++◌, map, arith, word,
}
use vislcg.Binary.{
  Bytes, Text, Reader, Writer, after, ◌>>=◌, ◌>>◌, pure, fail, guard, put8, put32, put64, read8,
  read32, read64, read_bytes, read_times, put_each, put_vector, read_vector, All, Restores,
  then_lem, read32-put32, read8-put8, read64-put64, read_bytes-append, read_times-put_each,
  read_vector-put_vector,
}
use vislcg.Binary.Fields.{
  Double, Platform, Converts, nonzero, nonempty, is_some, mask, bit, flag, put_if, put_some,
  put_all, field, put_text, read_text, bit-mask, mask-lt, field-put_if, field-nonzero,
  read_text-put_text, field-text, field-put_some, read_some, put_double, read_double,
  read_double-put_double, IsVector, field-put_some_vector,
}

-- Integers over the native numbers.
pub data ℤ : Type 0 where
  pos : ℕ → ℤ
  negsuc : ℕ → ℤ

-- A rule refers to a tag and to sets by their numbers, and to contextual tests by their hashes. The section is the word that an
-- `int32_t` is.
pub record Rule : Type 0 where
  pub section : ℕ
  pub type : ℕ
  pub line : ℕ
  pub flags : ℕ
  pub name : Text
  pub target : ℕ
  pub wordform : Option ℕ
  pub varname : ℕ
  pub varvalue : ℕ
  pub sub_reading : ℤ
  pub childset1 : ℕ
  pub childset2 : ℕ
  pub maplist : Option ℕ
  pub sublist : Option ℕ
  pub number : ℕ
  pub dep_target : Option ℕ
  pub dep_tests : List ℕ
  pub tests : List ℕ

-- `addContextualTest`.
unfoldable pub add_contextual_test : ℕ → List ℕ → List ℕ
add_contextual_test to head = to ∷ head

unfoldable pub reverse : {A : Type 0} → List A → List A
reverse xs = rejoin xs []

-- `reverseContextualTests`, which the writer calls on the grammar's own rule.
unfoldable pub reverse_contextual_tests : Rule → Rule
reverse_contextual_tests r = record r { tests = reverse r.tests; dep_tests = reverse r.dep_tests }

unfoldable pub is_nonzero : ℤ → Bool
is_nonzero (pos n) = nonzero n
is_nonzero (negsuc n) = true

-- `std::abs(r->sub_reading)`, with the sign in bit 31.
unfoldable pub sub_word : ℤ → ℕ
sub_word (pos n) = n
sub_word (negsuc n) = suc n % 2 ^ 31 + 2 ^ 31

unfoldable pub negative : ℕ → ℤ
negative zero = pos 0
negative (suc n) = negsuc n

unfoldable pub word_sub : ℕ → ℤ
word_sub u = if leb (2 ^ 31) u then negative (u - 2 ^ 31) else pos u

unfoldable pub rule_flags : Rule → List Bool
rule_flags r =
    nonzero r.section
    ∷ nonzero r.type
    ∷ nonzero r.line
    ∷ nonzero r.flags
    ∷ nonempty r.name
    ∷ nonzero r.target
    ∷ is_some r.wordform
    ∷ nonzero r.varname
    ∷ nonzero r.varvalue
    ∷ is_nonzero r.sub_reading
    ∷ nonzero r.childset1
    ∷ nonzero r.childset2
    ∷ is_some r.maplist
    ∷ is_some r.sublist
    ∷ nonzero r.number
    ∷ []

unfoldable pub hash_or_zero : Option ℕ → ℕ
hash_or_zero none = 0
hash_or_zero (some hash) = hash

unfoldable pub write_rule : Platform → Rule → Writer
write_rule pf r = put_all (
    put32 (mask (rule_flags r))
    ∷ put_if (nonzero r.section) (put32 r.section)
    ∷ put_if (nonzero r.type) (put32 r.type)
    ∷ put_if (nonzero r.line) (put32 r.line)
    ∷ put_if (nonzero r.flags) (put32 r.flags)
    ∷ put_if (nonempty r.name) (put_text pf r.name)
    ∷ put_if (nonzero r.target) (put32 r.target)
    ∷ put_some put32 r.wordform
    ∷ put_if (nonzero r.varname) (put32 r.varname)
    ∷ put_if (nonzero r.varvalue) (put32 r.varvalue)
    ∷ put_if (is_nonzero r.sub_reading) (put32 (sub_word r.sub_reading))
    ∷ put_if (nonzero r.childset1) (put32 r.childset1)
    ∷ put_if (nonzero r.childset2) (put32 r.childset2)
    ∷ put_some put32 r.maplist
    ∷ put_some put32 r.sublist
    ∷ put_if (nonzero r.number) (put32 r.number)
    ∷ put32 (hash_or_zero r.dep_target)
    ∷ put_vector put32 (reverse_contextual_tests r).dep_tests
    ∷ put_vector put32 (reverse_contextual_tests r).tests
    ∷ [])

unfoldable pub read_reference : Reader (Option ℕ)
read_reference = do n ← read32; pure (some n)

unfoldable pub read_sub_reading : Reader ℤ
read_sub_reading = do u ← read32; pure (word_sub u)

unfoldable pub hash_of : ℕ → Option ℕ
hash_of zero = none
hash_of (suc n) = some (suc n)

-- The tests are put in front of those read before.
unfoldable pub read_tests : ℕ → List ℕ → Reader (List ℕ)
read_tests zero head = pure head
read_tests (suc n) head = do t ← read32; read_tests n (add_contextual_test t head)

unfoldable pub read_counted_tests : Reader (List ℕ)
read_counted_tests = do n ← read32; read_tests n []

unfoldable pub read_rule_fields : Platform → (ℕ → Bool) → Reader Rule
read_rule_fields pf has = do
  section ← field (has 0) 0 read32
  type ← field (has 1) 0 read32
  line ← field (has 2) 0 read32
  flags ← field (has 3) 0 read32
  name ← field (has 4) [] (read_text pf [])
  target ← field (has 5) 0 read32
  wordform ← field (has 6) none read_reference
  varname ← field (has 7) 0 read32
  varvalue ← field (has 8) 0 read32
  sub_reading ← field (has 9) (pos 0) read_sub_reading
  childset1 ← field (has 10) 0 read32
  childset2 ← field (has 11) 0 read32
  maplist ← field (has 12) none read_reference
  sublist ← field (has 13) none read_reference
  number ← field (has 14) 0 read32
  dep_target ← read32
  dep_tests ← read_counted_tests
  tests ← read_counted_tests
  pure (record {
    section = section;
    type = type;
    line = line;
    flags = flags;
    name = name;
    target = target;
    wordform = wordform;
    varname = varname;
    varvalue = varvalue;
    sub_reading = sub_reading;
    childset1 = childset1;
    childset2 = childset2;
    maplist = maplist;
    sublist = sublist;
    number = number;
    dep_target = hash_of dep_target;
    dep_tests = dep_tests;
    tests = tests;
  })

unfoldable pub read_rule : Platform → Reader Rule
read_rule pf = do mask ← read32; read_rule_fields pf (bit mask)

abbrev pub IsSub : ℤ → Type 0
IsSub (pos n) = n < 2 ^ 31
IsSub (negsuc n) = suc n < 2 ^ 31

-- A rule whose numbers fit their words and whose name ICU converts. `sub_reading` is above the least `int32_t`, whose absolute value
-- is none, and a contextual test has a hash other than 0, as the writer of the tests demands.
pub record IsRule (pf : Platform) (r : Rule) : Type 0 where
  pub section : r.section < word
  pub type : r.type < word
  pub line : r.line < word
  pub flags : r.flags < word
  pub name : Converts pf r.name
  pub target : r.target < word
  pub wordform : (n : ℕ) → r.wordform ≡ some n → n < word
  pub varname : r.varname < word
  pub varvalue : r.varvalue < word
  pub sub_reading : IsSub r.sub_reading
  pub childset1 : r.childset1 < word
  pub childset2 : r.childset2 < word
  pub maplist : (n : ℕ) → r.maplist ≡ some n → n < word
  pub sublist : (n : ℕ) → r.sublist ≡ some n → n < word
  pub number : r.number < word
  pub dep_target : (n : ℕ) → r.dep_target ≡ some n → (0 < n) × (n < word)
  pub dep_tests : IsVector (λ (n : ℕ). n < word) r.dep_tests
  pub tests : IsVector (λ (n : ℕ). n < word) r.tests
