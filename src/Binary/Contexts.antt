-- ===== src/Binary/Contexts.antt =====
-- The contextual tests of a binary grammar: `writeContextualTest` of src/BinaryGrammar_write.cpp and `readContextualTest` of
-- src/BinaryGrammar_read.cpp. A test refers to its template, its alternatives and the test linked to it by their hashes; offsets are
-- the words that the `int32_t`s are.
pub mod RoundTrip
pub mod Order
pub mod Bound
pub mod Refused
use vislcg.Base.{
  ltb, leb, ◌==◌, if◌then◌else◌, ltb→lt, ltb→le, leb→le, leb→lt, ==_iff, Bool-cases, Option-cases,
  if_elim, length, rejoin, length-append, ℕ, zero, suc, ◌+◌, ◌-◌, ◌*◌, ◌/◌, ◌%◌, ◌^◌, ◌≤◌, ◌<◌, min,
  max, ◌≡◌, refl, sym, ap, ◌∙◌, ◌≢◌, ◌↔◌, ◌⊎◌, inl, inr, Bool, true, false, not, ◌&&◌, ◌||◌, Option,
  none, some, List, [], ◌∷◌, ◌++◌, map, arith, word,
}
use vislcg.Binary.{
  Bytes, Text, Reader, Writer, after, ◌>>=◌, ◌>>◌, pure, fail, guard, put8, put32, put64, read8,
  read32, read64, read_bytes, read_times, put_each, put_vector, read_vector, All, Restores,
  then_lem, read32-put32, read8-put8, read64-put64, read_bytes-append, read_times-put_each,
  read_vector-put_vector,
}
use vislcg.Binary.Fields.{
  Double, Platform, Converts, nonzero, nonempty, is_some, mask, bit, flag, put_if, put_some,
  put_all, field, put_text, read_text, bit-mask, mask-lt, field-put_if, field-nonzero,
  read_text-put_text, field-text, field-put_some, read_some, put_double, read_double,
  read_double-put_double, IsVector, field-put_some_vector, field-vector,
}

pub record ContextualTest : Type 0 where
  pub hash : ℕ
  pub pos : ℕ
  pub offset : ℕ
  pub tmpl : Option ℕ
  pub target : ℕ
  pub line : ℕ
  pub relation : ℕ
  pub barrier : ℕ
  pub cbarrier : ℕ
  pub offset_sub : ℕ
  pub ors : List ℕ
  pub linked : Option ℕ

-- The number of the bit `POS_64BIT`, which says that a position has a second word.
abbrev pub pos_64bit : ℕ
pos_64bit = 31

unfoldable pub test_flags : ContextualTest → List Bool
test_flags t =
    nonzero t.hash
    ∷ nonzero t.pos
    ∷ nonzero t.offset
    ∷ is_some t.tmpl
    ∷ nonzero t.target
    ∷ nonzero t.line
    ∷ nonzero t.relation
    ∷ nonzero t.barrier
    ∷ nonzero t.cbarrier
    ∷ nonzero t.offset_sub
    ∷ nonempty t.ors
    ∷ is_some t.linked
    ∷ []

unfoldable pub put_pos : ℕ → Writer
put_pos p rest = put32 (p % word) (put_if (bit p pos_64bit) (put32 (p / word % word)) rest)

-- The bytes of one test, without those that it refers to; `finish_test` is what comes here to a hash of 0.
unfoldable pub put_test : ContextualTest → Writer
put_test t = put_all (
    put32 (mask (test_flags t))
    ∷ put_if (nonzero t.hash) (put32 t.hash)
    ∷ put_if (nonzero t.pos) (put_pos t.pos)
    ∷ put_if (nonzero t.offset) (put32 t.offset)
    ∷ put_some put32 t.tmpl
    ∷ put_if (nonzero t.target) (put32 t.target)
    ∷ put_if (nonzero t.line) (put32 t.line)
    ∷ put_if (nonzero t.relation) (put32 t.relation)
    ∷ put_if (nonzero t.barrier) (put32 t.barrier)
    ∷ put_if (nonzero t.cbarrier) (put32 t.cbarrier)
    ∷ put_if (nonzero t.offset_sub) (put32 t.offset_sub)
    ∷ put_if (nonempty t.ors) (put_vector put32 t.ors)
    ∷ put_some put32 t.linked
    ∷ [])

-- The second word is joined to the first by `|=`, at bit 32.
unfoldable pub read_pos : Reader ℕ
read_pos = do low ← read32; high ← field (bit low pos_64bit) 0 read32; pure (high * word + low)

-- Whether a hash is among some: `count` on `seen_uint32`, and looking in `grammar->contexts`.
unfoldable pub seen_count : ℕ → List ℕ → Bool
seen_count hash [] = false
seen_count hash (h ∷ hs) = if h == hash then true else seen_count hash hs

unfoldable pub read_hash : Reader (Option ℕ)
read_hash = do n ← read32; pure (some n)

-- The linked test is looked up at once, among the tests read before; it is a null pointer if it is not there.
unfoldable pub read_linked : List ℕ → Reader (Option ℕ)
read_linked seen = do n ← read32; pure (if seen_count n seen then some n else none)

unfoldable pub read_test_fields : List ℕ → (ℕ → Bool) → Reader ContextualTest
read_test_fields seen has = do
  hash ← field (has 0) 0 read32
  position ← field (has 1) 0 read_pos
  offset ← field (has 2) 0 read32
  tmpl ← field (has 3) none read_hash
  target ← field (has 4) 0 read32
  line ← field (has 5) 0 read32
  relation ← field (has 6) 0 read32
  barrier ← field (has 7) 0 read32
  cbarrier ← field (has 8) 0 read32
  offset_sub ← field (has 9) 0 read32
  ors ← field (has 10) [] (read_vector read32)
  linked ← field (has 11) none (read_linked seen)
  pure (record {
    hash = hash;
    pos = position;
    offset = offset;
    tmpl = tmpl;
    target = target;
    line = line;
    relation = relation;
    barrier = barrier;
    cbarrier = cbarrier;
    offset_sub = offset_sub;
    ors = ors;
    linked = linked;
  })

unfoldable pub read_contextual_test : List ℕ → Reader ContextualTest
read_contextual_test seen = do mask ← read32; read_test_fields seen (bit mask)

abbrev pub hashes : List ContextualTest → List ℕ
hashes [] = []
hashes (t ∷ ts) = t.hash ∷ hashes ts

-- The loop that reads so many tests.
unfoldable pub read_contexts : List ℕ → ℕ → Reader (List ContextualTest)
read_contexts seen zero = pure []
read_contexts seen (suc n) = do
  t ← read_contextual_test seen
  ts ← read_contexts (t.hash ∷ seen) n
  pure (t ∷ ts)

unfoldable pub read_counted_contexts : Reader (List ContextualTest)
read_counted_contexts = do n ← read32; read_contexts [] n

unfoldable pub all_seen : List ℕ → List ℕ → Bool
all_seen known [] = true
all_seen known (h ∷ hs) = seen_count h known && all_seen known hs

abbrev pub optional : Option ℕ → List ℕ
optional none = []
optional (some hash) = hash ∷ []

-- Whether the templates and the alternatives of the tests, which are bound when all has been read, are there. The program does not look
-- whether they are.
unfoldable pub all_bound : List ℕ → List ContextualTest → Bool
all_bound known [] = true
all_bound known (t ∷ ts) =
    all_seen known (optional t.tmpl) && all_seen known t.ors && all_bound known ts

-- The tests as the grammar has them: one, and those that it points to as its template, its alternatives and the one linked to it.
mutual
  pub data Context : Type 0 where
    context : ContextualTest → Contexts → Contexts → Contexts → Context

  pub data Contexts : Type 0 where
    no_more : Contexts
    also : Context → Contexts → Contexts

-- `seen_uint32`, and the tests written so far, the last of them first.
pub record Written : Type 0 where
  pub seen : List ℕ
  pub tests : List ContextualTest

unfoldable pub and_then : Option Written → (Written → Option Written) → Option Written
and_then none f = none
and_then (some w) f = f w

-- The end of `writeContextualTest`: a hash of 0 ends the program, and another test is put behind those written before.
unfoldable pub finish_test : ContextualTest → Written → Option Written
finish_test t w = if t.hash == 0 then none else some (record { seen = w.seen; tests = t ∷ w.tests })

-- `writeContextualTest`: a test that has been seen is not written again, and those that a test points to come before it. The template,
-- the alternatives, the linked test and the tests of the whole grammar are each gone through by `write_contexts`.
unfoldable mutual
  pub write_context : Context → Written → Option Written
  write_context (context t tmpl ors linked) w =
      let entered =
        and_then
          (and_then
            (and_then (write_contexts tmpl (record { seen = t.hash ∷ w.seen; tests = w.tests }))
              (write_contexts ors))
            (write_contexts linked))
          (finish_test t) in
      if seen_count t.hash w.seen then some w else entered

  pub write_contexts : Contexts → Written → Option Written
  write_contexts no_more w = some w
  write_contexts (also c cs) w = and_then (write_context c w) (write_contexts cs)

-- Before the first test.
abbrev pub unwritten : Written
unwritten = record { seen = []; tests = [] }

unfoldable pub count_contexts : Contexts → ℕ
count_contexts no_more = 0
count_contexts (also c cs) = suc (count_contexts cs)
