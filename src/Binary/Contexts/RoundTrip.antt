-- ===== src/Binary/Contexts/RoundTrip.antt =====
-- A contextual test of a binary grammar is read back as it was written.
use mathlib.Core.Path.{fun_ext}
use vislcg.Base.{
  ◌==◌, ℕ, ◌*◌, ◌/◌, ◌%◌, ◌<◌, List, [], ◌∷◌, length, true, ◌≡◌, refl, ap, false, Option, none,
  some, arith, word,
}
use vislcg.Binary.{
  after, ◌>>=◌, pure, put32, read32, Restores, then_lem, read32-put32, All, put_each, put_vector,
}
use vislcg.Binary.Fields.{
  nonzero, is_some, mask, bit, put_if, put_some, put_all, field, bit-mask, mask-lt, field-put_if,
  field-nonzero, field-put_some, IsVector, field-vector,
}
use vislcg.Binary.Contexts.{
  ContextualTest, pos_64bit, test_flags, put_pos, put_test, read_pos, read_hash, read_test_fields,
  read_contextual_test, read_linked, seen_count, read_contexts, read_counted_contexts,
}

-- A position of 64 bits. One above the first word has `POS_64BIT`.
pub record IsPos (p : ℕ) : Type 0 where
  pub fits : p < word * word
  pub high : bit p pos_64bit ≡ false → 0 ≡ p / word % word

-- A test whose numbers fit their words.
pub record IsTest (t : ContextualTest) : Type 0 where
  pub hash : t.hash < word
  pub pos : IsPos t.pos
  pub offset : t.offset < word
  pub tmpl : (n : ℕ) → t.tmpl ≡ some n → n < word
  pub target : t.target < word
  pub line : t.line < word
  pub relation : t.relation < word
  pub barrier : t.barrier < word
  pub cbarrier : t.cbarrier < word
  pub offset_sub : t.offset_sub < word
  pub ors : IsVector (λ (n : ℕ). n < word) t.ors
  pub linked : (n : ℕ) → t.linked ≡ some n → n < word

hash_field :
    (o : Option ℕ)
    → ((n : ℕ) → o ≡ some n → n < word)
    → Restores (field (is_some o) none read_hash) (put_some put32 o) o
unfolding read_hash pure
hash_field o h = field-put_some _ _ o λ n e rest. then_lem _ _ (read32-put32 n (h n e) rest) refl

linked_field :
    (seen : List ℕ) (o : Option ℕ)
    → ((n : ℕ) → o ≡ some n → n < word)
    → ((n : ℕ) → o ≡ some n → seen_count n seen ≡ true)
    → Restores (field (is_some o) none (read_linked seen)) (put_some put32 o) o
unfolding read_linked pure
linked_field seen o h k =
    field-put_some _ _ o λ n e rest. then_lem _ _ (read32-put32 n (h n e) rest) (rw (k n e) refl)

low_bit : (p : ℕ) → bit (p % word) pos_64bit ≡ bit p pos_64bit
unfolding bit
low_bit p = ap (λ n. n == 1) (omega arith)

pos_field :
    (p : ℕ) → IsPos p → Restores (field (nonzero p) 0 read_pos) (put_if (nonzero p) (put_pos p)) p
unfolding read_pos put_pos pure nonzero
pos_field p w =
    field-put_if _ _ _ _ p
      (λ e rest. then_lem _ _ (read32-put32 (p % word) (omega arith) _) (
        rw (low_bit p) (
          then_lem _ _
            (field-put_if (bit p pos_64bit) 0 read32 _ (p / word % word)
              (λ b. read32-put32 (p / word % word) (omega arith)) w.high rest)
            (ap (λ n. some (n, rest)) (omega (arith, w.fits))))))
      (λ e. ground arith)

-- A well-formed test that has been written is read back, and reading stops where the test ends.
pub read_contextual_test-put_test :
    (seen : List ℕ) (t : ContextualTest)
    → IsTest t
    → ((n : ℕ) → t.linked ≡ some n → seen_count n seen ≡ true)
    → Restores (read_contextual_test seen) (put_test t) t
unfolding read_contextual_test put_test test_flags put_all pure read_test_fields ◌>>=◌ after field
read_contextual_test-put_test seen t w l rest =
    rw
      (
        read32-put32 (mask (test_flags t)) (omega (arith, mask-lt (test_flags t))),
        fun_ext (bit-mask (test_flags t)),
        field-nonzero t.hash w.hash,
        pos_field t.pos w.pos,
        field-nonzero t.offset w.offset,
        hash_field t.tmpl w.tmpl,
        field-nonzero t.target w.target,
        field-nonzero t.line w.line,
        field-nonzero t.relation w.relation,
        field-nonzero t.barrier w.barrier,
        field-nonzero t.cbarrier w.cbarrier,
        field-nonzero t.offset_sub w.offset_sub,
        field-vector t.ors w.ors,
        linked_field seen t.linked w.linked l,
      )
      refl

-- The linked test of each is one of those before it.
abbrev pub IsLinkedBefore : List ℕ → List ContextualTest → Type 0
IsLinkedBefore seen [] = Unit {0}
IsLinkedBefore seen (t ∷ ts) =
    ((n : ℕ) → t.linked ≡ some n → seen_count n seen ≡ true) × IsLinkedBefore (t.hash ∷ seen) ts

read_contexts-put_each :
    (seen : List ℕ) (ts : List ContextualTest)
    → All IsTest ts
    → IsLinkedBefore seen ts
    → Restores (read_contexts seen (length ts)) (put_each put_test ts) ts
unfolding read_contexts put_each pure
read_contexts-put_each seen [] a l rest = refl
read_contexts-put_each seen (t ∷ ts) (it, its) (l, ls) rest =
    then_lem _ _ (read_contextual_test-put_test seen t it l _)
      (then_lem _ _ (read_contexts-put_each (t.hash ∷ seen) ts its ls rest) refl)

pub read_counted_contexts-put_vector :
    (ts : List ContextualTest)
    → IsVector IsTest ts
    → IsLinkedBefore [] ts
    → Restores read_counted_contexts (put_vector put_test ts) ts
unfolding read_counted_contexts put_vector
read_counted_contexts-put_vector ts v l rest =
    then_lem _ _ (read32-put32 (length ts) v.short _) (read_contexts-put_each [] ts v.all l rest)
