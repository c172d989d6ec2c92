-- ===== src/Binary/Grammars/Extends.antt =====
-- Whatever a reader of a binary grammar gives on a stream, it gives on a longer one.
use mathlib.Core.Option
use vislcg.Base.{
  if◌then◌else◌, length, length-append, ℕ, zero, suc, ◌≤◌, ◌≡◌, refl, Bool, true, false, Option,
  none, some, List, [], ◌∷◌, ◌++◌, arith,
}
use vislcg.Trie.{empty, Trie, child_at}
use vislcg.Binary.{
  Bytes, Text, Reader, after, ◌>>=◌, pure, fail, guard, read8, read32, read64, read_bytes,
  read_times, read_vector,
}
use vislcg.Binary.Fields.{Platform, field, read_text, read_some, read_double}
use vislcg.Binary.Tags.{
  read_op, read_old_value, read_regexp, read_name, read_names, read_vs_names, read_tag_fields,
  read_tag,
}
use vislcg.Binary.Sets.{
  TagTable, trie_unserialize, read_trie, read_tries, read_set_fields, read_set,
}
use vislcg.Binary.Contexts.{
  read_pos, read_hash, read_linked, read_test_fields, read_contextual_test, read_contexts,
  read_counted_contexts,
}
use vislcg.Binary.Rules.{
  add_contextual_test, read_reference, read_sub_reading, read_tests, read_counted_tests,
  read_rule_fields, read_rule,
}
use vislcg.Binary.Grammars.{
  read_prefix, read_pair, filled, from_slots, read_numbered, read_grammar_fields,
}

-- What a reader gives on a stream, the other one gives on a longer one.
pub record Follows {A : Type 0} (m m' : Reader A) : Type 0 where
  pub extend : (s q r : Bytes) (a : A) → m s ≡ some (a, r) → m' (s ++ q) ≡ some (a, r ++ q)

-- What follows the bytes that a reader takes does not matter to it.
abbrev pub Extends : {A : Type 0} → Reader A → Type 0
Extends m = Follows m m

module _ {A B : Type 0} where
  pub after-eq_some :
      (f : A → Reader B) (o : Option (A × Bytes)) {b : B × Bytes}
      → after f o ≡ some b
      → (a : A) × (r : Bytes) × (o ≡ some (a, r)) × (f a r ≡ some b)
  unfolding after
  after-eq_some f none e = cc
  after-eq_some f (some (a, r)) e = (a, r, refl, e)

  pub bind-Follows :
      (m m' : Reader A) (f f' : A → Reader B)
      → Follows m m'
      → ((a : A) → Follows (f a) (f' a))
      → Follows (m >>= f) (m' >>= f')
  unfolding ◌>>=◌ after
  bind-Follows m m' f f' h k = record {
    extend = λ s q r b e.
        let found = after-eq_some f (m s) e in
        rw (h.extend s q (found.1) (found.0) (found.2))
          ((k (found.0)).extend (found.1) q r b (found.3));
  }

pub pure-Extends : {A : Type 0} (a : A) → Extends (pure a)
unfolding pure
pure-Extends a = record { extend = λ s q r b e. ground (arith, e) }

pub fail-Extends : {A : Type 0} → Extends {A = A} fail
unfolding fail
fail-Extends = record { extend = λ s q r b e. cc }

pub if_Extends :
    {A : Type 0} (b : Bool) (m n : Reader A) → Extends m → Extends n → Extends (if b then m else n)
if_Extends true m n h k = h
if_Extends false m n h k = k

pub guard-Extends : (b : Bool) → Extends (guard b)
unfolding guard
guard-Extends true = record { extend = λ s q r b e. ground (arith, e) }
guard-Extends false = record { extend = λ s q r b e. cc }

pub field-Extends :
    {A : Type 0} (b : Bool) (d : A) (m : Reader A) → Extends m → Extends (field b d m)
unfolding field
field-Extends true d m h = record { extend = λ s q r a e. h.extend s q r a e }
field-Extends false d m h = record { extend = λ s q r a e. ground (arith, e) }

read8_extend : (s q r : Bytes) (a : ℕ) → read8 s ≡ some (a, r) → read8 (s ++ q) ≡ some (a, r ++ q)
unfolding read8
read8_extend [] q r a e = cc
read8_extend (x ∷ s) q r a e = ground (arith, e)

read32_extend :
    (s q r : Bytes) (a : ℕ) → read32 s ≡ some (a, r) → read32 (s ++ q) ≡ some (a, r ++ q)
unfolding read32
read32_extend [] q r a e = cc
read32_extend (x ∷ []) q r a e = cc
read32_extend (x ∷ y ∷ []) q r a e = cc
read32_extend (x ∷ y ∷ z ∷ []) q r a e = cc
read32_extend (x ∷ y ∷ z ∷ w ∷ s) q r a e = ground (arith, e)

pub read8-Extends : Extends read8
read8-Extends = record { extend = read8_extend }

pub read32-Extends : Extends read32
read32-Extends = record { extend = read32_extend }

read_bytes_extend :
    (n : ℕ) (s q r bs : Bytes)
    → read_bytes n s ≡ some (bs, r)
    → read_bytes n (s ++ q) ≡ some (bs, r ++ q)
unfolding read_bytes
read_bytes_extend zero s q r bs e = ground (arith, e)
read_bytes_extend (suc n) [] q r bs e = cc
read_bytes_extend (suc n) (x ∷ s) q r bs e =
    (bind-Follows (read_bytes n) (read_bytes n) _ _ (record { extend = read_bytes_extend n })
        λ bs'. pure-Extends (x ∷ bs')).extend
      s q r bs e

pub read_bytes-Extends : (n : ℕ) → Extends (read_bytes n)
read_bytes-Extends n = record { extend = read_bytes_extend n }

pub ruleset readers = (
  bind-Follows, pure-Extends, fail-Extends, if_Extends, guard-Extends, field-Extends, read8-Extends,
  read32-Extends, read_bytes-Extends,
)

read_times-Extends : {A : Type 0} (m : Reader A) (n : ℕ) → Extends m → Extends (read_times m n)
unfolding read_times
read_times-Extends m zero h = pure-Extends []
read_times-Extends m (suc n) h =
    bind-Follows _ _ _ _ h λ x. bind-Follows _ _ _ _ (read_times-Extends m n h) λ xs. pure-Extends _

read_vector-Extends : {A : Type 0} (m : Reader A) → Extends m → Extends (read_vector m)
unfolding read_vector
read_vector-Extends m h = bind-Follows _ _ _ _ read32-Extends λ n. read_times-Extends m n h

read_text-Extends : (pf : Platform) (d : Text) → Extends (read_text pf d)
unfolding read_text
read_text-Extends pf d = search readers

read_regexp-Extends : (pf : Platform) (icase : Bool) → Extends (read_regexp pf icase)
unfolding read_regexp
read_regexp-Extends pf icase = search readers

read_name-Extends : (pf : Platform) → Extends (read_name pf)
unfolding read_name
read_name-Extends pf = search readers

read_names-Extends : (pf : Platform) (n : ℕ) → Extends (read_names pf n)
unfolding read_names
read_names-Extends pf zero = pure-Extends []
read_names-Extends pf (suc n) =
    bind-Follows _ _ _ _ (read_name-Extends pf)
      λ name. bind-Follows _ _ _ _ (read_names-Extends pf n) λ names. pure-Extends _

read_vs_names-Extends : (pf : Platform) → Extends (read_vs_names pf)
unfolding read_vs_names
read_vs_names-Extends pf = search (readers, read_names-Extends)

read_double-Extends : Extends read_double
unfolding read_double read64
read_double-Extends = search readers

read_old_value-Extends : (pf : Platform) → Extends (read_old_value pf)
unfolding read_old_value
read_old_value-Extends pf = search readers

read_op-Extends : Extends read_op
unfolding read_op
read_op-Extends = search readers

read_some-Extends : {A : Type 0} (m : Reader A) → Extends m → Extends (read_some m)
unfolding read_some
read_some-Extends m h = search (readers, read_vector-Extends)

read_tag-Extends : (pf : Platform) → Extends (read_tag pf)
unfolding read_tag read_tag_fields
read_tag-Extends pf =
    search
      (
        readers, read_text-Extends, read_regexp-Extends, read_vs_names-Extends, read_double-Extends,
        read_old_value-Extends, read_op-Extends, read_some-Extends,
      )
      depth 40

read_hash-Extends : Extends read_hash
unfolding read_hash
read_hash-Extends = search readers

read_pos-Extends : Extends read_pos
unfolding read_pos
read_pos-Extends = search readers

read_linked-Extends : (seen : List ℕ) → Extends (read_linked seen)
unfolding read_linked
read_linked-Extends seen = search readers

read_contextual_test-Extends : (seen : List ℕ) → Extends (read_contextual_test seen)
unfolding read_contextual_test read_test_fields
read_contextual_test-Extends seen =
    search (readers, read_hash-Extends, read_linked-Extends, read_pos-Extends, read_vector-Extends)
      depth 40

read_contexts-Extends : (seen : List ℕ) (n : ℕ) → Extends (read_contexts seen n)
unfolding read_contexts
read_contexts-Extends seen zero = pure-Extends []
read_contexts-Extends seen (suc n) =
    bind-Follows _ _ _ _ (read_contextual_test-Extends seen)
      λ t. bind-Follows _ _ _ _ (read_contexts-Extends (t.hash ∷ seen) n) λ ts. pure-Extends _

read_counted_contexts-Extends : Extends read_counted_contexts
unfolding read_counted_contexts
read_counted_contexts-Extends = bind-Follows _ _ _ _ read32-Extends λ n. read_contexts-Extends [] n

read_tests-Extends : (n : ℕ) (head : List ℕ) → Extends (read_tests n head)
unfolding read_tests
read_tests-Extends zero head = pure-Extends head
read_tests-Extends (suc n) head =
    bind-Follows _ _ _ _ read32-Extends λ t. read_tests-Extends n (add_contextual_test t head)

read_rule-Extends : (pf : Platform) → Extends (read_rule pf)
unfolding read_rule read_rule_fields read_reference read_sub_reading read_counted_tests
read_rule-Extends pf = search (readers, read_text-Extends, read_tests-Extends) depth 50

trie_unserialize-Follows :
    (tags : TagTable) (fuel fuel' n : ℕ) (trie : Trie)
    → fuel ≤ fuel'
    → Follows (trie_unserialize tags fuel n trie) (trie_unserialize tags fuel' n trie)
unfolding trie_unserialize
trie_unserialize-Follows tags fuel fuel' zero trie l = pure-Extends trie
trie_unserialize-Follows tags zero fuel' (suc n) trie l =
    unfold fail in record { extend = λ s q r a e. cc }
trie_unserialize-Follows tags (suc fuel) zero (suc n) trie l = absurd (omega (arith, l))
trie_unserialize-Follows tags (suc fuel) (suc fuel') (suc n) trie l =
    bind-Follows _ _ _ _ read32-Extends λ number. bind-Follows _ _ _ _ read8-Extends λ terminal.
      bind-Follows _ _ _ _ read32-Extends λ count.
        bind-Follows _ _ _ _
          (trie_unserialize-Follows tags fuel fuel' count (child_at (tags.hash_at number) trie)
            (omega (arith, l)))
          λ child. trie_unserialize-Follows tags (suc fuel) (suc fuel') n _ l

read_trie-Extends : (tags : TagTable) → Extends (read_trie tags)
unfolding read_trie
read_trie-Extends tags = record {
  extend = λ s q r a e.
      (bind-Follows _ _ _ _ read32-Extends λ count.
          trie_unserialize-Follows tags (length s) (length (s ++ q)) count empty
            (omega (arith, length-append s q))).extend
        s q r a e;
}

read_set-Extends : (pf : Platform) (tags : TagTable) → Extends (read_set pf tags)
unfolding read_set read_set_fields read_tries
read_set-Extends pf tags =
    search (readers, read_trie-Extends, read_text-Extends, read_vector-Extends) depth 40

map_extend :
    {A : Type 0} (o : Option (List A)) (s q r : Bytes) (xs : List A)
    → Option.map {B = List A × Bytes} (λ ys. (ys, s)) o ≡ some (xs, r)
    → Option.map {B = List A × Bytes} (λ ys. (ys, s ++ q)) o ≡ some (xs, r ++ q)
map_extend none s q r xs e = cc
map_extend (some ys) s q r xs e = ground (arith, e)

from_slots-Extends : {A : Type 0} (o : Option (List (Option A))) → Extends (from_slots o)
unfolding from_slots
from_slots-Extends none = record { extend = λ s q r a e. cc }
from_slots-Extends (some ss) = record { extend = λ s q r a e. map_extend (filled ss) s q r a e }

read_numbered-Extends :
    {A : Type 0} (number : A → ℕ) (m : Reader A) → Extends m → Extends (read_numbered number m)
unfolding read_numbered
read_numbered-Extends number m h =
    bind-Follows _ _ _ _ read32-Extends
      λ n. bind-Follows _ _ _ _ (read_times-Extends m n h) λ xs. from_slots-Extends _

read_pair-Extends : Extends read_pair
unfolding read_pair
read_pair-Extends = search readers

read_prefix-Extends : (pf : Platform) → Extends (read_prefix pf)
unfolding read_prefix
read_prefix-Extends pf = search readers

pub read_grammar_fields-Extends :
    (pf : Platform) (has : ℕ → Bool) → Extends (read_grammar_fields pf has)
unfolding read_grammar_fields read_reference
read_grammar_fields-Extends pf has =
    search
      (
        readers, read_prefix-Extends, read_numbered-Extends, read_tag-Extends, read_vector-Extends,
        read_pair-Extends, read_set-Extends, read_counted_contexts-Extends, read_rule-Extends,
      )
      depth 60
