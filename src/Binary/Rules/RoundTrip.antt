-- ===== src/Binary/Rules/RoundTrip.antt =====
-- A rule of a binary grammar is read back as it was written, its tests in the order they had.
use mathlib.Core.Path.{fun_ext}
use vislcg.Base.{
  length-rejoin, length, rejoin, ℕ, zero, suc, ◌<◌, ◌≡◌, refl, ap, ◌∙◌, false, Option, none, some,
  List, [], ◌∷◌, ◌++◌, arith, word,
}
use vislcg.Binary.{
  after, ◌>>=◌, pure, put32, put_each, put_vector, All, Restores, then_lem, read32-put32,
}
use vislcg.Binary.Fields.{
  Platform, nonzero, is_some, mask, put_if, put_some, put_all, field, bit-mask, mask-lt,
  field-put_if, field-nonzero, field-text, field-put_some, IsVector,
}
use vislcg.Binary.Rules.{
  pos, negsuc, ℤ, Rule, add_contextual_test, reverse, reverse_contextual_tests, is_nonzero,
  sub_word, negative, word_sub, rule_flags, hash_or_zero, write_rule, read_reference,
  read_sub_reading, hash_of, read_tests, read_counted_tests, read_rule_fields, read_rule, IsSub,
  IsRule,
}

rejoin-rejoin : {A : Type 0} (xs ys zs : List A) → rejoin (rejoin xs ys) zs ≡ rejoin ys (xs ++ zs)
rejoin-rejoin [] ys zs = refl
rejoin-rejoin (x ∷ xs) ys zs = rejoin-rejoin xs (x ∷ ys) zs

append_nil : {A : Type 0} (xs : List A) → xs ++ [] ≡ xs
append_nil [] = refl
append_nil (x ∷ xs) = ap (λ ys. x ∷ ys) (append_nil xs)

reverse-reverse : {A : Type 0} (xs : List A) → rejoin (reverse xs) [] ≡ xs
unfolding reverse
reverse-reverse xs = rejoin-rejoin xs [] [] ∙ append_nil xs

read_tests-put_each :
    (ns head : List ℕ)
    → All (λ (n : ℕ). n < word) ns
    → Restores (read_tests (length ns) head) (put_each put32 ns) (rejoin ns head)
unfolding read_tests put_each pure add_contextual_test
read_tests-put_each [] head a rest = refl
read_tests-put_each (n ∷ ns) head (h, hs) rest =
    then_lem _ _ (read32-put32 n h _) (read_tests-put_each ns (n ∷ head) hs rest)

All-rejoin :
    {A : Type 0} (P : A → Type 0) (xs ys : List A) → All P xs → All P ys → All P (rejoin xs ys)
All-rejoin P [] ys a b = b
All-rejoin P (x ∷ xs) ys (h, hs) b = All-rejoin P xs (x ∷ ys) hs (h, b)

tests_lem :
    (ns : List ℕ)
    → IsVector (λ (n : ℕ). n < word) ns
    → Restores read_counted_tests (put_vector put32 (reverse ns)) ns
unfolding read_counted_tests put_vector
tests_lem ns v rest =
    then_lem _ _
      (read32-put32 (length (reverse ns))
        (unfold reverse in omega (arith, length-rejoin ns [], v.short)) _)
      (read_tests-put_each (reverse ns) [] (unfold reverse in All-rejoin _ ns [] v.all tt) rest
        ∙ ap (λ xs. some (xs, rest)) (reverse-reverse ns))

pub reference_lem :
    (o : Option ℕ)
    → ((n : ℕ) → o ≡ some n → n < word)
    → Restores (field (is_some o) none read_reference) (put_some put32 o) o
unfolding read_reference pure
reference_lem o h = field-put_some _ _ o λ n e rest. then_lem _ _ (read32-put32 n (h n e) rest) refl

word_sub-sub_word : (z : ℤ) → IsSub z → word_sub (sub_word z) ≡ z
unfolding word_sub sub_word negative
word_sub-sub_word (pos n) h = ground (arith, h)
word_sub-sub_word (negsuc n) h = ground (arith, h)

sub_word-lt : (z : ℤ) → IsSub z → sub_word z < word
unfolding sub_word
sub_word-lt (pos n) h = omega (arith, h)
sub_word-lt (negsuc n) h = omega (arith, h)

zero_sub : (z : ℤ) → is_nonzero z ≡ false → pos 0 ≡ z
unfolding is_nonzero nonzero
zero_sub (pos n) e = ap pos (ground arith)
zero_sub (negsuc n) e = cc

sub_reading_lem :
    (z : ℤ)
    → IsSub z
    → Restores
        (field (is_nonzero z) (pos 0) read_sub_reading)
        (put_if (is_nonzero z) (put32 (sub_word z)))
        z
unfolding read_sub_reading pure is_nonzero nonzero
sub_reading_lem z h =
    field-put_if _ _ _ _ z
      (λ e rest.
        then_lem _ _ (read32-put32 (sub_word z) (sub_word-lt z h) rest)
          (ap (λ x. some (x, rest)) (word_sub-sub_word z h)))
      (λ e. zero_sub z e)

dep_target_lem :
    (o : Option ℕ) → ((n : ℕ) → o ≡ some n → (0 < n) × (n < word)) → hash_of (hash_or_zero o) ≡ o
unfolding hash_of hash_or_zero
dep_target_lem none h = refl
dep_target_lem (some zero) h = ground (arith, h 0 refl)
dep_target_lem (some (suc n)) h = refl

hash_or_zero-lt :
    (o : Option ℕ) → ((n : ℕ) → o ≡ some n → (0 < n) × (n < word)) → hash_or_zero o < word
unfolding hash_or_zero
hash_or_zero-lt none h = omega arith
hash_or_zero-lt (some n) h = omega (arith, h n refl)

-- A well-formed rule that has been written is read back, and reading stops where the rule ends.
pub read_rule-write_rule :
    (pf : Platform) (r : Rule) → IsRule pf r → Restores (read_rule pf) (write_rule pf r) r
unfolding read_rule write_rule rule_flags put_all pure read_rule_fields ◌>>=◌ after field
    reverse_contextual_tests
read_rule-write_rule pf r w rest =
    rw
      (
        read32-put32 (mask (rule_flags r)) (omega (arith, mask-lt (rule_flags r))),
        fun_ext (bit-mask (rule_flags r)),
        field-nonzero r.section w.section,
        field-nonzero r.type w.type,
        field-nonzero r.line w.line,
        field-nonzero r.flags w.flags,
        field-text pf r.name w.name,
        field-nonzero r.target w.target,
        reference_lem r.wordform w.wordform,
        field-nonzero r.varname w.varname,
        field-nonzero r.varvalue w.varvalue,
        sub_reading_lem r.sub_reading w.sub_reading,
        field-nonzero r.childset1 w.childset1,
        field-nonzero r.childset2 w.childset2,
        reference_lem r.maplist w.maplist,
        reference_lem r.sublist w.sublist,
        field-nonzero r.number w.number,
        read32-put32 (hash_or_zero r.dep_target) (hash_or_zero-lt r.dep_target w.dep_target),
        tests_lem r.dep_tests w.dep_tests,
        tests_lem r.tests w.tests,
        dep_target_lem r.dep_target w.dep_target,
      )
      refl
