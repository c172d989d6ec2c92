-- ===== src/Binary/Grammars/Stored.antt =====
-- A binary grammar is read back as it was written, its contextual tests in the order of writing.
use mathlib.Core.Path.{fun_ext, subst}
use vislcg.Base.{
  ℕ, suc, ◌≡◌, refl, ap, sym, ◌∙◌, Bool, true, false, if◌then◌else◌, Option, none, some, List, [],
  ◌∷◌, length, rejoin,
}
use vislcg.Binary.{Writer, Bytes, put_each, put_vector}
use vislcg.Binary.Fields.{Platform, nonempty, bit, put_if, put_all, put_text}
use vislcg.Binary.Sets.{TagTable, Set, st_static, write_set, set_flags, has_tags, put_tries}
use vislcg.Binary.Contexts.{
  ContextualTest, Contexts, Written, seen_count, write_contexts, unwritten, count_contexts,
}
use vislcg.Binary.Contexts.Order.{roots, IsEachContext, write_contexts-IsOrdered}
use vislcg.Binary.Contexts.Bound.{rejoin-IsLinkedBefore, all_bound-rejoin}
use vislcg.Binary.Contexts.Refused.{tests_refused}
use vislcg.Binary.Grammars.{Grammar, table_of, grammar_flags, put_grammar, write_grammar}
use vislcg.Binary.Grammars.RoundTrip.{IsGrammar, IsBound}

-- What the format keeps of a set: the name only of one that is `ST_STATIC`.
abbrev pub stored_set : Set → Set
stored_set s = record s { name = if bit s.type st_static then s.name else [] }

abbrev pub stored_sets : List Set → List Set
stored_sets [] = []
stored_sets (s ∷ ss) = stored_set s ∷ stored_sets ss

-- The tests that are written, the first of them first.
abbrev pub first_to_last : Option Written → List ContextualTest
first_to_last none = []
first_to_last (some w) = rejoin w.tests []

abbrev pub written_tests : Contexts → List ContextualTest
written_tests contexts = first_to_last (write_contexts contexts unwritten)

-- What is kept of a grammar.
abbrev pub stored : Grammar → Contexts → Grammar
stored g contexts = record g {
  sets_list = stored_sets g.sets_list;
  contexts = written_tests contexts;
}

-- A grammar that is well formed in what is kept of it, whose tests are trees of tests with hashes, and that has each test that is
-- written in `grammar->contexts`.
pub record IsWritable (pf : Platform) (g : Grammar) (contexts : Contexts) : Type 0 where
  pub kept : IsGrammar pf (stored g contexts)
  pub trees : IsEachContext contexts
  pub size : count_contexts contexts ≡ length (written_tests contexts)

name_or_not :
    (b : Bool) (w : List ℕ → Writer) (name : List ℕ) (rest : Bytes)
    → put_if b (w (if b then name else [])) rest ≡ put_if b (w name) rest
unfolding put_if
name_or_not true w name rest = refl
name_or_not false w name rest = refl

set-stored :
    (pf : Platform) (table : TagTable) (s : Set) (rest : Bytes)
    → write_set pf table (stored_set s) rest ≡ write_set pf table s rest
unfolding write_set put_all set_flags has_tags put_tries
set-stored pf table s rest = rw (name_or_not (bit s.type st_static) (put_text pf) s.name rest) refl

sets-stored :
    (pf : Platform) (table : TagTable) (ss : List Set) (rest : Bytes)
    → put_each (write_set pf table) (stored_sets ss) rest ≡ put_each (write_set pf table) ss rest
unfolding put_each
sets-stored pf table [] rest = refl
sets-stored pf table (s ∷ ss) rest =
    ap (write_set pf table (stored_set s)) (sets-stored pf table ss rest)
    ∙ set-stored pf table s (put_each (write_set pf table) ss rest)

length-stored : (ss : List Set) → length (stored_sets ss) ≡ length ss
length-stored [] = refl
length-stored (s ∷ ss) = ap suc (length-stored ss)

nonempty-stored : (ss : List Set) → nonempty (stored_sets ss) ≡ nonempty ss
unfolding nonempty
nonempty-stored [] = refl
nonempty-stored (s ∷ ss) = refl

vector-stored :
    (pf : Platform) (table : TagTable) (ss : List Set)
    → put_vector (write_set pf table) (stored_sets ss) ≡ put_vector (write_set pf table) ss
unfolding put_vector
vector-stored pf table ss = fun_ext λ rest. rw (length-stored ss, sets-stored pf table ss rest) refl

grammar-stored :
    (pf : Platform) (count : ℕ) (tests : List ContextualTest) (g : Grammar) (contexts : Contexts)
    → put_grammar pf count tests (stored g contexts) ≡ put_grammar pf count tests g
unfolding put_grammar grammar_flags
grammar-stored pf count tests g contexts =
    rw (nonempty-stored g.sets_list, vector-stored pf (table_of g.single_tags_list) g.sets_list)
      refl

-- The tests of a well-formed grammar are written in an order in which they can be read.
pub written_tests-IsBound :
    (contexts : Contexts) → IsEachContext contexts → IsBound (written_tests contexts)
written_tests-IsBound contexts i =
    let (w, returned, ordered, there) = write_contexts-IsOrdered contexts i in
    subst IsBound (sym (ap first_to_last returned)) (record {
      linked = rejoin-IsLinkedBefore w.tests [] ordered tt;
      bound = all_bound-rejoin w.tests ordered;
    })

-- The bytes that are written are those of what is kept.
pub write_grammar-stored :
    (pf : Platform) (g : Grammar) (contexts : Contexts)
    → IsWritable pf g contexts
    → write_grammar pf g contexts
      ≡ some (
          put_grammar pf
            (length (written_tests contexts))
            (written_tests contexts)
            (stored g contexts))
unfolding write_grammar
write_grammar-stored pf g contexts i =
    let (w, returned, _, _) = write_contexts-IsOrdered contexts i.trees in
    let tests : rejoin w.tests [] ≡ written_tests contexts = sym (ap first_to_last returned) in
    let bytes : put_grammar pf (count_contexts contexts) (rejoin w.tests []) g
        ≡ put_grammar pf (length (written_tests contexts)) (written_tests contexts)
            (stored g contexts) =
      ap (λ ts. put_grammar pf (count_contexts contexts) ts g) tests
      ∙ ap (λ n. put_grammar pf n (written_tests contexts) g) i.size
      ∙ sym (
          grammar-stored pf (length (written_tests contexts)) (written_tests contexts) g
            contexts) in
    ap
      (λ o. elim o [
        | none ↦ none
        | some w ↦ some (put_grammar pf (count_contexts contexts) (rejoin w.tests []) g)
      ])
      returned
    ∙ ap some bytes

-- A grammar with a test of the hash 0 in `grammar->contexts` is not written: wherever the test stands among the others, and whatever
-- these point to, the program ends.
pub write_grammar-no_hash :
    (pf : Platform) (g : Grammar) (contexts : Contexts)
    → seen_count 0 (roots contexts) ≡ true
    → write_grammar pf g contexts ≡ none
unfolding write_grammar seen_count
write_grammar-no_hash pf g contexts there =
    ap
      (λ o. elim o [
        | none ↦ none
        | some w ↦ some (put_grammar pf (count_contexts contexts) (rejoin w.tests []) g)
      ])
      (tests_refused contexts unwritten there refl)
