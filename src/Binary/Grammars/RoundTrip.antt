-- ===== src/Binary/Grammars/RoundTrip.antt =====
-- The bytes of a binary grammar are read back.
use mathlib.Core.Path.{fun_ext}
use vislcg.Base.{
  length, length-append, ℕ, suc, ◌<◌, ◌≡◌, ◌≢◌, refl, ap, ◌∙◌, Option, none, some, List, [], ◌∷◌,
  Bool, true, false, ◌++◌, arith, word,
}
use vislcg.Binary.{
  Bytes, Reader, Writer, put32, after, ◌>>=◌, pure, guard, read8, put_each, put_vector, read_vector,
  Restores, then_lem, read32-put32, read_bytes-append, read_times-put_each, read_vector-put_vector,
}
use vislcg.Binary.Fields.{
  Platform, Converts, nonzero, nonempty, mask, put_if, put_all, field, put_text, bit-mask, mask-lt,
  field-put_if, IsVector, field-vector_of, field-vector,
}
use vislcg.Binary.Tags.{Tag, write_tag, read_tag, IsTag}
use vislcg.Binary.Tags.RoundTrip.{read_tag-write_tag}
use vislcg.Binary.Sets.{TagTable, Set, write_set, read_set}
use vislcg.Binary.Sets.RoundTrip.{IsWrittenSet, read_set-write_set}
use vislcg.Binary.Contexts.{ContextualTest, read_counted_contexts, hashes, all_bound}
use vislcg.Binary.Contexts.RoundTrip.{IsTest, IsLinkedBefore, read_counted_contexts-put_vector}
use vislcg.Binary.Rules.{Rule, write_rule, read_rule, IsRule}
use vislcg.Binary.Rules.RoundTrip.{reference_lem, read_rule-write_rule}
use vislcg.Binary.Grammars.{
  default_prefix, Pair, Grammar, feature_rev, table_of, grammar_flags, put_pair, put_magic,
  put_contexts, put_grammar, read_magic, first_of, read_prefix, read_pair, set_slot, place, slots,
  filled, from_slots, read_numbered, swapped, read_grammar_fields, read_revision, parse_grammar,
}

-- Members are numbered by their places.
abbrev pub Numbered : {A : Type 0} → (A → ℕ) → ℕ → List A → Type 0
Numbered number n [] = Unit {0}
Numbered number n (x ∷ xs) = (number x ≡ n) × Numbered number (suc n) xs

pub record IsList {A : Type 0} (P : A → Type 0) (number : A → ℕ) (xs : List A) : Type 0 where
  pub vector : IsVector P xs
  pub numbered : Numbered number 0 xs

abbrev pub IsPair : Pair → Type 0
IsPair p = (p.left < word) × (p.right < word)

-- A grammar whose parts are well formed, whose tags, sets and rules have the numbers of their places, and whose parentheses are also
-- kept the other way round, and which has a mapping prefix.
pub record IsGrammar (pf : Platform) (g : Grammar) : Type 0 where
  pub mapping_prefix : Converts pf (g.mapping_prefix ∷ [])
  pub has_prefix : g.mapping_prefix ≢ 0
  pub tags : IsList (IsTag pf) (λ (t : Tag). t.number) g.single_tags_list
  pub reopen_mappings : IsVector (λ (n : ℕ). n < word) g.reopen_mappings
  pub preferred_targets : IsVector (λ (n : ℕ). n < word) g.preferred_targets
  pub parentheses : IsVector IsPair g.parentheses
  pub parentheses_reverse : swapped g.parentheses ≡ g.parentheses_reverse
  pub anchors : IsVector IsPair g.anchors
  pub sets :
      IsList (IsWrittenSet pf (table_of g.single_tags_list)) (λ (s : Set). s.number) g.sets_list
  pub delimiters : (n : ℕ) → g.delimiters ≡ some n → n < word
  pub soft_delimiters : (n : ℕ) → g.soft_delimiters ≡ some n → n < word
  pub contexts : IsVector IsTest g.contexts
  pub rules : IsList (IsRule pf) (λ (r : Rule). r.number) g.rule_by_number

module _ {A : Type 0} where
  -- Slots that hold the members of a list, before others.
  abbrev wrapped : List A → List (Option A) → List (Option A)
  wrapped [] rest = rest
  wrapped (x ∷ xs) rest = some x ∷ wrapped xs rest

  set_slot-wrapped :
      (front : List A) (x : A) (rest : List (Option A))
      → set_slot (length front) x (wrapped front (none ∷ rest))
        ≡ some (wrapped front (some x ∷ rest))
  unfolding set_slot
  set_slot-wrapped [] x rest = refl
  set_slot-wrapped (y ∷ front) x rest = rw (set_slot-wrapped front x rest) refl

  wrapped-append :
      (front xs : List A) (rest : List (Option A))
      → wrapped (front ++ xs) rest ≡ wrapped front (wrapped xs rest)
  wrapped-append [] xs rest = refl
  wrapped-append (y ∷ front) xs rest = ap (λ ss. some y ∷ ss) (wrapped-append front xs rest)

  place_step :
      (number : A → ℕ) (x : A) (xs : List A) (ss : List (Option A)) {ss' : List (Option A)}
      {r : Option (List (Option A))}
      → set_slot (number x) x ss ≡ some ss'
      → place number xs ss' ≡ r
      → place number (x ∷ xs) ss ≡ r
  unfolding place
  place_step number x xs ss h k = rw (place, h) k

  length_snoc : (front : List A) (x : A) → length (front ++ x ∷ []) ≡ suc (length front)
  length_snoc front x = omega (arith, length-append front (x ∷ []))

  place-wrapped :
      (number : A → ℕ) (front xs : List A)
      → Numbered number (length front) xs
      → place number xs (wrapped front (slots (length xs))) ≡ some (wrapped front (wrapped xs []))
  unfolding place slots
  place-wrapped number front [] n = refl
  place-wrapped number front (x ∷ xs) (e, n) =
      place_step number x xs _ {ss' = wrapped front (some x ∷ slots (length xs))}
        (rw (e) (set_slot-wrapped front x (slots (length xs))))
        (rw (← wrapped-append front (x ∷ []) (slots (length xs))) (
          place-wrapped number (front ++ x ∷ []) xs (rw (length_snoc front x) n)
          ∙ ap some (wrapped-append front (x ∷ []) (wrapped xs []))))

  filled-wrapped : (xs : List A) → filled (wrapped xs []) ≡ some xs
  unfolding filled
  filled-wrapped [] = refl
  filled-wrapped (x ∷ xs) = rw (filled-wrapped xs) refl

  read_numbered-put_vector :
      (number : A → ℕ) (m : Reader A) (p : A → Writer) (P : A → Type 0)
      → ((a : A) → P a → Restores m (p a) a)
      → (xs : List A) → IsList P number xs
      → Restores (read_numbered number m) (put_vector p xs) xs
  unfolding read_numbered put_vector from_slots
  read_numbered-put_vector number m p P h xs w rest =
      then_lem _ _ (read32-put32 (length xs) w.vector.short _) (
        then_lem _ _ (read_times-put_each m p P h xs w.vector.all rest)
          (rw (place-wrapped number [] xs w.numbered, filled-wrapped xs) refl))

read_pair-put_pair : (p : Pair) → IsPair p → Restores read_pair (put_pair p) p
unfolding read_pair put_pair pure
read_pair-put_pair p (h, k) rest =
    then_lem _ _ (read32-put32 p.left h _) (then_lem _ _ (read32-put32 p.right k rest) refl)

prefix_field :
    (pf : Platform) (c : ℕ)
    → Converts pf (c ∷ [])
    → c ≢ 0
    → Restores
        (field (nonzero c) default_prefix (read_prefix pf))
        (put_if (nonzero c) (put_text pf (c ∷ [])))
        c
unfolding read_prefix put_text pure first_of nonzero
prefix_field pf c w nz =
    field-put_if _ _ _ _ c
      (λ e rest.
        then_lem _ _ (read32-put32 (length (pf.encode (c ∷ []))) (omega (arith, w.fits)) _)
          (then_lem _ _ (read_bytes-append (pf.encode (c ∷ [])) rest) (rw (w.decode_encode) refl)))
      (λ e. ground arith)

pairs_field :
    (ps : List Pair)
    → IsVector IsPair ps
    → Restores
        (field (nonempty ps) [] (read_vector read_pair))
        (put_if (nonempty ps) (put_vector put_pair ps))
        ps
pairs_field ps v =
    field-vector_of _ _ ps
      (read_vector-put_vector read_pair put_pair IsPair read_pair-put_pair ps v.all v.short)

tags_field :
    (pf : Platform) (xs : List Tag)
    → IsList (IsTag pf) (λ (t : Tag). t.number) xs
    → Restores
        (field (nonempty xs) [] (read_numbered (λ (t : Tag). t.number) (read_tag pf)))
        (put_if (nonempty xs) (put_vector (write_tag pf) xs))
        xs
tags_field pf xs w = field-vector_of _ _ xs (
    read_numbered-put_vector (λ (t : Tag). t.number) (read_tag pf) (write_tag pf) (IsTag pf)
      (read_tag-write_tag pf) xs w)

sets_field :
    (pf : Platform) (table : TagTable) (xs : List Set)
    → IsList (IsWrittenSet pf table) (λ (s : Set). s.number) xs
    → Restores
        (field (nonempty xs) [] (read_numbered (λ (s : Set). s.number) (read_set pf table)))
        (put_if (nonempty xs) (put_vector (write_set pf table) xs))
        xs
sets_field pf table xs w = field-vector_of _ _ xs (
    read_numbered-put_vector (λ (s : Set). s.number) (read_set pf table) (write_set pf table)
      (IsWrittenSet pf table) (read_set-write_set pf table) xs w)

rules_field :
    (pf : Platform) (xs : List Rule)
    → IsList (IsRule pf) (λ (r : Rule). r.number) xs
    → Restores
        (field (nonempty xs) [] (read_numbered (λ (r : Rule). r.number) (read_rule pf)))
        (put_if (nonempty xs) (put_vector (write_rule pf) xs))
        xs
rules_field pf xs w = field-vector_of _ _ xs (
    read_numbered-put_vector (λ (r : Rule). r.number) (read_rule pf) (write_rule pf) (IsRule pf)
      (read_rule-write_rule pf) xs w)

tests_field :
    (ts : List ContextualTest)
    → IsVector IsTest ts
    → IsLinkedBefore [] ts
    → Restores
        (field (nonzero (length ts)) [] read_counted_contexts)
        (put_contexts (length ts) ts)
        ts
unfolding put_contexts put_each put_vector put_if nonzero field
tests_field [] v l rest = refl
tests_field (t ∷ ts) v l rest =
    counted (nonzero (suc (length ts))) (ground arith) (suc (length ts)) _
      (read_counted_contexts-put_vector (t ∷ ts) v l rest)
  where
    counted :
        (b : Bool)
        → b ≡ true
        → (n : ℕ) (body : Bytes) {r : Option (List ContextualTest × Bytes)}
        → read_counted_contexts (put32 n body) ≡ r
        → field b [] read_counted_contexts (put_if b (put32 n) body) ≡ r
    counted true e n body h = h
    counted false e n body h = cc

-- The tests in an order in which they can be read.
pub record IsBound (ts : List ContextualTest) : Type 0 where
  pub linked : IsLinkedBefore [] ts
  pub bound : all_bound (hashes ts) ts ≡ true

pub parse_grammar-put_grammar :
    (pf : Platform) (old : Reader Grammar) (g : Grammar)
    → IsGrammar pf g
    → IsBound g.contexts
    → Restores (parse_grammar pf old) (put_grammar pf (length g.contexts) g.contexts g) g
unfolding parse_grammar put_grammar put_magic read_magic read_revision read_grammar_fields
    grammar_flags put_all pure read8 guard ◌>>=◌ after field
parse_grammar-put_grammar pf old g w k rest =
    rw
      (
        read32-put32 feature_rev (omega arith),
        read32-put32 (mask (grammar_flags (length g.contexts) g))
            (omega (arith, mask-lt (grammar_flags (length g.contexts) g))),
        fun_ext (bit-mask (grammar_flags (length g.contexts) g)),
        prefix_field pf g.mapping_prefix w.mapping_prefix w.has_prefix,
        tags_field pf g.single_tags_list w.tags,
        field-vector g.reopen_mappings w.reopen_mappings,
        field-vector g.preferred_targets w.preferred_targets,
        pairs_field g.parentheses w.parentheses,
        pairs_field g.anchors w.anchors,
        sets_field pf (table_of g.single_tags_list) g.sets_list w.sets,
        reference_lem g.delimiters w.delimiters,
        reference_lem g.soft_delimiters w.soft_delimiters,
        tests_field g.contexts w.contexts k.linked,
        rules_field pf g.rule_by_number w.rules,
        k.bound,
        w.parentheses_reverse,
      )
      refl
