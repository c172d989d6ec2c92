-- ===== src/Binary/Grammars/Truncated.antt =====
-- A binary grammar that has been cut off is refused.
use vislcg.Base.{
  ltb, ltb→lt, ltb→le, Bool-cases, Option-cases, length, ◌≤◌, ◌<◌, ◌≡◌, refl, sym, ap, ◌∙◌, ◌≢◌,
  inl, inr, Option, none, some, [], ◌∷◌, ◌++◌, arith,
}
use vislcg.Binary.Contexts.{Contexts}
use vislcg.Binary.{Bytes, Reader, Writer, after, ◌>>=◌, guard, put32, read8, read32}
use vislcg.Binary.Fields.{Platform, bit, put_all}
use vislcg.Binary.Grammars.{
  Grammar, put_magic, put_grammar, write_grammar, read_magic, read_grammar_fields, read_revision,
  parse_grammar,
}
use vislcg.Binary.Grammars.RoundTrip.{IsGrammar, IsBound, parse_grammar-put_grammar}
use vislcg.Binary.Grammars.Stored.{IsWritable, stored, written_tests-IsBound, write_grammar-stored}
use vislcg.Binary.Grammars.Extends.{Extends, readers, read_grammar_fields-Extends}

-- What `parse_grammar` does when it has seen the revision it writes itself.
body-Extends : (pf : Platform) → Extends (read32 >>= λ mask. read_grammar_fields pf (bit mask))
body-Extends pf = search (readers, read_grammar_fields-Extends)

abbrev header : Bytes → Bytes
header rest = 67 ∷ 71 ∷ 51 ∷ 66 ∷ 0 ∷ 0 ∷ 51 ∷ 89 ∷ rest

parse_header :
    (pf : Platform) (old : Reader Grammar) (p : Bytes)
    → parse_grammar pf old (header p) ≡ (read32 >>= λ mask. read_grammar_fields pf (bit mask)) p
unfolding parse_grammar read_magic read8 read32 read_revision guard ◌>>=◌ after
parse_header pf old p = refl

-- The bytes of a grammar whose tests are in the order of writing.
abbrev bytes_of : Platform → Grammar → Bytes
bytes_of pf g = put_grammar pf (length g.contexts) g.contexts g []

write_header : (pf : Platform) (g : Grammar) → (rest : Bytes) × (bytes_of pf g ≡ header rest)
unfolding put_grammar put_all put_magic put32
write_header pf g = (_, refl)

too_short :
    (pf : Platform) (old : Reader Grammar) (p : Bytes)
    → length p < 8
    → parse_grammar pf old p ≡ none
unfolding parse_grammar read_magic read8 read32 guard ◌>>=◌ after
too_short pf old [] l = refl
too_short pf old (a ∷ []) l = refl
too_short pf old (a ∷ b ∷ []) l = refl
too_short pf old (a ∷ b ∷ c ∷ []) l = refl
too_short pf old (a ∷ b ∷ c ∷ d ∷ []) l = ground arith
too_short pf old (a ∷ b ∷ c ∷ d ∷ e ∷ []) l = ground arith
too_short pf old (a ∷ b ∷ c ∷ d ∷ e ∷ f ∷ []) l = ground arith
too_short pf old (a ∷ b ∷ c ∷ d ∷ e ∷ f ∷ g ∷ []) l = ground arith
too_short pf old (a ∷ b ∷ c ∷ d ∷ e ∷ f ∷ g ∷ h ∷ p) l = absurd (omega (arith, l))

long_prefix :
    (p q rest : Bytes) → p ++ q ≡ header rest → 8 ≤ length p → (p' : Bytes) × (p ≡ header p')
long_prefix (a ∷ b ∷ c ∷ d ∷ e ∷ f ∷ g ∷ h ∷ p) q rest k l = (p, ground (arith, k))
long_prefix _ q rest k l = absurd (omega (arith, l))

append-nil_iff : (r q : Bytes) → r ++ q ≡ [] → q ≡ []
append-nil_iff [] q e = e
append-nil_iff (x ∷ r) q e = cc

same_rest :
    {o : Option (Grammar × Bytes)} {g g' : Grammar} {r r' : Bytes}
    → o ≡ some (g, r)
    → o ≡ some (g', r')
    → r ≡ r'
same_rest e e' = cc

-- On a grammar cut off after its revision, the reader of what follows fails.
cut_body :
    (pf : Platform) (old : Reader Grammar) (g : Grammar) (p q : Bytes)
    → IsGrammar pf g
    → IsBound g.contexts
    → q ≢ []
    → header p ++ q ≡ bytes_of pf g
    → parse_grammar pf old (header p) ≡ none
cut_body pf old g p q w k ne e = elim (Option-cases (parse_grammar pf old (header p))) [
  | inl n ↦ n
  | inr (result, found) ↦ absurd (
      ne (
        append-nil_iff result.1 q (
          same_rest
            ((parse_header pf old (p ++ q)
              ∙ (body-Extends pf).extend p q result.1 result.0
                  (sym (parse_header pf old p) ∙ found)))
            (ap (parse_grammar pf old) e ∙ parse_grammar-put_grammar pf old g w k []))))
]

cut_off :
    (pf : Platform) (old : Reader Grammar) (g : Grammar) (p q : Bytes)
    → IsGrammar pf g
    → IsBound g.contexts
    → q ≢ []
    → p ++ q ≡ bytes_of pf g
    → parse_grammar pf old p ≡ none
cut_off pf old g p q w k ne e = elim (Bool-cases (ltb (length p) 8)) [
  | inl l ↦ too_short pf old p (ltb→lt _ _ l)
  | inr l ↦
      let found = long_prefix p q _ (e ∙ (write_header pf g).1) (ltb→le _ _ l) in
      rw (found.1) (cut_body pf old g found.0 q w k ne (ap (λ s. s ++ q) (sym (found.1)) ∙ e))
]

same_writer : {w w' : Writer} → some w ≡ some w' → w ≡ w'
same_writer e = cc

-- A well-formed grammar that has been written and has lost its end, be it one byte or the whole, is refused.
pub parse_grammar-truncated :
    (pf : Platform) (old : Reader Grammar) (g : Grammar) (contexts : Contexts) (bytes : Writer)
    (p q : Bytes)
    → IsWritable pf g contexts
    → write_grammar pf g contexts ≡ some bytes
    → q ≢ []
    → p ++ q ≡ bytes []
    → parse_grammar pf old p ≡ none
parse_grammar-truncated pf old g contexts bytes p q i w ne e =
    cut_off pf old (stored g contexts) p q i.kept (written_tests-IsBound contexts i.trees) ne
      (e ∙ ap (λ b. b []) (same_writer (sym w ∙ write_grammar-stored pf g contexts i)))
