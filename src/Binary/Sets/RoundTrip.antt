-- ===== src/Binary/Sets/RoundTrip.antt =====
-- A set of a binary grammar is read back as it was written.
use mathlib.Core.Path.{fun_ext}
use vislcg.Base.{if◌then◌else◌, ℕ, ◌<◌, ◌≡◌, refl, sym, ◌≢◌, Bool, true, false, [], arith, word}
use vislcg.Trie.{empty, entry, Trie, size}
use vislcg.Trie.Order.{IsSorted}
use vislcg.Binary.{
  Text, after, ◌>>=◌, pure, put8, read8, Restores, then_lem, read32-put32, read8-put8,
}
use vislcg.Binary.Fields.{
  Platform, Converts, nonzero, mask, bit, put_if, put_all, field, put_text, read_text, bit-mask,
  mask-lt, field-put_if, field-nonzero, read_text-put_text, IsVector, field-vector,
}
use vislcg.Binary.Sets.{
  TagTable, Set, st_static, trie_nonempty, has_tags, set_flags, put_tries, write_set, BothTries,
  read_tries, read_set_fields, read_set,
}
use vislcg.Binary.Sets.Tries.{IsWritable, read_trie-put_trie}

-- A trie that the format can hold.
pub record IsTrie (tags : TagTable) (trie : Trie) : Type 0 where
  pub writable : IsWritable tags trie
  pub sorted : IsSorted trie
  pub short : size trie < word

-- A set whose numbers fit their words and whose tries are sorted and of the grammar's tags. The format keeps the name of a set that
-- is `ST_STATIC` only.
pub record IsWrittenSet (pf : Platform) (tags : TagTable) (s : Set) : Type 0 where
  pub number : s.number < word
  pub type : s.type < 256
  pub trie : IsTrie tags s.trie
  pub trie_special : IsTrie tags s.trie_special
  pub set_ops : IsVector (λ (n : ℕ). n < word) s.set_ops
  pub sets : IsVector (λ (n : ℕ). n < word) s.sets
  pub name : Converts pf s.name
  pub static_name : bit s.type st_static ≡ true → s.name ≢ []
  pub other_name : bit s.type st_static ≡ false → s.name ≡ []

type_field :
    (n : ℕ) → n < 256 → Restores (field (nonzero n) 0 read8) (put_if (nonzero n) (put8 n)) n
unfolding nonzero
type_field n h = field-put_if _ _ _ _ n (λ e. read8-put8 n h) (λ e. ground arith)

name_field :
    (pf : Platform) (b : Bool) (s : Text)
    → Converts pf s
    → (b ≡ true → s ≢ [])
    → (b ≡ false → s ≡ [])
    → Restores (field b [] (read_text pf [])) (put_if b (put_text pf s)) s
name_field pf b s c h k =
    field-put_if b _ _ _ s (λ e. read_text-put_text pf [] s c (h e)) (λ e. sym (k e))

size-zero : (trie : Trie) → trie_nonempty trie ≡ false → trie ≡ empty
unfolding trie_nonempty size nonzero
size-zero empty e = refl
size-zero (entry key t c rest) e = absurd (ground (arith, e))

abbrev both : Trie → Trie → BothTries
both t t' = record { trie = t; trie_special = t' }

no_tries :
    (t t' : Trie)
    → (if trie_nonempty t then true else trie_nonempty t') ≡ false
    → both empty empty ≡ both t t'
no_tries t t' e = rw (size-zero t (ground (arith, e)), size-zero t' (ground (arith, e))) refl

tries_field :
    (tags : TagTable) (s : Set)
    → IsTrie tags s.trie
    → IsTrie tags s.trie_special
    → Restores
        (field (has_tags s) (both empty empty) (read_tries tags))
        (put_if (has_tags s) (put_tries tags s))
        (both s.trie s.trie_special)
unfolding has_tags read_tries put_tries pure
tries_field tags s w w' =
    field-put_if _ _ _ _ _
      (λ e rest. then_lem _ _ (read_trie-put_trie tags s.trie w.writable w.sorted w.short _) (
        then_lem _ _ (read_trie-put_trie tags s.trie_special w'.writable w'.sorted w'.short rest)
          refl))
      (no_tries s.trie s.trie_special)

-- A well-formed set that has been written is read back, and reading stops where the set ends.
pub read_set-write_set :
    (pf : Platform) (tags : TagTable) (s : Set)
    → IsWrittenSet pf tags s
    → Restores (read_set pf tags) (write_set pf tags s) s
unfolding read_set write_set set_flags put_all pure read_set_fields ◌>>=◌ after field
read_set-write_set pf tags s w rest =
    rw
      (
        read32-put32 (mask (set_flags s)) (omega (arith, mask-lt (set_flags s))),
        fun_ext (bit-mask (set_flags s)),
        field-nonzero s.number w.number,
        type_field s.type w.type,
        tries_field tags s w.trie w.trie_special,
        field-vector s.set_ops w.set_ops,
        field-vector s.sets w.sets,
        name_field pf (bit s.type st_static) s.name w.name w.static_name w.other_name,
      )
      refl
