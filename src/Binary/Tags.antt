-- ===== src/Binary/Tags.antt =====
-- The tags of a binary grammar: the loop over `single_tags_list` of `BinaryGrammar::writeBinaryGrammar` in
-- src/BinaryGrammar_write.cpp, and the one of `BinaryGrammar::parse_grammar` in src/BinaryGrammar_read.cpp that reads them.
pub mod RoundTrip
use vislcg.Base.{
  ltb, leb, ◌==◌, if◌then◌else◌, ltb→lt, ltb→le, leb→le, leb→lt, ==_iff, Bool-cases, Option-cases,
  if_elim, length, rejoin, length-append, ℕ, zero, suc, ◌+◌, ◌-◌, ◌*◌, ◌/◌, ◌%◌, ◌^◌, ◌≤◌, ◌<◌, min,
  max, ◌≡◌, refl, sym, ap, ◌∙◌, ◌≢◌, ◌↔◌, ◌⊎◌, inl, inr, Bool, true, false, not, ◌&&◌, ◌||◌, Option,
  none, some, List, [], ◌∷◌, ◌++◌, map, arith, word,
}
use vislcg.Binary.{
  Bytes, Text, Reader, Writer, ◌>>=◌, ◌>>◌, pure, fail, guard, put8, put32, put64, read8, read32,
  read64, read_bytes, read_times, put_each, put_vector, read_vector, All, Restores, then_lem,
  read32-put32, read8-put8, read64-put64, read_bytes-append, read_times-put_each,
  read_vector-put_vector,
}
use vislcg.Binary.Fields.{
  Double, Platform, Converts, nonzero, nonempty, is_some, mask, bit, flag, put_if, put_some,
  put_all, field, put_text, read_text, bit-mask, mask-lt, field-put_if, field-nonzero,
  read_text-put_text, field-text, field-put_some, read_some, put_double, read_double,
  read_double-put_double, IsVector, field-put_some_vector,
}

-- A compiled regular expression: its pattern, and whether it ignores case.
pub record Regexp : Type 0 where
  pub pattern : Text
  pub icase : Bool

-- The sets of a variable string are known by their numbers.
pub record Tag : Type 0 where
  pub number : ℕ
  pub hash : ℕ
  pub plain_hash : ℕ
  pub seed : ℕ
  pub type : ℕ
  pub comparison_hash : ℕ
  pub comparison_op : ℕ
  pub comparison_val : Double
  pub tag : Text
  pub regexp : Option Regexp
  pub vs_sets : Option (List ℕ)
  pub vs_names : Option (List Text)

-- `T_GRAMMAR`, which each tag of a grammar starts with, and the number of the bit `T_CASE_INSENSITIVE`.
abbrev pub t_grammar : ℕ
t_grammar = 2 ^ 22

abbrev pub t_case_insensitive : ℕ
t_case_insensitive = 11

-- Bit 7 was the number compared with in the format of before, and is not written.
unfoldable pub tag_flags : Tag → List Bool
tag_flags t =
    nonzero t.number
    ∷ nonzero t.hash
    ∷ nonzero t.plain_hash
    ∷ nonzero t.seed
    ∷ nonzero t.type
    ∷ nonzero t.comparison_hash
    ∷ nonzero t.comparison_op
    ∷ false
    ∷ nonempty t.tag
    ∷ is_some t.regexp
    ∷ is_some t.vs_sets
    ∷ is_some t.vs_names
    ∷ nonzero t.comparison_val.mant64
    ∷ []

unfoldable pub write_tag : Platform → Tag → Writer
write_tag pf t = put_all (
    put32 (mask (tag_flags t))
    ∷ put_if (nonzero t.number) (put32 t.number)
    ∷ put_if (nonzero t.hash) (put32 t.hash)
    ∷ put_if (nonzero t.plain_hash) (put32 t.plain_hash)
    ∷ put_if (nonzero t.seed) (put32 t.seed)
    ∷ put_if (nonzero t.type) (put32 t.type)
    ∷ put_if (nonzero t.comparison_hash) (put32 t.comparison_hash)
    ∷ put_if (nonzero t.comparison_op) (put32 t.comparison_op)
    ∷ put_if (nonzero t.comparison_val.mant64) (put_double t.comparison_val)
    ∷ put_if (nonempty t.tag) (put_text pf t.tag)
    ∷ put_some (λ (r : Regexp). put_text pf r.pattern) t.regexp
    ∷ put_some (put_vector put32) t.vs_sets
    ∷ put_some (put_vector (put_text pf)) t.vs_names
    ∷ [])

unfoldable pub read_old_value : Platform → Reader Double
read_old_value pf = do n ← read32; pure (pf.of_int32 n)

-- `C_OPS` is a `uint8_t`.
unfoldable pub read_op : Reader ℕ
read_op = do n ← read32; pure (n % 256)

-- An empty pattern leaves the tag without a regular expression; one that ICU refuses ends the program.
unfoldable pub read_regexp : Platform → Bool → Reader (Option Regexp)
read_regexp pf icase = do
  n ← read32
  if n == 0 then pure none else do
    bs ← read_bytes n
    guard (pf.compiles icase (pf.decode bs))
    pure (some (record { pattern = pf.decode bs; icase = icase }))

-- A name of no bytes is dropped.
unfoldable pub read_name : Platform → Reader (Option Text)
read_name pf = do
  n ← read32
  if n == 0 then pure none else do bs ← read_bytes n; pure (some (pf.decode bs))

unfoldable pub push_name : Option Text → List Text → List Text
push_name none names = names
push_name (some name) names = name ∷ names

unfoldable pub read_names : Platform → ℕ → Reader (List Text)
read_names pf zero = pure []
read_names pf (suc n) = do name ← read_name pf; names ← read_names pf n; pure (push_name name names)

unfoldable pub read_vs_names : Platform → Reader (Option (List Text))
read_vs_names pf = do n ← read32; names ← read_names pf n; pure (some names)

-- The reader asks for the fields by the bits of the mask.
unfoldable pub read_tag_fields : Platform → (ℕ → Bool) → Reader Tag
read_tag_fields pf has = do
  number ← field (has 0) 0 read32
  hash ← field (has 1) 0 read32
  plain_hash ← field (has 2) 0 read32
  seed ← field (has 3) 0 read32
  type ← field (has 4) t_grammar read32
  comparison_hash ← field (has 5) 0 read32
  comparison_op ← field (has 6) 0 read_op
  old_value ← field (has 7) (record { mant64 = 0; exp32 = 0 }) (read_old_value pf)
  comparison_val ← field (has 12) old_value read_double
  tag ← field (has 8) [] (read_text pf [])
  regexp ← field (has 9) none (read_regexp pf (bit type t_case_insensitive))
  vs_sets ← field (has 10) none (read_some read32)
  vs_names ← field (has 11) none (read_vs_names pf)
  pure (record {
    number = number;
    hash = hash;
    plain_hash = plain_hash;
    seed = seed;
    type = type;
    comparison_hash = comparison_hash;
    comparison_op = comparison_op;
    comparison_val = comparison_val;
    tag = tag;
    regexp = regexp;
    vs_sets = vs_sets;
    vs_names = vs_names;
  })

unfoldable pub read_tag : Platform → Reader Tag
read_tag pf = do mask ← read32; read_tag_fields pf (bit mask)

pub record IsName (pf : Platform) (s : Text) : Type 0 where
  pub converts : Converts pf s
  pub is_nonempty : s ≢ []

pub record IsRegexp (pf : Platform) (icase : Bool) (r : Regexp) : Type 0 where
  pub converts : Converts pf r.pattern
  pub is_nonempty : r.pattern ≢ []
  pub is_compiled : pf.compiles icase r.pattern ≡ true
  pub same_case : icase ≡ r.icase

-- A tag whose numbers fit their words, whose texts ICU converts, and whose regular expression was compiled as its type says. Every
-- tag of a grammar has `T_GRAMMAR` in its type.
pub record IsTag (pf : Platform) (t : Tag) : Type 0 where
  pub number : t.number < word
  pub hash : t.hash < word
  pub plain_hash : t.plain_hash < word
  pub seed : t.seed < word
  pub type : t.type < word
  pub type_nonzero : t.type ≢ 0
  pub comparison_hash : t.comparison_hash < word
  pub comparison_op : t.comparison_op < 256
  pub mant64 : t.comparison_val.mant64 < word * word
  pub exp32 : t.comparison_val.exp32 < word
  pub zero_exp32 : t.comparison_val.mant64 ≡ 0 → t.comparison_val.exp32 ≡ 0
  pub tag : Converts pf t.tag
  pub regexp : (r : Regexp) → t.regexp ≡ some r → IsRegexp pf (bit t.type t_case_insensitive) r
  pub vs_sets : (ns : List ℕ) → t.vs_sets ≡ some ns → IsVector (λ (n : ℕ). n < word) ns
  pub vs_names : (ns : List Text) → t.vs_names ≡ some ns → IsVector (IsName pf) ns
