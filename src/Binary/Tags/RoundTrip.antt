-- ===== src/Binary/Tags/RoundTrip.antt =====
-- A tag of a binary grammar is read back as it was written.
use mathlib.Core.Path.{fun_ext}
use vislcg.Base.{length, ℕ, ◌*◌, ◌<◌, ◌≡◌, refl, ap, ◌≢◌, Bool, some, List, [], ◌∷◌, arith, word}
use vislcg.Binary.{
  after, Text, ◌>>=◌, pure, guard, put32, read32, put_each, put_vector, All, Restores, then_lem,
  read32-put32, read_bytes-append,
}
use vislcg.Binary.Fields.{
  Double, Platform, nonzero, mask, put_if, put_all, field, put_text, bit-mask, mask-lt,
  field-put_if, field-nonzero, field-text, field-put_some, read_some, put_double, read_double,
  read_double-put_double, IsVector, field-put_some_vector,
}
use vislcg.Binary.Tags.{
  read_op, Regexp, Tag, t_grammar, tag_flags, write_tag, read_regexp, read_name, push_name,
  read_names, read_vs_names, read_tag_fields, read_tag, IsName, IsRegexp, IsTag,
}

read_regexp-put_text :
    (pf : Platform) (icase : Bool) (r : Regexp)
    → IsRegexp pf icase r
    → Restores (read_regexp pf icase) (put_text pf r.pattern) (some r)
unfolding read_regexp put_text pure guard
read_regexp-put_text pf icase r w rest =
    then_lem _ _ (read32-put32 (length (pf.encode r.pattern)) (omega (arith, w.converts.fits)) _) (
      rw (w.converts.has_bytes w.is_nonempty) (
        then_lem _ _ (read_bytes-append (pf.encode r.pattern) rest)
          (rw (w.converts.decode_encode, w.is_compiled, w.same_case) (then_lem _ _ refl refl))))

read_name-put_text :
    (pf : Platform) (s : Text) → IsName pf s → Restores (read_name pf) (put_text pf s) (some s)
unfolding read_name put_text pure
read_name-put_text pf s w rest =
    then_lem _ _ (read32-put32 (length (pf.encode s)) (omega (arith, w.converts.fits)) _) (
      rw (w.converts.has_bytes w.is_nonempty)
        (then_lem _ _ (read_bytes-append (pf.encode s) rest) (rw (w.converts.decode_encode) refl)))

read_names-put_each :
    (pf : Platform) (ns : List Text)
    → All (IsName pf) ns
    → Restores (read_names pf (length ns)) (put_each (put_text pf) ns) ns
unfolding read_names put_each pure push_name
read_names-put_each pf [] a rest = refl
read_names-put_each pf (n ∷ ns) (w, ws) rest =
    then_lem _ _ (read_name-put_text pf n w _)
      (then_lem _ _ (read_names-put_each pf ns ws rest) refl)

type_field :
    (n : ℕ)
    → n < word
    → n ≢ 0
    → Restores (field (nonzero n) t_grammar read32) (put_if (nonzero n) (put32 n)) n
unfolding nonzero
type_field n h z = field-put_if _ _ _ _ n (λ e. read32-put32 n h) (λ e. ground arith)

op_field :
    (n : ℕ) → n < 256 → Restores (field (nonzero n) 0 read_op) (put_if (nonzero n) (put32 n)) n
unfolding nonzero read_op pure
op_field n h =
    field-put_if _ _ _ _ n
      (λ e rest.
        then_lem _ _ (read32-put32 n (omega (arith, h)) rest)
          (ap (λ m. some (m, rest)) (omega (arith, h))))
      (λ e. ground arith)

read_vs_names-put_vector :
    (pf : Platform) (ns : List Text)
    → IsVector (IsName pf) ns
    → Restores (read_vs_names pf) (put_vector (put_text pf) ns) (some ns)
unfolding read_vs_names put_vector pure
read_vs_names-put_vector pf ns v rest =
    then_lem _ _ (read32-put32 (length ns) v.short _)
      (then_lem _ _ (read_names-put_each pf ns v.all rest) refl)

abbrev double : ℕ → ℕ → Double
double m e = record { mant64 = m; exp32 = e }

zero_double : (m e : ℕ) → m ≡ 0 → e ≡ 0 → double 0 0 ≡ double m e
zero_double m e h k = rw (h, k) refl

read_value-put_if :
    (d : Double)
    → d.mant64 < word * word
    → d.exp32 < word
    → (d.mant64 ≡ 0 → d.exp32 ≡ 0)
    → Restores
        (field (nonzero d.mant64) (record { mant64 = 0; exp32 = 0 }) read_double)
        (put_if (nonzero d.mant64) (put_double d))
        d
unfolding nonzero
read_value-put_if d h k z =
    field-put_if _ _ _ _ d (λ e. read_double-put_double d h k)
      (λ e. zero_double d.mant64 d.exp32 (ground arith) (z (ground arith)))

-- A well-formed tag that has been written is read back, and reading stops where the tag ends.
pub read_tag-write_tag :
    (pf : Platform) (t : Tag) → IsTag pf t → Restores (read_tag pf) (write_tag pf t) t
unfolding read_tag write_tag tag_flags put_all pure read_tag_fields ◌>>=◌ after field read_some
read_tag-write_tag pf t w rest =
    rw
      (
        read32-put32 (mask (tag_flags t)) (omega (arith, mask-lt (tag_flags t))),
        fun_ext (bit-mask (tag_flags t)),
        field-nonzero t.number w.number,
        field-nonzero t.hash w.hash,
        field-nonzero t.plain_hash w.plain_hash,
        field-nonzero t.seed w.seed,
        type_field t.type w.type w.type_nonzero,
        field-nonzero t.comparison_hash w.comparison_hash,
        op_field t.comparison_op w.comparison_op,
        read_value-put_if t.comparison_val w.mant64 w.exp32 w.zero_exp32,
        field-text pf t.tag w.tag,
        field-put_some _ _ t.regexp (λ r e. read_regexp-put_text pf _ r (w.regexp r e)),
        field-put_some_vector _ _ _ t.vs_sets read32-put32 w.vs_sets,
        field-put_some _ _ t.vs_names (λ ns e. read_vs_names-put_vector pf ns (w.vs_names ns e)),
      )
      refl
