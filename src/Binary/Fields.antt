-- ===== src/Binary/Fields.antt =====
-- The fields of a record of a binary grammar: `fields |= (1 << k)` where the writer puts one, `fields & (1 << k)` where the reader
-- asks for it, and a default where it is not there. A text is converted to and from UTF-8 by ICU.
use native.Mathlib.Numerals.{unary_clauses}
use vislcg.Base.{
  ◌==◌, if◌then◌else◌, length, ℕ, zero, suc, ◌+◌, ◌*◌, ◌/◌, ◌%◌, ◌^◌, ◌<◌, ◌≡◌, refl, ap, ◌≢◌, Bool,
  true, false, not, Option, none, some, List, [], ◌∷◌, ◌++◌, arith, word,
}
use vislcg.Binary.{
  Bytes, Text, Reader, Writer, ◌>>=◌, pure, put32, put64, read32, read64, read_bytes, put_vector,
  read_vector, All, Restores, then_lem, read32-put32, read64-put64, read_bytes-append,
  read_vector-put_vector,
}

-- A `double` as the two numbers by which `writeSwapped` writes it, the bits of the mantissa and those of the exponent that `frexp`
-- gives. The mantissa of 0 is 0.
pub record Double : Type 0 where
  pub mant64 : ℕ
  pub exp32 : ℕ

-- What ICU does for the code, `ucnv_fromUChars`, `ucnv_toUChars` and whether `uregex_open` takes a pattern (with
-- `UREGEX_CASE_INSENSITIVE` or without), and the `double` that the bits of an `int32_t` become.
pub record Platform : Type 0 where
  pub encode : Text → Bytes
  pub decode : Bytes → Text
  pub compiles : Bool → Text → Bool
  pub of_int32 : ℕ → Double

-- The two conversions undo each other on a text of at most as many bytes as the buffer of the code takes, and a text that is not
-- empty has bytes.
pub record Converts (pf : Platform) (s : Text) : Type 0 where
  pub decode_encode : pf.decode (pf.encode s) ≡ s
  pub fits : length (pf.encode s) < 8192
  pub has_bytes : s ≢ [] → (length (pf.encode s) == 0) ≡ false

unfoldable pub nonzero : ℕ → Bool
nonzero n = not (n == 0)

unfoldable pub nonempty : {A : Type 0} → List A → Bool
nonempty [] = false
nonempty (x ∷ xs) = true

unfoldable pub is_some : {A : Type 0} → Option A → Bool
is_some none = false
is_some (some a) = true

unfoldable pub mask : List Bool → ℕ
mask [] = 0
mask (b ∷ bs) = (if b then 1 else 0) + 2 * mask bs

unfoldable pub bit : ℕ → ℕ → Bool
bit n zero = n % 2 == 1
bit n (suc k) = bit (n / 2) k

abbrev pub flag : List Bool → ℕ → Bool
flag [] k = false
flag (b ∷ bs) zero = b
flag (b ∷ bs) (suc k) = flag bs k

unfoldable pub put_if : Bool → Writer → Writer
put_if b w rest = if b then w rest else rest

unfoldable pub put_some : {A : Type 0} → (A → Writer) → Option A → Writer
put_some w none rest = rest
put_some w (some a) rest = w a rest

unfoldable pub put_all : List Writer → Writer
put_all [] rest = rest
put_all (w ∷ ws) rest = w (put_all ws rest)

unfoldable pub field : {A : Type 0} → Bool → A → Reader A → Reader A
field b d m s = if b then m s else some (d, s)

unfoldable pub put_text : Platform → Text → Writer
put_text pf s rest = put32 (length (pf.encode s)) (pf.encode s ++ rest)

-- A text of no bytes leaves the field as it was.
unfoldable pub read_text : Platform → Text → Reader Text
read_text pf d = do n ← read32; if n == 0 then pure d else do bs ← read_bytes n; pure (pf.decode bs)

mask-half : (b : Bool) (bs : List Bool) → mask (b ∷ bs) / 2 ≡ mask bs
unfolding mask
mask-half true bs = omega arith
mask-half false bs = omega arith

bit-mask_zero : (b : Bool) (bs : List Bool) → (mask (b ∷ bs) % 2 == 1) ≡ b
unfolding mask
bit-mask_zero true bs = ground arith
bit-mask_zero false bs = ground arith

bit-none : (k : ℕ) → bit 0 k ≡ false
unfolding bit
bit-none zero = refl
bit-none (suc k) = bit-none k

-- A bit of the mask is set when the flag of that number is.
pub bit-mask : (bs : List Bool) (k : ℕ) → bit (mask bs) k ≡ flag bs k
unfolding bit
bit-mask [] k = unfold mask in bit-none k
bit-mask (b ∷ bs) zero = bit-mask_zero b bs
bit-mask (b ∷ bs) (suc k) = rw (mask-half b bs) (bit-mask bs k)

power_suc : (k : ℕ) → 2 ^ suc k ≡ 2 * 2 ^ k
power_suc k = simp unary_clauses (omega arith)

pub mask-lt : (bs : List Bool) → mask bs < 2 ^ length bs
unfolding mask
mask-lt [] = omega arith
mask-lt (true ∷ bs) = rw (power_suc (length bs)) (omega (arith, mask-lt bs))
mask-lt (false ∷ bs) = rw (power_suc (length bs)) (omega (arith, mask-lt bs))

-- A field that is left out where it has its default comes back.
pub field-put_if :
    {A : Type 0} (b : Bool) (d : A) (m : Reader A) (w : Writer) (a : A)
    → (b ≡ true → Restores m w a)
    → (b ≡ false → d ≡ a)
    → Restores (field b d m) (put_if b w) a
unfolding field put_if
field-put_if true d m w a h k rest = h refl rest
field-put_if false d m w a h k rest = ap (λ x. some (x, rest)) (k refl)

pub field-nonzero :
    (n : ℕ) → n < word → Restores (field (nonzero n) 0 read32) (put_if (nonzero n) (put32 n)) n
unfolding nonzero
field-nonzero n h =
    field-put_if (not (n == 0)) 0 read32 (put32 n) n (λ e. read32-put32 n h) (λ e. ground arith)

pub read_text-put_text :
    (pf : Platform) (d s : Text)
    → Converts pf s
    → s ≢ []
    → Restores (read_text pf d) (put_text pf s) s
unfolding read_text put_text pure
read_text-put_text pf d s c h rest =
    then_lem _ _ (read32-put32 (length (pf.encode s)) (omega (arith, c.fits)) _) (
      rw (c.has_bytes h) (
        then_lem _ _ (read_bytes-append (pf.encode s) rest)
          (ap (λ x. some (x, rest)) c.decode_encode)))

pub field-text :
    (pf : Platform) (s : Text)
    → Converts pf s
    → Restores (field (nonempty s) [] (read_text pf [])) (put_if (nonempty s) (put_text pf s)) s
unfolding nonempty
field-text pf [] c = field-put_if false [] _ _ [] (λ e. cc) (λ e. refl)
field-text pf (x ∷ s) c =
    field-put_if true [] _ _ (x ∷ s) (λ e. read_text-put_text pf [] (x ∷ s) c (λ e. cc)) (λ e. cc)

pub field-put_some :
    {A : Type 0} (m : Reader (Option A)) (w : A → Writer) (o : Option A)
    → ((a : A) → o ≡ some a → Restores m (w a) (some a))
    → Restores (field (is_some o) none m) (put_some w o) o
unfolding field put_some is_some
field-put_some m w none h rest = refl
field-put_some m w (some a) h rest = h a refl rest

unfoldable pub read_some : {A : Type 0} → Reader A → Reader (Option (List A))
read_some m = do xs ← read_vector m; pure (some xs)

unfoldable pub put_double : Double → Writer
put_double d rest = put64 d.mant64 (put32 d.exp32 rest)

unfoldable pub read_double : Reader Double
read_double = do m ← read64; e ← read32; pure (record { mant64 = m; exp32 = e })

pub read_double-put_double :
    (d : Double) → d.mant64 < word * word → d.exp32 < word → Restores read_double (put_double d) d
unfolding read_double put_double pure
read_double-put_double d h k rest =
    then_lem _ _ (read64-put64 d.mant64 h _) (then_lem _ _ (read32-put32 d.exp32 k rest) refl)

-- A vector of 32-bit length whose members are all well formed.
pub record IsVector {A : Type 0} (P : A → Type 0) (xs : List A) : Type 0 where
  pub all : All P xs
  pub short : length xs < word

-- A field that holds a vector.
pub field-put_some_vector :
    {A : Type 0} (m : Reader A) (w : A → Writer) (P : A → Type 0) (o : Option (List A))
    → ((a : A) → P a → Restores m (w a) a)
    → ((xs : List A) → o ≡ some xs → IsVector P xs)
    → Restores (field (is_some o) none (read_some m)) (put_some (put_vector w) o) o
unfolding read_some pure
field-put_some_vector m w P o h v = field-put_some _ _ o λ xs e rest.
    then_lem _ _ (read_vector-put_vector m w P h xs (v xs e).all (v xs e).short rest) refl

-- A vector that is left out where it is empty.
pub field-vector_of :
    {A : Type 0} (m : Reader (List A)) (p : A → Writer) (xs : List A)
    → Restores m (put_vector p xs) xs
    → Restores (field (nonempty xs) [] m) (put_if (nonempty xs) (put_vector p xs)) xs
unfolding nonempty
field-vector_of m p [] h = field-put_if _ _ _ _ [] (λ e. cc) (λ e. refl)
field-vector_of m p (x ∷ xs) h = field-put_if _ _ _ _ (x ∷ xs) (λ e. h) (λ e. cc)

pub field-vector :
    (xs : List ℕ)
    → IsVector (λ (n : ℕ). n < word) xs
    → Restores
        (field (nonempty xs) [] (read_vector read32))
        (put_if (nonempty xs) (put_vector put32 xs))
        xs
field-vector xs v =
    field-vector_of _ put32 xs (read_vector-put_vector read32 put32 _ read32-put32 xs v.all v.short)
