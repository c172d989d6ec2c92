-- ===== src/Binary.antt =====
-- The byte streams of binary grammars: `writeSwapped`, `readSwapped` and `fread_throw` of src/inlines.hpp, and the steps that
-- src/BinaryGrammar_write.cpp and src/BinaryGrammar_read.cpp repeat for each field: a mask of the fields that are there, numbers in
-- network order, texts and vectors behind their length. A byte is a number below 256. Where the code throws or quits, a reader gives
-- `none`.
pub mod Fields
pub mod Tags
pub mod Rules
pub mod Sets
pub mod Contexts
pub mod Grammars
use vislcg.Base.{
  ltb, leb, ◌==◌, if◌then◌else◌, ltb→lt, ltb→le, leb→le, leb→lt, ==_iff, Bool-cases, Option-cases,
  if_elim, length, rejoin, length-append, ℕ, zero, suc, ◌+◌, ◌-◌, ◌*◌, ◌/◌, ◌%◌, ◌^◌, ◌≤◌, ◌<◌, min,
  max, ◌≡◌, refl, sym, ap, ◌∙◌, ◌≢◌, ◌↔◌, ◌⊎◌, inl, inr, Bool, true, false, not, ◌&&◌, ◌||◌, Option,
  none, some, List, [], ◌∷◌, ◌++◌, map, arith, word,
}

abbrev pub Bytes : Type 0
Bytes = List ℕ

abbrev pub Text : Type 0
Text = List ℕ

abbrev pub Reader : Type 0 → Type 0
Reader A = Bytes → Option (A × Bytes)

abbrev pub Writer : Type 0
Writer = Bytes → Bytes

-- What a reader does next with the value that one before it has read; a failure stays a failure.
unfoldable pub after : {A B : Type 0} → (A → Reader B) → Option (A × Bytes) → Option (B × Bytes)
after f none = none
after f (some (a, s)) = f a s

infixl 5 ◌>>=◌ ◌>>◌
unfoldable pub ◌>>=◌ : {A B : Type 0} → Reader A → (A → Reader B) → Reader B
unfolding after
◌>>=◌ m f s = after f (m s)

abbrev pub ◌>>◌ : {B : Type 0} → Reader (Unit {0}) → Reader B → Reader B
m >> k = m >>= λ _. k

unfoldable pub pure : {A : Type 0} → A → Reader A
pure a s = some (a, s)

unfoldable pub fail : {A : Type 0} → Reader A
fail s = none

unfoldable pub guard : Bool → Reader (Unit {0})
guard b s = if b then some (tt, s) else none

-- `writeSwapped` of a number of one byte, of four and of eight. What follows is the last argument.
unfoldable pub put8 : ℕ → Writer
put8 n rest = n % 256 ∷ rest

unfoldable pub put32 : ℕ → Writer
put32 n rest = n / 2 ^ 24 % 256 ∷ n / 2 ^ 16 % 256 ∷ n / 2 ^ 8 % 256 ∷ n % 256 ∷ rest

unfoldable pub put64 : ℕ → Writer
put64 n rest = put32 (n / word % word) (put32 (n % word) rest)

unfoldable pub read8 : Reader ℕ
read8 [] = none
read8 (a ∷ s) = some (a, s)

unfoldable pub read32 : Reader ℕ
read32 [] = none
read32 (a ∷ []) = none
read32 (a ∷ b ∷ []) = none
read32 (a ∷ b ∷ c ∷ []) = none
read32 (a ∷ b ∷ c ∷ d ∷ s) = some (a * 2 ^ 24 + b * 2 ^ 16 + c * 2 ^ 8 + d, s)

unfoldable pub read64 : Reader ℕ
read64 = do high ← read32; low ← read32; pure (high * word + low)

unfoldable pub read_bytes : ℕ → Reader Bytes
read_bytes zero s = some ([], s)
read_bytes (suc n) [] = none
read_bytes (suc n) (a ∷ s) = (do bs ← read_bytes n; pure (a ∷ bs)) s

unfoldable pub read_times : {A : Type 0} → Reader A → ℕ → Reader (List A)
read_times m zero = pure []
read_times m (suc n) = do x ← m; xs ← read_times m n; pure (x ∷ xs)

unfoldable pub put_each : {A : Type 0} → (A → Writer) → List A → Writer
put_each p [] rest = rest
put_each p (x ∷ xs) rest = p x (put_each p xs rest)

-- A vector behind its size.
unfoldable pub put_vector : {A : Type 0} → (A → Writer) → List A → Writer
put_vector p xs rest = put32 (length xs) (put_each p xs rest)

unfoldable pub read_vector : {A : Type 0} → Reader A → Reader (List A)
read_vector m = do n ← read32; read_times m n

abbrev pub All : {A : Type 0} → (A → Type 0) → List A → Type 0
All P [] = Unit {0}
All P (x ∷ xs) = P x × All P xs

-- A reader gives back what a writer wrote, and leaves what follows.
abbrev pub Restores : {A : Type 0} → Reader A → Writer → A → Type 0
Restores m w a = (rest : Bytes) → m (w rest) ≡ some (a, rest)

-- What follows a reader in a `do` block runs on what it gives.
pub then_lem :
    {A B : Type 0} (m : Reader A) (f : A → Reader B) {s s' : Bytes} {a : A} {r : Option (B × Bytes)}
    → m s ≡ some (a, s')
    → f a s' ≡ r
    → (m >>= f) s ≡ r
unfolding ◌>>=◌ after
then_lem m f h k = rw (h) k

pub read32-put32 : (n : ℕ) → n < word → Restores read32 (put32 n) n
unfolding read32 put32
read32-put32 n h rest = ap (λ m. some (m, rest)) (omega (arith, h))

pub read8-put8 : (n : ℕ) → n < 256 → Restores read8 (put8 n) n
unfolding read8 put8
read8-put8 n h rest = ap (λ m. some (m, rest)) (omega (arith, h))

pub read64-put64 : (n : ℕ) → n < word * word → Restores read64 (put64 n) n
unfolding read64 put64 pure
read64-put64 n h rest = then_lem _ _ (read32-put32 (n / word % word) (omega arith) _) (
    then_lem _ _ (read32-put32 (n % word) (omega arith) _)
      (ap (λ m. some (m, rest)) (omega (arith, h))))

pub read_bytes-append : (bs : Bytes) → Restores (read_bytes (length bs)) (λ rest. bs ++ rest) bs
unfolding read_bytes pure
read_bytes-append [] rest = refl
read_bytes-append (b ∷ bs) rest = then_lem _ _ (read_bytes-append bs rest) refl

pub read_times-put_each :
    {A : Type 0} (m : Reader A) (p : A → Writer) (P : A → Type 0)
    → ((a : A) → P a → Restores m (p a) a)
    → (xs : List A) → All P xs
    → Restores (read_times m (length xs)) (put_each p xs) xs
unfolding read_times put_each pure
read_times-put_each m p P h [] a rest = refl
read_times-put_each m p P h (x ∷ xs) (px, pxs) rest =
    then_lem _ _ (h x px _) (then_lem _ _ (read_times-put_each m p P h xs pxs rest) refl)

pub read_vector-put_vector :
    {A : Type 0} (m : Reader A) (p : A → Writer) (P : A → Type 0)
    → ((a : A) → P a → Restores m (p a) a)
    → (xs : List A) → All P xs
    → length xs < word
    → Restores (read_vector m) (put_vector p xs) xs
unfolding read_vector put_vector
read_vector-put_vector m p P h xs a l rest =
    then_lem _ _ (read32-put32 (length xs) l _) (read_times-put_each m p P h xs a rest)
