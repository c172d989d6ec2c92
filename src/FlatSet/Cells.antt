-- ===== src/FlatSet/Cells.antt =====
-- Cells of a table: reading, writing and counting them.
use vislcg.Base.{
  if◌then◌else◌, length, ◌==◌, Bool-cases, ℕ, zero, suc, ◌+◌, ◌≤◌, ◌<◌, ◌≡◌, refl, inl, inr, Bool,
  true, false, List, [], ◌∷◌, arith, ◌≢◌, ap,
}
use vislcg.FlatSet.{cell, set, replicate, resize, res_empty, res_del, is_live, live_values}

pub length-set : (xs : List ℕ) (i v : ℕ) → length (set xs i v) ≡ length xs
length-set [] i v = refl
length-set (x ∷ xs) zero v = refl
length-set (x ∷ xs) (suc i) v = ap suc (length-set xs i v)

pub cell-set_self : (xs : List ℕ) (i v : ℕ) → i < length xs → cell (set xs i v) i ≡ v
cell-set_self [] i v h = absurd (omega arith)
cell-set_self (x ∷ xs) zero v h = refl
cell-set_self (x ∷ xs) (suc i) v h = cell-set_self xs i v (omega arith)

pub cell-set_ne : (xs : List ℕ) (i j v : ℕ) → i ≢ j → cell (set xs i v) j ≡ cell xs j
cell-set_ne [] i j v h = refl
cell-set_ne (x ∷ xs) zero zero v h = absurd (h refl)
cell-set_ne (x ∷ xs) zero (suc j) v h = refl
cell-set_ne (x ∷ xs) (suc i) zero v h = refl
cell-set_ne (x ∷ xs) (suc i) (suc j) v h = cell-set_ne xs i j v (λ e. h (ap suc e))

-- How many cells pass a test.
unfoldable pub tally : (ℕ → Bool) → List ℕ → ℕ
tally p [] = 0
tally p (x ∷ xs) = if p x then suc (tally p xs) else tally p xs

abbrev pub one : Bool → ℕ
one true = 1
one false = 0

pub tally-set :
    (p : ℕ → Bool) (xs : List ℕ) (i v : ℕ)
    → i < length xs
    → tally p (set xs i v) + one (p (cell xs i)) ≡ tally p xs + one (p v)
unfolding tally
tally-set p [] i v h = absurd (omega arith)
tally-set p (x ∷ xs) zero v h = ground arith
tally-set p (x ∷ xs) (suc i) v h = ground (arith, tally-set p xs i v)

-- Where some cell passes, there is one.
pub cell_of_tally :
    (p : ℕ → Bool) (xs : List ℕ)
    → 0 < tally p xs
    → (i : ℕ) × (i < length xs) × (p (cell xs i) ≡ true)
unfolding tally
cell_of_tally p [] h = absurd (omega arith)
cell_of_tally p (x ∷ xs) h = elim (Bool-cases (p x)) [
  | inl e ↦ (0, omega arith, e)
  | inr e ↦ let (i, b, q) = cell_of_tally p xs (ground (arith, e)) in (suc i, omega (arith, b), q)
]

pub tally_of_cell :
    (p : ℕ → Bool) (xs : List ℕ) (i : ℕ) → i < length xs → p (cell xs i) ≡ true → 0 < tally p xs
unfolding tally
tally_of_cell p [] i h e = absurd (omega arith)
tally_of_cell p (x ∷ xs) zero h e = ground arith
tally_of_cell p (x ∷ xs) (suc i) h e = ground (arith, tally_of_cell p xs i)

-- The cells that are empty, erased and live.
abbrev pub free : List ℕ → ℕ
free = tally (λ c. c == res_empty)

abbrev pub erased : List ℕ → ℕ
erased = tally (λ c. c == res_del)

abbrev pub live : List ℕ → ℕ
live = tally is_live

abbrev pub copies : ℕ → List ℕ → ℕ
copies t = tally (λ c. c == t)

pub free-erased-live : (xs : List ℕ) → free xs + erased xs + live xs ≡ length xs
unfolding tally
free-erased-live [] = refl
free-erased-live (x ∷ xs) = ground (arith, free-erased-live xs)

pub length-live_values : (xs : List ℕ) → length (live_values xs) ≡ live xs
unfolding tally live_values
length-live_values [] = refl
length-live_values (x ∷ xs) = ground (arith, length-live_values xs)

pub tally-replicate : (p : ℕ → Bool) (n v : ℕ) → tally p (replicate n v) ≡ (if p v then n else 0)
unfolding tally
tally-replicate p zero v = ground arith
tally-replicate p (suc n) v = ground (arith, tally-replicate p n v)

pub length-replicate : (n v : ℕ) → length (replicate n v) ≡ n
length-replicate zero v = refl
length-replicate (suc n) v = ap suc (length-replicate n v)

pub length-resize : (xs : List ℕ) (n : ℕ) → length (resize xs n) ≡ n
unfolding resize
length-resize xs zero = refl
length-resize [] (suc n) = ap suc (length-resize [] n)
length-resize (x ∷ xs) (suc n) = ap suc (length-resize xs n)

-- Growing adds no value, and erases none.
pub tally-resize :
    (p : ℕ → Bool) (xs : List ℕ) (n : ℕ)
    → p res_empty ≡ false
    → length xs ≤ n
    → tally p (resize xs n) ≡ tally p xs
unfolding tally resize
tally-resize p [] zero e h = refl
tally-resize p [] (suc n) e h = rw e (tally-resize p [] n e (omega arith))
tally-resize p (x ∷ xs) zero e h = absurd (omega arith)
tally-resize p (x ∷ xs) (suc n) e h = ground (arith, tally-resize p xs n e)
