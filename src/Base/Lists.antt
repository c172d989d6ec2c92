-- ===== src/Base/Lists.antt =====
-- Vectors as lists measured and indexed by native numbers, under the library's names.
use Prim.Native.Nat.{ℕ, suc, ◌+◌}
use mathlib.Core.Path.{◌≡◌}
use mathlib.Core.List.{List, [], ◌∷◌, ◌++◌}
use native.Mathlib.Omega.{arith}

module _ {ℓ} {A : Type ℓ} where
  abbrev pub length : List A → ℕ
  length [] = 0
  length (x ∷ xs) = suc (length xs)

  -- A list put back behind a reversed prefix.
  abbrev pub rejoin : List A → List A → List A
  rejoin [] ys = ys
  rejoin (x ∷ xs) ys = rejoin xs (x ∷ ys)

  pub length-append : (xs ys : List A) → length (xs ++ ys) ≡ length xs + length ys
  length-append [] ys = omega arith
  length-append (x ∷ xs) ys = omega (arith, length-append xs ys)

  pub length-rejoin : (xs ys : List A) → length (rejoin xs ys) ≡ length xs + length ys
  length-rejoin [] ys = omega arith
  length-rejoin (x ∷ xs) ys = omega (arith, length-rejoin xs (x ∷ ys))
