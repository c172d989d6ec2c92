-- ===== src/FlatSet/Values.antt =====
-- The values that a table has, each once, put into an empty table.
use vislcg.Base.{
  ltb→lt, length, ◌==◌, Bool-cases, ℕ, zero, suc, ◌<◌, ◌≡◌, refl, inl, inr, true, false, List, [],
  ◌∷◌, arith, some, ==_iff, ◌∙◌, sym,
}
use vislcg.FlatSet.{cell, res_empty, is_live, place_all, live_values, replicate}
use vislcg.FlatSet.Cells.{
  cell_of_tally, tally, copies, live, tally-replicate, length-replicate, length-live_values,
}
use vislcg.FlatSet.Cycle.{power}
use vislcg.FlatSet.Table.{IsValue, Reaches, holds, some_inj}
use vislcg.FlatSet.Reserve.{Distinct, Placed, place_all-Placed}

pub holds-live_values : (u : ℕ) (xs : List ℕ) → IsValue u → copies u (live_values xs) ≡ copies u xs
unfolding tally live_values
holds-live_values u [] v = refl
holds-live_values u (x ∷ xs) v = ground (arith, holds-live_values u xs v)

-- No two cells have one value.
abbrev Alone : List ℕ → Type 0
Alone xs =
    (i j t : ℕ) → i < length xs → j < length xs → cell xs i ≡ t → cell xs j ≡ t → IsValue t → i ≡ j

Reaches-Alone : (xs : List ℕ) → Reaches xs → Alone xs
Reaches-Alone xs r i j t hi hj ci cj v =
    some_inj (sym (r.reached i t hi ci v) ∙ r.reached j t hj cj v)

is_live-IsValue : (x : ℕ) → is_live x ≡ true → IsValue x
is_live-IsValue x h = (ground arith, ground arith)

fresh : (x : ℕ) (xs : List ℕ) → Alone (x ∷ xs) → IsValue x → holds x (live_values xs) ≡ false
fresh x xs a v = elim (Bool-cases (holds x (live_values xs))) [
  | inl has ↦
      let (j, hj, q) =
        cell_of_tally (λ c. c == x) xs (omega (arith, holds-live_values x xs v, ltb→lt _ _ has)) in
      absurd
        (omega (arith, a 0 (suc j) x (omega arith) (omega (arith, hj)) refl ((==_iff _ _).0 q) v))
  | inr other ↦ other
]

live_values-Distinct : (xs : List ℕ) → Alone xs → Distinct (live_values xs)
unfolding live_values
live_values-Distinct [] a = tt
live_values-Distinct (x ∷ xs) a =
    let rest : Distinct (live_values xs) = live_values-Distinct xs (λ i j t hi hj ci cj v.
      omega (arith, a (suc i) (suc j) t (omega arith) (omega arith) ci cj v)) in
    elim (Bool-cases (is_live x)) [
      | inl l ↦ rw l (is_live-IsValue x l, fresh x xs a (is_live-IsValue x l), rest)
      | inr d ↦ rw d rest
    ]

cell-replicate : (n v i : ℕ) → i < n → cell (replicate n v) i ≡ v
cell-replicate zero v i h = absurd (omega arith)
cell-replicate (suc n) v zero h = refl
cell-replicate (suc n) v (suc i) h = cell-replicate n v i (omega arith)

pub replicate-Reaches : (n : ℕ) → Reaches (replicate n res_empty)
replicate-Reaches n = record {
  reached = λ i t h c v.
      absurd (
        v.0
          (sym c ∙ cell-replicate n res_empty i (omega (arith, h, length-replicate n res_empty))));
}

-- A table of n empty cells, with the values of another.
pub place_live :
    (k n : ℕ) (xs : List ℕ)
    → n ≡ power k
    → Reaches xs
    → live xs < n
    → (ys : List ℕ) × (place_all (live_values xs) (replicate n res_empty) ≡ some ys)
      × Placed (live_values xs) (replicate n res_empty) ys
place_live k n xs h r l =
    place_all-Placed k (live_values xs) (replicate n res_empty) (length-replicate n res_empty ∙ h)
      (replicate-Reaches n) (live_values-Distinct xs (Reaches-Alone xs r))
      (λ u v has. ground (arith, v, tally-replicate (λ c. c == u) n res_empty))
      (omega (arith, length-live_values xs, tally-replicate (λ c. c == res_empty) n res_empty, l))
