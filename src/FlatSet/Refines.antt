-- ===== src/FlatSet/Refines.antt =====
-- A program of operations on a table and the set of values that it stands for.
use vislcg.Base.{
  ◌==◌, ℕ, suc, ◌+◌, ◌≤◌, ◌≡◌, refl, inl, Bool, false, not, ◌&&◌, ◌||◌, List, [], ◌∷◌, arith, ap,
  some, ◌∙◌,
}
use vislcg.FlatSet.{FlatSet, clear, count, Op, add, remove, wipe, step, run, empty}
use vislcg.FlatSet.Cells.{tally, erased}
use vislcg.FlatSet.Table.{IsValue, holds}
use vislcg.FlatSet.Grow.{IsTable}
use vislcg.FlatSet.Operations.{few, Becomes, insert_lem, erase_lem, count_lem, clear_lem}

-- The set of values that an operation leaves.
pub meaning : Op → (ℕ → Bool) → ℕ → Bool
meaning (add t) held u = (t == u) || held u
meaning (remove t) held u = not (t == u) && held u
meaning wipe held u = false

pub meaning_all : List Op → (ℕ → Bool) → ℕ → Bool
unfolding meaning
meaning_all [] held = held
meaning_all (o ∷ os) held = meaning_all os (meaning o held)

abbrev pub removals : List Op → ℕ
removals [] = 0
removals (remove t ∷ os) = suc (removals os)
removals (o ∷ os) = removals os

abbrev pub HasValues : List Op → Type 0
HasValues [] = Unit {0}
HasValues (add t ∷ os) = IsValue t × HasValues os
HasValues (remove t ∷ os) = IsValue t × HasValues os
HasValues (wipe ∷ os) = HasValues os

-- An operation on a table that stands for a set.
step_lem :
    (o : Op) (os : List Op) (s : FlatSet) (held : ℕ → Bool)
    → IsTable s
    → ((u : ℕ) → IsValue u → holds u s.elements ≡ held u)
    → HasValues (o ∷ os)
    → erased s.elements + removals (o ∷ os) ≤ few
    → (s' : FlatSet) × (step o s ≡ some s')
      × IsTable s'
      × ((u : ℕ) → IsValue u → holds u s'.elements ≡ meaning o held u)
      × HasValues os
      × (erased s'.elements + removals os ≤ few)
unfolding step meaning
step_lem (add t) os s held w m v h =
    let (s', e, b) = insert_lem t s w v.0 (omega arith) in
    (s', e, b.table, λ u vu. ground (arith, m u vu, b.means u vu), v.1, omega (arith, b.marked))
step_lem (remove t) os s held w m v h =
    let (s', e, b) = erase_lem t s w v.0 (omega arith) in
    (s', e, b.table, λ u vu. ground (arith, m u vu, b.means u vu), v.1, omega (arith, b.marked))
step_lem wipe os s held w m v h =
    let b : Becomes (clear 0 s) (λ u. false) 0 = clear_lem s w in
    (clear 0 s, refl, b.table, λ u vu. b.means u vu, v, omega (arith, b.marked))

run_lem :
    (os : List Op) (s : FlatSet) (held : ℕ → Bool)
    → IsTable s
    → ((u : ℕ) → IsValue u → holds u s.elements ≡ held u)
    → HasValues os
    → erased s.elements + removals os ≤ few
    → (s' : FlatSet) × (run os s ≡ some s')
      × ((u : ℕ) → IsValue u → count u s' ≡ some (meaning_all os held u))
unfolding run meaning_all
run_lem [] s held w m v h = (s, refl, λ u vu. count_lem u s w vu (omega arith) ∙ ap some (m u vu))
run_lem (o ∷ os) s held w m v h =
    let (s', e, w', m', v', h') = step_lem o os s held w m v h in
    let (s'', e', c) = run_lem os s' (meaning o held) w' m' v' h' in (s'', rw e e', c)

empty-IsTable : IsTable empty
unfolding tally
empty-IsTable = record {
  shape = inl refl;
  reaches = record { reached = λ i t h c v. absurd (omega arith) };
  sized = refl;
  loaded = omega arith;
}

-- A set to which values are added, from which at most ten are removed, and which may be cleared, always returns, and then has just
-- the values that the set of the same additions, removals and clearings has. No value may be one of the two that mark cells.
pub run-refines :
    (os : List Op)
    → HasValues os
    → removals os ≤ few
    → (s : FlatSet) × (run os empty ≡ some s)
      × ((u : ℕ) → IsValue u → count u s ≡ some (meaning_all os (λ t. false) u))
unfolding tally
run-refines os v h = run_lem os empty (λ t. false) empty-IsTable (λ u vu. refl) v (omega arith)
