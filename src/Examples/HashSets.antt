-- ===== src/Examples/HashSets.antt =====
-- The hash set at concrete programs.
use vislcg.Base.{ℕ, zero, suc, ◌*◌, ◌≡◌, ◌≢◌, refl, false, true, List, [], ◌∷◌, arith, none, some}
use vislcg.FlatSet.{
  FlatSet, Op, add, hash_value, remove, run, insert, count, empty, res_del, replicate, res_empty,
  probe, start, ◌>>=◌,
}
use vislcg.FlatSet.Refines.{run-refines, meaning_all}
use vislcg.FlatSet.Stuck.{insert-stuck}
use vislcg.FlatSet.Cells.{tally}

abbrev some_ops : List Op
some_ops = add 7 ∷ add 263 ∷ remove 7 ∷ add 9 ∷ []

found_again : (run some_ops empty >>= count 263) ≡ some true
unfolding run count hash_value
found_again = refl

gone : (run some_ops empty >>= count 7) ≡ some false
unfolding run count hash_value
gone = refl

run-refines_example :
    (s : FlatSet) × (run some_ops empty ≡ some s)
    × ((u : ℕ)
        → (u ≢ res_empty) × (u ≢ res_del)
        → count u s ≡ some (meaning_all some_ops (λ t. false) u))
run-refines_example = run-refines some_ops (omega arith) (omega arith)

-- Values that start at each of the sixteen cells, each added and removed.
abbrev in_and_out : ℕ → List Op
in_and_out zero = []
in_and_out (suc n) = add (256 * n) ∷ remove (256 * n) ∷ in_and_out n

abbrev all_marks : FlatSet
all_marks = record { size = 0; elements = replicate 16 res_del }

in_and_out_marks : run (in_and_out 16) empty ≡ some all_marks
unfolding run hash_value
in_and_out_marks = refl

insert-stuck_example :
    ((fuel : ℕ) → probe fuel all_marks.elements 3 (start all_marks.elements 3) ≡ none)
    × (insert 3 all_marks ≡ none)
unfolding tally
insert-stuck_example = insert-stuck 3 all_marks refl refl refl
