-- ===== src/FlatSet/Stuck.antt =====
-- A table whose cells are all in use or marked as erased, which the load that `insert` looks at does not show.
use vislcg.Base.{
  leb, length, ◌==◌, ℕ, zero, suc, ◌+◌, ◌*◌, ◌/◌, ◌%◌, ◌<◌, ◌≡◌, refl, false, ◌||◌, List, arith,
  none,
}
use vislcg.FlatSet.{cell, res_empty, FlatSet, insert, insert_grown, grow, spot_of, probe, start}
use vislcg.FlatSet.Cells.{free, tally_of_cell}
use vislcg.FlatSet.Probe.{mod_lt, start_lt}
use vislcg.FlatSet.Table.{holds}

-- Every cell is passed over.
passes :
    (xs : List ℕ) (t i : ℕ)
    → free xs ≡ 0
    → holds t xs ≡ false
    → i < length xs
    → (cell xs i == res_empty || cell xs i == t) ≡ false
passes xs t i f h b =
    ground (arith, tally_of_cell (λ c. c == res_empty) xs i b, tally_of_cell (λ c. c == t) xs i b)

probe_on :
    (fuel : ℕ) (xs : List ℕ) (t p : ℕ)
    → free xs ≡ 0
    → holds t xs ≡ false
    → p < length xs
    → probe fuel xs t p ≡ none
unfolding probe
probe_on zero xs t p f h b = refl
probe_on (suc fuel) xs t p f h b =
    rw (passes xs t p f h b)
      (probe_on fuel xs t ((p + 5) % length xs) f h (mod_lt (p + 5) (length xs) (omega arith)))

-- Where no cell is empty, and the size does not call for a larger table, the loop of `insert` goes on after any number of rounds for
-- a value that is not there, and `insert` does not return.
pub insert-stuck :
    (t : ℕ) (s : FlatSet)
    → free s.elements ≡ 0
    → holds t s.elements ≡ false
    → leb (length s.elements / 2) ((s.size + 1) * 3 / 2) ≡ false
    → ((fuel : ℕ) → probe fuel s.elements t (start s.elements t) ≡ none) × (insert t s ≡ none)
unfolding insert insert_grown grow spot_of
insert-stuck t s f h l =
    let b : start s.elements t < length s.elements = start_lt s.elements t (ground arith) in
    (
      λ fuel. probe_on fuel s.elements t (start s.elements t) f h b,
      rw (l, probe_on (length s.elements) s.elements t (start s.elements t) f h b) refl,
    )
