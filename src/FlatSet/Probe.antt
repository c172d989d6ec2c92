-- ===== src/FlatSet/Probe.antt =====
-- The loop that looks for a value: where it stops, that it stops, and what a write to a cell does to it.
use native.Mathlib.Decide.{dec_lt, ℕ_discrete}
use vislcg.Base.{
  length, ◌==◌, Bool-cases, Option-cases, ℕ, zero, suc, ◌+◌, ◌*◌, ◌/◌, ◌%◌, ◌-◌, ◌<◌, ◌≡◌, inl, inr,
  true, ◌||◌, List, arith, ◌≢◌, ap, none, some, ==_iff,
}
use vislcg.FlatSet.{cell, set, res_empty, probe, start, spot_of, hash_value}
use vislcg.FlatSet.Cells.{length-set, cell-set_self, cell-set_ne, free, cell_of_tally}
use vislcg.FlatSet.Cycle.{power, power_pos, meets}

abbrev pub Stops : List ℕ → ℕ → ℕ → Type 0
Stops xs t i = (i < length xs) × ((cell xs i == res_empty || cell xs i == t) ≡ true)

pub mod_lt : (a n : ℕ) → 0 < n → a % n < n
mod_lt a n h = grind arith

-- The loop stops at an empty cell or at the value.
pub probe-Stops :
    (fuel : ℕ) (xs : List ℕ) (t p i : ℕ) → p < length xs → probe fuel xs t p ≡ some i → Stops xs t i
unfolding probe
probe-Stops zero xs t p i h e = absurd (cc)
probe-Stops (suc f) xs t p i h e = elim (Bool-cases (cell xs p == res_empty || cell xs p == t)) [
  | inl stop ↦ ground (arith, stop)
  | inr more ↦
      probe-Stops f xs t ((p + 5) % length xs) i (mod_lt (p + 5) (length xs) (omega arith))
        (ground (arith, more))
]

-- Whole rounds that are on both sides.
fewer : (n x d e q : ℕ) → e < n → x + d * n ≡ e + q * n → x ≡ e + (q - d) * n
fewer n x d e q he eq = elim (dec_lt q d) [
  | yes l ↦ absurd (grind (arith, eq))
  | no g ↦
      let r : ((q - d) + d) * n ≡ q * n = ap (λ t. t * n) (omega (arith, g)) in grind (arith, eq, r)
]

-- One step of the walk, on the numbers that are not yet reduced.
step_walk :
    (n p j e q : ℕ)
    → 0 < n
    → p + 5 * suc j ≡ e + q * n
    → e < n
    → (p + 5) % n + 5 * j ≡ e + (q - (p + 5) / n) * n
step_walk n p j e q h eq he =
    fewer n ((p + 5) % n + 5 * j) ((p + 5) / n) e q he
      (let d : (p + 5) % n + (p + 5) / n * n ≡ p + 5 = grind arith in omega (arith, d, eq))

no_round : (n p e q : ℕ) → p < n → p ≡ e + q * n → p ≡ e
no_round n p e zero h eq = grind (arith, eq)
no_round n p e (suc q) h eq =
    let s : suc q * n ≡ q * n + n = grind arith in absurd (omega (arith, s, eq))

-- A loop that does not stop has passed over every cell of its walk.
passed :
    (fuel : ℕ) (xs : List ℕ) (t p : ℕ)
    → p < length xs
    → probe fuel xs t p ≡ none
    → (j e q : ℕ) → j < fuel
    → e < length xs
    → p + 5 * j ≡ e + q * length xs
    → cell xs e ≡ res_empty
    → ⊥
unfolding probe
passed zero xs t p h n j e q hj he eq c = absurd (omega arith)
passed (suc f) xs t p h n zero e q hj he eq c =
    let same : p ≡ e = no_round (length xs) p e q h (omega (arith, eq)) in ground (arith, same, c)
passed (suc f) xs t p h n (suc j) e q hj he eq c =
    passed f xs t ((p + 5) % length xs) (mod_lt (p + 5) (length xs) (omega arith))
      (ground (arith, n)) j e (q - (p + 5) / length xs) (omega arith) he
      (step_walk (length xs) p j e q (omega arith) eq he) c

pub start_lt : (xs : List ℕ) (t : ℕ) → 0 < length xs → start xs t < length xs
unfolding start
start_lt xs t h = mod_lt (hash_value t) (length xs) h

-- In a table with an empty cell the loop stops.
pub spot_of-is_some :
    (k : ℕ) (xs : List ℕ) (t : ℕ)
    → length xs ≡ power k
    → 0 < free xs
    → (i : ℕ) × (spot_of xs t ≡ some i) × Stops xs t i
unfolding spot_of
spot_of-is_some k xs t h f =
    let pos : 0 < length xs = omega (arith, power_pos k, h) in
    let s : start xs t < length xs = start_lt xs t pos in
    elim (Option-cases (probe (length xs) xs t (start xs t))) [
      | inl n ↦
          let (e, he, c) = cell_of_tally (λ c. c == res_empty) xs f in
          let (j, q, hj, eq) = meets k (length xs) (start xs t) e h s he in
          absurd (passed (length xs) xs t (start xs t) s n j e q hj he eq ((==_iff _ _).0 c))
      | inr (i, e) ↦ (i, e, probe-Stops (length xs) xs t (start xs t) i s e)
    ]

-- A write that leaves the way to a value as it was: to a cell that holds neither it nor the end of the search, of neither.
pub probe-set_ne :
    (fuel : ℕ) (xs : List ℕ) (u p i j v : ℕ)
    → probe fuel xs u p ≡ some i
    → cell xs i ≡ u
    → cell xs j ≢ u
    → v ≢ u
    → v ≢ res_empty
    → j < length xs
    → probe fuel (set xs j v) u p ≡ some i
unfolding probe
probe-set_ne zero xs u p i j v e c n nv ne hj = absurd (cc)
probe-set_ne (suc f) xs u p i j v e c n nv ne hj = elim (ℕ_discrete j p) [
  | yes same ↦ ground (
    arith,
    same,
    cell-set_self xs j v hj,
    length-set xs j v,
    probe-set_ne f xs u ((p + 5) % length xs) i j v,
  )
  | no other ↦ ground (
    arith,
    other,
    cell-set_ne xs j p v other,
    length-set xs j v,
    probe-set_ne f xs u ((p + 5) % length xs) i j v,
  )
]

-- A write of the value where its search ends.
pub probe-set_self :
    (fuel : ℕ) (xs : List ℕ) (t p i : ℕ)
    → probe fuel xs t p ≡ some i
    → i < length xs
    → probe fuel (set xs i t) t p ≡ some i
unfolding probe
probe-set_self zero xs t p i e h = absurd (cc)
probe-set_self (suc f) xs t p i e h = elim (ℕ_discrete i p) [
  | yes same ↦ ground (arith, same, cell-set_self xs i t h)
  | no other ↦ ground (
    arith,
    other,
    cell-set_ne xs i p t other,
    length-set xs i t,
    probe-set_self f xs t ((p + 5) % length xs) i,
  )
]
