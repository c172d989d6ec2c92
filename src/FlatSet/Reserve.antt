-- ===== src/FlatSet/Reserve.antt =====
-- Making a table larger: the values that it has are all put into the new cells.
use vislcg.Base.{
  length, ◌==◌, ℕ, suc, ◌+◌, ◌<◌, ◌≡◌, refl, true, false, ◌||◌, List, [], ◌∷◌, arith, some, ◌∙◌,
}
use vislcg.FlatSet.{cell, set, res_empty, res_del, is_live, place_all}
use vislcg.FlatSet.Cells.{length-set, free, tally_of_cell, erased, tally, tally-set, live}
use vislcg.FlatSet.Probe.{Stops, spot_of-is_some}
use vislcg.FlatSet.Cycle.{power}
use vislcg.FlatSet.Table.{IsValue, Reaches, holds, put-Reaches, holds-put}

-- What a new value does to the counts.
pub record Grows (xs ys : List ℕ) (n : ℕ) : Type 0 where
  pub same_length : length ys ≡ length xs
  pub fewer_free : free ys + n ≡ free xs
  pub more_live : live ys ≡ live xs + n
  pub same_erased : erased ys ≡ erased xs

pub put-Grows :
    (xs : List ℕ) (t i : ℕ)
    → Stops xs t i
    → IsValue t
    → (cell xs i == t) ≡ false
    → Grows xs (set xs i t) 1
put-Grows xs t i st v n =
    let c : (cell xs i == res_empty) ≡ true = ground (arith, st, n) in
    record {
      same_length = length-set xs i t;
      fewer_free = ground (arith, v, c, tally-set (λ c. c == res_empty) xs i t st.0);
      more_live = ground (arith, v, c, tally-set is_live xs i t st.0);
      same_erased = ground (arith, v, c, tally-set (λ c. c == res_del) xs i t st.0);
    }

Grows-then : {xs ys zs : List ℕ} {n : ℕ} → Grows xs ys 1 → Grows ys zs n → Grows xs zs (suc n)
Grows-then g h = record {
  same_length = h.same_length ∙ g.same_length;
  fewer_free = omega (arith, g.fewer_free, h.fewer_free);
  more_live = omega (arith, g.more_live, h.more_live);
  same_erased = h.same_erased ∙ g.same_erased;
}

-- No value stands in a list twice, and each is one.
abbrev pub Distinct : List ℕ → Type 0
Distinct [] = Unit {0}
Distinct (v ∷ vs) = IsValue v × (holds v vs ≡ false) × Distinct vs

-- The values of one list are not in the other.
abbrev pub Apart : List ℕ → List ℕ → Type 0
Apart vs xs = (u : ℕ) → IsValue u → holds u vs ≡ true → holds u xs ≡ false

pub record Placed (vs xs ys : List ℕ) : Type 0 where
  pub grows : Grows xs ys (length vs)
  pub reaches : Reaches ys
  pub both : (u : ℕ) → IsValue u → holds u ys ≡ (holds u vs || holds u xs)

Apart-put :
    (v : ℕ) (vs xs : List ℕ) (i : ℕ)
    → Distinct (v ∷ vs)
    → Apart (v ∷ vs) xs
    → Stops xs v i
    → Apart vs (set xs i v)
unfolding tally
Apart-put v vs xs i d a st u vu h = ground (arith, holds-put xs v i u st vu, d, a u vu, h)

pub place_all-Placed :
    (k : ℕ) (vs xs : List ℕ)
    → length xs ≡ power k
    → Reaches xs
    → Distinct vs
    → Apart vs xs
    → length vs < free xs
    → (ys : List ℕ) × (place_all vs xs ≡ some ys) × Placed vs xs ys
unfolding place_all tally
place_all-Placed k [] xs h r d a f = (
  xs,
  refl,
  record {
    grows = record {
      same_length = refl;
      fewer_free = omega arith;
      more_live = omega arith;
      same_erased = refl;
    };
    reaches = r;
    both = λ u v. refl;
  },
)
place_all-Placed k (v ∷ vs) xs h r d a f =
    let (i, e, st) = spot_of-is_some k xs v h (omega (arith, f)) in
    let fresh : (cell xs i == v) ≡ false =
      ground (arith, a v d.0, tally_of_cell (λ c. c == v) xs i st.0) in
    let g : Grows xs (set xs i v) 1 = put-Grows xs v i st d.0 fresh in
    let (ys, p, pl) =
      place_all-Placed k vs (set xs i v) (g.same_length ∙ h) (put-Reaches xs v i r d.0 e st.0) d.2
        (Apart-put v vs xs i d a st) (omega (arith, f, g.fewer_free)) in
    (
      ys,
      rw e p,
      record {
        grows = Grows-then {zs = ys} g pl.grows;
        reaches = pl.reaches;
        both = λ u vu. ground (arith, pl.both u vu, holds-put xs v i u st vu);
      },
    )
