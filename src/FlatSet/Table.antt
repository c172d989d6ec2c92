-- ===== src/FlatSet/Table.antt =====
-- The invariant of a table: the search for a value that a cell holds ends at that cell. A value that is put in or erased keeps it.
use native.Mathlib.Decide.{ℕ_discrete}
use mathlib.Core.Path.{subst}
use vislcg.Base.{
  ltb, ltb→lt, length, ◌==◌, Bool-cases, ℕ, ◌<◌, ◌≡◌, refl, inl, inr, Bool, false, not, ◌&&◌, ◌||◌,
  List, arith, ◌≢◌, ap, some, ==_iff, ◌∙◌, sym,
}
use vislcg.FlatSet.{cell, set, res_empty, res_del, start, spot_of}
use vislcg.FlatSet.Cells.{
  length-set, cell-set_self, cell-set_ne, cell_of_tally, tally_of_cell, tally-set, copies,
}
use vislcg.FlatSet.Probe.{probe-set_ne, probe-set_self, Stops}

abbrev pub IsValue : ℕ → Type 0
IsValue t = (t ≢ res_empty) × (t ≢ res_del)

pub record Reaches (xs : List ℕ) : Type 0 where
  pub reached : (i t : ℕ) → i < length xs → cell xs i ≡ t → IsValue t → spot_of xs t ≡ some i

-- Whether a table has a value in some cell.
abbrev pub holds : ℕ → List ℕ → Bool
holds u xs = ltb 0 (copies u xs)

spot_of-set_ne :
    (xs : List ℕ) (u i j v : ℕ)
    → spot_of xs u ≡ some i
    → cell xs i ≡ u
    → cell xs j ≢ u
    → v ≢ u
    → v ≢ res_empty
    → j < length xs
    → spot_of (set xs j v) u ≡ some i
unfolding spot_of start
spot_of-set_ne xs u i j v e c n nv ne hj =
    rw (length-set xs j v) (probe-set_ne (length xs) xs u (start xs u) i j v e c n nv ne hj)

spot_of-set_self :
    (xs : List ℕ) (t i : ℕ)
    → spot_of xs t ≡ some i
    → i < length xs
    → spot_of (set xs i t) t ≡ some i
unfolding spot_of start
spot_of-set_self xs t i e h =
    rw (length-set xs i t) (probe-set_self (length xs) xs t (start xs t) i e h)

pub some_inj : {a b : ℕ} → some a ≡ some b → a ≡ b
some_inj e = cc

-- A write at a cell, of a value whose search ends there or of the mark.
write-Reaches :
    (xs : List ℕ) (i v : ℕ)
    → Reaches xs
    → i < length xs
    → v ≢ res_empty
    → (IsValue v → spot_of xs v ≡ some i)
    → Reaches (set xs i v)
write-Reaches xs i v r h ne self = record {
  reached = λ j t hj c val. elim (ℕ_discrete i j) [
    | yes same ↦
        let e : v ≡ t = sym (cell-set_self xs i v h) ∙ ap (cell (set xs i v)) same ∙ c in
        rw (sym same) (
          subst (λ u. spot_of (set xs i v) u ≡ some i) e
            (spot_of-set_self xs v i (self (subst IsValue (sym e) val)) h))
    | no other ↦
        let c' : cell xs j ≡ t = sym (cell-set_ne xs i j v other) ∙ c in
        let found : spot_of xs t ≡ some j =
          r.reached j t (omega (arith, hj, length-set xs i v)) c' val in
        spot_of-set_ne xs t j i v found c'
          (λ e. other (some_inj (sym (r.reached i t h e val) ∙ found)))
          (λ e. other (
            some_inj (
              sym (self (subst IsValue (sym e) val))
              ∙ subst (λ u. spot_of xs u ≡ some j) (sym e) found)))
          ne h
  ];
}

-- A value put where its search ends.
pub put-Reaches :
    (xs : List ℕ) (t i : ℕ)
    → Reaches xs
    → IsValue t
    → spot_of xs t ≡ some i
    → i < length xs
    → Reaches (set xs i t)
put-Reaches xs t i r v e h = write-Reaches xs i t r h v.0 (λ _. e)

pub erase-Reaches : (xs : List ℕ) (i : ℕ) → Reaches xs → i < length xs → Reaches (set xs i res_del)
erase-Reaches xs i r h = write-Reaches xs i res_del r h (omega arith) (λ v. absurd (v.1 refl))

pub holds-put :
    (xs : List ℕ) (t i u : ℕ)
    → Stops xs t i
    → IsValue u
    → holds u (set xs i t) ≡ ((t == u) || holds u xs)
holds-put xs t i u st v =
    ground
      (arith, st, v, tally-set (λ c. c == u) xs i t st.0, tally_of_cell (λ c. c == u) xs i st.0)

-- A value is in one cell at most.
copies_erased :
    (xs : List ℕ) (t i : ℕ)
    → Reaches xs
    → IsValue t
    → i < length xs
    → cell xs i ≡ t
    → holds t (set xs i res_del) ≡ false
copies_erased xs t i r v h c = elim (Bool-cases (holds t (set xs i res_del))) [
  | inl has ↦
      let (j, hj, q) = cell_of_tally (λ c. c == t) (set xs i res_del) (ltb→lt _ _ has) in
      let w : cell (set xs i res_del) j ≡ t = (==_iff _ _).0 q in
      elim (ℕ_discrete i j) [
        | yes same ↦
            absurd
              (v.1 (sym w ∙ ap (cell (set xs i res_del)) (sym same) ∙ cell-set_self xs i res_del h))
        | no other ↦ absurd (
            other (
              some_inj (
                sym (r.reached i t h c v)
                ∙ r.reached j t (omega (arith, hj, length-set xs i res_del))
                    (sym (cell-set_ne xs i j res_del other) ∙ w) v)))
      ]
  | inr not_there ↦ not_there
]

pub holds-erase :
    (xs : List ℕ) (t i u : ℕ)
    → Reaches xs
    → IsValue t
    → IsValue u
    → i < length xs
    → cell xs i ≡ t
    → holds u (set xs i res_del) ≡ (not (t == u) && holds u xs)
holds-erase xs t i u r vt vu h c =
    ground (arith, vu, c, copies_erased xs t i r vt h c, tally-set (λ c. c == u) xs i res_del h)

-- A value whose search ends elsewhere is in no cell.
pub not_held :
    (xs : List ℕ) (t i : ℕ)
    → Reaches xs
    → IsValue t
    → spot_of xs t ≡ some i
    → (cell xs i == t) ≡ false
    → holds t xs ≡ false
not_held xs t i r v e n = elim (Bool-cases (holds t xs)) [
  | inl h ↦
      let (j, hj, q) = cell_of_tally (λ c. c == t) xs (ltb→lt _ _ h) in
      let same : i ≡ j = some_inj (sym e ∙ r.reached j t hj ((==_iff _ _).0 q) v) in
      let c : cell xs i ≡ t = ap (cell xs) same ∙ (==_iff _ _).0 q in absurd (ground (arith, n, c))
  | inr h ↦ h
]
