-- ===== src/FlatSet/Operations.antt =====
-- A table is a set of values: what each operation does to the set, and what a program of operations does.
use mathlib.Core.Path.{subst}
use vislcg.Base.{
  ltb→lt, length, ◌==◌, Bool-cases, ℕ, ◌+◌, ◌-◌, ◌≤◌, ◌<◌, ◌≡◌, refl, inl, inr, Bool, true, false,
  not, ◌&&◌, ◌||◌, arith, ◌⊎◌, ap, some, ==_iff, ◌∙◌, sym, max,
}
use vislcg.FlatSet.{
  cell, set, res_empty, res_del, is_live, FlatSet, clear, insert, insert_grown, erase, find, count,
  spot_of,
}
use vislcg.FlatSet.Cells.{
  length-set, cell_of_tally, free, tally_of_cell, erased, live, tally-set, tally-replicate,
  length-replicate, free-erased-live,
}
use vislcg.FlatSet.Values.{replicate-Reaches}
use vislcg.FlatSet.Probe.{spot_of-is_some, Stops}
use vislcg.FlatSet.Table.{
  IsValue, holds, put-Reaches, holds-put, erase-Reaches, holds-erase, not_held,
}
use vislcg.FlatSet.Reserve.{Grows, put-Grows}
use vislcg.FlatSet.Grow.{IsTable, IsCapacity, grow-Grown}

-- The marks of erased values that a table is sure to have room for: a sixteenth cell stays empty.
abbrev pub few : ℕ
few = 10

-- The table that an operation leaves, with the set that it stands for.
pub record Becomes (s' : FlatSet) (meaning : ℕ → Bool) (marks : ℕ) : Type 0 where
  pub table : IsTable s'
  pub means : (u : ℕ) → IsValue u → holds u s'.elements ≡ meaning u
  pub marked : erased s'.elements ≤ marks

-- A table with few marks has an empty cell.
has_room :
    (s : FlatSet)
    → IsTable s
    → IsCapacity (length s.elements)
    → erased s.elements ≤ few
    → 0 < free s.elements
has_room s t c h = omega (arith, t.sized, t.loaded, c.enough, free-erased-live s.elements)

-- A search of a table with a capacity.
search :
    (s : FlatSet) (u : ℕ)
    → IsTable s
    → IsCapacity (length s.elements)
    → erased s.elements ≤ few
    → (i : ℕ) × (spot_of s.elements u ≡ some i) × Stops s.elements u i
search s u t c h = spot_of-is_some c.exponent s.elements u c.is_power (has_room s t c h)

pub insert_lem :
    (t : ℕ) (s : FlatSet)
    → IsTable s
    → IsValue t
    → erased s.elements ≤ few
    → (s' : FlatSet) × (insert t s ≡ some s')
      × Becomes s' (λ u. (t == u) || holds u s.elements) (erased s.elements)
unfolding insert insert_grown
insert_lem t s w v h =
    let (g, e, gr) = grow-Grown s w in
    let (i, ei, st) = search g t gr.table gr.capacity (omega (arith, gr.less, h)) in
    elim (Bool-cases (cell g.elements i == t)) [
      | inl there ↦ (
        g,
        rw (e, ei, there) refl,
        record {
          table = gr.table;
          means = λ u vu.
              ground (arith, gr.same u vu, there, tally_of_cell (λ c. c == u) g.elements i st.0);
          marked = gr.less;
        },
      )
      | inr new ↦
          let g' : Grows g.elements (set g.elements i t) 1 = put-Grows g.elements t i st v new in
          (
            record { size = g.size + 1; elements = set g.elements i t },
            rw (e, ei, new) refl,
            record {
              table = record {
                shape = inr (rw g'.same_length gr.capacity);
                reaches = put-Reaches g.elements t i gr.table.reaches v ei st.0;
                sized = omega (arith, gr.table.sized, g'.more_live);
                loaded = omega (arith, gr.roomy, g'.same_length);
              };
              means = λ u vu. ground (arith, gr.same u vu, holds-put g.elements t i u st vu);
              marked = omega (arith, g'.same_erased, gr.less);
            },
          )
    ]

-- A table that has a value has cells.
with_cells : (s : FlatSet) → IsTable s → (s.size == 0) ≡ false → IsCapacity (length s.elements)
with_cells s t n = by_shape t.shape
  where
    by_shape :
        (length s.elements ≡ 0) ⊎ IsCapacity (length s.elements) → IsCapacity (length s.elements)
    by_shape (inr c) = c
    by_shape (inl z) = absurd (ground (arith, t.sized, free-erased-live s.elements))

-- A set of size 0 has no value.
none_held :
    (s : FlatSet) (u : ℕ)
    → IsTable s
    → IsValue u
    → (s.size == 0) ≡ true
    → holds u s.elements ≡ false
none_held s u t v z = elim (Bool-cases (holds u s.elements)) [
  | inl h ↦
      let (i, hi, q) = cell_of_tally (λ c. c == u) s.elements (ltb→lt _ _ h) in
      let l : is_live (cell s.elements i) ≡ true = ground (arith, v, q) in
      absurd (omega (arith, (==_iff _ _).0 z, t.sized, tally_of_cell is_live s.elements i hi l))
  | inr h ↦ h
]

pub erase_lem :
    (t : ℕ) (s : FlatSet)
    → IsTable s
    → IsValue t
    → erased s.elements ≤ few
    → (s' : FlatSet) × (erase t s ≡ some s')
      × Becomes s' (λ u. not (t == u) && holds u s.elements) (erased s.elements + 1)
unfolding erase
erase_lem t s w v h = elim (Bool-cases (s.size == 0)) [
  | inl z ↦ (
    s,
    rw z refl,
    record {
      table = w;
      means = λ u vu. ground (arith, none_held s u w vu z);
      marked = omega arith;
    },
  )
  | inr n ↦
      let c : IsCapacity (length s.elements) = with_cells s w n in
      let (i, e, st) = search s t w c h in
      elim (Bool-cases (cell s.elements i == t)) [
        | inl there ↦
            let here : cell s.elements i ≡ t = (==_iff _ _).0 there in
            let fewer : live (set s.elements i res_del) + 1 ≡ live s.elements =
              ground (arith, here, v, tally-set is_live s.elements i res_del st.0) in
            let marks : erased (set s.elements i res_del) ≡ erased s.elements + 1 =
              ground (arith, here, v, tally-set (λ c. c == res_del) s.elements i res_del st.0) in
            (
              record { size = s.size - 1; elements = set s.elements i res_del },
              rw (n, e, there) refl,
              record {
                table = record {
                  shape = inr (rw (length-set s.elements i res_del) c);
                  reaches = erase-Reaches s.elements i w.reaches st.0;
                  sized = omega (arith, w.sized, fewer);
                  loaded = omega (arith, w.loaded, length-set s.elements i res_del);
                };
                means = λ u vu. holds-erase s.elements t i u w.reaches v vu st.0 here;
                marked = omega (arith, marks);
              },
            )
        | inr absent ↦ (
          s,
          rw (n, e, absent) refl,
          record {
            table = w;
            means = λ u vu. ground (arith, not_held s.elements t i w.reaches v e absent);
            marked = omega arith;
          },
        )
      ]
]

-- Whether a value is in the set is answered, and the answer is that some cell has it.
pub count_lem :
    (t : ℕ) (s : FlatSet)
    → IsTable s
    → IsValue t
    → erased s.elements ≤ few
    → count t s ≡ some (holds t s.elements)
unfolding count find
count_lem t s w v h = elim (Bool-cases (s.size == 0)) [
  | inl z ↦ rw (z, none_held s t w v z) refl
  | inr n ↦
      let (i, e, st) = search s t w (with_cells s w n) h in
      elim (Bool-cases (cell s.elements i == t)) [
        | inl there ↦
            rw (n, e, there)
              (ap some (sym (ground (arith, tally_of_cell (λ c. c == t) s.elements i st.0 there))))
        | inr absent ↦
            rw (n, e, absent) (ap some (sym (not_held s.elements t i w.reaches v e absent)))
      ]
]

pub clear_lem : (s : FlatSet) → IsTable s → Becomes (clear 0 s) (λ u. false) 0
unfolding clear
clear_lem s w =
    let n : ℕ = max (length s.elements) 0 in
    let wide : n ≡ length s.elements = omega arith in
    record {
      table = record {
        shape =
            subst (λ (m : ℕ). (m ≡ 0) ⊎ IsCapacity m) (sym (length-replicate n res_empty ∙ wide))
              w.shape;
        reaches = replicate-Reaches n;
        sized = sym (tally-replicate is_live n res_empty);
        loaded = omega arith;
      };
      means = λ u vu. ground (arith, vu, tally-replicate (λ c. c == u) n res_empty);
      marked = omega (arith, tally-replicate (λ c. c == res_del) n res_empty);
    }
