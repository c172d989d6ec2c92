-- ===== src/FlatSet/Grow.antt =====
-- A table that is made larger when a third of it is in use keeps its values and its invariant.
use vislcg.Base.{
  leb, length, ◌==◌, Bool-cases, ℕ, suc, ◌+◌, ◌*◌, ◌/◌, ◌≤◌, ◌<◌, ◌≡◌, refl, inl, inr, true, false,
  List, arith, ◌⊎◌, some, ==_iff, ◌∙◌, sym, max, leb→lt,
}
use vislcg.FlatSet.{
  res_empty, res_del, default_cap, is_live, FlatSet, place_all, live_values, replicate, resize,
  reserve, grow, clear,
}
use vislcg.FlatSet.Cells.{
  tally_of_cell, erased, live, tally-replicate, length-replicate, length-live_values, tally-resize,
  length-resize,
}
use vislcg.FlatSet.Cycle.{power}
use vislcg.FlatSet.Table.{IsValue, Reaches, holds}
use vislcg.FlatSet.Reserve.{Placed}
use vislcg.FlatSet.Values.{place_live, holds-live_values}

-- A capacity is a power of two, and at least sixteen.
pub record IsCapacity (n : ℕ) : Type 0 where
  pub exponent : ℕ
  pub is_power : n ≡ power exponent
  pub enough : 16 ≤ n

-- A table that has no cells, or a capacity, whose size is the number of its values, and which is at most about a third full.
pub record IsTable (s : FlatSet) : Type 0 where
  pub shape : (length s.elements ≡ 0) ⊎ IsCapacity (length s.elements)
  pub reaches : Reaches s.elements
  pub sized : s.size ≡ live s.elements
  pub loaded : s.size * 3 / 2 ≤ length s.elements / 2

pub record Grown (s s' : FlatSet) : Type 0 where
  pub table : IsTable s'
  pub capacity : IsCapacity (length s'.elements)
  pub roomy : (s'.size + 1) * 3 / 2 < length s'.elements / 2
  pub same : (u : ℕ) → IsValue u → holds u s'.elements ≡ holds u s.elements
  pub less : erased s'.elements ≤ erased s.elements

next-IsCapacity : (n : ℕ) → (n ≡ 0) ⊎ IsCapacity n → IsCapacity (max default_cap (n * 2))
unfolding power
next-IsCapacity n (inl z) = record { exponent = 4; is_power = omega arith; enough = omega arith }
next-IsCapacity n (inr c) = record {
  exponent = suc c.exponent;
  is_power = omega (arith, c.is_power, c.enough);
  enough = omega arith;
}

no_values : (xs : List ℕ) → live xs ≡ 0 → Reaches xs
no_values xs e = record {
  reached = λ i t h c v. absurd (omega (arith, e, tally_of_cell is_live xs i h (ground arith)));
}

-- A table without values gets more cells, and keeps the marks of the erased ones.
reserve_empty :
    (n : ℕ) (s : FlatSet)
    → IsTable s
    → s.size ≡ 0
    → IsCapacity n
    → length s.elements ≤ n
    → Grown s (record s { elements = resize s.elements n })
reserve_empty n s t z c h =
    let l : live (resize s.elements n) ≡ 0 =
      tally-resize is_live s.elements n refl h ∙ sym t.sized ∙ z in
    let long : length (resize s.elements n) ≡ n = length-resize s.elements n in
    record {
      table = record {
        shape = inr (rw long c);
        reaches = no_values (resize s.elements n) l;
        sized = z ∙ sym l;
        loaded = omega (arith, z);
      };
      capacity = rw long c;
      roomy = omega (arith, z, long, c.enough);
      same = λ u v. ground (arith, v, tally-resize (λ c. c == u) s.elements n);
      less = omega (arith, tally-resize (λ c. c == res_del) s.elements n refl h);
    }

-- A table with values is built anew.
reserve-Placed :
    (n : ℕ) (s : FlatSet) (ys : List ℕ)
    → IsTable s
    → IsCapacity n
    → (s.size + 1) * 3 / 2 < n / 2
    → Placed (live_values s.elements) (replicate n res_empty) ys
    → Grown s (record { size = length (live_values s.elements); elements = ys })
reserve-Placed n s ys t c room p =
    let size : length (live_values s.elements) ≡ s.size =
      length-live_values s.elements ∙ sym t.sized in
    let long : length ys ≡ n = p.grows.same_length ∙ length-replicate n res_empty in
    record {
      table = record {
        shape = inr (rw long c);
        reaches = p.reaches;
        sized = omega (arith, p.grows.more_live, tally-replicate is_live n res_empty);
        loaded = omega (arith, size, long, room);
      };
      capacity = rw long c;
      roomy = rw (size, long) room;
      same = λ u v. ground (
        arith,
        v,
        p.both u v,
        holds-live_values u s.elements v,
        tally-replicate (λ c. c == u) n res_empty,
      );
      less = omega (arith, p.grows.same_erased, tally-replicate (λ c. c == res_del) n res_empty);
    }

fits-IsCapacity : (n x : ℕ) → (n ≡ 0) ⊎ IsCapacity n → leb (n / 2) x ≡ false → IsCapacity n
fits-IsCapacity n x (inl z) h = absurd (omega (arith, z, leb→lt _ _ h))
fits-IsCapacity n x (inr c) h = c

placed_grow :
    (s : FlatSet) (ys : List ℕ)
    → leb (length s.elements / 2) ((s.size + 1) * 3 / 2) ≡ true
    → (s.size == 0) ≡ false
    → place_all
        (live_values s.elements)
        (replicate (max default_cap (length s.elements * 2)) res_empty)
      ≡ some ys
    → grow s ≡ some (record { size = length (live_values s.elements); elements = ys })
unfolding grow reserve clear
placed_grow s ys full others e =
    let wide : max (length s.elements) (max default_cap (length s.elements * 2))
        ≡ max default_cap (length s.elements * 2) =
      omega arith in
    rw (full, others, wide, e) refl

pub grow-Grown : (s : FlatSet) → IsTable s → (s' : FlatSet) × (grow s ≡ some s') × Grown s s'
unfolding grow reserve clear
grow-Grown s t =
    let n : ℕ = max default_cap (length s.elements * 2) in
    let c : IsCapacity n = next-IsCapacity (length s.elements) t.shape in
    let room : (s.size + 1) * 3 / 2 < n / 2 = omega (arith, t.loaded) in
    elim (Bool-cases (leb (length s.elements / 2) ((s.size + 1) * 3 / 2))) [
      | inl full ↦ elim (Bool-cases (s.size == 0)) [
        | inl z ↦ (
          record s { elements = resize s.elements n },
          rw (full, z) refl,
          reserve_empty n s t ((==_iff _ _).0 z) c (omega arith),
        )
        | inr some_values ↦
            let (ys, e, p) =
              place_live c.exponent n s.elements c.is_power t.reaches
                (omega (arith, t.sized, t.loaded, c.enough, room)) in
            (
              record { size = length (live_values s.elements); elements = ys },
              placed_grow s ys full some_values e,
              reserve-Placed n s ys t c room p,
            )
      ]
      | inr fits ↦ (
        s,
        rw fits refl,
        record {
          table = t;
          capacity = fits-IsCapacity _ _ t.shape fits;
          roomy = leb→lt _ _ fits;
          same = λ u v. refl;
          less = omega arith;
        },
      )
    ]
