-- ===== src/Dependents/Heads.antt =====
-- The heads of a cohort, one after the other: DepParentIter of src/CohortIterator.cpp.
use vislcg.Base.{
  ℕ, zero, suc, ◌<◌, ltb, ◌==◌, Bool, true, false, not, ◌&&◌, ◌||◌, if◌then◌else◌, List, [], ◌∷◌,
  Option, none, some, ◌≡◌, refl, arith, ap, ◌∙◌, sym, Bool-cases, inl, inr, ==_iff, if_elim,
}
use vislcg.SortedVector.{elem}
use vislcg.Dependency.{parent_of, dep_no_parent}
use vislcg.Dependents.{Kinship, Way, window_of, set_insert, set_has}
use vislcg.Dependents.Sets.{
  PlacesDiffer, IsOrdered, set_insert-IsOrdered, elem-set_insert, set_has-elem,
}
use vislcg.Dependents.Adding.{unseen, unseen-le, unseen-less}

-- Whether the window of the head may be entered from that of the cohort.
unfoldable pub may_step : Kinship → Way → Bool → ℕ → ℕ → Bool
may_step t j span current up =
    if window_of t up == window_of t current || j.both_ways || span
    then true
    else if ltb (window_of t up) (window_of t current) && j.to_left
    then true
    else ltb (window_of t current) (window_of t up) && j.to_right

abbrev onward : ℕ → Option (List ℕ) → Option (List ℕ)
onward up none = none
onward up (some path) = some (up ∷ path)

-- `operator++`, again and again, with `m_seen`: the cohorts that it comes to.
unfoldable pub heads : ℕ → Kinship → Way → Bool → List ℕ → ℕ → Option (List ℕ)
heads zero t j span seen current = none
heads (suc rounds) t j span seen current =
    let up = parent_of t.tree current in
    let further = heads rounds t j span (set_insert t seen current).0 up in
    if up == dep_no_parent
    then some []
    else if not (t.tree.known up)
    then some []
    else if t.is_removed up
    then some []
    else if set_has t seen up
    then some []
    else if may_step t j span current up
    then onward up further
    else some []

-- From each cohort to its head, which is known and not removed and in a window that may be entered.
abbrev pub IsPath : Kinship → Way → Bool → ℕ → List ℕ → Type 0
IsPath t j span c [] = Unit {0}
IsPath t j span c (up ∷ path) =
    (up ≡ parent_of t.tree c)
    × (t.tree.known up ≡ true)
    × (t.is_removed up ≡ false)
    × (may_step t j span c up ≡ true)
    × IsPath t j span up path

-- The cohorts that have been left for their heads.
abbrev pub left_ones : ℕ → List ℕ → List ℕ
left_ones c [] = []
left_ones c (up ∷ path) = c ∷ left_ones up path

abbrev pub NoRepeats : List ℕ → Type 0
NoRepeats [] = Unit {0}
NoRepeats (x ∷ xs) = (elem x xs ≡ false) × NoRepeats xs

module _ (t : Kinship) (j : Way) (span : Bool) where
  record Follows (seen : List ℕ) (current : ℕ) (path : List ℕ) : Type 0 where
    is_path : IsPath t j span current path
    fresh : (q : ℕ) → elem q (left_ones current path) ≡ true → elem q seen ≡ false
    once : NoRepeats (left_ones current path)

  abbrev Ends : List ℕ → ℕ → Option (List ℕ) → Type 0
  Ends seen current result = (path : List ℕ) × (result ≡ some path) × Follows seen current path

  stopped : (seen : List ℕ) (current : ℕ) → Ends seen current (some [])
  stopped seen current = ([], refl, record { is_path = tt; fresh = λ q m. absurd (cc); once = tt })

  stepped :
      (seen : List ℕ) (current : ℕ) (result : Option (List ℕ))
      → PlacesDiffer t
      → elem current seen ≡ false
      → t.tree.known (parent_of t.tree current) ≡ true
      → t.is_removed (parent_of t.tree current) ≡ false
      → may_step t j span current (parent_of t.tree current) ≡ true
      → Ends (set_insert t seen current).0 (parent_of t.tree current) result
      → Ends seen current (onward (parent_of t.tree current) result)
  stepped seen current result d f k r w (path, ends, b) = (
    parent_of t.tree current ∷ path,
    ap (onward (parent_of t.tree current)) ends,
    record {
      is_path = (refl, k, r, w, b.is_path);
      fresh = λ q m. elim (Bool-cases (q == current)) [
        | inl e ↦ ap (λ x. elem x seen) ((==_iff q current).0 e) ∙ f
        | inr e ↦ ground (arith, e, m, b.fresh q, elem-set_insert t d seen current q)
      ];
      once = (
        elim (Bool-cases (elem current (left_ones (parent_of t.tree current) path))) [
          | inl m ↦
              absurd (ground (arith, b.fresh current m, elem-set_insert t d seen current current))
          | inr m ↦ m
        ],
        b.once,
      );
    },
  )

  -- A cohort is not left twice: only one that is its own head is come to twice.
  not_left :
      (seen : List ℕ) (current : ℕ)
      → (elem current seen ≡ true → parent_of t.tree current ≡ current)
      → elem (parent_of t.tree current) seen ≡ false
      → elem current seen ≡ false
  not_left seen current i new = elim (Bool-cases (elem current seen)) [
    | inl m ↦
        let same : elem (parent_of t.tree current) seen ≡ elem current seen =
          ap (λ x. elem x seen) (i m) in
        absurd (ground (arith, m, new, same))
    | inr m ↦ m
  ]

  walk-Ends :
      (n fuel : ℕ) (seen : List ℕ) (current : ℕ)
      → PlacesDiffer t
      → ((p : ℕ) → t.tree.known p ≡ true → p < n)
      → IsOrdered t seen
      → t.tree.known current ≡ true
      → (elem current seen ≡ true → parent_of t.tree current ≡ current)
      → unseen n seen < fuel
      → Ends seen current (heads fuel t j span seen current)
  unfolding heads
  walk-Ends n zero seen current d b s k i h = absurd (omega (arith, h))
  walk-Ends n (suc fuel) seen current d b s k i h =
      let up = parent_of t.tree current in
      let seen' = (set_insert t seen current).0 in
      let stop = stopped seen current in
      if_elim (Ends seen current) (up == dep_no_parent) (some []) _ (λ _. stop)
        (λ _.
          if_elim (Ends seen current) (not (t.tree.known up)) (some []) _ (λ _. stop)
            (λ u.
              if_elim (Ends seen current) (t.is_removed up) (some []) _ (λ _. stop)
                (λ r.
                  if_elim (Ends seen current) (set_has t seen up) (some []) _ (λ _. stop)
                    (λ e.
                      if_elim (Ends seen current) (may_step t j span current up)
                        (onward up (heads fuel t j span seen' up)) (some [])
                        (λ w.
                          let known_up : t.tree.known up ≡ true = ground (arith, u) in
                          let new : elem up seen ≡ false = sym (set_has-elem t d seen up s) ∙ e in
                          let f : elem current seen ≡ false = not_left seen current i new in
                          let less : suc (unseen n seen') ≡ unseen n seen =
                            unseen-less n current seen seen' (b current k) f
                              (elem-set_insert t d seen current) in
                          stepped seen current _ d f known_up r w (
                            walk-Ends n fuel seen' up d b (set_insert-IsOrdered t seen current s)
                              known_up
                              (λ m. ap (parent_of t.tree) (
                                (==_iff up current).0
                                  (ground (arith, m, new, elem-set_insert t d seen current up))))
                              (omega (arith, h, less))))
                        (λ _. stop)))))

-- From a known cohort the iterator comes to an end, also in a loop, at the latest with one round more than there may be numbers of known
-- cohorts. It goes from each cohort to its head, which is known and not removed and in a window that may be entered, and leaves no
-- cohort twice. No two cohorts may have one place.
pub heads-IsPath :
    (t : Kinship) (j : Way) (span : Bool) (c n : ℕ)
    → PlacesDiffer t
    → ((p : ℕ) → t.tree.known p ≡ true → p < n)
    → t.tree.known c ≡ true
    → (path : List ℕ) × (heads (suc n) t j span [] c ≡ some path)
      × IsPath t j span c path
      × NoRepeats (left_ones c path)
heads-IsPath t j span c n d b k =
    let (path, ends, f) =
      walk-Ends t j span n (suc n) [] c d b tt k (λ m. absurd (cc))
        (omega (arith, unseen-le n [])) in
    (path, ends, f.is_path, f.once)
