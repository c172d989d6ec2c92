-- ===== src/Dependents/Chosen.antt =====
-- The cohorts that the iterator goes through.
use vislcg.Base.{
  ℕ, suc, ◌<◌, ◌==◌, Bool, true, not, ◌&&◌, ◌||◌, if◌then◌else◌, List, [], ◌≡◌, arith, ap,
  Bool-cases, inl, inr, ==_iff, if_elim, ◌⊎◌, ◌↔◌, Option, some,
}
use vislcg.SortedVector.{elem}
use vislcg.Dependents.{
  Kinship, Way, comes_before, set_insert, set_before, set_from, reverse_onto, arrange, arranged,
  descendents,
}
use vislcg.Dependents.Sets.{
  PlacesDiffer, IsOrdered, set_insert-IsOrdered, elem-set_insert, elem-set_before, elem-set_from,
  set_before-IsOrdered, set_from-IsOrdered,
}
use vislcg.Dependents.Adding.{Reaches}
use vislcg.Dependents.Closure.{search-Ends}

-- The dependants that the test wants: those on its side of the cohort, and the cohort itself.
abbrev pub on_side : Kinship → Way → ℕ → ℕ → Bool
on_side t j c q =
    (not j.is_left || comes_before t q c) && (not j.is_right || not (comes_before t q c))

abbrev pub in_order : Way → List ℕ → List ℕ
in_order j set = if j.is_rightmost then reverse_onto set [] else set

-- The iterator goes through the cohorts of a kind that are on the side of its cohort that the test asks for, each of them once, and
-- through the cohort itself if the test asks for it, in the order of their places or in the reverse order.
abbrev pub GoesThrough : Kinship → Way → ℕ → (ℕ → Type 0) → Option (List ℕ) → Type 0
GoesThrough t j c IsOne result =
    (set : List ℕ) × (result ≡ some (in_order j set))
    × IsOrdered t set
    × ((q : ℕ)
        → (elem q set ≡ true)
          ↔ ((IsOne q × (on_side t j c q ≡ true)) ⊎ ((j.is_self ≡ true) × (q ≡ c))))

module _ (t : Kinship) (j : Way) (c : ℕ) where
  -- What `arrange` makes of a set before it is put in order.
  record Arranges (set arranged : List ℕ) : Type 0 where
    ordered : IsOrdered t arranged
    members :
        (q : ℕ) → elem q arranged ≡ ((elem q set && on_side t j c q) || (j.is_self && (q == c)))

  chosen : List ℕ → List ℕ
  chosen set =
      let left = if j.is_left then set_before t set c else set in
      let right = if j.is_right then set_from t left c else left in
      if j.is_self then (set_insert t right c).0 else right

  chosen-Arranges : (set : List ℕ) → PlacesDiffer t → IsOrdered t set → Arranges set (chosen set)
  unfolding chosen
  chosen-Arranges set d s =
      let left : List ℕ = if j.is_left then set_before t set c else set in
      let right : List ℕ = if j.is_right then set_from t left c else left in
      let left_ordered : IsOrdered t left =
        if_elim (IsOrdered t) j.is_left (set_before t set c) set
          (λ _. set_before-IsOrdered t set c s) (λ _. s) in
      let right_ordered : IsOrdered t right =
        if_elim (IsOrdered t) j.is_right (set_from t left c) left
          (λ _. set_from-IsOrdered t left c left_ordered) (λ _. left_ordered) in
      let in_left : (q : ℕ) → elem q left ≡ (elem q set && (not j.is_left || comes_before t q c)) =
        λ q.
          if_elim (λ l. elem q l ≡ (elem q set && (not j.is_left || comes_before t q c))) j.is_left
            (set_before t set c) set (λ h. ground (arith, h, elem-set_before t set c q s))
            (λ h. ground (arith, h)) in
      let in_right : (q : ℕ)
          → elem q right ≡ (elem q left && (not j.is_right || not (comes_before t q c))) =
        λ q.
          if_elim (λ l. elem q l ≡ (elem q left && (not j.is_right || not (comes_before t q c))))
            j.is_right (set_from t left c) left
            (λ h. ground (arith, h, elem-set_from t left c q left_ordered))
            (λ h. ground (arith, h)) in
      if_elim (Arranges set) j.is_self (set_insert t right c).0 right
        (λ h. record {
          ordered = set_insert-IsOrdered t right c right_ordered;
          members = λ q. ground (arith, h, in_left q, in_right q, elem-set_insert t d right c q);
        })
        (λ h. record {
          ordered = right_ordered;
          members = λ q. ground (arith, h, in_left q, in_right q);
        })

  pub arranged-GoesThrough :
      (IsOne : ℕ → Type 0) (result : Option (List ℕ)) (all : List ℕ)
      → PlacesDiffer t
      → result ≡ some all
      → IsOrdered t all
      → ((q : ℕ) → (elem q all ≡ true) ↔ IsOne q)
      → GoesThrough t j c IsOne (arranged t j c result)
  unfolding arrange chosen
  arranged-GoesThrough IsOne result all d ends s members =
      let a = chosen-Arranges all d s in
      (
        chosen all,
        ap (arranged t j c) ends,
        a.ordered,
        λ q. (
          λ m. elim (Bool-cases (elem q all && on_side t j c q)) [
            | inl e ↦ inl ((members q).0 (ground (arith, e)), ground (arith, e))
            | inr e ↦
                let self : (j.is_self && (q == c)) ≡ true = ground (arith, m, e, a.members q) in
                inr (ground (arith, self), (==_iff q c).0 (ground (arith, self)))
          ],
          λ w. elim w [
            | inl (one, side) ↦
                let found : elem q all ≡ true = (members q).1 one in
                ground (arith, found, side, a.members q)
            | inr (self, same) ↦
                let here : (q == c) ≡ true = (==_iff q c).1 same in
                ground (arith, self, here, a.members q)
          ],
        ),
      )

-- The search for dependants ends, at the latest with one round more than there may be numbers of known cohorts, and the iterator goes
-- through the cohorts that are led to by dependants of dependants, all of them known and in windows that the test may enter: those on
-- the side that the test asks for, each once, with the cohort itself if it asks for it, in order or in the reverse order. No two
-- cohorts may have one place.
pub descendents-GoesThrough :
    (t : Kinship) (j : Way) (c n : ℕ)
    → PlacesDiffer t
    → ((p : ℕ) → t.tree.known p ≡ true → p < n)
    → GoesThrough t j c (Reaches t j c) (descendents (suc n) t j c)
unfolding descendents
descendents-GoesThrough t j c n d b =
    let (all, ends, closed) = search-Ends t j c n d b in
    arranged-GoesThrough t j c (Reaches t j c) _ all d ends closed.ordered closed.members
