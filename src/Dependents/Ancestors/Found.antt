-- ===== src/Dependents/Ancestors/Found.antt =====
-- The search for ancestors finds them.
use mathlib.Core.Path.{subst}
use vislcg.Base.{
  ℕ, zero, suc, ◌<◌, ◌==◌, true, false, not, ◌&&◌, ◌||◌, if◌then◌else◌, List, [], Option, some, ◌≡◌,
  refl, arith, ap, ◌∙◌, sym, ◌↔◌, inl, inr, Bool-cases, ==_iff, if_elim,
}
use vislcg.SortedVector.{elem}
use vislcg.Dependency.{parent_of}
use vislcg.Dependents.{Kinship, Way, set_insert, may_enter}
use vislcg.Dependents.Sets.{
  PlacesDiffer, IsOrdered, set_insert-IsOrdered, elem-set_insert, set_insert-new,
}
use vislcg.Dependents.Adding.{unseen, unseen-le, unseen-less}
use vislcg.Dependents.Chosen.{GoesThrough, arranged-GoesThrough}
use vislcg.Dependents.Ancestors.{climb_on, ancestors}
use vislcg.Dependents.Ancestors.Stuck.{IsAbove, head, higher}

module _ (t : Kinship) (j : Way) (c : ℕ) where
  record Climbing (current : ℕ) (set : List ℕ) : Type 0 where
    ordered : IsOrdered t set
    sound : (q : ℕ) → elem q set ≡ true → IsAbove t c q
    at : (current == c || elem current set) ≡ true
    above :
        (p : ℕ)
        → (p == c || elem p set) ≡ true
        → (p == current) ≡ false
        → t.tree.known (parent_of t.tree p) ≡ true
        → elem (parent_of t.tree p) set ≡ true

  record Climbed (set : List ℕ) : Type 0 where
    ordered : IsOrdered t set
    members : (q : ℕ) → (elem q set ≡ true) ↔ IsAbove t c q

  -- The head of the cohort that the search is at.
  up-IsAbove :
      (current : ℕ) (set : List ℕ)
      → Climbing current set
      → t.tree.known (parent_of t.tree current) ≡ true
      → IsAbove t c (parent_of t.tree current)
  up-IsAbove current set k h = elim (Bool-cases (current == c)) [
    | inl e ↦
        let same : current ≡ c = (==_iff current c).0 e in
        subst (λ x. t.tree.known (parent_of t.tree x) ≡ true → IsAbove t c (parent_of t.tree x))
          (sym same) head h
    | inr e ↦ higher (k.sound current (ground (arith, e, k.at))) h
  ]

  -- The search ends where nothing is new above the cohort that it is at.
  ended :
      (current : ℕ) (set : List ℕ)
      → Climbing current set
      → (t.tree.known (parent_of t.tree current) ≡ true
          → elem (parent_of t.tree current) set ≡ true)
      → Climbed set
  ended current set k h = record { ordered = k.ordered; members = λ q. (k.sound q, there) }
    where
      step :
          (p : ℕ)
          → (p == c || elem p set) ≡ true
          → t.tree.known (parent_of t.tree p) ≡ true
          → elem (parent_of t.tree p) set ≡ true
      step p m w = elim (Bool-cases (p == current)) [
        | inl e ↦
            let same : p ≡ current = (==_iff p current).0 e in
            ap (λ x. elem (parent_of t.tree x) set) same
            ∙ h (sym (ap (λ x. t.tree.known (parent_of t.tree x)) same) ∙ w)
        | inr e ↦ k.above p m e w
      ]

      there : {q : ℕ} → IsAbove t c q → elem q set ≡ true
      there (head w) = step c (ground arith) w
      there (higher {p} a w) = step p (ground (arith, there a)) w

  -- One cohort further up.
  higher_up :
      (current : ℕ) (set : List ℕ)
      → PlacesDiffer t
      → Climbing current set
      → t.tree.known (parent_of t.tree current) ≡ true
      → Climbing (parent_of t.tree current) (set_insert t set (parent_of t.tree current)).0
  higher_up current set d k h = record {
    ordered = set_insert-IsOrdered t set up k.ordered;
    sound = λ q m. elim (Bool-cases (q == up)) [
      | inl e ↦ subst (IsAbove t c) (sym ((==_iff q up).0 e)) (up-IsAbove current set k h)
      | inr e ↦ k.sound q (ground (arith, e, m, elem-set_insert t d set up q))
    ];
    at = ground (arith, elem-set_insert t d set up up);
    above = λ p m e w. elim (Bool-cases (p == current)) [
      | inl g ↦
          let there : (parent_of t.tree p == up) ≡ true =
            (==_iff (parent_of t.tree p) up).1 (ap (parent_of t.tree) ((==_iff p current).0 g)) in
          ground (arith, there, elem-set_insert t d set up (parent_of t.tree p))
      | inr g ↦
          let old : (p == c || elem p set) ≡ true =
            ground (arith, e, m, elem-set_insert t d set up p) in
          ground (arith, k.above p old g w, elem-set_insert t d set up (parent_of t.tree p))
    ];
  }
    where
      up : ℕ
      up = parent_of t.tree current

  abbrev Ends : Option (List ℕ) → Type 0
  Ends result = (all : List ℕ) × (result ≡ some all) × Climbed all

  climb_on-Ends :
      (n fuel current : ℕ) (set : List ℕ)
      → PlacesDiffer t
      → ((p : ℕ) → t.tree.known p ≡ true → p < n)
      → ((p : ℕ) → IsAbove t c p → may_enter t j c p ≡ true)
      → Climbing current set
      → unseen n set < fuel
      → Ends (climb_on fuel t j c current set)
  unfolding climb_on
  climb_on-Ends n zero current set d b g k h = absurd (omega (arith, h))
  climb_on-Ends n (suc fuel) current set d b g k h =
      let up = parent_of t.tree current in
      let put = set_insert t set up in
      if_elim Ends (not (t.tree.known up)) (some set) _
        (λ u. (set, refl, ended current set k (λ w. absurd (ground (arith, u, w)))))
        (λ u.
          let w : t.tree.known up ≡ true = ground (arith, u) in
          let good : may_enter t j c up ≡ true = g up (up-IsAbove current set k w) in
          if_elim Ends (may_enter t j c up && not put.1) (some set)
            (climb_on fuel t j c up (if may_enter t j c up then put.0 else set))
            (λ e.
              let old : elem up set ≡ true =
                ground (arith, e, set_insert-new t d set up k.ordered) in
              (set, refl, ended current set k (λ _. old)))
            (λ e.
              let fresh : elem up set ≡ false =
                ground (arith, e, good, set_insert-new t d set up k.ordered) in
              let less : suc (unseen n put.0) ≡ unseen n set =
                unseen-less n up set put.0 (b up w) fresh (elem-set_insert t d set up) in
              let kept : (if may_enter t j c up then put.0 else set) ≡ put.0 =
                ground (arith, good) in
              subst (λ s. Ends (climb_on fuel t j c up s)) (sym kept)
                (climb_on-Ends n fuel up put.0 d b g (higher_up current set d k w)
                  (omega (arith, h, less)))))

  climb-Ends :
      (n : ℕ)
      → PlacesDiffer t
      → ((p : ℕ) → t.tree.known p ≡ true → p < n)
      → ((p : ℕ) → IsAbove t c p → may_enter t j c p ≡ true)
      → Ends (climb_on (suc n) t j c c [])
  climb-Ends n d b g =
      climb_on-Ends n (suc n) c [] d b g
        (record {
          ordered = tt;
          sound = λ q m. absurd (cc);
          at = ground arith;
          above = λ p m e w. absurd (ground (arith, m, e));
        })
        (omega (arith, unseen-le n []))

-- Where the windows of all cohorts above may be entered, the search for ancestors ends, also in a loop, at the latest with one round
-- more than there may be numbers of known cohorts, and the iterator goes through the cohorts above: those on the side that the test
-- asks for, each once, with the cohort itself if it asks for it, in order or in the reverse order. No two cohorts may have one place.
pub ancestors-GoesThrough :
    (t : Kinship) (j : Way) (c n : ℕ)
    → PlacesDiffer t
    → ((p : ℕ) → t.tree.known p ≡ true → p < n)
    → ((p : ℕ) → IsAbove t c p → may_enter t j c p ≡ true)
    → GoesThrough t j c (IsAbove t c) (ancestors (suc n) t j c)
unfolding ancestors
ancestors-GoesThrough t j c n d b g =
    let (all, ends, climbed) = climb-Ends t j c n d b g in
    arranged-GoesThrough t j c (IsAbove t c) _ all d ends climbed.ordered climbed.members
