-- ===== src/Dependency/Climb.antt =====
-- What the loop up the tree finds, and what the test for crossing branches amounts to.
use vislcg.Base.{
  ℕ, zero, suc, ◌+◌, ◌≤◌, ◌<◌, ◌≡◌, refl, not, ◌&&◌, arith, ltb, ◌==◌, min, max, Bool-cases, inl,
  inr, ◌⊎◌, ◌↔◌, ◌≢◌, Bool, true,
}
use vislcg.Dependency.{
  Tree, parent_of, dep_no_parent, is_root, climb, rounds, is_child_of, would_parent_child_cross,
  crosses, cross_loop,
}

-- A number that a cohort goes by, and one whose parent has such a number.
abbrev pub on_map : Tree → ℕ → Bool
on_map t c = not (is_root c) && t.known c

abbrev pub rises : Tree → ℕ → Bool
rises t c = on_map t (parent_of t c)

-- The parent's parent's ... parent, `n` cohorts between.
abbrev pub Above : Tree → ℕ → ℕ → ℕ → Type 0
Above t zero c p = parent_of t c ≡ p
Above t (suc n) c p = (rises t c ≡ true) × Above t n (parent_of t c) p

pub climb_finds :
    (t : Tree) (fuel n c p : ℕ) → n < fuel → Above t (suc n) c p → climb fuel t c p ≡ true
unfolding climb
climb_finds t zero n c p h a = absurd (omega arith)
climb_finds t (suc fuel) zero c p h a = ground (arith, a.0, a.1)
climb_finds t (suc fuel) (suc n) c p h a =
    ground (arith, a.0, climb_finds t fuel n (parent_of t c) p (omega arith) a.1)

climb-Above :
    (t : Tree) (fuel c p : ℕ) → climb fuel t c p ≡ true → (n : ℕ) × (n < fuel) × Above t (suc n) c p
unfolding climb
climb-Above t zero c p h = cc
climb-Above t (suc fuel) c p h = elim (Bool-cases (rises t c)) [
  | inr e ↦ absurd (ground arith)
  | inl e ↦ elim (Bool-cases (parent_of t (parent_of t c) == p)) [
    | inl f ↦ (0, omega arith, (e, ground arith))
    | inr f ↦
        let (n, less, above) = climb-Above t fuel (parent_of t c) p (ground arith) in
        (suc n, omega arith, (e, above))
  ]
]

pub climb_iff :
    (t : Tree) (fuel c p : ℕ)
    → (climb fuel t c p ≡ true) ↔ ((n : ℕ) × (n < fuel) × Above t (suc n) c p)
climb_iff t fuel c p = (climb-Above t fuel c p, λ a. climb_finds t fuel a.0 c p a.1 a.2)

-- `isChildOf` holds of a cohort and itself, its parent, and what stands above that with up to a
-- thousand cohorts between; what is further up it does not see.
pub is_child_of_iff :
    (t : Tree) (child parent : ℕ)
    → (is_child_of t child parent ≡ true)
      ↔ ((child ≡ parent) ⊎ ((n : ℕ) × (n ≤ rounds) × Above t n child parent))
unfolding is_child_of
is_child_of_iff t child parent = elim (Bool-cases (parent == child)) [
  | inl e ↦ (λ _. inl (ground arith), λ _. rw e refl)
  | inr e ↦ elim (Bool-cases (parent == parent_of t child)) [
    | inl f ↦ (λ _. inr (0, omega arith, ground arith), λ _. rw (e, f) refl)
    | inr f ↦ (
      λ h.
          let (n, less, above) = climb-Above t rounds child parent (ground (arith, h)) in
          inr (suc n, omega arith, above),
      elim [
        | inl same ↦ absurd (ground arith)
        | inr (zero, less, above) ↦ absurd (ground arith)
        | inr (suc n, less, above) ↦
            rw (e, f) (climb_finds t rounds n child parent (omega arith) above)
      ],
    )
  ]
]

cross_loop-eq :
    (t : Tree) (fuel parent mn mx i : ℕ)
    → mx ≤ fuel + i
    → cross_loop fuel t parent mn mx i ≡ (ltb i mx && crosses t parent mn mx)
unfolding cross_loop
cross_loop-eq t zero parent mn mx i h = ground arith
cross_loop-eq t (suc fuel) parent mn mx i h =
    ground (arith, cross_loop-eq t fuel parent mn mx (i + 1))

-- `wouldParentChildCross` holds exactly if some number is between the two cohorts, the head of the parent is known and has a head
-- itself, and that one is not from the one of the two to the other. It does not depend on the cohorts between.
pub would_parent_child_cross_iff :
    (t : Tree) (parent child : ℕ)
    → (would_parent_child_cross t parent child ≡ true) ↔ (
        (min parent child + 1 < max parent child)
        × (t.known (parent_of t parent) ≡ true)
        × (parent_of t (parent_of t parent) ≢ dep_no_parent)
        × ((parent_of t (parent_of t parent) < min parent child)
            ⊎ (max parent child < parent_of t (parent_of t parent))))
unfolding would_parent_child_cross
would_parent_child_cross_iff t parent child =
    let e =
      cross_loop-eq t (max parent child) parent (min parent child) (max parent child)
        (min parent child + 1) (omega arith) in
    ground (arith, e)
