-- ===== src/Dependency/Loops.antt =====
-- Ways round in the tree, before and after a cohort gets another parent.
use vislcg.Base.{
  ℕ, zero, suc, ◌≤◌, ◌≡◌, ◌≢◌, refl, sym, ◌∙◌, true, false, arith, ◌==◌, if◌then◌else◌, Bool-cases,
  inl, inr, ◌⊎◌, ap,
}
use vislcg.Dependency.{Tree, parent_of, climb, rounds, would_parent_child_loop}
use vislcg.Dependency.Climb.{on_map, rises, Above, climb_finds}

-- Who comes back to itself is its own parent: that is how a cohort without a parent is kept.
abbrev pub NoLoops : Tree → Type 0
NoLoops t = (n c : ℕ) → on_map t c ≡ true → Above t n c c → parent_of t c ≡ c

-- If the child is above the parent at all, it is so within the bound.
abbrev pub Within : Tree → ℕ → ℕ → Type 0
Within t parent child =
    (n : ℕ) → Above t n parent child → (m : ℕ) × (m ≤ rounds) × Above t m parent child

-- The same tree, but for the child's parent.
abbrev pub Links : Tree → Tree → ℕ → ℕ → Type 0
Links t t' parent child =
    (c : ℕ)
    → (parent_of t' c ≡ (if c == child then parent else parent_of t c)) × (t'.known c ≡ t.known c)

-- One more step at the end.
Above-on :
    (t : Tree) (n c d : ℕ) → Above t n c d → on_map t d ≡ true → Above t (suc n) c (parent_of t d)
Above-on t zero c d a r = rw a (r, refl)
Above-on t (suc n) c d a r = (a.0, Above-on t n (parent_of t c) d a.1 r)

-- A way round is one from the next cohort too.
rotate :
    (t : Tree) (n c : ℕ)
    → on_map t c ≡ true
    → Above t (suc n) c c
    → Above t (suc n) (parent_of t c) (parent_of t c)
rotate t n c m a = Above-on t n (parent_of t c) c a.1 m

abbrev ascend : Tree → ℕ → ℕ → ℕ
ascend t zero c = c
ascend t (suc k) c = ascend t k (parent_of t c)

rotate_all :
    (t : Tree) (n k c : ℕ)
    → on_map t c ≡ true
    → Above t (suc n) c c
    → Above t (suc n) (ascend t k c) (ascend t k c)
rotate_all t n zero c m a = a
rotate_all t n (suc k) c m a = rotate_all t n k (parent_of t c) a.0 (rotate t n c m a)

module _ (t t' : Tree) (parent child : ℕ) (links : Links t t' parent child) where
  same_parent : (c : ℕ) → (c == child) ≡ false → parent_of t' c ≡ parent_of t c
  same_parent c e = (links c).0 ∙ rw e refl

  child_parent : parent_of t' child ≡ parent
  child_parent = ground (arith, links child)

  same_rises : (c : ℕ) → (c == child) ≡ false → rises t' c ≡ rises t c
  same_rises c e = rw (same_parent c e, (links (parent_of t c)).1) refl

  pub parent_on_map : rises t' child ≡ true → on_map t parent ≡ true
  parent_on_map r = ground (arith, sym (ap (on_map t') child_parent) ∙ r, (links parent).1)

  -- The way up either meets the child or was there before.
  meets_child :
      (n c d : ℕ)
      → Above t' n c d
      → ((k : ℕ) × (ascend t' k c ≡ child)) ⊎ (Above t n c d × ((c == child) ≡ false))
  meets_child zero c d a = elim (Bool-cases (c == child)) [
    | inl e ↦ inl (0, ground arith)
    | inr e ↦ inr (sym (same_parent c e) ∙ a, e)
  ]
  meets_child (suc n) c d a = elim (Bool-cases (c == child)) [
    | inl e ↦ inl (0, ground arith)
    | inr e ↦ elim (meets_child n (parent_of t' c) d a.1) [
      | inl (k, met) ↦ inl (suc k, met)
      | inr (above, _) ↦ inr ((sym (same_rises c e) ∙ a.0, rw (sym (same_parent c e)) above), e)
    ]
  ]

  -- The way to the child was there before, up to where it first meets it.
  reaches_child : (n c : ℕ) → Above t' n c child → (c ≡ child) ⊎ ((m : ℕ) × Above t m c child)
  reaches_child zero c a = elim (Bool-cases (c == child)) [
    | inl e ↦ inl (ground arith)
    | inr e ↦ inr (0, sym (same_parent c e) ∙ a)
  ]
  reaches_child (suc n) c a = elim (Bool-cases (c == child)) [
    | inl e ↦ inl (ground arith)
    | inr e ↦ elim (reaches_child n (parent_of t' c) a.1) [
      | inl met ↦ inr (0, sym (same_parent c e) ∙ met)
      | inr (m, above) ↦ inr (suc m, (sym (same_rises c e) ∙ a.0, rw (sym (same_parent c e)) above))
    ]
  ]

  -- No way round goes through the child.
  module _ (apart : parent ≢ child)
      (clear : rises t' child ≡ true → (m : ℕ) → ¬ (Above t m parent child)) where
    not_round : (n : ℕ) → ¬ (Above t' n child child)
    not_round zero a = apart (sym child_parent ∙ a)
    not_round (suc n) a = elim (reaches_child n parent (rw (sym child_parent) a.1)) [
      | inl met ↦ apart met
      | inr (m, above) ↦ clear a.0 m above
    ]

    pub link-NoLoops : NoLoops t → NoLoops t'
    link-NoLoops h zero c o a = a
    link-NoLoops h (suc n) c o a = elim (meets_child (suc n) c c a) [
      | inl (k, met) ↦ absurd (not_round (suc n) (rw (sym met) (rotate_all t' n k c o a)))
      | inr (above, e) ↦ same_parent c e ∙ h (suc n) c (ground (arith, o, (links c).1)) above
    ]

-- The test answers no only where the child is not above the parent.
module _ (t : Tree) (parent child : ℕ) (no : would_parent_child_loop t parent child ≡ false) where
  pub parent_not_child : parent ≢ child
  unfolding would_parent_child_loop
  parent_not_child e = ground (arith, no)

  own_parent : parent ≡ parent_of t parent → (n : ℕ) → ¬ (Above t n parent child)
  own_parent own zero a = parent_not_child (own ∙ a)
  own_parent own (suc n) a = own_parent own n (rw own a.1)

  -- A child that is attached there already stands in no way round through its parent.
  attached :
      NoLoops t
      → on_map t child ≡ true
      → on_map t parent ≡ true
      → parent ≡ parent_of t child
      → (m : ℕ) → ¬ (Above t m parent child)
  attached h o r same m a = parent_not_child (same ∙ h (suc m) child o (rw (sym same) (r, a)))

  near :
      (parent == parent_of t child) ≡ false
      → (parent == parent_of t parent) ≡ false
      → parent_of t parent ≢ child
  unfolding would_parent_child_loop
  near e f a = ground (arith, no)

  far :
      (parent == parent_of t child) ≡ false
      → (parent == parent_of t parent) ≡ false
      → climb rounds t parent child ≢ true
  unfolding would_parent_child_loop
  far e f a = ground (arith, no)

  seen :
      (parent == parent_of t child) ≡ false
      → (parent == parent_of t parent) ≡ false
      → (k : ℕ) → k ≤ rounds
      → ¬ (Above t k parent child)
  seen e f zero less above = near e f above
  seen e f (suc k) less above = far e f (climb_finds t rounds k parent child (omega arith) above)

  pub not-Above :
      NoLoops t
      → Within t parent child
      → on_map t child ≡ true
      → on_map t parent ≡ true
      → (m : ℕ) → ¬ (Above t m parent child)
  not-Above h within o r m a = elim (Bool-cases (parent == parent_of t child)) [
    | inl e ↦ attached h o r (ground arith) m a
    | inr e ↦ elim (Bool-cases (parent == parent_of t parent)) [
      | inl f ↦ own_parent (ground arith) m a
      | inr f ↦ let (k, less, above) = within m a in seen e f k less above
    ]
  ]
