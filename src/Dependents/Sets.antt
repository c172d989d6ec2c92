-- ===== src/Dependents/Sets.antt =====
-- Sets of cohorts in order.
use vislcg.Base.{
  ℕ, ◌==◌, true, false, not, ◌&&◌, ◌||◌, List, [], ◌∷◌, ◌≡◌, refl, arith, sym, ap, Bool-cases, inl,
  inr, ==_iff,
}
use vislcg.SortedVector.{elem}
use vislcg.Dependents.{
  Kinship, comes_before, set_insert, set_has, set_before, set_from, reverse_onto, set_insert_all,
}

before_trans :
    (t : Kinship) (a b c : ℕ)
    → comes_before t a b ≡ true
    → comes_before t b c ≡ true
    → comes_before t a c ≡ true
unfolding comes_before
before_trans t a b c h k = ground (arith, h, k)

before_irrefl : (t : Kinship) (a : ℕ) → comes_before t a a ≡ false
unfolding comes_before
before_irrefl t a = ground arith

-- No two cohorts have one place.
abbrev pub PlacesDiffer : Kinship → Type 0
PlacesDiffer t = (a b : ℕ) → comes_before t a b ≡ false → comes_before t b a ≡ false → a ≡ b

module _ (t : Kinship) where
  abbrev AllAfter : ℕ → List ℕ → Type 0
  AllAfter x [] = Unit {0}
  AllAfter x (y ∷ ys) = (comes_before t x y ≡ true) × AllAfter x ys

  abbrev pub IsOrdered : List ℕ → Type 0
  IsOrdered [] = Unit {0}
  IsOrdered (x ∷ xs) = AllAfter x xs × IsOrdered xs

  AllAfter-elem :
      (x q : ℕ) (xs : List ℕ) → AllAfter x xs → elem q xs ≡ true → comes_before t x q ≡ true
  AllAfter-elem x q [] a h = cc
  AllAfter-elem x q (y ∷ ys) a h = elim (Bool-cases (q == y)) [
    | inl e ↦ let same : q ≡ y = ground arith in rw same a.0
    | inr e ↦ AllAfter-elem x q ys a.1 (ground (arith, e, h))
  ]

  AllAfter-earlier :
      (w x : ℕ) (xs : List ℕ) → comes_before t w x ≡ true → AllAfter x xs → AllAfter w xs
  AllAfter-earlier w x [] h a = tt
  AllAfter-earlier w x (y ∷ ys) h a = (before_trans t w x y h a.0, AllAfter-earlier w x ys h a.1)

  insert-AllAfter :
      (x c : ℕ) (xs : List ℕ)
      → AllAfter x xs
      → comes_before t x c ≡ true
      → AllAfter x (set_insert t xs c).0
  unfolding set_insert
  insert-AllAfter x c [] a h = (h, tt)
  insert-AllAfter x c (y ∷ ys) a h = elim (Bool-cases (comes_before t y c)) [
    | inl e ↦ rw e (a.0, insert-AllAfter x c ys a.1 h)
    | inr e ↦ elim (Bool-cases (comes_before t c y)) [
      | inl g ↦ rw (e, g) (h, a)
      | inr g ↦ rw (e, g) a
    ]
  ]

  pub set_insert-IsOrdered : (xs : List ℕ) (c : ℕ) → IsOrdered xs → IsOrdered (set_insert t xs c).0
  unfolding set_insert
  set_insert-IsOrdered [] c s = (tt, tt)
  set_insert-IsOrdered (x ∷ xs) c s = elim (Bool-cases (comes_before t x c)) [
    | inl e ↦ rw e (insert-AllAfter x c xs s.0 e, set_insert-IsOrdered xs c s.1)
    | inr e ↦ elim (Bool-cases (comes_before t c x)) [
      | inl g ↦ rw (e, g) ((g, AllAfter-earlier c x xs g s.0), s)
      | inr g ↦ rw (e, g) s
    ]
  ]

  pub elem-set_insert :
      PlacesDiffer t
      → (xs : List ℕ) (c q : ℕ) → elem q (set_insert t xs c).0 ≡ (q == c || elem q xs)
  unfolding set_insert
  elem-set_insert d [] c q = refl
  elem-set_insert d (x ∷ xs) c q = elim (Bool-cases (comes_before t x c)) [
    | inl e ↦ rw e (ground (arith, elem-set_insert d xs c q))
    | inr e ↦ elim (Bool-cases (comes_before t c x)) [
      | inl g ↦ rw (e, g) refl
      | inr g ↦ let same : x ≡ c = d x c e g in rw (e, g) (ground (arith, same))
    ]
  ]

  differs : (a b : ℕ) → comes_before t a b ≡ true → (a == b) ≡ false
  differs a b h = elim (Bool-cases (a == b)) [
    | inl e ↦
        let here : comes_before t a b ≡ comes_before t b b =
          ap (λ x. comes_before t x b) ((==_iff a b).0 e) in
        absurd (ground (arith, h, here, before_irrefl t b))
    | inr e ↦ e
  ]

  -- What comes before the first of them is none of them.
  earlier : (q x : ℕ) (xs : List ℕ) → comes_before t q x ≡ true → AllAfter x xs → elem q xs ≡ false
  earlier q x [] h a = refl
  earlier q x (y ∷ ys) h a =
      let one = differs q y (before_trans t q x y h a.0) in
      ground (arith, one, earlier q x ys h a.1)

  pub set_has-elem :
      PlacesDiffer t → (xs : List ℕ) (q : ℕ) → IsOrdered xs → set_has t xs q ≡ elem q xs
  unfolding set_has
  set_has-elem d [] q s = refl
  set_has-elem d (x ∷ xs) q s = elim (Bool-cases (comes_before t x q)) [
    | inl e ↦ rw e (ground (arith, set_has-elem d xs q s.1, differs x q e))
    | inr e ↦ elim (Bool-cases (comes_before t q x)) [
      | inl g ↦ rw (e, g) (sym (ground (arith, differs q x g, earlier q x xs g s.0)))
      | inr g ↦ let same : x ≡ q = d x q e g in rw (e, g) (ground (arith, same))
    ]
  ]

  -- The second result says whether the cohort is new.
  pub set_insert-new :
      PlacesDiffer t
      → (xs : List ℕ) (c : ℕ) → IsOrdered xs
      → (set_insert t xs c).1 ≡ not (elem c xs)
  unfolding set_insert
  set_insert-new d [] c s = refl
  set_insert-new d (x ∷ xs) c s = elim (Bool-cases (comes_before t x c)) [
    | inl e ↦ rw e (ground (arith, set_insert-new d xs c s.1, differs x c e))
    | inr e ↦ elim (Bool-cases (comes_before t c x)) [
      | inl g ↦ rw (e, g) (sym (ground (arith, differs c x g, earlier c x xs g s.0)))
      | inr g ↦ let same : x ≡ c = d x c e g in rw (e, g) (ground (arith, same))
    ]
  ]

  -- A cohort that is found at the head.
  same_place : (q x c : ℕ) → (q == x) ≡ true → comes_before t q c ≡ comes_before t x c
  same_place q x c e = ap (λ y. comes_before t y c) ((==_iff q x).0 e)

  later :
      (x c q : ℕ) (xs : List ℕ)
      → comes_before t x c ≡ false
      → AllAfter x xs
      → elem q xs ≡ true
      → comes_before t q c ≡ false
  later x c q xs e a m = elim (Bool-cases (comes_before t q c)) [
    | inl b ↦
        let h : comes_before t x c ≡ true = before_trans t x q c (AllAfter-elem x q xs a m) b in
        absurd (ground (arith, h, e))
    | inr b ↦ b
  ]

  pub elem-set_before :
      (xs : List ℕ) (c q : ℕ)
      → IsOrdered xs
      → elem q (set_before t xs c) ≡ (elem q xs && comes_before t q c)
  unfolding set_before
  elem-set_before [] c q s = refl
  elem-set_before (x ∷ xs) c q s = elim (Bool-cases (comes_before t x c)) [
    | inl e ↦ rw e (ground (arith, e, same_place q x c, elem-set_before xs c q s.1))
    | inr e ↦ rw e (ground (arith, e, same_place q x c, later x c q xs e s.0))
  ]

  pub elem-set_from :
      (xs : List ℕ) (c q : ℕ)
      → IsOrdered xs
      → elem q (set_from t xs c) ≡ (elem q xs && not (comes_before t q c))
  unfolding set_from
  elem-set_from [] c q s = refl
  elem-set_from (x ∷ xs) c q s = elim (Bool-cases (comes_before t x c)) [
    | inl e ↦ rw e (ground (arith, e, same_place q x c, elem-set_from xs c q s.1))
    | inr e ↦ rw e (ground (arith, e, same_place q x c, later x c q xs e s.0))
  ]

  pub set_from-IsOrdered : (xs : List ℕ) (c : ℕ) → IsOrdered xs → IsOrdered (set_from t xs c)
  unfolding set_from
  set_from-IsOrdered [] c s = tt
  set_from-IsOrdered (x ∷ xs) c s = elim (Bool-cases (comes_before t x c)) [
    | inl e ↦ rw e (set_from-IsOrdered xs c s.1)
    | inr e ↦ rw e s
  ]

  before-AllAfter : (w : ℕ) (xs : List ℕ) (c : ℕ) → AllAfter w xs → AllAfter w (set_before t xs c)
  unfolding set_before
  before-AllAfter w [] c a = tt
  before-AllAfter w (x ∷ xs) c a = elim (Bool-cases (comes_before t x c)) [
    | inl e ↦ rw e (a.0, before-AllAfter w xs c a.1)
    | inr e ↦ rw e tt
  ]

  pub set_before-IsOrdered : (xs : List ℕ) (c : ℕ) → IsOrdered xs → IsOrdered (set_before t xs c)
  unfolding set_before
  set_before-IsOrdered [] c s = tt
  set_before-IsOrdered (x ∷ xs) c s = elim (Bool-cases (comes_before t x c)) [
    | inl e ↦ rw e (before-AllAfter x xs c s.0, set_before-IsOrdered xs c s.1)
    | inr e ↦ rw e tt
  ]

  pub elem-set_insert_all :
      PlacesDiffer t
      → (set xs : List ℕ) (q : ℕ) → elem q (set_insert_all t set xs) ≡ (elem q set || elem q xs)
  unfolding set_insert_all
  elem-set_insert_all d set [] q = ground arith
  elem-set_insert_all d set (x ∷ xs) q =
      ground (arith, elem-set_insert_all d (set_insert t set x).0 xs q, elem-set_insert d set x q)

  pub set_insert_all-IsOrdered :
      (set xs : List ℕ) → IsOrdered set → IsOrdered (set_insert_all t set xs)
  unfolding set_insert_all
  set_insert_all-IsOrdered set [] s = s
  set_insert_all-IsOrdered set (x ∷ xs) s =
      set_insert_all-IsOrdered (set_insert t set x).0 xs (set_insert-IsOrdered set x s)

pub elem-reverse_onto :
    (xs done : List ℕ) (q : ℕ) → elem q (reverse_onto xs done) ≡ (elem q xs || elem q done)
elem-reverse_onto [] done q = refl
elem-reverse_onto (x ∷ xs) done q = ground (arith, elem-reverse_onto xs (x ∷ done) q)
