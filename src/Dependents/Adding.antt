-- ===== src/Dependents/Adding.antt =====
-- The dependants of one cohort, and which cohorts they lead to.
use vislcg.Base.{
  ℕ, zero, suc, ◌+◌, ◌≤◌, ◌<◌, ◌==◌, Bool, true, false, ◌&&◌, ◌||◌, if◌then◌else◌, List, [], ◌∷◌,
  ◌≡◌, refl, arith, ◌∙◌, ap, Bool-cases, inl, inr, ==_iff, if_elim, ◌⊎◌,
}
use vislcg.SortedVector.{elem}
use vislcg.Dependents.{Kinship, Way, children_of, may_enter, set_insert, add_children}
use vislcg.Dependents.Sets.{PlacesDiffer, IsOrdered, set_insert-IsOrdered, elem-set_insert}

-- Whether a dependant is there and in a window that may be entered.
abbrev pub may_add : Kinship → Way → ℕ → ℕ → Bool
may_add t j c q = t.tree.known q && may_enter t j c q

abbrev pub is_dependant : Kinship → Way → ℕ → ℕ → ℕ → Bool
is_dependant t j c p q = elem q (children_of t p) && may_add t j c q

-- The cohorts that are led to by dependants of dependants, all of them in windows that may be entered.
pub data Reaches (t : Kinship) (j : Way) (c : ℕ) : ℕ → Type 0 where
  child : (q : ℕ) → is_dependant t j c c q ≡ true → Reaches t j c q
  further : {p : ℕ} (q : ℕ) → Reaches t j c p → is_dependant t j c p q ≡ true → Reaches t j c q

-- How many of the first numbers are not in a list.
unfoldable pub unseen : ℕ → List ℕ → ℕ
unseen zero seen = 0
unseen (suc n) seen = (if elem n seen then 0 else 1) + unseen n seen

pub unseen-le : (n : ℕ) (seen : List ℕ) → unseen n seen ≤ n
unfolding unseen
unseen-le zero seen = omega arith
unseen-le (suc n) seen = ground (arith, unseen-le n seen)

unseen-same :
    (n p : ℕ) (old new : List ℕ)
    → n ≤ p
    → ((q : ℕ) → elem q new ≡ (q == p || elem q old))
    → unseen n new ≡ unseen n old
unfolding unseen
unseen-same zero p old new h m = refl
unseen-same (suc n) p old new h m =
    ground (arith, unseen-same n p old new (omega (arith, h)) m, m n)

pub unseen-less :
    (n p : ℕ) (old new : List ℕ)
    → p < n
    → elem p old ≡ false
    → ((q : ℕ) → elem q new ≡ (q == p || elem q old))
    → suc (unseen n new) ≡ unseen n old
unfolding unseen
unseen-less zero p old new h e m = absurd (omega (arith, h))
unseen-less (suc n) p old new h e m = elim (Bool-cases (n == p)) [
  | inl g ↦
      let same : unseen n new ≡ unseen n old = unseen-same n p old new (ground (arith, g)) m in
      let at : elem n old ≡ false = ap (λ x. elem x old) ((==_iff n p).0 g) ∙ e in
      ground (arith, same, at, m n, g)
  | inr g ↦ ground (arith, g, unseen-less n p old new (ground (arith, g, h)) e m, m n)
]

module _ (t : Kinship) (j : Way) (c : ℕ) where
  pub elem-add_children :
      PlacesDiffer t
      → (cs set : List ℕ) (added : Bool) (q : ℕ)
      → elem q (add_children t j c cs (set, added)).0
        ≡ (elem q set || (elem q cs && may_add t j c q))
  unfolding add_children
  elem-add_children d [] set added q = ground arith
  elem-add_children d (x ∷ xs) set added q =
      if_elim
        (λ r.
          elem q (add_children t j c xs r).0
          ≡ (elem q set || ((q == x || elem q xs) && may_add t j c q)))
        (may_add t j c x) ((set_insert t set x).0, true) (set, added)
        (λ h. ground (
          arith,
          h,
          elem-add_children d xs (set_insert t set x).0 true q,
          elem-set_insert t d set x q,
          same_may q x,
        ))
        (λ h. ground (arith, h, elem-add_children d xs set added q, same_may q x))
    where
      same_may : (a b : ℕ) → (a == b) ≡ true → may_add t j c a ≡ may_add t j c b
      same_may a b e = ap (may_add t j c) ((==_iff a b).0 e)

  pub add_children-IsOrdered :
      (cs set : List ℕ) (added : Bool)
      → IsOrdered t set
      → IsOrdered t (add_children t j c cs (set, added)).0
  unfolding add_children
  add_children-IsOrdered [] set added s = s
  add_children-IsOrdered (x ∷ xs) set added s =
      if_elim (λ r. IsOrdered t (add_children t j c xs r).0) (may_add t j c x)
        ((set_insert t set x).0, true) (set, added)
        (λ _. add_children-IsOrdered xs _ true (set_insert-IsOrdered t set x s))
        (λ _. add_children-IsOrdered xs set added s)

  pub stays_added :
      (cs set : List ℕ) (added : Bool)
      → added ≡ true
      → (add_children t j c cs (set, added)).1 ≡ true
  unfolding add_children
  stays_added [] set added e = e
  stays_added (x ∷ xs) set added e =
      if_elim (λ r. (add_children t j c xs r).1 ≡ true) (may_add t j c x)
        ((set_insert t set x).0, true) (set, added) (λ _. stays_added xs _ true refl)
        (λ _. stays_added xs set added e)

  -- Where something is added it is said.
  pub told :
      (cs set : List ℕ) (added : Bool) (q : ℕ)
      → elem q cs ≡ true
      → may_add t j c q ≡ true
      → (add_children t j c cs (set, added)).1 ≡ true
  unfolding add_children
  told [] set added q m k = cc
  told (x ∷ xs) set added q m k =
      if_elim (λ r. (add_children t j c xs r).1 ≡ true) (may_add t j c x)
        ((set_insert t set x).0, true) (set, added) (λ _. stays_added xs _ true refl)
        (λ h. told xs set added q (elsewhere (Bool-cases (q == x)) h) k)
    where
      elsewhere :
          ((q == x) ≡ true) ⊎ ((q == x) ≡ false) → may_add t j c x ≡ false → elem q xs ≡ true
      elsewhere (inl e) h =
          let same : may_add t j c q ≡ may_add t j c x = ap (may_add t j c) ((==_iff q x).0 e) in
          absurd (ground (arith, h, k, same))
      elsewhere (inr e) h = ground (arith, e, m)
