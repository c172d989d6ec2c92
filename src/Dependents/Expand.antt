-- ===== src/Dependents/Expand.antt =====
-- One round of the search for dependants.
use vislcg.Base.{
  ℕ, suc, ◌≤◌, ◌<◌, ◌==◌, Bool, true, false, ◌||◌, List, [], ◌∷◌, ◌≡◌, refl, arith, sym, ◌∙◌, ap,
  Bool-cases, inl, inr, ==_iff, if_elim, ◌⊎◌,
}
use vislcg.SortedVector.{elem}
use vislcg.Dependents.{
  Kinship, Way, children_of, set_insert, set_has, add_children, Round, expand, expand_all,
}
use vislcg.Dependents.Sets.{
  PlacesDiffer, IsOrdered, set_insert-IsOrdered, elem-set_insert, set_has-elem,
}
use vislcg.Dependents.Adding.{
  is_dependant, Reaches, further, unseen, unseen-less, elem-add_children, stays_added, told,
}

module _ (t : Kinship) (j : Way) (c : ℕ) where
  -- A round after some of the dependants that it started with.
  pub record Expands (ds : List ℕ) (r r' : Round) : Type 0 where
    pub seen : (q : ℕ) → elem q r'.seen ≡ (elem q r.seen || elem q ds)
    pub kept : (q : ℕ) → elem q r.to_add ≡ true → elem q r'.to_add ≡ true
    pub found :
        (p q : ℕ)
        → elem p ds ≡ true
        → elem p r.seen ≡ false
        → is_dependant t j c p q ≡ true
        → elem q r'.to_add ≡ true
    pub sound :
        ((p : ℕ) → elem p ds ≡ true → Reaches t j c p)
        → ((q : ℕ) → elem q r.to_add ≡ true → Reaches t j c q)
        → (q : ℕ) → elem q r'.to_add ≡ true
        → Reaches t j c q
    pub tells :
        ((q : ℕ) → elem q r.to_add ≡ true → r.added ≡ true)
        → (q : ℕ) → elem q r'.to_add ≡ true
        → r'.added ≡ true
    pub ordered : IsOrdered t r'.seen
    pub fewer :
        (n : ℕ)
        → ((p : ℕ) → elem p ds ≡ true → p < n)
        → (unseen n r'.seen ≤ unseen n r.seen)
          × ((r'.added ≡ r.added) ⊎ (unseen n r'.seen < unseen n r.seen))

  only : (p inner : ℕ) → elem p (inner ∷ []) ≡ true → p ≡ inner
  only p inner m = (==_iff p inner).0 (ground (arith, m))

  -- A cohort that has been seen before.
  again :
      (inner : ℕ) (r : Round)
      → IsOrdered t r.seen
      → elem inner r.seen ≡ true
      → Expands (inner ∷ []) r r
  again inner r s m = record {
    seen = λ q. ground (arith, same q, m);
    kept = λ q k. k;
    found = λ p q k h _. absurd (ground (arith, h, m, ap (λ x. elem x r.seen) (only p inner k)));
    sound = λ _ old. old;
    tells = λ old. old;
    ordered = s;
    fewer = λ n _. (omega arith, inl refl);
  }
    where
      same : (q : ℕ) → (q == inner) ≡ true → elem q r.seen ≡ elem inner r.seen
      same q e = ap (λ x. elem x r.seen) ((==_iff q inner).0 e)

  once :
      (inner : ℕ) (r : Round)
      → PlacesDiffer t
      → IsOrdered t r.seen
      → elem inner r.seen ≡ false
      → Expands (inner ∷ []) r (record {
        seen = (set_insert t r.seen inner).0;
        to_add = (add_children t j c (children_of t inner) (r.to_add, r.added)).0;
        added = (add_children t j c (children_of t inner) (r.to_add, r.added)).1;
      })
  once inner r d s m = record {
    seen = λ q. ground (arith, elem-set_insert t d r.seen inner q);
    kept = λ q k.
        ground (arith, k, elem-add_children t j c d (children_of t inner) r.to_add r.added q);
    found = λ p q k _ h.
        let here : is_dependant t j c p q ≡ is_dependant t j c inner q =
          ap (λ x. is_dependant t j c x q) (only p inner k) in
        ground (arith, h, here, elem-add_children t j c d (children_of t inner) r.to_add r.added q);
    sound = λ from old q k. elim (Bool-cases (elem q r.to_add)) [
      | inl e ↦ old q e
      | inr e ↦
          further q (from inner (ground arith)) (
            ground
              (arith, e, k, elem-add_children t j c d (children_of t inner) r.to_add r.added q))
    ];
    tells = λ old q k. elim (Bool-cases (elem q r.to_add)) [
      | inl e ↦ stays_added t j c (children_of t inner) r.to_add r.added (old q e)
      | inr e ↦
          let new : is_dependant t j c inner q ≡ true =
            ground
              (arith, e, k, elem-add_children t j c d (children_of t inner) r.to_add r.added q) in
          told t j c (children_of t inner) r.to_add r.added q (ground (arith, new))
            (ground (arith, new))
    ];
    ordered = set_insert-IsOrdered t r.seen inner s;
    fewer = λ n below.
        let less : suc (unseen n (set_insert t r.seen inner).0) ≡ unseen n r.seen =
          unseen-less n inner r.seen _ (below inner (ground arith)) m
            (elem-set_insert t d r.seen inner) in
        (omega (arith, less), inr (omega (arith, less)));
  }

  expand-Expands :
      (inner : ℕ) (r : Round)
      → PlacesDiffer t
      → IsOrdered t r.seen
      → Expands (inner ∷ []) r (expand t j c inner r)
  unfolding expand
  expand-Expands inner r d s =
      if_elim (Expands (inner ∷ []) r) (set_has t r.seen inner) r _
        (λ h. again inner r s (sym (set_has-elem t d r.seen inner s) ∙ h))
        (λ h. once inner r d s (sym (set_has-elem t d r.seen inner s) ∙ h))

  both_parts :
      (inner : ℕ) (rest : List ℕ) (r r' r'' : Round)
      → Expands (inner ∷ []) r r'
      → Expands rest r' r''
      → Expands (inner ∷ rest) r r''
  both_parts inner rest r r' r'' a b = record {
    seen = λ q. ground (arith, a.seen q, b.seen q);
    kept = λ q k. b.kept q (a.kept q k);
    found = λ p q k h e. elim (Bool-cases (p == inner)) [
      | inl same ↦ b.kept q (a.found p q (ground (arith, same)) h e)
      | inr other ↦ b.found p q (ground (arith, other, k)) (ground (arith, a.seen p, other, h)) e
    ];
    sound = λ from old.
        b.sound (λ p k. from p (ground (arith, k)))
          (a.sound (λ p k. from p (ground (arith, k))) old);
    tells = λ old. b.tells (a.tells old);
    ordered = b.ordered;
    fewer = λ n below.
        let one = a.fewer n (λ p k. below p (ground (arith, k))) in
        let two = b.fewer n (λ p k. below p (ground (arith, k))) in
        (omega (arith, one.0, two.0), either one two);
  }
    where
      either :
          {n m k : ℕ} {x y z : Bool}
          → (m ≤ n) × ((y ≡ x) ⊎ (m < n))
          → (k ≤ m) × ((z ≡ y) ⊎ (k < m))
          → (z ≡ x) ⊎ (k < n)
      either (l, inr h) (l', w) = inr (omega (arith, h, l'))
      either (l, inl e) (l', inr h) = inr (omega (arith, h, l))
      either (l, inl e) (l', inl e') = inl (e' ∙ e)

  pub expand_all-Expands :
      (ds : List ℕ) (r : Round)
      → PlacesDiffer t
      → IsOrdered t r.seen
      → Expands ds r (expand_all t j c ds r)
  unfolding expand_all
  expand_all-Expands [] r d s = record {
    seen = λ q. ground arith;
    kept = λ q k. k;
    found = λ p q k _ _. absurd (cc);
    sound = λ _ old. old;
    tells = λ old. old;
    ordered = s;
    fewer = λ n _. (omega arith, inl refl);
  }
  expand_all-Expands (inner ∷ rest) r d s =
      let one = expand-Expands inner r d s in
      both_parts inner rest r (expand t j c inner r) _ one
        (expand_all-Expands rest (expand t j c inner r) d one.ordered)
