-- ===== src/Dependents/Closure.antt =====
-- The search for dependants ends, with all of them.
use vislcg.Base.{
  ℕ, zero, suc, ◌<◌, true, false, List, [], ◌∷◌, ◌≡◌, refl, arith, ap, Bool-cases, inl, inr, ==_iff,
  if_elim, ◌↔◌, Option, some,
}
use vislcg.SortedVector.{elem}
use vislcg.Dependents.{
  Kinship, Way, children_of, add_children, Round, expand_all, set_insert_all, close,
}
use vislcg.Dependents.Sets.{PlacesDiffer, IsOrdered, elem-set_insert_all, set_insert_all-IsOrdered}
use vislcg.Dependents.Adding.{
  is_dependant, Reaches, child, further, unseen, unseen-le, elem-add_children,
  add_children-IsOrdered,
}
use vislcg.Dependents.Expand.{Expands, expand_all-Expands}

module _ (t : Kinship) (j : Way) (c : ℕ) where
  record Closing (seen set : List ℕ) : Type 0 where
    seen_ordered : IsOrdered t seen
    ordered : IsOrdered t set
    start : elem c seen ≡ true
    sound : (q : ℕ) → elem q set ≡ true → Reaches t j c q
    closed : (p q : ℕ) → elem p seen ≡ true → is_dependant t j c p q ≡ true → elem q set ≡ true

  pub record Closed (set : List ℕ) : Type 0 where
    pub ordered : IsOrdered t set
    pub members : (q : ℕ) → (elem q set ≡ true) ↔ Reaches t j c q

  Reaches-known : {q : ℕ} → Reaches t j c q → t.tree.known q ≡ true
  Reaches-known (child q e) = ground (arith, e)
  Reaches-known (further q p e) = ground (arith, e)

  -- After a round.
  next_round :
      (seen set : List ℕ) (r : Round)
      → PlacesDiffer t
      → Closing seen set
      → Expands t j c set (record { seen = seen; to_add = []; added = false }) r
      → Closing r.seen (set_insert_all t set r.to_add)
  next_round seen set r d k e = record {
    seen_ordered = e.ordered;
    ordered = set_insert_all-IsOrdered t set r.to_add k.ordered;
    start = ground (arith, e.seen c, k.start);
    sound = λ q m. elim (Bool-cases (elem q set)) [
      | inl old ↦ k.sound q old
      | inr new ↦
          e.sound k.sound (λ p h. absurd (cc)) q
            (ground (arith, m, new, elem-set_insert_all t d set r.to_add q))
    ];
    closed = λ p q m h. elim (Bool-cases (elem p seen)) [
      | inl old ↦ ground (arith, k.closed p q old h, elem-set_insert_all t d set r.to_add q)
      | inr new ↦
          let at : elem p set ≡ true = ground (arith, m, new, e.seen p) in
          ground (arith, e.found p q at new h, elem-set_insert_all t d set r.to_add q)
    ];
  }

  -- After the last one.
  last_round :
      (seen set : List ℕ) (r : Round)
      → PlacesDiffer t
      → Closing seen set
      → Expands t j c set (record { seen = seen; to_add = []; added = false }) r
      → r.added ≡ false
      → Closed (set_insert_all t set r.to_add)
  last_round seen set r d k e stop = record {
    ordered = n.ordered;
    members = λ q. (n.sound q, all_there);
  }
    where
      n : Closing r.seen (set_insert_all t set r.to_add)
      n = next_round seen set r d k e

      none_added : (q : ℕ) → elem q r.to_add ≡ false
      none_added q = elim (Bool-cases (elem q r.to_add)) [
        | inl m ↦ absurd (ground (arith, stop, e.tells (λ p h. absurd (cc)) q m))
        | inr m ↦ m
      ]

      all_there : {q : ℕ} → Reaches t j c q → elem q (set_insert_all t set r.to_add) ≡ true
      all_there (child q h) = n.closed c q n.start h
      all_there (further {p} q w h) =
          let at : elem p (set_insert_all t set r.to_add) ≡ true = all_there w in
          n.closed p q
            (ground (arith, at, e.seen p, none_added p, elem-set_insert_all t d set r.to_add p)) h

  abbrev pub Ends : Option (List ℕ) → Type 0
  Ends result = (all : List ℕ) × (result ≡ some all) × Closed all

  close-Ends :
      (n fuel : ℕ) (seen set : List ℕ)
      → PlacesDiffer t
      → ((p : ℕ) → t.tree.known p ≡ true → p < n)
      → Closing seen set
      → unseen n seen < fuel
      → Ends (close fuel t j c seen set)
  unfolding close
  close-Ends n zero seen set d b k h = absurd (omega (arith, h))
  close-Ends n (suc fuel) seen set d b k h =
      let before : Round = record { seen = seen; to_add = []; added = false } in
      let r = expand_all t j c set before in
      let all = set_insert_all t set r.to_add in
      let e : Expands t j c set before r = expand_all-Expands t j c set before d k.seen_ordered in
      let fewer = e.fewer n (λ p m. b p (Reaches-known (k.sound p m))) in
      if_elim Ends r.added (close fuel t j c r.seen all) (some all)
        (λ a.
          close-Ends n fuel r.seen all d b (next_round seen set r d k e)
            (ground (arith, h, a, fewer.1)))
        (λ a. (all, refl, last_round seen set r d k e a))

  -- The first round.
  first_round :
      PlacesDiffer t → Closing (c ∷ []) (add_children t j c (children_of t c) ([], false)).0
  first_round d = record {
    seen_ordered = (tt, tt);
    ordered = add_children-IsOrdered t j c (children_of t c) [] false tt;
    start = ground arith;
    sound =
        λ q m. child q (ground (arith, m, elem-add_children t j c d (children_of t c) [] false q));
    closed = λ p q m h.
        let here : is_dependant t j c p q ≡ is_dependant t j c c q =
          ap (λ x. is_dependant t j c x q) ((==_iff p c).0 (ground (arith, m))) in
        ground (arith, h, here, elem-add_children t j c d (children_of t c) [] false q);
  }

  pub search-Ends :
      (n : ℕ)
      → PlacesDiffer t
      → ((p : ℕ) → t.tree.known p ≡ true → p < n)
      → Ends (close (suc n) t j c (c ∷ []) (add_children t j c (children_of t c) ([], false)).0)
  search-Ends n d b =
      close-Ends n (suc n) (c ∷ []) _ d b (first_round d) (omega (arith, unseen-le n (c ∷ [])))
