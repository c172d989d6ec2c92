-- ===== src/Rules/Sort.antt =====
-- The second loop: what it does with the readings, to their addresses.
use vislcg.Base.{
  ℕ, ◌+◌, ◌-◌, ◌≤◌, ◌≡◌, refl, ◌∙◌, Bool, true, false, ◌&&◌, ◌||◌, List, [], ◌∷◌, ◌++◌, arith, ◌==◌,
  if_elim, length, length-append,
}
use vislcg.Rules.{Keyword, is_select, Reading, Rule, Sorted, sort_reading, sort_readings, is_good}
use vislcg.Rules.Scan.{count, count-append, any_matched}

-- What the second loop does with a reading it does, up to marks, to its address.
pub record Sorts (type : Keyword) (rs : List Reading) (s t : Sorted) : Type 0 where
  pub counts : (k : ℕ) → count k t.readings ≡ count k s.readings + count k rs
  pub longer : length t.readings ≡ length s.readings + length rs
  pub splits :
      is_select type ≡ true
      → (k : ℕ)
      → count k t.removed + count k t.selected ≡ count k s.removed + count k s.selected + count k rs
  pub selects : is_select type ≡ false → t.selected ≡ s.selected
  pub removes : (k : ℕ) → count k t.removed ≤ count k s.removed + count k rs
  pub grows : length t.removed ≤ length s.removed + length rs

module _ (type : Keyword) (s : Sorted) (r : Reading) where
  into_selected :
      is_select type ≡ true
      → Sorts type
          (r ∷ [])
          s
          (record s { selected = s.selected ++ r ∷ []; readings = s.readings ++ r ∷ [] })
  into_selected e = record {
    counts = λ k. count-append k s.readings (r ∷ []);
    longer = length-append s.readings (r ∷ []);
    splits = λ _ k. omega (arith, count-append k s.selected (r ∷ []));
    selects = λ f. cc;
    removes = λ k. omega arith;
    grows = omega arith;
  }

  into_removed :
      Sorts type
        (r ∷ [])
        s
        (record s { removed = s.removed ++ r ∷ []; readings = s.readings ++ r ∷ [] })
  into_removed = record {
    counts = λ k. count-append k s.readings (r ∷ []);
    longer = length-append s.readings (r ∷ []);
    splits = λ _ k. omega (arith, count-append k s.removed (r ∷ []));
    selects = λ f. refl;
    removes = λ k. omega (arith, count-append k s.removed (r ∷ []));
    grows = omega (arith, length-append s.removed (r ∷ []));
  }

  left_alone :
      (a : Reading)
      → a.address ≡ r.address
      → is_select type ≡ false
      → Sorts type (r ∷ []) s (record s { readings = s.readings ++ a ∷ [] })
  left_alone a same e = record {
    counts = λ k. rw (count-append k s.readings (a ∷ []), same) refl;
    longer = length-append s.readings (a ∷ []);
    splits = λ f k. cc;
    selects = λ f. refl;
    removes = λ k. omega arith;
    grows = omega arith;
  }

  sort_reading-Sorts : (rule : Rule) (n : ℕ) → Sorts type (r ∷ []) s (sort_reading rule type n s r)
  unfolding sort_reading
  sort_reading-Sorts rule n =
      let P : Sorted → Type 0 = Sorts type (r ∷ []) s in
      if_elim P (is_select type) _ _
        (λ e. if_elim P (is_good rule type r) _ _ (λ _. into_selected e) (λ _. into_removed))
        (λ e.
          if_elim P (is_good rule type r) _ _
            (λ _.
              if_elim P (rule.rf_unmaplast && length s.removed == n - 1) _ _
                (λ _. left_alone _ refl e) (λ _. into_removed))
            (λ _. left_alone r refl e))

pub sort_readings-Sorts :
    (rule : Rule) (type : Keyword) (n : ℕ) (rs : List Reading) (s : Sorted)
    → Sorts type rs s (sort_readings rule type n s rs)
unfolding sort_readings
sort_readings-Sorts rule type n [] s = record {
  counts = λ k. omega arith;
  longer = omega arith;
  splits = λ e k. omega arith;
  selects = λ e. refl;
  removes = λ k. omega arith;
  grows = omega arith;
}
sort_readings-Sorts rule type n (r ∷ rs) s =
    let a = sort_reading-Sorts type s r rule n in
    let b = sort_readings-Sorts rule type n rs (sort_reading rule type n s r) in
    record {
      counts = λ k. ground (arith, a.counts k, b.counts k);
      longer = ground (arith, a.longer, b.longer);
      splits = λ e k. ground (arith, a.splits e k, b.splits e k);
      selects = λ e. b.selects e ∙ a.selects e;
      removes = λ k. ground (arith, a.removes k, b.removes k);
      grows = ground (arith, a.grows, b.grows);
    }

-- SELECT has something selected once a reading has matched.
abbrev pub some_in : List Reading → Bool
some_in [] = false
some_in (r ∷ rs) = true

some_in-append : (rs ss : List Reading) → some_in (rs ++ ss) ≡ (some_in rs || some_in ss)
some_in-append [] ss = refl
some_in-append (r ∷ rs) ss = refl

sort_reading-selects :
    (rule : Rule) (type : Keyword) (n : ℕ) (s : Sorted) (r : Reading)
    → is_select type ≡ true
    → (some_in s.selected || r.matched_tests) ≡ true
    → some_in (sort_reading rule type n s r).selected ≡ true
unfolding sort_reading
sort_reading-selects rule type n s r e h = ground (arith, some_in-append s.selected (r ∷ []))

pub sort_readings-selects :
    (rule : Rule) (type : Keyword) (n : ℕ) (rs : List Reading) (s : Sorted)
    → is_select type ≡ true
    → (some_in s.selected || any_matched rs) ≡ true
    → some_in (sort_readings rule type n s rs).selected ≡ true
unfolding sort_readings any_matched
sort_readings-selects rule type n [] s e h = ground arith
sort_readings-selects rule type n (r ∷ rs) s e h =
    sort_readings-selects rule type n rs (sort_reading rule type n s r) e
      (ground (arith, sort_reading-selects rule type n s r e))
