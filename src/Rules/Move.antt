-- ===== src/Rules/Move.antt =====
-- What is moved out of a cohort after the loops.
use vislcg.Base.{
  length-rejoin, ℕ, suc, ◌+◌, ◌≤◌, ◌<◌, ◌≡◌, refl, ◌∙◌, ap, true, false, List, [], ◌∷◌, arith, ◌==◌,
  if◌then◌else◌, length, rejoin,
}
use vislcg.Rules.{
  Keyword, is_select, Reading, Rule, Cohort, Sorted, take_out, take_out_all, last_first,
  behind_last, mark_deleted, swap_in, moved,
}
use vislcg.Rules.Scan.{count, count-append}
use vislcg.Rules.Sort.{Sorts, some_in}

count-behind_last :
    (k : ℕ) (s : Reading) (rs : List Reading) → count k (behind_last s rs) ≡ count k (s ∷ rs)
count-behind_last k s [] = refl
count-behind_last k s (l ∷ front) = ground arith

length-behind_last : (s : Reading) (rs : List Reading) → length (behind_last s rs) ≡ suc (length rs)
length-behind_last s [] = refl
length-behind_last s (l ∷ front) = refl

count-last_first : (k : ℕ) (rs : List Reading) → count k (last_first rs) ≡ count k rs
unfolding last_first
count-last_first k [] = refl
count-last_first k (s ∷ ss) =
    count-behind_last k s (last_first ss) ∙ ground (arith, count-last_first k ss)

length-last_first : (rs : List Reading) → length (last_first rs) ≡ length rs
unfolding last_first
length-last_first [] = refl
length-last_first (s ∷ ss) = length-behind_last s (last_first ss) ∙ ap suc (length-last_first ss)

count-take_out :
    (k x : ℕ) (rs : List Reading)
    → 0 < count x rs
    → count k (take_out x rs) + (if x == k then 1 else 0) ≡ count k rs
unfolding take_out
count-take_out k x [] h = absurd (omega arith)
count-take_out k x (r ∷ rs) h = ground (arith, count-last_first k rs, count-take_out k x rs)

length-take_out : (x : ℕ) (rs : List Reading) → length rs ≤ length (take_out x rs) + 1
unfolding take_out
length-take_out x [] = omega arith
length-take_out x (r ∷ rs) = ground (arith, length-last_first rs, length-take_out x rs)

count-take_out_all :
    (out rs : List Reading)
    → ((k : ℕ) → count k out ≤ count k rs)
    → (k : ℕ) → count k (take_out_all out rs) + count k out ≡ count k rs
unfolding take_out_all
count-take_out_all [] rs h k = omega arith
count-take_out_all (x ∷ out) rs h k =
    let here : 0 < count x.address rs = ground (arith, h x.address) in
    ground (
      arith,
      count-take_out k x.address rs here,
      count-take_out_all out (take_out x.address rs)
          (λ j. ground (arith, h j, count-take_out j x.address rs here)) k,
    )

length-take_out_all :
    (out rs : List Reading) → length rs ≤ length (take_out_all out rs) + length out
unfolding take_out_all
length-take_out_all [] rs = omega arith
length-take_out_all (x ∷ out) rs =
    omega (arith, length-take_out x.address rs, length-take_out_all out (take_out x.address rs))

count-rejoin : (k : ℕ) (rs ss : List Reading) → count k (rejoin rs ss) ≡ count k rs + count k ss
count-rejoin k [] ss = omega arith
count-rejoin k (r ∷ rs) ss = ground (arith, count-rejoin k rs (r ∷ ss))

pub count-mark_deleted : (k : ℕ) (rs : List Reading) → count k (mark_deleted rs) ≡ count k rs
count-mark_deleted k [] = refl
count-mark_deleted k (r ∷ rs) = ground (arith, count-mark_deleted k rs)

swap_in-full : (rs ss : List Reading) → some_in rs ≡ true → swap_in rs ss ≡ rs
swap_in-full [] ss h = cc
swap_in-full (r ∷ rs) ss h = refl

length-full : (rs : List Reading) → some_in rs ≡ true → 0 < length rs
length-full [] h = cc
length-full (r ∷ rs) h = omega arith

-- The readings of a cohort at an address, wherever they are kept.
abbrev pub count_all : ℕ → Cohort → ℕ
count_all k c = count k c.readings + count k c.deleted + count k c.delayed

abbrev pub nothing : Sorted
nothing = record { removed = []; selected = []; readings = [] }

module _ (rule : Rule) (type : Keyword) (c : Cohort) (done : List Reading) (s : Sorted)
    (sorts : Sorts type done nothing s) where
  taken :
      (gone : List Reading)
      → ((k : ℕ) → count k gone ≤ count k s.removed)
      → (k : ℕ) → count k (take_out_all (rejoin gone []) s.readings) + count k gone ≡ count k done
  taken gone fewer k = ground (
    arith,
    count-rejoin k gone [],
    sorts.counts k,
    count-take_out_all (rejoin gone []) s.readings
        (λ j. omega (arith, count-rejoin j gone [], fewer j, sorts.removes j, sorts.counts j)) k,
  )

  count-moved :
      (k : ℕ) (gone : List Reading)
      → count k (swap_in s.selected (take_out_all (rejoin gone []) s.readings)) + count k gone
        ≡ count k done
      → count_all k (moved rule c s gone) ≡ count k done + count k c.deleted + count k c.delayed
  unfolding moved
  count-moved k gone h = ground (
    arith,
    h,
    count-append k c.deleted (mark_deleted gone),
    count-append k c.delayed (mark_deleted gone),
    count-mark_deleted k gone,
  )

  pub removes_stay :
      (gone : List Reading)
      → is_select type ≡ false
      → ((k : ℕ) → count k gone ≤ count k s.removed)
      → (k : ℕ)
      → count_all k (moved rule c s gone) ≡ count k done + count k c.deleted + count k c.delayed
  removes_stay gone e fewer k = count-moved k gone (rw (sorts.selects e) (taken gone fewer k))

  pub selects_stay :
      is_select type ≡ true
      → some_in s.selected ≡ true
      → (k : ℕ)
      → count_all k (moved rule c s s.removed)
        ≡ count k done + count k c.deleted + count k c.delayed
  selects_stay e full k =
      count-moved k s.removed
        (rw (swap_in-full s.selected _ full) (omega (arith, sorts.splits e k)))

  pub length-moved_removes :
      (gone : List Reading)
      → is_select type ≡ false
      → length done ≤ length (moved rule c s gone).readings + length gone
  unfolding moved
  length-moved_removes gone e = rw (sorts.selects e) (
      omega (
        arith,
        sorts.longer,
        length-take_out_all (rejoin gone []) s.readings,
        length-rejoin gone [],
      ))

  pub length-moved_selects :
      (gone : List Reading) → some_in s.selected ≡ true → 0 < length (moved rule c s gone).readings
  unfolding moved
  length-moved_selects gone full = rw (swap_in-full s.selected _ full) (length-full s.selected full)
