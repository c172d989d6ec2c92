-- ===== src/Numeric/Bounds.antt =====
-- The ranges that a cohort keeps of its numerical tags, and reading them through the cache.
use vislcg.Base.{
  ℕ, ◌≡◌, refl, sym, ◌∙◌, ap, true, List, [], ◌∷◌, Option, none, some, arith, ◌==◌, if◌then◌else◌,
  min, max, Bool-cases, inl, inr,
}
use vislcg.Numeric.{
  NumTag, NumCohort, Nums, Limits, find_num, set_num, update_min, update_max, reading_min,
  reading_max, readings_min, readings_max, update_min_max, get_min, get_max, or_else,
}

pub find_num-set_num :
    (hash other new : ℕ) (nums : Nums)
    → find_num other (set_num hash new nums)
      ≡ (if hash == other then some new else find_num other nums)
unfolding find_num set_num
find_num-set_num hash other new [] = refl
find_num-set_num hash other new ((key, val) ∷ nums) =
    ground (arith, find_num-set_num hash other new nums)

-- The least and the greatest value under a key, over two sources or a list of tags.
abbrev join : (ℕ → ℕ → ℕ) → Option ℕ → Option ℕ → Option ℕ
join f none o = o
join f (some v) none = some v
join f (some v) (some w) = some (f v w)

abbrev pub extreme : (ℕ → ℕ → ℕ) → ℕ → List NumTag → Option ℕ
extreme f k [] = none
extreme f k (t ∷ ts) =
    if t.comparison_hash == k
    then join f (some t.comparison_val) (extreme f k ts)
    else extreme f k ts

abbrev pub extreme_all : (ℕ → ℕ → ℕ) → ℕ → List (List NumTag) → Option ℕ
extreme_all f k [] = none
extreme_all f k (r ∷ rs) = join f (extreme f k r) (extreme_all f k rs)

join-none : (f : ℕ → ℕ → ℕ) (o : Option ℕ) → join f o none ≡ o
join-none f none = refl
join-none f (some v) = refl

min-join_assoc : (a b c : Option ℕ) → join min (join min a b) c ≡ join min a (join min b c)
min-join_assoc none b c = refl
min-join_assoc (some x) none c = refl
min-join_assoc (some x) (some y) none = refl
min-join_assoc (some x) (some y) (some z) = ap some (omega arith)

max-join_assoc : (a b c : Option ℕ) → join max (join max a b) c ≡ join max a (join max b c)
max-join_assoc none b c = refl
max-join_assoc (some x) none c = refl
max-join_assoc (some x) (some y) none = refl
max-join_assoc (some x) (some y) (some z) = ap some (omega arith)

extreme-cons :
    (f : ℕ → ℕ → ℕ) (k : ℕ) (t : NumTag) (ts : List NumTag)
    → extreme f k (t ∷ ts) ≡ join f (extreme f k (t ∷ [])) (extreme f k ts)
extreme-cons f k t ts = elim (Bool-cases (t.comparison_hash == k)) [
  | inl e ↦ rw e refl
  | inr e ↦ rw e refl
]

module _ (k : ℕ) where
  find_num-update_min :
      (m : Nums) (t : NumTag)
      → find_num k (update_min m t) ≡ join min (find_num k m) (extreme min k (t ∷ []))
  unfolding update_min
  find_num-update_min m t = ground (arith, find_num-set_num t.comparison_hash k t.comparison_val m)

  find_num-update_max :
      (m : Nums) (t : NumTag)
      → find_num k (update_max m t) ≡ join max (find_num k m) (extreme max k (t ∷ []))
  unfolding update_max
  find_num-update_max m t = ground (arith, find_num-set_num t.comparison_hash k t.comparison_val m)

  find_num-reading_min :
      (ts : List NumTag) (m : Nums)
      → find_num k (reading_min m ts) ≡ join min (find_num k m) (extreme min k ts)
  find_num-reading_min [] m = sym (join-none min _)
  find_num-reading_min (t ∷ ts) m =
      rw
        (find_num-reading_min ts (update_min m t), find_num-update_min m t, extreme-cons min k t ts)
        (min-join_assoc (find_num k m) (extreme min k (t ∷ [])) (extreme min k ts))

  find_num-reading_max :
      (ts : List NumTag) (m : Nums)
      → find_num k (reading_max m ts) ≡ join max (find_num k m) (extreme max k ts)
  find_num-reading_max [] m = sym (join-none max _)
  find_num-reading_max (t ∷ ts) m =
      rw
        (find_num-reading_max ts (update_max m t), find_num-update_max m t, extreme-cons max k t ts)
        (max-join_assoc (find_num k m) (extreme max k (t ∷ [])) (extreme max k ts))

  find_num-readings_min :
      (rs : List (List NumTag)) (m : Nums)
      → find_num k (readings_min m rs) ≡ join min (find_num k m) (extreme_all min k rs)
  find_num-readings_min [] m = sym (join-none min _)
  find_num-readings_min (r ∷ rs) m =
      rw (find_num-readings_min rs (reading_min m r), find_num-reading_min r m)
        (min-join_assoc (find_num k m) (extreme min k r) (extreme_all min k rs))

  find_num-readings_max :
      (rs : List (List NumTag)) (m : Nums)
      → find_num k (readings_max m rs) ≡ join max (find_num k m) (extreme_all max k rs)
  find_num-readings_max [] m = sym (join-none max _)
  find_num-readings_max (r ∷ rs) m =
      rw (find_num-readings_max rs (reading_max m r), find_num-reading_max r m)
        (max-join_assoc (find_num k m) (extreme max k r) (extreme_all max k rs))

-- A cohort whose flag is set has maps that its readings account for.
pub record IsFresh (c : NumCohort) : Type 0 where
  pub least : c.current ≡ true → (k : ℕ) → find_num k c.num_min ≡ extreme_all min k c.readings
  pub greatest : c.current ≡ true → (k : ℕ) → find_num k c.num_max ≡ extreme_all max k c.readings

update_min_max-IsFresh :
    (c : NumCohort)
    → IsFresh c
    → IsFresh (update_min_max c)
      × ((update_min_max c).current ≡ true)
      × ((update_min_max c).readings ≡ c.readings)
unfolding update_min_max find_num
update_min_max-IsFresh c h = elim (Bool-cases c.current) [
  | inl e ↦ simp e (h, refl, refl)
  | inr e ↦ simp e (
    record {
      least = λ _ k. find_num-readings_min k c.readings [];
      greatest = λ _ k. find_num-readings_max k c.readings [];
    },
    refl,
    refl,
  )
]

update_min_max-current : (c : NumCohort) → c.current ≡ true → update_min_max c ≡ c
unfolding update_min_max
update_min_max-current c e = rw e refl

-- `getMin` gives the least value that the readings have under the key, or `NUMERIC_MIN` if there
-- is none, and `getMax` the greatest or `NUMERIC_MAX`, whether or not the maps were up to date.
-- Both leave maps that are, and the readings alone.
pub get_min-get_max :
    (l : Limits) (c : NumCohort) (k : ℕ)
    → IsFresh c
    → ((get_min l c k).1 ≡ or_else l.numeric_min (extreme_all min k c.readings))
      × ((get_max l c k).1 ≡ or_else l.numeric_max (extreme_all max k c.readings))
      × IsFresh (get_min l c k).0
      × IsFresh (get_max l c k).0
      × ((get_max l (get_min l c k).0 k).1 ≡ (get_max l c k).1)
unfolding get_min get_max
get_min-get_max l c k h =
    let (fresh, on, same) = update_min_max-IsFresh c h in
    (
      ap (or_else l.numeric_min) (fresh.least on k ∙ ap (extreme_all min k) same),
      ap (or_else l.numeric_max) (fresh.greatest on k ∙ ap (extreme_all max k) same),
      fresh,
      fresh,
      rw (update_min_max-current (update_min_max c) on) refl,
    )
