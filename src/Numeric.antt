-- ===== src/Numeric.antt =====
-- Numerical tags: `C_OPS` of src/Tag.hpp, the `T_NUMERICAL` branch of `doesTagMatchReading` in
-- src/GrammarApplicator_matchSet.cpp, and the ranges that src/Cohort.cpp keeps.
-- The code compares `double`s and does nothing else with them. The finite ones are ordered like
-- some natural numbers (multiples of the least positive `double`, moved up), which stand for them
-- here; tags hold no NaN.
pub mod Overlap
pub mod Bounds
use vislcg.Base.{ℕ, ◌<◌, Bool, true, false, ◌&&◌, ◌||◌, not, List, [], ◌∷◌, Option, none, some}
use vislcg.Base.{ltb, leb, ◌==◌, if◌then◌else◌}

pub data COps : Type 0 where
  op_nop op_equals op_lessthan op_greaterthan op_lessequals op_greaterequals op_notequals : COps

-- The fields of `Tag` that take part.
pub record NumTag : Type 0 where
  pub comparison_op : COps
  pub comparison_val : ℕ
  pub comparison_hash : ℕ
  pub hash : ℕ

-- The ladder of tests on a tag of the grammar, with its value, and a tag of the reading, with its
-- own. Each pair of operators has one rung at most.
unfoldable pub ops_match : COps → COps → ℕ → ℕ → Bool
ops_match op_equals op_equals c v = c == v
ops_match op_notequals op_equals c v = not (c == v)
ops_match op_equals op_notequals c v = not (c == v)
ops_match op_notequals op_notequals c v = c == v
ops_match op_equals op_lessthan c v = ltb c v
ops_match op_equals op_lessequals c v = leb c v
ops_match op_equals op_greaterthan c v = ltb v c
ops_match op_equals op_greaterequals c v = leb v c
ops_match op_notequals op_lessthan c v = true
ops_match op_notequals op_lessequals c v = true
ops_match op_notequals op_greaterthan c v = true
ops_match op_notequals op_greaterequals c v = true
ops_match op_lessthan op_notequals c v = true
ops_match op_lessequals op_notequals c v = true
ops_match op_greaterthan op_notequals c v = true
ops_match op_greaterequals op_notequals c v = true
ops_match op_lessthan op_equals c v = ltb v c
ops_match op_lessequals op_equals c v = leb v c
ops_match op_lessthan op_lessthan c v = true
ops_match op_lessequals op_lessequals c v = true
ops_match op_lessequals op_lessthan c v = true
ops_match op_lessthan op_lessequals c v = true
ops_match op_lessthan op_greaterthan c v = ltb v c
ops_match op_lessthan op_greaterequals c v = ltb v c
ops_match op_lessequals op_greaterthan c v = ltb v c
ops_match op_lessequals op_greaterequals c v = leb v c
ops_match op_greaterthan op_equals c v = ltb c v
ops_match op_greaterequals op_equals c v = leb c v
ops_match op_greaterthan op_greaterthan c v = true
ops_match op_greaterequals op_greaterequals c v = true
ops_match op_greaterequals op_greaterthan c v = true
ops_match op_greaterthan op_greaterequals c v = true
ops_match op_greaterthan op_lessthan c v = ltb c v
ops_match op_greaterthan op_lessequals c v = ltb c v
ops_match op_greaterequals op_lessthan c v = ltb c v
ops_match op_greaterequals op_lessequals c v = leb c v
ops_match _ _ c v = false

-- `NUMERIC_MIN` and `NUMERIC_MAX` of src/inlines.hpp, as they are placed among the natural numbers.
pub record Limits : Type 0 where
  pub numeric_min : ℕ
  pub numeric_max : ℕ
  pub ordered : numeric_min < numeric_max

-- `num_min` and `num_max` of a cohort, by the hash of the tag's key.
abbrev pub Nums : Type 0
Nums = List (ℕ × ℕ)

unfoldable pub find_num : ℕ → Nums → Option ℕ
find_num hash [] = none
find_num hash ((key, val) ∷ nums) = if key == hash then some val else find_num hash nums

unfoldable pub set_num : ℕ → ℕ → Nums → Nums
set_num hash new [] = (hash, new) ∷ []
set_num hash new ((key, val) ∷ nums) =
    if key == hash then (key, new) ∷ nums else (key, val) ∷ set_num hash new nums

-- One tag in `Cohort::updateMinMax`.
abbrev lower_than : ℕ → Option ℕ → Bool
lower_than v none = true
lower_than v (some w) = ltb v w

abbrev higher_than : ℕ → Option ℕ → Bool
higher_than v none = true
higher_than v (some w) = ltb w v

update_min : Nums → NumTag → Nums
update_min m t =
    if lower_than t.comparison_val (find_num t.comparison_hash m)
    then set_num t.comparison_hash t.comparison_val m
    else m

update_max : Nums → NumTag → Nums
update_max m t =
    if higher_than t.comparison_val (find_num t.comparison_hash m)
    then set_num t.comparison_hash t.comparison_val m
    else m

-- The numerical tags of one reading, then of all readings, into the two cleared maps.
abbrev reading_min : Nums → List NumTag → Nums
reading_min m [] = m
reading_min m (t ∷ ts) = reading_min (update_min m t) ts

abbrev reading_max : Nums → List NumTag → Nums
reading_max m [] = m
reading_max m (t ∷ ts) = reading_max (update_max m t) ts

abbrev readings_min : Nums → List (List NumTag) → Nums
readings_min m [] = m
readings_min m (r ∷ rs) = readings_min (reading_min m r) rs

abbrev readings_max : Nums → List (List NumTag) → Nums
readings_max m [] = m
readings_max m (r ∷ rs) = readings_max (reading_max m r) rs

-- What a cohort keeps: its readings' numerical tags, the maps, and the flag `CT_NUM_CURRENT`.
pub record NumCohort : Type 0 where
  pub readings : List (List NumTag)
  pub num_min : Nums
  pub num_max : Nums
  pub current : Bool

unfoldable pub update_min_max : NumCohort → NumCohort
unfolding update_min update_max
update_min_max c = if c.current then c else record c {
  num_min = readings_min [] c.readings;
  num_max = readings_max [] c.readings;
  current = true;
}

-- `getMin` and `getMax`, which bring the maps up to date first.
abbrev pub or_else : ℕ → Option ℕ → ℕ
or_else d none = d
or_else d (some v) = v

module _ (l : Limits) where
  unfoldable pub get_min : NumCohort → ℕ → NumCohort × ℕ
  unfolding update_min_max find_num
  get_min c key = let c' = update_min_max c in (c', or_else l.numeric_min (find_num key c'.num_min))

  unfoldable pub get_max : NumCohort → ℕ → NumCohort × ℕ
  unfolding update_min_max find_num
  get_max c key = let c' = update_min_max c in (c', or_else l.numeric_max (find_num key c'.num_max))

  -- The value that a grammar tag is compared by: its own, or an end of the cohort's range.
  unfoldable pub compval : NumCohort → NumTag → NumCohort × ℕ
  unfolding get_min get_max
  compval c t =
      if leb t.comparison_val l.numeric_min
      then get_min c t.comparison_hash
      else if leb l.numeric_max t.comparison_val
      then get_max c t.comparison_hash
      else (c, t.comparison_val)

  -- The loop over the reading's numerical tags: the hash of the first that matches, or 0.
  unfoldable pub match_numerical : NumCohort → NumTag → List NumTag → NumCohort × ℕ
  unfolding compval ops_match
  match_numerical c t [] = (c, 0)
  match_numerical c t (itag ∷ rest) =
      let (c', v) = compval c t in
      let matched =
        t.comparison_hash == itag.comparison_hash
        && ops_match t.comparison_op itag.comparison_op v itag.comparison_val
        && not (itag.hash == 0) in
      let further = match_numerical c' t rest in if matched then (c', itag.hash) else further
