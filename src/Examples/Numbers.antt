-- ===== src/Examples/Numbers.antt =====
-- Numerical tags.
use vislcg.Base.{◌+◌, ℕ, ◌≡◌, ◌↔◌, true, false, [], ◌∷◌, arith}
use vislcg.Numeric.{op_equals, op_lessthan, op_greaterthan, NumTag, Limits, NumCohort, ops_match}
use vislcg.Numeric.Overlap.{ops_match_iff, Satisfies}
use vislcg.Numeric.Bounds.{IsFresh}

ops_match_iff_example :
    (ops_match op_lessthan op_greaterthan 7 3 ≡ true)
    ↔ ((p : ℕ) × Satisfies op_lessthan 7 p × Satisfies op_greaterthan 3 p)
ops_match_iff_example = ops_match_iff op_lessthan op_greaterthan 7 3 (λ b. b)

limits : Limits
limits = record { numeric_min = 0; numeric_max = 1000; ordered = omega arith }

abbrev tag_of : ℕ → ℕ → NumTag
tag_of k v = record {
  comparison_op = op_equals;
  comparison_val = v;
  comparison_hash = k;
  hash = 90 + v;
}

stale : NumCohort
stale = record {
  readings = (tag_of 1 30 ∷ tag_of 2 5 ∷ []) ∷ (tag_of 1 12 ∷ []) ∷ [];
  num_min = [];
  num_max = [];
  current = false;
}

stale-IsFresh : IsFresh stale
unfolding stale
stale-IsFresh = record { least = λ e. cc; greatest = λ e. cc }
