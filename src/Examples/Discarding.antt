-- ===== src/Examples/Discarding.antt =====
-- Rules that discard readings.
use vislcg.Base.{◌||◌, ℕ, ◌≡◌, refl, Bool, true, false, List, [], ◌∷◌, ◌==◌}
use vislcg.Rules.{
  Keyword, k_select, k_remove, k_iff, Reading, Rule, Env, Cohort, apply_rule, is_safe,
}
use vislcg.Rules.Scan.{count}
use vislcg.Rules.Move.{count_all}
use vislcg.Rules.Keep.{count-apply_rule}
use vislcg.Rules.Protect.{apply_rule-guarded, all_guarded}

abbrev plain_reading : ℕ → Bool → Reading
plain_reading a fixed = record {
  address = a;
  hash_plain = a;
  has_mapping = false;
  mapped = false;
  deleted = false;
  noprint = false;
  matched_target = false;
  matched_tests = false;
  immutable = fixed;
}

abbrev rule_of : Keyword → Rule
rule_of k = record {
  type = k;
  rf_safe = false;
  rf_unsafe = false;
  rf_delayed = false;
  rf_unmaplast = false;
}

-- The target matches the readings at 12 and 14, and one contextual test holds.
env : Env
env = record {
  matches = λ r. r.address == 12 || r.address == 14;
  captures = λ r. false;
  tests = (λ r. true) ∷ [];
  unified = λ r. false;
  allow_magic_readings = false;
  unsafe = false;
  has_protect = true;
  plain_set = true;
  unspecial_set = true;
}

abbrev cohort : Cohort
cohort = record {
  readings =
      plain_reading 11 true
      ∷ plain_reading 12 false
      ∷ plain_reading 13 false
      ∷ plain_reading 14 true
      ∷ [];
  deleted = [];
  delayed = [];
}

abbrev addresses : List Reading → List ℕ
addresses [] = []
addresses (r ∷ rs) = r.address ∷ addresses rs

abbrev after : Keyword → Cohort
after k = apply_rule env (rule_of k) k_remove cohort

remove_leaves : addresses (after k_remove).readings ≡ 11 ∷ 14 ∷ 13 ∷ []
unfolding apply_rule env
remove_leaves = refl

-- The protected reading at 11 stands before the reading that turns IFF into SELECT, and goes.
iff_takes_protected : addresses (after k_iff).deleted ≡ 11 ∷ 13 ∷ []
unfolding apply_rule env
iff_takes_protected = refl

count-apply_rule_example :
    count_all 12 (apply_rule env (rule_of k_remove) k_remove cohort) ≡ count_all 12 cohort
count-apply_rule_example = count-apply_rule env (rule_of k_remove) k_remove cohort 12

env_safe : is_safe env (rule_of k_select) ≡ true
unfolding env
env_safe = refl

guarded_14 : all_guarded env 14 cohort.readings ≡ true
unfolding env
guarded_14 = refl

apply_rule-guarded_example :
    count 14 (apply_rule env (rule_of k_remove) k_remove cohort).readings ≡ 1
apply_rule-guarded_example =
    apply_rule-guarded env (rule_of k_remove) 14 refl k_remove cohort guarded_14
