-- ===== src/SetMatch/Groups.antt =====
-- What the operators of a composite set mean.
use vislcg.Base.{
  ℕ, ◌≡◌, refl, ap, ◌∙◌, Bool, true, false, not, ◌&&◌, ◌||◌, if◌then◌else◌, arith, List, [], ◌∷◌,
}
use vislcg.SetMatch.{
  s_or, s_plus, s_failfast, s_minus, s_not, Set, sub_sets, Others, last, next, operate,
  does_set_match, loop_sets,
}

if_not : (b : Bool) → (if b then false else true) ≡ not b
if_not true = refl
if_not false = refl

-- The states of the groups that OR separates, in order.
abbrev pub Verdict : Type 0
Verdict = Bool × Bool

module _ (tags : ℕ → Bool) where
  unfoldable pub groups : Verdict → Others → List Verdict
  groups v last = v ∷ []
  groups v (next s_or a others) = v ∷ groups (does_set_match tags a, false) others
  groups v (next op a others) = groups (operate op (does_set_match tags a) v) others

  -- The first group that matches or fails fast decides.
  abbrev pub decide : List Verdict → Bool
  decide [] = false
  decide ((match, failfast) ∷ vs) = match || (not failfast && decide vs)

  loop_sets-eq :
      (v : Verdict) (others : Others) → loop_sets tags v others ≡ decide (groups v others)
  unfolding loop_sets groups
  loop_sets-eq (match, failfast) last = ground arith
  loop_sets-eq (match, failfast) (next s_or a others) =
      ground (arith, loop_sets-eq (does_set_match tags a, false) others)
  loop_sets-eq v (next s_plus a others) = loop_sets-eq _ others
  loop_sets-eq v (next s_failfast a others) = loop_sets-eq _ others
  loop_sets-eq v (next s_minus a others) = loop_sets-eq _ others
  loop_sets-eq v (next s_not a others) = loop_sets-eq _ others

  -- OR binds weakest: each stretch between two of them is a group that starts from its first set, and
  -- the first group that matches or fails fast gives the answer of the whole set, no group a no.
  pub does_set_match-groups :
      (a : Set) (others : Others)
      → does_set_match tags (sub_sets a others)
        ≡ decide (groups (does_set_match tags a, false) others)
  unfolding does_set_match
  does_set_match-groups a others = loop_sets-eq (does_set_match tags a, false) others

  -- The same as a formula, where only OR, + and - stand between the sets.
  abbrev pub is_plain : Others → Bool
  is_plain last = true
  is_plain (next s_or a others) = is_plain others
  is_plain (next s_plus a others) = is_plain others
  is_plain (next s_minus a others) = is_plain others
  is_plain (next _ a others) = false

  unfoldable pub formula : Bool → Others → Bool
  formula acc last = acc
  formula acc (next s_or a others) = acc || formula (does_set_match tags a) others
  formula acc (next s_plus a others) = formula (acc && does_set_match tags a) others
  formula acc (next s_minus a others) = formula (acc && not (does_set_match tags a)) others
  formula acc (next _ a others) = false

  loop_sets-formula :
      (acc : Bool) (others : Others)
      → is_plain others ≡ true
      → loop_sets tags (acc, false) others ≡ formula acc others
  unfolding loop_sets formula
  loop_sets-formula acc last h = refl
  loop_sets-formula acc (next s_or a others) h =
      ground (arith, loop_sets-formula (does_set_match tags a) others)
  loop_sets-formula true (next s_plus a others) h = loop_sets-formula _ others h
  loop_sets-formula false (next s_plus a others) h = loop_sets-formula false others h
  loop_sets-formula true (next s_minus a others) h =
      ap (λ b. loop_sets tags (b, false) others) (if_not (does_set_match tags a))
      ∙ loop_sets-formula (not (does_set_match tags a)) others h
  loop_sets-formula false (next s_minus a others) h = loop_sets-formula false others h
  loop_sets-formula acc (next s_failfast a others) h = cc
  loop_sets-formula acc (next s_not a others) h = cc

  -- A set of sets joined by OR, + and - only matches exactly if the formula does in which + is "and",
  -- - is "and not", both bind from left to right, and OR is a disjunction that binds weaker.
  pub does_set_match-formula :
      (a : Set) (others : Others)
      → is_plain others ≡ true
      → does_set_match tags (sub_sets a others) ≡ formula (does_set_match tags a) others
  unfolding does_set_match
  does_set_match-formula a others h = loop_sets-formula (does_set_match tags a) others h

  -- In A OR B ^ C OR D, where A does not match and C does, nothing of D counts; with - instead of ^
  -- the set matches as D alone does.
  pub does_set_match-failfast :
      (a b c d : Set) (others : Others)
      → does_set_match tags a ≡ false
      → does_set_match tags c ≡ true
      → (does_set_match tags (sub_sets a (next s_or b (next s_failfast c (next s_or d others))))
          ≡ false)
        × (does_set_match tags (sub_sets a (next s_or b (next s_minus c (next s_or d others))))
            ≡ does_set_match tags (sub_sets d others))
  unfolding does_set_match
  does_set_match-failfast a b c d others ha hc = (ground (arith, ha, hc), ground (arith, ha, hc))
