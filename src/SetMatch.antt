-- ===== src/SetMatch.antt =====
-- Composite sets: the part of `doesSetMatchReading` in src/GrammarApplicator_matchSet.cpp that applies
-- the set operators, for one reading, without unification and without the indexes that remember
-- earlier answers. Whether the tags of a LIST match the reading is a parameter, by the set's number.
pub mod Groups
pub mod Indexed
use vislcg.Base.{ℕ, Bool, true, false, not, ◌||◌, if◌then◌else◌, List, [], ◌∷◌}

-- The operators of `set_ops` that the loop knows.
pub data SetOp : Type 0 where
  s_or s_plus s_failfast s_minus s_not : SetOp

-- `Set`: the set of everything, a LIST, and a SET of other sets with the operators between them.
mutual
  pub data Set : Type 0 where
    st_any : Set
    list_set : ℕ → Set
    sub_sets : Set → Others → Set

  pub data Others : Type 0 where
    last : Others
    next : SetOp → Set → Others → Others

-- One operator, on `match` and `failfast`, with whether the set behind it matches.
abbrev pub operate : SetOp → Bool → Bool × Bool → Bool × Bool
operate s_or hit (match, failfast) = (match, failfast)
operate s_plus hit (match, failfast) = (if match then hit else match, failfast)
operate s_failfast hit (match, failfast) = if hit then (false, true) else (match, failfast)
operate s_minus hit (match, failfast) =
    (if match then if hit then false else match else match, failfast)
operate s_not hit (match, failfast) =
    (if match then match else if hit then match else true, failfast)

module _ (tags : ℕ → Bool) where
  unfoldable mutual
    pub does_set_match : Set → Bool
    does_set_match st_any = true
    does_set_match (list_set n) = tags n
    does_set_match (sub_sets a others) = loop_sets (does_set_match a, false) others

    -- The loop from inside: the state is that of the group of sets since the last OR. A group that
    -- matches or fails fast ends the loop, the last one in any case.
    pub loop_sets : Bool × Bool → Others → Bool
    loop_sets (match, failfast) last = match
    loop_sets (match, failfast) (next s_or a others) =
        let further = loop_sets (does_set_match a, false) others in
        if match then true else if failfast then false else further
    loop_sets state (next op a others) = loop_sets (operate op (does_set_match a) state) others
