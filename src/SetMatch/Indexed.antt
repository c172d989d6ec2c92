-- ===== src/SetMatch/Indexed.antt =====
-- `doesSetMatchReading` of src/GrammarApplicator_matchSet.cpp with its indexes: the sets that are known to match a reading, or not to
-- match it, by the number of the set and the hash of the reading. Outside unification.
pub mod Sound
use vislcg.Base.{ℕ, Bool, true, false, not, ◌&&◌, ◌||◌, ◌==◌, if◌then◌else◌}
use vislcg.SetMatch.{
  SetOp, s_or, s_plus, s_failfast, s_minus, s_not, Set, st_any, list_set, sub_sets, Others, last,
  next,
}

-- `Set` with the number under which the indexes keep it.
mutual
  pub data NumberedSet : Type 0 where
    any : ℕ → NumberedSet
    tags_of : ℕ → ℕ → NumberedSet
    joined : ℕ → NumberedSet → NumberedOthers → NumberedSet

  pub data NumberedOthers : Type 0 where
    end : NumberedOthers
    more : SetOp → NumberedSet → NumberedOthers → NumberedOthers

-- `index_readingSet_yes` and `index_readingSet_no`.
pub record Index : Type 0 where
  pub yes : ℕ → ℕ → Bool
  pub no : ℕ → ℕ → Bool

unfoldable pub put : (ℕ → ℕ → Bool) → ℕ → ℕ → ℕ → ℕ → Bool
put index set hash n h = ((set == n) && (hash == h)) || index n h

unfoldable pub store : ℕ → ℕ → Bool × Index → Bool × Index
store set hash (retval, index) =
    if retval
    then (true, record index { yes = put index.yes set hash })
    else (false, record index { no = put index.no set hash })

-- The first part of the function: an answer of the indexes, if they may be asked.
unfoldable pub indexed : Bool → ℕ → ℕ → Index → Bool × Index → Bool × Index
unfolding store
indexed bypass set hash index computed =
    if not bypass && index.no set hash
    then (false, index)
    else if not bypass && index.yes set hash
    then (true, index)
    else store set hash computed

-- Whether an operator asks for the set behind it.
abbrev pub asks : SetOp → Bool → Bool
asks s_or match = false
asks s_plus match = match
asks s_failfast match = true
asks s_minus match = match
asks s_not match = not match

-- What the answer does to `match` and `failfast`.
abbrev pub apply : SetOp → Bool → Bool × Bool → Bool × Bool
apply s_or hit state = state
apply s_plus hit (match, failfast) = (hit, failfast)
apply s_failfast hit (match, failfast) = if hit then (false, true) else (match, failfast)
apply s_minus hit (match, failfast) = if hit then (false, failfast) else (match, failfast)
apply s_not hit (match, failfast) = if hit then (match, failfast) else (true, failfast)

module _ (tags : ℕ → Bool) (bypass : Bool) (hash : ℕ) where
  unfoldable mutual
    unfolding indexed

    pub match_indexed : NumberedSet → Index → Bool × Index
    match_indexed (any n) index = indexed bypass n hash index (true, index)
    match_indexed (tags_of n list) index = indexed bypass n hash index (tags list, index)
    match_indexed (joined n a others) index =
        let first = match_indexed a index in
        indexed bypass n hash index (match_others (first.0, false) first.1 others)

    -- The loop over the sets of a SET.
    pub match_others : Bool × Bool → Index → NumberedOthers → Bool × Index
    match_others (match, failfast) index end = (match, index)
    match_others (match, failfast) index (more s_or a others) =
        let first = match_indexed a index in
        let further = match_others (first.0, false) first.1 others in
        if match then (true, index) else if failfast then (false, index) else further
    match_others state index (more op a others) =
        let asked = match_indexed a index in
        let further = match_others (apply op asked.0 state) asked.1 others in
        let on = match_others state index others in if asks op state.0 then further else on
