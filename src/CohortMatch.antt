-- ===== src/CohortMatch.antt =====
-- Whether a cohort matches a set: `doesSetMatchCohortNormal`, `doesSetMatchCohortCareful` and what they share, of
-- src/GrammarApplicator_matchSet.cpp, for a contextual test outside templates and unification.
pub mod Answers
pub mod Cohorts
pub mod Seen
use vislcg.Base.{
  Bool, true, false, not, ◌&&◌, ◌||◌, if◌then◌else◌, List, [], ◌∷◌, ◌++◌, Option, none, some,
}

-- `dSMC_Context`, as far as it changes.
pub record Context : Type 0 where
  pub did_test : Bool
  pub matched_target : Bool
  pub matched_tests : Bool

-- What stays: the bits of the test's `pos`, whether it is run as a barrier, and its linked test, with the outcome at this cohort.
pub record Setting : Type 0 where
  pub is_not : Bool
  pub look_deleted : Bool
  pub look_delayed : Bool
  pub in_barrier : Bool
  pub linked : Option Bool

-- A cohort, as its readings match the set: an entry says what `doesSetMatchReading` does for a reading, or for the sub-reading that
-- the test asks for. Readings without such a sub-reading are passed over by the code and have no entry.
pub record Cohort : Type 0 where
  pub wread : Option Bool
  pub readings : List Bool
  pub deleted : List Bool
  pub delayed : List Bool
  pub is_possible : Bool

-- `doesSetMatchCohort_testLinked`.
unfoldable pub test_linked : Setting → Context → Bool × Context
test_linked s c = elim s.linked [
  | none ↦ (true, c)
  | some outcome ↦
      if c.did_test
      then (c.matched_tests, c)
      else (outcome, record c { matched_tests = outcome; did_test = true })
]

-- `doesSetMatchCohort_helper`.
unfoldable pub match_reading : Setting → Bool → Context → Bool × Context
match_reading s hit c =
    if hit
    then (if s.is_not
        then (false, record c { matched_target = true })
        else if s.in_barrier
        then (true, record c { matched_target = true })
        else test_linked s (record c { matched_target = true }))
    else (false, c)

abbrev pub is_settled : Setting → Context → Bool
is_settled s c = elim s.linked [ none ↦ true | some outcome ↦ c.did_test ]

-- The loop over the readings, with `retval`: an answer, or none when the function has returned from inside.
unfoldable pub loop_normal : Setting → List Bool → Bool → Context → Bool × (Bool × Context)
loop_normal s [] retval c = (false, (retval, c))
loop_normal s (hit ∷ hits) retval c =
    let one = match_reading s hit c in
    let now = one.0 || retval in
    let further = loop_normal s hits now one.1 in
    if now && is_settled s one.1 then (true, (now, one.1)) else further

abbrev pub looked_at : Setting → Cohort → List Bool
looked_at s cohort =
    cohort.readings
    ++ ((if s.look_deleted then cohort.deleted else [])
        ++ (if s.look_delayed then cohort.delayed else []))

-- What a test with NOT that has met no match does in the end.
unfoldable pub finish_not : Setting → Bool × Context → Bool × Context
finish_not s (retval, c) = if not c.matched_target && s.is_not then test_linked s c else (retval, c)

-- The sets that a cohort can match at all, unless the test looks elsewhere.
abbrev pub is_refused : Setting → Cohort → Bool
is_refused s cohort = not (s.look_deleted || s.look_delayed || s.is_not) && not cohort.is_possible

unfoldable pub match_wread : Setting → Cohort → Context → Bool × Context
match_wread s cohort c = elim cohort.wread [ none ↦ (false, c) | some hit ↦ match_reading s hit c ]

unfoldable pub after_wread : Setting → Cohort → Bool × Context → Bool × Context
after_wread s cohort (retval, c) =
    let loop = loop_normal s (looked_at s cohort) retval c in
    if retval && c.did_test then (retval, c) else if loop.0 then loop.1 else finish_not s loop.1

unfoldable pub match_normal : Setting → Cohort → Context → Bool × Context
match_normal s cohort c =
    if is_refused s cohort then (false, c) else after_wread s cohort (match_wread s cohort c)

-- The loop of the careful test over one list: it ends at a reading that does not do.
unfoldable pub loop_careful : Setting → List Bool → Bool → Context → Bool × Context
loop_careful s [] retval c = (retval, c)
loop_careful s (hit ∷ hits) retval c =
    let one = match_reading s hit c in
    let further = loop_careful s hits one.0 one.1 in if one.0 then further else (false, one.1)

-- The lists; one that leaves `retval` false is the last.
unfoldable pub lists_careful : Setting → List (List Bool) → Bool → Context → Bool × Context
lists_careful s [] retval c = (retval, c)
lists_careful s (list ∷ lists) retval c =
    let one = loop_careful s list retval c in
    let further = lists_careful s lists one.0 one.1 in if one.0 then further else (false, one.1)

unfoldable pub match_careful : Setting → Cohort → Context → Bool × Context
match_careful s cohort c =
    if is_refused s cohort
    then (false, c)
    else finish_not s (
        lists_careful s
          (cohort.readings
            ∷ (if s.look_deleted then cohort.deleted else [])
            ∷ (if s.look_delayed then cohort.delayed else [])
            ∷ [])
          false c)
