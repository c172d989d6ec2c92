-- ===== src/Scan.antt =====
-- Contextual tests that look along the text: `runSingleTest` and the part of `runContextualTest` of
-- src/GrammarApplicator_runContextualTest.cpp that steps through cohorts to the left or to the right of one, and the iterators
-- TopologyLeftIter and TopologyRightIter of src/CohortIterator.cpp. Outside templates; the marks that a test sets are left out.
pub mod Single
pub mod Nearest
pub mod Windows
pub mod Barriers
pub mod Offset
use vislcg.Base.{
  ℕ, ltb, ◌==◌, Bool, true, false, not, ◌&&◌, ◌||◌, if◌then◌else◌, List, [], ◌∷◌, Option, none,
  some,
}
use vislcg.CohortMatch
use vislcg.CohortMatch.{Setting, Context, match_normal, match_careful}
use vislcg.CohortMatch.Answers.{fresh}

-- The bits of `pos`, and whether the test has an offset, a barrier, a careful barrier and a linked test. `is_lorr` stands for the four
-- bits of MASK_POS_LORR.
pub record Test : Type 0 where
  pub is_careful : Bool
  pub is_negate : Bool
  pub is_not : Bool
  pub is_scanfirst : Bool
  pub is_scanall : Bool
  pub spans_right : Bool
  pub spans_left : Bool
  pub spans_both : Bool
  pub is_self : Bool
  pub is_none : Bool
  pub is_all : Bool
  pub look_deleted : Bool
  pub look_delayed : Bool
  pub dep_glob : Bool
  pub is_left : Bool
  pub is_right : Bool
  pub is_lorr : Bool
  pub no_barrier : Bool
  pub has_offset : Bool
  pub has_barrier : Bool
  pub has_cbarrier : Bool
  pub has_linked : Bool

-- A cohort in the text: how its readings match the target and the barriers of the test, and whether the linked test, if there is one,
-- does at this cohort.
pub record Cohort : Type 0 where
  pub global_number : ℕ
  pub local_number : ℕ
  pub window : ℕ
  pub is_enclosed : Bool
  pub target : CohortMatch.Cohort
  pub barrier : CohortMatch.Cohort
  pub cbarrier : CohortMatch.Cohort
  pub linked : Bool

-- `rvs`.
pub record Flags : Type 0 where
  pub trv_break : Bool
  pub trv_barrier : Bool
  pub trv_break_default : Bool

abbrev pub no_flags : Flags
no_flags = record { trv_break = false; trv_barrier = false; trv_break_default = false }

abbrev pub target_setting : Test → Cohort → Setting
target_setting t c = record {
  is_not = t.is_not;
  look_deleted = t.look_deleted;
  look_delayed = t.look_delayed;
  in_barrier = false;
  linked = if t.has_linked then some c.linked else none;
}

abbrev pub barrier_setting : Test → Setting
barrier_setting t = record {
  is_not = t.is_not;
  look_deleted = t.look_deleted;
  look_delayed = t.look_delayed;
  in_barrier = true;
  linked = none;
}

-- The target: `retval` and `context.matched_target`.
unfoldable pub test_target : Test → Cohort → Bool × Bool
test_target t c =
    let careful = match_careful (target_setting t c) c.target fresh in
    let again = match_normal (target_setting t c) c.target (record careful.1 { did_test = true }) in
    let normal = match_normal (target_setting t c) c.target fresh in
    if t.is_careful
    then (if not careful.1.matched_target && t.is_scanfirst
        then (careful.0, again.1.matched_target)
        else (careful.0, careful.1.matched_target))
    else (normal.0, normal.1.matched_target)

unfoldable pub sees_barrier : Test → Cohort → Bool
sees_barrier t c = t.has_barrier && (match_normal (barrier_setting t) c.barrier fresh).0

unfoldable pub sees_cbarrier : Test → Cohort → Bool
sees_cbarrier t c = t.has_cbarrier && (match_careful (barrier_setting t) c.cbarrier fresh).0

abbrev pub is_scan : Test → Bool
is_scan t = t.is_scanall || t.is_scanfirst

-- Whether the cohort is the one that the test must not come back to.
abbrev pub is_origin : Test → Option ℕ → Cohort → Bool
is_origin t origin c = elim origin [
  | none ↦ false
  | some o ↦ (t.has_offset || is_scan t) && (o == c.global_number) && not (c.local_number == 0)
]

abbrev pub break_if : Bool → Flags → Flags
break_if b rvs = record rvs { trv_break = b || rvs.trv_break }

-- The test is over: the target has been seen, or it is no scan.
unfoldable pub end_test : Test → Bool → Flags → Flags
end_test t matched_target rvs =
    if matched_target && t.is_scanfirst
    then record rvs { trv_break = true }
    else if not (is_scan t || t.dep_glob)
    then record rvs { trv_break = true; trv_break_default = true }
    else rvs

unfoldable pub bar_if : Bool → Flags → Flags
bar_if barrier rvs =
    if barrier
    then record { trv_break = true; trv_barrier = true; trv_break_default = false }
    else rvs

-- A barrier at the cohort itself, for a test that wants none there.
unfoldable pub unbar : Test → Bool → Flags → Flags
unbar t broken rvs =
    if not broken && rvs.trv_barrier && t.is_self && t.no_barrier
    then record rvs { trv_break = false; trv_barrier = false }
    else rvs

unfoldable pub run_single_test : Test → Option ℕ → Cohort → Flags → Bool × Flags
run_single_test t origin c rvs =
    let (retval, matched_target) = test_target t c in
    let retval' = if is_origin t origin c && not t.is_not then false else retval in
    let ended = end_test t matched_target (break_if (is_origin t origin c) rvs) in
    let barred = bar_if (sees_cbarrier t c) (bar_if (sees_barrier t c) ended) in
    (retval', unbar t ended.trv_break (break_if (matched_target && retval') barred))

-- `less_Cohort` of src/Cohort.hpp.
unfoldable pub less_cohort : Cohort → Cohort → Bool
less_cohort a b =
    if a.local_number == b.local_number
    then ltb a.window b.window
    else ltb a.local_number b.local_number

-- The cohorts that an iterator comes to after one of the given window, from the cohorts that the links lead to. Where the window is
-- left is looked at for the first cohort only; `within` says that this has been done, and enclosed cohorts are being passed over.
unfoldable pub visited : Bool → ℕ → Bool → List Cohort → List Cohort
visited spans window within [] = []
visited spans window within (c ∷ cs) =
    let over = visited spans window true cs in
    let on = c ∷ visited spans c.window false cs in
    if not within && not (c.window == window) && not spans
    then []
    else if c.is_enclosed
    then over
    else on

-- Where the loop is: the last cohort, its `retval`, whether there was one, and the flags.
pub record Looped : Type 0 where
  pub nc : Option Cohort
  pub retval : Bool
  pub seen : Bool
  pub rvs : Flags

unfoldable pub loop_cohorts : Test → Option ℕ → Cohort → List Cohort → Looped → Looped
loop_cohorts t origin current [] st = st
loop_cohorts t origin current (c ∷ cs) st =
    let one = run_single_test t origin c st.rvs in
    let further =
      loop_cohorts t origin c cs
        (record { nc = some c; retval = one.0; seen = true; rvs = one.1 }) in
    if t.is_left && less_cohort current c
    then record st { nc = none; retval = false; seen = true }
    else if t.is_right && not (less_cohort current c)
    then record st { nc = none; retval = false; seen = true }
    else if t.is_all && not one.0
    then record { nc = none; retval = one.0; seen = true; rvs = one.1 }
    else if t.is_none && one.0
    then record { nc = none; retval = one.0; seen = true; rvs = one.1 }
    else if one.1.trv_break
    then record { nc = some c; retval = one.0; seen = true; rvs = one.1 }
    else further

-- A test that starts with the cohort it is run for.
unfoldable pub self_first : Test → Option ℕ → Cohort → Looped
self_first t origin self =
    let start : Looped = record { nc = none; retval = true; seen = false; rvs = no_flags } in
    let one = run_single_test t origin self no_flags in
    let rvs =
      if not one.0 && one.1.trv_break_default
      then record one.1 { trv_break = false; trv_break_default = false }
      else one.1 in
    if t.is_self && not t.is_lorr
    then record { nc = some self; retval = one.0; seen = true; rvs = rvs }
    else start

unfoldable pub loop_from : Test → Option ℕ → Cohort → List Cohort → Looped → Looped
loop_from t origin c cohorts st =
    let looped = if st.rvs.trv_break then st else loop_cohorts t origin c cohorts st in
    let retval = looped.retval && looped.seen in
    if not retval && t.is_none
    then record looped { nc = some c; retval = true }
    else record looped { retval = retval }

-- What the function returns, where `first` is the window's first cohort.
unfoldable pub conclude : Test → Cohort → Option Cohort → Bool → Option Cohort
conclude t first nc retval =
    let found : Bool = elim nc [ none ↦ t.is_not && not t.has_linked | some c ↦ retval ] in
    let retval' = if t.is_negate then not found else found in
    if retval' then elim nc [ none ↦ some first | some c ↦ some c ] else none

-- The test with an offset to the left or the right, from the cohort at the offset, if there is one, with the cohorts that its links
-- lead to in that direction. `spans` says that the test may leave the window that way.
unfoldable pub run_sideways :
    Test → Bool → Option ℕ → Cohort → Cohort → Option (Cohort × List Cohort) → Option Cohort
unfolding loop_from conclude self_first visited
run_sideways t spans origin first self none = conclude t first none false
run_sideways t spans origin first self (some (c, links)) =
    let looped =
      loop_from t origin c (c ∷ visited spans c.window false links) (self_first t origin self) in
    conclude t first looped.nc looped.retval
