-- ===== src/Examples/Scanning.antt =====
-- Contextual tests and set indexes at concrete cohorts.
use vislcg.Binary.Rules.{pos}
use vislcg.Scan.Offset.{get_elem?, get_cohort_in_window}
use vislcg.Scan.Offset.Back.{one_right, one_left, concat, from_there, get_cohort_in_window-back}
use vislcg.Base.{
  ℕ, zero, suc, ◌≡◌, refl, Bool, true, false, not, ◌&&◌, if◌then◌else◌, List, [], ◌∷◌, ◌++◌, arith,
  none, some,
}
use vislcg.CohortMatch
use vislcg.CohortMatch.{Setting, match_normal, match_careful, is_refused, looked_at}
use vislcg.CohortMatch.Answers.{fresh, all, linked_does}
use vislcg.CohortMatch.Cohorts.{has_hit, match_normal_lem, match_careful_lem}
use vislcg.Scan.{Test, Cohort, run_sideways, visited, sees_barrier}
use vislcg.Scan.Single.{IsPlain, nearest}
use vislcg.Scan.Nearest.{run_sideways-nearest}
use vislcg.Scan.Windows.{not_enclosed, visited-inside, visited-crosses}
use vislcg.Scan.Barriers.{one_matches, is_ruled_out, sees_barrier_lem}
use vislcg.SetMatch.{s_or, does_set_match}
use vislcg.SetMatch.Indexed.{NumberedSet, tags_of, joined, end, more, Index, match_indexed}
use vislcg.SetMatch.Indexed.Sound.{plain, IsSound, match_indexed_lem}

abbrev hits : List Bool → CohortMatch.Cohort
hits readings = record {
  wread = none;
  readings = readings;
  deleted = [];
  delayed = [];
  is_possible = true;
}

abbrev setting : Setting
setting = record {
  is_not = false;
  look_deleted = false;
  look_delayed = false;
  in_barrier = false;
  linked = some true;
}

abbrev negated : Setting
negated = record setting { is_not = true; linked = none }

match_normal_lem_example : (match_normal setting (hits (false ∷ true ∷ [])) fresh).0 ≡ (
    if is_refused setting (hits (false ∷ true ∷ []))
    then false
    else (if setting.is_not
        then not (has_hit setting (hits (false ∷ true ∷ [])))
        else has_hit setting (hits (false ∷ true ∷ [])))
      && linked_does setting)
match_normal_lem_example = match_normal_lem setting (hits (false ∷ true ∷ [])) (λ h. absurd (cc))

match_careful_lem_example : (match_careful negated (hits (true ∷ false ∷ [])) fresh).0 ≡ (
    if is_refused negated (hits (true ∷ false ∷ []))
    then false
    else (if negated.is_not then not true else all (looked_at negated (hits (true ∷ false ∷ []))))
      && linked_does negated)
match_careful_lem_example =
    match_careful_lem negated (hits (true ∷ false ∷ [])) true (false ∷ []) (λ h. absurd (cc)) refl

-- Of two readings one matches: whether `NOT 1C` holds is decided by which is first.
matching_first : (match_careful negated (hits (true ∷ false ∷ [])) fresh).0 ≡ false
unfolding match_careful CohortMatch.lists_careful CohortMatch.loop_careful CohortMatch.match_reading
    CohortMatch.finish_not CohortMatch.test_linked
matching_first = refl

matching_second : (match_careful negated (hits (false ∷ true ∷ [])) fresh).0 ≡ true
unfolding match_careful CohortMatch.lists_careful CohortMatch.loop_careful CohortMatch.match_reading
    CohortMatch.finish_not CohortMatch.test_linked
matching_second = refl

-- `1* X BARRIER Y`.
abbrev scan : Test
scan = record {
  is_careful = false;
  is_negate = false;
  is_not = false;
  is_scanfirst = true;
  is_scanall = false;
  spans_right = false;
  spans_left = false;
  spans_both = false;
  is_self = false;
  is_none = false;
  is_all = false;
  look_deleted = false;
  look_delayed = false;
  dep_glob = false;
  is_left = false;
  is_right = false;
  is_lorr = false;
  no_barrier = false;
  has_offset = true;
  has_barrier = true;
  has_cbarrier = false;
  has_linked = false;
}

abbrev scan-IsPlain : IsPlain scan
scan-IsPlain = record {
  no_negate = refl;
  no_not = refl;
  no_self = refl;
  no_none = refl;
  no_all = refl;
  no_glob = refl;
  no_left = refl;
  no_right = refl;
}

abbrev word_at : ℕ → ℕ → Bool → Bool → Bool → Cohort
word_at n window enclosed target barrier = record {
  global_number = n;
  local_number = n;
  window = window;
  is_enclosed = enclosed;
  target = hits (target ∷ []);
  barrier = hits (barrier ∷ []);
  cbarrier = hits (false ∷ []);
  linked = true;
}

abbrev nothing : ℕ → Cohort
nothing n = word_at n 1 false false false

abbrev wanted : ℕ → Cohort
wanted n = word_at n 1 false true false

run_sideways-nearest_example :
    run_sideways scan false none (nothing 0) (nothing 1) (some (nothing 2, wanted 3 ∷ []))
    ≡ nearest scan none (nothing 2 ∷ visited false 1 false (wanted 3 ∷ []))
run_sideways-nearest_example =
    run_sideways-nearest scan false none (nothing 0) (nothing 1) (some (nothing 2, wanted 3 ∷ []))
      scan-IsPlain

visited-inside_example :
    visited false 1 false
      ((word_at 2 1 true false false ∷ wanted 3 ∷ []) ++ (word_at 0 2 false false false ∷ []))
    ≡ not_enclosed (word_at 2 1 true false false ∷ wanted 3 ∷ [])
visited-inside_example =
    visited-inside 1 (word_at 2 1 true false false ∷ wanted 3 ∷ [])
      (word_at 0 2 false false false ∷ []) (refl, (refl, tt)) (omega arith) refl

visited-crosses_example :
    visited false 1 false
      ((wanted 2 ∷ word_at 3 1 true false false ∷ []) ++ word_at 0 2 false false false ∷ [])
    ≡ not_enclosed (wanted 2 ∷ word_at 3 1 true false false ∷ [])
      ++ word_at 0 2 false false false ∷ visited false 2 false []
visited-crosses_example =
    visited-crosses 1 (wanted 2 ∷ word_at 3 1 true false false ∷ []) (word_at 0 2 false false false)
      [] (refl, (refl, tt)) refl refl

abbrev scan_not : Test
scan_not = record scan { is_not = true }

sees_barrier_lem_example : sees_barrier scan_not (nothing 2) ≡ (
    scan_not.has_barrier
    && not (is_ruled_out scan_not (nothing 2).barrier)
    && (if scan_not.is_not
        then not (one_matches scan_not (nothing 2).barrier)
        else one_matches scan_not (nothing 2).barrier))
sees_barrier_lem_example = sees_barrier_lem scan_not (nothing 2)

-- A set that joins two LIST sets, the second of which the reading matches.
abbrev lists : ℕ → Bool
lists zero = false
lists (suc n) = true

abbrev answers : ℕ → Bool
answers zero = false
answers (suc n) = true

abbrev either : NumberedSet
either = joined 2 (tags_of 0 0) (more s_or (tags_of 1 1) end)

abbrev known : Index
known = record { yes = λ n h. false; no = λ n h. false }

known-IsSound : IsSound lists answers 7 known
known-IsSound = record { yes = λ n e. absurd (cc); no = λ n e. absurd (cc) }

match_indexed_lem_example :
    ((match_indexed lists false 7 either known).0 ≡ does_set_match lists (plain either))
    × IsSound lists answers 7 (match_indexed lists false 7 either known).1
unfolding does_set_match plain
match_indexed_lem_example =
    match_indexed_lem lists answers false 7 either known ((refl, refl, (refl, tt))) known-IsSound

-- The last cohort of a window, before another one.
get_cohort_in_window-back_example :
    ((get_cohort_in_window one_right
        (record { behind = []; cohorts = 1 ∷ 2 ∷ []; ahead = (3 ∷ []) ∷ [] })
        1).0
      ≡ get_elem? ((1 ∷ 2 ∷ []) ++ concat ((3 ∷ []) ∷ [])) 2)
    × (from_there one_left (
          get_cohort_in_window one_right
            (record { behind = []; cohorts = 1 ∷ 2 ∷ []; ahead = (3 ∷ []) ∷ [] })
            1)
        ≡ (
          get_elem? (1 ∷ 2 ∷ []) 1,
          (pos 1, record { behind = []; cohorts = 1 ∷ 2 ∷ []; ahead = (3 ∷ []) ∷ [] }),
        ))
get_cohort_in_window-back_example =
    get_cohort_in_window-back [] (1 ∷ 2 ∷ []) ((3 ∷ []) ∷ []) 1 (omega arith) (omega arith)

-- Two cohorts on from the last one is the first of the next window, not the second.
two_on :
    (get_cohort_in_window
      (record one_right { offset = pos 2 })
      (record { behind = []; cohorts = 1 ∷ 2 ∷ []; ahead = (3 ∷ 4 ∷ []) ∷ [] })
      1).0
    ≡ some 3
unfolding get_cohort_in_window
two_on = refl
