-- ===== src/Scan/Barriers.antt =====
-- What a barrier is.
use vislcg.Base.{
  Bool, true, false, not, ◌&&◌, ◌||◌, if◌then◌else◌, List, [], ◌∷◌, ◌++◌, ◌≡◌, refl, arith,
}
use vislcg.CohortMatch
use vislcg.CohortMatch.{looked_at}
use vislcg.CohortMatch.Answers.{any}
use vislcg.CohortMatch.Cohorts.{wread_hits, match_normal_lem}
use vislcg.Scan.{Test, Cohort, barrier_setting, sees_barrier}

-- Whether a reading that the test looks at matches: the one of the word form, the readings, and those that are deleted or delayed if
-- the test asks for them.
abbrev pub one_matches : Test → CohortMatch.Cohort → Bool
one_matches t c =
    wread_hits c
    || (any c.readings || ((t.look_deleted && any c.deleted) || (t.look_delayed && any c.delayed)))

-- A barrier that is refused at once: a set that the cohort cannot match, for a test that looks at its readings only and has no NOT.
abbrev pub is_ruled_out : Test → CohortMatch.Cohort → Bool
is_ruled_out t c = not c.is_possible && not t.look_deleted && not t.look_delayed && not t.is_not

any-append : (xs ys : List Bool) → any (xs ++ ys) ≡ (any xs || any ys)
unfolding any
any-append [] ys = refl
any-append (x ∷ xs) ys = ground (arith, any-append xs ys)

any_asked : (b : Bool) (xs : List Bool) → any (if b then xs else []) ≡ (b && any xs)
unfolding any
any_asked true xs = refl
any_asked false xs = refl

looked_at_lem :
    (t : Test) (c : CohortMatch.Cohort)
    → any (looked_at (barrier_setting t) c)
      ≡ (any c.readings || ((t.look_deleted && any c.deleted) || (t.look_delayed && any c.delayed)))
looked_at_lem t c =
    rw
      (
        any-append c.readings (
            (if t.look_deleted then c.deleted else [])
            ++ (if t.look_delayed then c.delayed else [])),
        any-append (if t.look_deleted then c.deleted else [])
            (if t.look_delayed then c.delayed else []),
        any_asked t.look_deleted c.deleted,
        any_asked t.look_delayed c.delayed,
      )
      refl

-- A test sees a barrier at a cohort if it has one that is not ruled out, and a reading that the test looks at matches the barrier's
-- set; with NOT, however, if no such reading does. A set is ruled out that the cohort cannot match, where the test has no NOT and looks
-- at neither deleted nor delayed readings.
pub sees_barrier_lem :
    (t : Test) (c : Cohort)
    → sees_barrier t c ≡ (
        t.has_barrier
        && not (is_ruled_out t c.barrier)
        && (if t.is_not then not (one_matches t c.barrier) else one_matches t c.barrier))
unfolding sees_barrier
sees_barrier_lem t c = ground (
  arith,
  match_normal_lem (barrier_setting t) c.barrier
      (λ (b : (barrier_setting t).in_barrier ≡ true). refl),
  looked_at_lem t c.barrier,
)
