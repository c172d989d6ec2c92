-- ===== src/CohortMatch/Seen.antt =====
-- A test without NOT that does has seen its target.
use mathlib.Core.Path.{subst}
use vislcg.Base.{
  Bool, true, false, ◌&&◌, ◌||◌, if◌then◌else◌, List, [], ◌∷◌, ◌≡◌, arith, Bool-cases, inl, inr,
  if_elim, Option-cases, sym,
}
use vislcg.CohortMatch.{
  Context, Setting, Cohort, test_linked, match_reading, is_settled, loop_normal, looked_at,
  finish_not, is_refused, match_wread, after_wread, match_normal, loop_careful, lists_careful,
  match_careful,
}
use vislcg.CohortMatch.Answers.{fresh}
use vislcg.CohortMatch.Cohorts.{wread_lem, wread_hits, more_lists}

-- An answer with the context that it leaves.
abbrev pub Seen : Bool × Context → Type 0
Seen (retval, c) = retval ≡ true → c.matched_target ≡ true

reading-Seen : (s : Setting) (hit : Bool) (c : Context) → Seen (match_reading s hit c)
unfolding match_reading test_linked
reading-Seen s false c h = absurd (cc)
reading-Seen s true c h = elim (Option-cases s.linked) [
  | inl e ↦ ground (arith, h, e)
  | inr (o, e) ↦ ground (arith, h, e)
]

-- What has been seen stays seen.
reading_keeps :
    (s : Setting) (hit : Bool) (c : Context)
    → c.matched_target ≡ true
    → (match_reading s hit c).1.matched_target ≡ true
unfolding match_reading test_linked
reading_keeps s false c h = h
reading_keeps s true c h = elim (Option-cases s.linked) [
  | inl e ↦ ground (arith, h, e)
  | inr (o, e) ↦ ground (arith, h, e)
]

now-Seen :
    (s : Setting) (hit retval : Bool) (c : Context)
    → Seen (retval, c)
    → Seen ((match_reading s hit c).0 || retval, (match_reading s hit c).1)
now-Seen s hit retval c k h = elim (Bool-cases (match_reading s hit c).0) [
  | inl e ↦ reading-Seen s hit c e
  | inr e ↦ reading_keeps s hit c (k (ground (arith, h, e)))
]

loop-Seen :
    (s : Setting) (hits : List Bool) (retval : Bool) (c : Context)
    → Seen (retval, c)
    → Seen (loop_normal s hits retval c).1
unfolding loop_normal
loop-Seen s [] retval c k = k
loop-Seen s (hit ∷ hits) retval c k =
    if_elim (λ (x : Bool × (Bool × Context)). Seen x.1)
      (((match_reading s hit c).0 || retval) && is_settled s (match_reading s hit c).1) _ _
      (λ h. now-Seen s hit retval c k)
      (λ h.
        loop-Seen s hits ((match_reading s hit c).0 || retval) (match_reading s hit c).1
          (now-Seen s hit retval c k))

careful-Seen :
    (s : Setting) (hits : List Bool) (retval : Bool) (c : Context)
    → Seen (retval, c)
    → Seen (loop_careful s hits retval c)
unfolding loop_careful
careful-Seen s [] retval c k = k
careful-Seen s (hit ∷ hits) retval c k =
    if_elim (λ (x : Bool × Context). Seen x) (match_reading s hit c).0 _ _
      (λ h.
        careful-Seen s hits (match_reading s hit c).0 (match_reading s hit c).1
          (reading-Seen s hit c))
      (λ h e. absurd (cc))

lists-Seen :
    (s : Setting) (lists : List (List Bool)) (retval : Bool) (c : Context)
    → Seen (retval, c)
    → Seen (lists_careful s lists retval c)
unfolding lists_careful
lists-Seen s [] retval c k = k
lists-Seen s (list ∷ lists) retval c k =
    if_elim (λ (x : Bool × Context). Seen x) (loop_careful s list retval c).0 _ _
      (λ h.
        lists-Seen s lists (loop_careful s list retval c).0 (loop_careful s list retval c).1
          (careful-Seen s list retval c k))
      (λ h e. absurd (cc))

finish-Seen : (s : Setting) (x : Bool × Context) → s.is_not ≡ false → Seen x → Seen (finish_not s x)
unfolding finish_not
finish-Seen s (retval, c) n k h = ground (arith, n, k, h)

wread-Seen : (s : Setting) (cohort : Cohort) (c : Context) → Seen (match_wread s cohort c)
wread-Seen s cohort c =
    subst (λ (x : Bool × Context). Seen x) (sym (wread_lem s cohort c))
      (reading-Seen s (wread_hits cohort) c)

after-Seen :
    (s : Setting) (cohort : Cohort) (retval : Bool) (c : Context)
    → s.is_not ≡ false
    → Seen (retval, c)
    → Seen (after_wread s cohort (retval, c))
unfolding after_wread
after-Seen s cohort retval c n k =
    let l : Seen (loop_normal s (looked_at s cohort) retval c).1 =
      loop-Seen s (looked_at s cohort) retval c k in
    if_elim Seen (retval && c.did_test) (retval, c)
      (if (loop_normal s (looked_at s cohort) retval c).0
        then (loop_normal s (looked_at s cohort) retval c).1
        else finish_not s (loop_normal s (looked_at s cohort) retval c).1)
      (λ _. k)
      (λ _.
        if_elim Seen (loop_normal s (looked_at s cohort) retval c).0
          (loop_normal s (looked_at s cohort) retval c).1
          (finish_not s (loop_normal s (looked_at s cohort) retval c).1) (λ _. l)
          (λ _. finish-Seen s (loop_normal s (looked_at s cohort) retval c).1 n l))

refused-Seen :
    (refused : Bool) (body : Bool × Context)
    → Seen body
    → Seen (if refused then (false, fresh) else body)
refused-Seen true body k h = absurd (cc)
refused-Seen false body k h = k h

pub match_normal-Seen :
    (s : Setting) (cohort : Cohort) → s.is_not ≡ false → Seen (match_normal s cohort fresh)
unfolding match_normal
match_normal-Seen s cohort n =
    refused-Seen (is_refused s cohort) (after_wread s cohort (match_wread s cohort fresh)) (
      after-Seen s cohort (match_wread s cohort fresh).0 (match_wread s cohort fresh).1 n
        (wread-Seen s cohort fresh))

pub match_careful-Seen :
    (s : Setting) (cohort : Cohort) → s.is_not ≡ false → Seen (match_careful s cohort fresh)
unfolding match_careful
match_careful-Seen s cohort n =
    refused-Seen (is_refused s cohort)
      (finish_not s (lists_careful s (cohort.readings ∷ more_lists s cohort) false fresh))
      (finish-Seen s (lists_careful s (cohort.readings ∷ more_lists s cohort) false fresh) n
        (lists-Seen s (cohort.readings ∷ more_lists s cohort) false fresh (λ h. absurd (cc))))
