-- ===== src/Scan/Nearest.antt =====
-- What a scan finds.
use vislcg.Base.{
  ℕ, Bool, true, false, not, ◌&&◌, ◌||◌, if◌then◌else◌, List, [], ◌∷◌, Option, none, some, ◌≡◌,
  refl, arith, if_elim, ap, ◌∙◌,
}
use vislcg.Scan.{
  Test, Cohort, Flags, no_flags, test_target, is_origin, run_single_test, Looped, loop_cohorts,
  self_first, loop_from, conclude, run_sideways, visited,
}
use vislcg.Scan.Single.{IsPlain, ends, nearest, Step, step_lem}

-- What is found where the loop is.
abbrev outcome : Looped → Option Cohort
outcome st = if st.retval && st.seen then st.nc else none

-- The loop at a cohort, after its outcome there.
abbrev after_one : Test → Option ℕ → Cohort → List Cohort → Bool × Flags → Looped
after_one t origin c cs one =
    if one.1.trv_break
    then record { nc = some c; retval = one.0; seen = true; rvs = one.1 }
    else loop_cohorts t origin c cs
        (record { nc = some c; retval = one.0; seen = true; rvs = one.1 })

loop_one :
    (t : Test) (origin : Option ℕ) (current c : Cohort) (cs : List Cohort) (st : Looped)
    → IsPlain t
    → loop_cohorts t origin current (c ∷ cs) st
      ≡ after_one t origin c cs (run_single_test t origin c st.rvs)
unfolding loop_cohorts
loop_one t origin current c cs st p = ground (arith, p.no_left, p.no_right, p.no_all, p.no_none)

-- The cohort decides, or the search goes on.
nearest-Step :
    (t : Test) (origin : Option ℕ) (c : Cohort) (cs : List Cohort) (one : Bool × Flags)
    → Step t origin c one
    → (one.1.trv_break ≡ true → (if one.0 then some c else none) ≡ nearest t origin (c ∷ cs))
      × (one.1.trv_break ≡ false → nearest t origin cs ≡ nearest t origin (c ∷ cs))
unfolding nearest
nearest-Step t origin c cs one s =
    decide (is_origin t origin c) (test_target t c).0 (ends t c) one.0 one.1.trv_break (some c)
      (nearest t origin cs) s.retval s.breaks
  where
    decide :
        (o r e x b : Bool) (found rest : Option Cohort)
        → x ≡ (not o && r)
        → b ≡ (o || r || e)
        → (b ≡ true
            → (if x then found else none)
              ≡ (if o then none else if r then found else if e then none else rest))
          × (b ≡ false → rest ≡ (if o then none else if r then found else if e then none else rest))
    decide true r e x b found rest h k = (λ l. ground arith, λ l. absurd (ground arith))
    decide false true e x b found rest h k = (λ l. ground arith, λ l. absurd (ground arith))
    decide false false true x b found rest h k = (λ l. ground arith, λ l. absurd (ground arith))
    decide false false false x b found rest h k = (λ l. absurd (ground arith), λ l. refl)

-- Where the loop goes on the test has not succeeded.
not_yet :
    (t : Test) (origin : Option ℕ) (c : Cohort) (one : Bool × Flags)
    → Step t origin c one
    → one.1.trv_break ≡ false
    → one.0 ≡ false
not_yet t origin c one s h =
    no_success (is_origin t origin c) (test_target t c).0 (ends t c) one.0 one.1.trv_break s.retval
      s.breaks h
  where
    no_success : (o r e x b : Bool) → x ≡ (not o && r) → b ≡ (o || r || e) → b ≡ false → x ≡ false
    no_success o r e x b h k l = ground arith

and_true :
    (b : Bool) (found : Option Cohort)
    → (if b && true then found else none) ≡ (if b then found else none)
and_true true found = refl
and_true false found = refl

failed : {b : Bool} (found : Option Cohort) → b ≡ false → (if b && true then found else none) ≡ none
failed found e = ground arith

loop_lem :
    (t : Test) (origin : Option ℕ) (current : Cohort) (cs : List Cohort) (st : Looped)
    → IsPlain t
    → st.rvs ≡ no_flags
    → outcome st ≡ none
    → outcome (loop_cohorts t origin current cs st) ≡ nearest t origin cs
unfolding loop_cohorts nearest
loop_lem t origin current [] st p e n = n
loop_lem t origin current (c ∷ cs) st p e n =
    let one : Bool × Flags = run_single_test t origin c no_flags in
    let s : Step t origin c one = step_lem t origin c p in
    let d : (one.1.trv_break ≡ true → (if one.0 then some c else none) ≡ nearest t origin (c ∷ cs))
        × (one.1.trv_break ≡ false → nearest t origin cs ≡ nearest t origin (c ∷ cs)) =
      nearest-Step t origin c cs one s in
    ap outcome (
      loop_one t origin current c cs st p
      ∙ ap (λ (rvs : Flags). after_one t origin c cs (run_single_test t origin c rvs)) e)
    ∙ if_elim (λ (x : Looped). outcome x ≡ nearest t origin (c ∷ cs)) one.1.trv_break
        (record { nc = some c; retval = one.0; seen = true; rvs = one.1 })
        (loop_cohorts t origin c cs
          (record { nc = some c; retval = one.0; seen = true; rvs = one.1 }))
        (λ h. and_true one.0 (some c) ∙ d.0 h)
        (λ h.
          loop_lem t origin c cs (record { nc = some c; retval = one.0; seen = true; rvs = one.1 })
            p (s.on h) (failed (some c) (not_yet t origin c one s h))
          ∙ d.1 h)

-- Of a test without prefixes the outcome of the loop is the answer.
conclude_lem :
    (t : Test) (first : Cohort) (nc : Option Cohort) (retval : Bool)
    → IsPlain t
    → conclude t first nc retval ≡ (if retval then nc else none)
unfolding conclude
conclude_lem t first none retval p = ground (arith, p.no_not, p.no_negate)
conclude_lem t first (some c) retval p = ground (arith, p.no_not, p.no_negate)

no_self_first :
    (t : Test) (origin : Option ℕ) (self : Cohort)
    → IsPlain t
    → self_first t origin self ≡ record { nc = none; retval = true; seen = false; rvs = no_flags }
unfolding self_first
no_self_first t origin self p = ground (arith, p.no_self)

from_lem :
    (t : Test) (c : Cohort) (looped : Looped)
    → IsPlain t
    → let retval : Bool = looped.retval && looped.seen in
      let out : Looped =
        if not retval && t.is_none
        then record looped { nc = some c; retval = true }
        else record looped { retval = retval } in
      (if out.retval then out.nc else none) ≡ outcome looped
from_lem t c looped p = ground (arith, p.no_none)

-- A test without prefixes that looks to one side finds the nearest cohort at which it succeeds, and none beyond one at which it has
-- to end; it finds none if there is no cohort at its offset.
pub run_sideways-nearest :
    (t : Test) (spans : Bool) (origin : Option ℕ) (first self : Cohort)
    (start : Option (Cohort × List Cohort))
    → IsPlain t
    → run_sideways t spans origin first self start ≡ elim start [
      | none ↦ none
      | some (c, links) ↦ nearest t origin (c ∷ visited spans c.window false links)
    ]
unfolding run_sideways loop_from
run_sideways-nearest t spans origin first self none p = conclude_lem t first none false p
run_sideways-nearest t spans origin first self (some (c, links)) p =
    let none_yet : Looped = record { nc = none; retval = true; seen = false; rvs = no_flags } in
    let cs : List Cohort = c ∷ visited spans c.window false links in
    ap
      (λ (st : Looped).
        conclude t first (loop_from t origin c cs st).nc (loop_from t origin c cs st).retval)
      (no_self_first t origin self p)
    ∙ conclude_lem t first (loop_from t origin c cs none_yet).nc
        (loop_from t origin c cs none_yet).retval p
    ∙ from_lem t c (loop_cohorts t origin c cs none_yet) p
    ∙ loop_lem t origin c cs none_yet p refl refl
