-- ===== src/Scan/Single.antt =====
-- What a plain test does at one cohort, and what a scan should find.
use vislcg.Base.{
  ℕ, Bool, true, false, not, ◌&&◌, ◌||◌, if◌then◌else◌, List, [], ◌∷◌, Option, none, some, ◌≡◌,
  refl, arith, ap, ◌∙◌, sym,
}
use vislcg.CohortMatch.Seen.{match_normal-Seen, match_careful-Seen}
use vislcg.Scan.{
  target_setting, Test, Cohort, Flags, no_flags, test_target, sees_barrier, sees_cbarrier, is_scan,
  is_origin, break_if, end_test, bar_if, unbar, run_single_test,
}

-- A test that only looks along the text, with none of the prefixes and bits that change what it asks.
pub record IsPlain (t : Test) : Type 0 where
  pub no_negate : t.is_negate ≡ false
  pub no_not : t.is_not ≡ false
  pub no_self : t.is_self ≡ false
  pub no_none : t.is_none ≡ false
  pub no_all : t.is_all ≡ false
  pub no_glob : t.dep_glob ≡ false
  pub no_left : t.is_left ≡ false
  pub no_right : t.is_right ≡ false

-- The target is there, but the test has to end.
abbrev pub ends : Test → Cohort → Bool
ends t c =
    ((test_target t c).1 && t.is_scanfirst)
    || not (is_scan t)
    || sees_barrier t c
    || sees_cbarrier t c

-- The first cohort at which the test succeeds, of those before it has to end: at the origin, at a target that the scan is to stop at,
-- at a barrier, or at once if it does not scan.
unfoldable pub nearest : Test → Option ℕ → List Cohort → Option Cohort
nearest t origin [] = none
nearest t origin (c ∷ cs) =
    let further = nearest t origin cs in
    if is_origin t origin c
    then none
    else if (test_target t c).0
    then some c
    else if ends t c
    then none
    else further

-- A cohort at which the test succeeds has the target.
target_seen :
    (t : Test) (c : Cohort)
    → t.is_not ≡ false
    → (test_target t c).0 ≡ true
    → (test_target t c).1 ≡ true
unfolding test_target
target_seen t c n h = ground (
  arith,
  match_careful-Seen (target_setting t c) c.target n,
  match_normal-Seen (target_setting t c) c.target n,
)

-- One cohort, from no flags.
pub record Step (t : Test) (origin : Option ℕ) (c : Cohort) (one : Bool × Flags) : Type 0 where
  pub retval : one.0 ≡ (not (is_origin t origin c) && (test_target t c).0)
  pub breaks : one.1.trv_break ≡ (is_origin t origin c || (test_target t c).0 || ends t c)
  pub on : one.1.trv_break ≡ false → one.1 ≡ no_flags

unbar_lem : (t : Test) (b : Bool) (rvs : Flags) → t.is_self ≡ false → unbar t b rvs ≡ rvs
unfolding unbar
unbar_lem t b rvs n = ground (arith, n)

-- The flags that the target and the origin set.
ended_flags :
    (t : Test) (o m : Bool)
    → t.dep_glob ≡ false
    → (end_test t m (break_if o no_flags)).trv_break
      ≡ (o || (m && t.is_scanfirst) || not (is_scan t))
unfolding end_test
ended_flags t o m n = ground (arith, n)

ended_clean :
    (t : Test) (o m : Bool)
    → t.dep_glob ≡ false
    → (end_test t m (break_if o no_flags)).trv_break ≡ false
    → end_test t m (break_if o no_flags) ≡ no_flags
unfolding end_test
ended_clean t o m n h = ground (arith, n, h)

-- The flags with the barriers.
barred_flags : (b : Bool) (rvs : Flags) → (bar_if b rvs).trv_break ≡ (b || rvs.trv_break)
unfolding bar_if
barred_flags true rvs = refl
barred_flags false rvs = refl

barred_clean : (b : Bool) (rvs : Flags) → (bar_if b rvs).trv_break ≡ false → bar_if b rvs ≡ rvs
unfolding bar_if
barred_clean true rvs h = absurd (cc)
barred_clean false rvs h = refl

break_clean : (b : Bool) (rvs : Flags) → (break_if b rvs).trv_break ≡ false → break_if b rvs ≡ rvs
break_clean true rvs h = absurd (cc)
break_clean false rvs h = refl

shuffle :
    (o r m sf sc b cb : Bool)
    → (r ≡ true → m ≡ true)
    → ((m && (not o && r)) || (cb || (b || (o || (m && sf) || not sc))))
      ≡ (o || r || ((m && sf) || not sc || b || cb))
shuffle o r m sf sc b cb k = ground (arith, k)

-- The flags of one cohort, with what the target, the origin and the barriers say.
abbrev after_all : Test → Bool → Bool → Bool → Bool → Bool → Flags
after_all t o m r b cb =
    break_if (m && r) (bar_if cb (bar_if b (end_test t m (break_if o no_flags))))

all_flags :
    (t : Test) (o m r b cb : Bool)
    → t.dep_glob ≡ false
    → (after_all t o m r b cb).trv_break
      ≡ ((m && r) || (cb || (b || (o || (m && t.is_scanfirst) || not (is_scan t)))))
all_flags t o m r b cb n =
    let ended : Flags = end_test t m (break_if o no_flags) in
    ap (λ (x : Bool). (m && r) || x)
      (barred_flags cb (bar_if b ended)
        ∙ ap (λ (x : Bool). cb || x)
            (barred_flags b ended ∙ ap (λ (x : Bool). b || x) (ended_flags t o m n)))

all_clean :
    (t : Test) (o m r b cb : Bool)
    → t.dep_glob ≡ false
    → (after_all t o m r b cb).trv_break ≡ false
    → after_all t o m r b cb ≡ no_flags
all_clean t o m r b cb n h =
    let ended : Flags = end_test t m (break_if o no_flags) in
    let one : after_all t o m r b cb ≡ bar_if cb (bar_if b ended) =
      break_clean (m && r) (bar_if cb (bar_if b ended)) h in
    let h1 : (bar_if cb (bar_if b ended)).trv_break ≡ false =
      sym (ap (λ (x : Flags). x.trv_break) one) ∙ h in
    let two : bar_if cb (bar_if b ended) ≡ bar_if b ended = barred_clean cb (bar_if b ended) h1 in
    let h2 : (bar_if b ended).trv_break ≡ false = sym (ap (λ (x : Flags). x.trv_break) two) ∙ h1 in
    let three : bar_if b ended ≡ ended = barred_clean b ended h2 in
    one ∙ two ∙ three ∙ ended_clean t o m n (sym (ap (λ (x : Flags). x.trv_break) three) ∙ h2)

origin_lem : (o n r : Bool) → n ≡ false → (if o && not n then false else r) ≡ (not o && r)
origin_lem o n r e = ground arith

pub step_lem :
    (t : Test) (origin : Option ℕ) (c : Cohort)
    → IsPlain t
    → Step t origin c (run_single_test t origin c no_flags)
unfolding run_single_test
step_lem t origin c p =
    let o : Bool = is_origin t origin c in
    let m : Bool = (test_target t c).1 in
    let r : Bool = if o && not t.is_not then false else (test_target t c).0 in
    let r_lem : r ≡ (not o && (test_target t c).0) =
      origin_lem o t.is_not (test_target t c).0 p.no_not in
    let out : Flags = after_all t o m r (sees_barrier t c) (sees_cbarrier t c) in
    let same : unbar t (end_test t m (break_if o no_flags)).trv_break out ≡ out =
      unbar_lem t (end_test t m (break_if o no_flags)).trv_break out p.no_self in
    record {
      retval = r_lem;
      breaks =
          ap (λ (x : Flags). x.trv_break) same
          ∙ all_flags t o m r (sees_barrier t c) (sees_cbarrier t c) p.no_glob
          ∙ ap
              (λ (x : Bool).
                (m && x)
                || (sees_cbarrier t c
                    || (sees_barrier t c || (o || (m && t.is_scanfirst) || not (is_scan t)))))
              r_lem
          ∙ shuffle o (test_target t c).0 m t.is_scanfirst (is_scan t) (sees_barrier t c)
              (sees_cbarrier t c) (target_seen t c p.no_not);
      on = λ h.
          same
          ∙ all_clean t o m r (sees_barrier t c) (sees_cbarrier t c) p.no_glob
              (sym (ap (λ (x : Flags). x.trv_break) same) ∙ h);
    }
