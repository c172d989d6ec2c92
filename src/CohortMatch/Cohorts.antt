-- ===== src/CohortMatch/Cohorts.antt =====
-- The tests of whole cohorts.
use mathlib.Core.List.{append-nil}
use vislcg.Base.{
  Bool, true, false, not, ◌&&◌, ◌||◌, if◌then◌else◌, List, [], ◌∷◌, ◌++◌, none, some, ◌≡◌, refl,
  arith, inl, inr, Option-cases, ap, ◌∙◌, sym, if_elim,
}
use vislcg.CohortMatch.{
  Context, Setting, Cohort, test_linked, match_reading, loop_normal, looked_at, finish_not,
  is_refused, match_wread, after_wread, match_normal, loop_careful, lists_careful, match_careful,
}
use vislcg.CohortMatch.Answers.{
  fresh, any, all, linked_does, IsFit, Agrees, Hit, hit_lem, miss, loop_lem, loop_not, careful_lem,
  not_lem, is_nil, only,
}

abbrev concat : List (List Bool) → List Bool
concat [] = []
concat (list ∷ lists) = list ++ concat lists

or_false : (b : Bool) → (b || false) ≡ b
or_false true = refl
or_false false = refl

absorb : (a ld b : Bool) → b ≡ ld → ((a && ld) || b) ≡ ld
absorb a ld b e = ground arith

after_lem :
    (s : Setting) (cohort : Cohort) (retval : Bool) (c : Context)
    → s.is_not ≡ false
    → IsFit s
    → Agrees s c
    → (after_wread s cohort (retval, c)).0 ≡ ((any (looked_at s cohort) && linked_does s) || retval)
unfolding after_wread
after_lem s cohort retval c n f a =
    let l : (loop_normal s (looked_at s cohort) retval c).1.0
        ≡ ((any (looked_at s cohort) && linked_does s) || retval) =
      loop_lem s (looked_at s cohort) retval c n f a in
    if_elim (λ (x : Bool × Context). x.0 ≡ ((any (looked_at s cohort) && linked_does s) || retval))
      (retval && c.did_test) (retval, c) _ (λ h. ground (arith, h))
      (λ h.
        if_elim
          (λ (x : Bool × Context). x.0 ≡ ((any (looked_at s cohort) && linked_does s) || retval))
          (loop_normal s (looked_at s cohort) retval c).0 _ _ (λ h. l)
          (λ h.
            ap (λ (x : Bool × Context). x.0)
              (not_lem s (loop_normal s (looked_at s cohort) retval c).1.1
                (loop_normal s (looked_at s cohort) retval c).1.0 n)
            ∙ l))

abbrev pub wread_hits : Cohort → Bool
wread_hits cohort = elim cohort.wread [ none ↦ false | some hit ↦ hit ]

-- Whether some reading that the test looks at matches, that of the word form included.
abbrev pub has_hit : Setting → Cohort → Bool
has_hit s cohort = wread_hits cohort || any (looked_at s cohort)

-- The reading of the word form, if there is one, is asked like any other.
pub wread_lem :
    (s : Setting) (cohort : Cohort) (c : Context)
    → match_wread s cohort c ≡ match_reading s (wread_hits cohort) c
unfolding match_wread
wread_lem s cohort c = elim (Option-cases cohort.wread) [
  | inl e ↦ ground (arith, e, miss s c)
  | inr (hit, e) ↦ ground (arith, e)
]

normal_plain :
    (s : Setting) (cohort : Cohort) (hit : Bool)
    → s.is_not ≡ false
    → IsFit s
    → (after_wread s cohort (match_reading s hit fresh)).0
      ≡ ((hit || any (looked_at s cohort)) && linked_does s)
normal_plain s cohort false n f =
    ap (λ (x : Bool × Context). (after_wread s cohort x).0) (miss s fresh)
    ∙ after_lem s cohort false fresh n f (λ h. absurd (cc))
    ∙ or_false _
normal_plain s cohort true n f =
    let h : Hit s fresh = hit_lem s fresh n f (λ h. absurd (cc)) in
    after_lem s cohort (match_reading s true fresh).0 (match_reading s true fresh).1 n f h.agrees
    ∙ absorb _ _ _ h.answer

normal_not :
    (s : Setting) (cohort : Cohort) (hit : Bool)
    → s.is_not ≡ true
    → (after_wread s cohort (match_reading s hit fresh)).0
      ≡ (not (hit || any (looked_at s cohort)) && linked_does s)
unfolding match_reading after_wread finish_not test_linked
normal_not s cohort false n = ground (arith, n, loop_not s (looked_at s cohort) fresh n)
normal_not s cohort true n =
    ground (arith, n, loop_not s (looked_at s cohort) (record fresh { matched_target = true }) n)

-- Both kinds of test, from what they do with and without NOT.
cases_lem :
    (refused is_not with_hit without ld : Bool) (body : Bool × Context)
    → (is_not ≡ true → body.0 ≡ (without && ld))
    → (is_not ≡ false → body.0 ≡ (with_hit && ld))
    → (if refused then (false, fresh) else body).0
      ≡ (if refused then false else (if is_not then without else with_hit) && ld)
cases_lem true is_not w o ld body f g = refl
cases_lem false true w o ld body f g = f refl
cases_lem false false w o ld body f g = g refl

-- A cohort that can match the set at all does so in a test if a reading that the test looks at matches the set, and the linked test
-- does, if there is one; with NOT, if no such reading matches, and the linked test does.
pub match_normal_lem :
    (s : Setting) (cohort : Cohort)
    → IsFit s
    → (match_normal s cohort fresh).0 ≡ (
        if is_refused s cohort
        then false
        else (if s.is_not then not (has_hit s cohort) else has_hit s cohort) && linked_does s)
unfolding match_normal
match_normal_lem s cohort f =
    cases_lem (is_refused s cohort) s.is_not (has_hit s cohort) (not (has_hit s cohort))
      (linked_does s) (after_wread s cohort (match_wread s cohort fresh))
      (λ n.
        ap (λ (x : Bool × Context). (after_wread s cohort x).0) (wread_lem s cohort fresh)
        ∙ normal_not s cohort (wread_hits cohort) n)
      (λ n.
        ap (λ (x : Bool × Context). (after_wread s cohort x).0) (wread_lem s cohort fresh)
        ∙ normal_plain s cohort (wread_hits cohort) n f)

all-append : (xs ys : List Bool) → all (xs ++ ys) ≡ (all xs && all ys)
unfolding all
all-append [] ys = refl
all-append (true ∷ xs) ys = all-append xs ys
all-append (false ∷ xs) ys = refl

-- A list after one whose readings did: all of its own have to, and none is fine.
next_list :
    (s : Setting) (hits : List Bool) (retval : Bool) (c : Context)
    → s.is_not ≡ false
    → IsFit s
    → Agrees s c
    → retval ≡ linked_does s
    → ((loop_careful s hits retval c).0 ≡ (all hits && linked_does s))
      × Agrees s (loop_careful s hits retval c).1
next_list s hits retval c n f a e =
    let (r, a') = careful_lem s hits retval c n f a in (r ∙ only hits (linked_does s) retval e, a')

-- After one list: the lists that follow are looked at if it did.
list_step :
    (s : Setting) (list : List Bool) (lists : List (List Bool)) (one : Bool × Context)
    → one.0 ≡ (all list && linked_does s)
    → (one.0 ≡ linked_does s
        → (lists_careful s lists one.0 one.1).0 ≡ (all (concat lists) && linked_does s))
    → (if one.0 then lists_careful s lists one.0 one.1 else (false, one.1)).0
      ≡ (all (list ++ concat lists) && linked_does s)
list_step s list lists (true, c) e rest =
    rest (ground (arith, e)) ∙ ground (arith, e, all-append list (concat lists))
list_step s list lists (false, c) e rest = ground (arith, e, all-append list (concat lists))

rest_lists :
    (s : Setting) (lists : List (List Bool)) (retval : Bool) (c : Context)
    → s.is_not ≡ false
    → IsFit s
    → Agrees s c
    → retval ≡ linked_does s
    → (lists_careful s lists retval c).0 ≡ (all (concat lists) && linked_does s)
unfolding lists_careful all
rest_lists s [] retval c n f a e = e
rest_lists s (list ∷ lists) retval c n f a e =
    let first : ((loop_careful s list retval c).0 ≡ (all list && linked_does s))
        × Agrees s (loop_careful s list retval c).1 =
      next_list s list retval c n f a e in
    list_step s list lists (loop_careful s list retval c) first.0 (λ e'.
      rest_lists s lists (loop_careful s list retval c).0 (loop_careful s list retval c).1 n f
        first.1 e')

careful_plain :
    (s : Setting) (hit : Bool) (hits : List Bool) (lists : List (List Bool))
    → s.is_not ≡ false
    → IsFit s
    → (finish_not s (lists_careful s ((hit ∷ hits) ∷ lists) false fresh)).0
      ≡ (all ((hit ∷ hits) ++ concat lists) && linked_does s)
unfolding lists_careful is_nil
careful_plain s hit hits lists n f =
    let first : ((loop_careful s (hit ∷ hits) false fresh).0 ≡ (all (hit ∷ hits) && linked_does s))
        × Agrees s (loop_careful s (hit ∷ hits) false fresh).1 =
      careful_lem s (hit ∷ hits) false fresh n f (λ h. absurd (cc)) in
    ap (λ (x : Bool × Context). x.0)
      (not_lem s (lists_careful s ((hit ∷ hits) ∷ lists) false fresh).1
        (lists_careful s ((hit ∷ hits) ∷ lists) false fresh).0 n)
    ∙ list_step s (hit ∷ hits) lists (loop_careful s (hit ∷ hits) false fresh) first.0 (λ e'.
      rest_lists s lists (loop_careful s (hit ∷ hits) false fresh).0
        (loop_careful s (hit ∷ hits) false fresh).1 n f first.1 e')

careful_not :
    (s : Setting) (hit : Bool) (hits : List Bool) (lists : List (List Bool))
    → s.is_not ≡ true
    → (finish_not s (lists_careful s ((hit ∷ hits) ∷ lists) false fresh)).0
      ≡ (not hit && linked_does s)
unfolding lists_careful loop_careful match_reading finish_not test_linked
careful_not s false hits lists n = ground (arith, n)
careful_not s true hits lists n = ground (arith, n)

-- The lists of a careful test, of a cohort whose first reading and other readings are given.
abbrev pub more_lists : Setting → Cohort → List (List Bool)
more_lists s cohort =
    (if s.look_deleted then cohort.deleted else [])
    ∷ (if s.look_delayed then cohort.delayed else [])
    ∷ []

together :
    (s : Setting) (cohort : Cohort) (hit : Bool) (hits : List Bool)
    → cohort.readings ≡ hit ∷ hits
    → all ((hit ∷ hits) ++ concat (more_lists s cohort)) ≡ all (looked_at s cohort)
together s cohort hit hits e =
    ap
      (λ (ys : List Bool).
        all ((hit ∷ hits) ++ ((if s.look_deleted then cohort.deleted else []) ++ ys)))
      (append-nil (if s.look_delayed then cohort.delayed else []))
    ∙ ap
        (λ (r : List Bool). all (
          r
          ++ ((if s.look_deleted then cohort.deleted else [])
              ++ (if s.look_delayed then cohort.delayed else []))))
        (sym e)

-- A careful test of a cohort with readings asks that every reading that the test looks at match, and the linked test do; with NOT,
-- however, it asks only that the first reading not match, and says nothing of the others.
pub match_careful_lem :
    (s : Setting) (cohort : Cohort) (hit : Bool) (hits : List Bool)
    → IsFit s
    → cohort.readings ≡ hit ∷ hits
    → (match_careful s cohort fresh).0 ≡ (
        if is_refused s cohort
        then false
        else (if s.is_not then not hit else all (looked_at s cohort)) && linked_does s)
unfolding match_careful
match_careful_lem s cohort hit hits f e =
    cases_lem (is_refused s cohort) s.is_not (all (looked_at s cohort)) (not hit) (linked_does s)
      (finish_not s (lists_careful s (cohort.readings ∷ more_lists s cohort) false fresh))
      (λ n. given ∙ careful_not s hit hits (more_lists s cohort) n)
      (λ n.
        given
        ∙ careful_plain s hit hits (more_lists s cohort) n f
        ∙ ap (λ (b : Bool). b && linked_does s) (together s cohort hit hits e))
  where
    given :
        (finish_not s (lists_careful s (cohort.readings ∷ more_lists s cohort) false fresh)).0
        ≡ (finish_not s (lists_careful s ((hit ∷ hits) ∷ more_lists s cohort) false fresh)).0
    given =
        ap
          (λ (r : List Bool).
            (finish_not s (lists_careful s (r ∷ more_lists s cohort) false fresh)).0)
          e
