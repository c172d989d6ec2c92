-- ===== src/CohortMatch/Answers.antt =====
-- What the two kinds of test answer.
use vislcg.Base.{
  Bool, true, false, ◌&&◌, ◌||◌, if◌then◌else◌, List, [], ◌∷◌, none, some, ◌≡◌, refl, arith,
  Bool-cases, inl, inr, Option-cases, ◌∙◌, sym, if_elim,
}
use vislcg.CohortMatch.{
  Context, Setting, test_linked, match_reading, loop_normal, finish_not, loop_careful,
}

abbrev pub fresh : Context
fresh = record { did_test = false; matched_target = false; matched_tests = false }

unfoldable pub any : List Bool → Bool
any [] = false
any (hit ∷ hits) = hit || any hits

unfoldable pub all : List Bool → Bool
all [] = true
all (hit ∷ hits) = hit && all hits

-- Whether the linked test does, where there is one.
abbrev pub linked_does : Setting → Bool
linked_does s = elim s.linked [ none ↦ true | some outcome ↦ outcome ]

-- A barrier has no linked test.
abbrev pub IsFit : Setting → Type 0
IsFit s = s.in_barrier ≡ true → s.linked ≡ none

-- A linked test that has been run is not run again.
abbrev pub Agrees : Setting → Context → Type 0
Agrees s c = c.did_test ≡ true → c.matched_tests ≡ linked_does s

pub record Hit (s : Setting) (c : Context) : Type 0 where
  pub answer : (match_reading s true c).0 ≡ linked_does s
  pub agrees : Agrees s (match_reading s true c).1

pub miss : (s : Setting) (c : Context) → match_reading s false c ≡ (false, c)
unfolding match_reading
miss s c = refl

unfoldable pub is_nil : List Bool → Bool
is_nil [] = true
is_nil (hit ∷ hits) = false

pub hit_lem : (s : Setting) (c : Context) → s.is_not ≡ false → IsFit s → Agrees s c → Hit s c
unfolding match_reading test_linked
hit_lem s c n f a = elim (Bool-cases s.in_barrier) [
  | inl b ↦ record { answer = ground (arith, f b, b); agrees = ground (arith, f b, b) }
  | inr b ↦ elim (Option-cases s.linked) [
    | inl e ↦ record { answer = ground (arith, b, e); agrees = ground (arith, b, e) }
    | inr (o, e) ↦ record { answer = ground (arith, b, e, a); agrees = ground (arith, b, e, a) }
  ]
]

pub loop_lem :
    (s : Setting) (hits : List Bool) (retval : Bool) (c : Context)
    → s.is_not ≡ false
    → IsFit s
    → Agrees s c
    → (loop_normal s hits retval c).1.0 ≡ ((any hits && linked_does s) || retval)
unfolding loop_normal any
loop_lem s [] retval c n f a = refl
loop_lem s (false ∷ hits) retval c n f a = ground (arith, miss s c, loop_lem s hits retval c n f a)
loop_lem s (true ∷ hits) retval c n f a =
    let h : Hit s c = hit_lem s c n f a in
    ground (
      arith,
      h.answer,
      loop_lem s hits ((match_reading s true c).0 || retval) (match_reading s true c).1 n f
          h.agrees,
    )

pub loop_not :
    (s : Setting) (hits : List Bool) (c : Context)
    → s.is_not ≡ true
    → loop_normal s hits false c
      ≡ (false, (false, record c { matched_target = any hits || c.matched_target }))
unfolding loop_normal any match_reading
loop_not s [] c n = refl
loop_not s (false ∷ hits) c n = loop_not s hits c n
loop_not s (true ∷ hits) c n =
    ground (arith, n, loop_not s hits (record c { matched_target = true }) n)

pub only :
    (hits : List Bool) (ld b : Bool)
    → b ≡ ld
    → (if is_nil hits then b else all hits && ld) ≡ (all hits && ld)
unfolding all is_nil
only [] ld b e = e
only (hit ∷ hits) ld b e = refl

off_lem : (a ld : Bool) → ld ≡ false → false ≡ (a && ld)
off_lem a ld e = ground arith

pub careful_lem :
    (s : Setting) (hits : List Bool) (retval : Bool) (c : Context)
    → s.is_not ≡ false
    → IsFit s
    → Agrees s c
    → ((loop_careful s hits retval c).0
        ≡ (if is_nil hits then retval else (all hits && linked_does s)))
      × Agrees s (loop_careful s hits retval c).1
unfolding loop_careful all is_nil
careful_lem s [] retval c n f a = (refl, a)
careful_lem s (false ∷ hits) retval c n f a = ground (arith, miss s c)
careful_lem s (true ∷ hits) retval c n f a =
    let h : Hit s c = hit_lem s c n f a in
    if_elim (λ (x : Bool × Context). (x.0 ≡ (all hits && linked_does s)) × Agrees s x.1)
      (match_reading s true c).0
      (loop_careful s hits (match_reading s true c).0 (match_reading s true c).1)
      (false, (match_reading s true c).1)
      (λ on.
        let rest : ((loop_careful s hits (match_reading s true c).0 (match_reading s true c).1).0
              ≡ (if is_nil hits then (match_reading s true c).0 else all hits && linked_does s))
            × Agrees s
                (loop_careful s hits (match_reading s true c).0 (match_reading s true c).1).1 =
          careful_lem s hits (match_reading s true c).0 (match_reading s true c).1 n f h.agrees in
        (rest.0 ∙ only hits (linked_does s) (match_reading s true c).0 h.answer, rest.1))
      (λ off. (off_lem (all hits) (linked_does s) (sym h.answer ∙ off), h.agrees))

pub not_lem :
    (s : Setting) (c : Context) (retval : Bool)
    → s.is_not ≡ false
    → finish_not s (retval, c) ≡ (retval, c)
unfolding finish_not
not_lem s c retval n = ground (arith, n)
