-- ===== src/SetMatch/Indexed/Sound.antt =====
-- The indexes do not change an answer, and stay right.
use mathlib.Core.Path.{subst}
use vislcg.Base.{
  ℕ, ◌≡◌, refl, ap, ◌∙◌, Bool, true, false, not, ◌&&◌, ◌==◌, if◌then◌else◌, arith, Bool-cases, inl,
  inr, sym, ==_iff, if_elim,
}
use vislcg.SetMatch.{
  SetOp, s_or, s_plus, s_failfast, s_minus, s_not, Set, st_any, list_set, sub_sets, Others, last,
  next, does_set_match, loop_sets, operate,
}
use vislcg.SetMatch.Indexed.{
  NumberedSet, NumberedOthers, any, tags_of, joined, end, more, Index, put, store, indexed, asks,
  apply, match_indexed, match_others,
}

-- A set without the numbers.
unfoldable mutual
  pub plain : NumberedSet → Set
  plain (any n) = st_any
  plain (tags_of n list) = list_set list
  plain (joined n a others) = sub_sets (plain a) (plain_others others)

  pub plain_others : NumberedOthers → Others
  plain_others end = last
  plain_others (more op a others) = next op (plain a) (plain_others others)

abbrev is_or : SetOp → Bool
is_or s_or = true
is_or _ = false

apply-eq-operate :
    (op : SetOp) (hit right m f : Bool)
    → hit ≡ right
    → is_or op ≡ false
    → asks op m ≡ true
    → apply op hit (m, f) ≡ operate op right (m, f)
apply-eq-operate s_or hit right m f e o h = cc
apply-eq-operate s_plus hit right m f e o h = ground arith
apply-eq-operate s_failfast hit right m f e o h = ground arith
apply-eq-operate s_minus hit right m f e o h = ground arith
apply-eq-operate s_not hit right m f e o h = ground arith

operate_unasked :
    (op : SetOp) (right m f : Bool)
    → is_or op ≡ false
    → asks op m ≡ false
    → (m, f) ≡ operate op right (m, f)
operate_unasked s_or right m f o h = cc
operate_unasked s_plus right m f o h = ground arith
operate_unasked s_failfast right m f o h = absurd (cc)
operate_unasked s_minus right m f o h = ground arith
operate_unasked s_not right m f o h = ground arith

-- An answer for each number: whether the set of that number matches the reading.
module _ (tags : ℕ → Bool) (answer : ℕ → Bool) where
  -- Each set has a number of which this is the answer.
  abbrev mutual
    pub Numbered : NumberedSet → Type 0
    Numbered (any n) = answer n ≡ true
    Numbered (tags_of n list) = answer n ≡ tags list
    Numbered (joined n a others) =
        (answer n ≡ does_set_match tags (plain (joined n a others)))
        × Numbered a
        × NumberedAll others

    pub NumberedAll : NumberedOthers → Type 0
    NumberedAll end = Unit {0}
    NumberedAll (more op a others) = Numbered a × NumberedAll others

  -- What the indexes say of a reading is so.
  pub record IsSound (hash : ℕ) (index : Index) : Type 0 where
    pub yes : (n : ℕ) → index.yes n hash ≡ true → answer n ≡ true
    pub no : (n : ℕ) → index.no n hash ≡ true → answer n ≡ false

  -- The right answer, with indexes that are right.
  pub record IsRight (hash : ℕ) (right : Bool) (result : Bool × Index) : Type 0 where
    pub retval : result.0 ≡ right
    pub sound : IsSound hash result.1

  put_sound :
      (index : ℕ → ℕ → Bool) (hash n m : ℕ) (b : Bool)
      → answer n ≡ b
      → (index m hash ≡ true → answer m ≡ b)
      → put index n hash m hash ≡ true
      → answer m ≡ b
  unfolding put
  put_sound index hash n m b a old h = elim (Bool-cases (n == m)) [
    | inl e ↦ ap answer (sym ((==_iff n m).0 e)) ∙ a
    | inr e ↦ old (ground (arith, h, e))
  ]

  store-IsRight :
      (hash n : ℕ) (right : Bool) (result : Bool × Index)
      → answer n ≡ right
      → IsRight hash right result
      → IsRight hash right (store n hash result)
  unfolding store
  store-IsRight hash n right (true, index) a r = record {
    retval = r.retval;
    sound = record {
      yes = λ m h. put_sound index.yes hash n m true (a ∙ sym r.retval) (r.sound.yes m) h;
      no = r.sound.no;
    };
  }
  store-IsRight hash n right (false, index) a r = record {
    retval = r.retval;
    sound = record {
      yes = r.sound.yes;
      no = λ m h. put_sound index.no hash n m false (a ∙ sym r.retval) (r.sound.no m) h;
    };
  }

  indexed-IsRight :
      (bypass : Bool) (hash n : ℕ) (right : Bool) (index : Index) (result : Bool × Index)
      → answer n ≡ right
      → IsSound hash index
      → IsRight hash right result
      → IsRight hash right (indexed bypass n hash index result)
  unfolding indexed
  indexed-IsRight bypass hash n right index result a s r =
      if_elim (IsRight hash right) (not bypass && index.no n hash) (false, index) _
        (λ h. record { retval = sym (s.no n (ground (arith, h))) ∙ a; sound = s })
        (λ _.
          if_elim (IsRight hash right) (not bypass && index.yes n hash) (true, index) _
            (λ h. record { retval = sym (s.yes n (ground (arith, h))) ∙ a; sound = s })
            (λ _. store-IsRight hash n right result a r))

  -- One operator: from the runs in which the set behind it is asked, and is not.
  operator-IsRight :
      (op : SetOp) (hit right : Bool) (state : Bool × Bool) (rest : Others) (hash : ℕ)
      (asked on : Bool × Index)
      → hit ≡ right
      → is_or op ≡ false
      → IsRight hash (loop_sets tags (apply op hit state) rest) asked
      → IsRight hash (loop_sets tags state rest) on
      → IsRight hash
          (loop_sets tags (operate op right state) rest)
          (if asks op state.0 then asked else on)
  operator-IsRight op hit right (m, f) rest hash asked on e o a n =
      if_elim (IsRight hash (loop_sets tags (operate op right (m, f)) rest)) (asks op m) asked on
        (λ h.
          subst (λ (st : Bool × Bool). IsRight hash (loop_sets tags st rest) asked)
            (apply-eq-operate op hit right m f e o h) a)
        (λ h.
          subst (λ (st : Bool × Bool). IsRight hash (loop_sets tags st rest) on)
            (operate_unasked op right m f o h) n)

  module _ (bypass : Bool) (hash : ℕ) where
    mutual
      unfolding match_indexed match_others plain plain_others does_set_match loop_sets

      match_lem :
          (s : NumberedSet) (index : Index)
          → Numbered s
          → IsSound hash index
          → IsRight hash (does_set_match tags (plain s)) (match_indexed tags bypass hash s index)
      match_lem (any n) index a s =
          indexed-IsRight bypass hash n true index (true, index) a s
            (record { retval = refl; sound = s })
      match_lem (tags_of n list) index a s =
          indexed-IsRight bypass hash n (tags list) index (tags list, index) a s
            (record { retval = refl; sound = s })
      match_lem (joined n a others) index (h, ha, ho) s =
          let first : IsRight hash (does_set_match tags (plain a))
              (match_indexed tags bypass hash a index) =
            match_lem a index ha s in
          indexed-IsRight bypass hash n (does_set_match tags (plain (joined n a others))) index _ h
            s
            (subst
              (λ (b : Bool). IsRight hash (loop_sets tags (b, false) (plain_others others)) (
                match_others tags bypass hash ((match_indexed tags bypass hash a index).0, false)
                  (match_indexed tags bypass hash a index).1 others))
              first.retval
              (others_lem ((match_indexed tags bypass hash a index).0, false)
                (match_indexed tags bypass hash a index).1 others ho first.sound))

      others_lem :
          (state : Bool × Bool) (index : Index) (others : NumberedOthers)
          → NumberedAll others
          → IsSound hash index
          → IsRight hash
              (loop_sets tags state (plain_others others))
              (match_others tags bypass hash state index others)
      others_lem (m, f) index end a s = record { retval = refl; sound = s }
      others_lem (true, f) index (more s_or b others) (hb, ho) s = record {
        retval = refl;
        sound = s;
      }
      others_lem (false, true) index (more s_or b others) (hb, ho) s = record {
        retval = refl;
        sound = s;
      }
      others_lem (false, false) index (more s_or b others) (hb, ho) s =
          let first : IsRight hash (does_set_match tags (plain b))
              (match_indexed tags bypass hash b index) =
            match_lem b index hb s in
          subst
            (λ (h : Bool). IsRight hash (loop_sets tags (h, false) (plain_others others)) (
              match_others tags bypass hash ((match_indexed tags bypass hash b index).0, false)
                (match_indexed tags bypass hash b index).1 others))
            first.retval
            (others_lem ((match_indexed tags bypass hash b index).0, false)
              (match_indexed tags bypass hash b index).1 others ho first.sound)
      others_lem (m, f) index (more s_plus b others) (hb, ho) s =
          let first : IsRight hash (does_set_match tags (plain b))
              (match_indexed tags bypass hash b index) =
            match_lem b index hb s in
          operator-IsRight s_plus _ _ (m, f) (plain_others others) hash _ _ first.retval refl
            (others_lem _ _ others ho first.sound) (others_lem (m, f) index others ho s)
      others_lem (m, f) index (more s_failfast b others) (hb, ho) s =
          let first : IsRight hash (does_set_match tags (plain b))
              (match_indexed tags bypass hash b index) =
            match_lem b index hb s in
          operator-IsRight s_failfast _ _ (m, f) (plain_others others) hash _ _ first.retval refl
            (others_lem _ _ others ho first.sound) (others_lem (m, f) index others ho s)
      others_lem (m, f) index (more s_minus b others) (hb, ho) s =
          let first : IsRight hash (does_set_match tags (plain b))
              (match_indexed tags bypass hash b index) =
            match_lem b index hb s in
          operator-IsRight s_minus _ _ (m, f) (plain_others others) hash _ _ first.retval refl
            (others_lem _ _ others ho first.sound) (others_lem (m, f) index others ho s)
      others_lem (m, f) index (more s_not b others) (hb, ho) s =
          let first : IsRight hash (does_set_match tags (plain b))
              (match_indexed tags bypass hash b index) =
            match_lem b index hb s in
          operator-IsRight s_not _ _ (m, f) (plain_others others) hash _ _ first.retval refl
            (others_lem _ _ others ho first.sound) (others_lem (m, f) index others ho s)

-- With indexes that say of this reading only what is so, whether they may be asked or not, the answer is that of the set operators
-- without any indexes, and the indexes that are left still say only what is so. Each set has a number of its own answer.
pub match_indexed_lem :
    (tags answer : ℕ → Bool) (bypass : Bool) (hash : ℕ) (s : NumberedSet) (index : Index)
    → Numbered tags answer s
    → IsSound tags answer hash index
    → ((match_indexed tags bypass hash s index).0 ≡ does_set_match tags (plain s))
      × IsSound tags answer hash (match_indexed tags bypass hash s index).1
match_indexed_lem tags answer bypass hash s index n i =
    let r : IsRight tags answer hash (does_set_match tags (plain s))
        (match_indexed tags bypass hash s index) =
      match_lem tags answer bypass hash s index n i in
    (r.retval, r.sound)
