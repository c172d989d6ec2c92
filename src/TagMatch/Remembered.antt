-- ===== src/TagMatch/Remembered.antt =====
-- The indexes of regular expressions and of texts without case do not change an answer.
use vislcg.Base.{
  ℕ, ltb, ◌==◌, Bool, true, false, not, ◌&&◌, if◌then◌else◌, List, [], ◌∷◌, ◌≡◌, refl, arith,
  Bool-cases, inl, inr, ap, ◌∙◌, sym, ==_iff, if_elim,
}
use vislcg.Hash.{hash_value}
use vislcg.Tagging.{Reading}
use vislcg.TagMatch.{
  Tag, World, Memory, put, found_regexp, ask_regexp, does_tag_match_regexp, does_regexp_match_line,
  first_match, does_regexp_match_reading,
}

-- What an expression or a text is compared with: the text of another tag, or a reading's line.
pub data Question : Type 0 where
  pair : ℕ → ℕ → Question
  line : ℕ → ℕ → Question

-- The key of a question in the indexes.
abbrev pub key : Question → ℕ
key (pair tag test) = hash_value tag test
key (line tag text) = hash_value text tag

abbrev pub regexp_answer : World → Question → Bool
regexp_answer w (pair tag test) = w.finds tag test && not (test == 0)
regexp_answer w (line tag text) = w.finds_line tag text && not (text == 0)

-- Among the questions that come up no two have one key.
abbrev pub KeysDiffer : (Question → Type 0) → Type 0
KeysDiffer Asked = (q p : Question) → Asked q → Asked p → key q ≡ key p → q ≡ p

not_found : (found : Bool) (match : ℕ) → found ≡ false → 0 ≡ (if found then match else 0)
not_found found match e = ground arith

was_found : (found : Bool) (match : ℕ) → found ≡ true → match ≡ (if found then match else 0)
was_found found match e = ground arith

nonzero_if :
    (found : Bool) (match : ℕ)
    → (if found && not (match == 0) then match else 0) ≡ (if found then match else 0)
nonzero_if found match = ground arith

-- The first text in which the expression of a tag is found, or 0.
unfoldable pub first_found : World → ℕ → List ℕ → ℕ
first_found w tag [] = 0
first_found w tag (test ∷ tests) =
    let found = if w.finds tag test then test else 0 in
    let further = first_found w tag tests in if found == 0 then further else found

module _ (w : World) (Asked : Question → Type 0) where
  -- What the indexes of expressions say of the questions that come up is so.
  pub record IsSound (m : Memory) : Type 0 where
    pub yes : (q : Question) → Asked q → m.regexp_yes (key q) ≡ true → regexp_answer w q ≡ true
    pub no : (q : Question) → Asked q → m.regexp_no (key q) ≡ true → regexp_answer w q ≡ false

  pub record IsRight (right : ℕ) (result : ℕ × Memory) : Type 0 where
    pub match : result.0 ≡ right
    pub sound : IsSound result.1

  put_right :
      (index : ℕ → Bool) (q p : Question) (b : Bool)
      → KeysDiffer Asked
      → Asked q
      → Asked p
      → regexp_answer w q ≡ b
      → (index (key p) ≡ true → regexp_answer w p ≡ b)
      → put index (key q) (key p) ≡ true
      → regexp_answer w p ≡ b
  put_right index q p b d aq ap' e old h = elim (Bool-cases (key q == key p)) [
    | inl same ↦ ap (regexp_answer w) (sym (d q p aq ap' ((==_iff (key q) (key p)).0 same))) ∙ e
    | inr other ↦ old (ground (arith, h, other))
  ]

  found-IsSound :
      (tag : ℕ) (q : Question) (m : Memory)
      → KeysDiffer Asked
      → Asked q
      → regexp_answer w q ≡ true
      → IsSound m
      → IsSound (found_regexp w tag (key q) m)
  unfolding found_regexp
  found-IsSound tag q m d a e s =
      if_elim IsSound (ltb 0 (w.group_count tag) && w.capturing) _ _
        (λ h. record { yes = s.yes; no = s.no })
        (λ h. record {
          yes = λ p ap' k. put_right m.regexp_yes q p true d a ap' e (s.yes p ap') k;
          no = s.no;
        })

  asked_new :
      (tag : ℕ) (q : Question) (found : Bool) (match : ℕ) (m : Memory)
      → KeysDiffer Asked
      → Asked q
      → regexp_answer w q ≡ found
      → IsSound m
      → IsRight (if found then match else 0) (
          if found
          then (match, found_regexp w tag (key q) m)
          else (0, record m { regexp_no = put m.regexp_no (key q) }))
  asked_new tag q true match m d a e s = record {
    match = refl;
    sound = found-IsSound tag q m d a e s;
  }
  asked_new tag q false match m d a e s = record {
    match = refl;
    sound = record {
      yes = s.yes;
      no = λ p ap' k. put_right m.regexp_no q p false d a ap' e (s.no p ap') k;
    };
  }

  ask-IsRight :
      (bypass : Bool) (tag : ℕ) (q : Question) (found : Bool) (match : ℕ) (m : Memory)
      → KeysDiffer Asked
      → Asked q
      → regexp_answer w q ≡ (found && not (match == 0))
      → IsSound m
      → IsRight (if found then match else 0) (ask_regexp w bypass tag (key q) found match m)
  unfolding ask_regexp
  ask-IsRight bypass tag q found match m d a e s = record {
    match = right.match ∙ nonzero_if found match;
    sound = right.sound;
  }
    where
      real : Bool
      real = found && not (match == 0)

      right :
          IsRight
            (if found && not (match == 0) then match else 0)
            (ask_regexp w bypass tag (key q) found match m)
      right =
          if_elim (IsRight (if real then match else 0)) (not bypass && m.regexp_no (key q)) (0, m) _
            (λ h. record {
              match = not_found real match (sym e ∙ s.no q a (ground (arith, h)));
              sound = s;
            })
            (λ _.
              if_elim (IsRight (if real then match else 0)) (not bypass && m.regexp_yes (key q))
                (match, m) _
                (λ h. record {
                  match = was_found real match (sym e ∙ s.yes q a (ground (arith, h)));
                  sound = s;
                })
                (λ _. asked_new tag q real match m d a e s))

  -- The first of some results that is not 0.
  abbrev pub AllAsked : ℕ → List ℕ → Type 0
  AllAsked tag [] = Unit {0}
  AllAsked tag (test ∷ tests) = Asked (pair tag test) × AllAsked tag tests

  tag-IsRight :
      (bypass : Bool) (t : Tag) (test : ℕ) (m : Memory)
      → KeysDiffer Asked
      → Asked (pair t.hash test)
      → IsSound m
      → IsRight (if w.finds t.hash test then test else 0) (does_tag_match_regexp w bypass t test m)
  unfolding does_tag_match_regexp
  tag-IsRight bypass t test m d a s =
      ask-IsRight bypass t.hash (pair t.hash test) (w.finds t.hash test) test m d a refl s

  line-IsRight :
      (bypass : Bool) (t : Tag) (r : Reading) (m : Memory)
      → KeysDiffer Asked
      → Asked (line t.hash r.tags_string_hash)
      → IsSound m
      → IsRight
          (if w.finds_line t.hash r.tags_string_hash then r.tags_string_hash else 0)
          (does_regexp_match_line w bypass t r m)
  unfolding does_regexp_match_line
  line-IsRight bypass t r m d a s =
      ask-IsRight bypass t.hash (line t.hash r.tags_string_hash)
        (w.finds_line t.hash r.tags_string_hash) r.tags_string_hash m d a refl s

  -- One result, or if it is 0 another.
  or_else :
      (found rest : ℕ) (x y : ℕ × Memory)
      → IsRight found x
      → IsRight rest y
      → IsRight (if found == 0 then rest else found) (if x.0 == 0 then y else x)
  or_else found rest x y a b =
      if_elim (IsRight (if found == 0 then rest else found)) (x.0 == 0) y x
        (λ h. record { match = ground (arith, h, a.match, b.match); sound = b.sound })
        (λ h. record { match = ground (arith, h, a.match); sound = a.sound })

  first-IsRight :
      (bypass : Bool) (t : Tag) (tests : List ℕ) (m : Memory)
      → KeysDiffer Asked
      → AllAsked t.hash tests
      → IsSound m
      → IsRight
          (first_found w t.hash tests)
          (first_match (does_tag_match_regexp w bypass t) tests m)
  unfolding first_match first_found
  first-IsRight bypass t [] m d a s = record { match = refl; sound = s }
  first-IsRight bypass t (test ∷ tests) m d a s =
      let one : IsRight (if w.finds t.hash test then test else 0)
          (does_tag_match_regexp w bypass t test m) =
        tag-IsRight bypass t test m d a.0 s in
      or_else (if w.finds t.hash test then test else 0) (first_found w t.hash tests)
        (does_tag_match_regexp w bypass t test m) _ one
        (first-IsRight bypass t tests (does_tag_match_regexp w bypass t test m).1 d a.1 one.sound)

-- Whether the indexes may be asked or not, a tag's expression matches a reading by what ICU finds: in the reading's line, or in the
-- first of its textual tags in which it is found, whose hash is the answer; 0 where it is not found. The indexes that are left are
-- right again. This needs indexes that are right for the questions that come up, of which no two have one key.
pub does_regexp_match_reading_lem :
    (w : World) (Asked : Question → Type 0) (bypass : Bool) (t : Tag) (r : Reading) (m : Memory)
    → KeysDiffer Asked
    → Asked (line t.hash r.tags_string_hash)
    → AllAsked w Asked t.hash r.tags_textual
    → IsSound w Asked m
    → ((does_regexp_match_reading w bypass t r m).0 ≡ (
        if t.is_regexp_line
        then if w.finds_line t.hash r.tags_string_hash then r.tags_string_hash else 0
        else first_found w t.hash r.tags_textual))
      × IsSound w Asked (does_regexp_match_reading w bypass t r m).1
unfolding does_regexp_match_reading
does_regexp_match_reading_lem w Asked bypass t r m d l a s =
    let out : IsRight w Asked
        (if t.is_regexp_line
          then if w.finds_line t.hash r.tags_string_hash then r.tags_string_hash else 0
          else first_found w t.hash r.tags_textual)
        (if t.is_regexp_line
          then does_regexp_match_line w bypass t r m
          else first_match (does_tag_match_regexp w bypass t) r.tags_textual m) =
      both t.is_regexp_line _ _ _ _ (line-IsRight w Asked bypass t r m d l s)
        (first-IsRight w Asked bypass t r.tags_textual m d a s) in
    (out.match, out.sound)
  where
    both :
        (b : Bool) (x y : ℕ) (p q : ℕ × Memory)
        → IsRight w Asked x p
        → IsRight w Asked y q
        → IsRight w Asked (if b then x else y) (if b then p else q)
    both true x y p q h k = h
    both false x y p q h k = k
