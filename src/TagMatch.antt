-- ===== src/TagMatch.antt =====
-- Whether a tag of the grammar matches a reading: `doesTagMatchReading` of src/GrammarApplicator_matchSet.cpp, with the functions that
-- match regular expressions and texts without case, and their indexes of earlier answers.
pub mod Remembered
pub mod Plain
use vislcg.Base.{
  ℕ, ◌+◌, ◌%◌, ltb, ◌==◌, Bool, true, false, not, ◌&&◌, ◌||◌, if◌then◌else◌, List, [], ◌∷◌, Option,
  some, none, zero, suc,
}
use vislcg.Hash.{hash_value}
use vislcg.SortedVector.{elem}
use vislcg.Tagging.{Reading, bloom_matches}
use vislcg.Numeric.{NumTag, NumCohort, Limits, match_numerical}

-- The tag, with the bits of its type.
pub record Tag : Type 0 where
  pub hash : ℕ
  pub plain_hash : ℕ
  pub has_regexp : Bool
  pub is_special : Bool
  pub is_failfast : Bool
  pub is_set : Bool
  pub is_varstring : Bool
  pub is_meta : Bool
  pub is_regexp_line : Bool
  pub is_case_insensitive : Bool
  pub is_regexp_any : Bool
  pub is_baseform : Bool
  pub is_wordform : Bool
  pub is_numerical : Bool
  pub is_variable : Bool
  pub is_par_left : Bool
  pub is_par_right : Bool
  pub is_encl : Bool
  pub is_target : Bool
  pub is_mark : Bool
  pub is_attachto : Bool
  pub is_same_basic : Bool
  pub numerical : NumTag

-- The indexes, `regexgrps.first`, what unification has seen, and the ranges of the cohort's numbers.
pub record Memory : Type 0 where
  pub regexp_yes : ℕ → Bool
  pub regexp_no : ℕ → Bool
  pub icase_yes : ℕ → Bool
  pub icase_no : ℕ → Bool
  pub groups : ℕ
  pub last_baseform : ℕ
  pub last_wordform : ℕ
  pub last_textual : ℕ
  pub numbers : NumCohort

-- What does not change: what ICU finds for the expression of a tag in the text of another, in a reading's line and in the text of the
-- cohort, how many groups the expression has, and which texts are one without case; the tags' types; the cohort's word form and place;
-- the variables; and what `doesSetMatchReading` and `generateVarstringTag` do.
pub record World : Type 0 where
  pub finds : ℕ → ℕ → Bool
  pub finds_line : ℕ → ℕ → Bool
  pub finds_text : ℕ → Bool
  pub group_count : ℕ → ℕ
  pub same_text : ℕ → ℕ → Bool
  pub is_form : ℕ → Bool
  pub set_matches : Tag → Memory → Bool × Memory
  pub generate : Tag → Tag
  pub tag_any : ℕ
  pub wordform : ℕ
  pub has_text : Bool
  pub has_variable : ℕ → Bool
  pub at_par_left : Bool
  pub par_left_tag : ℕ
  pub at_par_right : Bool
  pub par_right_tag : ℕ
  pub has_enclosed : Bool
  pub is_target : Bool
  pub is_mark : Bool
  pub is_attach_to : Bool
  pub same_basic : ℕ
  pub capturing : Bool
  pub limits : Limits

abbrev pub put : (ℕ → Bool) → ℕ → ℕ → Bool
put index key k = (key == k) || index k

-- An expression that has been found: its groups are taken down, or the answer is put in the index.
unfoldable pub found_regexp : World → ℕ → ℕ → Memory → Memory
found_regexp w tag key m =
    if ltb 0 (w.group_count tag) && w.capturing
    then record m { groups = (m.groups + w.group_count tag) % 256 }
    else record m { regexp_yes = put m.regexp_yes key }

-- An expression and its subject, by the key under which the indexes have the pair; `match` is the result when it is found.
unfoldable pub ask_regexp : World → Bool → ℕ → ℕ → Bool → ℕ → Memory → ℕ × Memory
ask_regexp w bypass tag key found match m =
    if not bypass && m.regexp_no key
    then (0, m)
    else if not bypass && m.regexp_yes key
    then (match, m)
    else if found && not (match == 0)
    then (match, found_regexp w tag key m)
    else (0, record m { regexp_no = put m.regexp_no key })

unfoldable pub does_tag_match_regexp : World → Bool → Tag → ℕ → Memory → ℕ × Memory
does_tag_match_regexp w bypass t test m =
    ask_regexp w bypass t.hash (hash_value t.hash test) (w.finds t.hash test) test m

unfoldable pub does_regexp_match_line : World → Bool → Tag → Reading → Memory → ℕ × Memory
does_regexp_match_line w bypass t r m =
    ask_regexp w bypass t.hash (hash_value r.tags_string_hash t.hash)
      (w.finds_line t.hash r.tags_string_hash) r.tags_string_hash m

unfoldable pub does_tag_match_icase : World → Bool → Tag → ℕ → Memory → ℕ × Memory
does_tag_match_icase w bypass t test m =
    let key = hash_value t.hash test in
    if not bypass && m.icase_no key
    then (0, m)
    else if not bypass && m.icase_yes key
    then (test, m)
    else if w.same_text t.hash test && not (test == 0)
    then (test, record m { icase_yes = put m.icase_yes key })
    else (0, record m { icase_no = put m.icase_no key })

-- The loops over `tags_textual`, which end at the first match.
unfoldable pub first_match : (ℕ → Memory → ℕ × Memory) → List ℕ → Memory → ℕ × Memory
first_match try [] m = (0, m)
first_match try (test ∷ tests) m =
    let one = try test m in
    let further = first_match try tests one.1 in if one.0 == 0 then further else one

unfoldable pub does_regexp_match_reading : World → Bool → Tag → Reading → Memory → ℕ × Memory
does_regexp_match_reading w bypass t r m =
    if t.is_regexp_line
    then does_regexp_match_line w bypass t r m
    else first_match (does_tag_match_regexp w bypass t) r.tags_textual m

-- What unification makes of a form: it has to be the one seen last, if there is one.
unfoldable pub unify : Bool → ℕ → ℕ → ℕ × ℕ
unify unif_mode last form =
    if not unif_mode
    then (form, last)
    else if last == 0
    then (form, form)
    else if last == form
    then (form, last)
    else (0, last)

unfoldable pub match_any : World → Bool → Tag → Reading → Memory → ℕ × Memory
unfolding unify first_match
match_any w unif_mode t r m =
    if t.is_baseform
    then (let u = unify unif_mode m.last_baseform r.baseform in
        (u.0, record m { last_baseform = u.1 }))
    else if t.is_wordform
    then (let u = unify unif_mode m.last_wordform w.wordform in
        (u.0, record m { last_wordform = u.1 }))
    else first_match
        (λ test m.
          let u = unify unif_mode m.last_textual test in
          if w.is_form test then (0, m) else (u.0, record m { last_textual = u.1 }))
        r.tags_textual m

abbrev pub any_if : World → Bool → ℕ
any_if w b = if b then w.tag_any else 0

-- A plain tag: the filter is asked first, but not for a fail-fast tag, which is looked for by its plain hash.
unfoldable pub match_plain_tag : Tag → Reading → ℕ
match_plain_tag t r =
    if t.is_failfast
    then (if elem t.plain_hash r.tags_plain then t.hash else 0)
    else if bloom_matches r.tags_plain_bloom t.hash
    then (if elem t.hash r.tags_plain then t.hash else 0)
    else 0

unfoldable pub match_numbers : World → Tag → List NumTag → Memory → ℕ × Memory
match_numbers w t tags_numerical m =
    let (numbers, match) = match_numerical w.limits m.numbers t.numerical tags_numerical in
    (match, record m { numbers = numbers })

-- The kinds of special tags from META on, in the order of the code.
unfoldable pub match_special :
    World → Bool → Bool → Tag → Reading → List NumTag → Memory → ℕ × Memory
unfolding does_regexp_match_reading match_any match_numbers does_tag_match_icase
match_special w unif_mode bypass t r tags_numerical m =
    if t.is_meta
    then (if t.has_regexp && w.has_text && w.finds_text t.hash && not (t.hash == 0)
        then (
          t.hash,
          (if ltb 0 (w.group_count t.hash) && w.capturing
              then record m { groups = (m.groups + w.group_count t.hash) % 256 }
              else m),
        )
        else (0, m))
    else if t.has_regexp
    then does_regexp_match_reading w bypass t r m
    else if t.is_case_insensitive
    then first_match (does_tag_match_icase w bypass t) r.tags_textual m
    else if t.is_regexp_any
    then match_any w unif_mode t r m
    else if t.is_numerical
    then match_numbers w t tags_numerical m
    else if t.is_variable
    then ((if w.has_variable t.numerical.comparison_hash then t.hash else 0), m)
    else if t.is_par_left
    then (any_if w (not (w.par_left_tag == 0) && w.at_par_left && elem w.par_left_tag r.tags), m)
    else if t.is_par_right
    then (any_if w (not (w.par_right_tag == 0) && w.at_par_right && elem w.par_right_tag r.tags), m)
    else if t.is_encl
    then ((if w.has_enclosed then 1 else 0), m)
    else if t.is_target
    then (any_if w w.is_target, m)
    else if t.is_mark
    then (any_if w w.is_mark, m)
    else if t.is_attachto
    then (any_if w w.is_attach_to, m)
    else if t.is_same_basic
    then (any_if w (r.hash_plain == w.same_basic), m)
    else (0, m)

-- A tag that is no varstring.
unfoldable pub match_fixed : World → Bool → Bool → Tag → Reading → List NumTag → Memory → ℕ × Memory
unfolding match_plain_tag match_special
match_fixed w unif_mode bypass t r tags_numerical m =
    if not t.is_special || t.is_failfast
    then (match_plain_tag t r, m)
    else if t.is_set
    then (let set = w.set_matches t m in ((if set.0 then 1 else 0), set.1))
    else match_special w unif_mode bypass t r tags_numerical m

-- A varstring is matched as the tag that it generates, which may be a varstring again; `none` where the given number of tags does not
-- suffice.
unfoldable pub does_tag_match_reading :
    ℕ → World → Bool → Bool → Tag → Reading → List NumTag → Memory → Option (ℕ × Memory)
unfolding match_fixed
does_tag_match_reading zero w unif_mode bypass t r tags_numerical m = none
does_tag_match_reading (suc tags) w unif_mode bypass t r tags_numerical m =
    let generated =
      does_tag_match_reading tags w unif_mode bypass (w.generate t) r tags_numerical m in
    if t.is_special && not t.is_failfast && not t.is_set && t.is_varstring
    then generated
    else some (match_fixed w unif_mode bypass t r tags_numerical m)
