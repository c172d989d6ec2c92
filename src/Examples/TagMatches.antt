-- ===== src/Examples/TagMatches.antt =====
-- Single tags matched with concrete readings.
use vislcg.Base.{
  ◌==◌, true, false, not, ◌&&◌, if◌then◌else◌, [], ◌∷◌, ◌≡◌, ◌≢◌, refl, arith, ◌⊎◌, inl, inr, ap,
  ◌∙◌, sym, some,
}
use vislcg.Hash.{hash_value}
use vislcg.SortedVector.{elem}
use vislcg.Numeric.{op_nop}
use vislcg.Tagging.{Reading}
use vislcg.Tagging.Kept.{add_tag_to_reading-IsTagged}
use vislcg.TagMatch.{Tag, World, Memory, does_tag_match_reading, does_regexp_match_reading}
use vislcg.TagMatch.Plain.{looked_for, plain-elem}
use vislcg.TagMatch.Remembered.{
  Question, pair, line, key, KeysDiffer, IsSound, first_found, does_regexp_match_reading_lem,
}
use vislcg.Examples.Tagged.{env, start, one_tag, blank, blank-IsReading, added_one}

abbrev plain_tag : Tag
plain_tag = record {
  hash = 6;
  plain_hash = 6;
  has_regexp = false;
  is_special = false;
  is_failfast = false;
  is_set = false;
  is_varstring = false;
  is_meta = false;
  is_regexp_line = false;
  is_case_insensitive = false;
  is_regexp_any = false;
  is_baseform = false;
  is_wordform = false;
  is_numerical = false;
  is_variable = false;
  is_par_left = false;
  is_par_right = false;
  is_encl = false;
  is_target = false;
  is_mark = false;
  is_attachto = false;
  is_same_basic = false;
  numerical = record { comparison_op = op_nop; comparison_val = 0; comparison_hash = 0; hash = 6 };
}

abbrev world : World
world = record {
  finds = λ tag test. test == 7;
  finds_line = λ tag text. false;
  finds_text = λ tag. false;
  group_count = λ tag. 0;
  same_text = λ tag test. false;
  is_form = λ tag. false;
  set_matches = λ tag m. (false, m);
  generate = λ tag. tag;
  tag_any = 1;
  wordform = 2;
  has_text = false;
  has_variable = λ n. false;
  at_par_left = false;
  par_left_tag = 0;
  at_par_right = false;
  par_right_tag = 0;
  has_enclosed = false;
  is_target = false;
  is_mark = false;
  is_attach_to = false;
  same_basic = 0;
  capturing = false;
  limits = record { numeric_min = 0; numeric_max = 9; ordered = omega arith };
}

abbrev memory : Memory
memory = record {
  regexp_yes = λ k. false;
  regexp_no = λ k. false;
  icase_yes = λ k. false;
  icase_no = λ k. false;
  groups = 0;
  last_baseform = 0;
  last_wordform = 0;
  last_textual = 0;
  numbers = record { readings = []; num_min = []; num_max = []; current = true };
}

plain-elem_example :
    does_tag_match_reading 1 world false false plain_tag one_tag.reading [] memory
    ≡ some (
      (if elem (looked_for plain_tag) one_tag.reading.tags_list
            && not (env.tag (looked_for plain_tag)).is_special
          then plain_tag.hash
          else 0),
      memory,
    )
plain-elem_example =
    plain-elem env 0 world false false plain_tag one_tag.reading [] memory
      (add_tag_to_reading-IsTagged env false 6 start one_tag blank-IsReading blank-IsReading
        added_one).added
      refl

abbrev with_text : Reading
with_text = record blank { tags_textual = 7 ∷ []; tags_string_hash = 9 }

abbrev regexp_tag : Tag
regexp_tag = record plain_tag { hash = 5; has_regexp = true; is_special = true }

-- The two questions of that tag and that reading.
abbrev Asked : Question → Type 0
Asked q = (q ≡ pair 5 7) ⊎ (q ≡ line 5 9)

keys_apart : hash_value 5 7 ≢ hash_value 9 5
unfolding hash_value
keys_apart e = absurd (omega (arith, e))

Asked-KeysDiffer : KeysDiffer Asked
Asked-KeysDiffer q p (inl a) (inl b) k = a ∙ sym b
Asked-KeysDiffer q p (inr a) (inr b) k = a ∙ sym b
Asked-KeysDiffer q p (inl a) (inr b) k = absurd (keys_apart (sym (ap key a) ∙ k ∙ ap key b))
Asked-KeysDiffer q p (inr a) (inl b) k = absurd (keys_apart (sym (sym (ap key a) ∙ k ∙ ap key b)))

does_regexp_match_reading_lem_example :
    ((does_regexp_match_reading world false regexp_tag with_text memory).0 ≡ (
      if regexp_tag.is_regexp_line
      then if world.finds_line regexp_tag.hash with_text.tags_string_hash
        then with_text.tags_string_hash
        else 0
      else first_found world regexp_tag.hash with_text.tags_textual))
    × IsSound world Asked (does_regexp_match_reading world false regexp_tag with_text memory).1
does_regexp_match_reading_lem_example =
    does_regexp_match_reading_lem world Asked false regexp_tag with_text memory Asked-KeysDiffer
      (inr refl) (inl refl, tt) (record { yes = λ q a e. absurd (cc); no = λ q a e. absurd (cc) })
