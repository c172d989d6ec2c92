-- ===== src/Examples/Tagged.antt =====
-- Adding and deleting tags.
use vislcg.Base.{◌==◌, if◌then◌else◌, ℕ, ◌≡◌, refl, true, false, not, none, some, [], ◌∷◌}
use vislcg.Tagging.{
  bloom_clear, TagInfo, Environment, Reading, State, add_hash, add_string, textual, add_textual,
  add_numerical, add_baseform, add_plain, rehash_if, first_char, add_mapping, mark_cohort,
  add_dependency, add_relation_tag, add_to_bag, add_rest, finish_adding, then_finish, generated,
  add_tag_to_reading,
}
use vislcg.Tagging.Derived.{IsReading}
use vislcg.Tagging.Kept.{IsTagged, add_tag_to_reading-IsTagged}
use vislcg.Tagging.Mapped.{is_refused, add_tag_to_reading-refused}
use vislcg.Binary.Fields.{is_some}

abbrev plain_tag : TagInfo
plain_tag = record {
  text = 78 ∷ [];
  is_varstring = false;
  is_mapping = false;
  is_textual = false;
  is_wordform = false;
  is_baseform = false;
  is_numerical = false;
  is_dependency = false;
  is_relation = false;
  is_special = false;
  comparison_hash = 0;
  dep_self = 0;
  dep_parent = 0;
}

-- The tag 6 is a baseform, the tag 9 a mapping tag.
abbrev tag_of : ℕ → TagInfo
tag_of h =
    if h == 6
    then record plain_tag { is_baseform = true }
    else if h == 9
    then record plain_tag { is_mapping = true }
    else plain_tag

abbrev pub env : Environment
env = record {
  tag = tag_of;
  generate = λ h. h;
  sets_by_tag = λ h. none;
  is_left = λ h. false;
  is_right = λ h. false;
  mapping_prefix = 64;
  has_dep = false;
  has_relations = false;
  has_bag_of_tags = true;
  ordered = true;
}

abbrev pub blank : Reading
blank = record {
  noprint = false;
  baseform = 0;
  hash = 0;
  hash_plain = 0;
  tags_bloom = bloom_clear;
  tags_plain_bloom = bloom_clear;
  tags_textual_bloom = bloom_clear;
  mapping = none;
  next = none;
  tags_list = [];
  tags = [];
  tags_plain = [];
  tags_textual = [];
  tags_numerical = [];
  tags_string = [];
  tags_string_hash = 0;
}

pub blank-IsReading : IsReading env blank
blank-IsReading = record {
  listed = refl;
  tags = record { sorted = tt; members = λ q. refl };
  plain = record { sorted = tt; members = λ q. refl };
  textuals = record { sorted = tt; members = λ q. refl };
  numericals = record { sorted = tt; members = λ q. refl };
  tags_covered = λ q e. cc;
  plain_covered = λ q e. cc;
  texts_covered = λ q e. cc;
}

abbrev pub start : State
start = record {
  reading = blank;
  possible_sets = λ k. false;
  is_pleft = 0;
  is_pright = 0;
  num_current = true;
  dep_done = false;
  related = false;
  global_number = 1;
  dep_self = 0;
  dep_parent = 0;
  relations_input = [];
  relation_map = [];
  bag_of_tags = blank;
  has_dep = false;
  has_relations = false;
}

-- The state after the baseform 6.
abbrev pub one_tag : State
one_tag = finish_adding env false 6 start (add_string env 6 (add_hash 6 blank))

pub added_one : add_tag_to_reading env false 6 start ≡ some one_tag
unfolding add_tag_to_reading generated then_finish add_mapping first_char
added_one = refl

add_tag_to_reading-IsTagged_example : IsTagged env (generated env 6) start one_tag
add_tag_to_reading-IsTagged_example =
    add_tag_to_reading-IsTagged env false 6 start one_tag blank-IsReading blank-IsReading added_one

-- The reading has its baseform, and the bag of tags has not got it.
bag_without_baseform : one_tag.reading.baseform ≡ 6 × one_tag.bag_of_tags.baseform ≡ 0
unfolding finish_adding add_rest add_dependency add_relation_tag mark_cohort add_string add_hash
    add_textual add_numerical add_baseform add_plain rehash_if add_to_bag textual
bag_without_baseform = (refl, refl)

add_tag_to_reading-refused_example :
    is_some (add_tag_to_reading env false 9 start)
    ≡ not (is_refused env (generated env 9) start.reading)
add_tag_to_reading-refused_example = add_tag_to_reading-refused env false 9 start
