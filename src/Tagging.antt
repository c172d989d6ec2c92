-- ===== src/Tagging.antt =====
-- Adding a tag to a reading and deleting one: `addTagToReading` and `delTagFromReading` of src/GrammarApplicator_reflow.cpp,
-- `rehash` of src/Reading.cpp, and the filters of src/bloomish.hpp that a reading keeps of its tags. A tag is known by its hash.
pub mod Bloom
pub mod Derived
pub mod Stages
pub mod Kept
pub mod Mapped
use vislcg.Base.{
  ltb, leb, ◌==◌, if◌then◌else◌, ltb→lt, ltb→le, leb→le, leb→lt, ==_iff, Bool-cases, Option-cases,
  if_elim, length, rejoin, length-append, length-rejoin, ℕ, zero, suc, ◌+◌, ◌-◌, ◌*◌, ◌/◌, ◌%◌, ◌^◌,
  ◌≤◌, ◌<◌, min, max, ◌≡◌, refl, sym, ap, ◌∙◌, ◌≢◌, ◌↔◌, ◌⊎◌, inl, inr, Bool, true, false, not,
  ◌&&◌, ◌||◌, Option, none, some, List, [], ◌∷◌, ◌++◌, map, arith, word,
}
use vislcg.Dependency.{dep_no_parent}
use vislcg.Hash.{hash_text, hash_value}
use vislcg.SortedVector
use vislcg.SortedVector.{elem}
use vislcg.Binary.Fields.{bit, is_some}

-- `bloomish<uint32_t>`: four words, each as its bits.
pub record Bloomish : Type 0 where
  pub value3 : ℕ → Bool
  pub value2 : ℕ → Bool
  pub value1 : ℕ → Bool
  pub value0 : ℕ → Bool

unfoldable pub bloom_clear : Bloomish
bloom_clear = record {
  value3 = λ k. false;
  value2 = λ k. false;
  value1 = λ k. false;
  value0 = λ k. false;
}

-- `value |= v`.
unfoldable pub join_bits : (ℕ → Bool) → ℕ → ℕ → Bool
join_bits value v k = value k || bit v k

unfoldable pub bloom_insert : Bloomish → ℕ → Bloomish
bloom_insert b v =
    if bit v 2
    then record b { value3 = join_bits b.value3 v }
    else if bit v 1
    then record b { value2 = join_bits b.value2 v }
    else if bit v 0
    then record b { value1 = join_bits b.value1 v }
    else record b { value0 = join_bits b.value0 v }

-- `(value & v) == v` for the bits below the number.
unfoldable pub has_bits : ℕ → (ℕ → Bool) → ℕ → Bool
has_bits zero value v = true
has_bits (suc k) value v = (not (bit v k) || value k) && has_bits k value v

unfoldable pub bloom_matches : Bloomish → ℕ → Bool
bloom_matches b v =
    if bit v 2
    then has_bits 32 b.value3 v
    else if bit v 1
    then has_bits 32 b.value2 v
    else if bit v 0
    then has_bits 32 b.value1 v
    else has_bits 32 b.value0 v

-- What a tag of the grammar says of itself: its text, whether its type has the bits asked for, and its numbers.
pub record TagInfo : Type 0 where
  pub text : List ℕ
  pub is_varstring : Bool
  pub is_mapping : Bool
  pub is_textual : Bool
  pub is_wordform : Bool
  pub is_baseform : Bool
  pub is_numerical : Bool
  pub is_dependency : Bool
  pub is_relation : Bool
  pub is_special : Bool
  pub comparison_hash : ℕ
  pub dep_self : ℕ
  pub dep_parent : ℕ

-- The grammar and the applicator, as far as they do not change: `single_tags`, `generateVarstringTag`, `sets_by_tag`, the keys of
-- `parentheses` and `parentheses_reverse`, and settings.
pub record Environment : Type 0 where
  pub tag : ℕ → TagInfo
  pub generate : ℕ → ℕ
  pub sets_by_tag : ℕ → Option (ℕ → Bool)
  pub is_left : ℕ → Bool
  pub is_right : ℕ → Bool
  pub mapping_prefix : ℕ
  pub has_dep : Bool
  pub has_relations : Bool
  pub has_bag_of_tags : Bool
  pub ordered : Bool

-- A reading; `next` is the hash of the sub-reading, as its own `rehash` leaves it.
pub record Reading : Type 0 where
  pub noprint : Bool
  pub baseform : ℕ
  pub hash : ℕ
  pub hash_plain : ℕ
  pub tags_bloom : Bloomish
  pub tags_plain_bloom : Bloomish
  pub tags_textual_bloom : Bloomish
  pub mapping : Option ℕ
  pub next : Option ℕ
  pub tags_list : List ℕ
  pub tags : List ℕ
  pub tags_plain : List ℕ
  pub tags_textual : List ℕ
  pub tags_numerical : List ℕ
  pub tags_string : List ℕ
  pub tags_string_hash : ℕ

pub record Link : Type 0 where
  pub relation : ℕ
  pub cohort : ℕ

-- The cohort of the reading, the window's bag of tags, and the applicator's flags and relation map, as far as a tag changes them.
pub record State : Type 0 where
  pub reading : Reading
  pub possible_sets : ℕ → Bool
  pub is_pleft : ℕ
  pub is_pright : ℕ
  pub num_current : Bool
  pub dep_done : Bool
  pub related : Bool
  pub global_number : ℕ
  pub dep_self : ℕ
  pub dep_parent : ℕ
  pub relations_input : List Link
  pub relation_map : List Link
  pub bag_of_tags : Reading
  pub has_dep : Bool
  pub has_relations : Bool

unfoldable pub insert_hash : List ℕ → ℕ → List ℕ
insert_hash hashes h = (SortedVector.insert hashes h).0

unfoldable pub erase_hash : List ℕ → ℕ → List ℕ
erase_hash hashes h = (SortedVector.erase hashes h).0

-- `erase` of src/inlines.hpp: every occurrence.
unfoldable pub erase_all : List ℕ → ℕ → List ℕ
erase_all [] h = []
erase_all (x ∷ xs) h = let later = erase_all xs h in if x == h then later else x ∷ later

unfoldable pub is_mapping_of : Option ℕ → ℕ → Bool
is_mapping_of none h = false
is_mapping_of (some m) h = m == h

unfoldable pub hash_tags : Option ℕ → List ℕ → ℕ → ℕ
hash_tags mapping [] hash = hash
hash_tags mapping (t ∷ ts) hash =
    hash_tags mapping ts (if is_mapping_of mapping t then hash else hash_value t hash)

unfoldable pub hash_with : Option ℕ → ℕ → ℕ
hash_with none hash = hash
hash_with (some h) hash = hash_value h hash

-- `Reading::rehash`.
unfoldable pub rehash : Reading → Reading
rehash r =
    let plain = hash_tags r.mapping r.tags 0 in
    record r { hash_plain = plain; hash = hash_with r.next (hash_with r.mapping plain) }

unfoldable pub add_hash : ℕ → Reading → Reading
add_hash h r = record r {
  tags = insert_hash r.tags h;
  tags_list = r.tags_list ++ h ∷ [];
  tags_bloom = bloom_insert r.tags_bloom h;
}

unfoldable pub add_string : Environment → ℕ → Reading → Reading
add_string env h r =
    let string =
      (if length r.tags_string == 0 then [] else r.tags_string ++ 32 ∷ []) ++ (env.tag h).text in
    if env.ordered
    then record r { tags_string = string; tags_string_hash = hash_text string 0 }
    else r

unfoldable pub textual : TagInfo → Bool
textual t = t.is_textual || t.is_wordform || t.is_baseform

unfoldable pub add_textual : Environment → ℕ → Reading → Reading
add_textual env h r =
    if textual (env.tag h)
    then record r {
      tags_textual = insert_hash r.tags_textual h;
      tags_textual_bloom = bloom_insert r.tags_textual_bloom h;
    }
    else r

unfoldable pub add_numerical : Environment → ℕ → Reading → Reading
add_numerical env h r =
    if (env.tag h).is_numerical
    then record r { tags_numerical = insert_hash r.tags_numerical h }
    else r

-- `unset` says whether the reading that the code asks has no baseform.
unfoldable pub add_baseform : Environment → Bool → ℕ → Reading → Reading
add_baseform env unset h r =
    if unset && (env.tag h).is_baseform then record r { baseform = h } else r

unfoldable pub add_plain : Environment → ℕ → Reading → Reading
add_plain env h r = if (env.tag h).is_special then r else record r {
  tags_plain = insert_hash r.tags_plain h;
  tags_plain_bloom = bloom_insert r.tags_plain_bloom h;
}

unfoldable pub rehash_if : Bool → Reading → Reading
rehash_if b r = if b then rehash r else r

unfoldable pub first_char : List ℕ → ℕ
first_char [] = 0
first_char (c ∷ cs) = c

-- A second mapping tag ends the program.
unfoldable pub add_mapping : Environment → ℕ → Reading → Option Reading
add_mapping env h r =
    if (env.tag h).is_mapping || first_char (env.tag h).text == env.mapping_prefix
    then if is_some r.mapping && not (is_mapping_of r.mapping h)
      then none
      else some (record r { mapping = some h })
    else some r

unfoldable pub join_sets : (ℕ → Bool) → Option (ℕ → Bool) → ℕ → Bool
join_sets sets none k = sets k
join_sets sets (some more) k = sets k || more k

-- What the tag changes in the cohort before the reading's own sets are brought up to date.
unfoldable pub mark_cohort : Environment → ℕ → State → State
mark_cohort env h s = record s {
  possible_sets = join_sets s.possible_sets (env.sets_by_tag h);
  is_pleft = if env.is_left h then h else s.is_pleft;
  is_pright = if env.is_right h then h else s.is_pright;
  num_current = if (env.tag h).is_numerical then false else s.num_current;
}

unfoldable pub add_dependency : Environment → ℕ → State → State
add_dependency env h s =
    let t = env.tag h in
    if env.has_dep && t.is_dependency && not s.dep_done
    then record s {
      dep_self = t.dep_self;
      dep_parent = if t.dep_parent == t.dep_self then dep_no_parent else t.dep_parent;
      has_dep = true;
    }
    else s

-- `setRelated` also lets each reading of the cohort be printed, of which this is one.
unfoldable pub add_relation_tag : Environment → ℕ → State → State
add_relation_tag env h s =
    let t = env.tag h in
    if env.has_relations && t.is_relation
    then record s {
      relations_input =
          if not (t.dep_parent == 0) && not (t.comparison_hash == 0)
          then record { relation = t.comparison_hash; cohort = t.dep_parent } ∷ s.relations_input
          else s.relations_input;
      relation_map =
          if t.dep_self == 0
          then s.relation_map
          else record { relation = t.dep_self; cohort = s.global_number } ∷ s.relation_map;
      has_relations = true;
      related = true;
      reading = record s.reading { noprint = false };
    }
    else s

unfoldable pub add_to_bag : Environment → Bool → Bool → ℕ → Reading → Reading
add_to_bag env again unset h bag =
    if env.has_bag_of_tags
    then rehash_if again (
        add_plain env h
          (add_baseform env unset h (add_numerical env h (add_textual env h (add_hash h bag)))))
    else bag

-- What is left to do with the reading when its mapping has been settled.
unfoldable pub add_rest : Environment → Bool → ℕ → Reading → Reading
add_rest env again h r = rehash_if again (
    add_plain env h
      (add_baseform env (r.baseform == 0) h (add_numerical env h (add_textual env h r))))

-- The bag takes the tag for its baseform where the reading has none, and is asked after the reading has been given one.
unfoldable pub finish_adding : Environment → Bool → ℕ → State → Reading → State
finish_adding env again h s mapped =
    let r = add_rest env again h mapped in
    let s' =
      add_relation_tag env h
        (add_dependency env h (record (mark_cohort env h s) { reading = r })) in
    record s' { bag_of_tags = add_to_bag env again (r.baseform == 0) h s'.bag_of_tags }

unfoldable pub then_finish : Environment → Bool → ℕ → State → Option Reading → Option State
then_finish env again h s none = none
then_finish env again h s (some r) = some (finish_adding env again h s r)

unfoldable pub generated : Environment → ℕ → ℕ
generated env h = if (env.tag h).is_varstring then env.generate h else h

-- `addTagToReading`.
unfoldable pub add_tag_to_reading : Environment → Bool → ℕ → State → Option State
add_tag_to_reading env again tag s =
    let h = generated env tag in
    then_finish env again h s (add_mapping env h (add_string env h (add_hash h s.reading)))

-- `delTagFromReading`.
unfoldable pub del_tag : ℕ → Reading → Reading
del_tag h r = rehash (record r {
  tags_list = erase_all r.tags_list h;
  tags = erase_hash r.tags h;
  tags_textual = erase_hash r.tags_textual h;
  tags_numerical = erase_hash r.tags_numerical h;
  tags_plain = erase_hash r.tags_plain h;
  mapping = if is_mapping_of r.mapping h then none else r.mapping;
  baseform = if h == r.baseform then 0 else r.baseform;
})

unfoldable pub del_tag_from_reading : ℕ → State → State
del_tag_from_reading h s = record s { reading = del_tag h s.reading; num_current = false }
