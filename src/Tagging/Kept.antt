-- ===== src/Tagging/Kept.antt =====
-- What adding and deleting tags keeps of a reading.
use vislcg.Base.{
  ◌==◌, if_elim, ℕ, ◌≡◌, refl, sym, ◌∙◌, Bool, not, ◌&&◌, Option, none, some, List, [], ◌∷◌, ◌++◌,
}
use mathlib.Core.Path.{subst}
use vislcg.SortedVector.{elem}
use vislcg.Tagging.{
  Environment, Reading, State, rehash, add_hash, mark_cohort, add_dependency, add_relation_tag,
  add_to_bag, add_rest, finish_adding, then_finish, generated, add_tag_to_reading, del_tag,
}
use vislcg.Tagging.Derived.{Holds, IsReading, elem-erase_all, erase-IsDerived, erase-Covers}
use vislcg.Tagging.Stages.{
  other_fields, add_hash-Holds, add_string-Holds, all_vectors-Holds, HoldsSome,
  add_mapping-HoldsSome,
}

-- Where the list has become what the vectors hold, the reading is well formed again.
Holds-IsReading :
    (env : Environment) (l : List ℕ) (r : Reading) → Holds env l l l l r → IsReading env r
Holds-IsReading env l r k = subst (λ xs. Holds env xs xs xs xs r) (sym k.listed) k

module _ (env : Environment) (h : ℕ) where
  dependency-Holds :
      (l : List ℕ) (s : State)
      → Holds env l l l l s.reading
      → Holds env l l l l (add_dependency env h s).reading
  unfolding add_dependency
  dependency-Holds l s k =
      if_elim (λ (s : State). Holds env l l l l s.reading)
        (env.has_dep && (env.tag h).is_dependency && not s.dep_done) _ s (λ e. k) (λ e. k)

  relation-Holds :
      (l : List ℕ) (s : State)
      → Holds env l l l l s.reading
      → Holds env l l l l (add_relation_tag env h s).reading
  unfolding add_relation_tag
  relation-Holds l s k =
      if_elim (λ (s : State). Holds env l l l l s.reading)
        (env.has_relations && (env.tag h).is_relation) _ s
        (λ e. other_fields env h l l l l s.reading k) (λ e. k)

  dependency_bag : (s : State) → (add_dependency env h s).bag_of_tags ≡ s.bag_of_tags
  unfolding add_dependency
  dependency_bag s =
      if_elim (λ (r : State). r.bag_of_tags ≡ s.bag_of_tags)
        (env.has_dep && (env.tag h).is_dependency && not s.dep_done) _ s (λ e. refl) (λ e. refl)

  relation_bag : (s : State) → (add_relation_tag env h s).bag_of_tags ≡ s.bag_of_tags
  unfolding add_relation_tag
  relation_bag s =
      if_elim (λ (r : State). r.bag_of_tags ≡ s.bag_of_tags)
        (env.has_relations && (env.tag h).is_relation) _ s (λ e. refl) (λ e. refl)

  bag-IsReading :
      (again unset : Bool) (r : Reading)
      → IsReading env r
      → IsReading env (add_to_bag env again unset h r)
  unfolding add_to_bag
  bag-IsReading again unset r k =
      if_elim (λ (r : Reading). IsReading env r) env.has_bag_of_tags _ r
        (λ e. Holds-IsReading env _ _ (
          all_vectors-Holds env h again unset r.tags_list (add_hash h r)
            (add_hash-Holds env h r.tags_list r k)))
        (λ e. k)

-- What a tag that has been added leaves: the reading has got it last in its list, and both it and the bag of tags are well formed.
pub record IsTagged (env : Environment) (h : ℕ) (s s' : State) : Type 0 where
  pub listed : s'.reading.tags_list ≡ s.reading.tags_list ++ h ∷ []
  pub added : IsReading env s'.reading
  pub bagged : IsReading env s'.bag_of_tags

some_inj : {A : Type 0} {x y : A} → some x ≡ some y → x ≡ y
some_inj e = cc

finish_adding-IsTagged :
    (env : Environment) (again : Bool) (h : ℕ) (s : State) (r : Reading)
    → Holds env
        (s.reading.tags_list ++ h ∷ [])
        s.reading.tags_list
        s.reading.tags_list
        s.reading.tags_list
        r
    → IsReading env s.bag_of_tags
    → IsTagged env h s (finish_adding env again h s r)
unfolding finish_adding add_rest mark_cohort
finish_adding-IsTagged env again h s r k b =
    let l = s.reading.tags_list ++ h ∷ [] in
    let held = relation-Holds env h l _ (
      dependency-Holds env h l _
        (all_vectors-Holds env h again (r.baseform == 0) s.reading.tags_list r k)) in
    record {
      listed = held.listed;
      added = Holds-IsReading env l _ held;
      bagged =
          bag-IsReading env h again _ _
            (subst (IsReading env) (sym (relation_bag env h _ ∙ dependency_bag env h _)) b);
    }

then_finish-IsTagged :
    (env : Environment) (again : Bool) (h : ℕ) (s : State) (o : Option Reading)
    → HoldsSome env h
        (s.reading.tags_list ++ h ∷ [])
        s.reading.tags_list
        s.reading.tags_list
        s.reading.tags_list
        o
    → IsReading env s.bag_of_tags
    → {s' : State} → then_finish env again h s o ≡ some s'
    → IsTagged env h s s'
unfolding then_finish
then_finish-IsTagged env again h s none k b e = cc
then_finish-IsTagged env again h s (some r) k b e =
    subst (IsTagged env h s) (some_inj e) (finish_adding-IsTagged env again h s r k b)

-- Adding a tag to a reading keeps its vectors and filters in line with its list of tags, and those of the bag of tags, and puts the
-- tag, or the one generated from it, last in the list.
pub add_tag_to_reading-IsTagged :
    (env : Environment) (again : Bool) (tag : ℕ) (s s' : State)
    → IsReading env s.reading
    → IsReading env s.bag_of_tags
    → add_tag_to_reading env again tag s ≡ some s'
    → IsTagged env (generated env tag) s s'
unfolding add_tag_to_reading
add_tag_to_reading-IsTagged env again tag s s' k b e =
    let h = generated env tag in
    let l = s.reading.tags_list in
    then_finish-IsTagged env again h s _
      (add_mapping-HoldsSome env h (l ++ h ∷ []) l l l _
        (add_string-Holds env h (l ++ h ∷ []) l l l _ (add_hash-Holds env h l s.reading k)))
      b e

-- Deleting a tag from a reading takes every copy of it out of the list and keeps the vectors and filters in line with the list.
pub del_tag-IsReading :
    (env : Environment) (h : ℕ) (r : Reading)
    → IsReading env r
    → IsReading env (del_tag h r)
      × ((q : ℕ) → elem q (del_tag h r).tags_list ≡ (not (q == h) && elem q r.tags_list))
unfolding del_tag rehash
del_tag-IsReading env h r k = (
  record {
    listed = refl;
    tags = erase-IsDerived _ r.tags_list r.tags h k.tags;
    plain = erase-IsDerived _ r.tags_list r.tags_plain h k.plain;
    textuals = erase-IsDerived _ r.tags_list r.tags_textual h k.textuals;
    numericals = erase-IsDerived _ r.tags_list r.tags_numerical h k.numericals;
    tags_covered = erase-Covers r.tags_bloom r.tags h k.tags.sorted k.tags_covered;
    plain_covered = erase-Covers r.tags_plain_bloom r.tags_plain h k.plain.sorted k.plain_covered;
    texts_covered =
        erase-Covers r.tags_textual_bloom r.tags_textual h k.textuals.sorted k.texts_covered;
  },
  λ q. elem-erase_all q h r.tags_list,
)
