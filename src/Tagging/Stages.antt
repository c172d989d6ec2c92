-- ===== src/Tagging/Stages.antt =====
-- What each part of `addTagToReading` does to the vectors of a reading.
use vislcg.Base.{
  ◌==◌, if◌then◌else◌, Bool-cases, if_elim, ℕ, refl, ap, inl, inr, Bool, true, false, not, ◌&&◌,
  ◌||◌, Option, none, some, List, [], ◌∷◌, ◌++◌,
}
use vislcg.Binary.Fields.{is_some}
use vislcg.Tagging.{
  Environment, Reading, is_mapping_of, rehash, add_hash, add_string, textual, add_textual,
  add_numerical, add_baseform, add_plain, rehash_if, first_char, add_mapping,
}
use vislcg.Tagging.Derived.{Holds, insert-IsDerived, other-IsDerived, insert-Covers}

module _ (env : Environment) (h : ℕ) where
  -- The fields that `Holds` does not read.
  pub other_fields :
      (l p x n : List ℕ) (r : Reading) {noprint : Bool} {baseform hash hash_plain string_hash : ℕ}
      {mapping next : Option ℕ} {string : List ℕ}
      → Holds env l p x n r
      → Holds env l p x n (record r {
        noprint = noprint;
        baseform = baseform;
        hash = hash;
        hash_plain = hash_plain;
        mapping = mapping;
        next = next;
        tags_string = string;
        tags_string_hash = string_hash;
      })
  other_fields l p x n r k = record {
    listed = k.listed;
    tags = k.tags;
    plain = k.plain;
    textuals = k.textuals;
    numericals = k.numericals;
    tags_covered = k.tags_covered;
    plain_covered = k.plain_covered;
    texts_covered = k.texts_covered;
  }

  pub add_hash-Holds :
      (l : List ℕ) (r : Reading)
      → Holds env l l l l r
      → Holds env (l ++ h ∷ []) l l l (add_hash h r)
  unfolding add_hash
  add_hash-Holds l r k = record {
    listed = ap (λ xs. xs ++ h ∷ []) k.listed;
    tags = insert-IsDerived (λ q. true) l r.tags h refl k.tags;
    plain = k.plain;
    textuals = k.textuals;
    numericals = k.numericals;
    tags_covered = insert-Covers r.tags_bloom r.tags h k.tags.sorted k.tags_covered;
    plain_covered = k.plain_covered;
    texts_covered = k.texts_covered;
  }

  pub add_string-Holds :
      (l p x n : List ℕ) (r : Reading)
      → Holds env l p x n r
      → Holds env l p x n (add_string env h r)
  unfolding add_string
  add_string-Holds l p x n r k =
      if_elim (λ (s : Reading). Holds env l p x n s) env.ordered _ r (λ e. other_fields l p x n r k)
        (λ e. k)

  add_baseform-Holds :
      (unset : Bool) (l p x n : List ℕ) (r : Reading)
      → Holds env l p x n r
      → Holds env l p x n (add_baseform env unset h r)
  unfolding add_baseform
  add_baseform-Holds unset l p x n r k = elim (Bool-cases (unset && (env.tag h).is_baseform)) [
    | inl e ↦ rw (e) (other_fields l p x n r k)
    | inr e ↦ rw (e) k
  ]

  rehash_if-Holds :
      (b : Bool) (l p x n : List ℕ) (r : Reading)
      → Holds env l p x n r
      → Holds env l p x n (rehash_if b r)
  unfolding rehash_if rehash
  rehash_if-Holds true l p x n r k = other_fields l p x n r k
  rehash_if-Holds false l p x n r k = k

  add_textual-Holds :
      (l p n : List ℕ) (r : Reading)
      → Holds env (l ++ h ∷ []) p l n r
      → Holds env (l ++ h ∷ []) p (l ++ h ∷ []) n (add_textual env h r)
  unfolding add_textual
  add_textual-Holds l p n r k = elim (Bool-cases (textual (env.tag h))) [
    | inl e ↦ rw (e) (record {
      listed = k.listed;
      tags = k.tags;
      plain = k.plain;
      textuals = insert-IsDerived (λ q. textual (env.tag q)) l r.tags_textual h e k.textuals;
      numericals = k.numericals;
      tags_covered = k.tags_covered;
      plain_covered = k.plain_covered;
      texts_covered =
          insert-Covers r.tags_textual_bloom r.tags_textual h k.textuals.sorted k.texts_covered;
    })
    | inr e ↦ rw (e) (record {
      listed = k.listed;
      tags = k.tags;
      plain = k.plain;
      textuals = other-IsDerived (λ q. textual (env.tag q)) l r.tags_textual h e k.textuals;
      numericals = k.numericals;
      tags_covered = k.tags_covered;
      plain_covered = k.plain_covered;
      texts_covered = k.texts_covered;
    })
  ]

  add_numerical-Holds :
      (l p x : List ℕ) (r : Reading)
      → Holds env (l ++ h ∷ []) p x l r
      → Holds env (l ++ h ∷ []) p x (l ++ h ∷ []) (add_numerical env h r)
  unfolding add_numerical
  add_numerical-Holds l p x r k = elim (Bool-cases (env.tag h).is_numerical) [
    | inl e ↦ rw (e) (record {
      listed = k.listed;
      tags = k.tags;
      plain = k.plain;
      textuals = k.textuals;
      numericals =
          insert-IsDerived (λ q. (env.tag q).is_numerical) l r.tags_numerical h e k.numericals;
      tags_covered = k.tags_covered;
      plain_covered = k.plain_covered;
      texts_covered = k.texts_covered;
    })
    | inr e ↦ rw (e) (record {
      listed = k.listed;
      tags = k.tags;
      plain = k.plain;
      textuals = k.textuals;
      numericals =
          other-IsDerived (λ q. (env.tag q).is_numerical) l r.tags_numerical h e k.numericals;
      tags_covered = k.tags_covered;
      plain_covered = k.plain_covered;
      texts_covered = k.texts_covered;
    })
  ]

  add_plain-Holds :
      (l x n : List ℕ) (r : Reading)
      → Holds env (l ++ h ∷ []) l x n r
      → Holds env (l ++ h ∷ []) (l ++ h ∷ []) x n (add_plain env h r)
  unfolding add_plain
  add_plain-Holds l x n r k = elim (Bool-cases (env.tag h).is_special) [
    | inl e ↦ rw (e) (record {
      listed = k.listed;
      tags = k.tags;
      plain = other-IsDerived (λ q. not (env.tag q).is_special) l r.tags_plain h (ap not e) k.plain;
      textuals = k.textuals;
      numericals = k.numericals;
      tags_covered = k.tags_covered;
      plain_covered = k.plain_covered;
      texts_covered = k.texts_covered;
    })
    | inr e ↦ rw (e) (record {
      listed = k.listed;
      tags = k.tags;
      plain =
          insert-IsDerived (λ q. not (env.tag q).is_special) l r.tags_plain h (ap not e) k.plain;
      textuals = k.textuals;
      numericals = k.numericals;
      tags_covered = k.tags_covered;
      plain_covered =
          insert-Covers r.tags_plain_bloom r.tags_plain h k.plain.sorted k.plain_covered;
      texts_covered = k.texts_covered;
    })
  ]

  -- The reading, or the bag of tags, when all its vectors have got the tag.
  pub all_vectors-Holds :
      (again unset : Bool) (l : List ℕ) (r : Reading)
      → Holds env (l ++ h ∷ []) l l l r
      → Holds env (l ++ h ∷ []) (l ++ h ∷ []) (l ++ h ∷ []) (l ++ h ∷ []) (
          rehash_if again (
            add_plain env h (add_baseform env unset h (add_numerical env h (add_textual env h r)))))
  all_vectors-Holds again unset l r k = rehash_if-Holds again _ _ _ _ _ (
      add_plain-Holds l _ _ _ (
        add_baseform-Holds unset _ _ _ _ _
          (add_numerical-Holds l _ _ _ (add_textual-Holds l _ _ _ k))))

  -- The reading that a `some` holds.
  abbrev pub HoldsSome : List ℕ → List ℕ → List ℕ → List ℕ → Option Reading → Type 0
  HoldsSome l p x n none = Unit {0}
  HoldsSome l p x n (some r) = Holds env l p x n r

  pub add_mapping-HoldsSome :
      (l p x n : List ℕ) (r : Reading)
      → Holds env l p x n r
      → HoldsSome l p x n (add_mapping env h r)
  unfolding add_mapping
  add_mapping-HoldsSome l p x n r k =
      if_elim (λ (o : Option Reading). HoldsSome l p x n o)
        ((env.tag h).is_mapping || first_char (env.tag h).text == env.mapping_prefix)
        (if is_some r.mapping && not (is_mapping_of r.mapping h)
          then none
          else some (record r { mapping = some h }))
        (some r)
        (λ e.
          if_elim (λ (o : Option Reading). HoldsSome l p x n o)
            (is_some r.mapping && not (is_mapping_of r.mapping h)) none
            (some (record r { mapping = some h })) (λ f. tt) (λ f. other_fields l p x n r k))
        (λ e. k)
