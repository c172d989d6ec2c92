-- ===== src/Tagging/Derived.antt =====
-- The vectors that a reading derives from its list of tags, and the filters over them.
use vislcg.Base.{
  ◌==◌, Bool-cases, ℕ, ◌≡◌, inl, inr, Bool, true, false, not, ◌&&◌, ◌||◌, List, [], ◌∷◌, ◌++◌,
  arith,
}
use vislcg.SortedVector
use vislcg.SortedVector.{elem, sorted_insert_lem, sorted_erase_lem}
use vislcg.Tagging.{
  Bloomish, bloom_insert, bloom_matches, Environment, Reading, insert_hash, erase_hash, erase_all,
  textual,
}
use vislcg.Tagging.Bloom.{bloom_matches-bloom_insert, bloom_matches_keeps}

-- An ascending vector that holds the tags of the list for which the test says so.
pub record IsDerived (chosen : ℕ → Bool) (list tags : List ℕ) : Type 0 where
  pub sorted : SortedVector.IsSorted tags
  pub members : (q : ℕ) → elem q tags ≡ (elem q list && chosen q)

-- A filter that matches each of the tags.
abbrev pub Covers : Bloomish → List ℕ → Type 0
Covers b tags = (q : ℕ) → elem q tags ≡ true → bloom_matches b q ≡ true

-- The vectors of a reading hold the tags of lists, and its filters deny none of them.
pub record Holds (env : Environment) (list plains texts numbers : List ℕ) (r : Reading)
    : Type 0 where
  pub listed : r.tags_list ≡ list
  pub tags : IsDerived (λ q. true) list r.tags
  pub plain : IsDerived (λ q. not (env.tag q).is_special) plains r.tags_plain
  pub textuals : IsDerived (λ q. textual (env.tag q)) texts r.tags_textual
  pub numericals : IsDerived (λ q. (env.tag q).is_numerical) numbers r.tags_numerical
  pub tags_covered : Covers r.tags_bloom r.tags
  pub plain_covered : Covers r.tags_plain_bloom r.tags_plain
  pub texts_covered : Covers r.tags_textual_bloom r.tags_textual

-- The vectors of a reading hold the tags of its list, all of them, the plain, the textual and the numerical ones, and its filters
-- deny none of them.
abbrev pub IsReading : Environment → Reading → Type 0
IsReading env r = Holds env r.tags_list r.tags_list r.tags_list r.tags_list r

elem_snoc : (q h : ℕ) (xs : List ℕ) → elem q (xs ++ h ∷ []) ≡ (q == h || elem q xs)
elem_snoc q h [] = ground arith
elem_snoc q h (x ∷ xs) = ground (arith, elem_snoc q h xs)

pub elem-erase_all : (q h : ℕ) (xs : List ℕ) → elem q (erase_all xs h) ≡ (not (q == h) && elem q xs)
unfolding erase_all
elem-erase_all q h [] = ground arith
elem-erase_all q h (x ∷ xs) = ground (arith, elem-erase_all q h xs)

same_number : (q h : ℕ) → (q == h) ≡ true → q ≡ h
same_number q h e = ground (arith, e)

same_choice :
    (chosen : ℕ → Bool) (q h : ℕ) (b : Bool) → chosen h ≡ b → (q == h) ≡ true → chosen q ≡ b
same_choice chosen q h b c e = rw (same_number q h e) c

inserted :
    (chosen : ℕ → Bool) (list tags : List ℕ) (h : ℕ)
    → chosen h ≡ true
    → IsDerived chosen list tags
    → (q : ℕ) → elem q (SortedVector.insert tags h).0 ≡ (elem q (list ++ h ∷ []) && chosen q)
inserted chosen list tags h c d q = elim (Bool-cases (q == h)) [
  | inl e ↦ ground (
    arith,
    (sorted_insert_lem tags h d.sorted).1 q,
    elem_snoc q h list,
    same_choice chosen q h true c e,
    e,
  )
  | inr e ↦
      ground (arith, (sorted_insert_lem tags h d.sorted).1 q, elem_snoc q h list, d.members q, e)
]

other :
    (chosen : ℕ → Bool) (list tags : List ℕ) (h : ℕ)
    → chosen h ≡ false
    → IsDerived chosen list tags
    → (q : ℕ) → elem q tags ≡ (elem q (list ++ h ∷ []) && chosen q)
other chosen list tags h c d q = elim (Bool-cases (q == h)) [
  | inl e ↦ ground (arith, elem_snoc q h list, same_choice chosen q h false c e, d.members q)
  | inr e ↦ ground (arith, elem_snoc q h list, d.members q, e)
]

-- Of a tag that the test chooses, the derived vector gets what the list gets.
pub insert-IsDerived :
    (chosen : ℕ → Bool) (list tags : List ℕ) (h : ℕ)
    → chosen h ≡ true
    → IsDerived chosen list tags
    → IsDerived chosen (list ++ h ∷ []) (insert_hash tags h)
unfolding insert_hash
insert-IsDerived chosen list tags h c d = record {
  sorted = (sorted_insert_lem tags h d.sorted).0;
  members = λ q. inserted chosen list tags h c d q;
}

pub other-IsDerived :
    (chosen : ℕ → Bool) (list tags : List ℕ) (h : ℕ)
    → chosen h ≡ false
    → IsDerived chosen list tags
    → IsDerived chosen (list ++ h ∷ []) tags
other-IsDerived chosen list tags h c d = record {
  sorted = d.sorted;
  members = λ q. other chosen list tags h c d q;
}

pub erase-IsDerived :
    (chosen : ℕ → Bool) (list tags : List ℕ) (h : ℕ)
    → IsDerived chosen list tags
    → IsDerived chosen (erase_all list h) (erase_hash tags h)
unfolding erase_hash
erase-IsDerived chosen list tags h d = record {
  sorted = (sorted_erase_lem tags h d.sorted).0;
  members = λ q.
      ground (arith, (sorted_erase_lem tags h d.sorted).1 q, elem-erase_all q h list, d.members q);
}

pub insert-Covers :
    (b : Bloomish) (tags : List ℕ) (h : ℕ)
    → SortedVector.IsSorted tags
    → Covers b tags
    → Covers (bloom_insert b h) (insert_hash tags h)
unfolding insert_hash
insert-Covers b tags h s c q e = elim (Bool-cases (q == h)) [
  | inl k ↦ rw (same_number q h k) (bloom_matches-bloom_insert b h)
  | inr k ↦ bloom_matches_keeps b h q (c q (ground (arith, (sorted_insert_lem tags h s).1 q, e, k)))
]

pub erase-Covers :
    (b : Bloomish) (tags : List ℕ) (h : ℕ)
    → SortedVector.IsSorted tags
    → Covers b tags
    → Covers b (erase_hash tags h)
unfolding erase_hash
erase-Covers b tags h s c q e = c q (ground (arith, (sorted_erase_lem tags h s).1 q, e))
