-- ===== src/Relations/Effects.antt =====
-- What the operations on relations do, and what they return.
use vislcg.Base.{
  ℕ, ◌≡◌, refl, ◌∙◌, ap, Bool, false, not, ◌&&◌, ◌||◌, List, Option, none, some, arith, ◌==◌,
  if◌then◌else◌, Bool-cases, inl, inr,
}
use vislcg.SortedVector.{
  elem, IsSorted, sorted_insert_lem, sorted_erase_lem, length-insert, length-erase,
}
use vislcg.Relations.{RelationCtn, or_empty, put, add_relation, rem_relation, take_from}

-- Whether a cohort is related to another by a relation.
abbrev pub related : RelationCtn → ℕ → ℕ → Bool
related relations rel cohort = elem cohort (or_empty (relations rel))

abbrev pub AllSorted : RelationCtn → Type 0
AllSorted relations = (rel : ℕ) → IsSorted (or_empty (relations rel))

related-put :
    (relations : RelationCtn) (rel r : ℕ) (cohorts : List ℕ) (q : ℕ)
    → related (put relations rel cohorts) r q
      ≡ (if r == rel then elem q cohorts else related relations r q)
related-put relations rel r cohorts q = elim (Bool-cases (r == rel)) [
  | inl e ↦ rw e refl
  | inr e ↦ rw e refl
]

-- `addRelation` relates the cohort to one more by the relation, changes nothing else, and says
-- whether that was new.
pub add_relation_lem :
    (relations : RelationCtn) (rel cohort : ℕ)
    → AllSorted relations
    → ((r q : ℕ)
        → related (add_relation relations rel cohort).0 r q
          ≡ (r == rel && q == cohort || related relations r q))
      × ((add_relation relations rel cohort).1 ≡ not (related relations rel cohort))
unfolding add_relation
add_relation_lem relations rel cohort s =
    let (sorted, members, returns) = sorted_insert_lem (or_empty (relations rel)) cohort (s rel) in
    (
      λ r q. related-put relations rel r _ q ∙ elim (Bool-cases (r == rel)) [
        | inl e ↦ let same : r ≡ rel = ground arith in rw (e, same) (members q)
        | inr e ↦ rw e refl
      ],
      ground (arith, length-insert (or_empty (relations rel)) cohort, returns),
    )

Ends : RelationCtn → ℕ → ℕ → RelationCtn × Bool → Type 0
Ends relations rel cohort t =
    ((r q : ℕ) → related t.0 r q ≡ (not (r == rel && q == cohort) && related relations r q))
    × (t.1 ≡ related relations rel cohort)

Ends-none :
    (relations : RelationCtn) (rel cohort : ℕ)
    → relations rel ≡ none
    → Ends relations rel cohort (relations, false)
unfolding Ends
Ends-none relations rel cohort e = (
  λ r q. elim (Bool-cases (r == rel)) [
    | inl f ↦ let same : r ≡ rel = ground arith in rw (same, e) (ground arith)
    | inr f ↦ rw f refl
  ],
  rw e refl,
)

Ends-some :
    (relations : RelationCtn) (rel cohort : ℕ) (cohorts : List ℕ)
    → relations rel ≡ some cohorts
    → IsSorted cohorts
    → Ends relations rel cohort (take_from relations rel cohort (some cohorts))
unfolding take_from Ends
Ends-some relations rel cohort cohorts e s =
    let (kept, members, returns) = sorted_erase_lem cohorts cohort s in
    (
      λ r q. related-put relations rel r _ q ∙ elim (Bool-cases (r == rel)) [
        | inl f ↦
            let same : r ≡ rel = ground arith in
            let before : related relations r q ≡ elem q cohorts =
              ap (λ x. related relations x q) same ∙ ap (λ o. elem q (or_empty o)) e in
            ground (arith, f, before, members q)
        | inr f ↦ rw f refl
      ],
      rw e (ground (arith, length-erase cohorts cohort, returns)),
    )

Ends-any :
    (relations : RelationCtn) (rel cohort : ℕ) (o : Option (List ℕ))
    → relations rel ≡ o
    → IsSorted (or_empty o)
    → Ends relations rel cohort (take_from relations rel cohort o)
unfolding take_from
Ends-any relations rel cohort none e s = Ends-none relations rel cohort e
Ends-any relations rel cohort (some cohorts) e s = Ends-some relations rel cohort cohorts e s

-- `remRelation` ends the relation to the cohort, changes nothing else, and says whether there was
-- one.
pub rem_relation_lem :
    (relations : RelationCtn) (rel cohort : ℕ)
    → AllSorted relations
    → ((r q : ℕ)
        → related (rem_relation relations rel cohort).0 r q
          ≡ (not (r == rel && q == cohort) && related relations r q))
      × ((rem_relation relations rel cohort).1 ≡ related relations rel cohort)
unfolding rem_relation Ends
rem_relation_lem relations rel cohort s = Ends-any relations rel cohort (relations rel) refl (s rel)
