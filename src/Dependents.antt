-- ===== src/Dependents.antt =====
-- The cohorts that a contextual test of dependencies comes to: `reset` of DepDescendentIter in src/CohortIterator.cpp, with the sets
-- of cohorts, which are `sorted_vector` with `compare_Cohort`. A cohort is known by its global number.
pub mod Sets
pub mod Adding
pub mod Expand
pub mod Closure
pub mod Chosen
pub mod Ancestors
pub mod Heads
use vislcg.Base.{
  ℕ, zero, suc, ltb, ◌==◌, Bool, true, false, not, ◌&&◌, ◌||◌, if◌then◌else◌, List, [], ◌∷◌, ◌++◌,
  Option, none, some,
}
use vislcg.Dependency.{Tree}

-- The dependencies, where the cohorts are in their windows, and whether they are removed.
pub record Kinship : Type 0 where
  pub tree : Tree
  pub local_number : ℕ → ℕ
  pub is_removed : ℕ → Bool

-- The bits of `pos` that are looked at.
pub record Way : Type 0 where
  pub to_left : Bool
  pub to_right : Bool
  pub both_ways : Bool
  pub is_left : Bool
  pub is_right : Bool
  pub is_self : Bool
  pub is_rightmost : Bool

abbrev pub window_of : Kinship → ℕ → ℕ
window_of t c = (t.tree.cohort c).window

abbrev pub children_of : Kinship → ℕ → List ℕ
children_of t c = (t.tree.cohort c).dep_children

-- `less_Cohort` of src/Cohort.hpp.
unfoldable pub comes_before : Kinship → ℕ → ℕ → Bool
comes_before t a b =
    if t.local_number a == t.local_number b
    then ltb (window_of t a) (window_of t b)
    else ltb (t.local_number a) (t.local_number b)

-- `insert`, with its second result.
unfoldable pub set_insert : Kinship → List ℕ → ℕ → List ℕ × Bool
set_insert t [] c = (c ∷ [], true)
set_insert t (x ∷ xs) c =
    let further = set_insert t xs c in
    if comes_before t x c
    then (x ∷ further.0, further.1)
    else if comes_before t x c || comes_before t c x
    then (c ∷ x ∷ xs, true)
    else (x ∷ xs, false)

-- Whether `find` finds the cohort. It first compares with the ends of the set, which changes nothing for a set in order.
unfoldable pub set_has : Kinship → List ℕ → ℕ → Bool
set_has t [] c = false
set_has t (x ∷ xs) c =
    let further = set_has t xs c in
    if comes_before t x c then further else not (comes_before t x c || comes_before t c x)

-- The cohorts before `lower_bound`, and those from there on.
unfoldable pub set_before : Kinship → List ℕ → ℕ → List ℕ
set_before t [] c = []
set_before t (x ∷ xs) c =
    let further = set_before t xs c in if comes_before t x c then x ∷ further else []

unfoldable pub set_from : Kinship → List ℕ → ℕ → List ℕ
set_from t [] c = []
set_from t (x ∷ xs) c =
    let further = set_from t xs c in if comes_before t x c then further else x ∷ xs

-- Whether the window of the second cohort may be entered from that of the first.
unfoldable pub may_enter : Kinship → Way → ℕ → ℕ → Bool
may_enter t j c current =
    if window_of t current == window_of t c
    then true
    else if not (j.both_ways || j.to_left) && ltb (window_of t current) (window_of t c)
    then false
    else if not (j.both_ways || j.to_right) && ltb (window_of t c) (window_of t current)
    then false
    else true

-- The loops over the dependants of a cohort, with `added`, which the first of them does not have.
unfoldable pub add_children : Kinship → Way → ℕ → List ℕ → List ℕ × Bool → List ℕ × Bool
add_children t j c [] (set, added) = (set, added)
add_children t j c (current ∷ more) (set, added) = add_children t j c more (
    if t.tree.known current && may_enter t j c current
    then ((set_insert t set current).0, true)
    else (set, added))

pub record Round : Type 0 where
  pub seen : List ℕ
  pub to_add : List ℕ
  pub added : Bool

unfoldable pub expand : Kinship → Way → ℕ → ℕ → Round → Round
expand t j c inner r =
    let more = add_children t j c (children_of t inner) (r.to_add, r.added) in
    if set_has t r.seen inner
    then r
    else record { seen = (set_insert t r.seen inner).0; to_add = more.0; added = more.1 }

unfoldable pub expand_all : Kinship → Way → ℕ → List ℕ → Round → Round
expand_all t j c [] r = r
expand_all t j c (inner ∷ rest) r = expand_all t j c rest (expand t j c inner r)

unfoldable pub set_insert_all : Kinship → List ℕ → List ℕ → List ℕ
set_insert_all t set [] = set
set_insert_all t set (x ∷ xs) = set_insert_all t (set_insert t set x).0 xs

-- The `do` loop, which ends with the round that adds nothing.
unfoldable pub close : ℕ → Kinship → Way → ℕ → List ℕ → List ℕ → Option (List ℕ)
close zero t j c seen descendents = none
close (suc rounds) t j c seen descendents =
    let r = expand_all t j c descendents (record { seen = seen; to_add = []; added = false }) in
    let all = set_insert_all t descendents r.to_add in
    let further = close rounds t j c r.seen all in if r.added then further else some all

abbrev pub reverse_onto : List ℕ → List ℕ → List ℕ
reverse_onto [] done = done
reverse_onto (x ∷ xs) done = reverse_onto xs (x ∷ done)

-- What the test asks for: one side, the cohort itself, the order.
unfoldable pub arrange : Kinship → Way → ℕ → List ℕ → List ℕ
arrange t j c descendents =
    let left = if j.is_left then set_before t descendents c else descendents in
    let right = if j.is_right then set_from t left c else left in
    let self = if j.is_self then (set_insert t right c).0 else right in
    if j.is_rightmost then reverse_onto self [] else self

abbrev pub arranged : Kinship → Way → ℕ → Option (List ℕ) → Option (List ℕ)
arranged t j c none = none
arranged t j c (some descendents) = some (arrange t j c descendents)

-- The cohorts that the iterator goes through, in order.
unfoldable pub descendents : ℕ → Kinship → Way → ℕ → Option (List ℕ)
unfolding close arrange add_children
descendents rounds t j c =
    arranged t j c
      (close rounds t j c (c ∷ []) (add_children t j c (children_of t c) ([], false)).0)
