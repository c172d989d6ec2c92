-- ===== src/SortedVector.antt =====
-- `sorted_vector<uint32_t>` of src/sorted_vector.hpp with `std::less`: a set of numbers as an
-- ascending vector. The position that `std::lower_bound` finds is a cut of the vector in two.
use vislcg.Base.{
  length, ℕ, ◌+◌, ◌<◌, ◌≤◌, ◌≡◌, refl, sym, Bool, true, false, not, ◌&&◌, ◌||◌, List, [], ◌∷◌,
  arith, ltb, ◌==◌, if◌then◌else◌, if_elim, Bool-cases, inl, inr,
}

-- `insert(t)` from the position on.
abbrev put_in : ℕ → List ℕ → List ℕ × Bool
put_in t [] = (t ∷ [], true)
put_in t (x ∷ xs) = if ltb x t || ltb t x then (t ∷ x ∷ xs, true) else (x ∷ xs, false)

abbrev behind : ℕ → List ℕ × Bool → List ℕ × Bool
behind x (xs, changed) = (x ∷ xs, changed)

insert_at : ℕ → List ℕ → List ℕ × Bool
insert_at t [] = put_in t []
insert_at t (x ∷ xs) =
    let further = insert_at t xs in if ltb x t then behind x further else put_in t (x ∷ xs)

unfoldable pub insert : List ℕ → ℕ → List ℕ × Bool
unfolding insert_at
insert [] t = (t ∷ [], true)
insert (x ∷ xs) t = insert_at t (x ∷ xs)

-- `elements.back()`, with the first element at hand.
abbrev back_of : ℕ → List ℕ → ℕ
back_of x [] = x
back_of x (y ∷ ys) = back_of y ys

-- `erase(t)` from the position on.
abbrev cut_out : ℕ → List ℕ → List ℕ × Bool
cut_out t [] = ([], false)
cut_out t (x ∷ xs) = if not (ltb x t) && not (ltb t x) then (xs, true) else (x ∷ xs, false)

erase_at : ℕ → List ℕ → List ℕ × Bool
erase_at t [] = cut_out t []
erase_at t (x ∷ xs) =
    let further = erase_at t xs in if ltb x t then behind x further else cut_out t (x ∷ xs)

unfoldable pub erase : List ℕ → ℕ → List ℕ × Bool
unfolding erase_at
erase [] t = ([], false)
erase (x ∷ xs) t =
    if ltb (back_of x xs) t
    then (x ∷ xs, false)
    else if ltb t x
    then (x ∷ xs, false)
    else erase_at t (x ∷ xs)

-- `find(t)`, the elements from the position found on, and `count(t)`.
abbrev from_here : ℕ → List ℕ → List ℕ
from_here t [] = []
from_here t (x ∷ xs) = if ltb x t || ltb t x then [] else x ∷ xs

find_at : ℕ → List ℕ → List ℕ
find_at t [] = from_here t []
find_at t (x ∷ xs) = let further = find_at t xs in if ltb x t then further else from_here t (x ∷ xs)

unfoldable pub find : List ℕ → ℕ → List ℕ
unfolding find_at
find [] t = []
find (x ∷ xs) t = if ltb (back_of x xs) t then [] else if ltb t x then [] else find_at t (x ∷ xs)

abbrev is_end : List ℕ → Bool
is_end [] = true
is_end (x ∷ xs) = false

unfoldable pub count : List ℕ → ℕ → ℕ
unfolding find
count xs t = if is_end (find xs t) then 0 else 1

-- Strictly ascending from `lo` on.
abbrev pub Ascends : ℕ → List ℕ → Type 0
Ascends lo [] = Unit
Ascends lo (x ∷ xs) = (lo ≤ x) × Ascends (x + 1) xs

abbrev pub IsSorted : List ℕ → Type 0
IsSorted = Ascends 0

abbrev pub elem : ℕ → List ℕ → Bool
elem q [] = false
elem q (x ∷ xs) = q == x || elem q xs

elem-Ascends : (q lo : ℕ) (xs : List ℕ) → Ascends lo xs → elem q xs ≡ true → lo ≤ q
elem-Ascends q lo [] s h = cc
elem-Ascends q lo (x ∷ xs) s h = ground (arith, elem-Ascends q (x + 1) xs)

pub elem_below : (q lo : ℕ) (xs : List ℕ) → Ascends lo xs → q < lo → elem q xs ≡ false
elem_below q lo [] s h = refl
elem_below q lo (x ∷ xs) s h = ground (arith, elem_below q (x + 1) xs)

pub Ascends-weaken : (lo lo' : ℕ) (xs : List ℕ) → lo' ≤ lo → Ascends lo xs → Ascends lo' xs
Ascends-weaken lo lo' [] h s = tt
Ascends-weaken lo lo' (x ∷ xs) h s = (omega arith, s.1)

record Puts (t lo : ℕ) (xs : List ℕ) (r : List ℕ × Bool) : Type 0 where
  sorted : Ascends lo r.0
  members : (q : ℕ) → elem q r.0 ≡ (q == t || elem q xs)
  returns : r.1 ≡ not (elem t xs)

insert_at-Puts : (t lo : ℕ) (xs : List ℕ) → lo ≤ t → Ascends lo xs → Puts t lo xs (insert_at t xs)
unfolding insert_at
insert_at-Puts t lo [] h s = record { sorted = (h, tt); members = λ q. refl; returns = refl }
insert_at-Puts t lo (x ∷ xs) h s = elim (Bool-cases (ltb x t)) [
  | inl e ↦
      let p = insert_at-Puts t (x + 1) xs (ground arith) s.1 in
      rw e (record {
        sorted = (s.0, p.sorted);
        members = λ q. ground (arith, p.members q);
        returns = ground (arith, p.returns);
      })
  | inr e ↦ elim (Bool-cases (ltb t x)) [
    | inl g ↦
        rw (e, g)
          (record {
            sorted = (h, (ground arith, s.1));
            members = λ q. refl;
            returns = ground (arith, elem_below t (x + 1) xs);
          })
    | inr g ↦ rw (e, g) (record { sorted = s; members = λ q. ground arith; returns = ground arith })
  ]
]

le-back_of : (x : ℕ) (xs : List ℕ) → Ascends (x + 1) xs → x ≤ back_of x xs
le-back_of x [] s = omega arith
le-back_of x (y ∷ ys) s = omega (arith, s.0, le-back_of y ys s.1)

back_of-Ascends :
    (q x : ℕ) (xs : List ℕ) → Ascends (x + 1) xs → back_of x xs < q → (q == x || elem q xs) ≡ false
back_of-Ascends q x [] s h = ground arith
back_of-Ascends q x (y ∷ ys) s h =
    ground (arith, back_of-Ascends q y ys s.1 h, le-back_of y ys s.1, s.0)

record Takes (t lo : ℕ) (xs : List ℕ) (r : List ℕ × Bool) : Type 0 where
  sorted : Ascends lo r.0
  members : (q : ℕ) → elem q r.0 ≡ (not (q == t) && elem q xs)
  returns : r.1 ≡ elem t xs

-- Nothing is taken out where there is nothing.
absent : (t lo : ℕ) (xs : List ℕ) → Ascends lo xs → elem t xs ≡ false → Takes t lo xs (xs, false)
absent t lo xs s h = record {
  sorted = s;
  members = λ q. elim (Bool-cases (q == t)) [
    | inl e ↦ let same : q ≡ t = ground arith in rw (same, h) (ground arith)
    | inr e ↦ rw e refl
  ];
  returns = sym h;
}

erase_at-Takes : (t lo : ℕ) (xs : List ℕ) → Ascends lo xs → Takes t lo xs (erase_at t xs)
unfolding erase_at
erase_at-Takes t lo [] s = record { sorted = tt; members = λ q. ground arith; returns = refl }
erase_at-Takes t lo (x ∷ xs) s = elim (Bool-cases (ltb x t)) [
  | inl e ↦
      let p = erase_at-Takes t (x + 1) xs s.1 in
      rw e (record {
        sorted = (s.0, p.sorted);
        members = λ q. ground (arith, p.members q);
        returns = ground (arith, p.returns);
      })
  | inr e ↦ elim (Bool-cases (ltb t x)) [
    | inl g ↦ rw (e, g) (absent t lo (x ∷ xs) s (ground (arith, elem_below t (x + 1) xs)))
    | inr g ↦
        rw (e, g)
          (record {
            sorted = Ascends-weaken (x + 1) lo xs (omega arith) s.1;
            members = λ q. ground (arith, elem_below q (x + 1) xs);
            returns = ground arith;
          })
  ]
]

erase-Takes : (xs : List ℕ) (t : ℕ) → IsSorted xs → Takes t 0 xs (erase xs t)
unfolding erase
erase-Takes [] t s = absent t 0 [] tt refl
erase-Takes (x ∷ xs) t s =
    if_elim (Takes t 0 (x ∷ xs)) (ltb (back_of x xs) t) _ _
      (λ e. absent t 0 (x ∷ xs) s (back_of-Ascends t x xs s.1 (ground arith)))
      (λ _.
        if_elim (Takes t 0 (x ∷ xs)) (ltb t x) _ _
          (λ e. absent t 0 (x ∷ xs) s (ground (arith, elem_below t (x + 1) xs)))
          (λ _. erase_at-Takes t 0 (x ∷ xs) s))

length-insert_at :
    (t : ℕ) (xs : List ℕ)
    → length (insert_at t xs).0 ≡ (if (insert_at t xs).1 then length xs + 1 else length xs)
unfolding insert_at
length-insert_at t [] = refl
length-insert_at t (x ∷ xs) = ground (arith, length-insert_at t xs)

-- The size grows exactly if the insertion says so.
pub length-insert :
    (xs : List ℕ) (t : ℕ)
    → length (insert xs t).0 ≡ (if (insert xs t).1 then length xs + 1 else length xs)
unfolding insert insert_at
length-insert [] t = refl
length-insert (x ∷ xs) t = length-insert_at t (x ∷ xs)

length-erase_at :
    (t : ℕ) (xs : List ℕ)
    → length xs
      ≡ (if (erase_at t xs).1 then length (erase_at t xs).0 + 1 else length (erase_at t xs).0)
unfolding erase_at
length-erase_at t [] = refl
length-erase_at t (x ∷ xs) = ground (arith, length-erase_at t xs)

-- The size shrinks exactly if the erasure says so.
pub length-erase :
    (xs : List ℕ) (t : ℕ)
    → length xs ≡ (if (erase xs t).1 then length (erase xs t).0 + 1 else length (erase xs t).0)
unfolding erase
length-erase [] t = refl
length-erase (x ∷ xs) t = ground (arith, length-erase_at t (x ∷ xs))

-- Inserting into an ascending vector keeps it ascending and free of repeats, adds exactly the value
-- inserted, and says whether it was new.
pub sorted_insert_lem :
    (xs : List ℕ) (t : ℕ)
    → IsSorted xs
    → IsSorted (insert xs t).0
      × ((q : ℕ) → elem q (insert xs t).0 ≡ (q == t || elem q xs))
      × ((insert xs t).1 ≡ not (elem t xs))
unfolding insert insert_at
sorted_insert_lem [] t s = ((omega arith, tt), λ q. refl, refl)
sorted_insert_lem (x ∷ xs) t s =
    let p = insert_at-Puts t 0 (x ∷ xs) (omega arith) s in (p.sorted, p.members, p.returns)

-- Erasing from an ascending vector keeps it ascending, takes out exactly the value erased, and says
-- whether it was there; the shortcuts by the first and the last element change nothing of this.
pub sorted_erase_lem :
    (xs : List ℕ) (t : ℕ)
    → IsSorted xs
    → IsSorted (erase xs t).0
      × ((q : ℕ) → elem q (erase xs t).0 ≡ (not (q == t) && elem q xs))
      × ((erase xs t).1 ≡ elem t xs)
sorted_erase_lem xs t s = let p = erase-Takes xs t s in (p.sorted, p.members, p.returns)

is_end-find_at : (t lo : ℕ) (xs : List ℕ) → Ascends lo xs → is_end (find_at t xs) ≡ not (elem t xs)
unfolding find_at
is_end-find_at t lo [] s = refl
is_end-find_at t lo (x ∷ xs) s =
    ground (arith, is_end-find_at t (x + 1) xs s.1, elem_below t (x + 1) xs)

-- `count` of an ascending vector is 1 for its members and 0 for all else.
pub count-elem : (xs : List ℕ) (t : ℕ) → IsSorted xs → count xs t ≡ (if elem t xs then 1 else 0)
unfolding count
count-elem [] t s = refl
count-elem (x ∷ xs) t s =
    ground
      (arith, is_end-find_at t 0 (x ∷ xs) s, back_of-Ascends t x xs s.1, elem_below t (x + 1) xs)
