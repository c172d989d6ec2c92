-- ===== src/Scan/Offset/Back.antt =====
-- One cohort to the right and back again.
use vislcg.Base.{
  ℕ, zero, suc, ◌+◌, ltb, true, false, List, [], ◌∷◌, ◌++◌, Option, none, length, ◌≡◌, refl, arith,
  ◌<◌, ◌≤◌, ap, sym, ◌∙◌, Bool-cases, inl, inr, ltb→lt, ltb→le,
}
use vislcg.Binary.Rules.{ℤ, pos, negsuc}
use vislcg.Scan.Offset.{
  Jump, Place, get_elem?, get_cohort_in_window, absolute_window, enter_neighbour, add_offset,
  cohort_at,
}

-- The test of the next cohort, and that of the one before, in any window.
abbrev pub one_right : Jump
one_right = record {
  offset = pos 1;
  is_absolute = false;
  spans_left = false;
  spans_right = false;
  spans_both = true;
}

abbrev pub one_left : Jump
one_left = record one_right { offset = negsuc 0 }

-- The cohorts of some windows.
abbrev pub concat : List (List ℕ) → List ℕ
concat [] = []
concat (window ∷ windows) = window ++ concat windows

-- The nearest window has a cohort in it, if there is one.
abbrev pub IsNearestFilled : List (List ℕ) → Type 0
IsNearestFilled [] = Unit {0}
IsNearestFilled (window ∷ windows) = 0 < length window

-- From a place that a test has led to, the next test.
abbrev pub from_there : Jump → Option ℕ × (ℤ × Place) → Option ℕ × (ℤ × Place)
from_there j (found, (pos n, place)) = get_cohort_in_window j place n
from_there j (found, (negsuc n, place)) = (found, (negsuc n, place))

get_elem?-append :
    (xs ys : List ℕ) (i : ℕ) → i < length xs → get_elem? (xs ++ ys) i ≡ get_elem? xs i
get_elem?-append [] ys i h = absurd (omega (arith, h))
get_elem?-append (x ∷ xs) ys zero h = refl
get_elem?-append (x ∷ xs) ys (suc i) h = get_elem?-append xs ys i (omega (arith, h))

get_elem?-behind :
    (xs ys : List ℕ) (i : ℕ) → i ≡ length xs → get_elem? (xs ++ ys) i ≡ get_elem? ys 0
get_elem?-behind [] ys i h = ap (get_elem? ys) h
get_elem?-behind (x ∷ xs) ys zero h = absurd (omega (arith, h))
get_elem?-behind (x ∷ xs) ys (suc i) h = get_elem?-behind xs ys i (omega (arith, h))

abbrev at_place : ℤ × Place → Option ℕ × (ℤ × Place)
at_place there = (cohort_at there.1.cohorts there.0, there)

enter_inside :
    (j : Jump) (s : Place) (n : ℕ) → n < length s.cohorts → enter_neighbour j s (pos n) ≡ (pos n, s)
unfolding enter_neighbour
enter_inside j s n h = ground (arith, h)

to_right :
    (s : Place) (position : ℕ)
    → get_cohort_in_window one_right s position
      ≡ at_place (enter_neighbour one_right s (pos (suc position)))
unfolding get_cohort_in_window absolute_window
to_right s position =
    let add_one : position + 1 ≡ suc position = omega arith in
    ap (λ n. at_place (enter_neighbour one_right s (pos n))) add_one

one_less : (position : ℕ) → add_offset (suc position) (negsuc 0) ≡ pos position
one_less position = ground arith

to_left :
    (s : Place) (position : ℕ)
    → position < length s.cohorts
    → get_cohort_in_window one_left s (suc position)
      ≡ (get_elem? s.cohorts position, (pos position, s))
unfolding get_cohort_in_window absolute_window
to_left s position h =
    ap (λ at. at_place (enter_neighbour one_left s at)) (one_less position)
    ∙ ap at_place (enter_inside one_left s position h)

-- From the first cohort of a window to the last of the one before.
to_last :
    (behind : List (List ℕ)) (window cohorts : List ℕ) (ahead : List (List ℕ)) (position : ℕ)
    → suc position ≡ length window
    → get_cohort_in_window one_left
        (record { behind = window ∷ behind; cohorts = cohorts; ahead = ahead })
        0
      ≡ (
        get_elem? window position,
        (pos position, record { behind = behind; cohorts = window; ahead = cohorts ∷ ahead }),
      )
unfolding get_cohort_in_window absolute_window enter_neighbour
to_last behind window cohorts ahead position h =
    ap (λ at. at_place (at, record { behind = behind; cohorts = window; ahead = cohorts ∷ ahead }))
      (ap (λ n. add_offset n (negsuc 0)) (sym h) ∙ one_less position)

beyond :
    (behind : List (List ℕ)) (cohorts window : List ℕ) (ahead : List (List ℕ)) (n : ℕ)
    → n ≡ length cohorts
    → enter_neighbour one_right
        (record { behind = behind; cohorts = cohorts; ahead = window ∷ ahead })
        (pos n)
      ≡ (pos 0, record { behind = cohorts ∷ behind; cohorts = window; ahead = ahead })
unfolding enter_neighbour
beyond behind cohorts window ahead n h = ground (arith, h)

no_next :
    (behind : List (List ℕ)) (cohorts : List ℕ) (n : ℕ)
    → enter_neighbour one_right (record { behind = behind; cohorts = cohorts; ahead = [] }) (pos n)
      ≡ (pos n, record { behind = behind; cohorts = cohorts; ahead = [] })
unfolding enter_neighbour
no_next behind cohorts n = ground arith

get_elem?-past : (xs : List ℕ) (n : ℕ) → length xs ≤ n → get_elem? xs n ≡ none
get_elem?-past [] n h = refl
get_elem?-past (x ∷ xs) zero h = absurd (omega (arith, h))
get_elem?-past (x ∷ xs) (suc n) h = get_elem?-past xs n (omega (arith, h))

-- What a test finds one cohort to the right, and the next test one to the left of that.
abbrev StepsBack : List (List ℕ) → List ℕ → List (List ℕ) → ℕ → Type 0
StepsBack behind cohorts ahead position =
    let s : Place = record { behind = behind; cohorts = cohorts; ahead = ahead } in
    let there = get_cohort_in_window one_right s position in
    (there.0 ≡ get_elem? (cohorts ++ concat ahead) (suc position))
    × (from_there one_left there ≡ (get_elem? cohorts position, (pos position, s)))

within :
    (behind : List (List ℕ)) (cohorts : List ℕ) (ahead : List (List ℕ)) (position : ℕ)
    → suc position < length cohorts
    → StepsBack behind cohorts ahead position
within behind cohorts ahead position h =
    let s : Place = record { behind = behind; cohorts = cohorts; ahead = ahead } in
    let r : get_cohort_in_window one_right s position
        ≡ (get_elem? cohorts (suc position), (pos (suc position), s)) =
      to_right s position ∙ ap at_place (enter_inside one_right s (suc position) h) in
    (
      ap (λ there. there.0) r ∙ sym (get_elem?-append cohorts (concat ahead) (suc position) h),
      ap (from_there one_left) r ∙ to_left s position (omega (arith, h)),
    )

at_end :
    (behind : List (List ℕ)) (cohorts : List ℕ) (ahead : List (List ℕ)) (position : ℕ)
    → IsNearestFilled ahead
    → suc position ≡ length cohorts
    → StepsBack behind cohorts ahead position
at_end behind cohorts [] position f h =
    let s : Place = record { behind = behind; cohorts = cohorts; ahead = [] } in
    let r : get_cohort_in_window one_right s position
        ≡ (get_elem? cohorts (suc position), (pos (suc position), s)) =
      to_right s position ∙ ap at_place (no_next behind cohorts (suc position)) in
    (
      ap (λ there. there.0) r
          ∙ get_elem?-past cohorts (suc position) (omega (arith, h))
          ∙ sym (get_elem?-behind cohorts [] (suc position) h),
      ap (from_there one_left) r ∙ to_left s position (omega (arith, h)),
    )
at_end behind cohorts ([] ∷ ahead) position f h = absurd (omega (arith, f))
at_end behind cohorts ((x ∷ xs) ∷ ahead) position f h =
    let s : Place = record { behind = behind; cohorts = cohorts; ahead = (x ∷ xs) ∷ ahead } in
    let r : get_cohort_in_window one_right s position
        ≡ at_place (pos 0, record { behind = cohorts ∷ behind; cohorts = x ∷ xs; ahead = ahead }) =
      to_right s position ∙ ap at_place (beyond behind cohorts (x ∷ xs) ahead (suc position) h) in
    (
      ap (λ there. there.0) r
          ∙ sym (get_elem?-behind cohorts ((x ∷ xs) ++ concat ahead) (suc position) h),
      ap (from_there one_left) r ∙ to_last behind cohorts (x ∷ xs) ahead position h,
    )

-- The next cohort, where windows may be left, is the one that comes next in the text, be it in the window or the first of the next
-- one, and none at the end of the text. The cohort before that place, even where there was none, is the one that the test came from, at
-- its position in its window. The window after this one has to have a cohort in it, if there is one.
pub get_cohort_in_window-back :
    (behind : List (List ℕ)) (cohorts : List ℕ) (ahead : List (List ℕ)) (position : ℕ)
    → position < length cohorts
    → IsNearestFilled ahead
    → ((get_cohort_in_window one_right
          (record { behind = behind; cohorts = cohorts; ahead = ahead })
          position).0
        ≡ get_elem? (cohorts ++ concat ahead) (suc position))
      × (from_there one_left (
            get_cohort_in_window one_right
              (record { behind = behind; cohorts = cohorts; ahead = ahead })
              position)
          ≡ (
            get_elem? cohorts position,
            (pos position, record { behind = behind; cohorts = cohorts; ahead = ahead }),
          ))
get_cohort_in_window-back behind cohorts ahead position h f =
    elim (Bool-cases (ltb (suc position) (length cohorts))) [
      | inl i ↦ within behind cohorts ahead position (ltb→lt (suc position) (length cohorts) i)
      | inr o ↦
          at_end behind cohorts ahead position f
            (omega (arith, h, ltb→le (suc position) (length cohorts) o))
    ]
