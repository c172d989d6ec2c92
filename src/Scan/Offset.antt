-- ===== src/Scan/Offset.antt =====
-- The place that the offset of a test leads to: `getCohortInWindow` of src/GrammarApplicator_runContextualTest.cpp. The numbers are
-- `int32_t` there, far from whose bounds the sizes of windows are.
pub mod Back
use vislcg.Base.{
  ℕ, zero, suc, ◌+◌, ◌-◌, ltb, leb, Bool, true, false, not, ◌&&◌, ◌||◌, if◌then◌else◌, List, [],
  ◌∷◌, Option, none, some, length,
}
use vislcg.Binary.Rules.{ℤ, pos, negsuc}

-- The parts of a test that say where to look.
pub record Jump : Type 0 where
  pub offset : ℤ
  pub is_absolute : Bool
  pub spans_left : Bool
  pub spans_right : Bool
  pub spans_both : Bool

-- A window, as the cohorts in it, with the windows that `previous` and `next` lead to, the nearest first.
pub record Place : Type 0 where
  pub behind : List (List ℕ)
  pub cohorts : List ℕ
  pub ahead : List (List ℕ)

-- `previous` and `next`, which are null at the ends of the text.
abbrev pub previous_window : Place → Option Place
previous_window s = elim s.behind [
  | [] ↦ none
  | (window ∷ windows) ↦
      some (record { behind = windows; cohorts = window; ahead = s.cohorts ∷ s.ahead })
]

abbrev pub next_window : Place → Option Place
next_window s = elim s.ahead [
  | [] ↦ none
  | (window ∷ windows) ↦
      some (record { behind = s.cohorts ∷ s.behind; cohorts = window; ahead = windows })
]

abbrev pub or_stay : Place → Option Place → Place
or_stay s none = s
or_stay s (some there) = there

abbrev pub leads : Option Place → Bool
leads none = false
leads (some there) = true

abbrev pub get_elem? : List ℕ → ℕ → Option ℕ
get_elem? [] i = none
get_elem? (x ∷ xs) zero = some x
get_elem? (x ∷ xs) (suc i) = get_elem? xs i

abbrev pub cohort_at : List ℕ → ℤ → Option ℕ
cohort_at cohorts (pos n) = get_elem? cohorts n
cohort_at cohorts (negsuc n) = none

abbrev pub add_offset : ℕ → ℤ → ℤ
add_offset position (pos n) = pos (position + n)
add_offset position (negsuc n) =
    if ltb n position then pos (position - suc n) else negsuc (n - position)

-- The window that an absolute position is in.
unfoldable pub absolute_window : Jump → Place → Place
absolute_window j s =
    if j.is_absolute && (j.spans_left || j.spans_right)
    then if leads (previous_window s) && j.spans_left
      then or_stay s (previous_window s)
      else if leads (next_window s) && j.spans_right
      then or_stay s (next_window s)
      else s
    else s

abbrev pub absolute_position : Place → ℤ → ℤ
absolute_position s (pos n) = pos n
absolute_position s (negsuc n) = add_offset (length s.cohorts) (negsuc n)

-- A position that is not in the window is in one of its neighbours.
unfoldable pub enter_neighbour : Jump → Place → ℤ → ℤ × Place
enter_neighbour j s (pos n) =
    if leb (length s.cohorts) n && (j.spans_right || j.spans_both) && leads (next_window s)
    then (pos 0, or_stay s (next_window s))
    else (pos n, s)
enter_neighbour j s (negsuc n) =
    if (j.spans_left || j.spans_both) && leads (previous_window s)
    then (
      add_offset (length (or_stay s (previous_window s)).cohorts) (negsuc 0),
      or_stay s (previous_window s),
    )
    else (negsuc n, s)

-- The cohort, with its position and its window.
unfoldable pub get_cohort_in_window : Jump → Place → ℕ → Option ℕ × (ℤ × Place)
unfolding absolute_window enter_neighbour
get_cohort_in_window j s position =
    let window = absolute_window j s in
    let at =
      if j.is_absolute then absolute_position window j.offset else add_offset position j.offset in
    let there = enter_neighbour j window at in (cohort_at there.1.cohorts there.0, there)
