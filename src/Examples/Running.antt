-- ===== src/Examples/Running.antt =====
-- Running sections.
use vislcg.Base.{ltb, if◌then◌else◌, ℕ, suc, ◌≡◌, refl, true, false, some, List, [], ◌∷◌}
use vislcg.Binary.Fields.{is_some}
use vislcg.Sections.{
  finished, Ran, Section, Settings, max_passes, count_run, is_skipped, run_sections,
  run_grammar_on_single_window,
}
use vislcg.Sections.Ends.{IsSettled, run_sections-IsSettled, run_grammar_on_single_window-is_some}

-- Rules that count up to 3.
abbrev up_to_three : ℕ → ℕ → Ran ℕ
up_to_three section w =
    if ltb w 3
    then record { window = suc w; something = true; stops = false }
    else record { window = w; something = false; stops = false }

abbrev two_sections : List Section
two_sections = record { negative = true; number = 9 } ∷ record { negative = false; number = 1 } ∷ []

abbrev settings : Settings
settings = record { has_before = false; has_rules = true; has_after = true; section_max_count = 0 }

counted_up :
    run_sections up_to_three 0 9 two_sections (λ s. 0) 0 0
    ≡ some (record { window = 3; ending = finished })
unfolding run_sections is_skipped count_run max_passes
counted_up = refl

-- A limit of two runs.
limited :
    run_sections up_to_three 2 9 two_sections (λ s. 0) 0 0
    ≡ some (record { window = 2; ending = finished })
unfolding run_sections is_skipped count_run max_passes
limited = refl

run_sections-IsSettled_example : IsSettled up_to_three 0 1 3
run_sections-IsSettled_example =
    run_sections-IsSettled up_to_three 9 (record { negative = true; number = 9 } ∷ [])
      (record { negative = false; number = 1 }) (λ s. 0) 0 0
      (record { window = 3; ending = finished }) refl counted_up refl

run_grammar_on_single_window-is_some_example :
    is_some (
      run_grammar_on_single_window
        (up_to_three 0)
        up_to_three
        (up_to_three 2)
        settings
        two_sections
        0)
    ≡ true
run_grammar_on_single_window-is_some_example =
    run_grammar_on_single_window-is_some up_to_three (up_to_three 0) (up_to_three 2) settings
      two_sections 0
