-- ===== src/Sections.antt =====
-- Running the sections of a grammar on a window: `runGrammarOnSingleWindow` of src/GrammarApplicator_runRules.cpp. What
-- `runRulesOnSingleWindow` does with the rules of a section is a parameter.
pub mod Ends
use vislcg.Base.{
  ltb, leb, ◌==◌, if◌then◌else◌, ltb→lt, ltb→le, leb→le, leb→lt, ==_iff, Bool-cases, Option-cases,
  if_elim, length, rejoin, length-append, length-rejoin, ℕ, zero, suc, ◌+◌, ◌-◌, ◌*◌, ◌/◌, ◌%◌, ◌^◌,
  ◌≤◌, ◌<◌, min, max, ◌≡◌, refl, sym, ap, ◌∙◌, ◌≢◌, ◌↔◌, ◌⊎◌, inl, inr, Bool, true, false, not,
  ◌&&◌, ◌||◌, Option, none, some, List, [], ◌∷◌, ◌++◌, map, arith, word,
}

-- What a run of `runRulesOnSingleWindow` leaves: the window, and whether it returned `RV_SOMETHING`, and `RV_DELIMITED` or
-- `RV_TRACERULE`.
pub record Ran (W : Type 0) : Type 0 where
  pub window : W
  pub something : Bool
  pub stops : Bool

-- An entry of `runsections`; the sections before and after the others have negative numbers.
pub record Section : Type 0 where
  pub negative : Bool
  pub number : ℕ

pub data Ending : Type 0 where
  finished : Ending
  stopped : Ending
  endless : Ending

pub record Outcome (W : Type 0) : Type 0 where
  pub window : W
  pub ending : Ending

-- The grammar's before-sections, rules and after-sections, where it has them and they are not switched off, and
-- `section_max_count`.
pub record Settings : Type 0 where
  pub has_before : Bool
  pub has_rules : Bool
  pub has_after : Bool
  pub section_max_count : ℕ

-- The number of passes after which the loop gives up.
unfoldable pub max_passes : ℕ
max_passes = 1000

-- `++counter[section]`.
unfoldable pub count_run : (ℕ → ℕ) → ℕ → ℕ → ℕ
count_run counter section s = if s == section then suc (counter s) else counter s

unfoldable pub is_skipped : ℕ → (ℕ → ℕ) → Section → Bool
is_skipped max_count counter s =
    s.negative || (not (max_count == 0) && leb max_count (counter s.number))

-- The loop over the sections, from `iter` on; `pass` is increased at the end of each round, and set back when a section is done.
unfoldable pub run_sections :
    {W : Type 0} → (ℕ → W → Ran W) → ℕ → ℕ → List Section → (ℕ → ℕ) → ℕ → W → Option (Outcome W)
run_sections run max_count zero sections counter pass w = none
run_sections run max_count (suc fuel) [] counter pass w =
    some (record { window = w; ending = finished })
run_sections run max_count (suc fuel) (s ∷ sections) counter pass w =
    let ran = run s.number w in
    let skipped = run_sections run max_count fuel sections counter (suc pass) w in
    let counted = count_run counter s.number in
    let later = run_sections run max_count fuel sections counted 1 ran.window in
    let again = run_sections run max_count fuel (s ∷ sections) counted (suc pass) ran.window in
    if is_skipped max_count counter s
    then skipped
    else if ran.stops
    then some (record { window = ran.window; ending = stopped })
    else if not ran.something
    then later
    else if leb max_passes pass
    then some (record { window = ran.window; ending = endless })
    else again

-- A round for each pass over each section, and more.
unfoldable pub enough_rounds : List Section → ℕ → ℕ
enough_rounds sections pass = suc (length sections * suc max_passes + (suc max_passes - pass))

-- What comes back: the window, and whether the run was cut short.
pub record Returned (W : Type 0) : Type 0 where
  pub window : W
  pub cut : Bool

unfoldable pub run_once : {W : Type 0} → (W → Ran W) → Bool → W → Returned W
run_once run wanted w =
    let ran = run w in
    if wanted
    then record { window = ran.window; cut = ran.stops }
    else record { window = w; cut = false }

unfoldable pub is_stopped : Ending → Bool
is_stopped finished = false
is_stopped stopped = true
is_stopped endless = false

unfoldable pub then_after :
    {W : Type 0} → (W → Ran W) → Bool → Option (Outcome W) → Option (Returned W)
then_after after_run wanted none = none
then_after after_run wanted (some o) =
    if is_stopped o.ending
    then some (record { window = o.window; cut = true })
    else some (run_once after_run wanted o.window)

unfoldable pub run_middle :
    {W : Type 0} → (ℕ → W → Ran W) → Settings → List Section → W → Option (Outcome W)
run_middle run settings sections w =
    if settings.has_rules
    then run_sections run settings.section_max_count (enough_rounds sections 0) sections (λ s. 0) 0
        w
    else some (record { window = w; ending = finished })

-- `runGrammarOnSingleWindow`. An endless loop ends with a warning, and the after-sections are still run.
unfoldable pub run_grammar_on_single_window :
    {W : Type 0}
    → (W → Ran W)
    → (ℕ → W → Ran W)
    → (W → Ran W)
    → Settings
    → List Section
    → W
    → Option (Returned W)
run_grammar_on_single_window before_run run after_run settings sections w =
    let first = run_once before_run settings.has_before w in
    let rest =
      then_after after_run settings.has_after (run_middle run settings sections first.window) in
    if first.cut then some first else rest
