-- ===== src/Sections/Ends.antt =====
-- The sections of a grammar come to an end, and what that end means.
use vislcg.Binary.Fields.{is_some}
use vislcg.Base.{
  leb, leb→lt, if_elim, ℕ, zero, suc, ◌≤◌, ◌<◌, ◌≡◌, refl, ap, Bool, true, false, not, Option, none,
  some, List, [], ◌∷◌, ◌++◌, arith,
}
use vislcg.Sections.{
  max_passes, count_run, finished, Ran, Section, Outcome, Settings, max_passes, count_run,
  is_skipped, run_sections, enough_rounds, Returned, run_once, is_stopped, then_after, run_middle,
  run_grammar_on_single_window,
}

skip_fuel :
    (s : Section) (sections : List Section) (pass fuel : ℕ)
    → enough_rounds (s ∷ sections) pass ≤ suc fuel
    → enough_rounds sections (suc pass) ≤ fuel
unfolding enough_rounds max_passes
skip_fuel s sections pass fuel e = omega (arith, e)

next_fuel :
    (s : Section) (sections : List Section) (pass fuel : ℕ)
    → enough_rounds (s ∷ sections) pass ≤ suc fuel
    → enough_rounds sections 1 ≤ fuel
unfolding enough_rounds max_passes
next_fuel s sections pass fuel e = omega (arith, e)

pass_fuel :
    (s : Section) (sections : List Section) (pass fuel : ℕ)
    → pass < max_passes
    → enough_rounds (s ∷ sections) pass ≤ suc fuel
    → enough_rounds (s ∷ sections) (suc pass) ≤ fuel
unfolding enough_rounds max_passes
pass_fuel s sections pass fuel l e = omega (arith, e, l)

no_rounds : (sections : List Section) (pass : ℕ) → enough_rounds sections pass ≤ 0 → ⊥
unfolding enough_rounds
no_rounds sections pass e = omega (arith, e)

abbrev ran_with : {W : Type 0} → W → Bool → Bool → Ran W
ran_with w b c = record { window = w; something = b; stops = c }

nothing_done :
    {W : Type 0} (w : W) (b c : Bool)
    → not b ≡ true
    → c ≡ false
    → ran_with w b c ≡ ran_with w false false
nothing_done w true c e f = cc
nothing_done w false c e f = ap (λ d. ran_with w false d) f

never_skipped :
    (counter : ℕ → ℕ) (s : Section) → s.negative ≡ false → is_skipped 0 counter s ≡ true → ⊥
unfolding is_skipped
never_skipped counter s n e = ground (arith, n, e)

module _ {W : Type 0} (run : ℕ → W → Ran W) (max_count : ℕ) where
  run_sections-is_some :
      (fuel : ℕ) (sections : List Section) (counter : ℕ → ℕ) (pass : ℕ) (w : W)
      → enough_rounds sections pass ≤ fuel
      → is_some (run_sections run max_count fuel sections counter pass w) ≡ true
  unfolding run_sections is_some
  run_sections-is_some zero sections counter pass w e = absurd (no_rounds sections pass e)
  run_sections-is_some (suc fuel) [] counter pass w e = refl
  run_sections-is_some (suc fuel) (s ∷ sections) counter pass w e =
      if_elim (λ (o : Option (Outcome W)). is_some o ≡ true) (is_skipped max_count counter s)
        (run_sections run max_count fuel sections counter (suc pass) w) _
        (λ a.
          run_sections-is_some fuel sections counter (suc pass) w
            (skip_fuel s sections pass fuel e))
        (λ a.
          if_elim (λ (o : Option (Outcome W)). is_some o ≡ true) (run s.number w).stops (some _) _
            (λ b. refl)
            (λ b.
              if_elim (λ (o : Option (Outcome W)). is_some o ≡ true)
                (not (run s.number w).something)
                (run_sections run max_count fuel sections (count_run counter s.number) 1
                  (run s.number w).window)
                _
                (λ c.
                  run_sections-is_some fuel sections (count_run counter s.number) 1 _
                    (next_fuel s sections pass fuel e))
                (λ c.
                  if_elim (λ (o : Option (Outcome W)). is_some o ≡ true) (leb max_passes pass)
                    (some _) _ (λ d. refl)
                    (λ d.
                      run_sections-is_some fuel (s ∷ sections) (count_run counter s.number)
                        (suc pass) _
                        (pass_fuel s sections pass fuel (leb→lt max_passes pass d) e)))))

  -- The window is what a run of the section left that did nothing.
  pub record IsSettled (section : ℕ) (w : W) : Type 0 where
    pub before : W
    pub last_run : run section before ≡ record { window = w; something = false; stops = false }

  abbrev Settles : ℕ → Option (Outcome W) → Type 0
  Settles section none = Unit {0}
  Settles section (some o) = o.ending ≡ finished → IsSettled section o.window

  last_run_lem :
      (section : ℕ) (w : W)
      → (run section w).stops ≡ false
      → not (run section w).something ≡ true
      → IsSettled section (run section w).window
  last_run_lem section w a b = record {
    before = w;
    last_run =
        nothing_done (run section w).window (run section w).something (run section w).stops b a;
  }

  last_section :
      (section fuel : ℕ) (counter : ℕ → ℕ) (w : W)
      → (run section w).stops ≡ false
      → not (run section w).something ≡ true
      → Settles section (run_sections run max_count fuel [] counter 1 (run section w).window)
  unfolding run_sections
  last_section section zero counter w a b = tt
  last_section section (suc fuel) counter w a b = λ e. last_run_lem section w a b

module _ {W : Type 0} (run : ℕ → W → Ran W) where
  run_sections-Settles :
      (fuel : ℕ) (front : List Section) (s : Section) (counter : ℕ → ℕ) (pass : ℕ) (w : W)
      → s.negative ≡ false
      → Settles run 0 s.number (run_sections run 0 fuel (front ++ s ∷ []) counter pass w)
  unfolding run_sections
  run_sections-Settles zero front s counter pass w n = tt
  run_sections-Settles (suc fuel) [] s counter pass w n =
      if_elim (λ (o : Option (Outcome W)). Settles run 0 s.number o) (is_skipped 0 counter s)
        (run_sections run 0 fuel [] counter (suc pass) w) _
        (λ z. absurd (never_skipped counter s n z))
        (λ z.
          if_elim (λ (o : Option (Outcome W)). Settles run 0 s.number o) (run s.number w).stops
            (some _) _ (λ a e. cc)
            (λ a.
              if_elim (λ (o : Option (Outcome W)). Settles run 0 s.number o)
                (not (run s.number w).something)
                (run_sections run 0 fuel [] (count_run counter s.number) 1 (run s.number w).window)
                _ (λ b. last_section run 0 s.number fuel (count_run counter s.number) w a b)
                (λ b.
                  if_elim (λ (o : Option (Outcome W)). Settles run 0 s.number o)
                    (leb max_passes pass) (some _) _ (λ c e. cc)
                    (λ c.
                      run_sections-Settles fuel [] s (count_run counter s.number) (suc pass) _ n))))
  run_sections-Settles (suc fuel) (x ∷ front) s counter pass w n =
      if_elim (λ (o : Option (Outcome W)). Settles run 0 s.number o) (is_skipped 0 counter x)
        (run_sections run 0 fuel (front ++ s ∷ []) counter (suc pass) w) _
        (λ z. run_sections-Settles fuel front s counter (suc pass) w n)
        (λ z.
          if_elim (λ (o : Option (Outcome W)). Settles run 0 s.number o) (run x.number w).stops
            (some _) _ (λ a e. cc)
            (λ a.
              if_elim (λ (o : Option (Outcome W)). Settles run 0 s.number o)
                (not (run x.number w).something)
                (run_sections run 0 fuel (front ++ s ∷ []) (count_run counter x.number) 1
                  (run x.number w).window)
                _ (λ b. run_sections-Settles fuel front s (count_run counter x.number) 1 _ n)
                (λ b.
                  if_elim (λ (o : Option (Outcome W)). Settles run 0 s.number o)
                    (leb max_passes pass) (some _) _ (λ c e. cc)
                    (λ c.
                      run_sections-Settles fuel (x ∷ front) s (count_run counter x.number)
                        (suc pass) _ n))))

  -- Where no section is limited to a number of runs and the loop over the sections comes to its end, the last section has run once more
  -- and done nothing, and the window is the one that this run left.
  pub run_sections-IsSettled :
      (fuel : ℕ) (front : List Section) (s : Section) (counter : ℕ → ℕ) (pass : ℕ) (w : W)
      (o : Outcome W)
      → s.negative ≡ false
      → run_sections run 0 fuel (front ++ s ∷ []) counter pass w ≡ some o
      → o.ending ≡ finished
      → IsSettled run 0 s.number o.window
  run_sections-IsSettled fuel front s counter pass w o n e =
      rw (e) at (run_sections-Settles fuel front s counter pass w n)

  then_after-is_some :
      (after_run : W → Ran W) (wanted : Bool) (o : Option (Outcome W))
      → is_some o ≡ true
      → is_some (then_after after_run wanted o) ≡ true
  unfolding then_after is_some
  then_after-is_some after_run wanted none e = e
  then_after-is_some after_run wanted (some o) e =
      if_elim (λ (r : Option (Returned W)). is_some r ≡ true) (is_stopped o.ending) (some _)
        (some _) (λ a. refl) (λ a. refl)

  run_middle-is_some :
      (settings : Settings) (sections : List Section) (w : W)
      → is_some (run_middle run settings sections w) ≡ true
  unfolding run_middle
  run_middle-is_some settings sections w =
      if_elim (λ (o : Option (Outcome W)). is_some o ≡ true) settings.has_rules _ (some _)
        (λ a.
          run_sections-is_some run settings.section_max_count (enough_rounds sections 0) sections
            (λ s. 0) 0 w (omega arith))
        (λ a. unfold is_some in refl)

  -- Running a grammar on a window comes to an end, whatever the rules of its sections do each time: the rounds allowed, one for each of
  -- the 1001 passes over each section and one more, are enough.
  pub run_grammar_on_single_window-is_some :
      (before_run after_run : W → Ran W) (settings : Settings) (sections : List Section) (w : W)
      → is_some (run_grammar_on_single_window before_run run after_run settings sections w) ≡ true
  unfolding run_grammar_on_single_window
  run_grammar_on_single_window-is_some before_run after_run settings sections w =
      if_elim (λ (r : Option (Returned W)). is_some r ≡ true)
        (run_once before_run settings.has_before w).cut (some _) _ (λ a. unfold is_some in refl)
        (λ a.
          then_after-is_some after_run settings.has_after _
            (run_middle-is_some settings sections _))
