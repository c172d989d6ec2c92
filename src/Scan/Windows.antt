-- ===== src/Scan/Windows.antt =====
-- Which cohorts a test that may not leave the window comes to.
use mathlib.Core.List.{append-nil}
use vislcg.Base.{
  ℕ, Bool, true, false, if◌then◌else◌, List, [], ◌∷◌, ◌++◌, ◌≡◌, ◌≢◌, refl, arith, ap, ◌∙◌,
}
use vislcg.Scan.{Cohort, visited}

abbrev pub AllIn : ℕ → List Cohort → Type 0
AllIn w [] = Unit {0}
AllIn w (c ∷ cs) = (c.window ≡ w) × AllIn w cs

abbrev pub BeginsOutside : ℕ → List Cohort → Type 0
BeginsOutside w [] = Unit {0}
BeginsOutside w (c ∷ cs) = c.window ≢ w

-- Whether the last of some cohorts is enclosed, or, if there are none, what is given.
abbrev pub last_enclosed : Bool → List Cohort → Bool
last_enclosed before [] = before
last_enclosed before (c ∷ cs) = last_enclosed c.is_enclosed cs

abbrev pub not_enclosed : List Cohort → List Cohort
not_enclosed [] = []
not_enclosed (c ∷ cs) = let rest = not_enclosed cs in if c.is_enclosed then rest else c ∷ rest

-- One cohort of the window.
visited_in :
    (w : ℕ) (within : Bool) (c : Cohort) (cs : List Cohort)
    → c.window ≡ w
    → visited false w within (c ∷ cs)
      ≡ (if c.is_enclosed then visited false w true cs else c ∷ visited false w false cs)
unfolding visited
visited_in w within c cs e = ground (arith, e, ap (λ (v : ℕ). visited false v false cs) e)

visited_past :
    (w : ℕ) (within : Bool) (inside outside : List Cohort)
    → AllIn w inside
    → visited false w within (inside ++ outside)
      ≡ not_enclosed inside ++ visited false w (last_enclosed within inside) outside
visited_past w within [] outside a = refl
visited_past w within (c ∷ cs) outside a =
    visited_in w within c (cs ++ outside) a.0
    ∙ step c.is_enclosed (visited_past w c.is_enclosed cs outside a.1)
  where
    step :
        (enclosed : Bool)
        → visited false w enclosed (cs ++ outside)
          ≡ not_enclosed cs ++ visited false w (last_enclosed enclosed cs) outside
        → (if enclosed
            then visited false w true (cs ++ outside)
            else c ∷ visited false w false (cs ++ outside))
          ≡ (if enclosed then not_enclosed cs else c ∷ not_enclosed cs)
            ++ visited false w (last_enclosed enclosed cs) outside
    step true e = e
    step false e = ap (λ (l : List Cohort). c ∷ l) e

left_window :
    (w : ℕ) (outside : List Cohort) → BeginsOutside w outside → visited false w false outside ≡ []
unfolding visited
left_window w [] b = refl
left_window w (c ∷ cs) b = ground (arith, b)

past_enclosed :
    (w : ℕ) (c : Cohort) (cs : List Cohort)
    → c.is_enclosed ≡ false
    → visited false w true (c ∷ cs) ≡ c ∷ visited false c.window false cs
unfolding visited
past_enclosed w c cs o = ground (arith, o)

-- A test that may not leave the window comes to the cohorts of the window that follow and are not enclosed, and to no other, where
-- the last cohort of the window is not enclosed.
pub visited-inside :
    (w : ℕ) (inside outside : List Cohort)
    → AllIn w inside
    → BeginsOutside w outside
    → last_enclosed false inside ≡ false
    → visited false w false (inside ++ outside) ≡ not_enclosed inside
unfolding visited
visited-inside w inside outside a b l =
    visited_past w false inside outside a
    ∙ ap (λ (b : Bool). not_enclosed inside ++ visited false w b outside) l
    ∙ ap (λ (l : List Cohort). not_enclosed inside ++ l) (left_window w outside b)
    ∙ append-nil (not_enclosed inside)

-- Where the last cohort of the window is enclosed, a test that may not leave the window goes on to the next cohort that is not, be it
-- of another window, and through that window.
pub visited-crosses :
    (w : ℕ) (inside : List Cohort) (c : Cohort) (cs : List Cohort)
    → AllIn w inside
    → last_enclosed false inside ≡ true
    → c.is_enclosed ≡ false
    → visited false w false (inside ++ c ∷ cs)
      ≡ not_enclosed inside ++ c ∷ visited false c.window false cs
unfolding visited
visited-crosses w inside c cs a l o =
    visited_past w false inside (c ∷ cs) a
    ∙ ap (λ (b : Bool). not_enclosed inside ++ visited false w b (c ∷ cs)) l
    ∙ ap (λ (l : List Cohort). not_enclosed inside ++ l) (past_enclosed w c cs o)
