-- ===== src/Tagging/Mapped.antt =====
-- When adding a tag ends the program.
use vislcg.Base.{
  ◌==◌, if◌then◌else◌, if_elim, ℕ, ◌≡◌, refl, ap, ◌∙◌, Bool, true, false, not, ◌&&◌, ◌||◌, Option,
  none, some,
}
use vislcg.Binary.Fields.{is_some}
use vislcg.Tagging.{
  Environment, Reading, State, is_mapping_of, add_hash, add_string, first_char, add_mapping,
  then_finish, generated, add_tag_to_reading,
}

-- The tag is a mapping tag, and the reading has another one.
abbrev pub is_refused : Environment → ℕ → Reading → Bool
is_refused env h r =
    ((env.tag h).is_mapping || first_char (env.tag h).text == env.mapping_prefix)
    && (is_some r.mapping && not (is_mapping_of r.mapping h))

by_cases :
    (env : Environment) (again : Bool) (h : ℕ) (s : State) (a b : Bool) (x r : Reading)
    → is_some (then_finish env again h s (if a then if b then none else some x else some r))
      ≡ not (a && b)
unfolding then_finish is_some
by_cases env again h s true true x r = refl
by_cases env again h s true false x r = refl
by_cases env again h s false b x r = refl

refused :
    (env : Environment) (again : Bool) (h : ℕ) (s : State) (r : Reading) (m : Option ℕ)
    → r.mapping ≡ m
    → is_some (then_finish env again h s (add_mapping env h r))
      ≡ not (
          ((env.tag h).is_mapping || first_char (env.tag h).text == env.mapping_prefix)
          && (is_some m && not (is_mapping_of m h)))
unfolding add_mapping
refused env again h s r m e =
    by_cases env again h s
      ((env.tag h).is_mapping || first_char (env.tag h).text == env.mapping_prefix) _ _ r
    ∙ ap
        (λ (m : Option ℕ). not (
          ((env.tag h).is_mapping || first_char (env.tag h).text == env.mapping_prefix)
          && (is_some m && not (is_mapping_of m h))))
        e

string_mapping :
    (env : Environment) (h : ℕ) (r : Reading)
    → (add_string env h (add_hash h r)).mapping ≡ r.mapping
unfolding add_string add_hash
string_mapping env h r =
    if_elim (λ (s : Reading). s.mapping ≡ r.mapping) env.ordered _ _ (λ e. refl) (λ e. refl)

-- Adding a tag fails exactly where it is a mapping tag and the reading has another one already.
pub add_tag_to_reading-refused :
    (env : Environment) (again : Bool) (tag : ℕ) (s : State)
    → is_some (add_tag_to_reading env again tag s)
      ≡ not (is_refused env (generated env tag) s.reading)
unfolding add_tag_to_reading
add_tag_to_reading-refused env again tag s =
    refused env again (generated env tag) s _ s.reading.mapping
      (string_mapping env (generated env tag) s.reading)
