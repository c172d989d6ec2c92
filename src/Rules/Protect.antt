-- ===== src/Rules/Protect.antt =====
-- What becomes of the protected readings, those that PROTECT has made immutable.
use vislcg.Base.{
  ℕ, ◌+◌, ◌≡◌, refl, Bool, true, false, not, ◌&&◌, ◌||◌, List, [], ◌∷◌, ◌++◌, arith, ◌==◌,
  if◌then◌else◌, if_elim, length, Bool-cases, inl, inr,
}
use vislcg.Rules.{
  Keyword, is_select, is_iff, Reading, Rule, Env, Cohort, Scanning, Sorted, scan, scan_reading,
  clear, immutable_met, start, sort_reading, sort_readings, mark_deleted, move_out, moved, undone,
  act, apply_rule, skips_first, skips_second, type_met,
}
use vislcg.Rules.Scan.{count, count-append, Accounts, Adds, scan_reading-Adds}
use vislcg.Rules.Move.{nothing, count-mark_deleted}
use vislcg.Rules.Keep.{count-apply_rule}

-- A protected reading that the rule sees.
abbrev pub guarded : Env → Reading → Bool
guarded env r = r.immutable && not (r.noprint && not env.allow_magic_readings)

-- All readings at an address are.
abbrev pub all_guarded : Env → ℕ → List Reading → Bool
all_guarded env k [] = true
all_guarded env k (r ∷ rs) = (not (r.address == k) || guarded env r) && all_guarded env k rs

-- All readings at an address are marked so that the second loop keeps them.
held : Keyword → ℕ → List Reading → Bool
held type k [] = true
held type k (r ∷ rs) =
    (not (r.address == k) || (if is_select type then r.matched_tests else not r.matched_tests))
    && held type k rs

held-append :
    (type : Keyword) (k : ℕ) (rs ss : List Reading)
    → held type k rs ≡ true
    → held type k ss ≡ true
    → held type k (rs ++ ss) ≡ true
unfolding held
held-append type k [] ss h g = g
held-append type k (r ∷ rs) ss h g = ground (arith, held-append type k rs ss)

module _ (env : Env) (rule : Rule) (k : ℕ) (plain : is_iff rule.type ≡ false) where
  immutable_met-held :
      (s : Scanning) (r : Reading)
      → held s.type k s.done ≡ true
      → held s.type k (immutable_met s (clear r)).done ≡ true
  unfolding held
  immutable_met-held s r h = held-append s.type k s.done _ h (
      if_elim (λ x. held s.type k (x ∷ []) ≡ true) (is_select s.type) _ _ (λ e. ground (arith, e))
        (λ e. ground (arith, e)))

  scan_reading-guarded :
      (s : Scanning) (r : Reading)
      → guarded env r ≡ true
      → scan_reading env rule s (clear r) ≡ immutable_met s (clear r)
  unfolding scan_reading
  scan_reading-guarded s r g = ground arith

  added_other :
      (s t : Scanning) (r : Reading)
      → Adds rule s r t
      → (r.address == k) ≡ false
      → held s.type k s.done ≡ true
      → held t.type k t.done ≡ true
  unfolding held
  added_other s t r a e h =
      rw (a.behind, a.steady plain)
        (held-append s.type k s.done (a.added ∷ []) h (ground (arith, a.same.0)))

  scan_reading-held :
      (s : Scanning) (r : Reading)
      → Accounts rule s
      → (not (r.address == k) || guarded env r) ≡ true
      → held s.type k s.done ≡ true
      → held (scan_reading env rule s (clear r)).type k (scan_reading env rule s (clear r)).done
        ≡ true
  scan_reading-held s r acc g h = elim (Bool-cases (r.address == k)) [
    | inl e ↦ rw (scan_reading-guarded s r (ground arith)) (immutable_met-held s r h)
    | inr e ↦ added_other s _ (clear r) (scan_reading-Adds env rule s (clear r) acc) e h
  ]

  scan-held :
      (rs : List Reading) (s : Scanning)
      → Accounts rule s
      → all_guarded env k rs ≡ true
      → held s.type k s.done ≡ true
      → held (scan env rule s rs).type k (scan env rule s rs).done ≡ true
  unfolding scan
  scan-held [] s acc g h = h
  scan-held (r ∷ rs) s acc g h =
      scan-held rs (scan_reading env rule s (clear r))
        (scan_reading-Adds env rule s (clear r) acc).accounts (ground arith)
        (scan_reading-held s r acc (ground arith) h)

  sort_reading-held :
      (type : Keyword) (n : ℕ) (s : Sorted) (r : Reading)
      → held type k (r ∷ []) ≡ true
      → count k s.removed ≡ 0
      → count k (sort_reading rule type n s r).removed ≡ 0
  unfolding sort_reading held
  sort_reading-held type n s r g h = ground (arith, count-append k s.removed (r ∷ []))

  sort_readings-held :
      (type : Keyword) (n : ℕ) (rs : List Reading) (s : Sorted)
      → held type k rs ≡ true
      → count k s.removed ≡ 0
      → count k (sort_readings rule type n s rs).removed ≡ 0
  unfolding sort_readings held
  sort_readings-held type n [] s g h = h
  sort_readings-held type n (r ∷ rs) s g h =
      sort_readings-held type n rs (sort_reading rule type n s r) (ground arith)
        (sort_reading-held type n s r (ground arith) h)

  moved-held :
      (c : Cohort) (s : Sorted) (gone : List Reading)
      → count k gone ≡ 0
      → count k (moved rule c s gone).deleted + count k (moved rule c s gone).delayed
        ≡ count k c.deleted + count k c.delayed
  unfolding moved
  moved-held c s gone h = ground (
    arith,
    h,
    count-append k c.deleted (mark_deleted gone),
    count-append k c.delayed (mark_deleted gone),
    count-mark_deleted k gone,
  )

  act-held :
      (c : Cohort) (s : Scanning)
      → held s.type k s.done ≡ true
      → count k (act env rule c s).deleted + count k (act env rule c s).delayed
        ≡ count k c.deleted + count k c.delayed
  unfolding move_out
  act-held c s h =
      let sorted = sort_readings rule s.type (length s.done) nothing s.done in
      if_elim
        (λ (t : Cohort).
          count k t.deleted + count k t.delayed ≡ count k c.deleted + count k c.delayed)
        (skips_second env rule s) _ _ (λ _. refl)
        (λ _. moved-held c sorted _ (
          if_elim (λ gone. count k gone ≡ 0) (undone env rule s.type sorted) _ _ (λ _. refl)
            (λ _. sort_readings-held s.type (length s.done) s.done nothing h refl)))

  discarded-apply_rule :
      (carried : Keyword) (c : Cohort)
      → all_guarded env k c.readings ≡ true
      → (count k (apply_rule env rule carried c).deleted
          + count k (apply_rule env rule carried c).delayed)
        ≡ count k c.deleted + count k c.delayed
  unfolding apply_rule held
  discarded-apply_rule carried c g =
      if_elim
        (λ (t : Cohort).
          count k t.deleted + count k t.delayed ≡ count k c.deleted + count k c.delayed)
        (skips_first env rule (type_met rule carried) c.readings) _ _ (λ _. refl)
        (λ _.
          act-held c (scan env rule (start rule) c.readings)
            (scan-held c.readings (start rule) (λ e. inl (refl, plain)) g refl))

  -- SELECT and REMOVE keep what is protected: where the rule sees every reading at an address and all of them
  -- are immutable, the cohort has as many of them after the rule as before it.
  pub apply_rule-guarded :
      (carried : Keyword) (c : Cohort)
      → all_guarded env k c.readings ≡ true
      → count k (apply_rule env rule carried c).readings ≡ count k c.readings
  apply_rule-guarded carried c g =
      omega (arith, count-apply_rule env rule carried c k, discarded-apply_rule carried c g)
