-- ===== src/Rules/Keep.antt =====
-- A rule that discards readings loses none, and a safe one leaves one.
use vislcg.Base.{
  ℕ, ◌<◌, ◌≡◌, ◌≢◌, refl, true, false, [], arith, if_elim, length, Bool-cases, inl, inr,
}
use vislcg.Rules.{
  Keyword, k_select, k_remove, k_iff, is_select, is_iff, Rule, Env, Cohort, Scanning, Sorted, start,
  sort_readings, move_out, moved, undone, act, apply_rule, skips_first, skips_second, is_safe,
  type_met,
}
use vislcg.Rules.Scan.{count, Scans, scan-Scans}
use vislcg.Rules.Sort.{Sorts, sort_readings-Sorts, sort_readings-selects, some_in}
use vislcg.Rules.Move.{
  count_all, nothing, removes_stay, selects_stay, length-moved_removes, length-moved_selects,
}

abbrev Kept : Env → Rule → Cohort → Cohort → Type 0
Kept env rule c t =
    ((k : ℕ) → count_all k t ≡ count_all k c)
    × (is_safe env rule ≡ true → 0 < length c.readings → 0 < length t.readings)

some_remain :
    (env : Env) (rule : Rule) (type : Keyword) (x : Sorted)
    → is_select type ≡ false
    → is_iff type ≡ false
    → is_safe env rule ≡ true
    → undone env rule type x ≡ false
    → length x.removed ≢ length x.readings
some_remain env rule k_select x e f g u = cc
some_remain env rule k_remove x e f g u = ground arith
some_remain env rule k_iff x e f g u = cc

undone_select :
    (env : Env) (rule : Rule) (type : Keyword) (x : Sorted)
    → is_select type ≡ true
    → undone env rule type x ≡ false
undone_select env rule k_select x e = refl
undone_select env rule k_remove x e = cc
undone_select env rule k_iff x e = cc

module _ (env : Env) (rule : Rule) (c : Cohort) (s : Scanning)
    (scans : Scans rule c.readings (start rule) s) where
  abbrev sorted : Sorted
  sorted = sort_readings rule s.type (length s.done) nothing s.done

  sorts : Sorts s.type s.done nothing sorted
  sorts = sort_readings-Sorts rule s.type (length s.done) s.done nothing

  full_of_select :
      is_select s.type ≡ true → skips_second env rule s ≡ false → some_in sorted.selected ≡ true
  full_of_select e h = elim (scans.accounts e) [
    | inl (none_active, not_iff) ↦ ground arith
    | inr m ↦ sort_readings-selects rule s.type (length s.done) s.done nothing e m
  ]

  count_same : (k : ℕ) → count k s.done ≡ count k c.readings
  count_same k = omega (arith, scans.counts k)

  selects-Kept :
      is_select s.type ≡ true
      → skips_second env rule s ≡ false
      → Kept env rule c (moved rule c sorted sorted.removed)
  selects-Kept e h =
      let full = full_of_select e h in
      (
        λ k. omega (arith, count_same k, selects_stay rule s.type c s.done sorted sorts e full k),
        λ _ _. length-moved_selects rule s.type c s.done sorted sorts sorted.removed full,
      )

  removes-Kept :
      is_select s.type ≡ false
      → is_iff s.type ≡ false
      → Kept env rule c (move_out env rule s.type c sorted)
  unfolding move_out
  removes-Kept e f =
      if_elim (λ gone. Kept env rule c (moved rule c sorted gone)) (undone env rule s.type sorted) _
        _
        (λ u. (
          λ k. omega (
            arith,
            count_same k,
            removes_stay rule s.type c s.done sorted sorts [] e (λ j. omega arith) k,
          ),
          λ safe some.
              omega
                (arith, scans.longer, length-moved_removes rule s.type c s.done sorted sorts [] e),
        ))
        (λ u. (
          λ k. omega (
            arith,
            count_same k,
            removes_stay rule s.type c s.done sorted sorts sorted.removed e (λ j. omega arith) k,
          ),
          λ safe some. omega (
            arith,
            scans.longer,
            sorts.longer,
            sorts.grows,
            some_remain env rule s.type sorted e f safe u,
            length-moved_removes rule s.type c s.done sorted sorts sorted.removed e,
          ),
        ))

  not_iff : is_iff s.type ≡ false
  not_iff = scans.typed (ground arith)

  move_out-Kept :
      skips_second env rule s ≡ false → Kept env rule c (move_out env rule s.type c sorted)
  unfolding move_out
  move_out-Kept h = elim (Bool-cases (is_select s.type)) [
    | inl e ↦ rw (undone_select env rule s.type sorted e) (selects-Kept e h)
    | inr e ↦ removes-Kept e not_iff
  ]

  act-Kept : Kept env rule c (act env rule c s)
  act-Kept =
      if_elim (Kept env rule c) (skips_second env rule s) _ _
        (λ _. (λ k. omega (arith, count_same k), λ _ some. omega (arith, scans.longer)))
        (λ h. move_out-Kept h)

module _ (env : Env) (rule : Rule) (carried : Keyword) (c : Cohort) where
  apply_rule-Kept : Kept env rule c (apply_rule env rule carried c)
  unfolding apply_rule
  apply_rule-Kept =
      if_elim (Kept env rule c) (skips_first env rule (type_met rule carried) c.readings) _ _
        (λ _. (λ k. refl, λ _ h. h))
        (λ _.
          act-Kept env rule c _
            (scan-Scans env rule c.readings (start rule) (λ e. inl (refl, ground arith))))

  -- At each address, the readings that a cohort has, those discarded and those delayed are together
  -- as many as before the rule: none is lost and none is doubled.
  pub count-apply_rule : (k : ℕ) → count_all k (apply_rule env rule carried c) ≡ count_all k c
  count-apply_rule = apply_rule-Kept.0

  -- A safe rule leaves a cohort that has a reading at least one.
  pub length-apply_rule :
      is_safe env rule ≡ true
      → 0 < length c.readings
      → 0 < length (apply_rule env rule carried c).readings
  length-apply_rule = apply_rule-Kept.1
