-- ===== src/Rules/Scan.antt =====
-- The first loop keeps the readings, changes nothing but their flags, and counts right.
use vislcg.Base.{
  ℕ, zero, suc, ◌+◌, ◌≡◌, refl, ◌∙◌, ap, Bool, true, false, not, ◌&&◌, ◌||◌, List, [], ◌∷◌, ◌++◌,
  Option, none, some, arith, ◌==◌, if◌then◌else◌, length, length-append, Bool-cases, if_elim, inl,
  inr, ◌⊎◌,
}
use vislcg.Rules.{
  tested, passed, failed, is_select, is_iff, Reading, Rule, Env, Scanning, Tested, scan,
  scan_reading, target_matched, protect_earlier, mark_matched, clear, look_up, copy_matched,
  immutable_met,
}

-- What is the same but for the outcome of the matching.
abbrev pub SameButFlags : Reading → Reading → Type 0
SameButFlags r s = (r.address ≡ s.address) × (r.immutable ≡ s.immutable) × (r.noprint ≡ s.noprint)

abbrev pub count : ℕ → List Reading → ℕ
count k [] = 0
count k (r ∷ rs) = if r.address == k then suc (count k rs) else count k rs

pub count-append : (k : ℕ) (rs ss : List Reading) → count k (rs ++ ss) ≡ count k rs + count k ss
count-append k [] ss = omega arith
count-append k (r ∷ rs) ss = ground (arith, count-append k rs ss)

unfoldable pub any_matched : List Reading → Bool
any_matched [] = false
any_matched (r ∷ rs) = r.matched_tests || any_matched rs

pub any_matched-append :
    (rs ss : List Reading) → any_matched (rs ++ ss) ≡ (any_matched rs || any_matched ss)
unfolding any_matched
any_matched-append [] ss = refl
any_matched-append (r ∷ rs) ss = ground (arith, any_matched-append rs ss)

any_matched_more : (rs ss : List Reading) → any_matched rs ≡ true → any_matched (rs ++ ss) ≡ true
any_matched_more rs ss h = ground (arith, any_matched-append rs ss)

any_matched_last :
    (rs : List Reading) (r : Reading) → r.matched_tests ≡ true → any_matched (rs ++ r ∷ []) ≡ true
unfolding any_matched
any_matched_last rs r h = ground (arith, any_matched-append rs (r ∷ []))

-- The loop that is to bring back protected readings begins at 0 and runs while `i < 0`.
protect_earlier-eq : (fuel i : ℕ) (rs : List Reading) → protect_earlier fuel i 0 0 rs ≡ (rs, 0)
unfolding protect_earlier
protect_earlier-eq zero i rs = refl
protect_earlier-eq (suc fuel) i rs = ground arith

-- If the rule is for SELECT now, it was from the start and nothing is active, or a reading has
-- passed.
abbrev pub Accounts : Rule → Scanning → Type 0
Accounts rule s =
    is_select s.type ≡ true
    → ((s.num_active ≡ 0) × (is_iff rule.type ≡ false)) ⊎ (any_matched s.done ≡ true)

-- One round adds one reading with the same address behind those done.
pub record Adds (rule : Rule) (s : Scanning) (r : Reading) (t : Scanning) : Type 0 where
  pub added : Reading
  pub behind : t.done ≡ s.done ++ added ∷ []
  pub same : SameButFlags added r
  pub accounts : Accounts rule t
  pub typed : is_iff s.type ≡ false → is_iff t.type ≡ false
  pub steady : is_iff rule.type ≡ false → t.type ≡ s.type

module _ (env : Env) (rule : Rule) (s : Scanning) (r : Reading) (before : Accounts rule s) where
  done-passed : (t : Tested) → (passed env rule s r t).done ≡ s.done ++ mark_matched r ∷ []
  done-passed t = ground (arith, protect_earlier-eq (length s.done + 1) (length s.done) s.done)

  passed-Adds : (t : Tested) → Adds rule s r (passed env rule s r t)
  passed-Adds t = record {
    added = mark_matched r;
    behind = done-passed t;
    same = (refl, refl, refl);
    accounts =
        λ _. inr (ap any_matched (done-passed t) ∙ any_matched_last s.done (mark_matched r) refl);
    typed = λ e. ground arith;
    steady = λ e. ground arith;
  }

  -- What is put behind leaves the account as it was.
  still :
      (a : Reading)
      → is_select s.type ≡ true
      → ((s.num_active ≡ 0) × (is_iff rule.type ≡ false)) ⊎ (any_matched (s.done ++ a ∷ []) ≡ true)
  still a e = elim (before e) [
    | inl none_active ↦ inl none_active
    | inr m ↦ inr (any_matched_more s.done (a ∷ []) m)
  ]

  failed-Adds : (t : Tested) → Adds rule s r (failed s r t)
  failed-Adds t = record {
    added = record r { matched_target = true };
    behind = refl;
    same = (refl, refl, refl);
    accounts = still _;
    typed = λ e. e;
    steady = λ e. refl;
  }

  copy_matched-Adds : (o : Reading) → Adds rule s r (copy_matched s r o)
  copy_matched-Adds o = record {
    added = record r { matched_target = o.matched_target; matched_tests = o.matched_tests };
    behind = refl;
    same = (refl, refl, refl);
    accounts = λ e. elim (Bool-cases o.matched_tests) [
      | inl m ↦ inr (any_matched_last s.done _ m)
      | inr m ↦ rw m (still _ e)
    ];
    typed = λ e. e;
    steady = λ e. refl;
  }

  immutable_met-Adds : Adds rule s r (immutable_met s r)
  immutable_met-Adds = record {
    added = if is_select s.type then mark_matched r else r;
    behind = refl;
    same = ground arith;
    accounts = λ e. inr (any_matched_last s.done _ (rw e refl));
    typed = λ e. e;
    steady = λ e. refl;
  }

  target_matched-Adds : Adds rule s r (target_matched env rule s r)
  unfolding target_matched
  target_matched-Adds = elim (Bool-cases (tested env s r).good) [
    | inl e ↦ rw e (passed-Adds (tested env s r))
    | inr e ↦ rw e (failed-Adds (tested env s r))
  ]

  look_up-Adds : (o : Option Reading) → Adds rule s r (look_up env rule s r o)
  look_up-Adds (some o) = copy_matched-Adds o
  look_up-Adds none = elim (Bool-cases (env.matches r)) [
    | inl e ↦ rw e target_matched-Adds
    | inr e ↦ rw e (record {
      added = r;
      behind = refl;
      same = (refl, refl, refl);
      accounts = still r;
      typed = λ e. e;
      steady = λ e. refl;
    })
  ]

  pub scan_reading-Adds : Adds rule s r (scan_reading env rule s r)
  unfolding scan_reading
  scan_reading-Adds =
      if_elim (Adds rule s r) (r.noprint && not env.allow_magic_readings) _ _
        (λ _. record {
          added = r;
          behind = refl;
          same = (refl, refl, refl);
          accounts = still r;
          typed = λ e. e;
          steady = λ e. refl;
        })
        (λ _.
          if_elim (Adds rule s r) r.immutable _ _ (λ _. immutable_met-Adds) (λ _. look_up-Adds _))

count_one :
    (k : ℕ) (a r : Reading) (rs : List Reading) (n : ℕ)
    → a.address ≡ r.address
    → n + count k (a ∷ []) + count k rs ≡ n + count k (r ∷ rs)
count_one k a r rs n same = ground arith

-- The whole loop: as many readings as before at each address, and the account.
pub record Scans (rule : Rule) (rs : List Reading) (s t : Scanning) : Type 0 where
  pub counts : (k : ℕ) → count k t.done ≡ count k s.done + count k rs
  pub longer : length t.done ≡ length s.done + length rs
  pub accounts : Accounts rule t
  pub typed : is_iff s.type ≡ false → is_iff t.type ≡ false
  pub steady : is_iff rule.type ≡ false → t.type ≡ s.type

pub scan-Scans :
    (env : Env) (rule : Rule) (rs : List Reading) (s : Scanning)
    → Accounts rule s
    → Scans rule rs s (scan env rule s rs)
unfolding scan
scan-Scans env rule [] s h = record {
  counts = λ k. omega arith;
  longer = omega arith;
  accounts = h;
  typed = λ e. e;
  steady = λ e. refl;
}
scan-Scans env rule (r ∷ rs) s h =
    let a = scan_reading-Adds env rule s (clear r) h in
    let rest = scan-Scans env rule rs (scan_reading env rule s (clear r)) a.accounts in
    record {
      counts = λ k.
          rest.counts k
          ∙ ap (λ n. n + count k rs) (ap (count k) a.behind ∙ count-append k s.done (a.added ∷ []))
          ∙ count_one k a.added r rs (count k s.done) a.same.0;
      longer = omega (arith, rest.longer, ap length a.behind, length-append s.done (a.added ∷ []));
      accounts = rest.accounts;
      typed = λ e. rest.typed (a.typed e);
      steady = λ e. rest.steady e ∙ a.steady e;
    }
