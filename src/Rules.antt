-- ===== src/Rules.antt =====
-- The rules that discard readings, SELECT, REMOVE and IFF, as `runRulesOnSingleWindow` of
-- src/GrammarApplicator_runRules.cpp applies one of them to one cohort: the tests that skip the
-- cohort, the loop that finds the readings that the rule is for, the loop that sorts them out, and
-- what is moved in the end. The rule works on whole readings (`sub_reading` 0) and its cohort is not
-- changed by ATTACHTO. Its tests stay in their order, as under KEEPORDER; traces, statistics and
-- dry runs are off.
pub mod Scan
pub mod Sort
pub mod Move
pub mod Keep
pub mod Protect
use vislcg.Base.{ℕ, zero, suc, ◌+◌, ◌-◌, Bool, true, false, not, ◌&&◌, ◌||◌}
use vislcg.Base.{List, [], ◌∷◌, ◌++◌, Option, none, some, ltb, ◌==◌, if◌then◌else◌, length, rejoin}

-- The three of `KEYWORDS`.
pub data Keyword : Type 0 where
  k_select k_remove k_iff : Keyword

abbrev pub is_select : Keyword → Bool
is_select k_select = true
is_select _ = false

abbrev pub is_remove : Keyword → Bool
is_remove k_remove = true
is_remove _ = false

abbrev pub is_iff : Keyword → Bool
is_iff k_iff = true
is_iff _ = false

-- A reading, with its address for an identity and only whether it has a mapping tag.
pub record Reading : Type 0 where
  pub address : ℕ
  pub hash_plain : ℕ
  pub has_mapping : Bool
  pub mapped : Bool
  pub deleted : Bool
  pub noprint : Bool
  pub matched_target : Bool
  pub matched_tests : Bool
  pub immutable : Bool

-- The flags of a rule that take part.
pub record Rule : Type 0 where
  pub type : Keyword
  pub rf_safe : Bool
  pub rf_unsafe : Bool
  pub rf_delayed : Bool
  pub rf_unmaplast : Bool

pub record Cohort : Type 0 where
  pub readings : List Reading
  pub deleted : List Reading
  pub delayed : List Reading

-- What the loops ask of the rest of the program: whether the rule's target set matches a reading,
-- and whether that captured regular expression groups; the outcome of each contextual test, and
-- whether unification has stored anything by then; the options; and the type of the target set.
pub record Env : Type 0 where
  pub matches : Reading → Bool
  pub captures : Reading → Bool
  pub tests : List (Reading → Bool)
  pub unified : Reading → Bool
  pub allow_magic_readings : Bool
  pub unsafe : Bool
  pub has_protect : Bool
  pub plain_set : Bool
  pub unspecial_set : Bool

-- The state of the first loop.
pub record Scanning : Type 0 where
  pub type : Keyword
  pub num_active : ℕ
  pub num_iff : ℕ
  pub did_test : Bool
  pub test_good : Bool
  pub readings_plain : List (ℕ × Reading)
  pub done : List Reading

-- `readings_plain.find`
abbrev find_plain : ℕ → List (ℕ × Reading) → Option Reading
find_plain h [] = none
find_plain h ((k, r) ∷ m) = if k == h then some r else find_plain h m

-- The loop over `rule.tests`. It stops at the first test that fails.
pub record Tested : Type 0 where
  pub good : Bool
  pub did_test : Bool
  pub test_good : Bool

run_tests : Env → List (Reading → Bool) → Reading → Bool → Bool → Tested
run_tests env [] r did last = record { good = true; did_test = did; test_good = last }
run_tests env (t ∷ ts) r did last =
    let rest = run_tests env ts r (env.unspecial_set && not (env.unified r)) true in
    if t r then rest else record { good = false; did_test = did; test_good = false }

abbrev pub mark_matched : Reading → Reading
mark_matched r = record r { matched_target = true; matched_tests = true }

-- When IFF turns into SELECT: the loop that is to bring back the protected readings before this
-- one, `for (j = 0; i < j; ++j)`.
abbrev bring_back : ℕ → List Reading → List Reading
bring_back j [] = []
bring_back zero (r ∷ rs) = (if r.immutable then mark_matched r else r) ∷ rs
bring_back (suc j) (r ∷ rs) = r ∷ bring_back j rs

abbrev immutable_at : ℕ → List Reading → Bool
immutable_at j [] = false
immutable_at zero (r ∷ rs) = r.immutable
immutable_at (suc j) (r ∷ rs) = immutable_at j rs

-- The readings, and by how much `num_active` and `num_iff` grow.
protect_earlier : ℕ → ℕ → ℕ → ℕ → List Reading → List Reading × ℕ
protect_earlier zero i j n rs = (rs, n)
protect_earlier (suc fuel) i j n rs =
    let n' = if immutable_at j rs then n + 1 else n in
    let rest = protect_earlier fuel i (j + 1) n' (bring_back j rs) in
    if ltb i j then rest else (rs, n)

-- A reading that the loop passes by.
abbrev pass_by : Scanning → Reading → Scanning
pass_by s r = record s { done = s.done ++ r ∷ [] }

-- The contextual tests of a reading that matches the target, run or with their last outcome.
abbrev tested : Env → Scanning → Reading → Tested
tested env s r =
    let did = if env.captures r then false else s.did_test in
    if did
    then record { good = s.test_good; did_test = did; test_good = s.test_good }
    else run_tests env env.tests r did s.test_good

-- The reading passed, and IFF turns into SELECT with it.
abbrev passed : Env → Rule → Scanning → Reading → Tested → Scanning
passed env rule s r t =
    let i = length s.done in
    let turns = is_iff rule.type && not (is_select s.type) in
    let (before, more) =
      if turns && env.has_protect then protect_earlier (i + 1) i 0 0 s.done else (s.done, 0) in
    record {
      type = if turns then k_select else s.type;
      num_active = s.num_active + more + 1;
      num_iff = s.num_iff + more + 1;
      did_test = t.did_test;
      test_good = t.test_good;
      readings_plain = s.readings_plain ++ (r.hash_plain, mark_matched r) ∷ [];
      done = before ++ mark_matched r ∷ [];
    }

abbrev failed : Scanning → Reading → Tested → Scanning
failed s r t = record s {
  num_iff = s.num_iff + 1;
  did_test = t.did_test;
  test_good = t.test_good;
  readings_plain = s.readings_plain ++ (r.hash_plain, record r { matched_target = true }) ∷ [];
  done = s.done ++ record r { matched_target = true } ∷ [];
}

abbrev settle : Env → Rule → Scanning → Reading → Tested → Scanning
settle env rule s r t = if t.good then passed env rule s r t else failed s r t

target_matched : Env → Rule → Scanning → Reading → Scanning
unfolding run_tests protect_earlier
target_matched env rule s r = settle env rule s r (tested env s r)

-- The same plain signature was met before: copy the outcome.
abbrev copy_matched : Scanning → Reading → Reading → Scanning
copy_matched s r o = record s {
  num_active = if o.matched_tests then s.num_active + 1 else s.num_active;
  done =
      s.done
      ++ record r { matched_target = o.matched_target; matched_tests = o.matched_tests } ∷ [];
}

abbrev pub immutable_met : Scanning → Reading → Scanning
immutable_met s r = record s {
  num_active = s.num_active + 1;
  num_iff = s.num_iff + 1;
  done = s.done ++ (if is_select s.type then mark_matched r else r) ∷ [];
}

abbrev look_up : Env → Rule → Scanning → Reading → Option Reading → Scanning
look_up env rule s r (some o) = copy_matched s r o
look_up env rule s r none = if env.matches r then target_matched env rule s r else record s {
  readings_plain = s.readings_plain ++ (r.hash_plain, r) ∷ [];
  done = s.done ++ r ∷ [];
}

-- One round of the first loop, on a reading whose old state has been cleared.
pub scan_reading : Env → Rule → Scanning → Reading → Scanning
unfolding target_matched
scan_reading env rule s r =
    if r.noprint && not env.allow_magic_readings
    then pass_by s r
    else if r.immutable
    then immutable_met s r
    else look_up env rule s r
        (if env.plain_set then find_plain r.hash_plain s.readings_plain else none)

abbrev pub clear : Reading → Reading
clear r = record r { matched_target = false; matched_tests = false }

pub scan : Env → Rule → Scanning → List Reading → Scanning
unfolding scan_reading
scan env rule s [] = s
scan env rule s (r ∷ rs) = scan env rule (scan_reading env rule s (clear r)) rs

-- IFF rules count as REMOVE until a reading passes the tests.
abbrev pub start : Rule → Scanning
start rule = record {
  type = if is_iff rule.type then k_remove else rule.type;
  num_active = 0;
  num_iff = 0;
  did_test = false;
  test_good = false;
  readings_plain = [];
  done = [];
}

-- The last reading may not go.
abbrev pub is_safe : Env → Rule → Bool
is_safe env rule = (not env.unsafe || rule.rf_safe) && not rule.rf_unsafe

-- The local `type` outlives the loop over the cohorts: IFF meets a cohort with what it turned into
-- on the last one, `carried`, which for the other rules is the rule's own type.
abbrev pub type_met : Rule → Keyword → Keyword
type_met rule carried = if is_iff rule.type then carried else rule.type

-- The tests of the number of readings before the first loop, `true` to skip the cohort.
abbrev pub skips_first : Env → Rule → Keyword → List Reading → Bool
skips_first env rule type [] = true
skips_first env rule type (r ∷ []) = is_select type || r.noprint || is_safe env rule
skips_first env rule type (r ∷ s ∷ rs) = false

-- The tests after the first loop.
abbrev pub skips_second : Env → Rule → Scanning → Bool
skips_second env rule s =
    (s.num_active == 0 && (s.num_iff == 0 || not (is_iff rule.type)))
    || (s.num_active == length s.done
        && (is_select s.type || (is_remove s.type && is_safe env rule)))

-- The second loop, over the readings with the index reached: what is to be removed and selected,
-- and the readings themselves, of which `unmapReading` may change one.
pub record Sorted : Type 0 where
  pub removed : List Reading
  pub selected : List Reading
  pub readings : List Reading

-- `unmapReading`, as far as the flags go
abbrev unmap : Reading → Reading
unmap r = record r {
  noprint = if r.has_mapping then false else r.noprint;
  has_mapping = false;
  mapped = false;
}

abbrev pub is_good : Rule → Keyword → Reading → Bool
is_good rule type r = r.matched_tests || (is_iff rule.type && is_remove type && r.matched_target)

pub sort_reading : Rule → Keyword → ℕ → Sorted → Reading → Sorted
sort_reading rule type n s r =
    if is_select type
    then if is_good rule type r
      then record s { selected = s.selected ++ r ∷ []; readings = s.readings ++ r ∷ [] }
      else record s { removed = s.removed ++ r ∷ []; readings = s.readings ++ r ∷ [] }
    else if is_good rule type r
    then if rule.rf_unmaplast && length s.removed == n - 1
      then record s { readings = s.readings ++ unmap r ∷ [] }
      else record s { removed = s.removed ++ r ∷ []; readings = s.readings ++ r ∷ [] }
    else record s { readings = s.readings ++ r ∷ [] }

pub sort_readings : Rule → Keyword → ℕ → Sorted → List Reading → Sorted
unfolding sort_reading
sort_readings rule type n s [] = s
sort_readings rule type n s (r ∷ rs) = sort_readings rule type n (sort_reading rule type n s r) rs

-- The inner loop that takes one reading out: it trades places with the last.
abbrev behind_last : Reading → List Reading → List Reading
behind_last s [] = s ∷ []
behind_last s (l ∷ front) = l ∷ s ∷ front

last_first : List Reading → List Reading
last_first [] = []
last_first (s ∷ ss) = behind_last s (last_first ss)

pub take_out : ℕ → List Reading → List Reading
unfolding last_first
take_out x [] = []
take_out x (r ∷ rs) = if r.address == x then last_first rs else r ∷ take_out x rs

-- `while (!removed.empty())`, from the back; `out` is `removed` reversed.
pub take_out_all : List Reading → List Reading → List Reading
unfolding take_out
take_out_all [] rs = rs
take_out_all (x ∷ out) rs = take_out_all out (take_out x.address rs)

abbrev pub mark_deleted : List Reading → List Reading
mark_deleted [] = []
mark_deleted (r ∷ rs) = record r { deleted = true } ∷ mark_deleted rs

-- What is done with the sorted readings; the last argument is the reading of `initEmptyCohort`.
abbrev pub swap_in : List Reading → List Reading → List Reading
swap_in [] rs = rs
swap_in (s ∷ ss) rs = s ∷ ss

abbrev or_magic : Reading → List Reading → List Reading
or_magic magic [] = magic ∷ []
or_magic magic (r ∷ rs) = r ∷ rs

-- All readings are to go, and the rule may not take the last one.
abbrev pub undone : Env → Rule → Keyword → Sorted → Bool
undone env rule type s = is_remove type && length s.removed == length s.readings && is_safe env rule

pub moved : Rule → Cohort → Sorted → List Reading → Cohort
unfolding take_out_all
moved rule c s removed =
    let gone = mark_deleted removed in
    record {
      readings = swap_in s.selected (take_out_all (rejoin removed []) s.readings);
      deleted = if rule.rf_delayed then c.deleted else c.deleted ++ gone;
      delayed = if rule.rf_delayed then c.delayed ++ gone else c.delayed;
    }

pub move_out : Env → Rule → Keyword → Cohort → Sorted → Cohort
unfolding moved
move_out env rule type c s = moved rule c s (if undone env rule type s then [] else s.removed)

abbrev pub act : Env → Rule → Cohort → Scanning → Cohort
act env rule c s =
    if skips_second env rule s
    then record c { readings = s.done }
    else move_out env rule s.type c (
        sort_readings rule s.type (length s.done)
          (record { removed = []; selected = []; readings = [] }) s.done)

-- The rule on the cohort, up to the reading that a cohort without readings is given.
unfoldable pub apply_rule : Env → Rule → Keyword → Cohort → Cohort
unfolding scan sort_readings move_out
apply_rule env rule carried c =
    if skips_first env rule (type_met rule carried) c.readings
    then c
    else act env rule c (scan env rule (start rule) c.readings)

-- `magic` is the reading of `initEmptyCohort`.
unfoldable pub run_rule : Env → Rule → Keyword → Reading → Cohort → Cohort
unfolding apply_rule
run_rule env rule carried magic c =
    let c' = apply_rule env rule carried c in
    if skips_first env rule (type_met rule carried) c.readings
    then c
    else record c' { readings = or_magic magic c'.readings }
