-- ===== src/Dependency.antt =====
-- The dependency tree as src/GrammarApplicator_reflow.cpp builds it: `isChildOf`,
-- `wouldParentChildLoop`, `wouldParentChildCross` and `attachParentChild`. A cohort is known by its
-- global number, less than `2 ^ 32 - 1`; `gWindow->cohort_map` gives the cohort of a number, or does not know it.
pub mod Climb
pub mod Loops
pub mod Attach
use vislcg.Base.{
  ℕ, zero, suc, ◌+◌, ◌-◌, ◌%◌, Bool, true, false, not, ◌&&◌, ◌||◌, List, min, max, word, ltb, ◌==◌,
  if◌then◌else◌,
}
use vislcg.SortedVector

abbrev pub dep_no_parent : ℕ
dep_no_parent = word - 1

-- The fields of a cohort that take part, its `type` by `CT_DEP_DONE` and its `parent` by a number.
pub record Cohort : Type 0 where
  pub dep_self : ℕ
  pub dep_parent : ℕ
  pub dep_children : List ℕ
  pub dep_done : Bool
  pub window : ℕ

-- The cohorts by their global numbers, what `cohort_map` knows, and the options.
pub record Tree : Type 0 where
  pub cohort : ℕ → Cohort
  pub known : ℕ → Bool
  pub dep_block_loops : Bool
  pub dep_block_crossing : Bool
  pub dep_has_spanned : Bool

abbrev pub parent_of : Tree → ℕ → ℕ
parent_of t c = (t.cohort c).dep_parent

-- The loop up the tree that two of the functions have, with at most `fuel` rounds.
abbrev pub is_root : ℕ → Bool
is_root up = up == 0 || up == dep_no_parent

unfoldable pub climb : ℕ → Tree → ℕ → ℕ → Bool
climb zero t inner target = false
climb (suc fuel) t inner target =
    let up = parent_of t inner in
    let further = climb fuel t up target in
    if is_root up
    then false
    else if not (t.known up)
    then false
    else if parent_of t up == target
    then true
    else further

-- The bound of 1000 rounds.
unfoldable pub rounds : ℕ
rounds = 1000

unfoldable pub is_child_of : Tree → ℕ → ℕ → Bool
unfolding climb
is_child_of t child parent =
    if parent == child
    then true
    else if parent == parent_of t child
    then true
    else climb rounds t child parent

unfoldable pub would_parent_child_loop : Tree → ℕ → ℕ → Bool
unfolding climb
would_parent_child_loop t parent child =
    if parent == child
    then true
    else if parent == parent_of t child
    then false
    else if parent == parent_of t parent
    then false
    else if parent_of t parent == child
    then true
    else climb rounds t parent child

-- One round of the loop over the numbers between the two, which does not use the number.
abbrev pub crosses : Tree → ℕ → ℕ → ℕ → Bool
crosses t parent mn mx =
    let up = parent_of t parent in
    t.known up
    && not (parent_of t up == dep_no_parent)
    && (ltb (parent_of t up) mn || ltb mx (parent_of t up))

cross_loop : ℕ → Tree → ℕ → ℕ → ℕ → ℕ → Bool
cross_loop zero t parent mn mx i = false
cross_loop (suc fuel) t parent mn mx i =
    let further = cross_loop fuel t parent mn mx (i + 1) in
    if ltb i mx then if crosses t parent mn mx then true else further else false

unfoldable pub would_parent_child_cross : Tree → ℕ → ℕ → Bool
unfolding cross_loop
would_parent_child_cross t parent child =
    let mn = min parent child in let mx = max parent child in cross_loop mx t parent mn mx (mn + 1)

-- A change of one cohort.
abbrev pub update : Tree → ℕ → (Cohort → Cohort) → Tree
update t g f = record t { cohort = λ h. if h == g then f (t.cohort h) else t.cohort h }

abbrev pub set_self : ℕ → Cohort → Cohort
set_self g c = record c { dep_self = g }

abbrev pub rem_child : ℕ → Cohort → Cohort
unfolding SortedVector.erase
rem_child g c = record c { dep_children = (SortedVector.erase c.dep_children g).0 }

abbrev pub add_child : ℕ → Cohort → Cohort
unfolding SortedVector.insert
add_child g c = record c {
  dep_children = (SortedVector.insert c.dep_children g).0;
  dep_done = true;
}

abbrev pub set_parent : ℕ → Cohort → Cohort
set_parent g c = record c { dep_parent = g; dep_done = true }

-- What `attachParentChild` does once nothing is in the way. The child leaves its old parent's
-- children first; one without a parent counts as its own.
abbrev pub old_parent : Tree → ℕ → ℕ
old_parent t child =
    if parent_of t child == dep_no_parent then (t.cohort child).dep_self else parent_of t child

unfoldable pub link : Tree → ℕ → ℕ → Tree
link t parent child =
    let old = old_parent t child in
    let left = if t.known old then update t old (rem_child (t.cohort child).dep_self) else t in
    let below = update left child (set_parent parent) in
    let linked = update below parent (add_child child) in
    record linked {
      dep_has_spanned =
          t.dep_has_spanned || not ((t.cohort child).window == (t.cohort parent).window);
    }

unfoldable pub attach_parent_child : Tree → ℕ → ℕ → Bool → Bool → Tree × Bool
unfolding link would_parent_child_loop would_parent_child_cross
attach_parent_child t parent child allowloop allowcrossing =
    let t' = update (update t parent (set_self parent)) child (set_self child) in
    if not allowloop && t'.dep_block_loops && would_parent_child_loop t' parent child
    then (t', false)
    else if not allowcrossing && t'.dep_block_crossing && would_parent_child_cross t' parent child
    then (t', false)
    else (link t' parent child, true)
