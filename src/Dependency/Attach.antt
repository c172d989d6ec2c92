-- ===== src/Dependency/Attach.antt =====
-- Attaching keeps the tree free of loops, as long as `wouldParentChildLoop` can see far enough.
use vislcg.Base.{
  ℕ, zero, suc, ◌≡◌, refl, sym, ◌∙◌, Bool, true, false, not, ◌&&◌, arith, ◌==◌, if◌then◌else◌,
  if_elim, ap,
}
use vislcg.Dependency.{
  Cohort, would_parent_child_cross, Tree, parent_of, is_root, would_parent_child_loop, update,
  set_self, set_parent, rem_child, add_child, old_parent, link, attach_parent_child,
}
use vislcg.Dependency.Climb.{on_map, Above}
use vislcg.SortedVector.{elem, IsSorted, sorted_insert_lem, sorted_erase_lem}
use vislcg.Dependency.Loops.{
  NoLoops, Within, Links, link-NoLoops, parent_not_child, not-Above, parent_on_map,
}

-- Trees whose cohorts have the same parents.
abbrev Alike : Tree → Tree → Type 0
Alike t t' = (c : ℕ) → (parent_of t' c ≡ parent_of t c) × (t'.known c ≡ t.known c)

Above-Alike : (t t' : Tree) (n c d : ℕ) → Alike t t' → Above t' n c d → Above t n c d
Above-Alike t t' zero c d same a = sym (same c).0 ∙ a
Above-Alike t t' (suc n) c d same a = (
  rw (sym (same c).0)
      (sym (ap (λ k. not (is_root (parent_of t' c)) && k) (same (parent_of t' c)).1) ∙ a.0),
  rw (sym (same c).0) (Above-Alike t t' n (parent_of t' c) d same a.1),
)

NoLoops-Alike : (t t' : Tree) → Alike t t' → NoLoops t → NoLoops t'
NoLoops-Alike t t' same h n c o a =
    (same c).0 ∙ h n c (ground (arith, o, (same c).1)) (Above-Alike t t' n c c same a)

abbrev marked : Tree → ℕ → ℕ → Tree
marked t parent child = update (update t parent (set_self parent)) child (set_self child)

marked-Alike : (t : Tree) (parent child : ℕ) → Alike t (marked t parent child)
marked-Alike t parent child c = (ground arith, refl)

Alike-sym : (t t' : Tree) → Alike t t' → Alike t' t
Alike-sym t t' same c = (sym (same c).0, sym (same c).1)

update_keeps :
    (t : Tree) (g : ℕ) (f : Cohort → Cohort) (c : ℕ)
    → ((x : Cohort) → (f x).dep_parent ≡ x.dep_parent)
    → parent_of (update t g f) c ≡ parent_of t c
update_keeps t g f c keeps =
    if_elim (λ (x : Cohort). x.dep_parent ≡ parent_of t c) (c == g) (f (t.cohort c)) (t.cohort c)
      (λ _. keeps (t.cohort c)) (λ _. refl)

update_sets :
    (t : Tree) (g p c : ℕ)
    → parent_of (update t g (set_parent p)) c ≡ (if c == g then p else parent_of t c)
update_sets t g p c =
    if_elim (λ (x : Cohort). x.dep_parent ≡ (if c == g then p else parent_of t c)) (c == g)
      (set_parent p (t.cohort c)) (t.cohort c) (λ e. rw e refl) (λ e. rw e refl)

link-Links : (t : Tree) (parent child : ℕ) → Links t (link t parent child) parent child
unfolding link add_child rem_child
link-Links t parent child c =
    let old = old_parent t child in
    if_elim
      (λ (left : Tree).
        (parent_of (update (update left child (set_parent parent)) parent (add_child child)) c
          ≡ (if c == child then parent else parent_of t c))
        × (left.known c ≡ t.known c))
      (t.known old) (update t old (rem_child (t.cohort child).dep_self)) t
      (λ _. (
        update_keeps
              (update (update t old (rem_child (t.cohort child).dep_self)) child
                (set_parent parent))
              parent (add_child child) c (λ x. refl)
            ∙ update_sets (update t old (rem_child (t.cohort child).dep_self)) child parent c
            ∙ rw (update_keeps t old (rem_child (t.cohort child).dep_self) c (λ x. refl)) refl,
        refl,
      ))
      (λ _. (
        update_keeps (update t child (set_parent parent)) parent (add_child child) c (λ x. refl)
            ∙ update_sets t child parent c,
        refl,
      ))

-- Attaching where nothing is in the way.
attached-NoLoops :
    (t : Tree) (parent child : ℕ)
    → would_parent_child_loop t parent child ≡ false
    → on_map t child ≡ true
    → Within t parent child
    → NoLoops t
    → NoLoops (link t parent child)
attached-NoLoops t parent child answer o within h =
    let links = link-Links t parent child in
    link-NoLoops t (link t parent child) parent child links (parent_not_child t parent child answer)
      (λ r.
        not-Above t parent child answer h within o
          (parent_on_map t (link t parent child) parent child links r))
      h

-- `attachParentChild` does not make a loop where loops are blocked and not allowed for the call: from a tree without
-- loops, if the child is a cohort of the map and is not above the parent by more than the thousand
-- rounds that the test makes, the tree afterwards has no loops, whether the child was attached or not.
pub attach_parent_child-NoLoops :
    (t : Tree) (parent child : ℕ) (allowcrossing : Bool)
    → t.dep_block_loops ≡ true
    → on_map t child ≡ true
    → Within t parent child
    → NoLoops t
    → NoLoops (attach_parent_child t parent child false allowcrossing).0
unfolding attach_parent_child
attach_parent_child-NoLoops t parent child allowcrossing blocked o within h =
    let t' = marked t parent child in
    let same = marked-Alike t parent child in
    let h' = NoLoops-Alike t t' same h in
    let within' : Within t' parent child = λ n a.
      let (m, less, above) = within n (Above-Alike t t' n parent child same a) in
      (m, less, Above-Alike t' t m parent child (Alike-sym t t' same) above) in
    if_elim (λ (r : Tree × Bool). NoLoops r.0)
      (t.dep_block_loops && would_parent_child_loop t' parent child) (t', false) _ (λ _. h')
      (λ e.
        if_elim (λ (r : Tree × Bool). NoLoops r.0)
          (not allowcrossing && t.dep_block_crossing && would_parent_child_cross t' parent child)
          (t', false) (link t' parent child, true) (λ _. h')
          (λ _. attached-NoLoops t' parent child (ground (arith, e)) o within' h'))

abbrev ChildrenSorted : Cohort → Type 0
ChildrenSorted c = IsSorted c.dep_children

update_sorted :
    (t : Tree) (g : ℕ) (f : Cohort → Cohort) (c : ℕ)
    → ((x : Cohort) → ChildrenSorted x → ChildrenSorted (f x))
    → ChildrenSorted (t.cohort c)
    → ChildrenSorted ((update t g f).cohort c)
update_sorted t g f c keeps s =
    if_elim ChildrenSorted (c == g) (f (t.cohort c)) (t.cohort c) (λ _. keeps (t.cohort c) s)
      (λ _. s)

add_child-lists :
    (g : ℕ) (x : Cohort) → ChildrenSorted x → elem g (add_child g x).dep_children ≡ true
unfolding add_child
add_child-lists g x s = ground (arith, (sorted_insert_lem x.dep_children g s).1 g)

rem_child-sorted : (g : ℕ) (x : Cohort) → ChildrenSorted x → ChildrenSorted (rem_child g x)
unfolding rem_child
rem_child-sorted g x s = (sorted_erase_lem x.dep_children g s).0

abbrev Lists : ℕ → Cohort → Type 0
Lists g c = elem g c.dep_children ≡ true

listed :
    (left : Tree) (parent child : ℕ)
    → ChildrenSorted (left.cohort parent)
    → Lists child
        ((update (update left child (set_parent parent)) parent (add_child child)).cohort parent)
listed left parent child s =
    let below = update left child (set_parent parent) in
    if_elim (Lists child) (parent == parent) (add_child child (below.cohort parent))
      (below.cohort parent)
      (λ _.
        add_child-lists child (below.cohort parent)
          (update_sorted left child (set_parent parent) parent (λ x g. g) s))
      (λ e. absurd (ground (arith, e)))

link-lists :
    (t : Tree) (parent child : ℕ)
    → ChildrenSorted (t.cohort parent)
    → Lists child ((link t parent child).cohort parent)
unfolding link
link-lists t parent child s =
    let old = old_parent t child in
    let leave = rem_child (t.cohort child).dep_self in
    if_elim
      (λ (left : Tree).
        Lists child
          ((update (update left child (set_parent parent)) parent (add_child child)).cohort parent))
      (t.known old) (update t old leave) t
      (λ _.
        listed (update t old leave) parent child
          (update_sorted t old leave parent (rem_child-sorted _) s))
      (λ _. listed t parent child s)

-- A cohort that was attached has its new parent, and the parent lists it.
pub attach_parent_child-attached :
    (t : Tree) (parent child : ℕ) (allowloop allowcrossing : Bool)
    → IsSorted (t.cohort parent).dep_children
    → (attach_parent_child t parent child allowloop allowcrossing).1 ≡ true
    → let t' = (attach_parent_child t parent child allowloop allowcrossing).0 in
      (parent_of t' child ≡ parent) × (elem child (t'.cohort parent).dep_children ≡ true)
unfolding attach_parent_child
attach_parent_child-attached t parent child allowloop allowcrossing s =
    let t' = marked t parent child in
    let P : Tree × Bool → Type 0 = λ r.
      r.1 ≡ true
      → (parent_of r.0 child ≡ parent) × (elem child (r.0.cohort parent).dep_children ≡ true) in
    if_elim P (not allowloop && t.dep_block_loops && would_parent_child_loop t' parent child)
      (t', false) _ (λ _ f. cc)
      (λ _.
        if_elim P
          (not allowcrossing && t.dep_block_crossing && would_parent_child_cross t' parent child)
          (t', false) (link t' parent child, true) (λ _ f. cc)
          (λ _ _. (
            ground (arith, link-Links t' parent child child),
            link-lists t' parent child (
                update_sorted (update t parent (set_self parent)) child (set_self child) parent
                  (λ x g. g) (update_sorted t parent (set_self parent) parent (λ x g. g) s)),
          )))
