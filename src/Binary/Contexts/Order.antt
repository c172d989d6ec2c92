-- ===== src/Binary/Contexts/Order.antt =====
-- The order in which the contextual tests are written: `readContextualTest` looks up the linked test as soon as it reads its hash,
-- so that it has to have been read before.
use mathlib.Core.Path.{subst}
use vislcg.Base.{
  ◌==◌, Bool-cases, ℕ, ◌≡◌, refl, inl, inr, true, false, ◌||◌, Option, some, List, [], ◌∷◌, ◌++◌,
  arith,
}
use vislcg.Binary.Contexts.{
  hashes, optional, context, no_more, also, write_context, write_contexts, Context, Contexts,
  ContextualTest, Context, Contexts, Written, seen_count, and_then, finish_test, write_context,
  write_contexts,
}

-- The hashes that a test refers to.
abbrev pub references : ContextualTest → List ℕ
references t = optional t.tmpl ++ (t.ors ++ optional t.linked)

abbrev pub AllIn : List ℕ → List ℕ → Type 0
AllIn [] hs = Unit {0}
AllIn (r ∷ rs) hs = (seen_count r hs ≡ true) × AllIn rs hs

-- Each test comes behind those that it refers to; the last is first in the list.
abbrev pub IsOrdered : List ContextualTest → Type 0
IsOrdered [] = Unit {0}
IsOrdered (t ∷ ts) = AllIn (references t) (hashes ts) × IsOrdered ts

abbrev pub root : Context → ContextualTest
root (context t tmpl ors linked) = t

abbrev pub roots : Contexts → List ℕ
roots no_more = []
roots (also c cs) = (root c).hash ∷ roots cs

-- No test of the tree has the hash.
unfoldable mutual
  pub Avoids : ℕ → Context → Type 0
  Avoids h (context t tmpl ors linked) =
      ((t.hash == h) ≡ false) × AvoidsEach h tmpl × AvoidsEach h ors × AvoidsEach h linked

  pub AvoidsEach : ℕ → Contexts → Type 0
  AvoidsEach h no_more = Unit {0}
  AvoidsEach h (also c cs) = Avoids h c × AvoidsEach h cs

-- A tree of tests, each of which has a hash other than 0 that does not come again below it, and refers to the tests that it points
-- to.
unfoldable mutual
  pub IsContext : Context → Type 0
  IsContext (context t tmpl ors linked) =
      ((t.hash == 0) ≡ false)
      × (references t ≡ roots tmpl ++ (roots ors ++ roots linked))
      × AvoidsEach t.hash tmpl
      × AvoidsEach t.hash ors
      × AvoidsEach t.hash linked
      × IsEachContext tmpl
      × IsEachContext ors
      × IsEachContext linked

  pub IsEachContext : Contexts → Type 0
  IsEachContext no_more = Unit {0}
  IsEachContext (also c cs) = IsContext c × IsEachContext cs

-- A hash has been seen where it is of a test that is being written, or of one that has been written.
record IsState (pending : List ℕ) (w : Written) : Type 0 where
  seen : (h : ℕ) → seen_count h w.seen ≡ (seen_count h pending || seen_count h (hashes w.tests))
  ordered : IsOrdered w.tests

abbrev Grows : Written → Written → Type 0
Grows w w' = (h : ℕ) → seen_count h (hashes w.tests) ≡ true → seen_count h (hashes w'.tests) ≡ true

-- What writing leaves: the tests from `hs` are there, and all that were there before.
record Leaves (pending hs : List ℕ) (w : Written) (o : Option Written) : Type 0 where
  after : Written
  returned : o ≡ some after
  state : IsState pending after
  grows : Grows w after
  there : AllIn hs (hashes after.tests)

abbrev Apart : List ℕ → Context → Type 0
Apart pending c = (h : ℕ) → seen_count h pending ≡ true → Avoids h c

abbrev ApartEach : List ℕ → Contexts → Type 0
ApartEach pending cs = (h : ℕ) → seen_count h pending ≡ true → AvoidsEach h cs

AllIn-Grows :
    (hs : List ℕ) (w w' : Written)
    → AllIn hs (hashes w.tests)
    → Grows w w'
    → AllIn hs (hashes w'.tests)
AllIn-Grows [] w w' a g = tt
AllIn-Grows (h ∷ hs) w w' (i, a) g = (g h i, AllIn-Grows hs w w' a g)

AllIn-append : (xs ys hs : List ℕ) → AllIn xs hs → AllIn ys hs → AllIn (xs ++ ys) hs
AllIn-append [] ys hs a b = b
AllIn-append (x ∷ xs) ys hs (i, a) b = (i, AllIn-append xs ys hs a b)

enter-IsState :
    (pending : List ℕ) (w : Written) (h : ℕ)
    → IsState pending w
    → IsState (h ∷ pending) (record { seen = h ∷ w.seen; tests = w.tests })
unfolding seen_count
enter-IsState pending w h s = record { seen = λ k. ground (arith, s.seen k); ordered = s.ordered }

finish_test-IsState :
    (pending : List ℕ) (w : Written) (t : ContextualTest)
    → IsState (t.hash ∷ pending) w
    → AllIn (references t) (hashes w.tests)
    → IsState pending (record { seen = w.seen; tests = t ∷ w.tests })
unfolding seen_count
finish_test-IsState pending w t s a = record {
  seen = λ k. ground (arith, s.seen k);
  ordered = (a, s.ordered);
}

same_hash : (a b : ℕ) → (a == b) ≡ true → a ≡ b
same_hash a b e = ground (arith, e)

apart_below :
    (hash : ℕ) (pending : List ℕ) (cs : Contexts)
    → AvoidsEach hash cs
    → ApartEach pending cs
    → ApartEach (hash ∷ pending) cs
unfolding seen_count
apart_below hash pending cs a p h e = elim (Bool-cases (hash == h)) [
  | inl m ↦ subst (λ k. AvoidsEach k cs) (same_hash hash h m) a
  | inr m ↦ p h (rw (m) at e)
]

Apart-seen_count :
    (pending : List ℕ) (w : Written) (c : Context)
    → IsState pending w
    → Apart pending c
    → seen_count (root c).hash w.seen ≡ true
    → seen_count (root c).hash (hashes w.tests) ≡ true
unfolding Avoids
Apart-seen_count pending w (context t tmpl ors linked) s p e =
    elim (Bool-cases (seen_count t.hash pending)) [
      | inl m ↦ absurd (ground (arith, p t.hash m))
      | inr m ↦ ground (arith, s.seen t.hash, e, m)
    ]

skip_node :
    (pending : List ℕ) (w : Written) (c : Context)
    → IsState pending w
    → Apart pending c
    → seen_count (root c).hash w.seen ≡ true
    → Leaves pending ((root c).hash ∷ []) w (write_context c w)
unfolding write_context
skip_node pending w (context t tmpl ors linked) s p e = record {
  after = w;
  returned = rw (e) refl;
  state = s;
  grows = λ h k. k;
  there = (Apart-seen_count pending w (context t tmpl ors linked) s p e, tt);
}

-- The state in which a test's own dependencies are written.
abbrev entered : ContextualTest → Written → Written
entered t w = record { seen = t.hash ∷ w.seen; tests = w.tests }

write_node :
    (pending : List ℕ) (t : ContextualTest) (tmpl ors linked : Contexts) (w : Written)
    → IsState pending w
    → IsContext (context t tmpl ors linked)
    → seen_count t.hash w.seen ≡ false
    → (a : Leaves (t.hash ∷ pending) (roots tmpl) (entered t w) (write_contexts tmpl (entered t w)))
    → (b : Leaves (t.hash ∷ pending) (roots ors) a.after (write_contexts ors a.after))
    → Leaves (t.hash ∷ pending) (roots linked) b.after (write_contexts linked b.after)
    → Leaves pending (t.hash ∷ []) w (write_context (context t tmpl ors linked) w)
unfolding write_context IsContext and_then finish_test seen_count
write_node pending t tmpl ors linked w s (nz, refs, _, _, _, _, _, _) e a b c = record {
  after = record { seen = c.after.seen; tests = t ∷ c.after.tests };
  returned = rw (e, a.returned, b.returned, c.returned, nz) refl;
  state = finish_test-IsState pending c.after t c.state (
      rw (refs) (
        AllIn-append (roots tmpl) _ _
          (AllIn-Grows _ b.after c.after (AllIn-Grows _ a.after b.after a.there b.grows) c.grows)
          (AllIn-append (roots ors) _ _ (AllIn-Grows _ b.after c.after b.there c.grows) c.there)));
  grows = λ h i. ground (arith, c.grows h (b.grows h (a.grows h i)));
  there = (ground arith, tt);
}

mutual
  unfolding write_context IsContext Avoids and_then

  write_context-Leaves :
      (c : Context) (pending : List ℕ) (w : Written)
      → IsState pending w
      → Apart pending c
      → IsContext c
      → Leaves pending ((root c).hash ∷ []) w (write_context c w)
  write_context-Leaves (context t tmpl ors linked) pending w s p
        (nz, refs, at, ao, al, it, io, il) =
      elim (Bool-cases (seen_count t.hash w.seen)) [
        | inl e ↦ skip_node pending w (context t tmpl ors linked) s p e
        | inr e ↦
            let apart_t = apart_below t.hash pending tmpl at λ h k. (p h k).1 in
            let apart_o = apart_below t.hash pending ors ao λ h k. (p h k).2 in
            let apart_l = apart_below t.hash pending linked al λ h k. (p h k).3 in
            let a =
              write_contexts-Leaves tmpl (t.hash ∷ pending) (entered t w)
                (enter-IsState pending w t.hash s) apart_t it in
            let b = write_contexts-Leaves ors (t.hash ∷ pending) a.after a.state apart_o io in
            let c = write_contexts-Leaves linked (t.hash ∷ pending) b.after b.state apart_l il in
            write_node pending t tmpl ors linked w s (nz, refs, at, ao, al, it, io, il) e a b c
      ]

  write_contexts-Leaves :
      (cs : Contexts) (pending : List ℕ) (w : Written)
      → IsState pending w
      → ApartEach pending cs
      → IsEachContext cs
      → Leaves pending (roots cs) w (write_contexts cs w)
  write_contexts-Leaves no_more pending w s p i = record {
    after = w;
    returned = refl;
    state = s;
    grows = λ h e. e;
    there = tt;
  }
  write_contexts-Leaves (also c cs) pending w s p (ic, ics) =
      let a = write_context-Leaves c pending w s (λ h e. (p h e).0) ic in
      let b = write_contexts-Leaves cs pending a.after a.state (λ h e. (p h e).1) ics in
      record {
        after = b.after;
        returned = rw (a.returned, b.returned) refl;
        state = b.state;
        grows = λ h e. b.grows h (a.grows h e);
        there = (b.grows (root c).hash (a.there).0, b.there);
      }

start_IsState : IsState [] (record { seen = []; tests = [] })
start_IsState = record { seen = λ h. unfold seen_count in refl; ordered = tt }

none_pending : (cs : Contexts) → ApartEach [] cs
unfolding seen_count
none_pending cs h e = cc

-- Where every test of a grammar has a hash other than 0, which no test that it leads to has again, and the hashes that it refers to are
-- those of the tests that it points to, the writing of the tests does not end the program: every test comes after those that it
-- refers to, and the tests of the grammar are all there.
pub write_contexts-IsOrdered :
    (cs : Contexts)
    → IsEachContext cs
    → (w : Written) × (write_contexts cs (record { seen = []; tests = [] }) ≡ some w)
      × IsOrdered w.tests
      × AllIn (roots cs) (hashes w.tests)
write_contexts-IsOrdered cs i =
    let done =
      write_contexts-Leaves cs [] (record { seen = []; tests = [] }) start_IsState (none_pending cs)
        i in
    (done.after, done.returned, done.state.ordered, done.there)
