-- ===== src/Binary/Contexts/Refused.antt =====
-- What a test without a hash does to `writeContextualTest`.
use mathlib.Core.Path.{subst}
use vislcg.Base.{
  ◌==◌, ◌≡◌, refl, true, false, Option, none, some, ◌∷◌, arith, Bool-cases, inl, inr, ap, ◌∙◌, sym,
  if_elim, ==_iff,
}
use vislcg.Binary.Contexts.{
  ContextualTest, Context, Contexts, context, no_more, also, Written, seen_count, and_then,
  finish_test, write_context, write_contexts,
}
use vislcg.Binary.Contexts.Order.{root, roots}

-- No test without a hash has been met, or the program has ended.
abbrev Unmet : Option Written → Type 0
Unmet none = Unit {0}
Unmet (some w) = seen_count 0 w.seen ≡ false

then-Unmet :
    (o : Option Written) (f : Written → Option Written)
    → Unmet o
    → ((w : Written) → seen_count 0 w.seen ≡ false → Unmet (f w))
    → Unmet (and_then o f)
unfolding and_then
then-Unmet none f u h = tt
then-Unmet (some w) f u h = h w u

finish-Unmet :
    (t : ContextualTest) (w : Written) → seen_count 0 w.seen ≡ false → Unmet (finish_test t w)
unfolding finish_test
finish-Unmet t w u = if_elim Unmet (t.hash == 0) none _ (λ _. tt) (λ _. u)

-- What a test with the hash 0 leaves.
then-none :
    (o : Option Written) (f : Written → Option Written)
    → ((w : Written) → f w ≡ none)
    → and_then o f ≡ none
unfolding and_then
then-none none f h = refl
then-none (some w) f h = h w

node_none :
    (t : ContextualTest) (tmpl ors linked : Contexts) (w : Written)
    → t.hash ≡ 0
    → seen_count 0 w.seen ≡ false
    → write_context (context t tmpl ors linked) w ≡ none
unfolding write_context finish_test
node_none t tmpl ors linked w z u =
    let e : seen_count t.hash w.seen ≡ false = ap (λ h. seen_count h w.seen) z ∙ u in
    rw e (then-none _ (finish_test t) (λ v. rw z refl))

entered :
    (t : ContextualTest) (w : Written)
    → (t.hash == 0) ≡ false
    → seen_count 0 w.seen ≡ false
    → seen_count 0 (t.hash ∷ w.seen) ≡ false
unfolding seen_count
entered t w z u = ground (arith, z, u)

mutual
  unfolding write_context

  write_context-Unmet :
      (c : Context) (w : Written) → seen_count 0 w.seen ≡ false → Unmet (write_context c w)
  write_context-Unmet (context t tmpl ors linked) w u = elim (Bool-cases (t.hash == 0)) [
    | inl z ↦ subst Unmet (sym (node_none t tmpl ors linked w ((==_iff t.hash 0).0 z) u)) tt
    | inr z ↦
        if_elim Unmet (seen_count t.hash w.seen) (some w) _ (λ _. u)
          (λ _.
            then-Unmet _ (finish_test t)
              (then-Unmet _ (write_contexts linked)
                (then-Unmet _ (write_contexts ors)
                  (write_contexts-Unmet tmpl (record { seen = t.hash ∷ w.seen; tests = w.tests })
                    (entered t w z u))
                  (write_contexts-Unmet ors))
                (write_contexts-Unmet linked))
              (finish-Unmet t))
  ]

  write_contexts-Unmet :
      (cs : Contexts) (w : Written) → seen_count 0 w.seen ≡ false → Unmet (write_contexts cs w)
  write_contexts-Unmet no_more w u = u
  write_contexts-Unmet (also c cs) w u =
      then-Unmet (write_context c w) (write_contexts cs) (write_context-Unmet c w u)
        (write_contexts-Unmet cs)

zero_rooted :
    (c : Context) (w : Written)
    → (root c).hash ≡ 0
    → seen_count 0 w.seen ≡ false
    → write_context c w ≡ none
zero_rooted (context t tmpl ors linked) w z u = node_none t tmpl ors linked w z u

-- A test in `grammar->contexts` without a hash is met, so that the program ends.
pub tests_refused :
    (cs : Contexts) (w : Written)
    → seen_count 0 (roots cs) ≡ true
    → seen_count 0 w.seen ≡ false
    → write_contexts cs w ≡ none
unfolding write_contexts seen_count and_then
tests_refused no_more w m u = cc
tests_refused (also c cs) w m u = elim (Bool-cases ((root c).hash == 0)) [
  | inl z ↦
      ap (λ o. and_then o (write_contexts cs)) (zero_rooted c w ((==_iff (root c).hash 0).0 z) u)
      ∙ none_stays (write_contexts cs)
  | inr z ↦
      later (write_context c w) (write_context-Unmet c w u)
        (λ v k. tests_refused cs v (ground (arith, m, z)) k)
]
  where
    none_stays : (f : Written → Option Written) → and_then none f ≡ none
    none_stays f = refl

    later :
        (o : Option Written)
        → Unmet o
        → ((v : Written) → seen_count 0 v.seen ≡ false → write_contexts cs v ≡ none)
        → and_then o (write_contexts cs) ≡ none
    later none k h = none_stays (write_contexts cs)
    later (some v) k h = h v k
