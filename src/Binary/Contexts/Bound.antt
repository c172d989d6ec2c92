-- ===== src/Binary/Contexts/Bound.antt =====
-- Tests in the order in which they are written, as reading meets them: what they refer to is there.
use vislcg.Base.{
  ℕ, true, if◌then◌else◌, List, [], ◌∷◌, ◌++◌, Option, none, some, ◌≡◌, refl, arith, rejoin, ap,
  ◌∙◌, sym,
}
use vislcg.Binary.Contexts.{ContextualTest, seen_count, hashes, optional, all_seen, all_bound}
use vislcg.Binary.Contexts.Order.{AllIn, IsOrdered}
use vislcg.Binary.Contexts.RoundTrip.{IsLinkedBefore}

AllIn-left : (xs ys hs : List ℕ) → AllIn (xs ++ ys) hs → AllIn xs hs
AllIn-left [] ys hs a = tt
AllIn-left (x ∷ xs) ys hs a = (a.0, AllIn-left xs ys hs a.1)

AllIn-right : (xs ys hs : List ℕ) → AllIn (xs ++ ys) hs → AllIn ys hs
AllIn-right [] ys hs a = a
AllIn-right (x ∷ xs) ys hs a = AllIn-right xs ys hs a.1

one_of :
    (o : Option ℕ) (n : ℕ) (hs : List ℕ)
    → o ≡ some n
    → AllIn (optional o) hs
    → seen_count n hs ≡ true
one_of none n hs e a = cc
one_of (some m) n hs e a = let same : m ≡ n = cc in ap (λ x. seen_count x hs) (sym same) ∙ a.0

pub rejoin-IsLinkedBefore :
    (done rest : List ContextualTest)
    → IsOrdered done
    → IsLinkedBefore (hashes done) rest
    → IsLinkedBefore [] (rejoin done rest)
rejoin-IsLinkedBefore [] rest o l = l
rejoin-IsLinkedBefore (t ∷ done) rest (a, o) l = rejoin-IsLinkedBefore done (t ∷ rest) o (
  λ n e.
      one_of t.linked n (hashes done) e
        (AllIn-right t.ors _ (hashes done) (AllIn-right (optional t.tmpl) _ (hashes done) a)),
  l,
)

Covers : List ℕ → List ℕ → Type 0
Covers known hs = (h : ℕ) → seen_count h hs ≡ true → seen_count h known ≡ true

all_seen_lem : (rs hs known : List ℕ) → Covers known hs → AllIn rs hs → all_seen known rs ≡ true
unfolding Covers all_seen
all_seen_lem [] hs known c a = refl
all_seen_lem (r ∷ rs) hs known c a = ground (arith, c r a.0, all_seen_lem rs hs known c a.1)

rejoin-bound :
    (known : List ℕ) (done rest : List ContextualTest)
    → IsOrdered done
    → Covers known (hashes done)
    → all_bound known rest ≡ true
    → all_bound known (rejoin done rest) ≡ true
unfolding Covers all_bound seen_count
rejoin-bound known [] rest o c b = b
rejoin-bound known (t ∷ done) rest (a, o) c b =
    let older : Covers known (hashes done) = λ h m. c h (ground (arith, m)) in
    rejoin-bound known done (t ∷ rest) o older (
      ground (
        arith,
        b,
        all_seen_lem (optional t.tmpl) (hashes done) known older
            (AllIn-left (optional t.tmpl) _ (hashes done) a),
        all_seen_lem t.ors (hashes done) known older
            (AllIn-left t.ors _ (hashes done) (AllIn-right (optional t.tmpl) _ (hashes done) a)),
      ))

rejoin-Covers :
    (done rest : List ContextualTest)
    → (h : ℕ) → (if seen_count h (hashes done) then true else seen_count h (hashes rest)) ≡ true
    → seen_count h (hashes (rejoin done rest)) ≡ true
unfolding seen_count
rejoin-Covers [] rest h m = ground (arith, m)
rejoin-Covers (t ∷ done) rest h m = rejoin-Covers done (t ∷ rest) h (ground (arith, m))

-- The tests that have been written, from the first on.
pub all_bound-rejoin :
    (done : List ContextualTest)
    → IsOrdered done
    → all_bound (hashes (rejoin done [])) (rejoin done []) ≡ true
unfolding Covers all_bound
all_bound-rejoin done o =
    rejoin-bound (hashes (rejoin done [])) done [] o
      (λ h m. rejoin-Covers done [] h (ground (arith, m))) refl
