-- ===== src/Tagging/Bloom.antt =====
-- The filters of a reading never deny a tag that has been put in.
use vislcg.Base.{Bool-cases, ℕ, zero, suc, ◌≡◌, refl, inl, inr, Bool, true, arith}
use vislcg.Tagging.{Bloomish, join_bits, bloom_insert, has_bits, bloom_matches}
use vislcg.Binary.Fields.{bit}

has_bits_own : (k : ℕ) (value : ℕ → Bool) (v : ℕ) → has_bits k (join_bits value v) v ≡ true
unfolding has_bits join_bits
has_bits_own zero value v = refl
has_bits_own (suc k) value v = ground (arith, has_bits_own k value v)

has_bits_join :
    (k : ℕ) (value : ℕ → Bool) (v u : ℕ)
    → has_bits k value u ≡ true
    → has_bits k (join_bits value v) u ≡ true
unfolding has_bits join_bits
has_bits_join zero value v u e = refl
has_bits_join (suc k) value v u e = ground (arith, e, has_bits_join k value v u)

-- A value that has been inserted matches.
pub bloom_matches-bloom_insert : (b : Bloomish) (v : ℕ) → bloom_matches (bloom_insert b v) v ≡ true
unfolding bloom_matches bloom_insert
bloom_matches-bloom_insert b v = elim (Bool-cases (bit v 2)) [
  | inl h ↦ rw (h) (has_bits_own 32 b.value3 v)
  | inr h ↦ elim (Bool-cases (bit v 1)) [
    | inl k ↦ rw (h, k) (has_bits_own 32 b.value2 v)
    | inr k ↦ elim (Bool-cases (bit v 0)) [
      | inl l ↦ rw (h, k, l) (has_bits_own 32 b.value1 v)
      | inr l ↦ rw (h, k, l) (has_bits_own 32 b.value0 v)
    ]
  ]
]

-- Where each word keeps the bits it had, the filter matches what it matched.
slots_keep :
    (u : ℕ) (d' c' b' a' d c b a : ℕ → Bool)
    → (has_bits 32 d u ≡ true → has_bits 32 d' u ≡ true)
    → (has_bits 32 c u ≡ true → has_bits 32 c' u ≡ true)
    → (has_bits 32 b u ≡ true → has_bits 32 b' u ≡ true)
    → (has_bits 32 a u ≡ true → has_bits 32 a' u ≡ true)
    → bloom_matches (record { value3 = d; value2 = c; value1 = b; value0 = a }) u ≡ true
    → bloom_matches (record { value3 = d'; value2 = c'; value1 = b'; value0 = a' }) u ≡ true
unfolding bloom_matches
slots_keep u d' c' b' a' d c b a f g h i e = elim (Bool-cases (bit u 2)) [
  | inl p ↦ rw (p) (f (rw (p) at e))
  | inr p ↦ elim (Bool-cases (bit u 1)) [
    | inl q ↦ rw (p, q) (g (rw (p, q) at e))
    | inr q ↦ elim (Bool-cases (bit u 0)) [
      | inl r ↦ rw (p, q, r) (h (rw (p, q, r) at e))
      | inr r ↦ rw (p, q, r) (i (rw (p, q, r) at e))
    ]
  ]
]

-- A value that matched still does when another has been inserted.
pub bloom_matches_keeps :
    (b : Bloomish) (v u : ℕ) → bloom_matches b u ≡ true → bloom_matches (bloom_insert b v) u ≡ true
unfolding bloom_matches bloom_insert
bloom_matches_keeps b v u e = elim (Bool-cases (bit v 2)) [
  | inl h ↦ rw (h) (
      slots_keep u _ _ _ _ b.value3 b.value2 b.value1 b.value0 (has_bits_join 32 b.value3 v u)
        (λ x. x) (λ x. x) (λ x. x) e)
  | inr h ↦ elim (Bool-cases (bit v 1)) [
    | inl k ↦
        rw (h, k)
          (slots_keep u _ _ _ _ b.value3 b.value2 b.value1 b.value0 (λ x. x)
            (has_bits_join 32 b.value2 v u) (λ x. x) (λ x. x) e)
    | inr k ↦ elim (Bool-cases (bit v 0)) [
      | inl l ↦
          rw (h, k, l)
            (slots_keep u _ _ _ _ b.value3 b.value2 b.value1 b.value0 (λ x. x) (λ x. x)
              (has_bits_join 32 b.value1 v u) (λ x. x) e)
      | inr l ↦
          rw (h, k, l)
            (slots_keep u _ _ _ _ b.value3 b.value2 b.value1 b.value0 (λ x. x) (λ x. x) (λ x. x)
              (has_bits_join 32 b.value0 v u) e)
    ]
  ]
]
