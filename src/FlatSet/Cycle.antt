-- ===== src/FlatSet/Cycle.antt =====
-- The steps of five visit every cell of a table whose capacity is a power of two.
use native.Mathlib.Decide.{dec_lt}
use vislcg.Base.{ℕ, zero, suc, ◌+◌, ◌*◌, ◌-◌, ◌<◌, ◌≡◌, ◌⊎◌, inl, inr, ap, arith, refl}

parity : (n : ℕ) → (h : ℕ) × ((n ≡ h + h) ⊎ (n ≡ suc (h + h)))
parity zero = (0, inl refl)
parity (suc n) =
    let (h, e) = parity n in
    elim e [ inl e ↦ (h, inr (omega (arith, e))) | inr e ↦ (suc h, inl (omega (arith, e))) ]

-- 2 ^ k.
unfoldable pub power : ℕ → ℕ
power zero = 1
power (suc k) = power k + power k

pub power_pos : (k : ℕ) → 0 < power k
unfolding power
power_pos zero = omega arith
power_pos (suc k) = omega (arith, power_pos k)

-- After j steps from p a walk is at e, having passed the end of the table q times.
abbrev pub Meets : ℕ → ℕ → ℕ → Type 0
Meets n p e = (j : ℕ) × (q : ℕ) × (j < n) × (p + 5 * j ≡ e + q * n)

-- Rounds of a table, as half as many rounds of one twice as large.
fewer_rounds : (P b r s x e : ℕ) → s ≡ b + r + r → x + b * P ≡ e + s * P → x ≡ e + r * (P + P)
fewer_rounds P b r s x e h eq =
    let rounds : s * P ≡ (b + r + r) * P = ap (λ t. t * P) h in grind arith

-- From a table to one twice as large: the walk is right, or half a round off.
twice :
    (P p e a b j q : ℕ)
    → a < 2
    → b < 2
    → j < P
    → (p + 5 * j) + b * P ≡ e + (q + a) * P
    → p < P + P
    → e < P + P
    → Meets (P + P) p e
twice P p e a b j q ha hb hj eq hp he =
    let (h, s) = parity (q + a + b) in
    elim s [
      | inl s ↦ (
        j,
        h - b,
        omega arith,
        fewer_rounds P b (h - b) (q + a) (p + 5 * j) e (omega (arith, s)) eq,
      )
      | inr s ↦ (
        j + P,
        h + 3 - b,
        omega arith,
        fewer_rounds P b (h + 3 - b) (q + a + 5) (p + 5 * (j + P)) e (omega (arith, s))
            (grind (arith, eq)),
      )
    ]

bit : (P p : ℕ) → p < P + P → (a : ℕ) × (r : ℕ) × (a < 2) × (r < P) × (p ≡ a * P + r)
bit P p h = elim (dec_lt p P) [
  | yes l ↦ (0, p, omega arith, l, omega arith)
  | no g ↦ (1, p - P, omega arith, omega (arith, g), omega (arith, g))
]

-- In a table of that size, from every cell the walk meets every cell within one step for each cell.
Meets-power : (k p e : ℕ) → p < power k → e < power k → Meets (power k) p e
unfolding power
Meets-power zero p e hp he = (0, 0, omega arith, omega arith)
Meets-power (suc k) p e hp he =
    let (a, p', ha, hp', ep) = bit (power k) p hp in
    let (b, e', hb, he', ee) = bit (power k) e he in
    let (j, q, hj, eq) = Meets-power k p' e' hp' he' in
    twice (power k) p e a b j q ha hb hj (grind (arith, eq, ep, ee)) hp he

pub meets : (k n p e : ℕ) → n ≡ power k → p < n → e < n → Meets n p e
meets k n p e h hp he = rw h (Meets-power k p e (omega (arith, h)) (omega (arith, h)))
