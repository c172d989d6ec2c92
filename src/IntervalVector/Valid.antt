-- ===== src/IntervalVector/Valid.antt =====
-- The invariant of an interval vector, and what it means as a set of numbers.
use vislcg.Base.{ℕ, ◌+◌, ◌-◌, ◌<◌, ◌≤◌, ◌≡◌, refl, Bool, true, false, ◌&&◌, ◌||◌}
use vislcg.Base.{List, [], ◌∷◌, arith, word, ltb, leb, rejoin, Bool-cases, inl, inr}
use vislcg.Base.{ltb→lt}
use vislcg.IntervalVector.{Interval, IntervalVector, lower_cut}

-- The intervals begin at `lo` or later, ascend, and neither overlap nor touch.
abbrev pub Right : ℕ → List Interval → Type 0
Right lo [] = Unit
Right lo (a ∷ rs) = (lo ≤ a.lb) × (a.lb ≤ a.ub) × (a.ub < word) × Right (a.ub + 2) rs

-- The same of a reversed prefix that ends before `hi`.
abbrev pub Left : ℕ → List Interval → Type 0
Left hi [] = Unit
Left hi (p ∷ bs) = (p.lb ≤ p.ub) × (p.ub < word) × (p.ub < hi) × Left (p.lb - 1) bs

-- Where an interval behind the prefix may begin.
abbrev pub floor : List Interval → ℕ
floor [] = 0
floor (p ∷ bs) = p.ub + 2

unfoldable pub member : ℕ → List Interval → Bool
member q [] = false
member q (a ∷ rs) = (leb a.lb q && leb q a.ub) || member q rs

unfoldable pub total : List Interval → ℕ
total [] = 0
total (a ∷ rs) = a.ub + 1 - a.lb + total rs

pub record IsValid (v : IntervalVector) : Type 0 where
  pub ordered : Right 0 v.elements
  pub counted : total v.elements ≡ v.size

pub Right-weaken : (lo lo' : ℕ) (rs : List Interval) → lo' ≤ lo → Right lo rs → Right lo' rs
Right-weaken lo lo' [] h r = tt
Right-weaken lo lo' (a ∷ rs) h r = (omega arith, r.1, r.2, r.3)

pub Left-weaken : (hi hi' : ℕ) (bs : List Interval) → hi ≤ hi' → Left hi bs → Left hi' bs
Left-weaken hi hi' [] h l = tt
Left-weaken hi hi' (p ∷ bs) h l = (l.0, l.1, omega arith, l.3)

-- A prefix ends before whatever stands at its floor or later.
pub Left-floor : (hi n : ℕ) (bs : List Interval) → Left hi bs → floor bs ≤ n → Left (n - 1) bs
Left-floor hi n [] l h = tt
Left-floor hi n (p ∷ bs) l h = (l.0, l.1, omega arith, l.3)

pub floor-le : (n : ℕ) (bs : List Interval) → Left (n - 1) bs → floor bs ≤ n
floor-le n [] l = omega arith
floor-le n (p ∷ bs) l = omega arith

pub Right-rejoin :
    (hi : ℕ) (bs rs : List Interval) → Left hi bs → Right (floor bs) rs → Right 0 (rejoin bs rs)
Right-rejoin hi [] rs l r = r
Right-rejoin hi (p ∷ bs) rs l r =
    Right-rejoin (p.lb - 1) bs (p ∷ rs) l.3 (floor-le p.lb bs l.3, l.0, l.1, r)

pub member-rejoin :
    (q : ℕ) (bs rs : List Interval) → member q (rejoin bs rs) ≡ (member q bs || member q rs)
unfolding member
member-rejoin q [] rs = refl
member-rejoin q (p ∷ bs) rs = ground (arith, member-rejoin q bs (p ∷ rs))

pub total-rejoin : (bs rs : List Interval) → total (rejoin bs rs) ≡ total bs + total rs
unfolding total
total-rejoin [] rs = omega arith
total-rejoin (p ∷ bs) rs = omega (arith, total-rejoin bs (p ∷ rs))

pub member-Left : (q hi : ℕ) (bs : List Interval) → Left hi bs → member q bs ≡ true → q < hi
unfolding member
member-Left q hi [] l m = ground arith
member-Left q hi (p ∷ bs) l m = ground (arith, member-Left q (p.lb - 1) bs)

pub member-Right : (q lo : ℕ) (rs : List Interval) → Right lo rs → member q rs ≡ true → lo ≤ q
unfolding member
member-Right q lo [] r m = ground arith
member-Right q lo (a ∷ rs) r m = ground (arith, member-Right q (a.ub + 2) rs)

pub member-lt-word : (q lo : ℕ) (rs : List Interval) → Right lo rs → member q rs ≡ true → q < word
unfolding member
member-lt-word q lo [] r m = ground arith
member-lt-word q lo (a ∷ rs) r m = ground (arith, member-lt-word q (a.ub + 2) rs)

-- The first interval does not end before `t`.
abbrev pub Reaches : ℕ → List Interval → Type 0
Reaches t [] = Unit
Reaches t (a ∷ rs) = t ≤ a.ub

-- What the search for `t` leaves on the two sides of the iterator.
pub record IsCut (t : ℕ) (es : List Interval) (bs rs : List Interval) : Type 0 where
  pub whole : rejoin bs rs ≡ es
  pub left : Left t bs
  pub right : Right (floor bs) rs
  pub reached : Reaches t rs

lower_cut-IsCut_from :
    (t : ℕ) (es bs rs : List Interval)
    → rejoin bs rs ≡ es
    → Left t bs
    → Right (floor bs) rs
    → let c = lower_cut t bs rs in IsCut t es c.before c.rest
unfolding lower_cut
lower_cut-IsCut_from t es bs [] e l r = record { whole = e; left = l; right = r; reached = tt }
lower_cut-IsCut_from t es bs (a ∷ rs) e l r = elim (Bool-cases (ltb a.ub t)) [
  | inl h ↦ rw h (
      lower_cut-IsCut_from t es (a ∷ bs) rs e (r.1, r.2, ltb→lt _ _ h, Left-floor t a.lb bs l r.0)
        r.3)
  | inr h ↦ rw h (record { whole = e; left = l; right = r; reached = ground arith })
]

pub lower_cut-IsCut :
    (t : ℕ) (es : List Interval)
    → Right 0 es
    → let c = lower_cut t [] es in IsCut t es c.before c.rest
lower_cut-IsCut t es r = lower_cut-IsCut_from t es [] es refl tt r
