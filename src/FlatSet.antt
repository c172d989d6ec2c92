-- ===== src/FlatSet.antt =====
-- The hash set of src/flat_unordered_set.hpp, at the type by which the program uses it: uint32FlatHashSet, a set of uint32_t
-- whose two greatest values mark the cells that are empty and the cells whose value has been erased.
pub mod Cells
pub mod Cycle
pub mod Probe
pub mod Table
pub mod Reserve
pub mod Values
pub mod Grow
pub mod Operations
pub mod Refines
pub mod Stuck
use vislcg.Base.{
  if◌then◌else◌, ltb, leb, ◌==◌, length, ℕ, zero, suc, ◌+◌, ◌-◌, ◌*◌, ◌/◌, ◌%◌, max, Bool, true,
  false, not, ◌||◌, Option, none, some, List, [], ◌∷◌, word,
}

abbrev pub res_empty : ℕ
res_empty = word - 1

abbrev pub res_del : ℕ
res_del = word - 2

abbrev pub default_cap : ℕ
default_cap = 16

pub record FlatSet : Type 0 where
  pub size : ℕ
  pub elements : List ℕ

abbrev pub empty : FlatSet
empty = record { size = 0; elements = [] }

-- elements[i], where every index that the code computes is below the capacity.
abbrev pub cell : List ℕ → ℕ → ℕ
cell [] i = res_empty
cell (x ∷ xs) zero = x
cell (x ∷ xs) (suc i) = cell xs i

abbrev pub set : List ℕ → ℕ → ℕ → List ℕ
set [] i v = []
set (x ∷ xs) zero v = v ∷ xs
set (x ∷ xs) (suc i) v = x ∷ set xs i v

abbrev pub replicate : ℕ → ℕ → List ℕ
replicate zero v = []
replicate (suc n) v = v ∷ replicate n v

-- elements.resize(n, res_empty).
pub resize : List ℕ → ℕ → List ℕ
resize xs zero = []
resize [] (suc n) = res_empty ∷ resize [] n
resize (x ∷ xs) (suc n) = x ∷ resize xs n

abbrev pub is_live : ℕ → Bool
is_live c = not (c == res_empty || c == res_del)

-- The bytes that `|` joins do not overlap.
unfoldable pub hash_value : ℕ → ℕ
hash_value t = (t * 256) % word + (t / 256) % 256

-- A capacity is a power of two, so that `& max` is a remainder.
pub start : List ℕ → ℕ → ℕ
start xs t = hash_value t % length xs

-- The loop that looks for a value or for an empty cell. After as many rounds as there are cells it has been everywhere, and a loop
-- that has not stopped by then never does: `none`.
pub probe : ℕ → List ℕ → ℕ → ℕ → Option ℕ
probe zero xs t spot = none
probe (suc fuel) xs t spot =
    let rest = probe fuel xs t ((spot + 5) % length xs) in
    if cell xs spot == res_empty || cell xs spot == t then some spot else rest

infixl 5 ◌>>=◌
abbrev pub ◌>>=◌ {ℓ κ} : {A : Type ℓ} {B : Type κ} → Option A → (A → Option B) → Option B
none >>= f = none
some a >>= f = f a

pub spot_of : List ℕ → ℕ → Option ℕ
unfolding probe start
spot_of xs t = probe (length xs) xs t (start xs t)

-- Putting back the values that `reserve` has kept.
pub place_all : List ℕ → List ℕ → Option (List ℕ)
place_all [] xs = some xs
place_all (v ∷ vs) xs = spot_of xs v >>= λ spot. place_all vs (set xs spot v)

pub live_values : List ℕ → List ℕ
live_values [] = []
live_values (x ∷ xs) = if is_live x then x ∷ live_values xs else live_values xs

pub clear : ℕ → FlatSet → FlatSet
clear n s = record { size = 0; elements = replicate (max (length s.elements) n) res_empty }

pub reserve : ℕ → FlatSet → Option FlatSet
unfolding clear live_values resize place_all spot_of
reserve n s = if s.size == 0 then some (record s { elements = resize s.elements n }) else do
  xs ← place_all (live_values s.elements) (clear n s).elements
  some (record { size = length (live_values s.elements); elements = xs })

-- Before a value is inserted the table is made larger, if it would be more than about a third full.
pub grow : FlatSet → Option FlatSet
unfolding reserve
grow s =
    if leb (length s.elements / 2) ((s.size + 1) * 3 / 2)
    then reserve (max default_cap (length s.elements * 2)) s
    else some s

pub insert_grown : ℕ → FlatSet → Option FlatSet
unfolding spot_of
insert_grown t s = do
  spot ← spot_of s.elements t
  some (
      if cell s.elements spot == t
      then s
      else record { size = s.size + 1; elements = set s.elements spot t })

pub insert : ℕ → FlatSet → Option FlatSet
unfolding grow insert_grown
insert t s = grow s >>= insert_grown t

pub erase : ℕ → FlatSet → Option FlatSet
unfolding spot_of
erase t s = if s.size == 0 then some s else do
  spot ← spot_of s.elements t
  some (
      if cell s.elements spot == t
      then record { size = s.size - 1; elements = set s.elements spot res_del }
      else s)

-- The index of a value; inside, `none` is end().
pub find : ℕ → FlatSet → Option (Option ℕ)
unfolding spot_of
find t s = if s.size == 0 then some none else do
  spot ← spot_of s.elements t
  some (if cell s.elements spot == t then some spot else none)

-- Whether a value is in the set: `count`, whose result is 0 or 1.
unfoldable pub count : ℕ → FlatSet → Option Bool
unfolding find
count t s = do found ← find t s; some (elim found [ none ↦ false | some spot ↦ true ])

-- A program that uses a set, and what becomes of the set.
pub data Op : Type 0 where
  add : ℕ → Op
  remove : ℕ → Op
  wipe : Op

pub step : Op → FlatSet → Option FlatSet
unfolding insert erase clear
step (add t) s = insert t s
step (remove t) s = erase t s
step wipe s = some (clear 0 s)

unfoldable pub run : List Op → FlatSet → Option FlatSet
unfolding step
run [] s = some s
run (o ∷ os) s = do s' ← step o s; run os s'
