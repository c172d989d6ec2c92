-- ===== src/Trie/Order.antt =====
-- Tries in the order of their keys, as the map that `trie_t` is keeps them, and their copies.
use vislcg.Base.{ℕ, ◌<◌, ◌≡◌, refl, sym, ap, ◌∙◌, Bool, arith}
use vislcg.Trie.{empty, entry, Trie, set_node, copy_onto, trie_copy}

abbrev pub Above : ℕ → Trie → Type 0
Above k empty = Unit {0}
Above k (entry key terminal child rest) = k < key

abbrev pub IsSorted : Trie → Type 0
IsSorted empty = Unit {0}
IsSorted (entry key terminal child rest) = Above key rest × IsSorted child × IsSorted rest

abbrev pub join : Trie → Trie → Trie
join empty later = later
join (entry key terminal child rest) later = entry key terminal child (join rest later)

-- Every key is below the number.
abbrev pub Below : Trie → ℕ → Type 0
Below empty k = Unit {0}
Below (entry key terminal child rest) k = (key < k) × Below rest k

pub Below-trans : (trie : Trie) (k k' : ℕ) → Below trie k → k < k' → Below trie k'
Below-trans empty k k' b h = tt
Below-trans (entry key t c rest) k k' (l, b) h = (omega (arith, l, h), Below-trans rest k k' b h)

pub set_node-join :
    (k : ℕ) (t : Bool) (c trie : Trie)
    → Below trie k
    → set_node k t c trie ≡ join trie (entry k t c empty)
unfolding set_node
set_node-join k t c empty b = refl
set_node-join k t c (entry key t' c' rest) (l, b) = ground (arith, l, set_node-join k t c rest b)

pub join-join : (a b c : Trie) → join (join a b) c ≡ join a (join b c)
join-join empty b c = refl
join-join (entry k t d rest) b c = ap (entry k t d) (join-join rest b c)

pub join-empty : (a : Trie) → join a empty ≡ a
join-empty empty = refl
join-empty (entry k t d rest) = ap (entry k t d) (join-empty rest)

pub Below-join :
    (trie : Trie) (k k' : ℕ) (t : Bool) (c : Trie)
    → Below trie k
    → k < k'
    → Below (join trie (entry k t c empty)) k'
Below-join empty k k' t c b h = (h, tt)
Below-join (entry key t' c' rest) k k' t c (l, b) h =
    (omega (arith, l, h), Below-join rest k k' t c b h)

-- What is copied next comes after all that has been copied.
abbrev pub Follows : Trie → Trie → Type 0
Follows done empty = Unit {0}
Follows done (entry key t c rest) = Below done key

pub Follows-next :
    (done rest : Trie) (key : ℕ) (t : Bool) (c : Trie)
    → Below done key
    → Above key rest
    → Follows (join done (entry key t c empty)) rest
Follows-next done empty key t c b a = tt
Follows-next done (entry key' t' c' rest) key t c b a = Below-join done key key' t c b a

pub first-Follows : (trie : Trie) → Follows empty trie
first-Follows empty = tt
first-Follows (entry key t c rest) = tt

copy_onto-join :
    (done trie : Trie) → IsSorted trie → Follows done trie → copy_onto done trie ≡ join done trie
unfolding copy_onto
copy_onto-join done empty s f = sym (join-empty done)
copy_onto-join done (entry key t c rest) (a, sc, sr) f =
    rw (copy_onto-join empty c sc (first-Follows c), set_node-join key t c done f)
      (copy_onto-join (join done (entry key t c empty)) rest sr (Follows-next done rest key t c f a)
        ∙ join-join done (entry key t c empty) rest)

-- A copy of a sorted trie is the trie.
pub trie_copy_lem : (trie : Trie) → IsSorted trie → trie_copy trie ≡ trie
unfolding trie_copy
trie_copy_lem trie s = copy_onto-join empty trie s (first-Follows trie)
