-- ===== src/Trie/Insert.antt =====
-- Inserting a composite tag into a trie, and what it then matches.
use vislcg.Base.{
  ltb, if◌then◌else◌, ltb→le, Bool-cases, ℕ, ◌≡◌, refl, ap, ◌∙◌, inl, inr, Bool, true, false, not,
  ◌&&◌, ◌||◌, List, [], ◌∷◌, arith,
}
use vislcg.Trie.{empty, entry, Trie, terminal_at, child_at, set_node, trie_insert, match_trie}

abbrev pub all_hit : (ℕ → Bool) → (ℕ → Bool) → List ℕ → Bool
all_hit hit failfast [] = true
all_hit hit failfast (tag ∷ tags) = hit tag && (not (failfast tag) && all_hit hit failfast tags)

-- What a node matches by itself or by its children.
abbrev pub node_match : (ℕ → Bool) → (ℕ → Bool) → Bool → Trie → Bool
node_match hit failfast t c = t || match_trie hit failfast c

either :
    (h f t m r : Bool)
    → (if h then if f then r else if t then true else if m then true else r else r)
      ≡ ((h && (not f && (t || m))) || r)
either true true t m r = refl
either true false true m r = refl
either true false false true r = refl
either true false false false r = refl
either false f t m r = refl

swap_or : (a b c : Bool) → (a || (b || c)) ≡ (b || (a || c))
swap_or true true c = refl
swap_or true false c = refl
swap_or false b c = refl

last_or :
    (h f x : Bool) → ((h && (not f && (x || false))) || false) ≡ ((h && (not f && x)) || false)
last_or h f true = refl
last_or h f false = refl

spread_or :
    (h f x y r : Bool)
    → ((h && (not f && (x || y))) || r) ≡ ((h && (not f && x)) || ((h && (not f && y)) || r))
spread_or true true x y r = refl
spread_or true false true y r = refl
spread_or true false false y r = refl
spread_or false f x y r = refl

or_false : (x : Bool) → (x || false) ≡ x
or_false true = refl
or_false false = refl

nothing_or : (h f x : Bool) → x ≡ ((h && (not f && false)) || x)
nothing_or true true x = refl
nothing_or true false x = refl
nothing_or false f x = refl

twice_or : (a r : Bool) → (a || r) ≡ (a || (a || r))
twice_or true r = refl
twice_or false r = refl

absorb : (h f x m : Bool) → m ≡ ((h && (not f && true)) || m) → m ≡ ((h && (not f && x)) || m)
absorb true true x m e = refl
absorb true false true m e = e
absorb true false false m e = refl
absorb false f x m e = refl

same_key : (a b : ℕ) → ltb a b ≡ false → ltb b a ≡ false → a ≡ b
same_key a b h k = omega (arith, ltb→le a b h, ltb→le b a k)

pub entry_lem :
    (hit failfast : ℕ → Bool) (k : ℕ) (t : Bool) (c rest : Trie)
    → match_trie hit failfast (entry k t c rest) ≡ (
        (hit k && (not (failfast k) && node_match hit failfast t c))
        || match_trie hit failfast rest)
unfolding match_trie
entry_lem hit failfast k t c rest =
    either (hit k) (failfast k) t (match_trie hit failfast c) (match_trie hit failfast rest)

-- A node that matches what it matched before, or `x`, adds to the trie the tags that go through its key and match `x`.
match_trie-set_node :
    (hit failfast : ℕ → Bool) (k : ℕ) (t : Bool) (c trie : Trie) (x : Bool)
    → node_match hit failfast t c
      ≡ (x || node_match hit failfast (terminal_at k trie) (child_at k trie))
    → match_trie hit failfast (set_node k t c trie)
      ≡ ((hit k && (not (failfast k) && x)) || match_trie hit failfast trie)
unfolding set_node terminal_at child_at
match_trie-set_node hit failfast k t c empty x e =
    entry_lem hit failfast k t c empty
    ∙ rw (e) (unfold match_trie in last_or (hit k) (failfast k) x)
match_trie-set_node hit failfast k t c (entry key t' c' rest) x e = elim (Bool-cases (ltb key k)) [
  | inl l ↦
      rw
        (
          l,
          entry_lem hit failfast key t' c' (set_node k t c rest),
          entry_lem hit failfast key t' c' rest,
        )
        (rw (match_trie-set_node hit failfast k t c rest x (rw (l) at e))
          (swap_or (hit key && (not (failfast key) && node_match hit failfast t' c')) _ _))
  | inr l ↦ elim (Bool-cases (ltb k key)) [
    | inl m ↦
        rw (l, m, entry_lem hit failfast k t c (entry key t' c' rest), rw (l, m) at e)
          (unfold match_trie in rw (or_false x) refl)
    | inr m ↦
        rw
          (
            l,
            m,
            entry_lem hit failfast key t c rest,
            entry_lem hit failfast key t' c' rest,
            rw (l, m) at e,
            same_key key k l m,
          )
          (spread_or (hit k) (failfast k) x (node_match hit failfast t' c')
            (match_trie hit failfast rest))
  ]
]

-- A trie matches where the node of a key does.
match_trie-at :
    (hit failfast : ℕ → Bool) (k : ℕ) (trie : Trie)
    → match_trie hit failfast trie ≡ (
        (hit k
          && (not (failfast k) && node_match hit failfast (terminal_at k trie) (child_at k trie)))
        || match_trie hit failfast trie)
unfolding terminal_at child_at
match_trie-at hit failfast k empty = unfold match_trie in nothing_or (hit k) (failfast k) false
match_trie-at hit failfast k (entry key t c rest) = elim (Bool-cases (ltb key k)) [
  | inl l ↦
      rw (l, entry_lem hit failfast key t c rest)
        (ap (λ m. (hit key && (not (failfast key) && node_match hit failfast t c)) || m)
            (match_trie-at hit failfast k rest)
          ∙ swap_or (hit key && (not (failfast key) && node_match hit failfast t c)) _ _)
  | inr l ↦ elim (Bool-cases (ltb k key)) [
    | inl m ↦
        rw (l, m)
          (unfold match_trie in
            nothing_or (hit k) (failfast k) (match_trie hit failfast (entry key t c rest)))
    | inr m ↦
        rw (l, m, entry_lem hit failfast key t c rest, same_key key k l m)
          (twice_or (hit k && (not (failfast k) && node_match hit failfast t c))
            (match_trie hit failfast rest))
  ]
]

-- A trie in which a composite tag has been inserted matches where all the tags of it do, none of them with `T_FAILFAST`, or where
-- it did before.
pub trie_insert_lem :
    (hit failfast : ℕ → Bool) (tag : ℕ) (tags : List ℕ) (trie : Trie)
    → match_trie hit failfast (trie_insert tag tags trie).1
      ≡ (all_hit hit failfast (tag ∷ tags) || match_trie hit failfast trie)
unfolding trie_insert
trie_insert_lem hit failfast tag [] trie = elim (Bool-cases (terminal_at tag trie)) [
  | inl e ↦ rw (e) (match_trie-at hit failfast tag trie ∙ rw (e) refl)
  | inr e ↦ rw (e) (match_trie-set_node hit failfast tag true empty trie true refl)
]
trie_insert_lem hit failfast tag (tag' ∷ tags) trie = elim (Bool-cases (terminal_at tag trie)) [
  | inl e ↦ rw (e) (
      absorb (hit tag) (failfast tag) (all_hit hit failfast (tag' ∷ tags))
        (match_trie hit failfast trie) (rw (e) at (match_trie-at hit failfast tag trie)))
  | inr e ↦ rw (e) (
      match_trie-set_node hit failfast tag false (trie_insert tag' tags (child_at tag trie)).1 trie
        (all_hit hit failfast (tag' ∷ tags))
        (rw (e) (trie_insert_lem hit failfast tag' tags (child_at tag trie))))
]
