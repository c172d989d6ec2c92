-- ===== src/Numeric/Overlap.antt =====
-- Two numerical tags match exactly if some number satisfies both.
use vislcg.Base.{
  false, not, ◌==◌, ltb, leb, min, max, ℕ, ◌+◌, ◌*◌, ◌<◌, ◌≤◌, ◌≡◌, ◌≢◌, ◌↔◌, Bool, true, arith,
}
use vislcg.Numeric.{
  COps, op_nop, op_equals, op_lessthan, op_greaterthan, op_lessequals, op_greaterequals,
  op_notequals, ops_match,
}

-- The numbers between and around the values: the value `c` stands at `2 * c + 2`.
abbrev pub Satisfies : COps → ℕ → ℕ → Type 0
Satisfies op_nop c p = ⊥
Satisfies op_equals c p = p ≡ 2 * c + 2
Satisfies op_notequals c p = p ≢ 2 * c + 2
Satisfies op_lessthan c p = p < 2 * c + 2
Satisfies op_lessequals c p = p ≤ 2 * c + 2
Satisfies op_greaterthan c p = 2 * c + 2 < p
Satisfies op_greaterequals c p = 2 * c + 2 ≤ p

abbrev pub BothDiffer : COps → COps → Type 0
BothDiffer op_notequals op_notequals = Unit
BothDiffer _ _ = ⊥

ops_match_sound :
    (op iop : COps) (c v p : ℕ)
    → ¬ (BothDiffer op iop)
    → Satisfies op c p
    → Satisfies iop v p
    → ops_match op iop c v ≡ true
unfolding ops_match
ops_match_sound op_nop iop c v p b s t = absurd s
ops_match_sound op_equals iop c v p b s t = ground arith
ops_match_sound op_lessthan iop c v p b s t = ground arith
ops_match_sound op_greaterthan iop c v p b s t = ground arith
ops_match_sound op_lessequals iop c v p b s t = ground arith
ops_match_sound op_greaterequals iop c v p b s t = ground arith
ops_match_sound op_notequals iop c v p b s t = ground arith

-- A number that both admit, where there is one.
common : COps → COps → ℕ → ℕ → ℕ
common op_equals iop c v = 2 * c + 2
common op op_equals c v = 2 * v + 2
common op_greaterthan op_lessthan c v = 2 * c + 3
common op_greaterthan op_lessequals c v = 2 * c + 3
common op_greaterequals op_lessthan c v = 2 * c + 2
common op_greaterequals op_lessequals c v = 2 * c + 2
common op_lessthan op_greaterthan c v = 2 * v + 3
common op_lessequals op_greaterthan c v = 2 * v + 3
common op_lessthan op_greaterequals c v = 2 * v + 2
common op_lessequals op_greaterequals c v = 2 * v + 2
common op_lessthan iop c v = 2 * min c v + 1
common op_lessequals iop c v = 2 * min c v + 1
common op_greaterthan iop c v = 2 * max c v + 3
common op_greaterequals iop c v = 2 * max c v + 3
common op op_lessthan c v = 2 * min c v + 1
common op op_lessequals c v = 2 * min c v + 1
common op iop c v = 2 * max c v + 3

common_lem :
    (op iop : COps) (c v : ℕ)
    → ¬ (BothDiffer op iop)
    → ops_match op iop c v ≡ true
    → Satisfies op c (common op iop c v) × Satisfies iop v (common op iop c v)
unfolding ops_match common
common_lem op_nop op_nop c v b m = cc
common_lem op_nop _ c v b m = cc
common_lem op_equals op_nop c v b m = cc
common_lem op_equals _ c v b m = ground arith
common_lem op_notequals op_nop c v b m = cc
common_lem op_notequals op_notequals c v b m = absurd (b tt)
common_lem op_notequals _ c v b m = ground arith
common_lem op_lessthan op_nop c v b m = cc
common_lem op_lessthan _ c v b m = ground arith
common_lem op_lessequals op_nop c v b m = cc
common_lem op_lessequals _ c v b m = ground arith
common_lem op_greaterthan op_nop c v b m = cc
common_lem op_greaterthan _ c v b m = ground arith
common_lem op_greaterequals op_nop c v b m = cc
common_lem op_greaterequals _ c v b m = ground arith

-- Unless both say "not equal", the tags match exactly if some number, of those at, between and
-- around the values, satisfies both.
pub ops_match_iff :
    (op iop : COps) (c v : ℕ)
    → ¬ (BothDiffer op iop)
    → (ops_match op iop c v ≡ true) ↔ ((p : ℕ) × Satisfies op c p × Satisfies iop v p)
ops_match_iff op iop c v b = (
  λ m. let (s, t) = common_lem op iop c v b m in (common op iop c v, s, t),
  λ w. ops_match_sound op iop c v w.0 b w.1 w.2,
)

-- The operators read the other way round.
abbrev pub holds_of : COps → ℕ → ℕ → Bool
holds_of op_nop c v = false
holds_of op_equals c v = v == c
holds_of op_notequals c v = not (v == c)
holds_of op_lessthan c v = ltb v c
holds_of op_lessequals c v = leb v c
holds_of op_greaterthan c v = ltb c v
holds_of op_greaterequals c v = leb c v

-- Matching does not depend on which of the two tags stands in the grammar, and against a plain
-- value of the reading it is the comparison that the grammar's tag writes.
pub ops_match_comm :
    (op iop : COps) (c v : ℕ)
    → (ops_match op iop c v ≡ ops_match iop op v c) × (ops_match op op_equals c v ≡ holds_of op c v)
unfolding ops_match
ops_match_comm op_nop op_nop c v = ground arith
ops_match_comm op_nop _ c v = ground arith
ops_match_comm op_equals op_nop c v = ground arith
ops_match_comm op_equals _ c v = ground arith
ops_match_comm op_notequals op_nop c v = ground arith
ops_match_comm op_notequals _ c v = ground arith
ops_match_comm op_lessthan op_nop c v = ground arith
ops_match_comm op_lessthan _ c v = ground arith
ops_match_comm op_lessequals op_nop c v = ground arith
ops_match_comm op_lessequals _ c v = ground arith
ops_match_comm op_greaterthan op_nop c v = ground arith
ops_match_comm op_greaterthan _ c v = ground arith
ops_match_comm op_greaterequals op_nop c v = ground arith
ops_match_comm op_greaterequals _ c v = ground arith
