-- ===== src/Binary/Grammars/Accepted.antt =====
-- What a binary grammar must start with to be accepted.
use vislcg.Base.{
  ltb, leb, ◌==◌, ltb→le, leb→le, Bool-cases, ℕ, ◌≤◌, ◌≡◌, refl, ◌⊎◌, inl, inr, Bool, true, false,
  ◌&&◌, none, some, [], ◌∷◌, arith,
}
use vislcg.Binary.{Bytes, Reader, after, ◌>>=◌, fail, guard, read8, read32}
use vislcg.Binary.Fields.{Platform}
use vislcg.Binary.Grammars.{
  Grammar, feature_rev, too_old, last_old_format, read_magic, read_revision, parse_grammar,
}
use vislcg.Binary.Grammars.Extends.{after-eq_some}

-- The bytes `CG3B`, and a revision that is of the old format or between the oldest and the newest of this one.
pub record IsAccepted (s : Bytes) : Type 0 where
  pub rest : Bytes
  pub revision : ℕ
  pub body : Bytes
  pub magic : s ≡ 67 ∷ 71 ∷ 51 ∷ 66 ∷ rest
  pub revised : read32 rest ≡ some (revision, body)
  pub known : (revision ≤ last_old_format) ⊎ ((too_old ≤ revision) × (revision ≤ feature_rev))

none-some : {A : Type 0} {x : A} → none ≡ some x → ⊥
none-some e = cc

known_revision :
    (pf : Platform) (old : Reader Grammar) (revision : ℕ) (s : Bytes) {g : Grammar × Bytes}
    → read_revision pf old revision s ≡ some g
    → (revision ≤ last_old_format) ⊎ ((too_old ≤ revision) × (revision ≤ feature_rev))
unfolding read_revision fail
known_revision pf old revision s e = elim (Bool-cases (leb revision last_old_format)) [
  | inl l ↦ inl (leb→le _ _ l)
  | inr l ↦ elim (Bool-cases (ltb revision too_old)) [
    | inl m ↦ absurd (none-some (rw (l, m) at e))
    | inr m ↦ elim (Bool-cases (ltb feature_rev revision)) [
      | inl n ↦ absurd (none-some (rw (l, m, n) at e))
      | inr n ↦ inr (ltb→le _ _ m, ltb→le _ _ n)
    ]
  ]
]

same_bytes :
    (a b c d : ℕ) (s : Bytes)
    → (a == 67 && b == 71 && c == 51 && d == 66) ≡ true
    → (a ∷ b ∷ c ∷ d ∷ s) ≡ 67 ∷ 71 ∷ 51 ∷ 66 ∷ s
same_bytes a b c d s e = ground (arith, e)

guard-eq_some : (b : Bool) (s : Bytes) {r : Unit {0} × Bytes} → guard b s ≡ some r → b ≡ true
unfolding guard
guard-eq_some true s e = refl
guard-eq_some false s e = cc

after_magic :
    (pf : Platform) (old : Reader Grammar) (a b c d : ℕ) (s r : Bytes) (g : Grammar)
    → parse_grammar pf old (a ∷ b ∷ c ∷ d ∷ s) ≡ some (g, r)
    → ((a == 67 && b == 71 && c == 51 && d == 66) ≡ true)
      × ((read32 >>= read_revision pf (λ rest. old (a ∷ b ∷ c ∷ d ∷ s))) s ≡ some (g, r))
unfolding parse_grammar read_magic read8 guard ◌>>=◌ after
after_magic pf old a b c d s r g e = elim (Bool-cases (a == 67 && b == 71 && c == 51 && d == 66)) [
  | inl m ↦ (m, rw (m) at e)
  | inr m ↦ absurd (none-some (rw (m) at e))
]

-- A stream from which a grammar is read begins with the magic bytes and a revision that the loader knows; any other is refused.
pub parse_grammar-IsAccepted :
    (pf : Platform) (old : Reader Grammar) (s r : Bytes) (g : Grammar)
    → parse_grammar pf old s ≡ some (g, r)
    → IsAccepted s
unfolding parse_grammar read_magic read8 ◌>>=◌ after
parse_grammar-IsAccepted pf old [] r g e = absurd (none-some e)
parse_grammar-IsAccepted pf old (a ∷ []) r g e = absurd (none-some e)
parse_grammar-IsAccepted pf old (a ∷ b ∷ []) r g e = absurd (none-some e)
parse_grammar-IsAccepted pf old (a ∷ b ∷ c ∷ []) r g e = absurd (none-some e)
parse_grammar-IsAccepted pf old (a ∷ b ∷ c ∷ d ∷ s) r g e =
    let opened = after_magic pf old a b c d s r g e in
    let found =
      after-eq_some (read_revision pf λ rest. old (a ∷ b ∷ c ∷ d ∷ s)) (read32 s) opened.1 in
    record {
      rest = s;
      revision = found.0;
      body = found.1;
      magic = same_bytes a b c d s opened.0;
      revised = found.2;
      known = known_revision pf _ found.0 found.1 found.3;
    }
