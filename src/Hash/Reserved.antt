-- ===== src/Hash/Reserved.antt =====
-- No hash of a text or a number is a value that the hash tables reserve, and chaining loses nothing.
use vislcg.Base.{
  ℕ, ◌+◌, ◌-◌, ◌*◌, ◌%◌, ◌<◌, ◌≡◌, ◌≢◌, refl, Bool, false, List, arith, word, ◌==◌, if◌then◌else◌,
  length, if_elim, Bool-cases, inl, inr, sym, ◌∙◌,
}
use vislcg.Hash.{
  start_with, cg3_hash_seed, unreserve, is_reserved, or_seed, avalanche, units, bytes, hash_text,
  hash_bytes, hash_value, super_fast_hash, super_fast_hash_units,
}

-- A `uint32_t` other than 0 and the two greatest.
abbrev pub IsHash : ℕ → Type 0
IsHash h = (h < word) × (is_reserved h ≡ false)

unreserve-IsHash : (h : ℕ) → h < word → IsHash (unreserve h)
unreserve-IsHash h small =
    if_elim IsHash (is_reserved h) cg3_hash_seed h (λ _. (omega arith, refl)) (λ e. (small, e))

mod_small : (n : ℕ) → n % word < word
mod_small n = omega arith

avalanche_small : (h : ℕ) → avalanche h < word
unfolding avalanche
avalanche_small h = mod_small _

-- Of what both hashes end in.
abbrev HashOr0 : ℕ → ℕ → Type 0
HashOr0 len h = ((len ≡ 0) → h ≡ 0) × ((len ≢ 0) → IsHash h)

finish-IsHash : (len h : ℕ) → HashOr0 len (if len == 0 then 0 else unreserve (avalanche h))
finish-IsHash len h =
    if_elim (HashOr0 len) (len == 0) 0 (unreserve (avalanche h))
      (λ e. ((λ _. refl), (λ more. absurd (more (ground arith)))))
      (λ e. (
        (λ none. absurd (ground arith)),
        (λ _. unreserve-IsHash (avalanche h) (avalanche_small h)),
      ))

-- The hash of a text, whatever it is chained to, is 0 for the empty text, and for all others a
-- `uint32_t` that is not reserved.
pub hash_text-IsHash :
    (us : List ℕ) (hash : ℕ)
    → (length us ≡ 0 → hash_text us hash ≡ 0) × (length us ≢ 0 → IsHash (hash_text us hash))
unfolding hash_text super_fast_hash_units
hash_text-IsHash us hash =
    finish-IsHash (length us) (units (start_with (or_seed hash) (length us)) us)

-- The same of bytes, whether `char` is signed or not.
pub hash_bytes-IsHash :
    (signed : Bool) (bs : List ℕ) (hash : ℕ)
    → (length bs ≡ 0 → hash_bytes signed bs hash ≡ 0)
      × (length bs ≢ 0 → IsHash (hash_bytes signed bs hash))
unfolding hash_bytes super_fast_hash
hash_bytes-IsHash signed bs hash =
    finish-IsHash (length bs) (bytes signed (start_with (or_seed hash) (length bs)) bs)

unreserve-eq : (h : ℕ) → unreserve h ≢ cg3_hash_seed → unreserve h ≡ h
unreserve-eq h other = elim (Bool-cases (is_reserved h)) [
  | inl e ↦ absurd (other (rw e refl))
  | inr e ↦ rw e refl
]

cancel : (c d h : ℕ) → c < word → d < word → (c + h) % word ≡ (d + h) % word → c ≡ d
cancel c d h small_c small_d e = omega (arith, e)

abbrev chained : ℕ → ℕ → ℕ
chained c h = (c + h * 64 % word + h * 65536 % word + word - h) % word

chained_cancel : (c d h : ℕ) → c < word → d < word → h < word → chained c h ≡ chained d h → c ≡ d
chained_cancel c d h small_c small_d small e =
    cancel c d (h * 64 % word + h * 65536 % word + (word - h)) small_c small_d (omega (arith, e))

-- Chaining a number to a hash never gives a reserved value; and unless the seed stands in for one,
-- different numbers chained to the same hash give different hashes.
pub hash_value-IsHash :
    (c d hash : ℕ)
    → c < word
    → d < word
    → hash < word
    → IsHash (hash_value c hash)
      × (hash_value c hash ≡ hash_value d hash → hash_value c hash ≢ cg3_hash_seed → c ≡ d)
unfolding hash_value
hash_value-IsHash c d hash small_c small_d small =
    let h = or_seed hash in
    (
      unreserve-IsHash (chained c h) (mod_small _),
      λ same other. chained_cancel c d h small_c small_d (ground arith) (
          sym (unreserve-eq (chained c h) other)
          ∙ same
          ∙ unreserve-eq (chained d h) (λ e. other (same ∙ e))),
    )
