-- ===== src/Examples/Hashes.antt =====
-- Hashes.
use vislcg.Base.{ℕ, ◌≡◌, ◌≢◌, List, [], ◌∷◌, length}
use vislcg.Hash.{hash_text}
use vislcg.Hash.Reserved.{IsHash, hash_text-IsHash}

abbrev letters : List ℕ
letters = 97 ∷ 98 ∷ 99 ∷ 100 ∷ 233 ∷ []

hash_text-IsHash_example :
    (length letters ≡ 0 → hash_text letters 0 ≡ 0)
    × (length letters ≢ 0 → IsHash (hash_text letters 0))
hash_text-IsHash_example = hash_text-IsHash letters 0
