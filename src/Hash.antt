-- ===== src/Hash.antt =====
-- The hashes of src/inlines.hpp: both `SuperFastHash`, on the bytes of a text and on its UTF-16 code
-- units, and `hash_value`, which also chains a number to a hash. The values are `uint32_t`, whose
-- wrap-around is written out.
pub mod Reserved
use Prim.Native.Nat.{bit_xor}
use vislcg.Base.{
  ℕ, ◌+◌, ◌-◌, ◌*◌, ◌/◌, ◌%◌, ◌^◌, Bool, ◌&&◌, ◌||◌, List, [], ◌∷◌, word, leb, ◌==◌, if◌then◌else◌,
  length,
}

abbrev pub cg3_hash_seed : ℕ
cg3_hash_seed = 705577479

abbrev add32 : ℕ → ℕ → ℕ
add32 a b = (a + b) % word

abbrev shift_left : ℕ → ℕ → ℕ
shift_left a k = a * 2 ^ k % word

abbrev shift_right : ℕ → ℕ → ℕ
shift_right a k = a / 2 ^ k

-- One pair of 16-bit units in the main loop.
mix : ℕ → ℕ → ℕ → ℕ
mix hash low high =
    let added = add32 hash low in
    let tmp = bit_xor (shift_left high 11) added in
    let mixed = bit_xor (shift_left added 16) tmp in add32 mixed (shift_right mixed 11)

-- The steps `hash ^= hash << k` and `hash += hash >> k`.
abbrev xor_left : ℕ → ℕ → ℕ
xor_left k hash = bit_xor hash (shift_left hash k)

abbrev add_right : ℕ → ℕ → ℕ
add_right k hash = add32 hash (shift_right hash k)

-- What both do in the end, with the values that the hash tables reserve replaced.
abbrev pub is_reserved : ℕ → Bool
is_reserved hash = hash == 0 || hash == word - 1 || hash == word - 2

avalanche : ℕ → ℕ
avalanche hash =
    add_right 6 (xor_left 25 (add_right 17 (xor_left 4 (add_right 5 (xor_left 3 hash)))))

abbrev pub unreserve : ℕ → ℕ
unreserve hash = if is_reserved hash then cg3_hash_seed else hash

-- `hash == 0` stands for the length.
abbrev pub start_with : ℕ → ℕ → ℕ
start_with hash len = if hash == 0 then len % word else hash

-- The main loop and the end cases on code units.
units : ℕ → List ℕ → ℕ
unfolding mix
units hash [] = hash
units hash (a ∷ []) = add_right 17 (xor_left 11 (add32 hash a))
units hash (a ∷ b ∷ us) = units (mix hash a b) us

unfoldable pub super_fast_hash_units : List ℕ → ℕ → ℕ
unfolding units avalanche
super_fast_hash_units us hash =
    if length us == 0 then 0 else unreserve (avalanche (units (start_with hash (length us)) us))

-- The main loop and the end cases on bytes. Where `char` is signed, a byte of 128 or more that is
-- read as `char` is negative.
abbrev widen : Bool → ℕ → ℕ
widen signed b = if signed && leb 128 b then b + (word - 256) else b

abbrev get16bits : ℕ → ℕ → ℕ
get16bits a b = b * 256 + a

bytes : Bool → ℕ → List ℕ → ℕ
unfolding mix
bytes signed hash [] = hash
bytes signed hash (a ∷ []) = add_right 1 (xor_left 10 (add32 hash (widen signed a)))
bytes signed hash (a ∷ b ∷ []) = add_right 17 (xor_left 11 (add32 hash (get16bits a b)))
bytes signed hash (a ∷ b ∷ c ∷ []) =
    add_right 11
      (bit_xor (xor_left 16 (add32 hash (get16bits a b))) (shift_left (widen signed c) 18))
bytes signed hash (a ∷ b ∷ c ∷ d ∷ bs) = bytes signed (mix hash (get16bits a b) (get16bits c d)) bs

unfoldable pub super_fast_hash : Bool → List ℕ → ℕ → ℕ
unfolding bytes avalanche
super_fast_hash signed bs hash =
    if length bs == 0
    then 0
    else unreserve (avalanche (bytes signed (start_with hash (length bs)) bs))

-- `hash_value`: of a text, of bytes, and of a number chained to a hash.
abbrev pub or_seed : ℕ → ℕ
or_seed hash = if hash == 0 then cg3_hash_seed else hash

unfoldable pub hash_text : List ℕ → ℕ → ℕ
unfolding super_fast_hash_units
hash_text us hash = super_fast_hash_units us (or_seed hash)

unfoldable pub hash_bytes : Bool → List ℕ → ℕ → ℕ
unfolding super_fast_hash
hash_bytes signed bs hash = super_fast_hash signed bs (or_seed hash)

unfoldable pub hash_value : ℕ → ℕ → ℕ
hash_value c hash =
    let h = or_seed hash in unreserve ((c + shift_left h 6 + shift_left h 16 + word - h) % word)
