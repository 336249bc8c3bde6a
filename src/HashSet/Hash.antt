-- ===== src/HashSet/Hash.antt =====
-- rd/hashset.c: `super_fast_hash`, over the bytes of a string. The arithmetic is that of `uint32_t`.
pub mod Bounds
use p.Prelude.{
  ℕ, zero, suc, ◌+◌, ◌-◌, ◌*◌, ◌/◌, ◌%◌, ◌^◌, bit_xor, List, [], ◌∷◌, ◌==◌, ltb, if◌then◌else◌,
  add32, shl32, shr, get_or, drop,
}

-- rd/hashset.h: `get16bits(d)`, two bytes with the low one first, at offset `i`.
abbrev pub get16bits : List ℕ → ℕ → ℕ
get16bits d i = get_or d (i + 1) 0 * 2 ^ 8 + get_or d i 0

-- A `char` that is promoted to `int`: the type is signed, so the sign bit is extended.
abbrev pub char_word : ℕ → ℕ
char_word b = if ltb b 128 then b else b + 2 ^ 32 - 256

-- One round of the main loop: the new hash.
unfoldable pub hash_round : List ℕ → ℕ → ℕ
hash_round d hash =
    let h1 = add32 hash (get16bits d 0) in
    let tmp = bit_xor (shl32 (get16bits d 2) 11) h1 in
    let h2 = bit_xor (shl32 h1 16) tmp in add32 h2 (shr h2 11)

-- `for (; len > 0; len--)` with `data += 4` in each round.
unfoldable pub hash_loop : ℕ → List ℕ → ℕ → ℕ
hash_loop zero d hash = hash
hash_loop (suc len) d hash = hash_loop len (drop 4 d) (hash_round d hash)

-- `case 3`
unfoldable pub hash_rest_three : List ℕ → ℕ → ℕ
hash_rest_three d hash =
    let h1 = add32 hash (get16bits d 0) in
    let h2 = bit_xor h1 (shl32 h1 16) in
    let h3 = bit_xor h2 (shl32 (char_word (get_or d 2 0)) 18) in add32 h3 (shr h3 11)

-- `case 2`
unfoldable pub hash_rest_two : List ℕ → ℕ → ℕ
hash_rest_two d hash =
    let h1 = add32 hash (get16bits d 0) in
    let h2 = bit_xor h1 (shl32 h1 11) in add32 h2 (shl32 h2 17)

-- `case 1`
unfoldable pub hash_rest_one : List ℕ → ℕ → ℕ
hash_rest_one d hash =
    let h1 = add32 hash (char_word (get_or d 0 0)) in
    let h2 = bit_xor h1 (shl32 h1 10) in add32 h2 (shr h2 11)

-- `switch (rem)`
unfoldable pub hash_rest : ℕ → List ℕ → ℕ → ℕ
hash_rest rem d hash =
    if rem == 3
    then hash_rest_three d hash
    else if rem == 2
    then hash_rest_two d hash
    else if rem == 1
    then hash_rest_one d hash
    else hash

-- The last six lines.
unfoldable pub hash_final : ℕ → ℕ
hash_final hash =
    let h1 = bit_xor hash (shl32 hash 3) in
    let h2 = add32 h1 (shr h1 5) in
    let h3 = bit_xor h2 (shl32 h2 4) in
    let h4 = add32 h3 (shr h3 17) in let h5 = bit_xor h4 (shl32 h4 25) in add32 h5 (shr h5 16)

unfoldable pub super_fast_hash : List ℕ → ℕ → ℕ
super_fast_hash d len =
    if len == 0
    then 0
    else hash_final (hash_rest (len % 4) (drop (len / 4 * 4) d) (hash_loop (len / 4) d len))
