-- ===== src/HashSet/Hash/Bounds.antt =====
-- rd/hashset.c: the bytes that `super_fast_hash` reads.
use p.Prelude.{
  ℕ, zero, suc, ◌*◌, ◌/◌, ◌%◌, ◌≤◌, ◌<◌, ◌≡◌, refl, List, [], ◌∷◌, ◌++◌, arith, length, length-drop,
  get_or, drop,
}
use p.HashSet.Hash.{
  hash_round, hash_loop, hash_rest, super_fast_hash, hash_rest_three, hash_rest_two, hash_rest_one,
}

get_or-append : (d e : List ℕ) (i : ℕ) → i < length d → get_or (d ++ e) i 0 ≡ get_or d i 0
get_or-append [] e i h = absurd (omega arith)
get_or-append (x ∷ d) e zero h = refl
get_or-append (x ∷ d) e (suc i) h = get_or-append d e i (omega arith)

drop-append : (n : ℕ) (d e : List ℕ) → n ≤ length d → drop n (d ++ e) ≡ drop n d ++ e
drop-append zero d e h = refl
drop-append (suc n) [] e h = absurd (omega arith)
drop-append (suc n) (x ∷ d) e h = drop-append n d e (omega arith)

hash_round-append :
    (d e : List ℕ) (hash : ℕ) → 4 ≤ length d → hash_round (d ++ e) hash ≡ hash_round d hash
unfolding hash_round
hash_round-append d e hash h = rw (
  get_or-append d e 0 (omega arith),
  get_or-append d e 1 (omega arith),
  get_or-append d e 2 (omega arith),
  get_or-append d e 3 (omega arith),
)

hash_loop-append :
    (n : ℕ) (d e : List ℕ) (hash : ℕ)
    → n * 4 ≤ length d
    → hash_loop n (d ++ e) hash ≡ hash_loop n d hash
unfolding hash_loop
hash_loop-append zero d e hash h = refl
hash_loop-append (suc n) d e hash h =
    rw (drop-append 4 d e (omega arith), hash_round-append d e hash (omega arith))
      (hash_loop-append n (drop 4 d) e (hash_round d hash) (omega (arith, length-drop {0} 4 d)))

module _ (d e : List ℕ) (hash : ℕ) where
  hash_rest_three-append : 3 ≤ length d → hash_rest_three (d ++ e) hash ≡ hash_rest_three d hash
  unfolding hash_rest_three
  hash_rest_three-append h = rw (
    get_or-append d e 0 (omega arith),
    get_or-append d e 1 (omega arith),
    get_or-append d e 2 (omega arith),
  )

  hash_rest_two-append : 2 ≤ length d → hash_rest_two (d ++ e) hash ≡ hash_rest_two d hash
  unfolding hash_rest_two
  hash_rest_two-append h = rw (get_or-append d e 0 (omega arith), get_or-append d e 1 (omega arith))

  hash_rest_one-append : 1 ≤ length d → hash_rest_one (d ++ e) hash ≡ hash_rest_one d hash
  unfolding hash_rest_one
  hash_rest_one-append h = rw (get_or-append d e 0 (omega arith))

  hash_rest-append : (rem : ℕ) → rem ≤ length d → hash_rest rem (d ++ e) hash ≡ hash_rest rem d hash
  unfolding hash_rest
  hash_rest-append rem h =
      ground (arith, hash_rest_three-append, hash_rest_two-append, hash_rest_one-append)

-- The bytes behind the first `len` do not matter: the hash of a name is the same in any buffer.
pub super_fast_hash-append :
    (d e : List ℕ) → super_fast_hash (d ++ e) (length d) ≡ super_fast_hash d (length d)
unfolding super_fast_hash
super_fast_hash-append d e =
    let len = length d in
    rw (
      drop-append (len / 4 * 4) d e (omega arith),
      hash_loop-append (len / 4) d e len (omega arith),
      hash_rest-append (drop (len / 4 * 4) d) e (hash_loop (len / 4) d len) (len % 4)
          (omega (arith, length-drop {0} (len / 4 * 4) d)),
    )
