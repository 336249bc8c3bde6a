-- ===== src/HashSet/Release.antt =====
-- rd/hashset.c: `collapse`, with the blocks that it gives back to `free`.
use p.Prelude.{
  ℕ, zero, suc, ◌+◌, ◌≤◌, ◌<◌, ◌≡◌, refl, subst, Bool, true, false, List, [], ◌∷◌, ◌++◌, some,
  arith, ◌==◌, CString, str_eq, if◌then◌else◌, Bool-cases, inl, inr, ◌⊎◌,
}
use mathlib.Core.Option.{some-injective}
use p.HashSet.{
  hashsize, NodePath, Pair, LisoHash, hash_index, init_hash, link_contains_obj, contains_object,
}

-- A block that `malloc` gave: a `struct path` or a `struct pair`.
pub data Block : Type 0 where
  path_block : NodePath → Block
  pair_block : Pair → Block

-- `while (curr != NULL)`: the pointer moves on before its block is freed.
unfoldable pub free_path_link : List NodePath → List Block
free_path_link [] = []
free_path_link (prev ∷ curr) = path_block prev ∷ free_path_link curr

unfoldable pub free_header_link : List Pair → List Block
unfolding free_path_link
free_header_link [] = []
free_header_link (prev ∷ curr) =
    free_path_link prev.path_s ++ (pair_block prev ∷ free_header_link curr)

-- `for (i = 0; i < HASHSIZE; i++)`, with the rounds left and `i`.
unfoldable pub release_loop : ℕ → ℕ → (ℕ → List Pair) → List Block
unfolding free_header_link
release_loop zero i hash = []
release_loop (suc n) i hash = free_header_link (hash i) ++ release_loop n (i + 1) hash

-- The table afterwards, the blocks in the order in which they are freed, and the value that it returns.
unfoldable pub collapse : LisoHash → LisoHash × List Block × Bool
unfolding release_loop init_hash
collapse h =
    if h.num_objs == 0 then (h, [], false) else (init_hash, release_loop hashsize 0 h.hash, true)

abbrev pub Freed : Block → List Block → Type 0
Freed b [] = ⊥
Freed b (x ∷ xs) = (b ≡ x) ⊎ Freed b xs

Freed-left : (b : Block) (xs ys : List Block) → Freed b xs → Freed b (xs ++ ys)
Freed-left b [] ys h = absurd h
Freed-left b (x ∷ xs) ys (inl same) = inl same
Freed-left b (x ∷ xs) ys (inr there) = inr (Freed-left b xs ys there)

Freed-right : (b : Block) (xs ys : List Block) → Freed b ys → Freed b (xs ++ ys)
Freed-right b [] ys h = h
Freed-right b (x ∷ xs) ys h = inr (Freed-right b xs ys h)

-- All blocks of the list are freed.
abbrev pub AllFreed : List Block → List Block → Type 0
AllFreed [] bs = Unit
AllFreed (x ∷ xs) bs = Freed x bs × AllFreed xs bs

AllFreed-right : (xs ys zs : List Block) → AllFreed xs zs → AllFreed xs (ys ++ zs)
AllFreed-right [] ys zs h = tt
AllFreed-right (x ∷ xs) ys zs (h, hs) = (Freed-right x ys zs h, AllFreed-right xs ys zs hs)

AllFreed-left : (xs ys zs : List Block) → AllFreed xs ys → AllFreed xs (ys ++ zs)
AllFreed-left [] ys zs h = tt
AllFreed-left (x ∷ xs) ys zs (h, hs) = (Freed-left x ys zs h, AllFreed-left xs ys zs hs)

AllFreed-all : (xs : List Block) → AllFreed xs xs
AllFreed-all [] = tt
AllFreed-all (x ∷ xs) = (inl refl, AllFreed-right xs (x ∷ []) xs (AllFreed-all xs))

-- The blocks of an object: its paths and its pair.
abbrev pub blocks_of : Pair → List Block
blocks_of p = pair_block p ∷ free_path_link p.path_s

chain-AllFreed :
    (ps : List Pair) (name : CString) (p : Pair)
    → link_contains_obj ps name ≡ some p
    → AllFreed (blocks_of p) (free_header_link ps)
unfolding link_contains_obj free_header_link
chain-AllFreed [] name p e = absurd (cc e)
chain-AllFreed (x ∷ ps) name p e = elim (Bool-cases (str_eq name x.obj_name)) [
  | inl here ↦
      let same : x ≡ p = some-injective _ _ (rw here at e) in
      let rest = pair_block x ∷ free_header_link ps in
      subst (λ y. AllFreed (blocks_of y) (free_header_link (x ∷ ps))) same
        (
          Freed-right (pair_block x) (free_path_link x.path_s) rest (inl refl),
          AllFreed-left (free_path_link x.path_s) (free_path_link x.path_s) rest
              (AllFreed-all (free_path_link x.path_s)),
        )
  | inr other ↦
      AllFreed-right (blocks_of p) (free_path_link x.path_s) (pair_block x ∷ free_header_link ps) (
        AllFreed-right (blocks_of p) (pair_block x ∷ []) (free_header_link ps)
          (chain-AllFreed ps name p (rw other at e)))
]

loop-AllFreed :
    (xs : List Block) (n i k : ℕ) (hash : ℕ → List Pair)
    → i ≤ k
    → k < i + n
    → AllFreed xs (free_header_link (hash k))
    → AllFreed xs (release_loop n i hash)
unfolding release_loop
loop-AllFreed xs zero i k hash low high h = absurd (omega arith)
loop-AllFreed xs (suc n) i k hash low high h = elim (Bool-cases (i == k)) [
  | inl here ↦
      let at : k ≡ i = ground arith in
      AllFreed-left xs (free_header_link (hash i)) (release_loop n (i + 1) hash)
        (subst (λ j. AllFreed xs (free_header_link (hash j))) at h)
  | inr later ↦
      AllFreed-right xs (free_header_link (hash i)) (release_loop n (i + 1) hash)
        (loop-AllFreed xs n (i + 1) k hash (ground (arith, later)) (omega arith) h)
]

else_branch : {A : Type 0} (b : Bool) (x y : A) → b ≡ false → (if b then x else y) ≡ y
else_branch b x y e = rw e refl

found_some :
    (h : LisoHash) (name : CString) (p : Pair)
    → contains_object h name ≡ some p
    → ((h.num_objs == 0) ≡ false) × (link_contains_obj (h.hash (hash_index name)) name ≡ some p)
unfolding contains_object
found_some h name p e = elim (Bool-cases (h.num_objs == 0)) [
  | inl none_left ↦ absurd (cc (rw none_left at e))
  | inr some_left ↦ (some_left, rw some_left at e)
]

hash_index-lt : (name : CString) → hash_index name < 0 + hashsize
unfolding hash_index
hash_index-lt name = omega arith

-- Where the lookup of a name finds a pair, `collapse` frees that pair and all its paths, returns 1 and leaves
-- the empty table.
pub collapse-frees :
    (h : LisoHash) (name : CString) (p : Pair)
    → contains_object h name ≡ some p
    → (freed : List Block) × (collapse h ≡ (init_hash, freed, true)) × AllFreed (blocks_of p) freed
unfolding collapse
collapse-frees h name p e =
    let (some_left, at) = found_some h name p e in
    let freed = release_loop hashsize 0 h.hash in
    (
      freed,
      else_branch (h.num_objs == 0) (h, [], false) (init_hash, freed, true) some_left,
      loop-AllFreed (blocks_of p) hashsize 0 (hash_index name) h.hash (omega arith)
          (hash_index-lt name) (chain-AllFreed (h.hash (hash_index name)) name p at),
    )
