-- ===== src/HashSet/Invariant.antt =====
-- The invariant of the table of rd/hashset.c: every pair is in the chain of its name, a name is in one
-- pair at most, and the array lists the stored names.
use p.Prelude.{
  ℕ, ◌≤◌, ◌<◌, ◌≡◌, refl, Bool, true, false, List, Option, none, some, arith, ◌==◌, CString,
}
use mathlib.Core.Option
use p.HashSet.{
  NodePath, Pair, LisoHash, maxobjnum, hash_index, init_hash, contains_object, get_paths,
}
use p.HashSet.Chain.{count, paths_of, or_nil, paths_of-link_contains_obj, get_paths_loop-paths_of}

-- The table as a map from names: the paths of an object, `none` where the table does not have it.
unfoldable pub view : LisoHash → CString → Option (List NodePath)
view h q = paths_of (h.hash (hash_index q)) q

abbrev pub is_some {ℓ} : {A : Type ℓ} → Option A → Bool
is_some none = false
is_some (some a) = true

-- Only the chain of its own name holds an object, and once at most.
pub record IsPlaced (h : LisoHash) : Type 0 where
  pub once : (q : CString) → count q (h.hash (hash_index q)) ≤ 1
  pub home : (q : CString) (i : ℕ) → (i == hash_index q) ≡ false → count q (h.hash i) ≡ 0

-- The first `num_objs` names of the array are the stored objects, each once.
pub record IsListed (h : LisoHash) : Type 0 where
  pub fits : h.num_objs ≤ maxobjnum
  pub stored : (i : ℕ) → i < h.num_objs → is_some (view h (h.obj_names i)) ≡ true
  pub listed :
      (q : CString) → is_some (view h q) ≡ true → (i : ℕ) × (i < h.num_objs) × (h.obj_names i ≡ q)
  pub distinct : (i j : ℕ) → i < h.num_objs → j < h.num_objs → h.obj_names i ≡ h.obj_names j → i ≡ j

pub record IsValid (h : LisoHash) : Type 0 where
  pub placed : IsPlaced h
  pub names : IsListed h

pub init_hash-IsValid : IsValid init_hash
unfolding init_hash view count paths_of
init_hash-IsValid = record {
  placed = record { once = λ q. omega arith; home = λ q i n. refl };
  names = record {
    fits = omega arith;
    stored = λ i h. absurd (omega arith);
    listed = λ q h. cc;
    distinct = λ i j h. absurd (omega arith);
  };
}

-- With no listed name the table is empty, so the early returns change nothing.
pub view-empty : (h : LisoHash) → IsListed h → h.num_objs ≡ 0 → (q : CString) → view h q ≡ none
view-empty h v e q = go (view h q) refl
  where
    go : (o : Option (List NodePath)) → view h q ≡ o → o ≡ none
    go none p = refl
    go (some ps) p = let (i, lt, _) = v.listed q (rw p refl) in absurd (omega arith)

-- On a valid table `contains_object` finds exactly the stored objects, with their paths.
pub contains_object-view :
    (h : LisoHash) (q : CString)
    → IsValid h
    → Option.map (λ (p : Pair). p.path_s) (contains_object h q) ≡ view h q
unfolding contains_object view
contains_object-view h q v = ground (
  arith,
  paths_of-link_contains_obj (h.hash (hash_index q)) q,
  λ (e : h.num_objs ≡ 0). view-empty h v.names e q,
)

-- `get_paths` returns the paths of a stored object, and null for any other name.
pub get_paths-view : (h : LisoHash) (q : CString) → IsValid h → get_paths h q ≡ or_nil (view h q)
unfolding get_paths view
get_paths-view h q v = ground (
  arith,
  get_paths_loop-paths_of (h.hash (hash_index q)) q,
  λ (e : h.num_objs ≡ 0). view-empty h v.names e q,
)
