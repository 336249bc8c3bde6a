-- ===== src/HashSet/Print.antt =====
-- rd/hashset.c: `printPairs`, as the text that it writes, and `string_tolower`, which nothing calls.
use p.Prelude.{
  ℕ, zero, suc, ◌+◌, List, [], ◌∷◌, ◌++◌, Option, none, some, ◌==◌, if◌then◌else◌, CString,
}
use p.Text.{codes, decimal}
use p.HashSet.{hashsize, NodePath, LisoHash, get_paths}

-- `while (ptr != NULL)`
unfoldable pub print_paths : List NodePath → List ℕ
print_paths [] = []
print_paths (p ∷ ps) =
    codes "node_id: "
    ++ (decimal p.node_id ++ (codes ", cost: " ++ (decimal p.cost ++ (b'\n' ∷ print_paths ps))))

-- A name without paths, or without an object, is not printed.
unfoldable pub print_object : CString → List NodePath → List ℕ
unfolding print_paths
print_object name [] = []
print_object name (p ∷ ps) = name ++ (codes " -- " ++ (b'\n' ∷ print_paths (p ∷ ps)))

-- `for (i = 0; i < HASHSIZE; i++)`, with the rounds left and `i`.
unfoldable pub print_loop : ℕ → ℕ → LisoHash → List ℕ
unfolding print_object
print_loop zero i h = []
print_loop (suc n) i h =
    print_object (h.obj_names i) (get_paths h (h.obj_names i)) ++ print_loop n (i + 1) h

-- `none` is the null pointer.
unfoldable pub print_pairs : Option LisoHash → List ℕ
unfolding print_loop
print_pairs none = []
print_pairs (some h) = if h.num_objs == 0 then [] else print_loop hashsize 0 h ++ b'\n' ∷ []

-- `for (i = 0; i < len; i++)`
unfoldable pub lower_loop : (ℕ → ℕ) → CString → CString
lower_loop tolower [] = []
lower_loop tolower (c ∷ str) = tolower c ∷ lower_loop tolower str

-- `tolower` is that of the C library; `none` is the null pointer.
unfoldable pub string_tolower : (ℕ → ℕ) → Option CString → Option CString
unfolding lower_loop
string_tolower tolower none = none
string_tolower tolower (some str) = some (lower_loop tolower str)
