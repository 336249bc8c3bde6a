-- ===== src/HashSet.antt =====
-- rd/hashset.h, rd/hashset.c: the hash table of the objects in the network. A chain of `pair`s, and
-- the chain of `path`s in a pair, is a list; a null pointer is the empty list. `malloc` does not
-- fail. What `collapse` frees is in Release, what `printPairs` writes in Print.
pub mod Hash
pub mod Chain
pub mod Invariant
pub mod Paths
pub mod Add
pub mod RemoveNode
pub mod RemoveObject
pub mod Names
pub mod Release
pub mod Print
use p.Prelude.{
  ℕ, zero, suc, ◌+◌, ◌-◌, ◌%◌, Bool, true, false, ◌&&◌, List, [], ◌∷◌, Option, none, some, ◌==◌,
  ltb, if◌then◌else◌, slt, length, CString, str_eq, write, ◌>>=◌, ◌>>◌, defined,
}
use p.HashSet.Hash.{super_fast_hash}

-- rd/constants.h
abbrev pub hashsize : ℕ
hashsize = 9377

abbrev pub maxobjnum : ℕ
maxobjnum = 9377

abbrev pub maxobjname : ℕ
maxobjname = 64

-- `struct path`
pub record NodePath : Type 0 where
  pub node_id : ℕ
  pub cost : ℕ

-- `struct pair`
pub record Pair : Type 0 where
  pub obj_name : CString
  pub path_s : List NodePath

-- `struct liso_hash`
pub record LisoHash : Type 0 where
  pub hash : ℕ → List Pair
  pub obj_names : ℕ → CString
  pub num_objs : ℕ

unfoldable pub hash_index : CString → ℕ
hash_index obj_name = super_fast_hash obj_name (length obj_name) % hashsize

unfoldable pub init_hash : LisoHash
init_hash = record { hash = λ _. []; obj_names = λ _. []; num_objs = 0 }

unfoldable pub link_contains_obj : List Pair → CString → Option Pair
link_contains_obj [] obj_name = none
link_contains_obj (p ∷ ps) obj_name =
    if str_eq obj_name p.obj_name then some p else link_contains_obj ps obj_name

unfoldable pub contains_object : LisoHash → CString → Option Pair
contains_object h obj_name =
    if h.num_objs == 0 then none else link_contains_obj (h.hash (hash_index obj_name)) obj_name

-- The loop of `get_paths`.
unfoldable pub get_paths_loop : List Pair → CString → List NodePath
get_paths_loop [] obj_name = []
get_paths_loop (p ∷ ps) obj_name =
    if str_eq obj_name p.obj_name then p.path_s else get_paths_loop ps obj_name

unfoldable pub get_paths : LisoHash → CString → List NodePath
get_paths h obj_name =
    if h.num_objs == 0 then [] else get_paths_loop (h.hash (hash_index obj_name)) obj_name

-- A write to `path_s` through a pointer to the first pair of that name.
unfoldable pub set_paths : List Pair → CString → (List NodePath → List NodePath) → List Pair
set_paths [] obj_name f = []
set_paths (p ∷ ps) obj_name f =
    if str_eq obj_name p.obj_name
    then record p { path_s = f p.path_s } ∷ ps
    else p ∷ set_paths ps obj_name f

-- What `hash_add` does to the paths of an object that is there: a first path is set, a dearer one
-- is replaced.
unfoldable pub nearest : ℕ → ℕ → List NodePath → List NodePath
nearest node_id cost [] = record { node_id = node_id; cost = cost } ∷ []
nearest node_id cost (curr ∷ rest) =
    if slt cost curr.cost then record { node_id = node_id; cost = cost } ∷ [] else curr ∷ rest

-- The second half of `hash_add`: a new pair in front of its chain, and the name in the array. The
-- copies of the name are defined only where it fits the arrays.
unfoldable pub add_new : LisoHash → CString → ℕ → ℕ → Option LisoHash
add_new h obj_name node_id cost = do
  defined (ltb (length obj_name) maxobjname)
  defined (ltb h.num_objs maxobjnum)
  let new : Pair = record {
    obj_name = obj_name;
    path_s = record { node_id = node_id; cost = cost } ∷ [];
  }
  some (record {
    hash = write h.hash (hash_index obj_name) (new ∷ h.hash (hash_index obj_name));
    obj_names = write h.obj_names h.num_objs obj_name;
    num_objs = h.num_objs + 1;
  })

unfoldable pub hash_add : LisoHash → CString → ℕ → ℕ → Option LisoHash
unfolding add_new nearest
hash_add h obj_name node_id cost = elim (contains_object h obj_name) [
  | some dom ↦
      let chain = h.hash (hash_index obj_name) in
      some (record h {
        hash = write h.hash (hash_index obj_name) (set_paths chain obj_name (nearest node_id cost));
      })
  | none ↦ add_new h obj_name node_id cost
]

-- `hash_remove_node` frees a path that leads to the node.
unfoldable pub clear_node : ℕ → List NodePath → List NodePath
clear_node node_id [] = []
clear_node node_id (p ∷ ps) = if p.node_id == node_id then [] else p ∷ ps

-- `for (i = 0; i < num_objs; i++)`, with the rounds left and `i`.
unfoldable pub remove_node_loop : ℕ → ℕ → LisoHash → ℕ → LisoHash
unfolding clear_node
remove_node_loop zero i h node_id = h
remove_node_loop (suc n) i h node_id =
    let obj_name = h.obj_names i in
    let k = hash_index obj_name in
    remove_node_loop n (i + 1)
      (record h { hash = write h.hash k (set_paths (h.hash k) obj_name (clear_node node_id)) })
      node_id

unfoldable pub hash_remove_node : LisoHash → ℕ → LisoHash
unfolding remove_node_loop
hash_remove_node h node_id = remove_node_loop h.num_objs 0 h node_id

-- The loop of `hash_remove_object` unlinks the first pair of that name.
unfoldable pub unlink : List Pair → CString → List Pair
unlink [] obj_name = []
unlink (p ∷ ps) obj_name = if str_eq obj_name p.obj_name then ps else p ∷ unlink ps obj_name

-- `for (i = 0; i < HASHSIZE; i++)`, with the rounds left and `i`.
unfoldable pub remove_name_loop : ℕ → ℕ → (ℕ → CString) → CString → ℕ → CString
remove_name_loop zero i names obj_name = names
remove_name_loop (suc n) i names obj_name =
    remove_name_loop n (i + 1) (if str_eq obj_name (names i) then write names i [] else names)
      obj_name

unfoldable pub remove_obj_from_objset : (ℕ → CString) → CString → ℕ → CString
remove_obj_from_objset names obj_name = remove_name_loop hashsize 0 names obj_name

-- With the value that it returns.
unfoldable pub hash_remove_object : LisoHash → CString → LisoHash × Bool
unfolding unlink
hash_remove_object h obj_name =
    if h.num_objs == 0
    then (h, false)
    else elim (link_contains_obj (h.hash (hash_index obj_name)) obj_name) [
      | none ↦ (h, false)
      | some iter ↦ (
        record {
          hash =
              write h.hash (hash_index obj_name) (unlink (h.hash (hash_index obj_name)) obj_name);
          obj_names = remove_obj_from_objset h.obj_names obj_name;
          num_objs = h.num_objs - 1;
        },
        true,
      )
    ]

-- `while (curr1 != NULL && curr2 != NULL)` and the tests after it; true is a difference.
unfoldable pub pathcmp : List NodePath → List NodePath → Bool
pathcmp [] [] = false
pathcmp [] (q ∷ qs) = true
pathcmp (p ∷ ps) [] = true
pathcmp (p ∷ ps) (q ∷ qs) =
    if p.node_id == q.node_id then (if p.cost == q.cost then pathcmp ps qs else true) else true

unfoldable pub link_contains_paths : List Pair → List NodePath → Bool
unfolding pathcmp
link_contains_paths [] paths = false
link_contains_paths (p ∷ ps) paths =
    if pathcmp paths p.path_s then link_contains_paths ps paths else true
