-- ===== src/HashSet/RemoveNode.antt =====
-- `hash_remove_node` of rd/hashset.c.
use p.Prelude.{
  ℕ, zero, suc, ◌+◌, ◌≤◌, ◌<◌, ◌≡◌, ◌≢◌, refl, Bool, true, false, List, [], ◌∷◌, Option, none, some,
  arith, ◌==◌, inl, inr, if◌then◌else◌, Bool-cases, Option-cases, ◌∙◌, CString, str_eq, str_eq_iff,
}
use mathlib.Core.Option
use p.HashSet.{NodePath, LisoHash, get_paths, clear_node, remove_node_loop, hash_remove_node}
use p.HashSet.Chain.{or_nil}
use p.HashSet.Invariant.{view, IsValid, get_paths-view}
use p.HashSet.Paths.{set_paths_of, view-set_paths_of, set_paths_of-IsValid}

-- Whether a name stands in the array at `i` or one of the next `n - 1` places.
unfoldable pub named : ℕ → ℕ → (ℕ → CString) → CString → Bool
named zero i names q = false
named (suc n) i names q = if str_eq q (names i) then true else named n (i + 1) names q

pub named-true :
    (n i j : ℕ) (names : ℕ → CString) (q : CString)
    → i ≤ j
    → j < i + n
    → names j ≡ q
    → named n i names q ≡ true
unfolding named
named-true zero i j names q lo hi e = absurd (omega arith)
named-true (suc n) i j names q lo hi e =
    ground (arith, named-true n (i + 1) j names q, str_eq_iff q (names j), str_eq_iff q (names i))

clear_node_idem :
    (k : ℕ) (o : Option (List NodePath))
    → Option.map (clear_node k) (Option.map (clear_node k) o) ≡ Option.map (clear_node k) o
unfolding clear_node
clear_node_idem k none = refl
clear_node_idem k (some []) = refl
clear_node_idem k (some (p ∷ ps)) = ground arith

-- The result `h'` of the loop: it clears each object that it comes by, and keeps the names.
pub record Clears (n i : ℕ) (h : LisoHash) (k : ℕ) (h' : LisoHash) : Type 0 where
  pub names : h'.obj_names ≡ h.obj_names
  pub count : h'.num_objs ≡ h.num_objs
  pub views :
      (q : CString)
      → view h' q
        ≡ (if named n i h.obj_names q then Option.map (clear_node k) (view h q) else view h q)

pub remove_node_loop-Clears :
    (n i : ℕ) (h : LisoHash) (k : ℕ) → Clears n i h k (remove_node_loop n i h k)
unfolding remove_node_loop named
remove_node_loop-Clears zero i h k = record { names = refl; count = refl; views = λ q. refl }
remove_node_loop-Clears (suc n) i h k =
    let name = h.obj_names i in
    let rest = remove_node_loop-Clears n (i + 1) (set_paths_of h name (clear_node k)) k in
    record {
      names = rest.names;
      count = rest.count;
      views = λ q. ground (
        arith,
        rest.views q,
        view-set_paths_of h name (clear_node k) q,
        clear_node_idem k (view h q),
      );
    }

remove_node_loop-IsValid :
    (n i : ℕ) (h : LisoHash) (k : ℕ) → IsValid h → IsValid (remove_node_loop n i h k)
unfolding remove_node_loop
remove_node_loop-IsValid zero i h k v = v
remove_node_loop-IsValid (suc n) i h k v =
    remove_node_loop-IsValid n (i + 1) (set_paths_of h (h.obj_names i) (clear_node k)) k
      (set_paths_of-IsValid h (h.obj_names i) (clear_node k) v)

hash_remove_node-view :
    (h : LisoHash) (k : ℕ) (q : CString)
    → IsValid h
    → view (hash_remove_node h k) q ≡ Option.map (clear_node k) (view h q)
unfolding hash_remove_node
hash_remove_node-view h k q v =
    let loop = remove_node_loop-Clears h.num_objs 0 h k in
    elim (Option-cases (view h q)) [
      | inl e ↦ ground (arith, loop.views q)
      | inr (ps, e) ↦
          let (i, lt, at) = v.names.listed q (rw e refl) in
          ground (
            arith,
            loop.views q,
            named-true h.num_objs 0 i h.obj_names q (omega arith) (omega arith) at,
          )
    ]

-- The first path of a list leads to another node, or there is none.
abbrev pub Avoids : ℕ → List NodePath → Type 0
Avoids node_id [] = Unit
Avoids node_id (p ∷ ps) = p.node_id ≢ node_id

clear_node-Avoids :
    (k : ℕ) (o : Option (List NodePath)) → Avoids k (or_nil (Option.map (clear_node k) o))
unfolding clear_node
clear_node-Avoids k none = tt
clear_node-Avoids k (some []) = tt
clear_node-Avoids k (some (p ∷ ps)) = elim (Bool-cases (p.node_id == k)) [
  | inl same ↦ rw same tt
  | inr other ↦ rw other (ground arith)
]

clear_node_avoided :
    (k : ℕ) (o : Option (List NodePath)) → Avoids k (or_nil o) → Option.map (clear_node k) o ≡ o
unfolding clear_node
clear_node_avoided k none other = refl
clear_node_avoided k (some []) other = refl
clear_node_avoided k (some (p ∷ ps)) other = ground arith

-- What the removal of a node does to the table: an object that leads to it is left without a path,
-- any other keeps its paths, and no name goes.
pub record Removes (h : LisoHash) (node_id : ℕ) (h' : LisoHash) : Type 0 where
  pub valid : IsValid h'
  pub names : h'.obj_names ≡ h.obj_names
  pub count : h'.num_objs ≡ h.num_objs
  pub cleared :
      (q : CString) (p : NodePath) (ps : List NodePath)
      → view h q ≡ some (p ∷ ps)
      → p.node_id ≡ node_id
      → view h' q ≡ some []
  pub kept : (q : CString) → Avoids node_id (or_nil (view h q)) → view h' q ≡ view h q

-- On a valid table `hash_remove_node` takes the path to the node from every object that has it, and
-- changes nothing else: the objects themselves stay.
pub hash_remove_node-Removes :
    (h : LisoHash) (node_id : ℕ) → IsValid h → Removes h node_id (hash_remove_node h node_id)
unfolding hash_remove_node clear_node
hash_remove_node-Removes h k v =
    let loop = remove_node_loop-Clears h.num_objs 0 h k in
    record {
      valid = remove_node_loop-IsValid h.num_objs 0 h k v;
      names = loop.names;
      count = loop.count;
      cleared = λ q p ps e same. ground (arith, hash_remove_node-view h k q v, e);
      kept = λ q other. hash_remove_node-view h k q v ∙ clear_node_avoided k (view h q) other;
    }

-- After `hash_remove_node` on a valid table no lookup is sent to the node, whatever the name.
pub get_paths-hash_remove_node :
    (h : LisoHash) (node_id : ℕ) (q : CString)
    → IsValid h
    → Avoids node_id (get_paths (hash_remove_node h node_id) q)
get_paths-hash_remove_node h k q v =
    let r = hash_remove_node-Removes h k v in
    rw (get_paths-view (hash_remove_node h k) q r.valid, hash_remove_node-view h k q v)
      (clear_node-Avoids k (view h q))
