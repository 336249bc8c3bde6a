-- ===== src/HashSet/Paths.antt =====
-- A write to the paths of one object, as `hash_add` and `hash_remove_node` make it.
use p.Prelude.{◌≡◌, List, arith, if◌then◌else◌, CString, str_eq, str_eq_iff, write}
use mathlib.Core.Option
use p.HashSet.{NodePath, LisoHash, hash_index, set_paths}
use p.HashSet.Chain.{paths_of-set_paths, count-set_paths}
use p.HashSet.Invariant.{view, is_some, IsPlaced, IsListed, IsValid}

abbrev pub set_paths_of : LisoHash → CString → (List NodePath → List NodePath) → LisoHash
set_paths_of h name f = record h {
  hash = write h.hash (hash_index name) (set_paths (h.hash (hash_index name)) name f);
}

module _ (h : LisoHash) (name : CString) (f : List NodePath → List NodePath) where
  -- The view changes at that name, if it is there, and nowhere else.
  pub view-set_paths_of :
      (q : CString)
      → view (set_paths_of h name f) q
        ≡ (if str_eq q name then Option.map f (view h q) else view h q)
  unfolding view
  view-set_paths_of q =
      ground (arith, paths_of-set_paths q name (h.hash (hash_index name)) f, str_eq_iff q name)

  set_paths_of-IsPlaced : IsPlaced h → IsPlaced (set_paths_of h name f)
  set_paths_of-IsPlaced v = record {
    once = λ q. ground (arith, v.once q, count-set_paths q name (h.hash (hash_index name)) f);
    home = λ q i n. ground (arith, v.home q i, count-set_paths q name (h.hash (hash_index name)) f);
  }

  is_some-view : (q : CString) → is_some (view (set_paths_of h name f) q) ≡ is_some (view h q)
  is_some-view q = ground (arith, view-set_paths_of q)

  set_paths_of-IsListed : IsListed h → IsListed (set_paths_of h name f)
  set_paths_of-IsListed v = record {
    fits = v.fits;
    stored = λ i lt. ground (arith, v.stored i, is_some-view (h.obj_names i));
    listed = λ q e. v.listed q (ground (arith, is_some-view q));
    distinct = v.distinct;
  }

  pub set_paths_of-IsValid : IsValid h → IsValid (set_paths_of h name f)
  set_paths_of-IsValid v = record {
    placed = set_paths_of-IsPlaced v.placed;
    names = set_paths_of-IsListed v.names;
  }
