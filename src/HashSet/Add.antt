-- ===== src/HashSet/Add.antt =====
-- `hash_add` of rd/hashset.c.
use p.Prelude.{
  ℕ, List, sle, refl, ◌+◌, ◌≤◌, ◌<◌, ◌≡◌, ◌≢◌, ap, subst, true, false, [], ◌∷◌, none, some, arith,
  inl, inr, sym, ◌↔◌, length, ◌⊎◌, if◌then◌else◌, CString, str_eq, str_eq_iff, str_eq_refl, write,
  Bool-cases, Option-cases,
}
use p.HashSet.{
  NodePath, Pair, LisoHash, hash_index, contains_object, add_new, hash_add, nearest, maxobjnum,
  maxobjname,
}
use p.HashSet.Chain.{count, paths_of, count-eq-zero, or_nil}
use p.HashSet.Invariant.{view, is_some, IsPlaced, IsListed, IsValid, contains_object-view}
use p.HashSet.Paths.{set_paths_of, view-set_paths_of, set_paths_of-IsValid}

-- The room that `hash_add` needs for a name that is not there.
abbrev pub HasRoom : LisoHash → CString → Type 0
HasRoom h name = (length name < maxobjname) × (h.num_objs < maxobjnum)

module _ (h : LisoHash) (name : CString) (node_id cost : ℕ) where
  -- The table with a new pair in front of its chain, and its name in the array.
  abbrev added : LisoHash
  added = record {
    hash = write h.hash (hash_index name) (
        record { obj_name = name; path_s = record { node_id = node_id; cost = cost } ∷ [] }
        ∷ h.hash (hash_index name));
    obj_names = write h.obj_names h.num_objs name;
    num_objs = h.num_objs + 1;
  }

  add_new-eq :
      {h' : LisoHash} → add_new h name node_id cost ≡ some h' → HasRoom h name × (h' ≡ added)
  unfolding add_new
  add_new-eq e = ground arith

  view-added :
      (q : CString)
      → view added q ≡ (if str_eq q name then some (nearest node_id cost []) else view h q)
  unfolding view paths_of nearest
  view-added q = ground (arith, str_eq_iff q name)

  module _ (v : IsValid h) (absent : view h name ≡ none) where
    added-IsPlaced : IsPlaced added
    unfolding count view
    added-IsPlaced = record {
      once = λ q. ground (
        arith,
        v.placed.once q,
        count-eq-zero (h.hash (hash_index name)) name absent,
        str_eq_iff q name,
      );
      home = λ q i n. ground (arith, v.placed.home q i, str_eq_iff q name);
    }

    added-IsListed : h.num_objs < maxobjnum → IsListed added
    added-IsListed room = record {
      fits = room_le;
      stored = λ i lt. stored i lt;
      listed = λ q e. listed q e (Bool-cases (str_eq q name));
      distinct = λ i j hi hj e. distinct i j hi hj e;
    }
      where
        room_le : h.num_objs + 1 ≤ maxobjnum
        room_le = omega arith

        stored : (i : ℕ) → i < h.num_objs + 1 → is_some (view added (added.obj_names i)) ≡ true
        stored i lt =
            ground (
              arith,
              v.names.stored i,
              view-added name,
              view-added (h.obj_names i),
              str_eq_refl name,
            )

        fresh : (i : ℕ) → i < h.num_objs → h.obj_names i ≢ name
        fresh i lt e = ground (arith, v.names.stored i, ap (view h) e)

        listed :
            (q : CString)
            → is_some (view added q) ≡ true
            → (str_eq q name ≡ true) ⊎ (str_eq q name ≡ false)
            → (i : ℕ) × (i < h.num_objs + 1) × (write h.obj_names h.num_objs name i ≡ q)
        listed q e (inl same) =
            (h.num_objs, omega arith, ground (arith, (str_eq_iff q name).0 same))
        listed q e (inr other) =
            let old : is_some (view h q) ≡ true = ground (arith, view-added q) in
            let (i, lt, at) = v.names.listed q old in (i, omega arith, ground arith)

        distinct :
            (i j : ℕ)
            → i < h.num_objs + 1
            → j < h.num_objs + 1
            → added.obj_names i ≡ added.obj_names j
            → i ≡ j
        distinct i j hi hj e = ground (arith, v.names.distinct i j, fresh i, fresh j)

-- The paths of an object to which `p` is offered: a path that is there stays unless it costs more.
abbrev pub with_offer : NodePath → List NodePath → List NodePath
with_offer p [] = p ∷ []
with_offer p (old ∷ rest) = if sle old.cost p.cost then old ∷ rest else p ∷ []

nearest-with_offer :
    (node_id cost : ℕ) (ps : List NodePath)
    → nearest node_id cost ps ≡ with_offer (record { node_id = node_id; cost = cost }) ps
unfolding nearest
nearest-with_offer node_id cost [] = refl
nearest-with_offer node_id cost (old ∷ rest) = ground arith

-- What an addition does: the object has the cheaper of its old path and the new one, every other
-- object keeps its paths, and a new object is one more name.
pub record Adds (h : LisoHash) (name : CString) (node_id cost : ℕ) (h' : LisoHash) : Type 0 where
  pub valid : IsValid h'
  pub views :
      (q : CString)
      → view h' q ≡ (
          if str_eq q name
          then some (with_offer (record { node_id = node_id; cost = cost }) (or_nil (view h name)))
          else view h q)
  pub counts : h'.num_objs ≡ h.num_objs + (if is_some (view h name) then 0 else 1)

module _ (h : LisoHash) (name : CString) (node_id cost : ℕ) (v : IsValid h) where
  contains-absent : contains_object h name ≡ none → view h name ≡ none
  contains-absent e = ground (arith, contains_object-view h name v)

  contains-present :
      (dom : Pair) → contains_object h name ≡ some dom → view h name ≡ some dom.path_s
  contains-present dom e = ground (arith, contains_object-view h name v)

  replaced-Adds :
      (dom : Pair)
      → contains_object h name ≡ some dom
      → Adds h name node_id cost (set_paths_of h name (nearest node_id cost))
  replaced-Adds dom e =
      let here = contains-present dom e in
      record {
        valid = set_paths_of-IsValid h name (nearest node_id cost) v;
        views = λ q. ground (
          arith,
          view-set_paths_of h name (nearest node_id cost) q,
          here,
          str_eq_iff q name,
          nearest-with_offer node_id cost dom.path_s,
        );
        counts = ground (arith, here);
      }

  added-Adds :
      contains_object h name ≡ none
      → HasRoom h name
      → Adds h name node_id cost (added h name node_id cost)
  added-Adds e room =
      let gone = contains-absent e in
      record {
        valid = record {
          placed = added-IsPlaced h name node_id cost v gone;
          names = added-IsListed h name node_id cost v gone room.1;
        };
        views = λ q.
            ground
              (arith, view-added h name node_id cost q, gone, nearest-with_offer node_id cost []);
        counts = ground (arith, gone);
      }

  -- Whenever `hash_add` returns on a valid table, the table is valid again, the object has the
  -- cheaper of its old path and the new one, and every other object is as before.
  pub hash_add-Adds :
      {h' : LisoHash} → hash_add h name node_id cost ≡ some h' → Adds h name node_id cost h'
  unfolding hash_add
  hash_add-Adds {h'} e = elim (Option-cases (contains_object h name)) [
    | inl gone ↦
        let (room, at) = add_new-eq h name node_id cost (ground (arith, gone)) in
        subst (Adds h name node_id cost) (sym at) (added-Adds gone room)
    | inr (dom, there) ↦
        let at : set_paths_of h name (nearest node_id cost) ≡ h' = ground (arith, there) in
        subst (Adds h name node_id cost) at (replaced-Adds dom there)
  ]

  -- On a valid table `hash_add` has undefined behaviour exactly where the object is new and its name
  -- does not fit the 64 bytes of a name, or the array of names is full.
  pub hash_add_fault :
      (hash_add h name node_id cost ≡ none) ↔ ((view h name ≡ none) × ¬ HasRoom h name)
  unfolding hash_add add_new
  hash_add_fault = (
    λ e. (ground (arith, contains_object-view h name v), λ room. ground arith),
    λ (gone, full). ground (arith, contains_object-view h name v, full),
  )
