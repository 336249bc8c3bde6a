-- ===== src/HashSet/RemoveObject.antt =====
-- `hash_remove_object` of rd/hashset.c, and what it leaves in the array of names.
use p.Prelude.{
  ℕ, zero, suc, ◌+◌, ◌-◌, ◌≤◌, ◌<◌, ◌≡◌, ◌≢◌, refl, Bool, true, false, List, [], none, some, arith,
  leb, ◌&&◌, ltb, inl, inr, if◌then◌else◌, CString, str_eq, str_eq_iff, Option-cases, write,
}
use p.HashSet.{
  NodePath, Pair, LisoHash, hashsize, hash_index, hash_remove_node, hash_remove_object, unlink,
  remove_name_loop, remove_obj_from_objset, link_contains_obj,
}
use p.HashSet.Chain.{paths_of-unlink, count-unlink, paths_of-link_contains_obj}
use p.HashSet.Invariant.{view, is_some, IsPlaced, IsValid, view-empty}
use p.HashSet.RemoveNode.{named, remove_node_loop-Clears}

remove_name_loop_at :
    (n i j : ℕ) (names : ℕ → CString) (name : CString)
    → remove_name_loop n i names name j ≡ (
        if leb i j && ltb j (i + n)
        then (if str_eq name (names j) then [] else names j)
        else names j)
unfolding remove_name_loop
remove_name_loop_at zero i j names name = ground arith
remove_name_loop_at (suc n) i j names name = ground (
  arith,
  remove_name_loop_at n (i + 1) j (if str_eq name (names i) then write names i [] else names) name,
)

-- The array after the removal: the name is blanked wherever it stood.
pub remove_obj_from_objset_at :
    (names : ℕ → CString) (name : CString) (j : ℕ)
    → j < hashsize
    → remove_obj_from_objset names name j ≡ (if str_eq name (names j) then [] else names j)
unfolding remove_obj_from_objset
remove_obj_from_objset_at names name j lt =
    ground (arith, remove_name_loop_at hashsize 0 j names name)

-- What the removal of an object does to the chains.
pub record Drops (h : LisoHash) (name : CString) (r : LisoHash × Bool) : Type 0 where
  pub placed : IsPlaced r.0
  pub views : (q : CString) → view r.0 q ≡ (if str_eq q name then none else view h q)
  pub returns : r.1 ≡ is_some (view h name)

module _ (h : LisoHash) (name : CString) (v : IsValid h) where
  found-view :
      (iter : Pair)
      → link_contains_obj (h.hash (hash_index name)) name ≡ some iter
      → view h name ≡ some iter.path_s
  unfolding view
  found-view iter e = ground (arith, paths_of-link_contains_obj (h.hash (hash_index name)) name)

  missing-view : link_contains_obj (h.hash (hash_index name)) name ≡ none → view h name ≡ none
  unfolding view
  missing-view e = ground (arith, paths_of-link_contains_obj (h.hash (hash_index name)) name)

  -- The table without the first pair of that name, as the code leaves it.
  abbrev dropped : LisoHash
  dropped = record {
    hash = write h.hash (hash_index name) (unlink (h.hash (hash_index name)) name);
    obj_names = remove_obj_from_objset h.obj_names name;
    num_objs = h.num_objs - 1;
  }

  view-dropped : (q : CString) → view dropped q ≡ (if str_eq q name then none else view h q)
  unfolding view
  view-dropped q = ground (
    arith,
    paths_of-unlink q name (h.hash (hash_index name)),
    v.placed.once q,
    v.placed.home q (hash_index name),
    str_eq_iff q name,
  )

  dropped-IsPlaced : IsPlaced dropped
  dropped-IsPlaced = record {
    once = λ q. ground (arith, v.placed.once q, count-unlink q name (h.hash (hash_index name)));
    home =
        λ q i n. ground (arith, v.placed.home q i, count-unlink q name (h.hash (hash_index name)));
  }

  unchanged-Drops : view h name ≡ none → Drops h name (h, false)
  unchanged-Drops e = record {
    placed = v.placed;
    views = λ q. ground (arith, str_eq_iff q name);
    returns = ground arith;
  }

  dropped-Drops : (ps : List NodePath) → view h name ≡ some ps → Drops h name (dropped, true)
  dropped-Drops ps e = record {
    placed = dropped-IsPlaced;
    views = view-dropped;
    returns = ground arith;
  }

  hash_remove_object-some :
      (ps : List NodePath) → view h name ≡ some ps → hash_remove_object h name ≡ (dropped, true)
  unfolding hash_remove_object
  hash_remove_object-some ps e =
      ground (arith, missing-view, λ (z : h.num_objs ≡ 0). view-empty h v.names z name)

  hash_remove_object-none : view h name ≡ none → hash_remove_object h name ≡ (h, false)
  unfolding hash_remove_object
  hash_remove_object-none e =
      elim (Option-cases (link_contains_obj (h.hash (hash_index name)) name)) [
        | inl gone ↦ ground arith
        | inr (iter, at) ↦ cc (found-view iter at)
      ]

  -- On a valid table `hash_remove_object` takes out that object and no other, returns 1 exactly
  -- where the object was there, and every pair stays in its chain.
  pub hash_remove_object-Drops : Drops h name (hash_remove_object h name)
  hash_remove_object-Drops = elim (Option-cases (view h name)) [
    | inl gone ↦ rw (hash_remove_object-none gone) (unchanged-Drops gone)
    | inr (ps, there) ↦ rw (hash_remove_object-some ps there) (dropped-Drops ps there)
  ]

named-false :
    (n i : ℕ) (names : ℕ → CString) (q : CString)
    → ((j : ℕ) → i ≤ j → j < i + n → names j ≢ q)
    → named n i names q ≡ false
unfolding named
named-false zero i names q h = refl
named-false (suc n) i names q h = ground (
  arith,
  named-false n (i + 1) names q (λ j lo hi. h j (omega arith) (omega arith)),
  str_eq_iff q (names i),
  h i,
)

-- On a valid table, after `hash_remove_object` took out another object, `hash_remove_node` leaves
-- the paths of the object whose name was added last as they are, whatever node they lead to.
pub hash_remove_object-hides_last :
    (h : LisoHash) (name last : CString) (i node_id : ℕ)
    → IsValid h
    → i + 1 ≡ h.num_objs
    → h.obj_names i ≡ last
    → is_some (view h name) ≡ true
    → name ≢ last
    → last ≢ []
    → view (hash_remove_node (hash_remove_object h name).0 node_id) last ≡ view h last
unfolding hash_remove_node
hash_remove_object-hides_last h name last i node_id v e at there ne proper =
    elim (Option-cases (view h name)) [
      | inl gone ↦ cc
      | inr (ps, some_paths) ↦ rw (hash_remove_object-some h name v ps some_paths) hidden
    ]
  where
    h' : LisoHash
    h' = dropped h name v

    unlisted : (j : ℕ) → 0 ≤ j → j < 0 + (h.num_objs - 1) → h'.obj_names j ≢ last
    unlisted j lo hi same = ground (
      arith,
      remove_obj_from_objset_at h.obj_names name j (omega (arith, v.names.fits)),
      v.names.distinct j i (omega arith) (omega arith),
    )

    hidden : view (hash_remove_node h' node_id) last ≡ view h last
    hidden = ground (
      arith,
      (remove_node_loop-Clears (h.num_objs - 1) 0 h' node_id).views last,
      named-false (h.num_objs - 1) 0 h'.obj_names last unlisted,
      view-dropped h name v last,
      str_eq_iff last name,
    )
