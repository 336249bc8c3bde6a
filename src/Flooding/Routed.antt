-- ===== src/Flooding/Routed.antt =====
-- The routes of the daemon (rd/flooding_engine.c): `IsRouted`.
pub mod Same
pub mod Packets
pub mod Retries
use p.Prelude.{
  ℕ, zero, suc, ◌+◌, ◌<◌, ◌≡◌, ◌≢◌, refl, ap, ◌∙◌, sym, subst, Bool, true, false, List, [], ◌∷◌,
  Option, none, some, arith, ◌==◌, inl, inr, Option-cases, Bool-cases, CString, str_eq,
  if◌then◌else◌, write, drop, ◌>>=◌, ◌>>◌, defined, ltb, get_elem?, rounds, sle, slt,
}
use mathlib.Core.Option.{some-injective}
use p.Tables.{DirectLinks, LocalObjects, max_obj_len}
use p.HashSet.Names.{KeepsNames, hash_add-KeepsNames, AllStored}
use p.Lsa.{Lsa, lsa_cost, read_int, strncpy, store_loop, store_node_objects}
use p.HashSet.{NodePath, LisoHash, hash_add, hash_remove_node}
use p.HashSet.Chain.{or_nil}
use p.HashSet.Invariant.{view, is_some, IsValid}
use p.HashSet.Add.{with_offer, hash_add-Adds}
use p.HashSet.RemoveNode.{Avoids, Removes, hash_remove_node-Removes}
use p.Routing.{
  status_down, RoutingEntry, RoutingTable, get_routing_entry, lookup_link_entry_node_id,
  update_entry, route_entry, other_entry, count_entry, attach_lsa, improve,
}
use p.Routing.Lookup.{get_routing_entry-Found}
use p.Routing.Update.Routes.{updated}
use p.Flooding.{State}

-- A link has that id.
abbrev pub HasLink : DirectLinks → ℕ → Type 0
HasLink dl id = is_some (lookup_link_entry_node_id dl id) ≡ true

-- An entry has that id, and is up.
abbrev pub NodeUp : RoutingTable → ℕ → Type 0
NodeUp rt id =
    (k : ℕ) × (k < rt.num_entry) × ((rt.table k).id ≡ id) × ((rt.table k).node_status ≢ status_down)

-- The node at the head of the paths, which is the one that is used, is up.
abbrev pub HeadUp : RoutingTable → List NodePath → Type 0
HeadUp rt [] = Unit
HeadUp rt (p ∷ ps) = NodeUp rt p.node_id

abbrev pub HopsLinked : DirectLinks → RoutingTable → Type 0
HopsLinked dl rt = (j : ℕ) → j < rt.num_entry → HasLink dl (rt.table j).nexthop

abbrev pub PathsUp : RoutingTable → LisoHash → Type 0
PathsUp rt gol = (q : CString) → HeadUp rt (or_nil (view gol q))

-- No link has this id.
abbrev pub NoneHas : ℕ → DirectLinks → Type 0
NoneHas id [] = Unit
NoneHas id (l ∷ ls) = (l.id ≢ id) × NoneHas id ls

-- The id of the node itself.
abbrev pub home_id : DirectLinks → ℕ
home_id [] = 0
home_id (own ∷ ls) = own.id

-- Every next hop is a link, every path of an object leads to a node that is up, every local object is in
-- the table, and the node itself, whose entry is the first, is up.
pub record IsRouted (dl : DirectLinks) (ol : LocalObjects) (s : State) : Type 0 where
  pub valid : IsValid s.gol
  pub hops : HopsLinked dl s.rt
  pub paths : PathsUp s.rt s.gol
  pub stored : AllStored ol s.gol
  pub some_entry : 0 < s.rt.num_entry
  pub home_is : (s.rt.table 0).id ≡ home_id dl
  pub home_up : (s.rt.table 0).node_status ≢ status_down
  pub apart : NoneHas (home_id dl) (drop 1 dl)

-- No node that is up is lost.
abbrev pub KeepsUp : RoutingTable → RoutingTable → Type 0
KeepsUp rt rt' = (id : ℕ) → NodeUp rt id → NodeUp rt' id

HeadUp-keep :
    (rt rt' : RoutingTable) (ps : List NodePath) → KeepsUp rt rt' → HeadUp rt ps → HeadUp rt' ps
HeadUp-keep rt rt' [] h up = tt
HeadUp-keep rt rt' (p ∷ ps) h up = h p.node_id up

pub PathsUp-keep :
    (rt rt' : RoutingTable) (gol : LisoHash) → KeepsUp rt rt' → PathsUp rt gol → PathsUp rt' gol
PathsUp-keep rt rt' gol h all = λ q. HeadUp-keep rt rt' (or_nil (view gol q)) h (all q)

-- An addition for a node that is up.
HeadUp-offer :
    (rt : RoutingTable) (p : NodePath) (ps : List NodePath)
    → NodeUp rt p.node_id
    → HeadUp rt ps
    → HeadUp rt (with_offer p ps)
HeadUp-offer rt p [] h up = h
HeadUp-offer rt p (old ∷ rest) h up = elim (Bool-cases (sle old.cost p.cost)) [
  | inl e ↦ rw e up
  | inr e ↦ rw e h
]

pub hash_add-PathsUp :
    (rt : RoutingTable) (gol gol' : LisoHash) (name : CString) (id cost : ℕ)
    → IsValid gol
    → NodeUp rt id
    → PathsUp rt gol
    → hash_add gol name id cost ≡ some gol'
    → PathsUp rt gol'
hash_add-PathsUp rt gol gol' name id cost v h all e q =
    let adds = hash_add-Adds gol name id cost v e in
    elim (Bool-cases (str_eq q name)) [
      | inl same ↦
          rw (adds.views q, same)
            (HeadUp-offer rt (record { node_id = id; cost = cost }) (or_nil (view gol name)) h
              (all name))
      | inr other ↦ rw (adds.views q, other) (all q)
    ]

-- A removal, with which only nodes of that id go down.
pub hash_remove_node-PathsUp :
    (rt rt' : RoutingTable) (gol : LisoHash) (id : ℕ)
    → IsValid gol
    → ((n : ℕ) → n ≢ id → NodeUp rt n → NodeUp rt' n)
    → PathsUp rt gol
    → PathsUp rt' (hash_remove_node gol id)
hash_remove_node-PathsUp rt rt' gol id v keeps all q = go (view gol q) refl
  where
    r : Removes gol id (hash_remove_node gol id)
    r = hash_remove_node-Removes gol id v

    go :
        (o : Option (List NodePath))
        → view gol q ≡ o
        → HeadUp rt' (or_nil (view (hash_remove_node gol id) q))
    go none e = rw (r.kept q (rw e tt), e) tt
    go (some []) e = rw (r.kept q (rw e tt), e) tt
    go (some (n ∷ ns)) e = elim (Bool-cases (n.node_id == id)) [
      | inl same ↦ rw (r.cleared q n ns e (ground arith)) tt
      | inr other ↦
          rw (r.kept q (rw e (ground (arith, other))), e)
            (keeps n.node_id (ground (arith, other)) (rw e at (all q)))
    ]

-- What the objects of a packet do to the table.
pub record Stores (rt : RoutingTable) (gol gol' : LisoHash) : Type 0 where
  pub valid : IsValid gol'
  pub paths : PathsUp rt gol'
  pub names : KeepsNames gol gol'

pub store_loop-Stores :
    (n : ℕ) (bytes : List ℕ) (rt : RoutingTable) (gol gol' : LisoHash) (id cost : ℕ)
    → IsValid gol
    → NodeUp rt id
    → PathsUp rt gol
    → store_loop n bytes gol id cost ≡ some gol'
    → Stores rt gol gol'
unfolding store_loop
store_loop-Stores zero bytes rt gol gol' id cost v h all run =
    subst (Stores rt gol) (some-injective _ _ run)
      (record { valid = v; paths = all; names = λ q e. e })
store_loop-Stores (suc n) bytes rt gol gol' id cost v h all run =
    elim (Option-cases (read_int bytes)) [
      | inl a ↦ absurd (cc (rw a at run))
      | inr (len, a) ↦ elim (Bool-cases (ltb len max_obj_len)) [
        | inr long ↦ absurd (cc (rw (a, long) at run))
        | inl short ↦ elim (Option-cases (strncpy len (drop 4 bytes))) [
          | inl b ↦ absurd (cc (rw (a, short, b) at run))
          | inr (object, b) ↦ elim (Option-cases (hash_add gol object id cost)) [
            | inl c ↦ absurd (cc (rw (a, short, b, c) at run))
            | inr (gol1, c) ↦
                let rest =
                  store_loop-Stores n (drop (4 + len) bytes) rt gol1 gol' id cost
                    (hash_add-Adds gol object id cost v c).valid h
                    (hash_add-PathsUp rt gol gol1 object id cost v h all c)
                    (rw (a, short, b, c) at run) in
                record {
                  valid = rest.valid;
                  paths = rest.paths;
                  names = λ q e. rest.names q (hash_add-KeepsNames gol gol1 object id cost v c q e);
                }
          ]
        ]
      ]
    ]

module _ (dl : DirectLinks) (rt : RoutingTable) (lsa : Lsa) (size nexthop : ℕ)
    (hops : HopsLinked dl rt) (link : HasLink dl nexthop) where
  pub updated_hops : (o : Option ℕ) → HopsLinked dl (updated rt dl o lsa size nexthop)
  unfolding count_entry
  updated_hops none j lt = elim (Bool-cases (j == rt.num_entry)) [
    | inl at ↦ rw at link
    | inr other ↦ rw other (hops j (ground arith))
  ]
  updated_hops (some i) j lt = elim (Bool-cases (j == i)) [
    | inr other ↦ rw other (hops j lt)
    | inl at ↦ elim (Bool-cases (slt (lsa_cost lsa) (rt.table i).cost)) [
      | inl less ↦ rw (at, less) link
      | inr more ↦
          rw (at, more) (subst (λ k. HasLink dl (rt.table k).nexthop) (ground arith) (hops j lt))
    ]
  ]

module _ (dl : DirectLinks) (rt : RoutingTable) (lsa : Lsa) (size nexthop : ℕ) where
  pub updated_nodes :
      (o : Option ℕ)
      → get_routing_entry rt lsa.sender_node_id ≡ o
      → KeepsUp rt (updated rt dl o lsa size nexthop)
  unfolding count_entry
  updated_nodes none e id (k, lt, same, up) = (k, omega arith, ground arith, ground arith)
  updated_nodes (some i) e id (k, lt, same, up) = (k, lt, ground arith, ground arith)

  updated_sender :
      (o : Option ℕ)
      → get_routing_entry rt lsa.sender_node_id ≡ o
      → NodeUp (updated rt dl o lsa size nexthop) lsa.sender_node_id
  unfolding count_entry
  updated_sender none e = (rt.num_entry, omega arith, ground arith, ground arith)
  updated_sender (some i) e =
      let f = get_routing_entry-Found rt lsa.sender_node_id i e in
      (i, f.inside, ground (arith, f.same), ground arith)

  -- The first entry is that of the same node, and does not go down.
  updated_home :
      (o : Option ℕ)
      → 0 < rt.num_entry
      → (rt.table 0).node_status ≢ status_down
      → let u = updated rt dl o lsa size nexthop in
        (0 < u.num_entry)
        × ((u.table 0).id ≡ (rt.table 0).id)
        × ((u.table 0).node_status ≢ status_down)
  unfolding count_entry
  updated_home none pos up = (omega arith, ground arith, ground arith)
  updated_home (some i) pos up = (pos, ground arith, ground arith)
