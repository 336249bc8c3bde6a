-- ===== src/Tests/Data.antt =====
-- The data that the tests share: names, tables of one object and of two, and a node with one
-- neighbour.
use p.Prelude.{
  ℕ, zero, suc, ◌+◌, ◌≡◌, refl, true, false, [], ◌∷◌, none, some, arith, ◌==◌, if◌then◌else◌,
  CString, str_eq, write, get_elem?, ◌⊎◌, inl, inr, Bool-cases,
}
use p.Tables.{LinkEntry, DirectLinks, LocalObjects}
use p.HashSet.{
  NodePath, LisoHash, hash_index, init_hash, contains_object, add_new, hash_add, link_contains_obj,
}
use p.HashSet.Hash.{super_fast_hash, hash_loop, hash_round, hash_rest, hash_rest_three, hash_final}
use p.HashSet.Add.{hash_add-Adds}
use p.HashSet.Invariant.{IsValid, init_hash-IsValid}
use p.Routing.{AckChecker, AckCheckers, RoutingEntry, RoutingTable}
use p.Routing.Update.{IsTable, FitsLinks}
use p.Flooding.{State}

abbrev pub lion : CString
lion = b'l' ∷ b'i' ∷ b'o' ∷ b'n' ∷ []

abbrev pub pig : CString
pig = b'p' ∷ b'i' ∷ b'g' ∷ []

abbrev pub at_three : NodePath
at_three = record { node_id = 3; cost = 2 }

abbrev pub with_lion : LisoHash
with_lion = record {
  hash =
      write init_hash.hash (hash_index lion)
        (record { obj_name = lion; path_s = at_three ∷ [] } ∷ init_hash.hash (hash_index lion));
  obj_names = write init_hash.obj_names init_hash.num_objs lion;
  num_objs = init_hash.num_objs + 1;
}

pub adding_lion : hash_add init_hash lion 3 2 ≡ some with_lion
unfolding hash_add contains_object add_new init_hash
adding_lion = refl

pub with_lion-IsValid : IsValid with_lion
with_lion-IsValid = (hash_add-Adds init_hash lion 3 2 init_hash-IsValid adding_lion).valid

abbrev pub with_both : LisoHash
with_both = record {
  hash = write with_lion.hash (hash_index pig) (
      record { obj_name = pig; path_s = record { node_id = 2; cost = 3 } ∷ [] }
      ∷ with_lion.hash (hash_index pig));
  obj_names = write with_lion.obj_names with_lion.num_objs pig;
  num_objs = with_lion.num_objs + 1;
}

pub adding_pig : hash_add with_lion pig 2 3 ≡ some with_both
unfolding hash_add contains_object add_new init_hash hash_index super_fast_hash hash_loop hash_round
    hash_rest hash_rest_three hash_final link_contains_obj str_eq
adding_pig = refl

pub with_both-IsValid : IsValid with_both
with_both-IsValid = (hash_add-Adds with_lion pig 2 3 with_lion-IsValid adding_pig).valid

abbrev pub own_link : LinkEntry
own_link = record { id = 1; host = b'a' ∷ []; local_p = 5026; route_p = 5025; server_p = 5027 }

abbrev pub next_link : LinkEntry
next_link = record { id = 3; host = b'b' ∷ []; local_p = 7026; route_p = 7025; server_p = 7027 }

abbrev pub two_links : DirectLinks
two_links = own_link ∷ next_link ∷ []

abbrev pub zoo : LocalObjects
zoo = record { name = lion; path = pig } ∷ record { name = pig; path = lion } ∷ []

abbrev pub quiet : ℕ → AckChecker
quiet id = record { id = id; ack_received = 1; retransmit = 0 }

abbrev pub quiet_list : AckCheckers
quiet_list = record { num_links = some 2; checkers = quiet 1 ∷ quiet 3 ∷ [] }

abbrev pub entry_of : ℕ → ℕ → RoutingEntry
entry_of id cost = record {
  id = id;
  nexthop = id;
  cost = cost;
  node_status = 3;
  lsa = none;
  lsa_size = 0;
  lsa_is_new = 0;
  forwarder_id = 0;
  checkers_list = some quiet_list;
}

abbrev pub spare_entry : RoutingEntry
spare_entry = record {
  id = 0;
  nexthop = 0;
  cost = 0;
  node_status = 0;
  lsa = none;
  lsa_size = 0;
  lsa_is_new = 0;
  forwarder_id = 0;
  checkers_list = none;
}

-- The routing table of node 1 with its neighbour 3, as it is loaded.
abbrev pub two_nodes : RoutingTable
two_nodes = record {
  table = λ i. if i == 0 then entry_of 1 0 else if i == 1 then entry_of 3 1 else spare_entry;
  num_entry = 2;
}

pub two_nodes-IsTable : IsTable two_links two_nodes
two_nodes-IsTable = record {
  bounded = omega arith;
  links = omega arith;
  linked = linked;
  distinct = λ a b ha hb e. ground arith;
  fits = λ i. fits i (Bool-cases (i == 0)) (Bool-cases (i == 1));
  allocated = λ i lt. ground arith;
  owned = λ i lsa lt e. ground arith;
  pending = λ i lt new up. ground arith;
}
  where
    linked :
        (i : ℕ) (l : LinkEntry) → get_elem? two_links i ≡ some l → (two_nodes.table i).id ≡ l.id
    linked zero l e = ground arith
    linked (suc zero) l e = ground arith
    linked (suc (suc i)) l e = cc

    fits :
        (i : ℕ)
        → ((i == 0) ≡ true) ⊎ ((i == 0) ≡ false)
        → ((i == 1) ≡ true) ⊎ ((i == 1) ≡ false)
        → FitsLinks two_links (two_nodes.table i).checkers_list
    fits i (inl a) b = rw a refl
    fits i (inr a) (inl b) = rw (a, b) refl
    fits i (inr a) (inr b) = rw (a, b) tt

abbrev pub start : State
start = record { rt = two_nodes; gol = init_hash; sent = [] }
