-- ===== src/Routing/Update/Routes.antt =====
-- Writes to one entry of a well-formed routing table, and `update_entry` as such a write.
use p.Prelude.{
  ℕ, ◌+◌, ◌≤◌, ◌<◌, ◌≡◌, ◌≢◌, refl, true, false, Option, none, some, arith, ◌==◌, if◌then◌else◌,
  ◌⊎◌, inl, inr, write, Bool-cases, lt→ltb, slt,
}
use p.Tables.{DirectLinks, max_nodes}
use p.Lsa.{Lsa, lsa_cost}
use p.HashSet.Invariant.{is_some}
use p.Routing.{RoutingEntry, RoutingTable, retransmit_time, route_entry, count_entry, status_down}
use p.Routing.Update.{length-settled, FitsLinks, attached, IsTable, get_elem?-lt}

-- An entry as the table may hold it.
pub record IsEntry (dl : DirectLinks) (e : RoutingEntry) : Type 0 where
  pub fits : FitsLinks dl e.checkers_list
  pub allocated : is_some e.checkers_list ≡ true
  pub owned : (lsa : Lsa) → e.lsa ≡ some lsa → lsa.sender_node_id ≡ e.id
  pub pending : e.lsa_is_new ≡ 1 → e.node_status ≢ status_down → is_some e.lsa ≡ true

module _ (dl : DirectLinks) (rt : RoutingTable) (v : IsTable dl rt) where
  -- A new value of an entry, for the same node.
  pub put-IsTable :
      (i : ℕ) (e : RoutingEntry)
      → i < rt.num_entry
      → e.id ≡ (rt.table i).id
      → IsEntry dl e
      → IsTable dl (record rt { table = write rt.table i e })
  put-IsTable i e lt same good = record {
    bounded = v.bounded;
    links = v.links;
    linked = λ j l at. ground (arith, v.linked j l);
    distinct = λ a b ha hb eq. ground (arith, v.distinct a b);
    fits = λ j. fits j (Bool-cases (j == i));
    allocated = λ j hj. ground (arith, v.allocated j, good.allocated);
    owned = λ j lsa hj at. ground (arith, v.owned j lsa, good.owned lsa);
    pending = λ j hj new up. ground (arith, v.pending j, good.pending);
  }
    where
      fits :
          (j : ℕ)
          → ((j == i) ≡ true) ⊎ ((j == i) ≡ false)
          → FitsLinks dl (write rt.table i e j).checkers_list
      fits j (inl at) = rw at good.fits
      fits j (inr other) = rw other (v.fits j)

  -- An entry for a node that has none.
  pub push-IsTable :
      (e : RoutingEntry)
      → rt.num_entry < max_nodes
      → ((k : ℕ) → k < rt.num_entry → (rt.table k).id ≢ e.id)
      → IsEntry dl e
      → IsTable dl (record { table = write rt.table rt.num_entry e; num_entry = rt.num_entry + 1 })
  push-IsTable e room fresh good = record {
    bounded = bounded;
    links = omega (arith, v.links);
    linked = λ j l at. ground (arith, v.linked j l, get_elem?-lt dl j l at, v.links);
    distinct = λ a b ha hb eq. ground (arith, v.distinct a b, fresh a, fresh b);
    fits = λ j. fits j (Bool-cases (j == rt.num_entry));
    allocated = λ j hj. ground (arith, v.allocated j, good.allocated);
    owned = λ j lsa hj at. ground (arith, v.owned j lsa, good.owned lsa);
    pending = λ j hj new up. ground (arith, v.pending j, good.pending);
  }
    where
      bounded : rt.num_entry + 1 ≤ max_nodes
      bounded = room_le room
        where
          room_le : rt.num_entry < max_nodes → rt.num_entry + 1 ≤ max_nodes
          room_le h = omega arith

      fits :
          (j : ℕ)
          → ((j == rt.num_entry) ≡ true) ⊎ ((j == rt.num_entry) ≡ false)
          → FitsLinks dl (write rt.table rt.num_entry e j).checkers_list
      fits j (inl at) = rw at good.fits
      fits j (inr other) = rw other (v.fits j)

pub attached-IsEntry :
    (dl : DirectLinks) (lsa : Lsa) (lsa_size nexthop : ℕ) (e : RoutingEntry)
    → lsa.sender_node_id ≡ e.id
    → IsEntry dl (attached dl lsa lsa_size nexthop e)
attached-IsEntry dl lsa lsa_size nexthop e own = record {
  fits = length-settled dl;
  allocated = refl;
  owned = λ other at. ground arith;
  pending = λ new up. refl;
}

-- The entry of the sender after a packet of the type LSA: the cheaper of the old route and the one
-- through the forwarder, or the latter where the node is new.
abbrev pub routed : RoutingTable → Option ℕ → Lsa → ℕ → RoutingEntry
routed rt (some i) lsa nexthop = record (rt.table i) {
  nexthop = if slt (lsa_cost lsa) (rt.table i).cost then nexthop else (rt.table i).nexthop;
  cost = if slt (lsa_cost lsa) (rt.table i).cost then lsa_cost lsa else (rt.table i).cost;
  node_status = retransmit_time;
}
routed rt none lsa nexthop = record (rt.table rt.num_entry) {
  id = lsa.sender_node_id;
  nexthop = nexthop;
  cost = lsa_cost lsa;
  node_status = retransmit_time;
}

abbrev pub entry_index : RoutingTable → Option ℕ → ℕ
entry_index rt (some i) = i
entry_index rt none = rt.num_entry

-- The table has room for a node that is not there.
abbrev pub HasPlace : RoutingTable → Option ℕ → Type 0
HasPlace rt (some i) = Unit
HasPlace rt none = rt.num_entry < max_nodes

pub route_entry-routed :
    (o : Option ℕ) (rt : RoutingTable) (lsa : Lsa) (nexthop : ℕ)
    → HasPlace rt o
    → route_entry o rt lsa nexthop ≡ some (entry_index rt o, routed rt o lsa nexthop)
unfolding route_entry
route_entry-routed (some i) rt lsa nexthop room = ground arith
route_entry-routed none rt lsa nexthop room = rw (lt→ltb rt.num_entry max_nodes room)

abbrev pub updated : RoutingTable → DirectLinks → Option ℕ → Lsa → ℕ → ℕ → RoutingTable
updated rt dl o lsa lsa_size nexthop = record {
  table =
      write rt.table (entry_index rt o)
        (attached dl lsa lsa_size nexthop (routed rt o lsa nexthop));
  num_entry = count_entry o rt.num_entry;
}
