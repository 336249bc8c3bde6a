-- ===== src/Routing.antt =====
-- rd/routing_table.h and rd/flooding_engine.c: the routing table, its lookups, and `update_entry`. A
-- pointer into the table is an index of it.
pub mod Lookup
pub mod Update
use p.Prelude.{
  ℕ, zero, suc, ◌+◌, Bool, true, false, List, [], ◌∷◌, Option, none, some, ◌==◌, ltb, if◌then◌else◌,
  slt, length, CString, str_eq, write, ◌>>=◌, ◌>>◌, defined,
}
use p.Tables.{LinkEntry, DirectLinks, max_nodes}
use p.Lsa.{Lsa, lsa_cost}
use p.Lsa.Header.{type_lsa, get_type}

-- rd/constants.h
abbrev pub retransmit_time : ℕ
retransmit_time = 4

abbrev pub status_down : ℕ
status_down = 0

abbrev pub ack_was_received : ℕ
ack_was_received = 1

abbrev pub ack_not_received : ℕ
ack_not_received = 0

-- `struct ack_checker`
pub record AckChecker : Type 0 where
  pub id : ℕ
  pub ack_received : ℕ
  pub retransmit : ℕ

-- `struct ack_checkers`: the flexible array has as many members as were allocated. The count is
-- `none` until the code sets it.
pub record AckCheckers : Type 0 where
  pub num_links : Option ℕ
  pub checkers : List AckChecker

-- `struct routing_entry`; a null pointer is `none`.
pub record RoutingEntry : Type 0 where
  pub id : ℕ
  pub nexthop : ℕ
  pub cost : ℕ
  pub node_status : ℕ
  pub lsa : Option Lsa
  pub lsa_size : ℕ
  pub lsa_is_new : ℕ
  pub forwarder_id : ℕ
  pub checkers_list : Option AckCheckers

-- `struct routing_table`
pub record RoutingTable : Type 0 where
  pub table : ℕ → RoutingEntry
  pub num_entry : ℕ

-- The loop of `get_routing_entry`, with the rounds left and `i`.
unfoldable pub entry_loop : ℕ → ℕ → (ℕ → RoutingEntry) → ℕ → Option ℕ
entry_loop zero i table node_id = none
entry_loop (suc n) i table node_id =
    let rest = entry_loop n (i + 1) table node_id in
    if (table i).id == node_id then some i else rest

unfoldable pub get_routing_entry : RoutingTable → ℕ → Option ℕ
get_routing_entry rt node_id = entry_loop rt.num_entry 0 rt.table node_id

-- The loop of `lookup_link_entry`, from the entries that are left.
unfoldable pub host_loop : DirectLinks → CString → Option LinkEntry
host_loop [] address = none
host_loop (l ∷ ls) address = if str_eq l.host address then some l else host_loop ls address

-- `address` is the text that `inet_ntoa` makes of the sender; the loop starts at index 1.
unfoldable pub lookup_link_entry : DirectLinks → CString → Option LinkEntry
lookup_link_entry [] address = none
lookup_link_entry (own ∷ ls) address = host_loop ls address

unfoldable pub lookup_link_entry_node_id : DirectLinks → ℕ → Option LinkEntry
lookup_link_entry_node_id [] node_id = none
lookup_link_entry_node_id (l ∷ ls) node_id =
    if l.id == node_id then some l else lookup_link_entry_node_id ls node_id

-- What `malloc` leaves in the array, before the loop below sets every member.
unfoldable pub unset_checkers : DirectLinks → List AckChecker
unset_checkers [] = []
unset_checkers (l ∷ ls) = record { id = 0; ack_received = 0; retransmit = 0 } ∷ unset_checkers ls

-- The loop at the end of `update_entry`; `none` where the array is shorter than the links.
unfoldable pub reset_checkers : DirectLinks → List AckChecker → Option (List AckChecker)
reset_checkers [] cs = some cs
reset_checkers (l ∷ ls) [] = none
reset_checkers (l ∷ ls) (c ∷ cs) = do
  rest ← reset_checkers ls cs
  some (record { id = l.id; ack_received = ack_was_received; retransmit = 0 } ∷ rest)

-- `malloc` where the entry has no array; the count of the new one is not set.
unfoldable pub ensure_checkers : DirectLinks → Option AckCheckers → AckCheckers
unfolding unset_checkers
ensure_checkers dl none = record { num_links = none; checkers = unset_checkers dl }
ensure_checkers dl (some cs) = cs

-- The second half of `update_entry`: the new packet replaces the old one, and no link owes an ACK.
unfoldable pub attach_lsa : DirectLinks → Lsa → ℕ → ℕ → RoutingEntry → Option RoutingEntry
unfolding ensure_checkers
attach_lsa dl lsa lsa_size nexthop entry = do
  let list = ensure_checkers dl entry.checkers_list
  cs ← reset_checkers dl list.checkers
  some (record entry {
    lsa = some lsa;
    lsa_is_new = 1;
    lsa_size = lsa_size;
    forwarder_id = nexthop;
    checkers_list = some (record list { checkers = cs });
  })

-- `if (new_cost < old_cost)`
unfoldable pub improve : ℕ → ℕ → RoutingEntry → RoutingEntry
improve nexthop new_cost entry =
    if slt new_cost entry.cost then record entry { nexthop = nexthop; cost = new_cost } else entry

-- The first half of `update_entry` on a packet of the type LSA: the index of the entry, and the
-- entry. A new one takes the place behind the last, and keeps what that place holds otherwise.
unfoldable pub route_entry : Option ℕ → RoutingTable → Lsa → ℕ → Option (ℕ × RoutingEntry)
unfolding improve
route_entry (some i) rt lsa nexthop =
    some (i, record (improve nexthop (lsa_cost lsa) (rt.table i)) { node_status = retransmit_time })
route_entry none rt lsa nexthop = do
  defined (ltb rt.num_entry max_nodes)
  some (
    rt.num_entry,
    record (rt.table rt.num_entry) {
      id = lsa.sender_node_id;
      nexthop = nexthop;
      cost = lsa_cost lsa;
      node_status = retransmit_time;
    },
  )

-- The other types go to the entry that was looked up; a null pointer is written through.
unfoldable pub other_entry : Option ℕ → RoutingTable → Option (ℕ × RoutingEntry)
other_entry (some i) rt = some (i, rt.table i)
other_entry none rt = none

-- `rt->num_entry++` where the entry is new.
unfoldable pub count_entry : Option ℕ → ℕ → ℕ
count_entry (some i) n = n
count_entry none n = n + 1

-- `entry` is what `get_routing_entry` returned. A null packet changes nothing.
unfoldable pub update_entry :
    Option ℕ → RoutingTable → DirectLinks → Option Lsa → ℕ → ℕ → Option RoutingTable
unfolding route_entry other_entry count_entry attach_lsa
update_entry entry rt dl none lsa_size nexthop = some rt
update_entry entry rt dl (some lsa) lsa_size nexthop = do
  (i, routed) ←
      if get_type lsa.version_ttl_type == type_lsa
      then route_entry entry rt lsa nexthop
      else other_entry entry rt
  updated ← attach_lsa dl lsa lsa_size nexthop routed
  some (record { table = write rt.table i updated; num_entry = count_entry entry rt.num_entry })
