-- ===== src/Flooding.antt =====
-- rd/flooding_engine.c: receiving, flooding and retransmitting packets. The state is the routing
-- table, the object table and the datagrams sent so far; `none` is a fault.
pub mod Checkers
pub mod Nodes
pub mod Flood
pub mod Forward
pub mod Retransmit
pub mod Wellformed
pub mod Retries
pub mod Routed
pub mod Age
pub mod Accept
pub mod Ack
pub mod Hear
pub mod Settle
pub mod Owed
pub mod Own
pub mod Marks
use p.Prelude.{
  ℕ, zero, suc, ◌+◌, ◌-◌, Bool, true, false, ◌&&◌, ◌||◌, not, List, [], ◌∷◌, ◌++◌, Option, none,
  some, ◌==◌, ltb, if◌then◌else◌, sle, rounds, sub32, length, get_elem?, take, drop, CString, write,
  ◌>>=◌, ◌>>◌,
}
use p.Tables.{LinkEntry, DirectLinks, LocalObjects}
use p.HashSet.{LisoHash, hash_remove_node}
use p.Lsa.{Lsa, lsa_size, bytes_to_packet, create_packet, store_node_objects}
use p.Lsa.Header.{type_lsa, type_ack, get_ttl, get_type, set_ttl, set_type}
use p.Routing.{
  AckChecker, AckCheckers, RoutingEntry, RoutingTable, get_routing_entry, lookup_link_entry,
  lookup_link_entry_node_id, update_entry, retransmit_time, status_down, ack_was_received,
  ack_not_received,
}

-- rd/constants.h
abbrev pub max_lsa_len : ℕ
max_lsa_len = 1024

-- What `rt_sendto` gives to `sendto`: the packet, the address and the size.
pub record Datagram : Type 0 where
  pub packet : Lsa
  pub host : CString
  pub port : ℕ
  pub size : ℕ

pub record State : Type 0 where
  pub rt : RoutingTable
  pub gol : LisoHash
  pub sent : List Datagram

unfoldable pub rt_sendto : State → Lsa → CString → ℕ → ℕ → State
rt_sendto s lsa host port size = record s {
  sent = s.sent ++ record { packet = lsa; host = host; port = port; size = size } ∷ [];
}

-- What `recvfrom` returns: an error, or the bytes and the text of the sender's address.
pub data Arrival : Type 0 where
  failed : Arrival
  datagram : List ℕ → CString → Arrival

-- The packet, the forwarder and the size; the inner `none` is the null pointer. The return value -1
-- is compared as an unsigned number, so it passes the test, and the copy of that size faults.
unfoldable pub rt_recvfrom : Arrival → DirectLinks → Option (Option (Lsa × ℕ × ℕ))
rt_recvfrom failed dl = none
rt_recvfrom (datagram bytes address) dl =
    let buf = take max_lsa_len bytes in
    if ltb (length buf) lsa_size then some none else do
      lsa ← bytes_to_packet buf
      forwarder ← lookup_link_entry dl address
      some (some (lsa, forwarder.id, length buf))

-- A write to member `i` of an array of checkers; `none` out of range.
unfoldable pub set_checker :
    List AckChecker → ℕ → (AckChecker → AckChecker) → Option (List AckChecker)
set_checker [] i f = none
set_checker (c ∷ cs) zero f = some (f c ∷ cs)
set_checker (c ∷ cs) (suc i) f = do rest ← set_checker cs i f; some (c ∷ rest)

-- `rt->table[k].checkers_list->checkers[i]`, written.
unfoldable pub set_entry_checker :
    RoutingTable → ℕ → ℕ → (AckChecker → AckChecker) → Option RoutingTable
unfolding set_checker
set_entry_checker rt k i f = do
  list ← (rt.table k).checkers_list
  cs ← set_checker list.checkers i f
  let updated = record list { checkers = cs }
  some (record rt {
    table = write rt.table k (record (rt.table k) { checkers_list = some updated });
  })

abbrev pub acknowledge : AckChecker → AckChecker
acknowledge c = record c { ack_received = ack_was_received; retransmit = 0 }

-- The loop of `lsa_handler` on an ACK, with the rounds left and `i`: the ids are read in the list of
-- the packet's entry, and the marks are set in the list of entry 0.
unfoldable pub ack_loop : ℕ → ℕ → List AckChecker → ℕ → RoutingTable → Option RoutingTable
unfolding set_entry_checker
ack_loop zero i cs forwarder_id rt = some rt
ack_loop (suc n) i cs forwarder_id rt = do
  c ← get_elem? cs i
  rt' ← if c.id == forwarder_id then set_entry_checker rt 0 i acknowledge else some rt
  ack_loop n (i + 1) cs forwarder_id rt'

-- The first test of `lsa_handler`: an LSA that is not newer than the last, or the ACK of another.
unfoldable pub is_stale : Option RoutingEntry → ℕ → Lsa → Bool
is_stale none type lsa = false
is_stale (some entry) type lsa = elim entry.lsa [
  | none ↦ false
  | some last ↦
      (type == type_lsa && sle lsa.sequence_num last.sequence_num)
      || (type == type_ack && not (lsa.sequence_num == last.sequence_num))
]

-- The entry that a pointer leads to.
unfoldable pub deref : RoutingTable → Option ℕ → Option RoutingEntry
deref rt none = none
deref rt (some i) = some (rt.table i)

-- The packet after the ACK was sent: the handler writes its old word back by `SET_TYPE`, and takes
-- one off the time to live.
unfoldable pub age_lsa : Lsa → Lsa
age_lsa lsa =
    let tmp_type = lsa.version_ttl_type in
    let restored = set_type (set_type lsa.version_ttl_type type_ack) tmp_type in
    let new_ttl = sub32 (get_ttl restored) 1 in
    record lsa { version_ttl_type = set_ttl restored new_ttl }

-- The branch of the type LSA: the ACK to the forwarder, the time to live, the routes, the objects.
unfoldable pub handle_lsa : DirectLinks → Lsa → ℕ → ℕ → State → Option State
unfolding rt_sendto
handle_lsa dl lsa forwarder_id size s = do
  let ack = record lsa { version_ttl_type = set_type lsa.version_ttl_type type_ack }
  src_link ← lookup_link_entry_node_id dl forwarder_id
  let s1 = rt_sendto s ack src_link.host src_link.route_p size
  let aged = age_lsa lsa
  rt' ←
      update_entry (get_routing_entry s.rt lsa.sender_node_id) s.rt dl (some aged) size forwarder_id
  gol' ← store_node_objects s.gol aged
  some (record s1 { rt = rt'; gol = gol' })

-- The branch of the type ACK.
unfoldable pub handle_ack : Lsa → ℕ → State → Option State
unfolding ack_loop deref
handle_ack lsa forwarder_id s = do
  entry ← deref s.rt (get_routing_entry s.rt lsa.sender_node_id)
  list ← entry.checkers_list
  num_links ← list.num_links
  rt' ← ack_loop (rounds num_links) 0 list.checkers forwarder_id s.rt
  some (record s { rt = rt' })

-- `lsa_handler` behind the reception; the flag is its return value, 1 or -1.
unfoldable pub handle_packet : DirectLinks → Lsa → ℕ → ℕ → State → Option (State × Bool)
handle_packet dl lsa forwarder_id size s =
    let type = get_type lsa.version_ttl_type in
    if is_stale (deref s.rt (get_routing_entry s.rt lsa.sender_node_id)) type lsa
    then some (s, false)
    else if type == type_lsa
    then (do s' ← handle_lsa dl lsa forwarder_id size s; some (s', true))
    else if type == type_ack
    then (do s' ← handle_ack lsa forwarder_id s; some (s', true))
    else some (s, true)

-- A null pointer from `rt_recvfrom` is read through.
unfoldable pub lsa_handler : Arrival → DirectLinks → State → Option (State × Bool)
lsa_handler arrival dl s = do
  received ← rt_recvfrom arrival dl
  (lsa, forwarder_id, size) ← received
  handle_packet dl lsa forwarder_id size s

-- The loop of `flood` from the links that are left and `i`; `k` is the index of the node's entry.
unfoldable pub flood_loop : DirectLinks → ℕ → ℕ → Lsa → ℕ → State → Option State
unfolding rt_sendto set_entry_checker deref
flood_loop [] i k lsa size s = some s
flood_loop (l ∷ ls) i k lsa size s = do
  neighbour ← deref s.rt (get_routing_entry s.rt l.id)
  s' ← if neighbour.node_status == status_down then some s else do
    let s1 = rt_sendto s lsa l.host l.route_p size
    rt' ← set_entry_checker s1.rt k i (λ c. record c { ack_received = ack_not_received })
    some (record s1 { rt = rt' })
  flood_loop ls (i + 1) k lsa size s'

-- A packet of the node is built, kept in its entry, and sent to every neighbour that is up. The
-- entry is read through the pointer of the lookup before the update.
unfoldable pub flood : ℕ → DirectLinks → LocalObjects → ℕ → ℕ → List ℕ → State → Option State
unfolding flood_loop
flood lsa_type dl ol node_id sequence_num unset s = do
  (lsa, size) ← create_packet lsa_type node_id sequence_num dl ol unset
  let entry = get_routing_entry s.rt node_id
  rt' ← update_entry entry s.rt dl (some lsa) size node_id
  k ← entry
  flood_loop (drop 1 dl) 1 k lsa size (record s { rt = rt' })

-- The packet of entry `src`, read through the pointer to it: each packet is kept by one entry, so the
-- pointer dangles once that entry has freed it.
unfoldable pub lsa_of : RoutingTable → ℕ → Option Lsa
lsa_of rt src = (rt.table src).lsa

-- A neighbour that has not answered three times: its packet is freed, its entry is down, and no
-- object is found through it any more.
unfoldable pub give_up : ℕ → ℕ → ℕ → State → Option State
unfolding set_entry_checker
give_up entry k i s = do
  let down = record (s.rt.table entry) { lsa = none; node_status = status_down }
  let rt1 = record s.rt { table = write s.rt.table entry down }
  rt2 ← set_entry_checker rt1 k i (λ c. record c { ack_received = ack_was_received })
  some (record s { rt = rt2; gol = hash_remove_node s.gol (s.rt.table entry).id })

-- Another transmission, counted.
unfoldable pub send_again : ℕ → LinkEntry → ℕ → ℕ → ℕ → State → Option State
unfolding rt_sendto set_entry_checker lsa_of
send_again src l k i size s = do
  lsa ← lsa_of s.rt src
  let s1 = rt_sendto s lsa l.host l.route_p size
  rt' ← set_entry_checker s1.rt k i (λ c. record c { retransmit = c.retransmit + 1 })
  some (record s1 { rt = rt' })

-- The body of the loop of `retransmit_missing` for a link that owes an ACK.
unfoldable pub retry_link : ℕ → LinkEntry → ℕ → ℕ → ℕ → AckChecker → State → Option State
retry_link src l k i size c s =
    if sle (retransmit_time - 1) c.retransmit
    then (do entry ← get_routing_entry s.rt l.id; give_up entry k i s)
    else do
      entry ← get_routing_entry s.rt l.id
      if (s.rt.table entry).node_status == status_down then some s else send_again src l k i size s

-- The loop, from the links that are left and `i`; `k` is the entry whose checkers are read.
unfoldable pub retransmit_loop : DirectLinks → ℕ → ℕ → ℕ → ℕ → ℕ → State → Option State
retransmit_loop [] i src k size forwarder_id s = some s
retransmit_loop (l ∷ ls) i src k size forwarder_id s = do
  s' ← if l.id == forwarder_id then some s else do
    list ← (s.rt.table k).checkers_list
    c ← get_elem? list.checkers i
    if c.ack_received == ack_not_received then retry_link src l k i size c s else some s
  retransmit_loop ls (i + 1) src k size forwarder_id s'

-- `src` is the entry whose packet is retransmitted; with no packet nothing is done.
unfoldable pub retransmit_missing : ℕ → DirectLinks → ℕ → ℕ → State → Option State
retransmit_missing src dl size forwarder_id s = elim (lsa_of s.rt src) [
  | none ↦ some s
  | some lsa ↦ do
    k ← get_routing_entry s.rt lsa.sender_node_id
    retransmit_loop (drop 1 dl) 1 src k size forwarder_id s
]

-- The loop of `flood_received_lsa`.
unfoldable pub forward_loop : DirectLinks → ℕ → ℕ → Lsa → ℕ → ℕ → State → Option State
unfolding rt_sendto set_entry_checker deref
forward_loop [] i k lsa size forwarder_id s = some s
forward_loop (l ∷ ls) i k lsa size forwarder_id s = do
  s' ← if l.id == forwarder_id then some s else do
    neighbour ← deref s.rt (get_routing_entry s.rt l.id)
    if neighbour.node_status == status_down then some s else do
      let s1 = rt_sendto s lsa l.host l.route_p size
      rt' ← set_entry_checker s1.rt k i (λ c. record c { ack_received = ack_not_received })
      some (record s1 { rt = rt' })
  forward_loop ls (i + 1) k lsa size forwarder_id s'

-- A null packet is read through.
unfoldable pub flood_received_lsa : Option Lsa → DirectLinks → ℕ → ℕ → State → Option State
unfolding forward_loop
flood_received_lsa packet dl size forwarder_id s = do
  lsa ← packet
  k ← get_routing_entry s.rt lsa.sender_node_id
  forward_loop (drop 1 dl) 1 k lsa size forwarder_id s
