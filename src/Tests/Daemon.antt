-- ===== src/Tests/Daemon.antt =====
-- The theorems on the routing table and on flooding, at a node with one neighbour.
use p.Prelude.{◌≡◌, refl, [], ◌∷◌, none, some, arith, drop, true, false}
use p.Lsa.{
  Lsa, create_packet, object_size, link_bytes, object_bytes, int_bytes, lsa_cost,
  store_node_objects,
}
use p.Lsa.Header.{get_ttl, get_type, set_version, set_ttl, set_type, type_lsa}
use p.Routing.{
  RoutingTable, entry_loop, get_routing_entry, lookup_link_entry_node_id, update_entry, route_entry,
  attach_lsa, reset_checkers, ensure_checkers,
}
use p.Routing.Update.{IsTable, settled}
use p.Routing.Update.Routes.{updated}
use p.Routing.Update.Effect.{update_entry-IsTable}
use p.Flooding.{
  State, flood, is_stale, deref, age_lsa, handle_lsa, handle_ack, handle_packet, set_checker,
  ack_loop, acknowledge,
}
use p.Flooding.Checkers.{modify_entry}
use p.Flooding.Nodes.{is_up}
use p.Flooding.Flood.{Sends, to_each_up, flood-Sends}
use p.Flooding.Accept.{Accepts, handle_packet-Accepts, handle_packet-once}
use p.Flooding.Ack.{handle_ack-frame, handle_ack_uncounted}
use p.Flooding.Wellformed.{IsState, handle_packet-IsState}
use p.HashSet.Invariant.{init_hash-IsValid}
use p.Tests.Data.{two_links, two_nodes, two_nodes-IsTable, start}

own_entry : get_routing_entry two_nodes 1 ≡ some 0
unfolding get_routing_entry entry_loop
own_entry = refl

next_entry : get_routing_entry two_nodes 3 ≡ some 1
unfolding get_routing_entry entry_loop
next_entry = refl

no_entry : get_routing_entry two_nodes 9 ≡ none
unfolding get_routing_entry entry_loop
no_entry = refl

-- A packet of node 3 with no object.
abbrev pub from_next : Lsa
from_next = record {
  version_ttl_type = 0x1200000;
  sender_node_id = 3;
  sequence_num = 4;
  num_links = 0;
  num_objects = 0;
  links_objects = [];
}

-- A packet of node 9, which the configuration does not name.
abbrev from_far : Lsa
from_far = record from_next { sender_node_id = 9 }

is_lsa : get_type 0x1200000 ≡ type_lsa
unfolding get_type
is_lsa = refl

update_entry-IsTable_example :
    (rt' : RoutingTable) × (update_entry
        (get_routing_entry two_nodes 3)
        two_nodes
        two_links
        (some from_next)
        20
        3
      ≡ some rt')
    × IsTable two_links rt'
unfolding get_routing_entry entry_loop
update_entry-IsTable_example =
    update_entry-IsTable two_links two_nodes from_next 20 3 two_nodes-IsTable is_lsa tt

abbrev own_packet : Lsa
own_packet = record from_next {
  sender_node_id = 1;
  num_links = 1;
  links_objects = 3 ∷ 0 ∷ 0 ∷ 0 ∷ 7 ∷ 7 ∷ 7 ∷ 7 ∷ [];
}

creating : create_packet type_lsa 1 4 two_links [] (7 ∷ 7 ∷ 7 ∷ 7 ∷ []) ≡ some (own_packet, 28)
unfolding create_packet set_type set_ttl set_version object_size link_bytes object_bytes int_bytes
creating = refl

flood-Sends_example :
    (s' : State) × (flood type_lsa two_links [] 1 4 (7 ∷ 7 ∷ 7 ∷ 7 ∷ []) start ≡ some s')
    × Sends two_links
        (record start { rt = updated two_nodes two_links (some 0) own_packet 28 1 })
        (to_each_up
          (updated two_nodes two_links (some 0) own_packet 28 1)
          (drop 1 two_links)
          own_packet
          28)
        s'
flood-Sends_example =
    flood-Sends two_links [] 1 4 (7 ∷ 7 ∷ 7 ∷ 7 ∷ []) start 0 two_nodes-IsTable (omega arith)
      own_entry own_packet 28 creating

-- One datagram, to the neighbour.
sending :
    to_each_up two_nodes (drop 1 two_links) own_packet 28
    ≡ record { packet = own_packet; host = b'b' ∷ []; port = 7025; size = 28 } ∷ []
unfolding to_each_up is_up get_routing_entry entry_loop
sending = refl

-- The state after the packet of node 3 was accepted: the ACK was sent to it.
abbrev pub accepted : State
accepted = record start {
  rt = updated two_nodes two_links (some 1) (age_lsa from_next) 20 3;
  sent =
      record {
        packet = record from_next { version_ttl_type = 0x1200001 };
        host = b'b' ∷ [];
        port = 7025;
        size = 20;
      }
      ∷ [];
}

pub accepting : handle_packet two_links from_next 3 20 start ≡ some (accepted, true)
unfolding handle_packet handle_lsa is_stale deref get_routing_entry entry_loop
    lookup_link_entry_node_id update_entry reset_checkers age_lsa store_node_objects get_type
    get_ttl set_type set_ttl settled lsa_cost
accepting = refl

handle_packet-Accepts_example : Accepts two_links from_next 3 20 accepted
handle_packet-Accepts_example =
    handle_packet-Accepts two_links from_next 3 20 start accepted two_nodes-IsTable (omega arith)
      is_lsa accepting

handle_packet-IsState_example : IsState two_links accepted
handle_packet-IsState_example =
    handle_packet-IsState two_links from_next 3 20 start accepted
      (record { table = two_nodes-IsTable; objects = init_hash-IsValid }) (omega arith) true
      accepting

handle_packet-once_example :
    handle_packet two_links from_next 1 20 accepted ≡ some (accepted, false)
handle_packet-once_example =
    handle_packet-once two_links from_next 3 20 start accepted two_nodes-IsTable (omega arith)
      is_lsa accepting from_next 1 20 is_lsa refl refl

abbrev ack_of_own : Lsa
ack_of_own = record own_packet { version_ttl_type = 0x1200001 }

abbrev acknowledged : State
acknowledged = record start { rt = modify_entry two_nodes 0 1 acknowledge }

handling_ack : handle_ack ack_of_own 3 start ≡ some acknowledged
unfolding handle_ack deref ack_loop get_routing_entry entry_loop set_checker
handling_ack = refl

handle_ack-frame_example : acknowledged.rt.table 1 ≡ start.rt.table 1
handle_ack-frame_example =
    handle_ack-frame ack_of_own 3 start acknowledged 1 handling_ack (omega arith)

updating_far :
    update_entry none two_nodes two_links (some from_far) 20 3
    ≡ some (updated two_nodes two_links none from_far 20 3)
unfolding update_entry route_entry attach_lsa reset_checkers ensure_checkers settled get_type
    lsa_cost get_ttl
updating_far = refl

handle_ack_uncounted_example :
    handle_ack
      (record from_far { version_ttl_type = 0x1200001 })
      3
      (record start { rt = updated two_nodes two_links none from_far 20 3 })
    ≡ none
handle_ack_uncounted_example =
    handle_ack_uncounted two_links from_far (record from_far { version_ttl_type = 0x1200001 }) 20 3
      3 start (updated two_nodes two_links none from_far 20 3) two_nodes-IsTable is_lsa no_entry
      refl updating_far refl
